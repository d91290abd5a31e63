-- ===== src/Extraction/Verifier/Words.antt =====
-- `normalize_whitespace`: the words of a text, with one space between two.
use personal_knowledge_os.Prelude.{true, false, List, [], ◌∷◌, ◌++◌, if◌then◌else◌, is_empty}
use personal_knowledge_os.Text.{Text, is_whitespace}

-- a word that has been read, if it is not empty
unfoldable pub flush : Text → List Text → List Text
flush word rest = if is_empty word then rest else word ∷ rest

unfoldable pub words_from : Text → Text → List Text
words_from word [] = flush word []
words_from word (c ∷ s) = elim (is_whitespace c) [
  | true ↦ flush word (words_from [] s)
  | false ↦ words_from (word ++ c ∷ []) s
]

-- `str::split_whitespace`
unfoldable pub split_whitespace : Text → List Text
unfolding words_from flush
split_whitespace s = words_from [] s

unfoldable pub join_rest : Text → List Text → Text
join_rest sep [] = []
join_rest sep (w ∷ ws) = sep ++ (w ++ join_rest sep ws)

-- `[_]::join`
unfoldable pub join : Text → List Text → Text
unfolding join_rest
join sep [] = []
join sep (w ∷ ws) = w ++ join_rest sep ws

-- `normalize_whitespace`
unfoldable pub normalize_whitespace : Text → Text
unfolding split_whitespace join
normalize_whitespace value = join (b' ' ∷ []) (split_whitespace value)
