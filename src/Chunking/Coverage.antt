-- ===== src/Chunking/Coverage.antt =====
-- No character but whitespace is left out of the chunks of `chunk_text`.
use personal_knowledge_os.Prelude.{
  ℕ, zero, suc, ◌+◌, ◌-◌, ◌^◌, ◌≤◌, ◌<◌, ◌≡◌, refl, sym, inl, inr, false, true, List, [], ◌∷◌, some,
  arith, length, slice, drop, get_elem?, get_elem?-take, get_elem?-drop, Any,
}
use native.Mathlib.Decide.{dec_lt}
use personal_knowledge_os.Text.{Text, trim, trim-IsBlank, is_whitespace, IsBlank}
use personal_knowledge_os.Chunking.{
  Chunk, window_end, push_chunk, chunk_text, target_of, overlap_of,
}
use personal_knowledge_os.Chunking.Window.{window_end_bounds}
use personal_knowledge_os.Chunking.Progress.{
  Run, done, last, step, next_start_bounds, chunk_text-Run,
}

-- The chunk's window holds the index.
abbrev pub Holds : ℕ → Chunk → Type 0
Holds i c = (c.char_start ≤ i) × (i < c.char_end)

IsBlank-get_elem? :
    (s : Text) (i c : ℕ) → IsBlank s → get_elem? s i ≡ some c → is_whitespace c ≡ true
IsBlank-get_elem? [] i c b e = cc
IsBlank-get_elem? (x ∷ s) zero c b e = ground arith
IsBlank-get_elem? (x ∷ s) (suc i) c b e = IsBlank-get_elem? s i c b.1 e

get_elem?-slice :
    (s : Text) (start end i : ℕ)
    → start ≤ i
    → i < end
    → get_elem? (slice s start end) (i - start) ≡ get_elem? s i
get_elem?-slice s start end i h k =
    let e : start + (i - start) ≡ i = omega arith in
    rw (get_elem?-take (end - start) (i - start) (drop start s) (omega arith), get_elem?-drop, e)

lookup-lt : (s : Text) (i c : ℕ) → get_elem? s i ≡ some c → i < length s
lookup-lt [] i c e = cc
lookup-lt (x ∷ s) zero c e = omega arith
lookup-lt (x ∷ s) (suc i) c e = omega (arith, lookup-lt s i c e)

module _ (chars : Text) (target overlap : ℕ) (t : 128 ≤ target) (small : length chars < 2 ^ 31)
    (i c : ℕ) (at : get_elem? chars i ≡ some c) (solid : is_whitespace c ≡ false) where
  push-here :
      (content : Text) (position start end : ℕ) (rest : List Chunk)
      → content ≡ trim (slice chars start end)
      → end ≤ length chars
      → start ≤ i
      → i < end
      → Any (Holds i) (push_chunk content position start end rest)
  unfolding push_chunk
  push-here [] position start end rest e b h k = cc (
      IsBlank-get_elem? (slice chars start end) (i - start) c (trim-IsBlank _ (sym e))
        (rw (get_elem?-slice chars start end i h k) at))
  push-here (x ∷ s) position start end rest e b h k = inl (omega arith)

  push-later :
      (content : Text) (position start end : ℕ) (rest : List Chunk)
      → Any (Holds i) rest
      → Any (Holds i) (push_chunk content position start end rest)
  unfolding push_chunk
  push-later [] position start end rest a = a
  push-later (x ∷ s) position start end rest a = inr a

  -- A character that is not whitespace lies in the window of a chunk.
  pub Run-Holds :
      {start position : ℕ} {chunks : List Chunk}
      → Run chars target overlap start position chunks
      → start ≤ i
      → Any (Holds i) chunks
  Run-Holds (done h) k = absurd (omega (arith, lookup-lt chars i c at))
  Run-Holds (last {start} {position} h f) k =
      push-here _ position start _ [] refl (window_end_bounds chars target start t h).1 k
        (omega (arith, lookup-lt chars i c at))
  Run-Holds (step {start} {position} {chunks} h f r) k =
      elim (dec_lt i (window_end chars target start)) [
        | yes inside ↦ push-here _ position start _ chunks refl (omega arith) k inside
        | no beyond ↦
            let b = window_end_bounds chars target start t h in
            let n = next_start_bounds overlap start (window_end chars target start) b.0 in
            push-later _ position start _ chunks (Run-Holds r (omega arith))
      ]

-- Every character of a text of less than 2^31 characters that is not whitespace lies in the window
-- of a chunk.
pub chunk_text_covers :
    (input : Text) (target_chars overlap_chars i c : ℕ) (chunks : List Chunk)
    → length input < 2 ^ 31
    → chunk_text input target_chars overlap_chars ≡ some chunks
    → get_elem? input i ≡ some c
    → is_whitespace c ≡ false
    → Any (Holds i) chunks
chunk_text_covers input target_chars overlap_chars i c chunks small e at solid =
    elim (chunk_text-Run input target_chars overlap_chars chunks e) [
      | inl (blank, none_cut) ↦ cc (IsBlank-get_elem? input i c blank at)
      | inr r ↦
          Run-Holds input (target_of target_chars) (overlap_of target_chars overlap_chars)
            (omega arith) small i c at solid r (omega arith)
    ]
