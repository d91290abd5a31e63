-- ===== src/Extraction/Verifier/Sensitive.antt =====
-- Secret material: what the search for needles finds.
use personal_knowledge_os.Prelude.{
  ◌≡◌, ◌↔◌, refl, inl, inr, true, false, List, [], ◌∷◌, ◌++◌, any, arith, All, Bool-cases,
}
use personal_knowledge_os.Text.{Text, contains, contains_sound, contains-append, to_ascii_lowercase}
use personal_knowledge_os.Extraction.Verifier.{contains_sensitive_material, needles}

-- The text stands somewhere in another.
abbrev pub Within : Text → Text → Type 0
Within p s = (a : Text) × (b : Text) × (s ≡ a ++ (p ++ b))

pub Within→contains : (p s : Text) → Within p s → contains s p ≡ true
Within→contains p s (a, b, e) = rw e (contains-append a p b)

any-false :
    (s : Text) (ns : List Text) → any (λ n. contains s n) ns ≡ false → All (λ n. ¬ Within n s) ns
any-false s [] h = tt
any-false s (n ∷ ns) h =
    ((λ w. let found = Within→contains n s w in ground arith), any-false s ns (ground arith))

All-absent :
    (s : Text) (ns : List Text) → All (λ n. ¬ Within n s) ns → any (λ n. contains s n) ns ≡ false
All-absent s [] h = refl
All-absent s (n ∷ ns) (absent, rest) = elim (Bool-cases (contains s n)) [
  | inl found ↦ absurd (absent (contains_sound s n found))
  | inr missing ↦ ground (arith, All-absent s ns rest)
]

-- No needle stands in the text in lower case.
abbrev pub LacksSecrets : Text → Type 0
LacksSecrets s = All (λ n. ¬ Within n (to_ascii_lowercase s)) needles

-- The check passes a text exactly if no needle stands anywhere in the text in lower case (ASCII).
pub contains_sensitive_material_iff :
    (s : Text) → (contains_sensitive_material s ≡ false) ↔ LacksSecrets s
unfolding contains_sensitive_material
contains_sensitive_material_iff s =
    (any-false (to_ascii_lowercase s) needles, All-absent (to_ascii_lowercase s) needles)
