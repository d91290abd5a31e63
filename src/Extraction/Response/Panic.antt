-- ===== src/Extraction/Response/Panic.antt =====
-- Where `parse_extraction` of src/services/memory_extraction.rs slices out of order.
use personal_knowledge_os.Prelude.{
  ℕ, ◌+◌, ◌≤◌, ◌<◌, ◌≡◌, ◌≢◌, refl, ap, ◌∙◌, false, [], ◌∷◌, ◌++◌, none, some, arith, ◌==◌, length,
  length-append, All,
}
use personal_knowledge_os.Text.{Text, trim, starts_with, rposition}
use personal_knowledge_os.Extraction.Response.{
  position_of, last_position_of, cut_braces, cut_inclusive, extraction_json, fence,
}

-- The first index of a character is behind what lacks it.
position_of-append :
    (c : ℕ) (p s : Text)
    → All (λ d. (d == c) ≡ false) p
    → position_of c (p ++ c ∷ s) ≡ some (length p)
unfolding position_of
position_of-append c [] s free = ground arith
position_of-append c (d ∷ p) s free = ground (arith, position_of-append c p s)

rposition-none :
    (c : ℕ) (s : Text) → All (λ d. (d == c) ≡ false) s → rposition (λ d. d == c) s ≡ none
unfolding rposition
rposition-none c [] free = refl
rposition-none c (d ∷ s) free = ground (arith, rposition-none c s)

last_position_of-append :
    (c : ℕ) (p s : Text)
    → All (λ d. (d == c) ≡ false) s
    → last_position_of c (p ++ c ∷ s) ≡ some (length p)
unfolding rposition last_position_of
last_position_of-append c [] s free = ground (arith, rposition-none c s)
last_position_of-append c (d ∷ p) s free = ground (arith, last_position_of-append c p s)

middle_positive : (m : Text) → m ≢ [] → 1 ≤ length m
middle_positive [] apart = elim (apart refl) [ ]
middle_positive (c ∷ m) apart = omega arith

-- the text up to the first opening brace, and its length
regroup : (p m q : Text) → p ++ (b'}' ∷ (m ++ b'{' ∷ q)) ≡ (p ++ b'}' ∷ m) ++ b'{' ∷ q
regroup [] m q = refl
regroup (c ∷ p) m q = ap (λ s. c ∷ s) (regroup p m q)

cut_inclusive-none : (s : Text) (start end : ℕ) → end + 1 < start → cut_inclusive s start end ≡ none
unfolding cut_inclusive
cut_inclusive-none s start end gap = ground arith

cut_braces-none :
    (s : Text) (start end : ℕ)
    → position_of b'{' s ≡ some start
    → last_position_of b'}' s ≡ some end
    → end + 1 < start
    → cut_braces s (position_of b'{' s) (last_position_of b'}' s) ≡ none
unfolding cut_braces
cut_braces-none s start end first last gap = rw (first, last) (cut_inclusive-none s start end gap)

cut_braces-shape :
    (p m q : Text)
    → All (λ d. (d == b'{') ≡ false) (p ++ b'}' ∷ m)
    → All (λ d. (d == b'}') ≡ false) (m ++ b'{' ∷ q)
    → m ≢ []
    → let s = p ++ (b'}' ∷ (m ++ b'{' ∷ q)) in
      cut_braces s (position_of b'{' s) (last_position_of b'}' s) ≡ none
cut_braces-shape p m q before behind apart =
    let first =
      ap (position_of b'{') (regroup p m q) ∙ position_of-append b'{' (p ++ b'}' ∷ m) q before in
    let last = last_position_of-append b'}' p (m ++ b'{' ∷ q) behind in
    let more = middle_positive m apart in
    let size = length-append p (b'}' ∷ m) in cut_braces-none _ _ _ first last (omega arith)

-- If the trimmed answer has no fence, and between its last `}` and its first `{`, which is behind it,
-- stands at least one character, the slice ends before it starts: a panic.
pub extraction_json_panics :
    (raw p m q : Text)
    → trim raw ≡ p ++ (b'}' ∷ (m ++ b'{' ∷ q))
    → starts_with (trim raw) fence ≡ false
    → All (λ d. (d == b'{') ≡ false) (p ++ b'}' ∷ m)
    → All (λ d. (d == b'}') ≡ false) (m ++ b'{' ∷ q)
    → m ≢ []
    → extraction_json raw ≡ none
unfolding extraction_json
extraction_json_panics raw p m q shape no_fence before behind apart =
    rw (no_fence, shape) (cut_braces-shape p m q before behind apart)
