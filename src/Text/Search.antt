-- ===== src/Text/Search.antt =====
-- Searching a text: prefixes, suffixes, `contains`, `find`, `rfind` and splitting.
use personal_knowledge_os.Prelude.{
  ℕ, zero, suc, ◌<◌, ◌≡◌, refl, ap, inl, inr, Bool, true, false, ◌&&◌, ◌||◌, [], ◌∷◌, ◌++◌, Option,
  none, some, arith, ◌==◌, if◌then◌else◌, length, Bool-cases,
}
use personal_knowledge_os.Text.Chars.{Text}

-- `str::strip_prefix`
unfoldable pub strip_prefix : Text → Text → Option Text
strip_prefix s [] = some s
strip_prefix [] (d ∷ p) = none
strip_prefix (c ∷ s) (d ∷ p) = if c == d then strip_prefix s p else none

-- `str::starts_with`
unfoldable pub starts_with : Text → Text → Bool
starts_with s [] = true
starts_with [] (d ∷ p) = false
starts_with (c ∷ s) (d ∷ p) = c == d && starts_with s p

-- `str::contains`
unfoldable pub contains : Text → Text → Bool
unfolding starts_with
contains [] p = starts_with [] p
contains (c ∷ s) p = starts_with (c ∷ s) p || contains s p

-- `slice::iter().rposition(p)`: the last index whose element passes the test.
unfoldable pub rposition : (ℕ → Bool) → Text → Option ℕ
rposition p [] = none
rposition p (c ∷ s) = elim (rposition p s) [
  | some i ↦ some (suc i)
  | none ↦ if p c then some 0 else none
]

pub strip_prefix_lem : (s p : Text) (r : Text) → strip_prefix s p ≡ some r → s ≡ p ++ r
unfolding strip_prefix
strip_prefix_lem s [] r h = ground arith
strip_prefix_lem [] (d ∷ p) r h = ground arith
strip_prefix_lem (c ∷ s) (d ∷ p) r h = ground (arith, strip_prefix_lem s p r)

pub strip_prefix-append : (p r : Text) → strip_prefix (p ++ r) p ≡ some r
unfolding strip_prefix
strip_prefix-append [] r = ground arith
strip_prefix-append (d ∷ p) r = ground (arith, strip_prefix-append p r)

pub starts_with_lem : (s p : Text) → starts_with s p ≡ true → (r : Text) × (s ≡ p ++ r)
unfolding starts_with
starts_with_lem s [] h = (s, refl)
starts_with_lem [] (d ∷ p) h = ground arith
starts_with_lem (c ∷ s) (d ∷ p) h =
    let (r, e) = starts_with_lem s p (ground arith) in (r, ground arith)

pub starts_with-append : (p r : Text) → starts_with (p ++ r) p ≡ true
unfolding starts_with
starts_with-append [] r = ground arith
starts_with-append (d ∷ p) r = ground (arith, starts_with-append p r)

-- What is found stands somewhere in the text.
pub contains_sound :
    (s p : Text) → contains s p ≡ true → (a : Text) × (b : Text) × (s ≡ a ++ (p ++ b))
unfolding contains
contains_sound [] p h = let (r, e) = starts_with_lem [] p h in ([], r, e)
contains_sound (c ∷ s) p h = elim (Bool-cases (starts_with (c ∷ s) p)) [
  | inl here ↦ let (r, e) = starts_with_lem (c ∷ s) p here in ([], r, e)
  | inr later ↦ let (a, b, e) = contains_sound s p (ground arith) in (c ∷ a, b, ap (λ t. c ∷ t) e)
]

-- What stands somewhere in the text is found.
pub contains-append : (a p b : Text) → contains (a ++ (p ++ b)) p ≡ true
unfolding contains
contains-append [] [] [] = unfold starts_with in refl
contains-append [] [] (c ∷ b) = unfold starts_with in refl
contains-append [] (d ∷ p) b = ground (arith, starts_with-append (d ∷ p) b)
contains-append (c ∷ a) p b = ground (arith, contains-append a p b)

pub rposition-lt : (p : ℕ → Bool) (s : Text) (i : ℕ) → rposition p s ≡ some i → i < length s
unfolding rposition
rposition-lt p [] i h = ground arith
rposition-lt p (c ∷ s) zero h = omega arith
rposition-lt p (c ∷ s) (suc i) h = ground (arith, rposition-lt p s i)
