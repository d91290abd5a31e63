-- ===== src/Text/Trim.antt =====
-- `str::trim`: no whitespace at either end, and nothing but whitespace removed.
use personal_knowledge_os.Prelude.{
  ◌≤◌, ◌≡◌, refl, inl, inr, true, false, ◌&&◌, [], ◌∷◌, arith, if◌then◌else◌, is_empty, length, All,
  Bool-cases,
}
use personal_knowledge_os.Text.Chars.{Text, is_whitespace, byte_len}

-- `str::trim_start`
unfoldable pub trim_start : Text → Text
trim_start [] = []
trim_start (c ∷ s) = if is_whitespace c then trim_start s else c ∷ s

-- `str::trim_end`
unfoldable pub trim_end : Text → Text
trim_end [] = []
trim_end (c ∷ s) =
    let rest = trim_end s in if is_empty rest && is_whitespace c then [] else c ∷ rest

-- `str::trim`
unfoldable pub trim : Text → Text
unfolding trim_start trim_end
trim s = trim_end (trim_start s)

-- Nothing but whitespace.
abbrev pub IsBlank : Text → Type 0
IsBlank = All (λ c. is_whitespace c ≡ true)

pub trim_end-IsBlank : (s : Text) → trim_end s ≡ [] → IsBlank s
unfolding trim_end
trim_end-IsBlank [] h = tt
trim_end-IsBlank (c ∷ s) h = ground (arith, trim_end-IsBlank s)

pub trim_start-IsBlank : (s : Text) → IsBlank (trim_start s) → IsBlank s
unfolding trim_start
trim_start-IsBlank [] h = tt
trim_start-IsBlank (c ∷ s) h = ground (arith, trim_start-IsBlank s)

-- Where trimming leaves nothing, there was nothing but whitespace.
pub trim-IsBlank : (s : Text) → trim s ≡ [] → IsBlank s
unfolding trim
trim-IsBlank s h = trim_start-IsBlank s (trim_end-IsBlank (trim_start s) h)

pub length-trim_start : (s : Text) → length (trim_start s) ≤ length s
unfolding trim_start
length-trim_start [] = omega arith
length-trim_start (c ∷ s) = ground (arith, length-trim_start s)

pub length-trim_end : (s : Text) → length (trim_end s) ≤ length s
unfolding trim_end
length-trim_end [] = omega arith
length-trim_end (c ∷ s) = ground (arith, length-trim_end s)

pub length-trim : (s : Text) → length (trim s) ≤ length s
unfolding trim
length-trim s = omega (arith, length-trim_start s, length-trim_end (trim_start s))

pub byte_len-trim_start : (s : Text) → byte_len (trim_start s) ≤ byte_len s
unfolding trim_start byte_len
byte_len-trim_start [] = omega arith
byte_len-trim_start (c ∷ s) = ground (arith, byte_len-trim_start s)

pub byte_len-trim_end : (s : Text) → byte_len (trim_end s) ≤ byte_len s
unfolding trim_end byte_len
byte_len-trim_end [] = omega arith
byte_len-trim_end (c ∷ s) = ground (arith, byte_len-trim_end s)

pub byte_len-trim : (s : Text) → byte_len (trim s) ≤ byte_len s
unfolding trim
byte_len-trim s = omega (arith, byte_len-trim_start s, byte_len-trim_end (trim_start s))

trim_end_idem : (s : Text) → trim_end (trim_end s) ≡ trim_end s
unfolding trim_end
trim_end_idem [] = refl
trim_end_idem (c ∷ s) = ground (arith, trim_end_idem s)

-- A text that begins with no whitespace.
abbrev StartsSolid : Text → Type 0
StartsSolid [] = Unit
StartsSolid (c ∷ s) = is_whitespace c ≡ false

trim_start-StartsSolid : (s : Text) → StartsSolid (trim_start s)
unfolding trim_start
trim_start-StartsSolid [] = tt
trim_start-StartsSolid (c ∷ s) = elim (Bool-cases (is_whitespace c)) [
  | inl w ↦ ground (arith, trim_start-StartsSolid s)
  | inr b ↦ ground arith
]

trim_end-StartsSolid : (s : Text) → StartsSolid s → StartsSolid (trim_end s)
unfolding trim_end
trim_end-StartsSolid [] h = tt
trim_end-StartsSolid (c ∷ s) h = ground arith

trim_start_solid : (s : Text) → StartsSolid s → trim_start s ≡ s
unfolding trim_start
trim_start_solid [] h = refl
trim_start_solid (c ∷ s) h = ground arith

-- Trimming twice is trimming once.
pub trim_idem : (s : Text) → trim (trim s) ≡ trim s
unfolding trim
trim_idem s = ground (
  arith,
  trim_start_solid (trim_end (trim_start s))
      (trim_end-StartsSolid (trim_start s) (trim_start-StartsSolid s)),
  trim_end_idem (trim_start s),
)
