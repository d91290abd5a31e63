-- ===== src/Config/Numbers.antt =====
-- `str::parse` for the integer types: an optional sign, then decimal digits.
use personal_knowledge_os.Prelude.{
  ℕ, zero, suc, ◌+◌, ◌-◌, ◌*◌, ◌^◌, ◌≤◌, ◌≡◌, Bool, ◌&&◌, [], ◌∷◌, leb, ◌==◌, if◌then◌else◌, arith,
}
use personal_knowledge_os.Text.{Text, codes}
use personal_knowledge_os.Values.{ℤ, pos, negsuc}

-- `Result<A, E>` with the text of the error
pub data Parsed (A : Type 0) : Type 0 where
  value : A → Parsed A
  failed : Text → Parsed A

abbrev pub u32_max : ℕ
u32_max = 2 ^ 32 - 1

-- `usize` and `u64`
abbrev pub u64_max : ℕ
u64_max = 2 ^ 64 - 1

abbrev pub i64_max : ℕ
i64_max = 2 ^ 63 - 1

unfoldable pub empty_text : Text
empty_text = codes "cannot parse integer from empty string"

unfoldable pub digit_text : Text
digit_text = codes "invalid digit found in string"

unfoldable pub large_text : Text
large_text = codes "number too large to fit in target type"

unfoldable pub small_text : Text
small_text = codes "number too small to fit in target type"

abbrev pub is_digit : ℕ → Bool
is_digit c = leb b'0' c && leb c b'9'

-- the loop over the digits, up to a bound
unfoldable pub digits : Text → ℕ → ℕ → Text → Parsed ℕ
digits beyond bound acc [] = value acc
digits beyond bound acc (c ∷ s) =
    let rest = digits beyond bound (acc * 10 + (c - b'0')) s in
    if is_digit c
    then (if leb (acc * 10 + (c - b'0')) bound then rest else failed beyond)
    else failed digit_text

-- after the sign: `-` and `+` alone are no numbers
unfoldable pub signed_digits : Text → ℕ → Text → Parsed ℕ
unfolding digits digit_text
signed_digits beyond bound [] = failed digit_text
signed_digits beyond bound (c ∷ s) = digits beyond bound 0 (c ∷ s)

-- `parse::<uN>`, by its largest value
unfoldable pub parse_unsigned : ℕ → Text → Parsed ℕ
unfolding signed_digits empty_text large_text
parse_unsigned bound [] = failed empty_text
parse_unsigned bound (c ∷ s) =
    if c == b'+' then signed_digits large_text bound s else digits large_text bound 0 (c ∷ s)

abbrev pub as_pos : Parsed ℕ → Parsed ℤ
as_pos (value n) = value (pos n)
as_pos (failed t) = failed t

abbrev pub negated : ℕ → ℤ
negated zero = pos 0
negated (suc n) = negsuc n

abbrev pub as_neg : Parsed ℕ → Parsed ℤ
as_neg (value n) = value (negated n)
as_neg (failed t) = failed t

-- `parse::<i64>`
unfoldable pub parse_i64 : Text → Parsed ℤ
unfolding parse_unsigned small_text
parse_i64 [] = failed empty_text
parse_i64 (c ∷ s) =
    if c == b'-'
    then as_neg (signed_digits small_text (i64_max + 1) s)
    else as_pos (parse_unsigned i64_max (c ∷ s))

-- What is parsed is within the bound.
pub digits-le :
    (beyond : Text) (bound acc : ℕ) (s : Text) (n : ℕ)
    → acc ≤ bound
    → digits beyond bound acc s ≡ value n
    → n ≤ bound
unfolding digits
digits-le beyond bound acc [] n h e = ground arith
digits-le beyond bound acc (c ∷ s) n h e =
    ground (arith, digits-le beyond bound (acc * 10 + (c - b'0')) s n)

pub parse_unsigned-le :
    (bound : ℕ) (s : Text) (n : ℕ) → parse_unsigned bound s ≡ value n → n ≤ bound
unfolding parse_unsigned
parse_unsigned-le bound [] n e = cc
parse_unsigned-le bound (c ∷ []) n e = ground (arith, digits-le large_text bound 0 (c ∷ []) n)
parse_unsigned-le bound (c ∷ d ∷ s) n e =
    ground
      (arith, digits-le large_text bound 0 (c ∷ d ∷ s) n, digits-le large_text bound 0 (d ∷ s) n)
