-- ===== src/Values/Int.antt =====
-- Signed integers (`i64`), over the native numbers: what the code does with them is compare.
use personal_knowledge_os.Prelude.{ℕ, suc, ◌+◌, ◌≤◌, Bool, leb, ltb, if◌then◌else◌}

-- `negsuc n` is -(n + 1).
pub data ℤ : Type 0 where
  pos : ℕ → ℤ
  negsuc : ℕ → ℤ

abbrev pub pos_part : ℤ → ℕ
pos_part (pos n) = n
pos_part (negsuc n) = 0

abbrev pub neg_part : ℤ → ℕ
neg_part (pos n) = 0
neg_part (negsuc n) = suc n

infix 50 ◌≤ℤ◌
abbrev pub ◌≤ℤ◌ : ℤ → ℤ → Type 0
a ≤ℤ b = pos_part a + neg_part b ≤ pos_part b + neg_part a

abbrev pub leb_ℤ : ℤ → ℤ → Bool
leb_ℤ a b = leb (pos_part a + neg_part b) (pos_part b + neg_part a)

abbrev pub ltb_ℤ : ℤ → ℤ → Bool
ltb_ℤ a b = ltb (pos_part a + neg_part b) (pos_part b + neg_part a)

-- `x.clamp(lo, hi)` into numbers that are not negative
abbrev pub clamp_ℤ : ℕ → ℕ → ℤ → ℕ
clamp_ℤ lo hi x = if ltb_ℤ x (pos lo) then lo else if ltb_ℤ (pos hi) x then hi else pos_part x
