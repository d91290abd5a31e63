-- ===== src/Values/Float.antt =====
-- `f32` as far as the code computes with it: comparisons, `is_finite` and `clamp`. Every finite f32
-- is a whole multiple of 2^-149, and that multiple stands for it (0.0 and -0.0 are one value).
use personal_knowledge_os.Prelude.{
  ℕ, ◌*◌, ◌^◌, ◌≡◌, refl, Bool, true, false, ◌&&◌, if◌then◌else◌, arith,
}
use personal_knowledge_os.Values.Int.{ℤ, pos, leb_ℤ, ltb_ℤ}

pub data F32 : Type 0 where
  nan : F32
  neg_infinity : F32
  finite : ℤ → F32
  infinity : F32

abbrev pub f32_zero : F32
f32_zero = finite (pos 0)

-- 1.0 is 2^149 times 2^-149
unfoldable pub one_scaled : ℕ
one_scaled = 2 ^ 149

abbrev pub f32_one : F32
f32_one = finite (pos one_scaled)

-- the literal 0.8: the nearest f32 is 13421773 / 2^24
unfoldable pub f32_0_8 : F32
f32_0_8 = finite (pos (13421773 * 2 ^ 125))

-- the literal 0.5
unfoldable pub f32_0_5 : F32
f32_0_5 = finite (pos (2 ^ 148))

-- `a <= b`; a comparison with NaN is false
unfoldable pub le_f32 : F32 → F32 → Bool
le_f32 nan b = false
le_f32 neg_infinity nan = false
le_f32 neg_infinity b = true
le_f32 (finite a) nan = false
le_f32 (finite a) neg_infinity = false
le_f32 (finite a) (finite b) = leb_ℤ a b
le_f32 (finite a) infinity = true
le_f32 infinity infinity = true
le_f32 infinity b = false

-- `a < b`
unfoldable pub lt_f32 : F32 → F32 → Bool
lt_f32 nan b = false
lt_f32 neg_infinity nan = false
lt_f32 neg_infinity neg_infinity = false
lt_f32 neg_infinity b = true
lt_f32 (finite a) nan = false
lt_f32 (finite a) neg_infinity = false
lt_f32 (finite a) (finite b) = ltb_ℤ a b
lt_f32 (finite a) infinity = true
lt_f32 infinity b = false

-- `f32::is_finite`
unfoldable pub is_finite : F32 → Bool
is_finite (finite a) = true
is_finite _ = false

-- `(0.0..=1.0).contains(&x)`
unfoldable pub in_unit : F32 → Bool
unfolding le_f32
in_unit x = le_f32 f32_zero x && le_f32 x f32_one

-- `x.clamp(0.0, 1.0)`: NaN stays NaN
unfoldable pub clamp_unit : F32 → F32
unfolding lt_f32
clamp_unit x = if lt_f32 x f32_zero then f32_zero else if lt_f32 f32_one x then f32_one else x

-- A clamped number lies in the unit interval, unless it is NaN.
pub clamp_unit_bounds : (x : F32) → (x ≡ nan → ⊥) → in_unit (clamp_unit x) ≡ true
unfolding in_unit clamp_unit
clamp_unit_bounds nan h = absurd (h refl)
clamp_unit_bounds neg_infinity h = ground arith
clamp_unit_bounds (finite a) h = ground arith
clamp_unit_bounds infinity h = ground arith
