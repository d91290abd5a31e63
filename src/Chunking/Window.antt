-- ===== src/Chunking/Window.antt =====
-- Where one window of `chunk_text` ends.
use personal_knowledge_os.Prelude.{
  ℕ, ◌+◌, ◌/◌, ◌≤◌, ◌<◌, ◌≡◌, ◌⊎◌, inl, inr, Option, arith, length, slice, length-slice,
  Option-cases,
}
use personal_knowledge_os.Text.{Text, rposition, rposition-lt}
use personal_knowledge_os.Chunking.{window_end, is_boundary, hard_end_of}

-- A window is not empty, ends within the text and the target, and ends either at the end of the
-- text or past the middle of the target.
pub window_end_bounds :
    (chars : Text) (target start : ℕ)
    → 128 ≤ target
    → start < length chars
    → (start < window_end chars target start)
      × (window_end chars target start ≤ length chars)
      × (window_end chars target start ≤ start + target)
      × ((window_end chars target start ≡ length chars)
          ⊎ (start + target / 2 < window_end chars target start))
unfolding window_end
window_end_bounds chars target start t h = elim (Option-cases found) [
  | inl e ↦ ground arith
  | inr (i, e) ↦ ground (
    arith,
    rposition-lt is_boundary (slice chars (start + target / 2) (hard_end_of chars target start)) i
        e,
    length-slice chars (start + target / 2) (hard_end_of chars target start),
  )
]
  where
    found : Option ℕ
    found =
        rposition is_boundary (slice chars (start + target / 2) (hard_end_of chars target start))
