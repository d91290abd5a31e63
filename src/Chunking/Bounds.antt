-- ===== src/Chunking/Bounds.antt =====
-- Each chunk of `chunk_text` is the trimmed text of a window that fits the target.
use personal_knowledge_os.Prelude.{
  ℕ, ◌+◌, ◌^◌, ◌%◌, ◌≤◌, ◌<◌, ◌≡◌, ◌≢◌, refl, List, [], ◌∷◌, some, arith, length, slice, All, inl,
  inr, max,
}
use mathlib.Core.List.{cons-ne-nil}
use personal_knowledge_os.Text.{Text, trim}
use personal_knowledge_os.Chunking.{Chunk, push_chunk, chunk_text, target_of, overlap_of}
use personal_knowledge_os.Chunking.Window.{window_end_bounds}
use personal_knowledge_os.Chunking.Progress.{Run, done, last, step, chunk_text-Run}

-- The chunk is a non-empty trimmed window of at most `target` characters of the text.
pub record IsWindow (chars : Text) (target : ℕ) (c : Chunk) : Type 0 where
  pub forward : c.char_start < c.char_end
  pub inside : c.char_end ≤ length chars
  pub short : c.char_end ≤ c.char_start + target
  pub trimmed : c.content ≡ trim (slice chars c.char_start c.char_end)
  pub solid : c.content ≢ []

module _ (chars : Text) (target overlap : ℕ) (t : 128 ≤ target)
    (small : length chars < 2 ^ 31) where
  push-IsWindow :
      (content : Text) (position start end : ℕ) (rest : List Chunk)
      → content ≡ trim (slice chars start end)
      → start < end
      → end ≤ length chars
      → end ≤ start + target
      → All (IsWindow chars target) rest
      → All (IsWindow chars target) (push_chunk content position start end rest)
  unfolding push_chunk
  push-IsWindow [] position start end rest e f i s all = all
  push-IsWindow (c ∷ cs) position start end rest e f i s all =
      let es : start % 2 ^ 32 ≡ start = omega arith in
      let ee : end % 2 ^ 32 ≡ end = omega arith in
      (
        record {
          forward = omega arith;
          inside = omega arith;
          short = omega arith;
          trimmed = rw (es, ee) e;
          solid = cons-ne-nil c cs;
        },
        all,
      )

  pub Run-IsWindow :
      {start position : ℕ} {chunks : List Chunk}
      → Run chars target overlap start position chunks
      → All (IsWindow chars target) chunks
  Run-IsWindow (done _) = tt
  Run-IsWindow (last {start} {position} h _) =
      let b = window_end_bounds chars target start t h in
      push-IsWindow _ position start _ [] refl b.0 b.1 b.2 tt
  Run-IsWindow (step {start} {position} {chunks} h _ r) =
      let b = window_end_bounds chars target start t h in
      push-IsWindow _ position start _ chunks refl b.0 b.1 b.2 (Run-IsWindow r)

-- Every chunk of a text of less than 2^31 characters is the trimmed, non-empty text of a window
-- that lies in the text and is at most `target_chars` long (128, if less is asked for).
pub chunk_text_windows :
    (input : Text) (target_chars overlap_chars : ℕ) (chunks : List Chunk)
    → length input < 2 ^ 31
    → chunk_text input target_chars overlap_chars ≡ some chunks
    → All (IsWindow input (max target_chars 128)) chunks
chunk_text_windows input target_chars overlap_chars chunks small e =
    elim (chunk_text-Run input target_chars overlap_chars chunks e) [
      | inl (blank, none_cut) ↦ rw none_cut tt
      | inr r ↦
          Run-IsWindow input (target_of target_chars) (overlap_of target_chars overlap_chars)
            (omega arith) small r
    ]
