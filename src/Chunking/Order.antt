-- ===== src/Chunking/Order.antt =====
-- The chunks of `chunk_text` are numbered from 0, and move forward with a bounded overlap.
use personal_knowledge_os.Prelude.{
  ℕ, ◌+◌, ◌/◌, ◌^◌, ◌≤◌, ◌<◌, ◌≡◌, List, [], ◌∷◌, arith, length, some, ◌%◌, slice, inl, inr,
}
use personal_knowledge_os.Text.{Text, trim}
use personal_knowledge_os.Chunking.{
  Chunk, window_end, push_chunk, next_start, next_position, chunk_text, target_of, overlap_of,
}
use personal_knowledge_os.Chunking.Window.{window_end_bounds}
use personal_knowledge_os.Chunking.Progress.{
  Run, done, last, step, next_start_bounds, chunk_text-Run,
}

-- The positions count up from a number.
abbrev pub NumberedFrom : ℕ → List Chunk → Type 0
NumberedFrom n [] = Unit
NumberedFrom n (c ∷ cs) = (c.position ≡ n) × NumberedFrom (n + 1) cs

-- Starts and ends increase, from a least start and the end of the chunk before, and two successive
-- chunks share at most `overlap` characters.
abbrev pub Advances : ℕ → ℕ → ℕ → List Chunk → Type 0
Advances overlap least before [] = Unit
Advances overlap least before (c ∷ cs) =
    (least ≤ c.char_start)
    × (before < c.char_end)
    × (before ≤ c.char_start + overlap)
    × Advances overlap (c.char_start + 1) c.char_end cs

Advances-weaken :
    (overlap least least' before : ℕ) (cs : List Chunk)
    → least' ≤ least
    → Advances overlap least before cs
    → Advances overlap least' before cs
Advances-weaken overlap least least' before [] h a = tt
Advances-weaken overlap least least' before (c ∷ cs) h a = (omega arith, a.1, a.2, a.3)

Advances-widen :
    (overlap overlap' least before : ℕ) (cs : List Chunk)
    → overlap ≤ overlap'
    → Advances overlap least before cs
    → Advances overlap' least before cs
Advances-widen overlap overlap' least before [] h a = tt
Advances-widen overlap overlap' least before (c ∷ cs) h a =
    (a.0, a.1, omega arith, Advances-widen overlap overlap' (c.char_start + 1) c.char_end cs h a.3)

module _ (chars : Text) (target overlap : ℕ) (t : 128 ≤ target) (o : overlap ≤ target / 2)
    (small : length chars < 2 ^ 31) where
  -- The next window ends behind this one.
  pub window_end_advances :
      (start : ℕ)
      → start < length chars
      → window_end chars target start < length chars
      → window_end chars target start
        < window_end chars target (next_start overlap start (window_end chars target start))
  window_end_advances start h more =
      let b = window_end_bounds chars target start t h in
      let n = next_start_bounds overlap start (window_end chars target start) b.0 in
      let b' =
        window_end_bounds chars target (next_start overlap start (window_end chars target start)) t
          (omega arith) in
      omega arith

  push-NumberedFrom :
      (content : Text) (position start end : ℕ) (rest : List Chunk)
      → position < 2 ^ 31
      → NumberedFrom (next_position content position) rest
      → NumberedFrom position (push_chunk content position start end rest)
  unfolding push_chunk
  push-NumberedFrom [] position start end rest p n = n
  push-NumberedFrom (c ∷ s) position start end rest p n = ground arith

  pub Run-NumberedFrom :
      {start position : ℕ} {chunks : List Chunk}
      → Run chars target overlap start position chunks
      → position ≤ start
      → NumberedFrom position chunks
  Run-NumberedFrom (done _) p = tt
  Run-NumberedFrom (last h _) p = push-NumberedFrom _ _ _ _ [] (omega arith) (ground arith)
  Run-NumberedFrom (step {start} {position} h _ r) p =
      let b = window_end_bounds chars target start t h in
      let n = next_start_bounds overlap start (window_end chars target start) b.0 in
      push-NumberedFrom (trim (slice chars start (window_end chars target start))) position start _
        _ (omega arith) (Run-NumberedFrom r (ground arith))

  push-Advances :
      (content : Text) (position start end least before : ℕ) (rest : List Chunk)
      → end < 2 ^ 31
      → least ≤ start
      → start < end
      → before < end
      → before ≤ start + overlap
      → Advances overlap (start + 1) before rest
      → Advances overlap (start + 1) end rest
      → Advances overlap least before (push_chunk content position start end rest)
  unfolding push_chunk
  push-Advances [] position start end least before rest e l f b v a a' =
      Advances-weaken overlap (start + 1) least before rest (omega arith) a
  push-Advances (c ∷ s) position start end least before rest e l f b v a a' =
      let es : start % 2 ^ 32 ≡ start = omega arith in
      let ee : end % 2 ^ 32 ≡ end = omega arith in rw (es, ee) (l, b, v, a')

  pub Run-Advances :
      {start position : ℕ} {chunks : List Chunk} (least before : ℕ)
      → Run chars target overlap start position chunks
      → least ≤ start
      → before ≤ start + overlap
      → (start < length chars → before < window_end chars target start)
      → Advances overlap least before chunks
  Run-Advances least before (done _) l v b = tt
  Run-Advances least before (last {start} {position} h _) l v b =
      let w = window_end_bounds chars target start t h in
      push-Advances (trim (slice chars start (window_end chars target start))) position start _
        least before [] (omega arith) l w.0 (b h) v tt tt
  Run-Advances least before (step {start} {position} {chunks} h m r) l v b =
      let w = window_end_bounds chars target start t h in
      let n = next_start_bounds overlap start (window_end chars target start) w.0 in
      let e = window_end_advances start h m in
      push-Advances (trim (slice chars start (window_end chars target start))) position start _
        least before chunks (omega arith) l w.0 (b h) v
        (Run-Advances (start + 1) before r (omega arith) (omega arith) (λ k. omega (arith, b h)))
        (Run-Advances (start + 1) (window_end chars target start) r (omega arith) (omega arith)
          (λ k. e))

-- The chunks of a text of less than 2^31 characters are numbered 0, 1, 2, …; their starts and ends
-- increase strictly, and two successive chunks share at most `overlap_chars` characters.
pub chunk_text_ordered :
    (input : Text) (target_chars overlap_chars : ℕ) (chunks : List Chunk)
    → length input < 2 ^ 31
    → chunk_text input target_chars overlap_chars ≡ some chunks
    → NumberedFrom 0 chunks × Advances overlap_chars 0 0 chunks
chunk_text_ordered input target_chars overlap_chars chunks small e =
    elim (chunk_text-Run input target_chars overlap_chars chunks e) [
      | inl (blank, none_cut) ↦ rw none_cut (tt, tt)
      | inr r ↦ (
        Run-NumberedFrom input target overlap (omega arith) (omega arith) small r (omega arith),
        Advances-widen overlap overlap_chars 0 0 chunks (omega arith) (
            Run-Advances input target overlap (omega arith) (omega arith) small 0 0 r (omega arith)
              (omega arith) (λ h. omega (arith, window_end_bounds input target 0 (omega arith) h))),
      )
    ]
  where
    target : ℕ
    target = target_of target_chars

    overlap : ℕ
    overlap = overlap_of target_chars overlap_chars
