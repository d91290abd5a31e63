-- ===== src/Chunking/Progress.antt =====
-- The loop of `chunk_text` ends, and what a finished run of it did.
use personal_knowledge_os.Prelude.{
  ℕ, zero, suc, ◌+◌, ◌≤◌, ◌<◌, ◌≡◌, ◌⊎◌, refl, inl, inr, List, [], ◌∷◌, is_empty, some, arith,
  length, slice, Bool-cases, true,
}
use personal_knowledge_os.Text.{Text, trim, trim-IsBlank, IsBlank}
use personal_knowledge_os.Chunking.Window.{window_end_bounds}
use native.Mathlib.Decide.{dec_lt}
use personal_knowledge_os.Chunking.{
  Chunk, window_end, push_chunk, next_position, next_start, chunk_loop, chunk_text, target_of,
  overlap_of,
}

-- A run of the loop from a start and a position to the chunks that it pushes.
pub data Run (chars : Text) (target overlap : ℕ) : ℕ → ℕ → List Chunk → Type 0 where
  done : {start position : ℕ} → length chars ≤ start → Run chars target overlap start position []
  last :
      {start position : ℕ}
      → start < length chars
      → length chars ≤ window_end chars target start
      → Run chars target overlap start position (
          push_chunk
            (trim (slice chars start (window_end chars target start)))
            position
            start
            (window_end chars target start)
            [])
  step :
      {start position : ℕ} {chunks : List Chunk}
      → start < length chars
      → window_end chars target start < length chars
      → Run chars target overlap
          (next_start overlap start (window_end chars target start))
          (next_position (trim (slice chars start (window_end chars target start))) position)
          chunks
      → Run chars target overlap start position (
          push_chunk
            (trim (slice chars start (window_end chars target start)))
            position
            start
            (window_end chars target start)
            chunks)

-- The next window begins behind the start of this one, and not behind its end.
pub next_start_bounds :
    (overlap start end : ℕ)
    → start < end
    → (start < next_start overlap start end)
      × (next_start overlap start end ≤ end)
      × (end ≤ next_start overlap start end + overlap)
next_start_bounds overlap start end h = omega arith

-- With more fuel than characters left the loop ends, in a run.
pub chunk_loop-Run :
    (fuel : ℕ) (chars : Text) (target overlap start position : ℕ)
    → 128 ≤ target
    → start ≤ length chars
    → length chars < fuel + start
    → (chunks : List Chunk) × (chunk_loop fuel chars target overlap start position ≡ some chunks)
      × Run chars target overlap start position chunks
unfolding chunk_loop
chunk_loop-Run zero chars target overlap start position t b h = absurd (omega arith)
chunk_loop-Run (suc fuel) chars target overlap start position t b h =
    elim (dec_lt start (length chars)) [
      | no past ↦ ([], ground arith, done (omega arith))
      | yes inside ↦ elim (dec_lt end (length chars)) [
        | no final ↦
            (push_chunk content position start end [], ground arith, last inside (omega arith))
        | yes more ↦
            let bounds = window_end_bounds chars target start t inside in
            let (chunks, e, r) =
              chunk_loop-Run fuel chars target overlap (next_start overlap start end)
                (next_position content position) t (omega arith) (omega arith) in
            (push_chunk content position start end chunks, ground (arith, e), step inside more r)
      ]
    ]
  where
    end : ℕ
    end = window_end chars target start

    content : Text
    content = trim (slice chars start end)

-- `chunk_text` ends, whatever the text and the sizes asked for.
pub chunk_text_total :
    (input : Text) (target_chars overlap_chars : ℕ)
    → (chunks : List Chunk) × (chunk_text input target_chars overlap_chars ≡ some chunks)
unfolding chunk_text
chunk_text_total input target_chars overlap_chars =
    let (chunks, e, r) =
      chunk_loop-Run (length input + 1) input (target_of target_chars)
        (overlap_of target_chars overlap_chars) 0 0 (omega arith) (omega arith) (omega arith) in
    elim (Bool-cases (is_empty (trim input))) [
      | inl blank ↦ ([], rw blank)
      | inr solid ↦ (chunks, rw solid e)
    ]

empty_of : {s : Text} → is_empty s ≡ true → s ≡ []
empty_of {s = []} h = refl
empty_of {s = c ∷ s} h = cc

-- What `chunk_text` returns: nothing for a blank text, and otherwise the chunks of a run.
pub chunk_text-Run :
    (input : Text) (target_chars overlap_chars : ℕ) (chunks : List Chunk)
    → chunk_text input target_chars overlap_chars ≡ some chunks
    → (IsBlank input × (chunks ≡ []))
      ⊎ Run input (target_of target_chars) (overlap_of target_chars overlap_chars) 0 0 chunks
unfolding chunk_text
chunk_text-Run input target_chars overlap_chars chunks h =
    let (found, e, r) =
      chunk_loop-Run (length input + 1) input (target_of target_chars)
        (overlap_of target_chars overlap_chars) 0 0 (omega arith) (omega arith) (omega arith) in
    elim (Bool-cases (is_empty (trim input))) [
      | inl blank ↦ inl (trim-IsBlank input (empty_of blank), ground arith)
      | inr solid ↦ let same : found ≡ chunks = ground (arith, e) in inr (rw same at r)
    ]
