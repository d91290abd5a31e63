-- ===== src/Chunking.antt =====
-- src/services/chunking.rs: `chunk_text` cuts a text into overlapping windows, each ended at a
-- sentence boundary where there is one in its second half.
-- The `while` loop is a recursion on fuel (`none`: out of fuel); `chunk_text` gives it one round
-- more than there are characters. An `as i32` cast keeps the low 32 bits.
pub mod Window
pub mod Progress
pub mod Bounds
pub mod Coverage
pub mod Order
use personal_knowledge_os.Prelude.{
  ℕ, zero, suc, ◌+◌, ◌-◌, ◌/◌, ◌%◌, ◌^◌, min, max, Bool, ◌||◌, List, [], ◌∷◌, Option, none, some,
  ltb, leb, ◌==◌, if◌then◌else◌, length, is_empty, slice,
}
use personal_knowledge_os.Text.{Text, trim, rposition}

pub record Chunk : Type 0 where
  pub position : ℕ
  pub char_start : ℕ
  pub char_end : ℕ
  pub content : Text

-- `n as i32`, as its bit pattern
abbrev pub as_i32 : ℕ → ℕ
as_i32 n = n % 2 ^ 32

-- the pattern of `matches!`
unfoldable pub is_boundary : ℕ → Bool
is_boundary c =
    c == 0xa || c == 0x3002 || c == 0xff01 || c == 0xff1f || c == b'.' || c == b'!' || c == b'?'

-- `hard_end`
abbrev pub hard_end_of : Text → ℕ → ℕ → ℕ
hard_end_of chars target start = min (start + target) (length chars)

-- `end`, after the search for a boundary
unfoldable pub window_end : Text → ℕ → ℕ → ℕ
window_end chars target start =
    let hard_end = hard_end_of chars target start in
    let search_start = start + target / 2 in
    let found = rposition is_boundary (slice chars search_start hard_end) in
    if ltb hard_end (length chars)
    then elim found [ some offset ↦ search_start + offset + 1 | none ↦ hard_end ]
    else hard_end

-- `chunks.push(...)`, unless the trimmed window is empty
unfoldable pub push_chunk : Text → ℕ → ℕ → ℕ → List Chunk → List Chunk
push_chunk content position start end rest =
    if is_empty content
    then rest
    else record {
      position = position;
      char_start = as_i32 start;
      char_end = as_i32 end;
      content = content;
    }
      ∷ rest

-- `position += 1`, if the chunk was pushed
abbrev pub next_position : Text → ℕ → ℕ
next_position content position = if is_empty content then position else as_i32 (position + 1)

-- `start = end.saturating_sub(overlap).max(start + 1)`
abbrev pub next_start : ℕ → ℕ → ℕ → ℕ
next_start overlap start end = max (end - overlap) (start + 1)

-- the `while` loop
unfoldable pub chunk_loop : ℕ → Text → ℕ → ℕ → ℕ → ℕ → Option (List Chunk)
chunk_loop zero chars target overlap start position = none
chunk_loop (suc fuel) chars target overlap start position =
    let end = window_end chars target start in
    let content = trim (slice chars start end) in
    let rest =
      chunk_loop fuel chars target overlap (next_start overlap start end)
        (next_position content position) in
    if ltb start (length chars)
    then (if leb (length chars) end
        then some (push_chunk content position start end [])
        else elim rest [
          | none ↦ none
          | some chunks ↦ some (push_chunk content position start end chunks)
        ])
    else some []

-- `target_chars.max(128)` and `overlap_chars.min(target / 2)`
abbrev pub target_of : ℕ → ℕ
target_of target_chars = max target_chars 128

abbrev pub overlap_of : ℕ → ℕ → ℕ
overlap_of target_chars overlap_chars = min overlap_chars (target_of target_chars / 2)

-- `chunk_text`; `none` would be an endless loop
unfoldable pub chunk_text : Text → ℕ → ℕ → Option (List Chunk)
unfolding chunk_loop
chunk_text input target_chars overlap_chars =
    if is_empty (trim input)
    then some []
    else chunk_loop (length input + 1) input (target_of target_chars)
        (overlap_of target_chars overlap_chars) 0 0
