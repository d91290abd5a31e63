-- ===== src/Tests/Chunks.antt =====
-- Chunking of short texts.
use personal_knowledge_os.Prelude.{◌≡◌, refl, List, [], ◌∷◌, some, arith, All, Any, false}
use personal_knowledge_os.Text.{Text, codes, is_whitespace, trim, rposition}
use personal_knowledge_os.Chunking.{
  Chunk, chunk_text, chunk_loop, window_end, push_chunk, is_boundary,
}
use personal_knowledge_os.Chunking.Progress.{chunk_text_total}
use personal_knowledge_os.Chunking.Bounds.{IsWindow, chunk_text_windows}
use personal_knowledge_os.Chunking.Coverage.{Holds, chunk_text_covers}
use personal_knowledge_os.Chunking.Order.{NumberedFrom, Advances, chunk_text_ordered}

abbrev note : Text
note = codes " One note."

abbrev note_chunks : List Chunk
note_chunks =
    record { position = 0; char_start = 0; char_end = 10; content = codes "One note." } ∷ []

note_is_cut : chunk_text note 1400 180 ≡ some note_chunks
unfolding chunk_text chunk_loop window_end push_chunk is_boundary rposition trim codes is_whitespace
note_is_cut = refl

chunk_text_total_example : (chunks : List Chunk) × (chunk_text note 1400 180 ≡ some chunks)
chunk_text_total_example = chunk_text_total note 1400 180

chunk_text_windows_example : All (IsWindow note 1400) note_chunks
unfolding codes
chunk_text_windows_example = chunk_text_windows note 1400 180 note_chunks (omega arith) note_is_cut

solid_letter : is_whitespace b'n' ≡ false
unfolding is_whitespace
solid_letter = refl

chunk_text_covers_example : Any (Holds 5) note_chunks
unfolding codes
chunk_text_covers_example =
    chunk_text_covers note 1400 180 5 b'n' note_chunks (omega arith) note_is_cut refl solid_letter

chunk_text_ordered_example : NumberedFrom 0 note_chunks × Advances 180 0 0 note_chunks
unfolding codes
chunk_text_ordered_example = chunk_text_ordered note 1400 180 note_chunks (omega arith) note_is_cut
