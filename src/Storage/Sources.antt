-- ===== src/Storage/Sources.antt =====
-- The source and chunk methods of src/storage.rs: ingestion in one transaction with its chunks and their
-- jobs, reading, and embedding.
pub mod Ingestion
use personal_knowledge_os.Prelude.{
  ℕ, zero, suc, ◌+◌, Bool, true, false, ◌&&◌, ◌||◌, ◌^◌, ltb, leb, not, List, [], ◌∷◌, ◌++◌, Option,
  none, some, find, any, map, length, ◌==◌, if◌then◌else◌,
}
use personal_knowledge_os.Text.{Text, codes, text_eq}
use personal_knowledge_os.Values.{Uuid, DateTime, Vector, Value, null, string, object, end, field}
use personal_knowledge_os.AppError.{
  AppError, Result, ok, err, conflict, not_found, database, database_error, other_error,
}
use personal_knowledge_os.Models.{SourceRecord}
use personal_knowledge_os.Chunking.{Chunk}
use personal_knowledge_os.Db.Tables.{Db, SourceRow, ChunkRow}
use personal_knowledge_os.Db.Sql.{update_where}
use personal_knowledge_os.Db.Libs.{Libs}
use personal_knowledge_os.Db.Tx.{
  Tx, Context, ◌>>=◌, ◌>>◌, pure, throw, query, execute, ensure, ok_or,
}
use personal_knowledge_os.Db.Action.{Action, transaction}
use personal_knowledge_os.Storage.Rows.{
  unique_violation, check_violation, insert_job, insert_audit, source_from_row,
}

-- the arguments of `ingest_source`
pub record SourceInput : Type 0 where
  pub kind : Text
  pub title : Option Text
  pub content : Text
  pub external_id : Option Text
  pub source_uri : Option Text
  pub sha256 : Text
  pub occurred_at : Option DateTime
  pub metadata : Value
  pub chunks : List Chunk
  pub schedule_memory_extraction : Bool

-- `map_unique_conflict`
unfoldable pub map_unique_conflict : AppError → AppError
map_unique_conflict (database (database_error code)) =
    if text_eq code (codes "23505")
    then conflict (codes "source external_id already exists")
    else database (database_error code)
map_unique_conflict e = e

-- `.map_err(map_unique_conflict)`
unfoldable pub map_conflict : {A : Type 0} → Result A → Result A
unfolding map_unique_conflict
map_conflict (ok a) = ok a
map_conflict (err e) = err (map_unique_conflict e)

-- two external ids that a unique index takes for the same: NULL is never the same
abbrev pub same_external : Option Text → Option Text → Bool
same_external (some a) (some b) = text_eq a b
same_external _ _ = false

-- the primary key and `UNIQUE (owner_id, kind, external_id)`
unfoldable pub clashes : SourceRow → SourceRow → Bool
clashes row r =
    r.id == row.id
    || r.owner_id == row.owner_id
      && text_eq r.kind row.kind
      && same_external r.external_id row.external_id

-- the CHECK constraints of `sources`, on numbers of characters
unfoldable pub source_check : SourceRow → Bool
source_check r = leb 1 (length r.kind) && leb (length r.kind) 64 && length r.sha256 == 64

-- `INSERT INTO sources`
unfoldable pub insert_source : SourceRow → Tx (Unit {0})
unfolding clashes source_check
insert_source row = do
  ensure (source_check row) check_violation
  rows ← query (λ (db : Db). db.sources)
  ensure (not (any (clashes row) rows)) unique_violation
  execute (λ (db : Db). record db { sources = db.sources ++ row ∷ [] })

-- the row that `ingest_source` inserts
unfoldable pub source_row : DateTime → Uuid → Uuid → SourceInput → SourceRow
source_row now id owner_id input = record {
  id = id;
  owner_id = owner_id;
  kind = input.kind;
  title = input.title;
  content = input.content;
  external_id = input.external_id;
  source_uri = input.source_uri;
  sha256 = input.sha256;
  occurred_at = input.occurred_at;
  ingested_at = now;
  metadata = input.metadata;
}

unfoldable pub chunk_row : Uuid → Uuid → Uuid → Chunk → ChunkRow
chunk_row id owner_id source_id chunk = record {
  id = id;
  owner_id = owner_id;
  source_id = source_id;
  position = chunk.position;
  char_start = chunk.char_start;
  char_end = chunk.char_end;
  content = chunk.content;
  embedding = none;
  embedding_model = none;
  embedded_at = none;
}

-- the CHECK constraints of `chunks`; a pattern from 2^31 on is a negative integer
unfoldable pub chunk_check : ChunkRow → Bool
chunk_check r =
    ltb r.position (2 ^ 31)
    && ltb r.char_start (2 ^ 31)
    && ltb r.char_end (2 ^ 31)
    && leb r.char_start r.char_end

-- the primary key and `UNIQUE (source_id, position)`
unfoldable pub chunk_clashes : ChunkRow → ChunkRow → Bool
chunk_clashes row r = r.id == row.id || r.source_id == row.source_id && r.position == row.position

unfoldable pub insert_chunk : ChunkRow → Tx (Unit {0})
insert_chunk row = do
  ensure (chunk_check row) check_violation
  rows ← query (λ (db : Db). db.chunks)
  ensure (not (any (chunk_clashes row) rows)) unique_violation
  execute (λ (db : Db). record db { chunks = db.chunks ++ row ∷ [] })

-- `json!({name: id})`
unfoldable pub id_payload : Libs → Text → Uuid → Value
id_payload libs name id = object (field name (string (libs.uuid_text id)) end)

-- the `for chunk in chunks` loop, from the n-th new identifier on; its result is the next one
unfoldable pub insert_chunks : Context → Uuid → Uuid → ℕ → List Chunk → Tx ℕ
insert_chunks cx owner_id source_id n [] = pure n
insert_chunks cx owner_id source_id n (chunk ∷ chunks) = do
  insert_chunk (chunk_row (cx.ids n) owner_id source_id chunk)
  insert_job cx.now (cx.ids (n + 1)) owner_id (codes "embed_chunk")
      (id_payload cx.libs (codes "chunk_id") (cx.ids n))
  insert_chunks cx owner_id source_id (n + 2) chunks

-- `if schedule_memory_extraction`
unfoldable pub schedule : Context → Uuid → Uuid → ℕ → Bool → Tx ℕ
schedule cx owner_id source_id n false = pure n
schedule cx owner_id source_id n true = do
  insert_job cx.now (cx.ids n) owner_id (codes "extract_memories")
      (id_payload cx.libs (codes "source_id") source_id)
  pure (n + 1)

-- `ingest_source`, from BEGIN to COMMIT
unfoldable pub ingest_source_tx : Context → Uuid → SourceInput → Tx SourceRecord
unfolding map_conflict
ingest_source_tx cx owner_id input = do
  (λ db. map_conflict (insert_source (source_row cx.now (cx.ids 0) owner_id input) db))
  n ← insert_chunks cx owner_id (cx.ids 0) 1 input.chunks
  m ← schedule cx owner_id (cx.ids 0) n input.schedule_memory_extraction
  insert_audit (cx.ids m) owner_id (codes "source.ingested") (codes "source") (cx.ids 0)
      (object (field (codes "kind") (string input.kind) end))
  pure (source_from_row (source_row cx.now (cx.ids 0) owner_id input))

-- `ingest_source`
unfoldable pub ingest_source : Uuid → SourceInput → Action SourceRecord
ingest_source owner_id input = transaction (λ cx. ingest_source_tx cx owner_id input)

-- `WHERE owner_id=$1 AND id=$2`
unfoldable pub is_source : Uuid → Uuid → SourceRow → Bool
is_source owner_id id r = r.owner_id == owner_id && r.id == id

unfoldable pub is_chunk : Uuid → Uuid → ChunkRow → Bool
is_chunk owner_id id r = r.owner_id == owner_id && r.id == id

unfoldable pub get_source_tx : Uuid → Uuid → Tx SourceRecord
get_source_tx owner_id id = do
  row ← query (λ (db : Db). find (is_source owner_id id) db.sources)
  source ← ok_or row (not_found (codes "source"))
  pure (source_from_row source)

-- `get_source`
unfoldable pub get_source : Uuid → Uuid → Action SourceRecord
get_source owner_id id = transaction (λ cx. get_source_tx owner_id id)

unfoldable pub load_chunk_content_tx : Uuid → Uuid → Tx Text
load_chunk_content_tx owner_id id = do
  row ← query (λ (db : Db). find (is_chunk owner_id id) db.chunks)
  chunk ← ok_or row (not_found (codes "chunk"))
  pure chunk.content

-- `load_chunk_content`
unfoldable pub load_chunk_content : Uuid → Uuid → Action Text
load_chunk_content owner_id id = transaction (λ cx. load_chunk_content_tx owner_id id)

unfoldable pub embedded_chunk : DateTime → Vector → Text → ChunkRow → ChunkRow
embedded_chunk now vector model r = record r {
  embedding = some vector;
  embedding_model = some model;
  embedded_at = some now;
}

unfoldable pub set_chunk_embedding_tx : Context → Uuid → Uuid → Vector → Text → Tx (Unit {0})
set_chunk_embedding_tx cx owner_id id vector model = execute (λ (db : Db). record db {
  chunks = update_where (is_chunk owner_id id) (embedded_chunk cx.now vector model) db.chunks;
})

-- `set_chunk_embedding`
unfoldable pub set_chunk_embedding : Uuid → Uuid → Vector → Text → Action (Unit {0})
set_chunk_embedding owner_id id vector model =
    transaction (λ cx. set_chunk_embedding_tx cx owner_id id vector model)
