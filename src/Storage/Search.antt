-- ===== src/Storage/Search.antt =====
-- The search queries of src/storage.rs, and `record_retrieval` and `ping`.
use personal_knowledge_os.Prelude.{
  ℕ, Bool, true, false, ◌&&◌, not, List, [], ◌∷◌, ◌++◌, Option, none, some, map, any, find, select,
  take, is_some, ◌==◌, if◌then◌else◌, leb,
}
use personal_knowledge_os.Text.{Text, codes}
use personal_knowledge_os.Values.{Uuid, Vector, F64}
use personal_knowledge_os.AppError.{database, other_error}
use personal_knowledge_os.Models.{RankedChunk, RankedMemory}
use personal_knowledge_os.Db.Tables.{Db, SourceRow, ChunkRow, MemoryRow, EvidenceRow, RetrievalRow}
use personal_knowledge_os.Db.Libs.{Libs}
use personal_knowledge_os.Db.Sql.{order_by}
use personal_knowledge_os.Db.Tx.{Tx, Context, ◌>>=◌, ◌>>◌, query, execute, ensure}
use personal_knowledge_os.Db.Action.{Action, transaction}
use personal_knowledge_os.Storage.Rows.{unique_violation, check_violation, evidence_of}
use personal_knowledge_os.Storage.Memories.Bodies.{is_active}

-- What the extensions of Postgres and the arithmetic of f64 give.
pub record Ranks : Type 0 where
  -- `+`, `-`, `/`, and `usize as f64`
  pub add_f64 : F64 → F64 → F64
  pub sub_f64 : F64 → F64 → F64
  pub div_f64 : F64 → F64 → F64
  pub f64_of : ℕ → F64
  -- `a.total_cmp(&b)` is not `Greater`; `a <= b` of float8
  pub total_leb : F64 → F64 → Bool
  pub float8_leb : F64 → F64 → Bool
  -- `content &@~ query`, the syntax of the query, and the score of a row
  pub pgroonga_matches : Text → Text → Bool
  pub pgroonga_accepts : Text → Bool
  pub pgroonga_score : Uuid → Text → F64
  -- `embedding <=> vector`
  pub distance : Vector → Vector → F64

-- `chunk_from_row`, with the title and the time of its source
unfoldable pub chunk_from_row : F64 → ChunkRow → SourceRow → RankedChunk
chunk_from_row score c s = record {
  chunk_id = c.id;
  source_id = c.source_id;
  title = s.title;
  content = c.content;
  occurred_at = s.occurred_at;
  score = score;
}

-- one row of the JOIN
unfoldable pub joined : F64 → ChunkRow → Option SourceRow → List RankedChunk → List RankedChunk
joined score c none rest = rest
joined score c (some s) rest = chunk_from_row score c s ∷ rest

-- FROM chunks c JOIN sources s ON s.id=c.source_id
unfoldable pub join_sources : (ChunkRow → F64) → List SourceRow → List ChunkRow → List RankedChunk
unfolding joined
join_sources score sources [] = []
join_sources score sources (c ∷ cs) =
    joined (score c) c (find (λ (s : SourceRow). s.id == c.source_id) sources)
      (join_sources score sources cs)

-- the WHERE clause of `search_chunks_lexical`
unfoldable pub chunk_matches : Ranks → Libs → Uuid → Text → Bool → ChunkRow → Bool
chunk_matches ranks libs owner_id search use_pgroonga c =
    c.owner_id == owner_id
    && (if use_pgroonga
        then ranks.pgroonga_matches c.content search
        else libs.ilike c.content search)

-- its score; the rows that ILIKE finds all have 1.0
unfoldable pub lexical_score : Ranks → Text → Bool → Uuid → F64
lexical_score ranks search true id = ranks.pgroonga_score id search
lexical_score ranks search false id = ranks.f64_of 1

-- a query that pgroonga cannot parse is an error
abbrev pub accepts : Ranks → Text → Bool → Bool
accepts ranks search true = ranks.pgroonga_accepts search
accepts ranks search false = true

-- its SELECT
unfoldable pub lexical_chunks : Ranks → Libs → Uuid → Text → ℕ → Bool → Db → List RankedChunk
unfolding join_sources chunk_matches lexical_score
lexical_chunks ranks libs owner_id search limit use_pgroonga db = take limit (
    order_by (λ (a : RankedChunk) (b : RankedChunk). ranks.float8_leb b.score a.score)
      (join_sources (λ c. lexical_score ranks search use_pgroonga c.id) db.sources
        (select (chunk_matches ranks libs owner_id search use_pgroonga) db.chunks)))

unfoldable pub search_chunks_lexical_tx :
    Ranks → Context → Uuid → Text → ℕ → Bool → Tx (List RankedChunk)
unfolding lexical_chunks
search_chunks_lexical_tx ranks cx owner_id search limit use_pgroonga = do
  ensure (accepts ranks search use_pgroonga) (database (other_error (codes "pgroonga")))
  query (lexical_chunks ranks cx.libs owner_id search limit use_pgroonga)

-- `search_chunks_lexical`
unfoldable pub search_chunks_lexical : Ranks → Uuid → Text → ℕ → Bool → Action (List RankedChunk)
search_chunks_lexical ranks owner_id search limit use_pgroonga =
    transaction (λ cx. search_chunks_lexical_tx ranks cx owner_id search limit use_pgroonga)

-- `1.0-(embedding <=> $2)`; a row without an embedding is not asked
unfoldable pub similarity : Ranks → Vector → Option Vector → F64
similarity ranks vector none = ranks.f64_of 0
similarity ranks vector (some e) = ranks.sub_f64 (ranks.f64_of 1) (ranks.distance e vector)

-- ORDER BY embedding <=> $2
unfoldable pub nearer : Ranks → Vector → Option Vector → Option Vector → Bool
nearer ranks vector (some a) (some b) =
    ranks.float8_leb (ranks.distance a vector) (ranks.distance b vector)
nearer ranks vector _ _ = true

-- the WHERE clause of `search_chunks_dense`
unfoldable pub is_embedded_chunk : Uuid → ChunkRow → Bool
is_embedded_chunk owner_id c = c.owner_id == owner_id && is_some c.embedding

-- its SELECT; each chunk has its source, so the LIMIT can be taken before the JOIN
unfoldable pub dense_chunks : Ranks → Uuid → Vector → ℕ → Db → List RankedChunk
unfolding join_sources is_embedded_chunk similarity nearer
dense_chunks ranks owner_id vector limit db =
    join_sources (λ c. similarity ranks vector c.embedding) db.sources
      (take limit (
        order_by (λ (a : ChunkRow) (b : ChunkRow). nearer ranks vector a.embedding b.embedding)
          (select (is_embedded_chunk owner_id) db.chunks)))

-- `search_chunks_dense`
unfoldable pub search_chunks_dense : Ranks → Uuid → Vector → ℕ → Action (List RankedChunk)
search_chunks_dense ranks owner_id vector limit =
    transaction (λ cx. query (dense_chunks ranks owner_id vector limit))

-- `memory_rank_from_row`, with the aggregated evidence
unfoldable pub memory_rank_from_row : List EvidenceRow → F64 → MemoryRow → RankedMemory
unfolding evidence_of
memory_rank_from_row evidence score m = record {
  memory_id = m.id;
  statement = m.statement;
  score = score;
  evidence_source_ids = evidence_of m.id evidence;
  valid_from = m.valid_from;
}

-- the WHERE clause of `search_memories_lexical`
unfoldable pub memory_matches : Ranks → Libs → Uuid → Text → Bool → MemoryRow → Bool
memory_matches ranks libs owner_id search use_pgroonga m =
    m.owner_id == owner_id
    && is_active m.status
    && (if use_pgroonga
        then ranks.pgroonga_matches m.statement search
        else libs.ilike m.statement search)

-- its SELECT
unfoldable pub lexical_memory_rows : Ranks → Libs → Uuid → Text → ℕ → Bool → Db → List RankedMemory
unfolding memory_rank_from_row memory_matches lexical_score
lexical_memory_rows ranks libs owner_id search limit use_pgroonga db = take limit (
    order_by (λ (a : RankedMemory) (b : RankedMemory). ranks.float8_leb b.score a.score)
      (map
        (λ (m : MemoryRow).
          memory_rank_from_row db.memory_evidence (lexical_score ranks search use_pgroonga m.id) m)
        (select (memory_matches ranks libs owner_id search use_pgroonga) db.memories)))

unfoldable pub search_memories_lexical_tx :
    Ranks → Context → Uuid → Text → ℕ → Bool → Tx (List RankedMemory)
unfolding lexical_memory_rows
search_memories_lexical_tx ranks cx owner_id search limit use_pgroonga = do
  ensure (accepts ranks search use_pgroonga) (database (other_error (codes "pgroonga")))
  query (lexical_memory_rows ranks cx.libs owner_id search limit use_pgroonga)

-- `search_memories_lexical`
unfoldable pub search_memories_lexical : Ranks → Uuid → Text → ℕ → Bool → Action (List RankedMemory)
search_memories_lexical ranks owner_id search limit use_pgroonga =
    transaction (λ cx. search_memories_lexical_tx ranks cx owner_id search limit use_pgroonga)

-- the WHERE clause of `search_memories_dense`
unfoldable pub is_embedded_memory : Uuid → MemoryRow → Bool
is_embedded_memory owner_id m = m.owner_id == owner_id && is_active m.status && is_some m.embedding

-- its SELECT
unfoldable pub dense_memory_rows : Ranks → Uuid → Vector → ℕ → Db → List RankedMemory
unfolding memory_rank_from_row is_embedded_memory similarity nearer
dense_memory_rows ranks owner_id vector limit db =
    map
      (λ (m : MemoryRow).
        memory_rank_from_row db.memory_evidence (similarity ranks vector m.embedding) m)
      (take limit (
        order_by (λ (a : MemoryRow) (b : MemoryRow). nearer ranks vector a.embedding b.embedding)
          (select (is_embedded_memory owner_id) db.memories)))

-- `search_memories_dense`
unfoldable pub search_memories_dense : Ranks → Uuid → Vector → ℕ → Action (List RankedMemory)
search_memories_dense ranks owner_id vector limit =
    transaction (λ cx. query (dense_memory_rows ranks owner_id vector limit))

unfoldable pub record_retrieval_tx : RetrievalRow → Tx (Unit {0})
record_retrieval_tx row = do
  ensure (leb 1 row.top_k) check_violation
  rows ← query (λ (db : Db). db.retrieval_runs)
  ensure (not (any (λ (r : RetrievalRow). r.id == row.id) rows)) unique_violation
  execute (λ (db : Db). record db { retrieval_runs = db.retrieval_runs ++ row ∷ [] })

-- `record_retrieval`
unfoldable pub record_retrieval : Uuid → Text → List Text → Bool → ℕ → ℕ → Action (Unit {0})
record_retrieval owner_id search methods degraded latency_ms top_k = transaction (λ cx.
    record_retrieval_tx (record {
      id = cx.ids 0;
      owner_id = owner_id;
      query = search;
      methods = methods;
      degraded = degraded;
      latency_ms = latency_ms;
      top_k = top_k;
    }))

-- `ping`
unfoldable pub ping : Action (Unit {0})
ping = transaction (λ cx. execute (λ (db : Db). db))
