-- ===== src/Retrieval.antt =====
-- src/services/retrieval.rs and src/api/search.rs: the search over chunks and memories, by their words and
-- by their embeddings, merged by reciprocal rank fusion.
-- The map of hits is a list in the order of their insertion; the order in which a `HashMap` gives its
-- values is a parameter, and so is the time that passes.
pub mod Queries
pub mod Merging
pub mod Sound
pub mod Keeps
use personal_knowledge_os.Prelude.{
  ℕ, suc, ◌-◌, ◌^◌, Bool, true, false, ◌&&◌, ◌||◌, not, List, [], ◌∷◌, ◌++◌, Option, none, some,
  map, leb, length, is_empty, take, min, max, ◌==◌, if◌then◌else◌,
}
use personal_knowledge_os.Text.{Text, codes, text_eq, trim}
use personal_knowledge_os.Values.{Uuid, DateTime, Vector, F64}
use personal_knowledge_os.AppError.{AppError, Result, ok, err, bad_request}
use personal_knowledge_os.Models.{
  SearchRequest, SearchHit, SearchResponse, RankedChunk, RankedMemory,
}
use personal_knowledge_os.Db.Sql.{order_by, coalesce}
use personal_knowledge_os.Db.Action.{Env, World, Action, ◌>>=◌, ◌>>◌, pure, ensure}
use personal_knowledge_os.Embedding as Embedding
use personal_knowledge_os.Embedding.{embed}
use personal_knowledge_os.Extraction.Process.{AppState}
use personal_knowledge_os.Storage.Search.{
  Ranks, search_chunks_lexical, search_chunks_dense, search_memories_lexical, search_memories_dense,
  record_retrieval,
}

pub record Acc : Type 0 where
  pub kind : Text
  pub id : Uuid
  pub source_id : Option Uuid
  pub title : Option Text
  pub content : Text
  pub occurred_at : Option DateTime
  pub evidence : List Uuid
  pub score : F64
  pub lexical : Option F64
  pub dense : Option F64

-- What the search takes from outside: the ranks, the order of a `HashMap`, and `Instant`.
pub record Searcher : Type 0 where
  pub ranks : Ranks
  pub into_values : List Acc → List Acc
  pub elapsed_ms : ℕ → ℕ → ℕ

-- `rrf_score`, with RRF_K = 60
unfoldable pub rrf_score : Ranks → ℕ → F64
rrf_score ranks rank =
    ranks.div_f64 (ranks.f64_of 1)
      (ranks.add_f64 (ranks.add_f64 (ranks.f64_of 60) (ranks.f64_of rank)) (ranks.f64_of 1))

-- the `Acc` of a chunk that is new
unfoldable pub chunk_acc : Ranks → RankedChunk → Acc
chunk_acc ranks hit = record {
  kind = codes "source_chunk";
  id = hit.chunk_id;
  source_id = some hit.source_id;
  title = hit.title;
  content = hit.content;
  occurred_at = hit.occurred_at;
  evidence = hit.source_id ∷ [];
  score = ranks.f64_of 0;
  lexical = none;
  dense = none;
}

-- the `Acc` of a memory that is new
unfoldable pub memory_acc : Ranks → RankedMemory → Acc
memory_acc ranks hit = record {
  kind = codes "memory";
  id = hit.memory_id;
  source_id = none;
  title = none;
  content = hit.statement;
  occurred_at = hit.valid_from;
  evidence = hit.evidence_source_ids;
  score = ranks.f64_of 0;
  lexical = none;
  dense = none;
}

-- `entry.score += …; entry.lexical = Some(…)`
unfoldable pub rank_lexical : Ranks → ℕ → F64 → Acc → Acc
unfolding rrf_score
rank_lexical ranks rank score a = record a {
  score = ranks.add_f64 a.score (rrf_score ranks rank);
  lexical = some score;
}

-- `entry.score += …; entry.dense = Some(…)`
unfoldable pub rank_dense : Ranks → ℕ → F64 → Acc → Acc
unfolding rrf_score
rank_dense ranks rank score a = record a {
  score = ranks.add_f64 a.score (rrf_score ranks rank);
  dense = some score;
}

-- `merged.entry(key).or_insert_with(…)`, then the change of the entry
unfoldable pub upsert : Acc → (Acc → Acc) → List Acc → List Acc
upsert fresh change [] = change fresh ∷ []
upsert fresh change (a ∷ merged) =
    let rest = upsert fresh change merged in
    if text_eq a.kind fresh.kind && a.id == fresh.id then change a ∷ merged else a ∷ rest

-- `for (rank, hit) in ….enumerate()`, from a rank on
unfoldable pub merge_chunks :
    Ranks → (ℕ → F64 → Acc → Acc) → ℕ → List RankedChunk → List Acc → List Acc
unfolding upsert chunk_acc
merge_chunks ranks change rank [] merged = merged
merge_chunks ranks change rank (hit ∷ hits) merged =
    merge_chunks ranks change (suc rank) hits
      (upsert (chunk_acc ranks hit) (change rank hit.score) merged)

unfoldable pub merge_memories :
    Ranks → (ℕ → F64 → Acc → Acc) → ℕ → List RankedMemory → List Acc → List Acc
unfolding upsert memory_acc
merge_memories ranks change rank [] merged = merged
merge_memories ranks change rank (hit ∷ hits) merged =
    merge_memories ranks change (suc rank) hits
      (upsert (memory_acc ranks hit) (change rank hit.score) merged)

-- `match` on a result that is not returned
abbrev pub attempt : {A B : Type 0} → Action A → (A → Action B) → (AppError → Action B) → Action B
attempt m good bad env w =
    let (r, w') = m env w in elim r [ ok a ↦ good a env w' | err e ↦ bad e env w' ]

-- a lexical search, again by ILIKE if pgroonga fails, and whether it did
unfoldable pub with_fallback : {A : Type 0} → Bool → (Bool → Action A) → Action (A × Bool)
with_fallback true find =
    attempt (find true) (λ v. pure (v, false)) (λ e. find false >>= λ v. pure (v, true))
with_fallback false find = find false >>= λ v. pure (v, false)

-- `if request.include_memories`, the lexical half
unfoldable pub lexical_memories :
    Searcher → Uuid → Text → ℕ → Bool → Bool → List Acc → Action (List Acc × Bool)
unfolding with_fallback merge_memories rank_lexical
lexical_memories searcher owner_id search candidates use_pgroonga false merged =
    pure (merged, false)
lexical_memories searcher owner_id search candidates use_pgroonga true merged = do
  found ←
      with_fallback use_pgroonga (search_memories_lexical searcher.ranks owner_id search candidates)
  pure (merge_memories searcher.ranks (rank_lexical searcher.ranks) 0 found.0 merged, found.1)

-- `if request.include_memories`, the dense half
unfoldable pub dense_memories : Searcher → Uuid → Vector → ℕ → Bool → List Acc → Action (List Acc)
unfolding merge_memories rank_dense
dense_memories searcher owner_id vector candidates false merged = pure merged
dense_memories searcher owner_id vector candidates true merged = do
  found ← search_memories_dense searcher.ranks owner_id vector candidates
  pure (merge_memories searcher.ranks (rank_dense searcher.ranks) 0 found merged)

-- What has been found: the map, whether the search is degraded, and the method beside "lexical".
pub record Found : Type 0 where
  pub merged : List Acc
  pub degraded : Bool
  pub method : Text

-- the arms of `match state.embeddings.embed(query).await` that have no error
unfoldable pub with_vector :
    Searcher → Uuid → ℕ → Bool → Bool → List Acc → Option Vector → Action Found
unfolding dense_memories merge_chunks rank_dense
with_vector searcher owner_id candidates include_memories degraded merged none =
    pure (record { merged = merged; degraded = true; method = codes "dense_unavailable" })
with_vector searcher owner_id candidates include_memories degraded merged (some vector) = do
  chunks ← search_chunks_dense searcher.ranks owner_id vector candidates
  all_merged ←
      dense_memories searcher owner_id vector candidates include_memories
        (merge_chunks searcher.ranks (rank_dense searcher.ranks) 0 chunks merged)
  pure (record { merged = all_merged; degraded = degraded; method = codes "dense" })

-- `match state.embeddings.embed(query).await`
unfoldable pub dense : Searcher → AppState → Text → ℕ → Bool → Bool → List Acc → Action Found
unfolding with_vector
dense searcher state search candidates include_memories degraded merged =
    attempt (embed state.services (Embedding.new state.config) search)
      (with_vector searcher state.config.owner_id candidates include_memories degraded merged)
      (λ e. pure (record { merged = merged; degraded = true; method = codes "dense_failed" }))

unfoldable pub hit_of : Acc → SearchHit
hit_of a = record {
  kind = a.kind;
  id = a.id;
  source_id = a.source_id;
  title = a.title;
  content = a.content;
  score = a.score;
  lexical_score = a.lexical;
  dense_score = a.dense;
  occurred_at = a.occurred_at;
  evidence_source_ids = a.evidence;
}

-- `hits.sort_by(|a, b| b.score.total_cmp(&a.score)); hits.truncate(limit)`
unfoldable pub best_hits : Searcher → ℕ → List Acc → List SearchHit
unfolding hit_of
best_hits searcher limit merged = take limit (
    order_by (λ (a : SearchHit) (b : SearchHit). searcher.ranks.total_leb b.score a.score)
      (map hit_of (searcher.into_values merged)))

-- `.clamp(lo, hi)` for `lo <= hi`
abbrev pub clamp : ℕ → ℕ → ℕ → ℕ
clamp lo hi n = min hi (max lo n)

-- from the first query on, with the limits
unfoldable pub gather : Searcher → AppState → SearchRequest → ℕ → Action Found
unfolding with_fallback merge_chunks rank_lexical lexical_memories dense
gather searcher state request candidates = do
  chunks ←
      with_fallback (text_eq state.config.lexical_backend (codes "pgroonga"))
        (search_chunks_lexical searcher.ranks state.config.owner_id (trim request.query) candidates)
  memories ←
      lexical_memories searcher state.config.owner_id (trim request.query) candidates
        (text_eq state.config.lexical_backend (codes "pgroonga")) request.include_memories
        (merge_chunks searcher.ranks (rank_lexical searcher.ranks) 0 chunks.0 [])
  dense searcher state (trim request.query) candidates request.include_memories
      (chunks.1 || memories.1) memories.0

-- the response
unfoldable pub response_of : Searcher → SearchRequest → ℕ → Found → SearchResponse
unfolding best_hits
response_of searcher request limit found = record {
  query = trim request.query;
  hits = best_hits searcher limit found.merged;
  degraded = found.degraded;
  methods = codes "lexical" ∷ found.method ∷ [];
}

-- `record_retrieval`, whose error is only logged, and the response
unfoldable pub respond : Searcher → AppState → SearchRequest → ℕ → ℕ → Found → Action SearchResponse
unfolding response_of
respond searcher state request limit started found env w =
    attempt
      (record_retrieval state.config.owner_id (trim request.query)
        (codes "lexical" ∷ found.method ∷ []) found.degraded
        (min (searcher.elapsed_ms started w.tick) (2 ^ 63 - 1)) limit)
      (λ u. pure (response_of searcher request limit found))
      (λ e. pure (response_of searcher request limit found)) env w

-- `limit` and `candidates`
unfoldable pub limit_of : AppState → SearchRequest → ℕ
limit_of state request = clamp 1 50 (coalesce request.limit state.config.search_result_limit)

unfoldable pub candidates_of : AppState → SearchRequest → ℕ
unfolding limit_of
candidates_of state request = clamp (limit_of state request) 200 state.config.search_candidate_limit

-- `search`
unfoldable pub search : Searcher → AppState → SearchRequest → Action SearchResponse
unfolding gather respond candidates_of
search searcher state request = do
  ensure (not (is_empty (trim request.query))) (bad_request (codes "query must not be empty"))
  ensure (leb (length (trim request.query)) 2000) (bad_request (codes "query is too long"))
  started ← λ env w. (ok w.tick, w)
  found ← gather searcher state request (candidates_of state request)
  respond searcher state request (limit_of state request) started found
