-- ===== src/Retrieval/Keeps.antt =====
-- A search leaves the sources, the evidence and the memories alone.
use personal_knowledge_os.Prelude.{
  ℕ, ◌-◌, ◌^◌, ◌≡◌, refl, List, [], ◌∷◌, not, leb, length, is_empty, min, arith,
}
use personal_knowledge_os.Text.{codes, trim}
use personal_knowledge_os.AppError.{Result, ok, err, bad_request}
use personal_knowledge_os.Models.{SearchRequest, SearchResponse}
use personal_knowledge_os.Db.Tables.{Db, SourceRow, EvidenceRow, MemoryRow, RetrievalRow}
use personal_knowledge_os.Db.Action.{World, Action, ◌>>=◌, ◌>>◌, ensure}
use personal_knowledge_os.Db.Keeps.{Keeps, transaction-Keeps, bind-Keeps, ensure-Keeps}
use personal_knowledge_os.Storage.Search.{record_retrieval, record_retrieval_tx}
use personal_knowledge_os.Storage.Operations.Jobs.{OfMemories}
use personal_knowledge_os.Extraction.Process.{AppState}
use personal_knowledge_os.Retrieval.{
  Searcher, Found, gather, respond, response_of, limit_of, candidates_of, search,
}
use personal_knowledge_os.Retrieval.Merging.{gather-Finds}

record_retrieval_tx_lem :
    (row : RetrievalRow) (db : Db) {u : Unit {0}} {db' : Db}
    → record_retrieval_tx row db ≡ ok (u, db')
    → (db'.sources ≡ db.sources)
      × (db'.memory_evidence ≡ db.memory_evidence)
      × (db'.memories ≡ db.memories)
unfolding record_retrieval_tx
record_retrieval_tx_lem row db h = (ground arith, ground arith, ground arith)

module _ (Q : List SourceRow → List EvidenceRow → List MemoryRow → Type 0) (searcher : Searcher)
    (state : AppState) (request : SearchRequest) where
  respond-Keeps :
      (limit started : ℕ) (found : Found)
      → Keeps (OfMemories Q) (respond searcher state request limit started found)
  unfolding respond record_retrieval
  respond-Keeps limit started found env w h =
      go
        (record_retrieval state.config.owner_id (trim request.query)
          (codes "lexical" ∷ found.method ∷ []) found.degraded
          (min (searcher.elapsed_ms started w.tick) (2 ^ 63 - 1)) limit env w)
        (transaction-Keeps (OfMemories Q) _
          (λ cx db u db' k e.
            let (ss, es, ms) = record_retrieval_tx_lem _ db e in rw (ss, es, ms) k)
          env w h)
    where
      go :
          (s : Result (Unit {0}) × World)
          → OfMemories Q s.1.db
          → OfMemories Q
              (let (r, w') = s in
                elim r as (λ _. Result SearchResponse × World) [
                  | ok u ↦ (ok (response_of searcher request limit found), w')
                  | err e ↦ (ok (response_of searcher request limit found), w')
                ]).1.db
      go (ok u, w') k = k
      go (err e, w') k = k

  searched-Keeps : Keeps (OfMemories Q) (
      (λ env w. (ok w.tick, w)) >>= λ started.
      gather searcher state request (candidates_of state request)
      >>= respond searcher state request (limit_of state request) started)
  searched-Keeps env w h =
      bind-Keeps (OfMemories Q) (gather searcher state request (candidates_of state request))
        (respond searcher state request (limit_of state request) w.tick)
        (λ env' w' k.
          rw
            (gather-Finds w'.db searcher state request (candidates_of state request) env' w' refl).0
            k)
        (respond-Keeps (limit_of state request) w.tick) env w h

  pub search-Keeps : Keeps (OfMemories Q) (search searcher state request)
  unfolding search
  search-Keeps =
      bind-Keeps (OfMemories Q)
        (ensure (not (is_empty (trim request.query)))
          (bad_request (codes "query must not be empty")))
        (λ _.
          ensure (leb (length (trim request.query)) 2000) (bad_request (codes "query is too long"))
          >> searched)
        (ensure-Keeps (OfMemories Q) _ _)
        (λ _.
          bind-Keeps (OfMemories Q)
            (ensure (leb (length (trim request.query)) 2000)
              (bad_request (codes "query is too long")))
            (λ _. searched) (ensure-Keeps (OfMemories Q) _ _) (λ _. searched-Keeps))
    where
      searched : Action SearchResponse
      searched = (λ env w. (ok w.tick, w)) >>= λ started.
          gather searcher state request (candidates_of state request)
          >>= respond searcher state request (limit_of state request) started
