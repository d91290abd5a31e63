-- ===== src/System/Once.antt =====
-- A source is stored once: what the unique index of the external ids means to a client that delivers again.
use personal_knowledge_os.Prelude.{
  suc, ◌≡◌, refl, inl, inr, true, false, List, [], ◌∷◌, Option, some, arith, any, Any,
  Any-append_left, Any-append_right, length,
}
use personal_knowledge_os.Text.{Text, codes, text_eq_refl}
use personal_knowledge_os.Values.{Uuid}
use personal_knowledge_os.AppError.{ok, err, conflict}
use personal_knowledge_os.Models.{SourceRecord}
use personal_knowledge_os.Db.Tables.{SourceRow, EvidenceRow, MemoryRow}
use personal_knowledge_os.Db.Action.{Env, World, context}
use personal_knowledge_os.Db.Keeps.{Keeps}
use personal_knowledge_os.Storage.Rows.{add_audit, add_job}
use personal_knowledge_os.Storage.Sources.{
  SourceInput, ingest_source, source_row, source_check, clashes,
}
use personal_knowledge_os.Storage.Sources.Ingestion.{
  ingest_source_exact, ingest_source_checked, ingest_source_conflict,
}
use personal_knowledge_os.Storage.Memories.{approve_memory, create_memory_candidate}
use personal_knowledge_os.Storage.Memories.Bodies.{MemoryCandidateInput}
use personal_knowledge_os.Storage.Memories.Effects.{
  approve_memory_tx_lem, create_memory_candidate_tx_lem,
}
use personal_knowledge_os.Storage.Memories.Reads.{approve_memory_lem, create_memory_candidate_lem}
use personal_knowledge_os.Storage.Operations.{
  Operation, ingest, embed_chunk, create, approve, reject, embed_memory, lease, complete, fail,
  perform,
}
use personal_knowledge_os.Storage.Operations.Jobs.{
  OfMemories, lease_jobs-Keeps, complete_job-Keeps, fail_job-Keeps, set_chunk_embedding-Keeps,
}
use personal_knowledge_os.Storage.Operations.Memories.{
  reject_memory-Keeps, set_memory_embedding-Keeps,
}
use personal_knowledge_os.Storage.Graph.Keeps.{change-Keeps}
use personal_knowledge_os.Retrieval.Keeps.{search-Keeps}
use personal_knowledge_os.Extraction.Process.Keeps.{IsKept}
use personal_knowledge_os.Worker.Keeps.{round-Keeps}
use personal_knowledge_os.System.{Turn, request, graph, retrieve, background, take_turn, take_turns}

module _ (owner_id : Uuid) (kind external_id : Text) where
  -- The external id is taken, among the sources of this kind.
  abbrev IsTaken : List SourceRow → List EvidenceRow → List MemoryRow → Type 0
  IsTaken ss es ms =
      Any
        (λ (s : SourceRow).
          (s.owner_id ≡ owner_id) × (s.kind ≡ kind) × (s.external_id ≡ some external_id))
        ss

  ingest_source-IsTaken :
      (owner : Uuid) (input : SourceInput) → Keeps (OfMemories IsTaken) (ingest_source owner input)
  unfolding add_audit
  ingest_source-IsTaken owner input env w h = elim (ingest_source_exact owner input env w) [
    | inl (e, failed, same) ↦ rw same h
    | inr (done, made) ↦ rw made (
        Any-append_left
          (λ (s : SourceRow).
            (s.owner_id ≡ owner_id) × (s.kind ≡ kind) × (s.external_id ≡ some external_id))
          w.db.sources _ h)
  ]

  create_memory_candidate-IsTaken :
      (owner : Uuid) (input : MemoryCandidateInput)
      → Keeps (OfMemories IsTaken) (create_memory_candidate owner input)
  unfolding add_audit
  create_memory_candidate-IsTaken owner input env w h =
      elim (create_memory_candidate_lem owner input env w) [
        | inl same ↦ rw same h
        | inr (given, id, body) ↦
            let (known, unused, _, made) =
              create_memory_candidate_tx_lem (context env w.tick) owner input w.db body in
            rw made h
      ]

  approve_memory-IsTaken :
      (owner id : Uuid) (supersedes_id : Option Uuid)
      → Keeps (OfMemories IsTaken) (approve_memory owner id supersedes_id)
  unfolding add_audit add_job
  approve_memory-IsTaken owner id supersedes_id env w h =
      elim (approve_memory_lem owner id supersedes_id env w) [
        | inl same ↦ rw same h
        | inr body ↦
            let (was, one, made) =
              approve_memory_tx_lem (context env w.tick) owner id supersedes_id w.db body in
            rw made h
      ]

  IsTaken-IsKept : IsKept IsTaken (λ input. Unit) Unit
  IsTaken-IsKept = record {
    approves = λ may. approve_memory-IsTaken;
    creates = λ owner input allowed. create_memory_candidate-IsTaken owner input;
    cites_more = λ ss es ms memory_id source_id h. h;
    updates = λ ss es ms p f same h. h;
  }

  perform-IsTaken :
      (op : Operation) (env : Env) (w : World)
      → OfMemories IsTaken w.db
      → OfMemories IsTaken (perform op env w).db
  unfolding perform
  perform-IsTaken (ingest owner input) = ingest_source-IsTaken owner input
  perform-IsTaken (embed_chunk owner id vector model) =
      set_chunk_embedding-Keeps IsTaken owner id vector model
  perform-IsTaken (create owner input) = create_memory_candidate-IsTaken owner input
  perform-IsTaken (approve owner id supersedes_id) = approve_memory-IsTaken owner id supersedes_id
  perform-IsTaken (reject owner id) =
      reject_memory-Keeps IsTaken (λ ss es ms p f ids owners h. h) owner id
  perform-IsTaken (embed_memory owner id vector model) =
      set_memory_embedding-Keeps IsTaken (λ ss es ms p f same h. h) owner id vector model
  perform-IsTaken (lease owner limit) = lease_jobs-Keeps IsTaken owner limit
  perform-IsTaken (complete id) = complete_job-Keeps IsTaken id
  perform-IsTaken (fail id attempts error) = fail_job-Keeps IsTaken id attempts error

  take_turn-IsTaken :
      (t : Turn) (env : Env) (w : World)
      → OfMemories IsTaken w.db
      → OfMemories IsTaken (take_turn t env w).db
  unfolding take_turn
  take_turn-IsTaken (request op) = perform-IsTaken op
  take_turn-IsTaken (graph c) = change-Keeps IsTaken c
  take_turn-IsTaken (retrieve searcher state query) = search-Keeps IsTaken searcher state query
  take_turn-IsTaken (background state) = round-Keeps IsTaken-IsKept state

  take_turns-IsTaken :
      (ts : List Turn) (env : Env) (w : World)
      → OfMemories IsTaken w.db
      → OfMemories IsTaken (take_turns ts env w).db
  unfolding take_turns
  take_turns-IsTaken [] env w h = h
  take_turns-IsTaken (t ∷ ts) env w h =
      take_turns-IsTaken ts env (take_turn t env w) (take_turn-IsTaken t env w h)

  IsTaken-clashes :
      (row : SourceRow) (ss : List SourceRow) (es : List EvidenceRow) (ms : List MemoryRow)
      → row.owner_id ≡ owner_id
      → row.kind ≡ kind
      → row.external_id ≡ some external_id
      → IsTaken ss es ms
      → any (clashes row) ss ≡ true
  unfolding clashes
  IsTaken-clashes row [] es ms o k x h = absurd h
  IsTaken-clashes row (s ∷ ss) es ms o k x (inl (o', k', x')) =
      rw (o, k, x, o', k', x', text_eq_refl kind, text_eq_refl external_id) (ground arith)
  IsTaken-clashes row (s ∷ ss) es ms o k x (inr h) =
      ground (arith, IsTaken-clashes row ss es ms o k x h)

source_check-again :
    (row again : SourceRow)
    → source_check row ≡ true
    → again.kind ≡ row.kind
    → length again.sha256 ≡ 64
    → source_check again ≡ true
unfolding source_check
source_check-again row again h k sha = rw (k, sha) (ground arith)

-- Once a source with an external id was ingested, whatever the handlers and the worker do in between: if
-- the database answers, ingesting another of the same owner, kind and external id, with a digest of 64
-- characters, is a conflict and leaves the tables as they were, whatever its content.
pub ingest_source_once :
    (owner_id : Uuid) (first second : SourceInput) (external_id : Text) (turns : List Turn)
    (env : Env) (w : World) (r : SourceRecord)
    → (ingest_source owner_id first env w).0 ≡ ok r
    → first.external_id ≡ some external_id
    → second.external_id ≡ some external_id
    → second.kind ≡ first.kind
    → length second.sha256 ≡ 64
    → env.fails (take_turns turns env (ingest_source owner_id first env w).1).tick ≡ false
    → let later = take_turns turns env (ingest_source owner_id first env w).1 in
      ingest_source owner_id second env later ≡ (
        err (conflict (codes "source external_id already exists")),
        record later { tick = suc later.tick },
      )
unfolding source_row add_audit
ingest_source_once owner_id first second external_id turns env w r stored x y kinds sha alive =
    let (checked, made) = ingest_source_checked owner_id first env w stored in
    ingest_source_conflict owner_id second env later alive
      (source_check-again (source_row (env.now w.tick) (env.fresh w.tick 0) owner_id first)
        (source_row (env.now later.tick) (env.fresh later.tick 0) owner_id second) checked kinds
        sha)
      (IsTaken-clashes owner_id first.kind external_id
        (source_row (env.now later.tick) (env.fresh later.tick 0) owner_id second) later.db.sources
        later.db.memory_evidence later.db.memories refl kinds y
        (take_turns-IsTaken owner_id first.kind external_id turns env
          (ingest_source owner_id first env w).1
          (rw made (
            Any-append_right
              (λ (s : SourceRow).
                (s.owner_id ≡ owner_id)
                × (s.kind ≡ first.kind)
                × (s.external_id ≡ some external_id))
              w.db.sources _ (inl (refl, refl, x))))))
  where
    later : World
    later = take_turns turns env (ingest_source owner_id first env w).1
