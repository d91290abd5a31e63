-- ===== src/Extraction/Process/Keeps.antt =====
-- What the memory methods keep, the extraction keeps that calls them.
use personal_knowledge_os.Prelude.{
  suc, ◌≡◌, refl, ap, ◌∙◌, All, inl, inr, Bool, true, false, List, [], ◌∷◌, Option, none, some,
  Bool-cases, ◌==◌, not, ◌&&◌,
}
use personal_knowledge_os.Text.{trim, codes}
use personal_knowledge_os.Values.{Uuid}
use personal_knowledge_os.AppError.{ok}
use personal_knowledge_os.Models.{SourceRecord, MemoryRecord}
use personal_knowledge_os.Db.Libs.{Libs}
use personal_knowledge_os.Db.Tables.{
  Db, SourceRow, EvidenceRow, MemoryRow, MemoryStatus, candidate, active, superseded, rejected,
  disputed,
}
use personal_knowledge_os.Db.Action.{Env, World, Action, transaction, pure, transaction_rule, ◌>>=◌}
use personal_knowledge_os.Db.Keeps.{Keeps, reads-Keeps, transaction-Keeps, bind-Keeps, bind_after}
use personal_knowledge_os.Storage.Sources.{get_source, get_source_tx}
use personal_knowledge_os.Storage.Memories.{list_memories, create_memory_candidate, approve_memory}
use personal_knowledge_os.Storage.Memories.Bodies.{
  MemoryCandidateInput, add_evidence, is_active_memory,
}
use personal_knowledge_os.Storage.Operations.Jobs.{OfMemories}
use personal_knowledge_os.Storage.Operations.Memories.{IsKeptByUpdates, update_memories-Keeps}
use personal_knowledge_os.Extraction.Verifier.{
  ExtractedMemory, Verdict, validate_candidate, accepted, discarded,
}
use personal_knowledge_os.Extraction.Client.{Outcome, finished, panicked, extract, new, enabled}
use personal_knowledge_os.Extraction.Statements.{
  find_existing_memory, find_existing_memory_tx, insert_evidence_tx, reinforced_row, reinforce_tx,
  count_recurrence, reinforce_existing_memory, resolve_supersedes,
}
use personal_knowledge_os.Extraction.Process.{
  AppState, should_auto_promote, approve_unless_lost, promote_existing, memory_input, promote_new,
  create_unless_lost, create_new, with_existing, process_verdict, process_candidate,
  process_candidates, process_answer, process_source, lost_supersedes,
}
use personal_knowledge_os.Extraction.Process.Answers.{IsAnswered, extract-IsAnswered}
use personal_knowledge_os.Extraction.Statements.Keeps.{
  get_source_tx_reads, list_memories-Keeps, find_existing_memory_tx_reads, extract-Keeps,
  resolve_supersedes-Keeps, insert_evidence_tx_lem,
}

-- What a property of the memories needs, to be kept by the extraction: the memories that it may create
-- are `Allowed`, and it approves memories only if it `Promotes`.
pub record IsKept (Q : List SourceRow → List EvidenceRow → List MemoryRow → Type 0)
    (Allowed : MemoryCandidateInput → Type 0) (Promotes : Type 0) : Type 0 where
  pub approves :
      Promotes
      → (owner_id id : Uuid) (supersedes_id : Option Uuid)
      → Keeps (OfMemories Q) (approve_memory owner_id id supersedes_id)
  pub creates :
      (owner_id : Uuid) (input : MemoryCandidateInput)
      → Allowed input
      → Keeps (OfMemories Q) (create_memory_candidate owner_id input)
  pub cites_more :
      (ss : List SourceRow) (es : List EvidenceRow) (ms : List MemoryRow)
      (memory_id source_id : Uuid)
      → Q ss es ms
      → Q ss (add_evidence memory_id source_id es) ms
  pub updates : IsKeptByUpdates Q

module _ {Q : List SourceRow → List EvidenceRow → List MemoryRow → Type 0}
    {Allowed : MemoryCandidateInput → Type 0} {Promotes : Type 0} (k : IsKept Q Allowed Promotes)
    (state : AppState) where
  reinforce-Keeps :
      (owner_id memory_id source_id : Uuid)
      → Keeps (OfMemories Q) (reinforce_existing_memory owner_id memory_id source_id)
  unfolding reinforce_existing_memory count_recurrence reinforce_tx reinforced_row
  reinforce-Keeps owner_id memory_id source_id =
      bind-Keeps (OfMemories Q) (transaction (λ cx. insert_evidence_tx memory_id source_id))
        (λ inserted. count_recurrence owner_id memory_id (inserted == 1))
        (transaction-Keeps (OfMemories Q) (λ cx. insert_evidence_tx memory_id source_id)
          (λ cx db a db' h e.
            rw (insert_evidence_tx_lem memory_id source_id db e)
              (k.cites_more db.sources db.memory_evidence db.memories memory_id source_id h)))
        (λ inserted. count (inserted == 1))
    where
      count : (counted : Bool) → Keeps (OfMemories Q) (count_recurrence owner_id memory_id counted)
      count true =
          update_memories-Keeps Q k.updates (λ cx. is_active_memory owner_id memory_id)
            (λ cx. reinforced_row cx.now)
            (λ cx r. record {
              same_id = refl;
              same_owner = refl;
              same_type = refl;
              same_statement = refl;
              same_status = refl;
              same_confidence = refl;
              same_importance = refl;
            })
      count false = λ env w h. h

  approve-Keeps :
      (lost : Bool) (id : Uuid) (supersedes : Option Uuid)
      → Promotes
      → Keeps (OfMemories Q) (approve_unless_lost state lost id supersedes)
  unfolding approve_unless_lost
  approve-Keeps true id supersedes may = λ env w h. h
  approve-Keeps false id supersedes may =
      bind-Keeps (OfMemories Q) (approve_memory state.config.owner_id id supersedes) (λ m. pure tt)
        (k.approves may state.config.owner_id id supersedes) (λ m env w h. h)

  promote_existing-Keeps :
      (m : ExtractedMemory) (id : Uuid)
      → (should_auto_promote state.config m ≡ true → Promotes)
      → Keeps (OfMemories Q) (promote_existing state m id)
  unfolding promote_existing
  promote_existing-Keeps m id may = elim (Bool-cases (should_auto_promote state.config m)) [
    | inl good ↦ rw good (
        bind-Keeps (OfMemories Q) (resolve_supersedes state.config.owner_id m.supersedes_memory_id)
          (λ s. approve_unless_lost state (lost_supersedes m s) id s)
          (resolve_supersedes-Keeps (OfMemories Q) state.config.owner_id m.supersedes_memory_id)
          (λ s. approve-Keeps (lost_supersedes m s) id s (may good)))
    | inr bad ↦ rw bad (λ env w h. h)
  ]

  promote_new-Keeps :
      (good : Bool) (id : Uuid) (supersedes : Option Uuid)
      → (good ≡ true → Promotes)
      → Keeps (OfMemories Q) (promote_new state good id supersedes)
  unfolding promote_new
  promote_new-Keeps true id supersedes may =
      bind-Keeps (OfMemories Q) (approve_memory state.config.owner_id id supersedes) (λ m. pure tt)
        (k.approves (may refl) state.config.owner_id id supersedes) (λ m env w h. h)
  promote_new-Keeps false id supersedes may = λ env w h. h

  create-Keeps :
      (source : SourceRecord) (m : ExtractedMemory) (lost : Bool) (supersedes : Option Uuid)
      → ((libs : Libs) → Allowed (memory_input libs m source))
      → (should_auto_promote state.config m ≡ true → Promotes)
      → Keeps (OfMemories Q) (create_unless_lost state source m lost supersedes)
  unfolding create_unless_lost
  create-Keeps source m true supersedes allowed may = λ env w h. h
  create-Keeps source m false supersedes allowed may =
      bind-Keeps (OfMemories Q)
        (λ env. create_memory_candidate state.config.owner_id (memory_input env.libs m source) env)
        (λ memory. promote_new state (should_auto_promote state.config m) memory.id supersedes)
        (λ env.
          k.creates state.config.owner_id (memory_input env.libs m source) (allowed env.libs) env)
        (λ memory. promote_new-Keeps (should_auto_promote state.config m) memory.id supersedes may)

  create_new-Keeps :
      (source : SourceRecord) (m : ExtractedMemory)
      → ((libs : Libs) → Allowed (memory_input libs m source))
      → (should_auto_promote state.config m ≡ true → Promotes)
      → Keeps (OfMemories Q) (create_new state source m)
  unfolding create_new
  create_new-Keeps source m allowed may =
      elim (Bool-cases (
        state.config.memory_auto_promote_enabled
        && not (should_auto_promote state.config m)
        && not state.config.memory_keep_unpromoted_candidates)) [
          | inl dropped ↦ rw dropped (λ env w h. h)
          | inr created ↦ rw created (
              bind-Keeps (OfMemories Q)
                (resolve_supersedes state.config.owner_id m.supersedes_memory_id)
                (λ s. create_unless_lost state source m (lost_supersedes m s) s)
                (resolve_supersedes-Keeps (OfMemories Q) state.config.owner_id
                  m.supersedes_memory_id)
                (λ s. create-Keeps source m (lost_supersedes m s) s allowed may))
        ]

  with_existing-Keeps :
      (source : SourceRecord) (m : ExtractedMemory) (existing : Option (Uuid × MemoryStatus))
      → ((libs : Libs) → Allowed (memory_input libs m source))
      → (should_auto_promote state.config m ≡ true → Promotes)
      → Keeps (OfMemories Q) (with_existing state source m existing)
  unfolding with_existing
  with_existing-Keeps source m none allowed may = create_new-Keeps source m allowed may
  with_existing-Keeps source m (some (id, active)) allowed may =
      reinforce-Keeps state.config.owner_id id source.id
  with_existing-Keeps source m (some (id, candidate)) allowed may = promote_existing-Keeps m id may
  with_existing-Keeps source m (some (id, superseded)) allowed may =
      create_new-Keeps source m allowed may
  with_existing-Keeps source m (some (id, rejected)) allowed may =
      create_new-Keeps source m allowed may
  with_existing-Keeps source m (some (id, disputed)) allowed may =
      create_new-Keeps source m allowed may

  module _ (source : SourceRecord) (Proposed : ExtractedMemory → Type 0)
      (allowed : (libs : Libs) (m : ExtractedMemory)
        → Proposed m
        → validate_candidate source m ≡ accepted
        → Allowed (memory_input libs m source))
      (may : (m : ExtractedMemory) → should_auto_promote state.config m ≡ true → Promotes) where
    process_verdict-Keeps :
        (m : ExtractedMemory) (v : Verdict)
        → Proposed m
        → validate_candidate source m ≡ v
        → Keeps (OfMemories Q) (process_verdict state source m v)
    unfolding process_verdict find_existing_memory
    process_verdict-Keeps m (discarded reason) p e = λ env w h. h
    process_verdict-Keeps m accepted p e =
        bind-Keeps (OfMemories Q) (find_existing_memory state.config.owner_id (trim m.statement))
          (with_existing state source m)
          (reads-Keeps (OfMemories Q)
            (λ cx. find_existing_memory_tx cx state.config.owner_id (trim m.statement))
            (λ cx. find_existing_memory_tx_reads cx state.config.owner_id (trim m.statement)))
          (λ existing. with_existing-Keeps source m existing (λ libs. allowed libs m p e) (may m))

    process_candidate-Keeps :
        (m : ExtractedMemory) → Proposed m → Keeps (OfMemories Q) (process_candidate state source m)
    unfolding process_candidate
    process_candidate-Keeps m p = process_verdict-Keeps m (validate_candidate source m) p refl

    process_candidates-Keeps :
        (ms : List ExtractedMemory)
        → All Proposed ms
        → Keeps (OfMemories Q) (process_candidates state source ms)
    unfolding process_candidates
    process_candidates-Keeps [] ps = λ env w h. h
    process_candidates-Keeps (m ∷ ms) (p, ps) =
        bind-Keeps (OfMemories Q) (process_candidate state source m)
          (λ _. process_candidates state source ms) (process_candidate-Keeps m p)
          (λ u. process_candidates-Keeps ms ps)

    process_answer-Keeps :
        (answer : Outcome (List ExtractedMemory))
        → ((ms : List ExtractedMemory) → answer ≡ finished ms → All Proposed ms)
        → Keeps (OfMemories Q) (process_answer state source answer)
    unfolding process_answer
    process_answer-Keeps panicked ps = λ env w h. h
    process_answer-Keeps (finished extracted) ps =
        bind-Keeps (OfMemories Q) (process_candidates state source extracted)
          (λ u. pure (finished tt)) (process_candidates-Keeps extracted (ps extracted refl))
          (λ u env w h. h)

  -- The extraction keeps it, if what the verifier accepts for the stored source, of what the model answered,
  -- is allowed, and if the property is kept by promotions or there are none.
  pub process_source-Keeps :
      (source_id : Uuid) (env : Env) (w : World)
      → ((source : SourceRecord) (db' : Db)
          → get_source_tx state.config.owner_id source_id w.db ≡ ok (source, db')
          → (libs : Libs) (m : ExtractedMemory) → IsAnswered state env.libs source m
          → validate_candidate source m ≡ accepted
          → Allowed (memory_input libs m source))
      → ((m : ExtractedMemory) → should_auto_promote state.config m ≡ true → Promotes)
      → OfMemories Q w.db
      → OfMemories Q (process_source state source_id env w).1.db
  unfolding process_source enabled new get_source transaction
  process_source-Keeps source_id env w allowed may h =
      elim (Bool-cases state.config.memory_extraction_enabled) [
        | inr off ↦ rw off h
        | inl on ↦ elim (Bool-cases (enabled (new state.config))) [
          | inr unready ↦ rw (on, unready) h
          | inl ready ↦
              rw (on, ready)
                (transaction_rule (λ r. OfMemories Q r.1.db)
                  (λ cx. get_source_tx state.config.owner_id source_id) rest env w (λ e. h)
                  (λ source db' body.
                    rest-Keeps source (allowed source db' body)
                      (record { db = db'; tick = suc w.tick })
                      (rw (get_source_tx_reads state.config.owner_id source_id w.db source db' body)
                        h)))
        ]
      ]
    where
      active_only : Action (List MemoryRecord)
      active_only =
          list_memories state.config.owner_id (some (codes "active"))
            state.config.memory_context_limit

      rest : SourceRecord → Action (Outcome (Unit {0}))
      rest source = active_only >>= λ active_memories.
          extract state.services (new state.config) source active_memories >>= λ answer.
          process_answer state source answer

      rest-Keeps :
          (source : SourceRecord)
          → ((libs : Libs) (m : ExtractedMemory)
              → IsAnswered state env.libs source m
              → validate_candidate source m ≡ accepted
              → Allowed (memory_input libs m source))
          → (w : World) → OfMemories Q w.db
          → OfMemories Q (rest source env w).1.db
      rest-Keeps source allowed w h =
          bind_after (OfMemories Q) active_only
            (λ active_memories.
              extract state.services (new state.config) source active_memories
              >>= process_answer state source)
            env w
            (list_memories-Keeps (OfMemories Q) state.config.owner_id (some (codes "active"))
              state.config.memory_context_limit env w h)
            (λ active_memories w1 e1 h1.
              bind_after (OfMemories Q)
                (extract state.services (new state.config) source active_memories)
                (process_answer state source) env w1
                (extract-Keeps (OfMemories Q) state.services (new state.config) source
                  active_memories env w1 h1)
                (λ answer w2 e2.
                  process_answer-Keeps source (IsAnswered state env.libs source) allowed may answer
                    (λ ms same.
                      extract-IsAnswered state source active_memories env w1 ms w2
                        (e2 ∙ ap (λ o. (ok o, w2)) same))
                    env w2))
