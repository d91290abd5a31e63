-- ===== src/Extraction/Process/Singly.antt =====
-- What holds of every single memory, and when the extraction keeps it.
use personal_knowledge_os.Prelude.{inl, inr, List, Option, none, some, All, All-append}
use personal_knowledge_os.Values.{Uuid, DateTime}
use personal_knowledge_os.Db.Tables.{MemoryRow}
use personal_knowledge_os.Db.Sql.{All-update_where}
use personal_knowledge_os.Db.Action.{context}
use personal_knowledge_os.Db.Keeps.{Keeps}
use personal_knowledge_os.Storage.Rows.{add_audit, add_job}
use personal_knowledge_os.Storage.Memories.{approve_memory, create_memory_candidate}
use personal_knowledge_os.Storage.Memories.Bodies.{
  MemoryCandidateInput, is_memory, is_active_memory, superseded_row, activated_row, candidate_row,
}
use personal_knowledge_os.Storage.Memories.Effects.{
  superseded_memories, approve_memory_tx_lem, create_memory_candidate_tx_lem,
}
use personal_knowledge_os.Storage.Memories.Reads.{approve_memory_lem, create_memory_candidate_lem}
use personal_knowledge_os.Storage.Operations.Memories.{IsSame}
use personal_knowledge_os.Extraction.Process.Keeps.{IsKept}

-- A property of single memories that the extraction keeps.
module _ (R : MemoryRow → Type 0) (Allowed : MemoryCandidateInput → Type 0) (Promotes : Type 0)
    (activates : Promotes
      → (now : DateTime) (supersedes_id : Option Uuid) (r : MemoryRow) → R r
      → R (activated_row now supersedes_id r))
    (supersedes : Promotes → (now : DateTime) (r : MemoryRow) → R r → R (superseded_row now r))
    (starts : (now : DateTime) (id owner_id : Uuid) (input : MemoryCandidateInput)
      → Allowed input
      → R (candidate_row now id owner_id input))
    (same : (r s : MemoryRow) → IsSame r s → R r → R s) where
  superseded-All :
      (now : DateTime) (owner_id : Uuid) (supersedes_id : Option Uuid) (ms : List MemoryRow)
      → Promotes
      → All R ms
      → All R (superseded_memories now owner_id supersedes_id ms)
  superseded-All now owner_id none ms may h = h
  superseded-All now owner_id (some previous) ms may h =
      All-update_where R (is_active_memory owner_id previous) (superseded_row now)
        (λ r hit. supersedes may now r) ms h

  approve_memory-All :
      (owner_id id : Uuid) (supersedes_id : Option Uuid)
      → Promotes
      → Keeps (λ db. All R db.memories) (approve_memory owner_id id supersedes_id)
  unfolding add_audit add_job
  approve_memory-All owner_id id supersedes_id may env w h =
      elim (approve_memory_lem owner_id id supersedes_id env w) [
        | inl unchanged ↦ rw unchanged h
        | inr body ↦
            let (was, one, made) =
              approve_memory_tx_lem (context env w.tick) owner_id id supersedes_id w.db body in
            rw made (
              All-update_where R (is_memory owner_id id)
                (activated_row (env.now w.tick) supersedes_id)
                (λ r hit. activates may (env.now w.tick) supersedes_id r) _
                (superseded-All (env.now w.tick) owner_id supersedes_id w.db.memories may h))
      ]

  create_memory_candidate-All :
      (owner_id : Uuid) (input : MemoryCandidateInput)
      → Allowed input
      → Keeps (λ db. All R db.memories) (create_memory_candidate owner_id input)
  unfolding add_audit
  create_memory_candidate-All owner_id input allowed env w h =
      elim (create_memory_candidate_lem owner_id input env w) [
        | inl unchanged ↦ rw unchanged h
        | inr (given, id, body) ↦
            let (known, unused, _, made) =
              create_memory_candidate_tx_lem (context env w.tick) owner_id input w.db body in
            rw made (
              All-append R w.db.memories _ h
                (starts (env.now w.tick) (env.fresh w.tick 0) owner_id input allowed, tt))
      ]

  pub All-IsKept : IsKept (λ ss es. All R) Allowed Promotes
  All-IsKept = record {
    approves = λ may owner_id id supersedes_id. approve_memory-All owner_id id supersedes_id may;
    creates = create_memory_candidate-All;
    cites_more = λ ss es ms memory_id source_id h. h;
    updates = λ ss es ms p f keeps h. All-update_where R p f (λ r hit. same r (f r) (keeps r)) ms h;
  }
