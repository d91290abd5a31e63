-- ===== src/Storage/Operations/Memories.antt =====
-- Rejection and embedding keep what depends only on who the memories are.
use personal_knowledge_os.Prelude.{ℕ, ◌≡◌, refl, List, Bool, arith, ◌==◌}
use personal_knowledge_os.Text.{Text, codes}
use personal_knowledge_os.Values.{Uuid, null, Vector}
use personal_knowledge_os.AppError.{conflict}
use personal_knowledge_os.Models.{MemoryRecord}
use personal_knowledge_os.Db.Tables.{MemoryRow, SourceRow, EvidenceRow}
use personal_knowledge_os.Db.Sql.{update_where}
use personal_knowledge_os.Db.Tx.{Context, bind_ok, ◌>>=◌ as ◌then_by◌, pure as done}
use personal_knowledge_os.Db.Action.{transaction, ensure, Action, ◌>>◌}
use personal_knowledge_os.Db.Keeps.{Keeps, transaction-Keeps, bind-Keeps, ensure-Keeps}
use personal_knowledge_os.Storage.Rows.{add_audit, insert_audit_lem}
use personal_knowledge_os.Storage.Memories.{get_memory, reject_memory, set_memory_embedding}
use personal_knowledge_os.Storage.Memories.Bodies.{
  is_memory, is_candidate_memory, rejected_row, embedded_row, reject_memory_tx, audit_rejection_tx,
  set_memory_embedding_tx, update_memories,
}
use personal_knowledge_os.Storage.Memories.Reads.{get_memory_reads}
use personal_knowledge_os.Storage.Memories.Effects.{update_memories_lem}
use personal_knowledge_os.Storage.Operations.Jobs.{OfMemories}

-- What `reject_memory` does after its UPDATE.
abbrev pub refuse : ℕ → Action (Unit {0})
refuse n = ensure (n == 1) (conflict (codes "memory must be in candidate status"))

abbrev pub recorded : Uuid → Uuid → Action MemoryRecord
recorded owner_id id =
    transaction (λ cx. audit_rejection_tx cx owner_id id) >> get_memory owner_id id

module _ (Q : List SourceRow → List EvidenceRow → List MemoryRow → Type 0) where
  get_memory-Keeps : (owner_id id : Uuid) → Keeps (OfMemories Q) (get_memory owner_id id)
  get_memory-Keeps owner_id id env w h = rw (get_memory_reads owner_id id env w) h

  -- It writes no memory.
  pub recorded-Keeps :
      (owner_id id : Uuid) (n : ℕ) → Keeps (OfMemories Q) (refuse n >> recorded owner_id id)
  unfolding audit_rejection_tx add_audit
  recorded-Keeps owner_id id n =
      bind-Keeps (OfMemories Q) (refuse n) (λ _. recorded owner_id id)
        (ensure-Keeps (OfMemories Q) (n == 1) _)
        (λ u.
          bind-Keeps (OfMemories Q) (transaction (λ cx. audit_rejection_tx cx owner_id id))
            (λ _. get_memory owner_id id)
            (transaction-Keeps (OfMemories Q) (λ cx. audit_rejection_tx cx owner_id id)
              (λ cx db u db' h e.
                rw
                  (insert_audit_lem (cx.ids 0) owner_id (codes "memory.rejected") (codes "memory")
                    id null db e)
                  h))
            (λ u. get_memory-Keeps owner_id id))

-- A statement that only changes columns other than the key.
module _ (Q : List SourceRow → List EvidenceRow → List MemoryRow → Type 0)
    (keep : (ss : List SourceRow) (es : List EvidenceRow) (ms : List MemoryRow)
        (p : MemoryRow → Bool) (f : MemoryRow → MemoryRow)
      → ((r : MemoryRow) → (f r).id ≡ r.id)
      → ((r : MemoryRow) → (f r).owner_id ≡ r.owner_id)
      → Q ss es ms
      → Q ss es (update_where p f ms)) where
  pub reject_memory-Keeps : (owner_id id : Uuid) → Keeps (OfMemories Q) (reject_memory owner_id id)
  unfolding reject_memory reject_memory_tx rejected_row
  reject_memory-Keeps owner_id id =
      bind-Keeps (OfMemories Q) (transaction (λ cx. reject_memory_tx cx owner_id id))
        (λ n. refuse n >> recorded owner_id id)
        (transaction-Keeps (OfMemories Q) (λ cx. reject_memory_tx cx owner_id id)
          (λ cx db a db' h e.
            rw (update_memories_lem (is_candidate_memory owner_id id) (rejected_row cx.now) db e).0
              (keep db.sources db.memory_evidence db.memories _ (rejected_row cx.now) (λ r. refl)
                (λ r. refl) h)))
        (recorded-Keeps Q owner_id id)

-- It is the same memory, in the same status and with the same scores.
pub record IsSame (r s : MemoryRow) : Type 0 where
  pub same_id : s.id ≡ r.id
  pub same_owner : s.owner_id ≡ r.owner_id
  pub same_type : s.memory_type ≡ r.memory_type
  pub same_statement : s.statement ≡ r.statement
  pub same_status : s.status ≡ r.status
  pub same_confidence : s.confidence ≡ r.confidence
  pub same_importance : s.importance ≡ r.importance

pub IsSame-refl : (r : MemoryRow) → IsSame r r
IsSame-refl r = record {
  same_id = refl;
  same_owner = refl;
  same_type = refl;
  same_statement = refl;
  same_status = refl;
  same_confidence = refl;
  same_importance = refl;
}

-- A statement that changes other columns keeps the property.
abbrev pub IsKeptByUpdates : (List SourceRow → List EvidenceRow → List MemoryRow → Type 0) → Type 0
IsKeptByUpdates Q =
    (ss : List SourceRow) (es : List EvidenceRow) (ms : List MemoryRow) (p : MemoryRow → Bool)
    (f : MemoryRow → MemoryRow)
    → ((r : MemoryRow) → IsSame r (f r))
    → Q ss es ms
    → Q ss es (update_where p f ms)

module _ (Q : List SourceRow → List EvidenceRow → List MemoryRow → Type 0)
    (keep : IsKeptByUpdates Q) where
  -- Such a statement in a transaction of its own.
  pub update_memories-Keeps :
      (p : Context → MemoryRow → Bool) (f : Context → MemoryRow → MemoryRow)
      → ((cx : Context) (r : MemoryRow) → IsSame r (f cx r))
      → Keeps
          (OfMemories Q)
          (transaction (λ cx. update_memories (p cx) (f cx) then_by λ n. done tt))
  update_memories-Keeps p f same =
      transaction-Keeps (OfMemories Q) (λ cx. update_memories (p cx) (f cx) then_by λ n. done tt)
        (λ cx db a db' h e.
          bind_ok (update_memories (p cx) (f cx)) (λ n. done tt) db e
            λ n mid e1 k.
              let unchanged : db' ≡ mid = ground arith in
              rw (unchanged, (update_memories_lem (p cx) (f cx) db e1).0)
                (keep db.sources db.memory_evidence db.memories (p cx) (f cx) (same cx) h))

  pub set_memory_embedding-Keeps :
      (owner_id id : Uuid) (vector : Vector) (model : Text)
      → Keeps (OfMemories Q) (set_memory_embedding owner_id id vector model)
  unfolding set_memory_embedding set_memory_embedding_tx embedded_row
  set_memory_embedding-Keeps owner_id id vector model =
      update_memories-Keeps (λ cx. is_memory owner_id id) (λ cx. embedded_row cx.now vector model)
        (λ cx r. record {
          same_id = refl;
          same_owner = refl;
          same_type = refl;
          same_statement = refl;
          same_status = refl;
          same_confidence = refl;
          same_importance = refl;
        })
