-- ===== src/Storage/Operations/Lifecycle.antt =====
-- Rejection keeps to the lifecycle of a memory.
use personal_knowledge_os.Prelude.{suc, ◌≡◌, refl, true, arith}
use personal_knowledge_os.Values.{Uuid, DateTime}
use personal_knowledge_os.Db.Tables.{MemoryRow, candidate}
use personal_knowledge_os.Db.Action.{Env, World, transaction_rule, ◌>>◌}
use personal_knowledge_os.Storage.Memories.{reject_memory}
use personal_knowledge_os.Storage.Memories.Bodies.{
  is_candidate_memory, rejected_row, reject_memory_tx,
}
use personal_knowledge_os.Storage.Memories.Effects.{update_memories_lem}
use personal_knowledge_os.Storage.Memories.Lifecycle.{
  reject, RowStep, Evolves, Evolves-refl, update_where-Evolves,
}
use personal_knowledge_os.Storage.Operations.Memories.{refuse, recorded, recorded-Keeps}

is_candidate_memory_lem :
    (owner_id id : Uuid) (r : MemoryRow)
    → is_candidate_memory owner_id id r ≡ true
    → r.status ≡ candidate
unfolding is_candidate_memory
is_candidate_memory_lem owner_id id r h = ground arith

rejected-RowStep :
    (now : DateTime) (r : MemoryRow) → r.status ≡ candidate → RowStep r (rejected_row now r)
unfolding rejected_row
rejected-RowStep now r h = record {
  same_id = refl;
  same_owner = refl;
  same_type = refl;
  same_statement = refl;
  same_creation = refl;
  move = rw h reject;
}

-- Rejecting a memory, whether it succeeds or fails and wherever the database fails, moves each
-- memory along an edge of the lifecycle, and changes no statement, type, owner or creation time.
pub reject_memory-Evolves :
    (owner_id id : Uuid) (env : Env) (w : World)
    → Evolves w.db.memories (reject_memory owner_id id env w).1.db.memories
unfolding reject_memory reject_memory_tx
reject_memory-Evolves owner_id id env w =
    transaction_rule (λ r. Evolves w.db.memories r.1.db.memories)
      (λ cx. reject_memory_tx cx owner_id id) (λ n. refuse n >> recorded owner_id id) env w
      (λ e. Evolves-refl w.db.memories)
      (λ n db' body.
        recorded-Keeps (λ ss es ms. Evolves w.db.memories ms) owner_id id n env
          (record { db = db'; tick = suc w.tick })
          (rw
            (update_memories_lem (is_candidate_memory owner_id id) (rejected_row (env.now w.tick))
              w.db body).0
            (update_where-Evolves (is_candidate_memory owner_id id) (rejected_row (env.now w.tick))
              (λ r hit.
                rejected-RowStep (env.now w.tick) r (is_candidate_memory_lem owner_id id r hit))
              w.db.memories)))
