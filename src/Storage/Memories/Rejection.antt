-- ===== src/Storage/Memories/Rejection.antt =====
-- `reject_memory`: the lifecycle, and what a fault between its two statements leaves behind.
use personal_knowledge_os.Prelude.{suc, ◌≡◌, true, false, arith, all, select}
use personal_knowledge_os.Values.{Uuid}
use personal_knowledge_os.AppError.{err}
use personal_knowledge_os.Db.Sql.{update_where, count_where}
use personal_knowledge_os.Db.Action.{Env, World, transaction, lost_connection}
use personal_knowledge_os.Storage.Memories.{reject_memory}
use personal_knowledge_os.Storage.Memories.Bodies.{
  is_candidate_memory, memory_check, rejected_row, reject_memory_tx, update_memories,
}

-- If the database fails between the two statements of a rejection of a candidate, the memory is rejected,
-- no audit record says so, and the caller is told of an error.
pub reject_memory_unaudited :
    (owner_id id : Uuid) (env : Env) (w : World)
    → count_where (is_candidate_memory owner_id id) w.db.memories ≡ 1
    → all
        (λ r. memory_check (rejected_row (env.now w.tick) r))
        (select (is_candidate_memory owner_id id) w.db.memories)
      ≡ true
    → env.fails w.tick ≡ false
    → env.fails (suc w.tick) ≡ true
    → let (r, w') = reject_memory owner_id id env w in
      (r ≡ err lost_connection)
      × (w'.db.memories
          ≡ update_where
              (is_candidate_memory owner_id id)
              (rejected_row (env.now w.tick))
              w.db.memories)
      × (w'.db.audit_log ≡ w.db.audit_log)
unfolding reject_memory transaction reject_memory_tx update_memories
reject_memory_unaudited owner_id id env w one pass alive lost = ground arith
