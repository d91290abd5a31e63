-- ===== src/Storage/Memories/Reads.antt =====
-- Reading a memory changes nothing, so what a method wrote is there however its last read ends.
use personal_knowledge_os.Prelude.{
  suc, ◌≡◌, refl, ◌⊎◌, inl, inr, Option, arith, is_empty, not, false,
}
use personal_knowledge_os.Values.{Uuid}
use personal_knowledge_os.AppError.{Result, ok}
use personal_knowledge_os.Models.{MemoryRecord}
use personal_knowledge_os.Db.Tables.{Db}
use personal_knowledge_os.Db.Action.{
  Env, World, context, transaction, transaction_rule, last_rule, ensure_rule, ◌>>=◌,
}
use personal_knowledge_os.Storage.Memories.Bodies.{
  MemoryCandidateInput, get_memory_tx, create_memory_candidate_tx, approve_memory_tx,
}
use personal_knowledge_os.Storage.Memories.{get_memory, create_memory_candidate, approve_memory}

pub get_memory_tx_reads :
    (owner_id id : Uuid) (db : Db) {m : MemoryRecord} {db' : Db}
    → get_memory_tx owner_id id db ≡ ok (m, db')
    → db' ≡ db
unfolding get_memory_tx
get_memory_tx_reads owner_id id db h = ground arith

-- `get_memory` leaves the tables alone.
pub get_memory_reads :
    (owner_id id : Uuid) (env : Env) (w : World) → (get_memory owner_id id env w).1.db ≡ w.db
unfolding get_memory
get_memory_reads owner_id id env w =
    last_rule (λ r. r.1.db ≡ w.db) (λ cx. get_memory_tx owner_id id) env w (λ e. refl)
      (λ m db' body. get_memory_tx_reads owner_id id w.db body)

-- The tables after `approve_memory` are those before, or those that its transaction made.
pub approve_memory_lem :
    (owner_id id : Uuid) (supersedes_id : Option Uuid) (env : Env) (w : World)
    → let w' = (approve_memory owner_id id supersedes_id env w).1 in
      (w'.db ≡ w.db)
      ⊎ (approve_memory_tx (context env w.tick) owner_id id supersedes_id w.db ≡ ok (tt, w'.db))
unfolding approve_memory
approve_memory_lem owner_id id supersedes_id env w =
    transaction_rule
      (λ r.
        (r.1.db ≡ w.db)
        ⊎ (approve_memory_tx (context env w.tick) owner_id id supersedes_id w.db ≡ ok (tt, r.1.db)))
      (λ cx. approve_memory_tx cx owner_id id supersedes_id) (λ _. get_memory owner_id id) env w
      (λ e. inl refl)
      (λ u db' body.
        inr (rw (get_memory_reads owner_id id env (record { db = db'; tick = suc w.tick })) body))

-- The tables after `create_memory_candidate` are those before, or those that its transaction made.
pub create_memory_candidate_lem :
    (owner_id : Uuid) (input : MemoryCandidateInput) (env : Env) (w : World)
    → let w' = (create_memory_candidate owner_id input env w).1 in
      (w'.db ≡ w.db)
      ⊎ ((is_empty input.evidence ≡ false)
          × (id : Uuid) × (create_memory_candidate_tx (context env w.tick) owner_id input w.db
              ≡ ok (id, w'.db)))
unfolding create_memory_candidate
create_memory_candidate_lem owner_id input env w =
    ensure_rule After (not (is_empty input.evidence)) _
      (transaction (λ cx. create_memory_candidate_tx cx owner_id input) >>= λ id.
        get_memory owner_id id)
      env w (λ _. inl refl)
      (λ given.
        transaction_rule After (λ cx. create_memory_candidate_tx cx owner_id input)
          (λ id. get_memory owner_id id) env w (λ e. inl refl)
          (λ id db' body. inr (
            ground arith,
            id,
            rw (get_memory_reads owner_id id env (record { db = db'; tick = suc w.tick })) body,
          )))
  where
    After : Result MemoryRecord × World → Type 0
    After r =
        (r.1.db ≡ w.db)
        ⊎ ((is_empty input.evidence ≡ false)
            × (id : Uuid) × (create_memory_candidate_tx (context env w.tick) owner_id input w.db
                ≡ ok (id, r.1.db)))
