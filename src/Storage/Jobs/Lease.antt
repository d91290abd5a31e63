-- ===== src/Storage/Jobs/Lease.antt =====
-- Leasing: who gets a job, and that nobody else gets it while the lease lasts.
use personal_knowledge_os.Prelude.{
  ℕ, ◌+◌, ◌≤◌, ◌≡◌, ◌≢◌, inl, inr, Bool, true, false, List, [], ◌∷◌, map, arith, leb, All, Any,
  All-imp, Bool-cases, select,
}
use personal_knowledge_os.Values.{Uuid, DateTime, pos}
use personal_knowledge_os.AppError.{ok}
use personal_knowledge_os.Models.{JobRecord}
use personal_knowledge_os.Db.Tables.{Db, JobRow}
use personal_knowledge_os.Db.Sql.{
  update_where, elem, Any-take, Any-order_by, Any-select, elem-map, Any-All,
}
use personal_knowledge_os.Storage.Jobs.Statements.{
  is_ready, picked, leased_row, is_picked, job_from_row, lease_jobs_tx, lease_time,
}

-- What is picked is the id of a row that is ready.
pub picked-Any :
    (now : DateTime) (owner_id : Uuid) (limit : ℕ) (jobs : List JobRow) (id : Uuid)
    → elem id (picked now owner_id limit jobs) ≡ true
    → Any (λ (j : JobRow). (j.id ≡ id) × (is_ready now owner_id j ≡ true)) jobs
unfolding picked
picked-Any now owner_id limit jobs id h =
    Any-select (λ (j : JobRow). j.id ≡ id) (is_ready now owner_id) jobs
      (Any-order_by (λ (j : JobRow). j.id ≡ id)
        (λ (a : JobRow) (b : JobRow). leb a.created_at b.created_at)
        (select (is_ready now owner_id) jobs)
        (Any-take (λ (j : JobRow). j.id ≡ id) limit _
          (elem-map (λ (j : JobRow). j.id ≡ id) (λ (j : JobRow). j.id) id _ h)))

-- A job that has been leased is not ready before its lease has run out.
leased_busy :
    (now now' : DateTime) (owner_id : Uuid) (j : JobRow)
    → now' ≤ now + lease_time
    → is_ready now' owner_id (leased_row now j) ≡ false
unfolding is_ready leased_row
leased_busy now now' owner_id j h = ground arith

leased_rows_busy :
    (now now' : DateTime) (owner_id : Uuid) (ids : List Uuid) (jobs : List JobRow)
    → now' ≤ now + lease_time
    → All
        (λ (j : JobRow). elem j.id ids ≡ true → is_ready now' owner_id j ≡ false)
        (update_where (is_picked ids) (leased_row now) jobs)
unfolding update_where is_picked
leased_rows_busy now now' owner_id ids [] h = tt
leased_rows_busy now now' owner_id ids (j ∷ jobs) h = elim (Bool-cases (elem j.id ids)) [
  | inl mine ↦
      rw mine
        ((λ _. leased_busy now now' owner_id j h), leased_rows_busy now now' owner_id ids jobs h)
  | inr other ↦ rw other ((λ e. cc), leased_rows_busy now now' owner_id ids jobs h)
]

-- Every record that a lease returns is that of a job that it picked.
select-picked :
    (ids : List Uuid) (jobs : List JobRow)
    → All (λ (r : JobRecord). elem r.id ids ≡ true) (map job_from_row (select (is_picked ids) jobs))
unfolding is_picked job_from_row
select-picked ids [] = tt
select-picked ids (j ∷ jobs) = elim (Bool-cases (elem j.id ids)) [
  | inl mine ↦ rw mine (mine, select-picked ids jobs)
  | inr other ↦ rw other (select-picked ids jobs)
]

pub lease_jobs_tx_lem :
    (now : DateTime) (owner_id : Uuid) (limit : ℕ) (db : Db) {rs : List JobRecord} {db' : Db}
    → lease_jobs_tx now owner_id (pos limit) db ≡ ok (rs, db')
    → let ids = picked now owner_id limit db.jobs in
      (db' ≡ record db { jobs = update_where (is_picked ids) (leased_row now) db.jobs })
      × All (λ (r : JobRecord). elem r.id ids ≡ true) rs
unfolding lease_jobs_tx
lease_jobs_tx_lem now owner_id limit db {rs} {db'} h =
    let ids = picked now owner_id limit db.jobs in
    let returned : map job_from_row
          (select (is_picked ids) (update_where (is_picked ids) (leased_row now) db.jobs))
        ≡ rs =
      ground arith in
    (
      ground arith,
      rw returned at (select-picked ids (update_where (is_picked ids) (leased_row now) db.jobs)),
    )

-- No job is handed out twice while its lease lasts: a second lease, by any owner and of any size, that
-- follows the first, with nothing in between, within 60 seconds, returns none of the jobs that the first
-- returned.
pub lease_jobs_exclusive :
    (now now' : DateTime) (owner_id owner_id' : Uuid) (limit limit' : ℕ) (db db' db'' : Db)
    (rs rs' : List JobRecord)
    → lease_jobs_tx now owner_id (pos limit) db ≡ ok (rs, db')
    → lease_jobs_tx now' owner_id' (pos limit') db' ≡ ok (rs', db'')
    → now' ≤ now + lease_time
    → All (λ (r : JobRecord). All (λ (s : JobRecord). s.id ≢ r.id) rs') rs
lease_jobs_exclusive now now' owner_id owner_id' limit limit' db db' db'' rs rs' first second soon =
    let (made, mine) = lease_jobs_tx_lem now owner_id limit db first in
    let (made', theirs) = lease_jobs_tx_lem now' owner_id' limit' db' second in
    All-imp (λ (r : JobRecord). elem r.id ids ≡ true)
      (λ (r : JobRecord). All (λ (s : JobRecord). s.id ≢ r.id) rs')
      (λ r got.
        All-imp (λ (s : JobRecord). elem s.id ids' ≡ true) (λ (s : JobRecord). s.id ≢ r.id)
          (λ s got' same.
            Any-All (λ (j : JobRow). (j.id ≡ s.id) × (is_ready now' owner_id' j ≡ true))
              (λ (j : JobRow). elem j.id ids ≡ true → is_ready now' owner_id' j ≡ false) db'.jobs
              (λ j ready busy.
                clash j.id r.id s.id ready.0 same got (is_ready now' owner_id' j) ready.1 busy)
              (picked-Any now' owner_id' limit' db'.jobs s.id got')
              (rw made (leased_rows_busy now now' owner_id' ids db.jobs soon)))
          rs' theirs)
      rs mine
  where
    ids : List Uuid
    ids = picked now owner_id limit db.jobs

    ids' : List Uuid
    ids' = picked now' owner_id' limit' db'.jobs

    clash :
        (j r s : Uuid)
        → j ≡ s
        → s ≡ r
        → elem r ids ≡ true
        → (b : Bool) → b ≡ true
        → (elem j ids ≡ true → b ≡ false)
        → ⊥
    clash j r s js sr got b t f = let e : elem j ids ≡ true = rw (js, sr) got in cc (f e)
