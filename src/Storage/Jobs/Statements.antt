-- ===== src/Storage/Jobs/Statements.antt =====
-- The statements of the job queue.
use personal_knowledge_os.Prelude.{
  ℕ, suc, ◌+◌, ◌*◌, ◌^◌, Bool, true, false, ◌&&◌, List, Option, none, some, map, leb, ltb, ◌==◌,
  if◌then◌else◌, take, select, min,
}
use personal_knowledge_os.Text.{Text, codes}
use personal_knowledge_os.Values.{Uuid, DateTime, ℤ, pos, negsuc}
use personal_knowledge_os.AppError.{database, database_error}
use personal_knowledge_os.Models.{JobRecord}
use personal_knowledge_os.Db.Tables.{Db, JobRow, JobStatus, pending, running, done, failed}
use personal_knowledge_os.Db.Sql.{update_where, order_by, elem, not_null_and}
use personal_knowledge_os.Db.Tx.{Tx, ◌>>=◌, ◌>>◌, throw, query, execute}

abbrev pub second : DateTime
second = 1000000

-- `interval '60 seconds'`
abbrev pub lease_time : DateTime
lease_time = 60 * second

-- status IN ('pending','running') AND (status='pending' OR lease_until<now())
abbrev pub may_lease : DateTime → JobStatus → Option DateTime → Bool
may_lease now pending lease_until = true
may_lease now running lease_until = not_null_and (λ until. ltb until now) lease_until
may_lease now _ lease_until = false

-- the WHERE clause of `picked`
unfoldable pub is_ready : DateTime → Uuid → JobRow → Bool
is_ready now owner_id j =
    j.owner_id == owner_id && leb j.available_at now && may_lease now j.status j.lease_until

-- WITH picked AS (…): the ids, oldest job first
unfoldable pub picked : DateTime → Uuid → ℕ → List JobRow → List Uuid
unfolding is_ready
picked now owner_id limit jobs =
    map (λ (j : JobRow). j.id)
      (take limit (
        order_by (λ (a : JobRow) (b : JobRow). leb a.created_at b.created_at)
          (select (is_ready now owner_id) jobs)))

-- SET status='running', lease_until=now()+interval '60 seconds', attempts=attempts+1, updated_at=now()
unfoldable pub leased_row : DateTime → JobRow → JobRow
leased_row now j = record j {
  status = running;
  lease_until = some (now + lease_time);
  attempts = suc j.attempts;
  updated_at = now;
}

-- FROM picked WHERE j.id=picked.id
unfoldable pub is_picked : List Uuid → JobRow → Bool
unfolding elem
is_picked ids j = elem j.id ids

-- RETURNING j.id, j.kind, j.payload, j.attempts
unfoldable pub job_from_row : JobRow → JobRecord
job_from_row j = record { id = j.id; kind = j.kind; payload = j.payload; attempts = j.attempts }

-- the statement of `lease_jobs`; a negative LIMIT is an error of the database (SQLSTATE 2201W)
unfoldable pub lease_jobs_tx : DateTime → Uuid → ℤ → Tx (List JobRecord)
lease_jobs_tx now owner_id (negsuc n) = throw (database (database_error (codes "2201W")))
lease_jobs_tx now owner_id (pos limit) = do
  ids ← query (λ (db : Db). picked now owner_id limit db.jobs)
  execute (λ (db : Db). record db { jobs = update_where (is_picked ids) (leased_row now) db.jobs })
  query (λ (db : Db). map job_from_row (select (is_picked ids) db.jobs))

-- SET status='done', lease_until=NULL, updated_at=now()
unfoldable pub completed_row : DateTime → JobRow → JobRow
completed_row now j = record j { status = done; lease_until = none; updated_at = now }

abbrev pub is_job : Uuid → JobRow → Bool
is_job id j = j.id == id

-- the UPDATE of `complete_job`
unfoldable pub complete_job_tx : DateTime → Uuid → Tx (Unit {0})
complete_job_tx now id =
    execute (λ (db : Db). record db { jobs = update_where (is_job id) (completed_row now) db.jobs })

-- `attempts >= 8`
unfoldable pub is_terminal : ℕ → Bool
is_terminal attempts = leb 8 attempts

-- LEAST(300, (2 ^ LEAST($3,8))::int), in seconds
unfoldable pub backoff : ℕ → ℕ
backoff attempts = min 300 (2 ^ min attempts 8)

-- the SET clause of `fail_job`
unfoldable pub failed_row : DateTime → ℕ → Text → JobRow → JobRow
unfolding is_terminal backoff
failed_row now attempts error j = record j {
  status = if is_terminal attempts then failed else pending;
  available_at = if is_terminal attempts then j.available_at else now + backoff attempts * second;
  lease_until = none;
  last_error = some error;
  updated_at = now;
}

-- the UPDATE of `fail_job`
unfoldable pub fail_job_tx : DateTime → Uuid → ℕ → Text → Tx (Unit {0})
fail_job_tx now id attempts error = execute (λ (db : Db). record db {
  jobs = update_where (is_job id) (failed_row now attempts error) db.jobs;
})
