-- ===== src/Storage/Jobs.antt =====
-- The job methods of src/storage.rs: leasing, completing and failing jobs of the durable queue.
pub mod Statements
pub mod Lease
pub mod Retry
use personal_knowledge_os.Prelude.{ℕ, List}
use personal_knowledge_os.Text.{Text}
use personal_knowledge_os.Values.{Uuid, ℤ}
use personal_knowledge_os.Models.{JobRecord}
use personal_knowledge_os.Db.Action.{Action, transaction}
use personal_knowledge_os.Storage.Jobs.Statements.{lease_jobs_tx, complete_job_tx, fail_job_tx}

-- `lease_jobs`: one statement
unfoldable pub lease_jobs : Uuid → ℤ → Action (List JobRecord)
lease_jobs owner_id limit = transaction (λ cx. lease_jobs_tx cx.now owner_id limit)

-- `complete_job`
unfoldable pub complete_job : Uuid → Action (Unit {0})
complete_job id = transaction (λ cx. complete_job_tx cx.now id)

-- `fail_job`
unfoldable pub fail_job : Uuid → ℕ → Text → Action (Unit {0})
fail_job id attempts error = transaction (λ cx. fail_job_tx cx.now id attempts error)
