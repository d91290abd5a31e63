-- ===== src/Tests/Jobs.antt =====
-- The job queue at concrete jobs.
use personal_knowledge_os.Prelude.{◌+◌, ◌*◌, ◌≡◌, ◌≢◌, refl, List, [], ◌∷◌, arith, All, true, false}
use personal_knowledge_os.Text.{codes}
use personal_knowledge_os.Values.{pos}
use personal_knowledge_os.AppError.{ok}
use personal_knowledge_os.Models.{JobRecord}
use personal_knowledge_os.Db.Tables.{Db, pending, running, failed}
use personal_knowledge_os.Storage.Jobs.Statements.{
  lease_jobs_tx, is_picked, picked, is_ready, failed_row, leased_row, job_from_row, second,
}
use personal_knowledge_os.Db.Sql.{update_where, order_by, insert_by}
use personal_knowledge_os.Storage.Jobs.Lease.{lease_jobs_exclusive}
use personal_knowledge_os.Storage.Jobs.Retry.{
  failed_row_retries, eight_failures, abandoned_job_never_fails, abandoned, failing_rounds,
}
use personal_knowledge_os.Tests.Setup.{db_example, job_example}

abbrev leased_db : Db
leased_db = record db_example { jobs = leased_row 10 job_example ∷ [] }

abbrev leased_jobs : List JobRecord
leased_jobs = job_from_row (leased_row 10 job_example) ∷ []

first_lease : lease_jobs_tx 10 1 (pos 8) db_example ≡ ok (leased_jobs, leased_db)
unfolding lease_jobs_tx update_where is_picked leased_row picked order_by insert_by
first_lease = refl

second_lease : lease_jobs_tx 11 1 (pos 8) leased_db ≡ ok ([], leased_db)
unfolding lease_jobs_tx update_where is_picked leased_row picked order_by
second_lease = refl

lease_jobs_exclusive_example :
    All (λ (r : JobRecord). All (λ (s : JobRecord). s.id ≢ r.id) []) leased_jobs
lease_jobs_exclusive_example =
    lease_jobs_exclusive 10 11 1 1 8 8 db_example leased_db leased_db leased_jobs [] first_lease
      second_lease (omega arith)

failed_row_retries_example :
    let j' = failed_row 10 3 (codes "no") job_example in
    (j'.status ≡ pending) × (j'.available_at ≡ 10 + 8 * second) × (false ≡ false)
failed_row_retries_example = failed_row_retries 10 11 1 3 (codes "no") job_example

eight_failures_example : (failing_rounds 8 (λ n. 10 * n) (codes "no") job_example).status ≡ failed
eight_failures_example = eight_failures 7 (λ n. 10 * n) (codes "no") job_example refl

abandoned_job_never_fails_example :
    let j' = abandoned 9 (λ n. n) job_example in
    (j'.status ≡ running) × (j'.attempts ≡ 9) × (is_ready 60000009 1 j' ≡ true)
abandoned_job_never_fails_example =
    abandoned_job_never_fails 8 (λ n. n) 60000009 job_example (omega arith) (omega arith)
