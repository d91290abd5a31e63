-- ===== src/Storage/Jobs/Retry.antt =====
-- Retries: the delay after a failure, the end of a job that keeps failing, and the job whose worker dies.
use personal_knowledge_os.Prelude.{
  ℕ, zero, suc, ◌+◌, ◌*◌, ◌^◌, ◌≤◌, ◌<◌, ◌≡◌, refl, true, false, ◌&&◌, inl, inr, Bool-cases, arith,
  leb, if◌then◌else◌,
}
use personal_knowledge_os.Text.{Text}
use personal_knowledge_os.Values.{Uuid, DateTime}
use personal_knowledge_os.Db.Tables.{JobRow, pending, running, failed}
use personal_knowledge_os.Storage.Jobs.Statements.{
  is_ready, leased_row, failed_row, backoff, lease_time, second,
}

backoff_exact : (n : ℕ) → n < 8 → backoff n ≡ 2 ^ n
unfolding backoff
backoff_exact zero h = refl
backoff_exact (suc zero) h = refl
backoff_exact (suc (suc zero)) h = refl
backoff_exact (suc (suc (suc zero))) h = refl
backoff_exact (suc (suc (suc (suc zero)))) h = refl
backoff_exact (suc (suc (suc (suc (suc zero))))) h = refl
backoff_exact (suc (suc (suc (suc (suc (suc zero)))))) h = refl
backoff_exact (suc (suc (suc (suc (suc (suc (suc zero))))))) h = refl
backoff_exact (suc (suc (suc (suc (suc (suc (suc (suc n)))))))) h = absurd (omega arith)

-- A job that fails before its eighth attempt is pending and waits 2^attempts seconds (never the cap of
-- 300); one that fails then or later is failed for good, keeps its time, and is never ready again.
pub failed_row_retries :
    (now now' : DateTime) (owner_id : Uuid) (attempts : ℕ) (error : Text) (j : JobRow)
    → let j' = failed_row now attempts error j in
      (j'.status ≡ (if leb 8 attempts then failed else pending))
      × (j'.available_at ≡ (if leb 8 attempts then j.available_at else now + 2 ^ attempts * second))
      × ((leb 8 attempts && is_ready now' owner_id j') ≡ false)
unfolding failed_row is_ready
failed_row_retries now now' owner_id attempts error j = elim (Bool-cases (leb 8 attempts)) [
  | inl last ↦ (rw last, rw last, ground arith)
  | inr again ↦ (rw again, ground (arith, backoff_exact attempts (ground arith)), ground arith)
]

-- One round of a job whose handler fails: it is leased, and the failure is recorded with the number of
-- attempts that the lease returned.
abbrev pub failing_round : DateTime → Text → JobRow → JobRow
failing_round now error j = failed_row now (leased_row now j).attempts error (leased_row now j)

-- The job after that many rounds, at these times.
abbrev pub failing_rounds : ℕ → (ℕ → DateTime) → Text → JobRow → JobRow
failing_rounds zero now error j = j
failing_rounds (suc n) now error j = failing_round (now n) error (failing_rounds n now error j)

attempts-failing_rounds :
    (n : ℕ) (now : ℕ → DateTime) (error : Text) (j : JobRow)
    → (failing_rounds n now error j).attempts ≡ n + j.attempts
unfolding failed_row leased_row
attempts-failing_rounds zero now error j = omega arith
attempts-failing_rounds (suc n) now error j = omega (arith, attempts-failing_rounds n now error j)

failing_round-status :
    (now : DateTime) (error : Text) (j : JobRow)
    → (failing_round now error j).status ≡ (if leb 8 (suc j.attempts) then failed else pending)
unfolding failed_row leased_row
failing_round-status now error j = refl

-- A fresh job whose handler fails every time is pending after each of the first seven rounds of lease and
-- failure, and failed after the eighth and from then on.
pub eight_failures :
    (n : ℕ) (now : ℕ → DateTime) (error : Text) (j : JobRow)
    → j.attempts ≡ 0
    → (failing_rounds (suc n) now error j).status ≡ (if leb 8 (suc n) then failed else pending)
eight_failures n now error j fresh =
    let e : (failing_rounds n now error j).attempts ≡ n =
      omega (arith, attempts-failing_rounds n now error j) in
    rw e at (failing_round-status (now n) error (failing_rounds n now error j))

-- A job that is leased again and again, and neither completed nor failed in between: its worker dies.
abbrev pub abandoned : ℕ → (ℕ → DateTime) → JobRow → JobRow
abandoned zero now j = j
abandoned (suc n) now j = leased_row (now n) (abandoned n now j)

attempts-abandoned :
    (n : ℕ) (now : ℕ → DateTime) (j : JobRow) → (abandoned n now j).attempts ≡ n + j.attempts
unfolding leased_row
attempts-abandoned zero now j = omega arith
attempts-abandoned (suc n) now j = omega (arith, attempts-abandoned n now j)

abandoned_kept :
    (n : ℕ) (now : ℕ → DateTime) (j : JobRow)
    → ((abandoned n now j).owner_id ≡ j.owner_id)
      × ((abandoned n now j).available_at ≡ j.available_at)
unfolding leased_row
abandoned_kept zero now j = (refl, refl)
abandoned_kept (suc n) now j = abandoned_kept n now j

-- A job whose workers die is never failed: after any number of leases, more than eight too, once the last
-- one has run out and its time has come, the job is running, has counted every one of them, and is ready
-- to be leased once more.
pub abandoned_job_never_fails :
    (n : ℕ) (now : ℕ → DateTime) (now' : DateTime) (j : JobRow)
    → j.available_at ≤ now'
    → now n + lease_time < now'
    → let j' = abandoned (suc n) now j in
      (j'.status ≡ running)
      × (j'.attempts ≡ suc n + j.attempts)
      × (is_ready now' j.owner_id j' ≡ true)
unfolding leased_row is_ready
abandoned_job_never_fails n now now' j available expired =
    ground (arith, attempts-abandoned (suc n) now j, abandoned_kept n now j)
