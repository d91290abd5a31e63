-- ===== src/Worker/Liveness.antt =====
-- When the worker goes on, and what becomes of a job that it ran.
use personal_knowledge_os.Prelude.{
  ℕ, zero, suc, ◌≡◌, ◌≢◌, refl, ap, sym, subst, ◌∙◌, ◌++◌, if◌then◌else◌, ◌⊎◌, inl, inr, Bool,
  false, List, [], ◌∷◌, Option, none, some, arith, All, Bool-cases, ◌==◌,
}
use personal_knowledge_os.Text.{Text, codes, text_eq_refl}
use personal_knowledge_os.Values.{Uuid, DateTime, ℤ, pos, get_key, get_field, as_str, string}
use personal_knowledge_os.AppError.{Result, ok, err, to_string, bad_request}
use personal_knowledge_os.Models.{JobRecord}
use personal_knowledge_os.Db.Libs.{Libs}
use personal_knowledge_os.Db.Tables.{Db, JobRow, running}
use personal_knowledge_os.Db.Sql.{update_where}
use personal_knowledge_os.Db.Tx.{execute, execute_lem, Context}
use personal_knowledge_os.Db.Action.{
  Env, World, Action, ◌>>=◌, bind_succeeds, transaction, transaction_alive, transaction_rule,
  context, pure,
}
use personal_knowledge_os.Storage.Sources.{id_payload}
use personal_knowledge_os.Storage.Jobs.{lease_jobs, complete_job, fail_job}
use personal_knowledge_os.Storage.Jobs.Statements.{
  lease_jobs_tx, complete_job_tx, fail_job_tx, completed_row, failed_row, is_terminal,
}
use personal_knowledge_os.Extraction.Client.{Outcome, finished, panicked}
use personal_knowledge_os.Extraction.Process.{AppState}
use personal_knowledge_os.Worker.{
  parse_uuid, payload_text, parsed_uuid, process, settle, run_job, unless_panicked, run_jobs, work,
  round, run,
}

-- The task does not return an error.
abbrev pub GoesOn : Action (Outcome (Unit {0})) → Env → World → Type 0
GoesOn m env w = (m env w).0 ≡ ok (finished tt) ⊎ (m env w).0 ≡ ok panicked

-- A statement of the queue goes through.
statement_goes_on :
    (f : Context → Db → Db) (env : Env) (w : World)
    → env.fails w.tick ≡ false
    → ((transaction (λ cx. execute (f cx)) >>= λ _. pure (finished tt)) env w).0 ≡ ok (finished tt)
statement_goes_on f env w alive =
    ap (λ (s : Result (Outcome (Unit {0})) × World). s.0)
      (bind_succeeds (transaction (λ cx. execute (f cx))) (λ _. pure (finished tt)) env w
        (transaction_alive (λ cx. execute (f cx)) env w alive))

settle-GoesOn :
    (job : JobRecord) (result : Result (Outcome (Unit {0}))) (env : Env) (w : World)
    → ((tick : ℕ) → env.fails tick ≡ false)
    → GoesOn (settle job result) env w
unfolding settle complete_job fail_job complete_job_tx fail_job_tx
settle-GoesOn job (ok panicked) env w alive = inr refl
settle-GoesOn job (ok (finished u)) env w alive = inl (statement_goes_on _ env w (alive w.tick))
settle-GoesOn job (err e) env w alive = inl (statement_goes_on _ env w (alive w.tick))

-- A task that goes on, and then another unless it panicked.
unless_panicked-GoesOn :
    (m k : Action (Outcome (Unit {0}))) (env : Env) (w : World)
    → GoesOn m env w
    → ((w' : World) → GoesOn k env w')
    → GoesOn (m >>= unless_panicked k) env w
unless_panicked-GoesOn m k env w first rest = go (m env w) first
  where
    go :
        (s : Result (Outcome (Unit {0})) × World)
        → s.0 ≡ ok (finished tt) ⊎ s.0 ≡ ok panicked
        → let t =
            let (r, w') = s in
            elim r as (λ _. Result (Outcome (Unit {0})) × World) [
              | ok a ↦ unless_panicked k a env w'
              | err e ↦ (err e, w')
            ] in
          t.0 ≡ ok (finished tt) ⊎ t.0 ≡ ok panicked
    go (ok (finished u), w') h = rest w'
    go (ok panicked, w') h = inr refl
    go (err e, w') (inl h) = cc
    go (err e, w') (inr h) = cc

run_jobs-GoesOn :
    (state : AppState) (jobs : List JobRecord) (env : Env) (w : World)
    → ((tick : ℕ) → env.fails tick ≡ false)
    → GoesOn (run_jobs state jobs) env w
unfolding run_jobs run_job
run_jobs-GoesOn state [] env w alive = inl refl
run_jobs-GoesOn state (job ∷ jobs) env w alive =
    unless_panicked-GoesOn (run_job state job) (run_jobs state jobs) env w
      (let done = process state job.kind job.payload env w in
        settle-GoesOn job done.0 env done.1 alive)
      (λ w'. run_jobs-GoesOn state jobs env w' alive)

work-GoesOn :
    (state : AppState) (jobs : List JobRecord) (env : Env) (w : World)
    → ((tick : ℕ) → env.fails tick ≡ false)
    → GoesOn (work state jobs) env w
unfolding work
work-GoesOn state [] env w alive = inl refl
work-GoesOn state (job ∷ jobs) env w alive = run_jobs-GoesOn state (job ∷ jobs) env w alive

lease_jobs_succeeds :
    (owner_id : Uuid) (size : ℤ) (n : ℕ) (env : Env) (w : World)
    → size ≡ pos n
    → env.fails w.tick ≡ false
    → (jobs : List JobRecord) × (w' : World) × (lease_jobs owner_id size env w ≡ (ok jobs, w'))
unfolding lease_jobs lease_jobs_tx transaction
lease_jobs_succeeds owner_id size n env w positive alive = rw (positive, alive) (_, _, refl)

round-GoesOn :
    (state : AppState) (n : ℕ) (env : Env) (w : World)
    → state.config.worker_batch_size ≡ pos n
    → ((tick : ℕ) → env.fails tick ≡ false)
    → GoesOn (round state) env w
unfolding round
round-GoesOn state n env w size alive =
    let (jobs, w', leased) =
      lease_jobs_succeeds state.config.owner_id state.config.worker_batch_size n env w size
        (alive w.tick) in
    subst (λ (s : Result (Outcome (Unit {0})) × World). s.0 ≡ ok (finished tt) ⊎ s.0 ≡ ok panicked)
      (sym (
        bind_succeeds (lease_jobs state.config.owner_id state.config.worker_batch_size) (work state)
          env w leased))
      (work-GoesOn state jobs env w' alive)

-- With a database that does not fail and a batch size that is not negative, the worker goes on for any
-- number of rounds, whatever jobs fail, unless a job panics.
pub run_goes_on :
    (state : AppState) (n rounds : ℕ) (env : Env) (w : World)
    → state.config.worker_batch_size ≡ pos n
    → ((tick : ℕ) → env.fails tick ≡ false)
    → (run rounds state env w).0 ≡ ok (finished tt) ⊎ (run rounds state env w).0 ≡ ok panicked
unfolding run
run_goes_on state n zero env w size alive = inl refl
run_goes_on state n (suc rounds) env w size alive =
    unless_panicked-GoesOn (round state) (run rounds state) env w
      (round-GoesOn state n env w size alive) (λ w'. run_goes_on state n rounds env w' size alive)

-- No row with this id is running.
abbrev pub IsSettled : Uuid → List JobRow → Type 0
IsSettled id = All (λ (j : JobRow). j.id ≡ id → j.status ≢ running)

update_where-IsSettled :
    (id : Uuid) (f : JobRow → JobRow) (js : List JobRow)
    → ((j : JobRow) → (f j).status ≢ running)
    → IsSettled id (update_where (λ j. j.id == id) f js)
unfolding update_where
update_where-IsSettled id f [] h = tt
update_where-IsSettled id f (j ∷ js) h = elim (Bool-cases (j.id == id)) [
  | inl hit ↦ rw hit ((λ e. h j), update_where-IsSettled id f js h)
  | inr miss ↦ rw miss ((λ e. ground arith), update_where-IsSettled id f js h)
]

failed_row_status :
    (now : DateTime) (attempts : ℕ) (error : Text) (j : JobRow)
    → (failed_row now attempts error j).status ≢ running
unfolding failed_row
failed_row_status now attempts error j = elim (Bool-cases (is_terminal attempts)) [
  | inl last ↦ rw last (λ e. cc)
  | inr more ↦ rw more (λ e. cc)
]

-- A statement of the queue, if it went through.
after_statement :
    (f : Context → Db → Db) (id : Uuid) (env : Env) (w : World)
    → IsSettled id (f (context env w.tick) w.db).jobs
    → let r = (transaction (λ cx. execute (f cx)) >>= λ _. pure (finished tt)) env w in
      r.0 ≡ ok (finished tt) → IsSettled id r.1.db.jobs
after_statement f id env w settled =
    transaction_rule
      (λ (r : Result (Outcome (Unit {0})) × World).
        r.0 ≡ ok (finished tt) → IsSettled id r.1.db.jobs)
      (λ cx. execute (f cx)) (λ _. pure (finished tt)) env w (λ e h. cc)
      (λ u db' body h. rw (execute_lem (f (context env w.tick)) w.db body) settled)

settle-IsSettled :
    (job : JobRecord) (result : Result (Outcome (Unit {0}))) (env : Env) (w : World)
    → (settle job result env w).0 ≡ ok (finished tt)
    → IsSettled job.id (settle job result env w).1.db.jobs
unfolding settle complete_job fail_job complete_job_tx fail_job_tx completed_row
settle-IsSettled job (ok panicked) env w h = cc
settle-IsSettled job (ok (finished u)) env w h =
    after_statement _ job.id env w
      (update_where-IsSettled job.id (completed_row (env.now w.tick)) w.db.jobs (λ j e. cc)) h
settle-IsSettled job (err x) env w h =
    after_statement _ job.id env w
      (update_where-IsSettled job.id (failed_row (env.now w.tick) job.attempts (to_string x))
        w.db.jobs (failed_row_status (env.now w.tick) job.attempts (to_string x)))
      h

-- If a job was run to its end, without an error of the queue and without a panic, no row with its id is
-- running: it is done, failed or pending again, whether `process` succeeded or not.
pub run_job_settles :
    (state : AppState) (job : JobRecord) (env : Env) (w : World)
    → (run_job state job env w).0 ≡ ok (finished tt)
    → IsSettled job.id (run_job state job env w).1.db.jobs
unfolding run_job
run_job_settles state job env w h =
    let done = process state job.kind job.payload env w in settle-IsSettled job done.0 env done.1 h

payload_text-id_payload :
    (libs : Libs) (key : Text) (id : Uuid)
    → payload_text (id_payload libs key id) key ≡ some (libs.uuid_text id)
unfolding payload_text id_payload get_key get_field as_str
payload_text-id_payload libs key id =
    ap
      (λ (same : Bool).
        elim (if same then some (string (libs.uuid_text id)) else none) as (λ _. Option Text) [
          | none ↦ none
          | some v ↦ as_str v
        ])
      (text_eq_refl key)

-- If the UUID of a text that a UUID is written as is that UUID again, the worker reads from the payload of
-- a job the id that was written under its key.
pub parse_uuid-id_payload :
    (libs : Libs) (key : Text) (id : Uuid)
    → ((u : Uuid) → libs.uuid_parse (libs.uuid_text u) ≡ some u)
    → parse_uuid libs (id_payload libs key id) key ≡ ok id
unfolding parse_uuid parsed_uuid
parse_uuid-id_payload libs key id law =
    ap
      (λ (o : Option Text). elim o as (λ _. Result Uuid) [
        | none ↦ err (bad_request (codes "job payload missing " ++ key))
        | some text ↦ parsed_uuid (libs.uuid_parse text) key
      ])
      (payload_text-id_payload libs key id)
    ∙ ap (λ (o : Option Uuid). parsed_uuid o key) (law id)
