-- ===== src/Db/Action.antt =====
-- A handler: a sequence of transactions and of calls of other services.
-- `Env` is what the program does not decide: at each tick the time, whether the database fails, and
-- the UUIDs that `Uuid::now_v7` gives. A transaction, or a statement outside of one, takes one tick. It
-- takes effect as a whole or fails as a whole, whichever of its statements, BEGIN or COMMIT it is that
-- fails; a failed one has no effect.
use personal_knowledge_os.Prelude.{ℕ, suc, ◌≡◌, refl, ap, Bool, true, false, if◌then◌else◌}
use personal_knowledge_os.Text.{codes}
use personal_knowledge_os.Values.{Uuid, DateTime}
use personal_knowledge_os.AppError.{AppError, Result, ok, err, database, other_error}
use personal_knowledge_os.Db.Tables.{Db}
use personal_knowledge_os.Db.Tx.{Tx, Context}
use personal_knowledge_os.Db.Libs.{Libs}

pub record Env : Type 0 where
  pub now : ℕ → DateTime
  pub fails : ℕ → Bool
  pub fresh : ℕ → ℕ → Uuid
  pub libs : Libs

pub record World : Type 0 where
  pub db : Db
  pub tick : ℕ

abbrev pub Action : Type 0 → Type 0
Action A = Env → World → Result A × World

infixl 5 ◌>>=◌ ◌>>◌
abbrev pub ◌>>=◌ : {A B : Type 0} → Action A → (A → Action B) → Action B
◌>>=◌ m f env w = let (r, w') = m env w in elim r [ ok a ↦ f a env w' | err e ↦ (err e, w') ]

abbrev pub ◌>>◌ : {A B : Type 0} → Action A → Action B → Action B
m >> k = m >>= λ _. k

abbrev pub pure : {A : Type 0} → A → Action A
pure a env w = (ok a, w)

abbrev pub throw : {A : Type 0} → AppError → Action A
throw e env w = (err e, w)

-- `if !test { return Err(e) }`
abbrev pub ensure : Bool → AppError → Action (Unit {0})
ensure true e env w = (ok tt, w)
ensure false e env w = (err e, w)

abbrev pub lift_result : {A : Type 0} → Result A → Action A
lift_result r env w = (r, w)

abbrev pub lost_connection : AppError
lost_connection = database (other_error (codes "connection"))

-- What a transaction that starts at this tick is given.
abbrev pub context : Env → ℕ → Context
context env tick = record { now = env.now tick; ids = env.fresh tick; libs = env.libs }

-- The world after a transaction.
abbrev pub finish : {A : Type 0} → World → Result (A × Db) → Result A × World
finish w (ok (a, db')) = (ok a, record { db = db'; tick = suc w.tick })
finish w (err e) = (err e, record { db = w.db; tick = suc w.tick })

-- One transaction, or one statement outside of a transaction.
unfoldable pub transaction : {A : Type 0} → (Context → Tx A) → Action A
transaction body env w =
    let failed = env.fails w.tick in
    if failed
    then (err lost_connection, record w { tick = suc w.tick })
    else finish w (body (context env w.tick) w.db)

-- What can follow a transaction: it failed and changed nothing, or its body ran to the end.
finish_cases {ℓ} :
    {A B : Type 0} (P : Result B × World → Type ℓ) (f : A → Action B) (env : Env) (w : World)
    (r : Result (A × Db))
    → ((e : AppError) → P (err e, record w { tick = suc w.tick }))
    → ((a : A) (db' : Db) → r ≡ ok (a, db') → P (f a env (record { db = db'; tick = suc w.tick })))
    → P (let (s, w') = finish w r in elim s [ ok a ↦ f a env w' | err e ↦ (err e, w') ])
finish_cases P f env w (ok (a, db')) failed ran = ran a db' refl
finish_cases P f env w (err e) failed ran = failed e

-- The rule for a transaction and what follows it: what holds if it fails, with the tables unchanged, and
-- if its body succeeds, with the tables that the body made, holds.
pub transaction_rule {ℓ} :
    {A B : Type 0} (P : Result B × World → Type ℓ) (body : Context → Tx A) (f : A → Action B)
    (env : Env) (w : World)
    → ((e : AppError) → P (err e, record w { tick = suc w.tick }))
    → ((a : A) (db' : Db)
        → body (context env w.tick) w.db ≡ ok (a, db')
        → P (f a env (record { db = db'; tick = suc w.tick })))
    → P ((transaction body >>= f) env w)
unfolding transaction
transaction_rule P body f env w failed ran = go (env.fails w.tick)
  where
    go :
        (lost : Bool)
        → P (
            let (s, w') =
              if lost
              then (err lost_connection, record w { tick = suc w.tick })
              else finish w (body (context env w.tick) w.db) in
            elim s [ ok a ↦ f a env w' | err e ↦ (err e, w') ])
    go true = failed lost_connection
    go false = finish_cases P f env w (body (context env w.tick) w.db) failed ran

finish_last {ℓ} :
    {A : Type 0} (P : Result A × World → Type ℓ) (w : World) (r : Result (A × Db))
    → ((e : AppError) → P (err e, record w { tick = suc w.tick }))
    → ((a : A) (db' : Db) → r ≡ ok (a, db') → P (ok a, record { db = db'; tick = suc w.tick }))
    → P (finish w r)
finish_last P w (ok (a, db')) failed ran = ran a db' refl
finish_last P w (err e) failed ran = failed e

-- The rule for a transaction that ends a handler.
pub last_rule {ℓ} :
    {A : Type 0} (P : Result A × World → Type ℓ) (body : Context → Tx A) (env : Env) (w : World)
    → ((e : AppError) → P (err e, record w { tick = suc w.tick }))
    → ((a : A) (db' : Db)
        → body (context env w.tick) w.db ≡ ok (a, db')
        → P (ok a, record { db = db'; tick = suc w.tick }))
    → P (transaction body env w)
unfolding transaction
last_rule P body env w failed ran = go (env.fails w.tick)
  where
    go :
        (lost : Bool)
        → P (
            if lost
            then (err lost_connection, record w { tick = suc w.tick })
            else finish w (body (context env w.tick) w.db))
    go true = failed lost_connection
    go false = finish_last P w (body (context env w.tick) w.db) failed ran

-- The rule for a guard and what follows it.
pub ensure_rule {ℓ} :
    {B : Type 0} (P : Result B × World → Type ℓ) (test : Bool) (e : AppError) (k : Action B)
    (env : Env) (w : World)
    → (test ≡ false → P (err e, w))
    → (test ≡ true → P (k env w))
    → P ((ensure test e >> k) env w)
ensure_rule P true e k env w failed passed = passed refl
ensure_rule P false e k env w failed passed = failed refl

-- With a database that does not fail, a transaction is its body.
pub transaction_alive :
    {A : Type 0} (body : Context → Tx A) (env : Env) (w : World)
    → env.fails w.tick ≡ false
    → transaction body env w ≡ finish w (body (context env w.tick) w.db)
unfolding transaction
transaction_alive body env w alive = rw alive

-- With a database that fails, it is an error and nothing else.
pub transaction_lost :
    {A : Type 0} (body : Context → Tx A) (env : Env) (w : World)
    → env.fails w.tick ≡ true
    → transaction body env w ≡ (err lost_connection, record w { tick = suc w.tick })
unfolding transaction
transaction_lost body env w lost = rw lost

-- What follows an error, and what follows a result.
pub bind_fails :
    {A B : Type 0} (m : Action A) (f : A → Action B) (env : Env) (w : World) {e : AppError}
    {w' : World}
    → m env w ≡ (err e, w')
    → (m >>= f) env w ≡ (err e, w')
bind_fails m f env w h =
    ap (λ s. let (r, w1) = s in elim r [ ok a ↦ f a env w1 | err x ↦ (err x, w1) ]) h

pub bind_succeeds :
    {A B : Type 0} (m : Action A) (f : A → Action B) (env : Env) (w : World) {a : A} {w' : World}
    → m env w ≡ (ok a, w')
    → (m >>= f) env w ≡ f a env w'
bind_succeeds m f env w h =
    ap (λ s. let (r, w1) = s in elim r [ ok a ↦ f a env w1 | err x ↦ (err x, w1) ]) h
