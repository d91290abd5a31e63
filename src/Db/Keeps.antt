-- ===== src/Db/Keeps.antt =====
-- Handlers that keep a property of the tables, however they end.
use personal_knowledge_os.Prelude.{◌≡◌, refl, Bool, true, false}
use personal_knowledge_os.AppError.{AppError, Result, ok, err}
use personal_knowledge_os.Db.Tables.{Db}
use personal_knowledge_os.Db.Tx.{Tx, Context, execute, execute_lem}
use personal_knowledge_os.Db.Action.{
  Env, World, Action, ◌>>=◌, ensure, context, transaction, last_rule,
}

abbrev pub Keeps : {A : Type 0} → (Db → Type 0) → Action A → Type 0
Keeps P m = (env : Env) (w : World) → P w.db → P (m env w).1.db

module _ (P : Db → Type 0) where
  -- A transaction does, if its body does whenever it succeeds.
  pub transaction-Keeps :
      {A : Type 0} (body : Context → Tx A)
      → ((cx : Context) (db : Db) (a : A) (db' : Db) → P db → body cx db ≡ ok (a, db') → P db')
      → Keeps P (transaction body)
  transaction-Keeps body step env w h =
      last_rule (λ r. P r.1.db) body env w (λ e. h)
        (λ a db' e. step (context env w.tick) w.db a db' h e)

  -- A sequence does at a world, if its first part does there and the rest does after it.
  pub bind_after :
      {A B : Type 0} (m : Action A) (f : A → Action B) (env : Env) (w : World)
      → P (m env w).1.db
      → ((a : A) (w' : World) → m env w ≡ (ok a, w') → P w'.db → P (f a env w').1.db)
      → P ((m >>= f) env w).1.db
  bind_after {A} {B} m f env w first rest = go (m env w) refl first
    where
      go :
          (s : Result A × World)
          → m env w ≡ s
          → P s.1.db
          → P
              (let (r, w') = s in
                elim r as (λ _. Result B × World) [ ok a ↦ f a env w' | err e ↦ (err e, w') ]).1.db
      go (ok a, w') e k = rest a w' e k
      go (err x, w') e k = k

  -- A sequence does, if both parts do.
  pub bind-Keeps :
      {A B : Type 0} (m : Action A) (f : A → Action B)
      → Keeps P m
      → ((a : A) → Keeps P (f a))
      → Keeps P (m >>= f)
  bind-Keeps m f first rest env w h = bind_after m f env w (first env w h) (λ a w' e. rest a env w')

  pub ensure-Keeps : (test : Bool) (e : AppError) → Keeps P (ensure test e)
  ensure-Keeps true e env w h = h
  ensure-Keeps false e env w h = h

  -- One statement that writes does, if what it writes does.
  pub execute-Keeps :
      (f : Context → Db → Db)
      → ((cx : Context) (db : Db) → P db → P (f cx db))
      → Keeps P (transaction (λ cx. execute (f cx)))
  execute-Keeps f step =
      transaction-Keeps (λ cx. execute (f cx))
        (λ cx db u db' h e. rw (execute_lem (f cx) db e) (step cx db h))

-- A transaction that reads keeps everything.
pub reads-Keeps :
    (P : Db → Type 0) {A : Type 0} (body : Context → Tx A)
    → ((cx : Context) (db : Db) (a : A) (db' : Db) → body cx db ≡ ok (a, db') → db' ≡ db)
    → Keeps P (transaction body)
reads-Keeps P body reads = transaction-Keeps P body (λ cx db a db' h e. rw (reads cx db a db' e) h)
