-- ===== src/Db/Tx.antt =====
-- What runs between BEGIN and COMMIT: a function of the tables that either gives a result and the new
-- tables, or an error, which rolls back.
use personal_knowledge_os.Prelude.{ℕ, ◌≡◌, refl, ap, Bool, true, false, Option, none, some, arith}
use personal_knowledge_os.AppError.{AppError, Result, ok, err}
use personal_knowledge_os.Values.{Uuid, DateTime}
use personal_knowledge_os.Db.Libs.{Libs}
use personal_knowledge_os.Db.Tables.{Db}

abbrev pub Tx : Type 0 → Type 0
Tx A = Db → Result (A × Db)

-- What the body of a transaction is given: the time at its start, its supply of new UUIDs
-- (`Uuid::now_v7`), and the packages.
pub record Context : Type 0 where
  pub now : DateTime
  pub ids : ℕ → Uuid
  pub libs : Libs

infixl 5 ◌>>=◌ ◌>>◌
abbrev pub ◌>>=◌ : {A B : Type 0} → Tx A → (A → Tx B) → Tx B
◌>>=◌ m f db = elim (m db) [ ok (a, db') ↦ f a db' | err e ↦ err e ]

abbrev pub ◌>>◌ : {A B : Type 0} → Tx A → Tx B → Tx B
m >> k = m >>= λ _. k

abbrev pub pure : {A : Type 0} → A → Tx A
pure a db = ok (a, db)

abbrev pub throw : {A : Type 0} → AppError → Tx A
throw e db = err e

-- A statement that reads.
abbrev pub query : {A : Type 0} → (Db → A) → Tx A
query f db = ok (f db, db)

-- A statement that writes.
abbrev pub execute : (Db → Db) → Tx (Unit {0})
execute f db = ok (tt, f db)

-- `if !test { return Err(e) }`
abbrev pub ensure : Bool → AppError → Tx (Unit {0})
ensure true e db = ok (tt, db)
ensure false e db = err e

abbrev pub ok_or : {A : Type 0} → Option A → AppError → Tx A
ok_or none e db = err e
ok_or (some a) e db = ok (a, db)

-- Inversion of a successful bind: what is proved from its two steps holds.
pub bind_ok {ℓ} :
    {A B : Type 0} {G : Type ℓ} (m : Tx A) (f : A → Tx B) (db : Db) {b : B} {db' : Db}
    → (m >>= f) db ≡ ok (b, db')
    → ((a : A) (mid : Db) → m db ≡ ok (a, mid) → f a mid ≡ ok (b, db') → G)
    → G
bind_ok {A} {B} {G} m f db {b} {db'} h use_steps = go (m db) refl h
  where
    go :
        (r : Result (A × Db))
        → m db ≡ r
        → ◌≡◌ {A = Result (B × Db)} (elim r [ ok (a, mid) ↦ f a mid | err e ↦ err e ]) (ok (b, db'))
        → G
    go (ok (a, mid)) e k = use_steps a mid e k
    go (err x) e k = cc

pub ensure_lem :
    (b : Bool) (e : AppError) (db : Db) {u : Unit} {db' : Db}
    → ensure b e db ≡ ok (u, db')
    → (b ≡ true) × (db' ≡ db)
ensure_lem true e db h = ground arith
ensure_lem false e db h = cc

-- An error ends the transaction.
pub bind_err :
    {A B : Type 0} (m : Tx A) (f : A → Tx B) (db : Db) {e : AppError}
    → m db ≡ err e
    → (m >>= f) db ≡ err e
bind_err m f db h = ap (λ r. elim r [ ok (a, mid) ↦ f a mid | err x ↦ err x ]) h

pub execute_lem :
    (f : Db → Db) (db : Db) {u : Unit} {db' : Db} → execute f db ≡ ok (u, db') → db' ≡ f db
execute_lem f db h = ground arith
