-- ===== src/Db/Finds.antt =====
-- Actions that read: the tables stay as they are, and the result is as stated.
use personal_knowledge_os.Prelude.{◌≡◌, refl, subst, sym, ap, ◌∙◌}
use personal_knowledge_os.AppError.{AppError, Result, ok, err}
use personal_knowledge_os.Db.Tables.{Db}
use personal_knowledge_os.Db.Tx.{Tx, Context, query}
use personal_knowledge_os.Db.Action.{
  Env, World, Action, ◌>>=◌, pure, transaction, last_rule, context,
}
use personal_knowledge_os.Retrieval.{attempt}

-- The action leaves the tables as they are, and its result, if it has one, is as stated.
abbrev pub Finds : {A : Type 0} → Db → (A → Type 0) → Action A → Type 0
Finds {A} db Post m =
    (env : Env) (w : World)
    → w.db ≡ db
    → ((m env w).1.db ≡ db) × ((a : A) → (m env w).0 ≡ ok a → Post a)

module _ (db : Db) where
  pub pure-Finds : {A : Type 0} (Post : A → Type 0) (a : A) → Post a → Finds db Post (pure a)
  pure-Finds {A} Post a h env w same = (same, λ b e. subst Post (inj e) h)
    where
      inj : {b : A} → ◌≡◌ {A = Result A} (ok a) (ok b) → a ≡ b
      inj e = cc

  pub attempt-Finds :
      {A B : Type 0} (Mid : A → Type 0) (Post : B → Type 0) (m : Action A) (good : A → Action B)
      (bad : AppError → Action B)
      → Finds db Mid m
      → ((a : A) → Mid a → Finds db Post (good a))
      → ((e : AppError) → Finds db Post (bad e))
      → Finds db Post (attempt m good bad)
  attempt-Finds {A} {B} Mid Post m good bad first rest other env w same =
      go (m env w) (first env w same).0 (first env w same).1
    where
      go :
          (s : Result A × World)
          → s.1.db ≡ db
          → ((a : A) → s.0 ≡ ok a → Mid a)
          → let t =
              let (r, w') = s in
              elim r as (λ _. Result B × World) [ ok a ↦ good a env w' | err e ↦ bad e env w' ] in
            (t.1.db ≡ db) × ((b : B) → t.0 ≡ ok b → Post b)
      go (ok a, w') kept mid = rest a (mid a refl) env w' kept
      go (err e, w') kept mid = other e env w' kept

  pub bind-Finds :
      {A B : Type 0} (Mid : A → Type 0) (Post : B → Type 0) (m : Action A) (f : A → Action B)
      → Finds db Mid m
      → ((a : A) → Mid a → Finds db Post (f a))
      → Finds db Post (m >>= f)
  bind-Finds {A} {B} Mid Post m f first rest =
      attempt-Finds Mid Post m f (λ e env w. (err e, w)) first rest
        (λ e env w same. (same, λ b h. cc))

  pub query-Finds :
      {A : Type 0} (Post : A → Type 0) (body : Context → Tx A)
      → ((cx : Context) (a : A) (db' : Db) → body cx db ≡ ok (a, db') → (db' ≡ db) × Post a)
      → Finds db Post (transaction body)
  query-Finds {A} Post body reads env w same =
      last_rule (λ (r : Result A × World). (r.1.db ≡ db) × ((a : A) → r.0 ≡ ok a → Post a)) body env
        w (λ e. (same, λ a h. cc))
        (λ a db' h.
          let (kept, post) = reads (context env w.tick) a db' (rw (← same) h) in
          (kept, (pure-Finds Post a post env (record w { db = db' }) kept).1))

  -- the answer of a query
  pub query_lem :
      {A : Type 0} (Post : A → Type 0) (f : Db → A) (mid : Db) {a : A} {db' : Db}
      → mid ≡ db
      → query f mid ≡ ok (a, db')
      → Post (f db)
      → (db' ≡ db) × Post a
  query_lem Post f mid {a} {db'} same h post =
      let unchanged : db' ≡ mid = cc in
      let answer : f mid ≡ a = cc in (unchanged ∙ same, subst Post (ap f (sym same) ∙ answer) post)
