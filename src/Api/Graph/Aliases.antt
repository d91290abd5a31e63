-- ===== src/Api/Graph/Aliases.antt =====
-- What `normalize_aliases` of src/api/graph.rs returns.
use personal_knowledge_os.Prelude.{
  ◌≤◌, ◌≡◌, ◌≢◌, refl, sym, inl, inr, Bool, false, ◌||◌, List, [], ◌∷◌, ltb, length, any, is_empty,
  All, All-imp, Bool-cases, arith,
}
use personal_knowledge_os.Text.{Text, trim, trim_idem, text_eq, text_eq_iff}
use personal_knowledge_os.AppError.{Result, ok, err}
use personal_knowledge_os.Db.Sql.{order_by, insert_by, All-insert_by, All-order_by}
use personal_knowledge_os.Api.Graph.{
  text_leb, push_alias, collect_aliases, sort_aliases, normalize_aliases,
}

-- An alias as it is stored: trimmed, of 1 to 256 characters.
pub record IsAlias (alias : Text) : Type 0 where
  pub trimmed : trim alias ≡ alias
  pub solid : alias ≢ []
  pub short : length alias ≤ 256

module _ (to_lowercase : Text → Text) where
  -- No two of them differ in case only.
  abbrev pub Distinct : List Text → Type 0
  Distinct [] = Unit
  Distinct (a ∷ rest) = All (λ b. to_lowercase b ≢ to_lowercase a) rest × Distinct rest

  Distinct-insert_by :
      (before : Text → Text → Bool) (a : Text) (rest : List Text)
      → All (λ b. to_lowercase b ≢ to_lowercase a) rest
      → Distinct rest
      → Distinct (insert_by before a rest)
  unfolding insert_by
  Distinct-insert_by before a [] new d = (tt, tt)
  Distinct-insert_by before a (b ∷ rest) new d = elim (Bool-cases (before a b)) [
    | inl first ↦ rw first (new, d)
    | inr later ↦ rw later (
      All-insert_by (λ c. to_lowercase c ≢ to_lowercase b) before a rest (λ e. new.0 (sym e)) d.0,
      Distinct-insert_by before a rest new.1 d.1,
    )
  ]

  Distinct-order_by :
      (before : Text → Text → Bool) (rest : List Text)
      → Distinct rest
      → Distinct (order_by before rest)
  unfolding order_by
  Distinct-order_by before [] d = tt
  Distinct-order_by before (a ∷ rest) d =
      Distinct-insert_by before a (order_by before rest)
        (All-order_by (λ b. to_lowercase b ≢ to_lowercase a) before rest d.0)
        (Distinct-order_by before rest d.1)

  -- What the loop lets pass.
  record Passes (canonical_key : Text) (seen : List Text) (alias : Text) : Type 0 where
    pub proper : IsAlias alias
    pub other : to_lowercase alias ≢ canonical_key
    pub unseen : any (text_eq (to_lowercase alias)) seen ≡ false

  not_same : (s t : Text) → text_eq s t ≡ false → s ≢ t
  not_same s t h e = let same = (text_eq_iff s t).1 e in cc

  Passes-more :
      (canonical_key key : Text) (seen : List Text) (a : Text)
      → Passes canonical_key (key ∷ seen) a
      → Passes canonical_key seen a × (to_lowercase a ≢ key)
  Passes-more canonical_key key seen a p = (
    record { proper = p.proper; other = p.other; unseen = let u = p.unseen in ground arith },
    not_same (to_lowercase a) key (let u = p.unseen in ground arith),
  )

  push_alias_lem :
      (alias : Text) (m : Result (List Text)) {r : List Text}
      → push_alias alias m ≡ ok r
      → (rest : List Text) × (m ≡ ok rest) × (r ≡ alias ∷ rest)
  unfolding push_alias
  push_alias_lem alias (ok rest) h = (rest, refl, ground arith)
  push_alias_lem alias (err e) h = cc

  collect_aliases_sound :
      (canonical_key : Text) (seen aliases : List Text) {r : List Text}
      → collect_aliases to_lowercase canonical_key seen aliases ≡ ok r
      → All (Passes canonical_key seen) r × Distinct r
  unfolding collect_aliases
  collect_aliases_sound canonical_key seen [] {r} h = let e : r ≡ [] = ground arith in rw e (tt, tt)
  collect_aliases_sound canonical_key seen (alias ∷ aliases) h =
      elim (Bool-cases (is_empty (trim alias))) [
        | inl blank ↦ collect_aliases_sound canonical_key seen aliases (rw blank at h)
        | inr solid ↦ elim (Bool-cases (ltb 256 (length (trim alias)))) [
          | inl long ↦ (let bad = rw (solid, long) at h in cc)
          | inr short ↦ elim (Bool-cases (text_eq key canonical_key || any (text_eq key) seen)) [
            | inl known ↦
                collect_aliases_sound canonical_key seen aliases (rw (solid, short, known) at h)
            | inr new ↦
                let (rest, e, made) = push_alias_lem (trim alias) _ (rw (solid, short, new) at h) in
                let (pass, d) = collect_aliases_sound canonical_key (key ∷ seen) aliases e in
                rw made (
                  (
                    record {
                      proper = record {
                        trimmed = trim_idem alias;
                        solid = full (trim alias) solid;
                        short = ground arith;
                      };
                      other = not_same key canonical_key (ground arith);
                      unseen = ground arith;
                    },
                    All-imp (Passes canonical_key (key ∷ seen)) (Passes canonical_key seen)
                        (λ a p. (Passes-more canonical_key key seen a p).0) rest pass,
                  ),
                  (
                    All-imp (Passes canonical_key (key ∷ seen)) (λ b. to_lowercase b ≢ key)
                        (λ a p. (Passes-more canonical_key key seen a p).1) rest pass,
                    d,
                  ),
                )
          ]
        ]
      ]
    where
      key : Text
      key = to_lowercase (trim alias)

      full : (s : Text) → is_empty s ≡ false → s ≢ []
      full [] h e = cc
      full (c ∷ s) h e = cc

-- Whatever `to_lowercase` is: what is returned are aliases of 1 to 256 characters, trimmed, whose lower
-- case is not that of the canonical name, and no two of which have the same lower case.
pub normalize_aliases_sound :
    (to_lowercase : Text → Text) (aliases : List Text) (canonical_name : Text) {result : List Text}
    → normalize_aliases to_lowercase aliases canonical_name ≡ ok result
    → All IsAlias result
      × All (λ a. to_lowercase a ≢ to_lowercase canonical_name) result
      × Distinct to_lowercase result
unfolding normalize_aliases sort_aliases
normalize_aliases_sound to_lowercase aliases canonical_name h =
    elim (Bool-cases (ltb 100 (length aliases))) [
      | inl many ↦ (let bad = rw many at h in cc)
      | inr few ↦
          let (kept, e, made) =
            sorted (collect_aliases to_lowercase (to_lowercase canonical_name) [] aliases)
              (rw few at h) in
          let (pass, d) =
            collect_aliases_sound to_lowercase (to_lowercase canonical_name) [] aliases e in
          rw made (
            All-order_by IsAlias before kept (
                All-imp (Passes to_lowercase (to_lowercase canonical_name) []) IsAlias
                  (λ a p. p.proper) kept pass),
            All-order_by (λ a. to_lowercase a ≢ to_lowercase canonical_name) before kept
                (All-imp (Passes to_lowercase (to_lowercase canonical_name) [])
                  (λ a. to_lowercase a ≢ to_lowercase canonical_name) (λ a p. p.other) kept pass),
            Distinct-order_by to_lowercase before kept d,
          )
    ]
  where
    before : Text → Text → Bool
    before a b = text_leb (to_lowercase a) (to_lowercase b)

    sorted :
        (m : Result (List Text)) {r : List Text}
        → sort_aliases to_lowercase m ≡ ok r
        → (kept : List Text) × (m ≡ ok kept) × (r ≡ order_by before kept)
    sorted (ok kept) h = (kept, refl, ground arith)
    sorted (err e) h = cc
