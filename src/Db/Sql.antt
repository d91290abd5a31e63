-- ===== src/Db/Sql.antt =====
-- The clauses of the SQL statements: `WHERE`, `UPDATE`, `count(*)`, `ORDER BY` and `LIMIT`.
use personal_knowledge_os.Prelude.{
  ℕ, zero, suc, ◌<◌, ◌≡◌, refl, ◌⊎◌, inl, inr, Bool, true, false, ◌||◌, ◌&&◌, not, List, [], ◌∷◌,
  Option, none, some, arith, ◌==◌, if◌then◌else◌, select, take, map, All, Any, Bool-cases,
}

module _ {ℓ} {R : Type ℓ} where
  -- `UPDATE … SET f WHERE p`
  unfoldable pub update_where : (R → Bool) → (R → R) → List R → List R
  update_where p f [] = []
  update_where p f (r ∷ rs) = (if p r then f r else r) ∷ update_where p f rs

  -- the rows that a `WHERE` clause hits: `count(*)`, `rows_affected()`
  unfoldable pub count_where : (R → Bool) → List R → ℕ
  count_where p [] = 0
  count_where p (r ∷ rs) = let rest = count_where p rs in if p r then suc rest else rest

  -- `ORDER BY`, by a test that says which of two rows may come first
  unfoldable pub insert_by : (R → R → Bool) → R → List R → List R
  insert_by before r [] = r ∷ []
  insert_by before r (s ∷ rs) = if before r s then r ∷ s ∷ rs else s ∷ insert_by before r rs

  unfoldable pub order_by : (R → R → Bool) → List R → List R
  order_by before [] = []
  order_by before (r ∷ rs) = insert_by before r (order_by before rs)

-- `id = ANY(ids)`
unfoldable pub elem : ℕ → List ℕ → Bool
elem x [] = false
elem x (y ∷ ys) = x == y || elem x ys

-- a nullable column: `column IS NULL OR test`
abbrev pub null_or {ℓ} : {A : Type ℓ} → (A → Bool) → Option A → Bool
null_or p none = true
null_or p (some a) = p a

-- a comparison with a nullable column, which `NULL` fails
abbrev pub not_null_and {ℓ} : {A : Type ℓ} → (A → Bool) → Option A → Bool
not_null_and p none = false
not_null_and p (some a) = p a

-- `COALESCE(column, value)`
abbrev pub coalesce {ℓ} : {A : Type ℓ} → Option A → A → A
coalesce none a = a
coalesce (some b) a = b

-- one more key of an ORDER BY
abbrev pub and_then : Bool → Bool → Bool → Bool
and_then before after rest = before && (not after || rest)

module _ {ℓ κ} {R : Type ℓ} (P : R → Type κ) (p : R → Bool) (f : R → R) where
  -- An UPDATE keeps what holds of every row, if it keeps it of the rows that it hits.
  pub All-update_where :
      ((r : R) → p r ≡ true → P r → P (f r))
      → (rs : List R) → All P rs
      → All P (update_where p f rs)
  unfolding update_where
  All-update_where keep [] h = tt
  All-update_where keep (r ∷ rs) h = elim (Bool-cases (p r)) [
    | inl hit ↦ rw hit (keep r hit h.0, All-update_where keep rs h.1)
    | inr miss ↦ rw miss (h.0, All-update_where keep rs h.1)
  ]

module _ {ℓ} {R : Type ℓ} (p : R → Bool) where
  -- What is counted is there.
  pub count_where-Any : (rs : List R) → 0 < count_where p rs → Any (λ r. p r ≡ true) rs
  unfolding count_where
  count_where-Any [] h = absurd (omega arith)
  count_where-Any (r ∷ rs) h = elim (Bool-cases (p r)) [
    | inl hit ↦ inl hit
    | inr miss ↦ inr (count_where-Any rs (ground arith))
  ]

  pub count_where_none : (rs : List R) → All (λ r. p r ≡ false) rs → count_where p rs ≡ 0
  unfolding count_where
  count_where_none [] h = refl
  count_where_none (r ∷ rs) h = ground (arith, count_where_none rs h.1)

pub elem_lem : (x : ℕ) (ys : List ℕ) → elem x ys ≡ true → Any (λ y. y ≡ x) ys
unfolding elem
elem_lem x [] h = cc
elem_lem x (y ∷ ys) h = elim (Bool-cases (x == y)) [
  | inl here ↦ inl (ground arith)
  | inr later ↦ inr (elem_lem x ys (ground arith))
]

-- What stands in the answer of a query stands in the table.
module _ {ℓ} {R : Type ℓ} (P : R → Type 0) where
  pub Any-take : (n : ℕ) (rs : List R) → Any P (take n rs) → Any P rs
  Any-take zero rs h = absurd h
  Any-take (suc n) [] h = absurd h
  Any-take (suc n) (r ∷ rs) (inl h) = inl h
  Any-take (suc n) (r ∷ rs) (inr h) = inr (Any-take n rs h)

  later_row : (r s : R) (rs : List R) → P r ⊎ Any P rs → P r ⊎ (P s ⊎ Any P rs)
  later_row r s rs (inl q) = inl q
  later_row r s rs (inr q) = inr (inr q)

  Any-insert_by :
      (before : R → R → Bool) (r : R) (rs : List R) → Any P (insert_by before r rs) → P r ⊎ Any P rs
  unfolding insert_by
  Any-insert_by before r [] h = h
  Any-insert_by before r (s ∷ rs) h = elim (Bool-cases (before r s)) [
    | inl first ↦ rw first at h
    | inr later ↦ elim (rw later at h) [
      | inl q ↦ inr (inl q)
      | inr q ↦ later_row r s rs (Any-insert_by before r rs q)
    ]
  ]

  pub Any-order_by : (before : R → R → Bool) (rs : List R) → Any P (order_by before rs) → Any P rs
  unfolding order_by
  Any-order_by before [] h = h
  Any-order_by before (r ∷ rs) h = elim (Any-insert_by before r (order_by before rs) h) [
    | inl q ↦ inl q
    | inr q ↦ inr (Any-order_by before rs q)
  ]

  pub Any-select :
      (p : R → Bool) (rs : List R) → Any P (select p rs) → Any (λ r. P r × (p r ≡ true)) rs
  Any-select p [] h = h
  Any-select p (r ∷ rs) h = elim (Bool-cases (p r)) [
    | inl hit ↦ elim (rw hit at h) [ inl q ↦ inl (q, hit) | inr q ↦ inr (Any-select p rs q) ]
    | inr miss ↦ inr (Any-select p rs (rw miss at h))
  ]

  past_row :
      (r s : R) (rs before : List R)
      → (P r ⊎ Any P rs → Any P before)
      → P r ⊎ (P s ⊎ Any P rs)
      → P s ⊎ Any P before
  past_row r s rs before rest (inl q) = inr (rest (inl q))
  past_row r s rs before rest (inr (inl q)) = inl q
  past_row r s rs before rest (inr (inr q)) = inr (rest (inr q))

  insert_by-Any :
      (before : R → R → Bool) (r : R) (rs : List R) → P r ⊎ Any P rs → Any P (insert_by before r rs)
  unfolding insert_by
  insert_by-Any before r [] h = h
  insert_by-Any before r (s ∷ rs) h = elim (Bool-cases (before r s)) [
    | inl first ↦ rw first h
    | inr later ↦ rw later (past_row r s rs (insert_by before r rs) (insert_by-Any before r rs) h)
  ]

  -- and what stands in the table, in its order
  pub order_by-Any : (before : R → R → Bool) (rs : List R) → Any P rs → Any P (order_by before rs)
  unfolding order_by
  order_by-Any before [] h = h
  order_by-Any before (r ∷ rs) (inl q) = insert_by-Any before r (order_by before rs) (inl q)
  order_by-Any before (r ∷ rs) (inr q) =
      insert_by-Any before r (order_by before rs) (inr (order_by-Any before rs q))

  pub select-Any :
      (p : R → Bool) (rs : List R) → Any (λ r. P r × (p r ≡ true)) rs → Any P (select p rs)
  select-Any p [] h = h
  select-Any p (r ∷ rs) (inl (q, hit)) = rw hit (inl q)
  select-Any p (r ∷ rs) (inr q) = elim (Bool-cases (p r)) [
    | inl hit ↦ rw hit (inr (select-Any p rs q))
    | inr miss ↦ rw miss (select-Any p rs q)
  ]

  pub elem-map :
      (key : R → ℕ) (x : ℕ) (rs : List R) → elem x (map key rs) ≡ true → Any (λ r. key r ≡ x) rs
  unfolding elem
  elem-map key x [] h = cc
  elem-map key x (r ∷ rs) h = elim (Bool-cases (x == key r)) [
    | inl here ↦ inl (ground arith)
    | inr later ↦ inr (elem-map key x rs (ground arith))
  ]

-- A row cannot both be and not be.
pub Any-All {ℓ} :
    {R : Type ℓ} (P Q : R → Type 0) {G : Type 0} (rs : List R)
    → ((r : R) → P r → Q r → G)
    → Any P rs
    → All Q rs
    → G
Any-All P Q [] f h k = absurd h
Any-All P Q (r ∷ rs) f (inl h) k = f r h k.0
Any-All P Q (r ∷ rs) f (inr h) k = Any-All P Q rs f h k.1

-- ORDER BY keeps what holds of every row.
module _ {ℓ κ} {R : Type ℓ} (P : R → Type κ) (before : R → R → Bool) where
  pub All-insert_by : (r : R) (rs : List R) → P r → All P rs → All P (insert_by before r rs)
  unfolding insert_by
  All-insert_by r [] p h = (p, tt)
  All-insert_by r (s ∷ rs) p h = elim (Bool-cases (before r s)) [
    | inl first ↦ rw first (p, h)
    | inr later ↦ rw later (h.0, All-insert_by r rs p h.1)
  ]

  pub All-order_by : (rs : List R) → All P rs → All P (order_by before rs)
  unfolding order_by
  All-order_by [] h = tt
  All-order_by (r ∷ rs) h = All-insert_by r (order_by before rs) h.0 (All-order_by rs h.1)
