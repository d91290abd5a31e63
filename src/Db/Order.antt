-- ===== src/Db/Order.antt =====
-- `ORDER BY` orders the rows.
use personal_knowledge_os.Prelude.{
  ℕ, zero, suc, ◌≡◌, refl, inl, inr, Any, select, map, Bool, true, false, List, [], ◌∷◌, All,
  All-imp, Bool-cases, take,
}
use personal_knowledge_os.Db.Sql.{insert_by, order_by, All-insert_by}

-- Each row stands in the relation to all that follow it.
abbrev pub Ordered {ℓ} : {R : Type ℓ} → (R → R → Type 0) → List R → Type 0
Ordered T [] = Unit
Ordered T (r ∷ rs) = All (T r) rs × Ordered T rs

module _ {ℓ} {R : Type ℓ} (T : R → R → Type 0) where
  pub All-take : (P : R → Type 0) (n : ℕ) (rs : List R) → All P rs → All P (take n rs)
  All-take P zero rs h = tt
  All-take P (suc n) [] h = tt
  All-take P (suc n) (r ∷ rs) h = (h.0, All-take P n rs h.1)

  pub Ordered-take : (n : ℕ) (rs : List R) → Ordered T rs → Ordered T (take n rs)
  Ordered-take zero rs h = tt
  Ordered-take (suc n) [] h = tt
  Ordered-take (suc n) (r ∷ rs) h = (All-take (T r) n rs h.0, Ordered-take n rs h.1)

  module _ (before : R → R → Bool) (first : (a b : R) → before a b ≡ true → T a b)
      (later : (a b : R) → before a b ≡ false → T b a)
      (trans : (a b c : R) → T a b → T b c → T a c) where
    Ordered-insert_by : (r : R) (rs : List R) → Ordered T rs → Ordered T (insert_by before r rs)
    unfolding insert_by
    Ordered-insert_by r [] h = (tt, tt)
    Ordered-insert_by r (s ∷ rs) h = elim (Bool-cases (before r s)) [
      | inl b ↦
          rw b ((first r s b, All-imp (T s) (T r) (λ x k. trans r s x (first r s b) k) rs h.0), h)
      | inr b ↦ rw b (All-insert_by (T s) before r rs (later r s b) h.0, Ordered-insert_by r rs h.1)
    ]

    pub Ordered-order_by : (rs : List R) → Ordered T (order_by before rs)
    unfolding order_by
    Ordered-order_by [] = tt
    Ordered-order_by (r ∷ rs) = Ordered-insert_by r (order_by before rs) (Ordered-order_by rs)

-- What holds of the rows of the table that a WHERE clause hits, holds of what it selects.
pub select-All :
    {R : Type 0} (P : R → Type 0) (p : R → Bool) (rs : List R)
    → ((r : R) → Any (λ s. s ≡ r) rs → p r ≡ true → P r)
    → All P (select p rs)
select-All P p [] f = tt
select-All P p (r ∷ rs) f = elim (Bool-cases (p r)) [
  | inl hit ↦ rw hit (f r (inl refl) hit, select-All P p rs (λ s h. f s (inr h)))
  | inr miss ↦ rw miss (select-All P p rs (λ s h. f s (inr h)))
]

pub All-map {ℓ} :
    {R : Type ℓ} {S : Type ℓ} (P : R → Type 0) (Q : S → Type 0) (f : R → S) (rs : List R)
    → ((r : R) → P r → Q (f r))
    → All P rs
    → All Q (map f rs)
All-map P Q f [] keep h = tt
All-map P Q f (r ∷ rs) keep h = (keep r h.0, All-map P Q f rs keep h.1)
