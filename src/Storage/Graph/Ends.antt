-- ===== src/Storage/Graph/Ends.antt =====
-- The two entities that a relation joins, as `create_relation` counts them.
use personal_knowledge_os.Prelude.{
  ℕ, ◌+◌, ◌≤◌, ◌≡◌, refl, inl, inr, true, false, ◌&&◌, List, [], ◌∷◌, ◌++◌, arith, Any, Bool-cases,
  any, ◌==◌, if◌then◌else◌,
}
use personal_knowledge_os.Values.{Uuid}
use personal_knowledge_os.Db.Tables.{EntityRow}
use personal_knowledge_os.Db.Sql.{count_where, elem}
use personal_knowledge_os.Storage.Graph.Relations.{count_entities}

-- The owner has the entity.
abbrev pub HasEntity : List EntityRow → Uuid → Uuid → Type 0
HasEntity entities owner_id id =
    Any (λ (e : EntityRow). (e.id ≡ id) × (e.owner_id ≡ owner_id)) entities

-- No two entities have the same id.
abbrev pub UniqueEntities : List EntityRow → Type 0
UniqueEntities [] = Unit
UniqueEntities (e ∷ es) = (any (λ (x : EntityRow). x.id == e.id) es ≡ false) × UniqueEntities es

pub UniqueEntities-append :
    (es : List EntityRow) (e : EntityRow)
    → UniqueEntities es
    → any (λ (x : EntityRow). x.id == e.id) es ≡ false
    → UniqueEntities (es ++ e ∷ [])
UniqueEntities-append [] e u h = (refl, tt)
UniqueEntities-append (x ∷ es) e u h =
    (other es u.0 (ground arith), UniqueEntities-append es e u.1 (ground arith))
  where
    other :
        (ys : List EntityRow)
        → any (λ (y : EntityRow). y.id == x.id) ys ≡ false
        → (x.id == e.id) ≡ false
        → any (λ (y : EntityRow). y.id == x.id) (ys ++ e ∷ []) ≡ false
    other [] h k = ground arith
    other (y ∷ ys) h k = ground (arith, other ys)

-- the entity is there, as a number
unfoldable there : Uuid → Uuid → List EntityRow → ℕ
there owner_id id [] = 0
there owner_id id (e ∷ es) =
    let rest = there owner_id id es in if e.owner_id == owner_id && e.id == id then 1 else rest

there_absent :
    (owner_id id k : Uuid) (es : List EntityRow)
    → any (λ (x : EntityRow). x.id == k) es ≡ false
    → (k == id) ≡ true
    → there owner_id id es ≡ 0
unfolding there
there_absent owner_id id k [] h e = refl
there_absent owner_id id k (x ∷ es) h e = ground (arith, there_absent owner_id id k es)

there_bound : (owner_id id : Uuid) (es : List EntityRow) → there owner_id id es ≤ 1
unfolding there
there_bound owner_id id [] = omega arith
there_bound owner_id id (e ∷ es) = ground (arith, there_bound owner_id id es)

there-HasEntity :
    (owner_id id : Uuid) (es : List EntityRow) → 1 ≤ there owner_id id es → HasEntity es owner_id id
unfolding there
there-HasEntity owner_id id [] h = absurd (omega arith)
there-HasEntity owner_id id (e ∷ es) h = elim (Bool-cases (e.owner_id == owner_id && e.id == id)) [
  | inl hit ↦ inl (ground arith)
  | inr miss ↦ inr (there-HasEntity owner_id id es (ground arith))
]

count_entities_le :
    (owner_id s o : Uuid) (es : List EntityRow)
    → UniqueEntities es
    → count_entities owner_id (s ∷ o ∷ []) es ≤ there owner_id s es + there owner_id o es
unfolding count_entities count_where elem there
count_entities_le owner_id s o [] u = omega arith
count_entities_le owner_id s o (e ∷ es) u =
    let rest : count_entities owner_id (s ∷ o ∷ []) es ≤ there owner_id s es + there owner_id o es =
      count_entities_le owner_id s o es u.1 in
    let at_s : (e.id == s) ≡ true → there owner_id s es ≡ 0 = there_absent owner_id s e.id es u.0 in
    let at_o : (e.id == o) ≡ true → there owner_id o es ≡ 0 = there_absent owner_id o e.id es u.0 in
    ground arith

-- Two entities of the owner that are counted are the two that were asked for.
pub count_entities-HasEntity :
    (owner_id s o : Uuid) (es : List EntityRow)
    → UniqueEntities es
    → count_entities owner_id (s ∷ o ∷ []) es ≡ 2
    → HasEntity es owner_id s × HasEntity es owner_id o
count_entities-HasEntity owner_id s o es u h =
    let le = count_entities_le owner_id s o es u in
    let bs = there_bound owner_id s es in
    let bo = there_bound owner_id o es in
    (there-HasEntity owner_id s es (omega arith), there-HasEntity owner_id o es (omega arith))
