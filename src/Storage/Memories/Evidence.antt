-- ===== src/Storage/Memories/Evidence.antt =====
-- The check of the evidence in `create_memory_candidate`: it compares the number of stored sources that
-- are named with the number of names.
use personal_knowledge_os.Prelude.{
  suc, ◌+◌, ◌≤◌, ◌<◌, ◌≡◌, ◌≢◌, refl, ◌⊎◌, inl, inr, Bool, true, false, ◌&&◌, List, [], ◌∷◌, arith,
  All, Any, length, ◌==◌, Bool-cases, is_empty,
}
use personal_knowledge_os.Values.{Uuid}
use personal_knowledge_os.Text.{codes}
use personal_knowledge_os.AppError.{err, bad_request}
use personal_knowledge_os.Db.Tables.{SourceRow}
use personal_knowledge_os.Db.Sql.{count_where, elem}
use personal_knowledge_os.Db.Action.{Env, World, transaction}
use personal_knowledge_os.Storage.Memories.{create_memory_candidate}
use personal_knowledge_os.Storage.Memories.Bodies.{
  MemoryCandidateInput, count_sources, create_memory_candidate_tx,
}

-- The primary key of `sources`.
abbrev pub UniqueSources : List SourceRow → Type 0
UniqueSources [] = Unit
UniqueSources (r ∷ rs) = All (λ (s : SourceRow). s.id ≢ r.id) rs × UniqueSources rs

-- The source with this id belongs to the owner.
abbrev pub owns : Uuid → Uuid → SourceRow → Bool
owns owner_id id s = s.owner_id == owner_id && s.id == id

-- A primary key names one row at most.
count-owns_none :
    (owner_id id : Uuid) (rs : List SourceRow)
    → All (λ (s : SourceRow). s.id ≢ id) rs
    → count_where (owns owner_id id) rs ≡ 0
unfolding count_where
count-owns_none owner_id id [] h = refl
count-owns_none owner_id id (r ∷ rs) h = ground (arith, count-owns_none owner_id id rs h.1)

count-owns-le :
    (owner_id id : Uuid) (rs : List SourceRow)
    → UniqueSources rs
    → count_where (owns owner_id id) rs ≤ 1
unfolding count_where
count-owns-le owner_id id [] u = omega arith
count-owns-le owner_id id (r ∷ rs) u = elim (Bool-cases (owns owner_id id r)) [
  | inl hit ↦
      let e : r.id ≡ id = ground arith in
      ground (arith, count-owns_none owner_id id rs (rw e at u.0))
  | inr miss ↦ ground (arith, count-owns-le owner_id id rs u.1)
]

-- The count for one more name is at most the rows of that name more.
count_sources-cons :
    (owner_id id : Uuid) (ids : List Uuid) (rs : List SourceRow)
    → count_sources owner_id (id ∷ ids) rs
      ≤ count_where (owns owner_id id) rs + count_sources owner_id ids rs
unfolding count_sources count_where elem
count_sources-cons owner_id id ids [] = omega arith
count_sources-cons owner_id id ids (r ∷ rs) = ground (arith, count_sources-cons owner_id id ids rs)

count_sources-nil : (owner_id : Uuid) (rs : List SourceRow) → count_sources owner_id [] rs ≡ 0
unfolding count_sources count_where elem
count_sources-nil owner_id [] = refl
count_sources-nil owner_id (r ∷ rs) = ground (arith, count_sources-nil owner_id rs)

-- A name that is repeated adds nothing.
count_sources_again :
    (owner_id id : Uuid) (ids : List Uuid) (rs : List SourceRow)
    → elem id ids ≡ true
    → count_sources owner_id (id ∷ ids) rs ≡ count_sources owner_id ids rs
unfolding count_sources count_where elem
count_sources_again owner_id id ids [] h = refl
count_sources_again owner_id id ids (r ∷ rs) h = elim (Bool-cases (r.id == id)) [
  | inl same ↦
      let e : r.id ≡ id = ground arith in
      let there : elem r.id ids ≡ true = rw e h in
      ground (arith, count_sources_again owner_id id ids rs h)
  | inr other ↦ ground (arith, count_sources_again owner_id id ids rs h)
]

pub count_sources-le :
    (owner_id : Uuid) (ids : List Uuid) (rs : List SourceRow)
    → UniqueSources rs
    → count_sources owner_id ids rs ≤ length ids
count_sources-le owner_id [] rs u = omega (arith, count_sources-nil owner_id rs)
count_sources-le owner_id (id ∷ ids) rs u = omega (
  arith,
  count_sources-cons owner_id id ids rs,
  count-owns-le owner_id id rs u,
  count_sources-le owner_id ids rs u,
)

-- Some name stands twice.
abbrev pub HasRepeat : List Uuid → Type 0
HasRepeat [] = ⊥
HasRepeat (id ∷ ids) = (elem id ids ≡ true) ⊎ HasRepeat ids

-- Some name is not that of a source of the owner.
abbrev pub HasStranger : Uuid → List SourceRow → List Uuid → Type 0
HasStranger owner_id rs = Any (λ id. count_where (owns owner_id id) rs ≡ 0)

repeat-lt :
    (owner_id : Uuid) (ids : List Uuid) (rs : List SourceRow)
    → UniqueSources rs
    → HasRepeat ids
    → count_sources owner_id ids rs < length ids
repeat-lt owner_id [] rs u h = absurd h
repeat-lt owner_id (id ∷ ids) rs u (inl again) =
    omega (arith, count_sources_again owner_id id ids rs again, count_sources-le owner_id ids rs u)
repeat-lt owner_id (id ∷ ids) rs u (inr h) = omega (
  arith,
  count_sources-cons owner_id id ids rs,
  count-owns-le owner_id id rs u,
  repeat-lt owner_id ids rs u h,
)

stranger-lt :
    (owner_id : Uuid) (ids : List Uuid) (rs : List SourceRow)
    → UniqueSources rs
    → HasStranger owner_id rs ids
    → count_sources owner_id ids rs < length ids
stranger-lt owner_id [] rs u h = absurd h
stranger-lt owner_id (id ∷ ids) rs u (inl none_there) =
    omega (arith, count_sources-cons owner_id id ids rs, count_sources-le owner_id ids rs u)
stranger-lt owner_id (id ∷ ids) rs u (inr h) = omega (
  arith,
  count_sources-cons owner_id id ids rs,
  count-owns-le owner_id id rs u,
  stranger-lt owner_id ids rs u h,
)

-- With a database that answers, a candidate is refused, and nothing is stored, if some evidence is no
-- source of the owner; and so it is if a source is named twice, though every one exists.
pub create_memory_candidate_refuses :
    (owner_id : Uuid) (input : MemoryCandidateInput) (env : Env) (w : World)
    → UniqueSources w.db.sources
    → env.fails w.tick ≡ false
    → HasStranger owner_id w.db.sources input.evidence ⊎ HasRepeat input.evidence
    → create_memory_candidate owner_id input env w ≡ (
      err (bad_request (codes "one or more evidence sources do not exist")),
      record w { tick = suc w.tick },
    )
unfolding create_memory_candidate transaction create_memory_candidate_tx
create_memory_candidate_refuses owner_id input env w u alive bad =
    ground (arith, short bad, given input.evidence bad)
  where
    short :
        HasStranger owner_id w.db.sources input.evidence ⊎ HasRepeat input.evidence
        → count_sources owner_id input.evidence w.db.sources < length input.evidence
    short (inl h) = stranger-lt owner_id input.evidence w.db.sources u h
    short (inr h) = repeat-lt owner_id input.evidence w.db.sources u h

    given :
        (ids : List Uuid)
        → HasStranger owner_id w.db.sources ids ⊎ HasRepeat ids
        → is_empty ids ≡ false
    given [] (inl h) = absurd h
    given [] (inr h) = absurd h
    given (x ∷ xs) h = refl
