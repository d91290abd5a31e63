-- ===== src/Storage/Graph/Latest.antt =====
-- What the timeline shows.
use personal_knowledge_os.Prelude.{
  ℕ, suc, ◌≤◌, ◌≡◌, refl, ap, subst, inl, inr, true, false, List, [], ◌∷◌, Option, arith, All, Any,
  Any-imp, Bool-cases, ltb, map, select, take, length, length-take,
}
use personal_knowledge_os.Values.{Uuid, DateTime, pos}
use personal_knowledge_os.AppError.{Result, ok}
use personal_knowledge_os.Models.{TimelineItem}
use personal_knowledge_os.Db.Tables.{Db, SourceRow}
use personal_knowledge_os.Db.Sql.{order_by, null_or, coalesce, All-order_by}
use personal_knowledge_os.Db.Order.{Ordered, Ordered-take, Ordered-order_by, All-take}
use personal_knowledge_os.Db.Action.{Env, World, last_rule}
use personal_knowledge_os.Storage.Graph.{list_timeline}
use personal_knowledge_os.Storage.Graph.Timeline.{
  time_of, source_first, is_before, timeline_from_row, list_timeline_tx,
}

-- the time of an item
abbrev pub item_time : TimelineItem → DateTime
item_time item = coalesce item.occurred_at item.ingested_at

-- The item is of a source of the owner, from before the cut.
abbrev pub IsOfSource : List SourceRow → Uuid → Option DateTime → TimelineItem → Type 0
IsOfSource rows owner_id before item =
    (null_or (λ t. ltb (item_time item) t) before ≡ true)
    × Any (λ (r : SourceRow). (r.owner_id ≡ owner_id) × (timeline_from_row r ≡ item)) rows

-- Newest first.
abbrev pub NewestFirst : List TimelineItem → Type 0
NewestFirst = Ordered (λ a b. item_time b ≤ item_time a)

-- one source is at least as new as another
abbrev IsLatest : SourceRow → SourceRow → Type 0
IsLatest a b = time_of b ≤ time_of a

source_first-IsLatest : (a b : SourceRow) → source_first a b ≡ true → IsLatest a b
unfolding source_first
source_first-IsLatest a b h = ground arith

not_first-IsLatest : (a b : SourceRow) → source_first a b ≡ false → IsLatest b a
unfolding source_first
not_first-IsLatest a b h = ground arith

Ordered-map : (rs : List SourceRow) → Ordered IsLatest rs → NewestFirst (map timeline_from_row rs)
unfolding timeline_from_row
Ordered-map [] h = tt
Ordered-map (r ∷ rs) h = (older rs h.0, Ordered-map rs h.1)
  where
    older :
        (ss : List SourceRow)
        → All (IsLatest r) ss
        → All (λ b. item_time b ≤ item_time (timeline_from_row r)) (map timeline_from_row ss)
    older [] h = tt
    older (s ∷ ss) h = (h.0, older ss h.1)

length-map : (rs : List SourceRow) → length (map timeline_from_row rs) ≡ length rs
length-map [] = refl
length-map (r ∷ rs) = ap suc (length-map rs)

-- the rows that the SELECT reads
InTable : List SourceRow → Uuid → Option DateTime → SourceRow → Type 0
InTable rows owner_id before r =
    (is_before owner_id before r ≡ true) × Any (λ (s : SourceRow). s ≡ r) rows

All-select :
    (all rows : List SourceRow) (owner_id : Uuid) (before : Option DateTime)
    → ((r : SourceRow) → Any (λ s. s ≡ r) rows → Any (λ s. s ≡ r) all)
    → All (InTable all owner_id before) (select (is_before owner_id before) rows)
unfolding InTable
All-select all [] owner_id before inside = tt
All-select all (r ∷ rows) owner_id before inside = elim (Bool-cases (is_before owner_id before r)) [
  | inl hit ↦
      rw hit
        ((hit, inside r (inl refl)), All-select all rows owner_id before (λ s h. inside s (inr h)))
  | inr miss ↦ rw miss (All-select all rows owner_id before (λ s h. inside s (inr h)))
]

InTable-IsOfSource :
    (rows : List SourceRow) (owner_id : Uuid) (before : Option DateTime) (r : SourceRow)
    → InTable rows owner_id before r
    → IsOfSource rows owner_id before (timeline_from_row r)
unfolding InTable is_before timeline_from_row
InTable-IsOfSource rows owner_id before r (is, there) = (
  ground arith,
  Any-imp (λ (s : SourceRow). s ≡ r)
      (λ (s : SourceRow). (s.owner_id ≡ owner_id) × (timeline_from_row s ≡ timeline_from_row r))
      (λ s same. let mine : r.owner_id ≡ owner_id = ground arith in (rw same mine, rw same refl))
      rows there,
)

All-map :
    (P : SourceRow → Type 0) (Q : TimelineItem → Type 0) (rs : List SourceRow)
    → ((r : SourceRow) → P r → Q (timeline_from_row r))
    → All P rs
    → All Q (map timeline_from_row rs)
All-map P Q [] f h = tt
All-map P Q (r ∷ rs) f h = (f r h.0, All-map P Q rs f h.1)

-- A timeline of at most so many items, of sources of the owner from before the cut, newest first.
abbrev pub IsTimeline : List SourceRow → Uuid → Option DateTime → ℕ → List TimelineItem → Type 0
IsTimeline rows owner_id before n items =
    (length items ≤ n) × All (IsOfSource rows owner_id before) items × NewestFirst items

rows-IsTimeline :
    (rows : List SourceRow) (owner_id : Uuid) (before : Option DateTime) (n : ℕ)
    → IsTimeline rows owner_id before n (
        map timeline_from_row
          (take n (order_by source_first (select (is_before owner_id before) rows))))
rows-IsTimeline rows owner_id before n = (
  let mapped = length-map (take n sorted) in let taken = length-take n sorted in omega arith,
  All-map (InTable rows owner_id before) (IsOfSource rows owner_id before) (take n sorted)
      (InTable-IsOfSource rows owner_id before)
      (All-take IsLatest (InTable rows owner_id before) n sorted (
        All-order_by (InTable rows owner_id before) source_first
          (select (is_before owner_id before) rows)
          (All-select rows rows owner_id before (λ r h. h)))),
  Ordered-map (take n sorted) (
      Ordered-take IsLatest n sorted (
        Ordered-order_by IsLatest source_first source_first-IsLatest not_first-IsLatest
          (λ a b c p q. omega arith) (select (is_before owner_id before) rows))),
)
  where
    sorted : List SourceRow
    sorted = order_by source_first (select (is_before owner_id before) rows)

-- The timeline changes nothing and, if it is returned, has at most as many items as asked for, each of a
-- source of the owner from before the cut, newest first.
pub list_timeline-IsTimeline :
    (owner_id : Uuid) (before : Option DateTime) (n : ℕ) (env : Env) (w : World)
    → let after = list_timeline owner_id before (pos n) env w in
      (after.1.db ≡ w.db)
      × ((items : List TimelineItem)
          → after.0 ≡ ok items
          → IsTimeline w.db.sources owner_id before n items)
unfolding list_timeline list_timeline_tx
list_timeline-IsTimeline owner_id before n env w =
    last_rule
      (λ (after : Result (List TimelineItem) × World).
        (after.1.db ≡ w.db)
        × ((items : List TimelineItem)
            → after.0 ≡ ok items
            → IsTimeline w.db.sources owner_id before n items))
      (λ cx. list_timeline_tx owner_id before (pos n)) env w (λ e. (refl, λ items h. cc))
      (λ items db' body. (
        ground arith,
        λ items' h.
            subst (IsTimeline w.db.sources owner_id before n) (made items' body h)
              (rows-IsTimeline w.db.sources owner_id before n),
      ))
  where
    made :
        {xs ys : List TimelineItem} {db' : Db} (items' : List TimelineItem)
        → ◌≡◌ {A = Result (List TimelineItem × Db)} (ok (xs, w.db)) (ok (ys, db'))
        → ◌≡◌ {A = Result (List TimelineItem)} (ok ys) (ok items')
        → xs ≡ items'
    made items' e h = ground arith
