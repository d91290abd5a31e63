-- ===== src/Storage/Graph/History.antt =====
-- What closing a relation does to what holds at a time: src/storage_graph.rs, `close_relation`.
use personal_knowledge_os.Prelude.{
  ◌<◌, ◌≡◌, refl, ◌⊎◌, inl, inr, true, false, ◌&&◌, List, [], ◌∷◌, Option, none, some, arith, All,
  Bool-cases, leb, ltb, map,
}
use personal_knowledge_os.Values.{Uuid, DateTime}
use personal_knowledge_os.AppError.{AppError, Result, err}
use personal_knowledge_os.Models.{RelationRecord}
use personal_knowledge_os.Db.Tables.{RelationRow}
use personal_knowledge_os.Db.Sql.{update_where, null_or}
use personal_knowledge_os.Db.Action.{Env, World, last_rule, context}
use personal_knowledge_os.Storage.Graph.{close_relation}
use personal_knowledge_os.Storage.Graph.Invariant.{close_relation_tx_lem}
use personal_knowledge_os.Storage.Graph.Relations.{
  holds_at, is_relation, may_close, closed_row, close_relation_tx,
}

-- What held before a relation is closed at a time, holds before that time as it did.
holds_before :
    (t u : DateTime) (r : RelationRow)
    → u < t
    → holds_at t r ≡ true
    → holds_at u (closed_row t r) ≡ holds_at u r
unfolding holds_at closed_row
holds_before t u r h k = ends r.valid_until k
  where
    ends :
        (until : Option DateTime)
        → (null_or (λ from. leb from t) r.valid_from && null_or (λ end. ltb t end) until) ≡ true
        → (null_or (λ from. leb from u) r.valid_from && ltb u t)
          ≡ (null_or (λ from. leb from u) r.valid_from && null_or (λ end. ltb u end) until)
    ends none k = ground arith
    ends (some end) k = ground arith

may_close_lem :
    (owner_id id : Uuid) (t : DateTime) (r : RelationRow)
    → may_close owner_id id t r ≡ true
    → holds_at t r ≡ true
unfolding may_close
may_close_lem owner_id id t r h = ground arith

closed_before :
    (owner_id id : Uuid) (t u : DateTime) (rs : List RelationRow)
    → u < t
    → map (holds_at u) (update_where (may_close owner_id id t) (closed_row t) rs)
      ≡ map (holds_at u) rs
unfolding update_where
closed_before owner_id id t u [] h = refl
closed_before owner_id id t u (r ∷ rs) h = elim (Bool-cases (may_close owner_id id t r)) [
  | inl hit ↦
      rw
        (
          hit,
          holds_before t u r h (may_close_lem owner_id id t r hit),
          closed_before owner_id id t u rs h,
        )
        refl
  | inr miss ↦ rw (miss, closed_before owner_id id t u rs h) refl
]

-- No relation with this id holds at the time.
abbrev pub NoneHolds : Uuid → Uuid → DateTime → List RelationRow → Type 0
NoneHolds owner_id id t =
    All (λ (r : RelationRow). is_relation owner_id id r ≡ true → holds_at t r ≡ false)

closed_ends : (t : DateTime) (r : RelationRow) → holds_at t (closed_row t r) ≡ false
unfolding holds_at closed_row
closed_ends t r = elim (Bool-cases (null_or (λ from. leb from t) r.valid_from)) [
  | inl begun ↦ ground arith
  | inr unborn ↦ ground arith
]

not_closed :
    (owner_id id : Uuid) (t : DateTime) (r : RelationRow)
    → may_close owner_id id t r ≡ false
    → is_relation owner_id id r ≡ true
    → holds_at t r ≡ false
unfolding may_close
not_closed owner_id id t r miss is = ground arith

closed_at :
    (owner_id id : Uuid) (t : DateTime) (rs : List RelationRow)
    → NoneHolds owner_id id t (update_where (may_close owner_id id t) (closed_row t) rs)
unfolding update_where
closed_at owner_id id t [] = tt
closed_at owner_id id t (r ∷ rs) = elim (Bool-cases (may_close owner_id id t r)) [
  | inl hit ↦ rw hit ((λ is. closed_ends t r), closed_at owner_id id t rs)
  | inr miss ↦ rw miss ((λ is. not_closed owner_id id t r miss is), closed_at owner_id id t rs)
]

-- Closing a relation at a time either fails and changes nothing, or leaves what held at every earlier time
-- as it was, and no relation with that id holds at that time any more.
pub close_relation_history :
    (owner_id id : Uuid) (t : DateTime) (env : Env) (w : World)
    → let after = close_relation owner_id id t env w in
      ((e : AppError) × (after.0 ≡ err e) × (after.1.db ≡ w.db))
      ⊎ (((u : DateTime)
            → u < t
            → map (holds_at u) after.1.db.relations ≡ map (holds_at u) w.db.relations)
          × NoneHolds owner_id id t after.1.db.relations)
unfolding close_relation
close_relation_history owner_id id t env w =
    last_rule
      (λ (after : Result RelationRecord × World).
        ((e : AppError) × (after.0 ≡ err e) × (after.1.db ≡ w.db))
        ⊎ (((u : DateTime)
              → u < t
              → map (holds_at u) after.1.db.relations ≡ map (holds_at u) w.db.relations)
            × NoneHolds owner_id id t after.1.db.relations))
      (λ cx. close_relation_tx cx owner_id id t) env w (λ e. inl (e, refl, refl))
      (λ a db' body.
        let (_, relations) = close_relation_tx_lem (context env w.tick) owner_id id t w.db body in
        inr (
          rw relations (
            (λ u early. closed_before owner_id id t u w.db.relations early),
            closed_at owner_id id t w.db.relations,
          )))
