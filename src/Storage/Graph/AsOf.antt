-- ===== src/Storage/Graph/AsOf.antt =====
-- What the graph of an entity shows at a time: src/storage_graph.rs, `get_entity_graph`.
use personal_knowledge_os.Prelude.{
  ◌≡◌, ◌↔◌, refl, subst, ◌∙◌, ◌⊎◌, inl, inr, Bool, true, false, List, [], ◌∷◌, arith, Any, Any-imp,
  map, select,
}
use personal_knowledge_os.Values.{Uuid, DateTime}
use personal_knowledge_os.AppError.{Result, ok}
use personal_knowledge_os.Models.{RelationRecord, EntityRecord, EntityGraphResponse}
use personal_knowledge_os.Db.Tables.{Db, RelationRow}
use personal_knowledge_os.Db.Sql.{order_by, Any-order_by, Any-select, order_by-Any, select-Any}
use personal_knowledge_os.Db.Action.{Env, World, transaction_rule, transaction, pure, ◌>>=◌, Action}
use personal_knowledge_os.Storage.Graph.{get_entity, get_entity_graph}
use personal_knowledge_os.Db.Tx.{Context}
use personal_knowledge_os.Storage.Graph.Entities.{get_entity_tx}
use personal_knowledge_os.Storage.Graph.Relations.{
  holds_at, relation_from_row, is_listed, outgoing_tx, incoming_tx, relations_tx, relation_first,
}

-- A relation of the owner at this entity, that is asked for.
abbrev pub IsListed : (RelationRow → Uuid) → Uuid → Uuid → DateTime → Bool → RelationRow → Type 0
IsListed near owner_id id as_of include_historical r =
    (r.owner_id ≡ owner_id)
    × (near r ≡ id)
    × ((include_historical ≡ true) ⊎ (holds_at as_of r ≡ true))

-- The records are those of the listed rows.
abbrev pub ListsExactly :
    (RelationRow → Uuid)
    → Uuid
    → Uuid
    → DateTime
    → Bool
    → List RelationRow
    → List RelationRecord
    → Type 0
ListsExactly near owner_id id as_of include_historical rows records =
    (x : RelationRecord)
    → Any (λ y. y ≡ x) records
      ↔ Any
          (λ (r : RelationRow).
            (relation_from_row r ≡ x) × IsListed near owner_id id as_of include_historical r)
          rows

is_listed_iff :
    (near : RelationRow → Uuid) (owner_id id : Uuid) (as_of : DateTime) (include_historical : Bool)
    (r : RelationRow)
    → (is_listed near owner_id id as_of include_historical r ≡ true)
      ↔ IsListed near owner_id id as_of include_historical r
unfolding is_listed
is_listed_iff near owner_id id as_of true r = ground arith
is_listed_iff near owner_id id as_of false r = ground arith

map_iff :
    (x : RelationRecord) (rs : List RelationRow)
    → Any (λ y. y ≡ x) (map relation_from_row rs) ↔ Any (λ r. relation_from_row r ≡ x) rs
map_iff x [] = ((λ h. h), (λ h. h))
map_iff x (r ∷ rs) =
    let (forth, back) = map_iff x rs in
    (
      (λ h. elim h [ inl here ↦ inl here | inr later ↦ inr (forth later) ]),
      (λ h. elim h [ inl here ↦ inl here | inr later ↦ inr (back later) ]),
    )

relations_exact :
    (near : RelationRow → Uuid) (leq : RelationRow → RelationRow → Bool) (owner_id id : Uuid)
    (as_of : DateTime) (include_historical : Bool) (rows : List RelationRow)
    → ListsExactly near owner_id id as_of include_historical rows (
        map relation_from_row
          (order_by leq (select (is_listed near owner_id id as_of include_historical) rows)))
relations_exact near leq owner_id id as_of include_historical rows x = (sound, complete)
  where
    p : RelationRow → Bool
    p = is_listed near owner_id id as_of include_historical

    Is : RelationRow → Type 0
    Is r = relation_from_row r ≡ x

    sound :
        Any (λ y. y ≡ x) (map relation_from_row (order_by leq (select p rows)))
        → Any (λ r. Is r × IsListed near owner_id id as_of include_historical r) rows
    sound h =
        Any-imp (λ r. Is r × (p r ≡ true))
          (λ r. Is r × IsListed near owner_id id as_of include_historical r)
          (λ r q. (q.0, (is_listed_iff near owner_id id as_of include_historical r).0 q.1)) rows
          (Any-select Is p rows
            (Any-order_by Is leq (select p rows) ((map_iff x (order_by leq (select p rows))).0 h)))

    complete :
        Any (λ r. Is r × IsListed near owner_id id as_of include_historical r) rows
        → Any (λ y. y ≡ x) (map relation_from_row (order_by leq (select p rows)))
    complete h = (map_iff x (order_by leq (select p rows))).1 (
        order_by-Any Is leq (select p rows) (
          select-Any Is p rows (
            Any-imp (λ r. Is r × IsListed near owner_id id as_of include_historical r)
              (λ r. Is r × (p r ≡ true))
              (λ r q. (q.0, (is_listed_iff near owner_id id as_of include_historical r).1 q.1)) rows
              h)))

relations_tx_lem :
    (near : RelationRow → Uuid) (cx : Context) (owner_id id : Uuid) (as_of : DateTime)
    (include_historical : Bool) (db : Db) {records : List RelationRecord} {db' : Db}
    → relations_tx near cx owner_id id as_of include_historical db ≡ ok (records, db')
    → (db' ≡ db) × ListsExactly near owner_id id as_of include_historical db.relations records
unfolding relations_tx
relations_tx_lem near cx owner_id id as_of include_historical db {records} {db'} h =
    let same : db' ≡ db = ground arith in
    let rows : records
        ≡ map relation_from_row (
            order_by (relation_first cx.libs)
              (select (is_listed near owner_id id as_of include_historical) db.relations)) =
      ground arith in
    (
      same,
      rw rows (
          relations_exact near (relation_first cx.libs) owner_id id as_of include_historical
            db.relations),
    )

get_entity_tx_reads :
    (cx : Context) (owner_id id : Uuid) (db : Db) {entity : EntityRecord} {db' : Db}
    → get_entity_tx cx owner_id id db ≡ ok (entity, db')
    → db' ≡ db
unfolding get_entity_tx
get_entity_tx_reads cx owner_id id db h = ground arith

response :
    {a : EntityGraphResponse} (g : EntityGraphResponse)
    → ◌≡◌ {A = Result EntityGraphResponse} (ok a) (ok g)
    → a ≡ g
response g h = cc

-- What is shown of these relations.
abbrev pub ShowsExactly :
    Uuid → Uuid → DateTime → Bool → List RelationRow → EntityGraphResponse → Type 0
ShowsExactly owner_id id as_of include_historical rows g =
    ListsExactly (λ r. r.subject_entity_id) owner_id id as_of include_historical rows g.outgoing
    × ListsExactly (λ r. r.object_entity_id) owner_id id as_of include_historical rows g.incoming

-- The graph of an entity, if it is returned, shows exactly the relations of the owner from and to the
-- entity that hold at the time asked for, or all of them if history is included; nothing is changed.
pub get_entity_graph_exact :
    (owner_id id : Uuid) (as_of : DateTime) (include_historical : Bool) (env : Env) (w : World)
    → let after = get_entity_graph owner_id id as_of include_historical env w in
      (after.1.db ≡ w.db)
      × ((g : EntityGraphResponse)
          → after.0 ≡ ok g
          → ShowsExactly owner_id id as_of include_historical w.db.relations g)
unfolding get_entity_graph get_entity outgoing_tx incoming_tx
get_entity_graph_exact owner_id id as_of include_historical env w =
    transaction_rule After (λ cx. get_entity_tx cx owner_id id)
      (λ entity. out >>= λ outgoing. inc >>= λ incoming. shown entity outgoing incoming) env w
      (λ e. (refl, λ g h. cc))
      (λ entity db1 b1.
        transaction_rule After (λ cx. outgoing_tx cx owner_id id as_of include_historical)
          (λ outgoing. inc >>= λ incoming. shown entity outgoing incoming) env _
          (λ e. (get_entity_tx_reads _ owner_id id w.db b1, λ g h. cc))
          (λ outgoing db2 b2.
            transaction_rule After (λ cx. incoming_tx cx owner_id id as_of include_historical)
              (λ incoming. shown entity outgoing incoming) env _
              (λ e. (
                (relations_tx_lem (λ r. r.subject_entity_id) _ owner_id id as_of include_historical
                      db1 b2).0
                    ∙ get_entity_tx_reads _ owner_id id w.db b1,
                λ g h. cc,
              ))
              (λ incoming db3 b3.
                let e1 = get_entity_tx_reads _ owner_id id w.db b1 in
                let (e2, outs) =
                  relations_tx_lem (λ r. r.subject_entity_id) _ owner_id id as_of include_historical
                    db1 b2 in
                let (e3, ins) =
                  relations_tx_lem (λ r. r.object_entity_id) _ owner_id id as_of include_historical
                    db2 b3 in
                (
                  e3 ∙ e2 ∙ e1,
                  λ g h.
                      subst
                        (λ s. ShowsExactly owner_id id as_of include_historical w.db.relations s)
                        (response g h)
                        (
                          subst
                              (λ (d : Db).
                                ListsExactly (λ r. r.subject_entity_id) owner_id id as_of
                                  include_historical d.relations outgoing)
                              e1 outs,
                          subst
                              (λ (d : Db).
                                ListsExactly (λ r. r.object_entity_id) owner_id id as_of
                                  include_historical d.relations incoming)
                              (e2 ∙ e1) ins,
                        ),
                ))))
  where
    out : Action (List RelationRecord)
    out = transaction (λ cx. outgoing_tx cx owner_id id as_of include_historical)

    inc : Action (List RelationRecord)
    inc = transaction (λ cx. incoming_tx cx owner_id id as_of include_historical)

    shown : EntityRecord → List RelationRecord → List RelationRecord → Action EntityGraphResponse
    shown entity outgoing incoming =
        pure (record { entity = entity; outgoing = outgoing; incoming = incoming })

    After : Result EntityGraphResponse × World → Type 0
    After after =
        (after.1.db ≡ w.db)
        × ((g : EntityGraphResponse)
            → after.0 ≡ ok g
            → ShowsExactly owner_id id as_of include_historical w.db.relations g)
