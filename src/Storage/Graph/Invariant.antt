-- ===== src/Storage/Graph/Invariant.antt =====
-- Relations join two entities of their owner and respect their CHECK constraints, whatever the graph
-- methods do.
use personal_knowledge_os.Prelude.{
  ℕ, ◌≡◌, refl, true, false, not, List, [], ◌∷◌, ◌++◌, Option, none, some, arith, All, All-imp,
  All-append, Any-append_left, any, ◌==◌, leb,
}
use personal_knowledge_os.Text.{Text}
use personal_knowledge_os.Values.{Uuid, DateTime, Value}
use personal_knowledge_os.AppError.{ok}
use personal_knowledge_os.Models.{RelationRecord}
use personal_knowledge_os.Db.Tables.{Db, EntityRow, RelationRow, empty_db}
use personal_knowledge_os.Db.Sql.{update_where, All-update_where, null_or}
use personal_knowledge_os.Db.Tx.{Context, bind_ok, ensure_lem, ensure}
use personal_knowledge_os.Db.Action.{Env, World, transaction, ◌>>◌, ensure as ensure_action}
use personal_knowledge_os.Db.Keeps.{Keeps, reads-Keeps, transaction-Keeps, bind-Keeps, ensure-Keeps}
use personal_knowledge_os.Storage.Rows.{insert_audit, add_audit}
use personal_knowledge_os.Storage.Memories.Bodies.{interval_ok}
use personal_knowledge_os.Storage.Graph.{get_entity, create_entity, create_relation, close_relation}
use personal_knowledge_os.Storage.Graph.Entities.{
  entity_row, entity_clashes, insert_entity, create_entity_tx, get_entity_tx,
}
use personal_knowledge_os.Storage.Graph.Ends.{
  HasEntity, UniqueEntities, UniqueEntities-append, count_entities-HasEntity,
}
use personal_knowledge_os.Storage.Graph.Relations.{
  RelationInput, relation_row, relation_check, count_entities, create_relation_tx, insert_relation,
  close_relation_tx, may_close, closed_row, holds_at, source_exists,
}

abbrev pub IsSoundRelation : List EntityRow → RelationRow → Type 0
IsSoundRelation entities r =
    (relation_check r ≡ true)
    × HasEntity entities r.owner_id r.subject_entity_id
    × HasEntity entities r.owner_id r.object_entity_id

abbrev pub IsSoundGraph : Db → Type 0
IsSoundGraph db = UniqueEntities db.entities × All (λ r. IsSoundRelation db.entities r) db.relations

no_clash :
    (lower : Text → Text) (row : EntityRow) (es : List EntityRow)
    → any (entity_clashes lower row) es ≡ false
    → any (λ (x : EntityRow). x.id == row.id) es ≡ false
unfolding entity_clashes
no_clash lower row [] h = refl
no_clash lower row (e ∷ es) h = ground (arith, no_clash lower row es)

insert_entity_lem :
    (lower : Text → Text) (row : EntityRow) (db : Db) {u : Unit} {db' : Db}
    → insert_entity lower row db ≡ ok (u, db')
    → (any (entity_clashes lower row) db.entities ≡ false)
      × (db' ≡ record db { entities = db.entities ++ row ∷ [] })
unfolding insert_entity
insert_entity_lem lower row db h = ground arith

-- More entities take none away.
IsSoundRelation-more :
    (es new : List EntityRow) (r : RelationRow)
    → IsSoundRelation es r
    → IsSoundRelation (es ++ new) r
IsSoundRelation-more es new r (check, s, o) = (
  check,
  Any-append_left (λ (e : EntityRow). (e.id ≡ r.subject_entity_id) × (e.owner_id ≡ r.owner_id)) es
      new s,
  Any-append_left (λ (e : EntityRow). (e.id ≡ r.object_entity_id) × (e.owner_id ≡ r.owner_id)) es
      new o,
)

create_entity_tx-IsSoundGraph :
    (cx : Context) (owner_id : Uuid) (entity_type canonical_name : Text) (attributes : Value)
    (aliases : List Text) (db : Db) (id : Uuid) (db' : Db)
    → IsSoundGraph db
    → create_entity_tx cx owner_id entity_type canonical_name attributes aliases db ≡ ok (id, db')
    → IsSoundGraph db'
unfolding create_entity_tx insert_audit add_audit entity_row
create_entity_tx-IsSoundGraph cx owner_id entity_type canonical_name attributes aliases db id db'
      (u, rels) h =
    bind_ok (insert_entity cx.libs.sql_lower row) _ db h λ _ mid e k.
      let (free, made) = insert_entity_lem cx.libs.sql_lower row db e in
      let entities : db'.entities ≡ db.entities ++ row ∷ [] = ground arith in
      let relations : db'.relations ≡ db.relations = ground arith in
      rw (entities, relations)
        (
          UniqueEntities-append db.entities row u (no_clash cx.libs.sql_lower row db.entities free),
          All-imp (IsSoundRelation db.entities) (IsSoundRelation (db.entities ++ row ∷ []))
              (IsSoundRelation-more db.entities (row ∷ [])) db.relations rels,
        )
  where
    row : EntityRow
    row = entity_row cx.now (cx.ids 0) owner_id entity_type canonical_name attributes

insert_relation_lem :
    (row : RelationRow) (db : Db) {u : Unit} {db' : Db}
    → insert_relation row db ≡ ok (u, db')
    → (relation_check row ≡ true) × (db' ≡ record db { relations = db.relations ++ row ∷ [] })
unfolding insert_relation
insert_relation_lem row db h = ground arith

create_relation_tx-IsSoundGraph :
    (cx : Context) (owner_id : Uuid) (input : RelationInput) (db : Db) (a : RelationRecord)
    (db' : Db)
    → IsSoundGraph db
    → create_relation_tx cx owner_id input db ≡ ok (a, db')
    → IsSoundGraph db'
unfolding create_relation_tx insert_audit add_audit relation_row
create_relation_tx-IsSoundGraph cx owner_id input db a db' (u, rels) h =
    bind_ok (ensure (owned == 2) _) _ db h λ u1 db1 e1 k1.
      bind_ok (ensure (source_exists owner_id input.source_id db1.sources) _) _ db1 k1
        λ u2 db2 e2 k2. bind_ok (insert_relation row) _ db2 k2 λ u3 db3 e3 k3.
          let (both, same1) = ensure_lem (owned == 2) _ db e1 in
          let (known, same2) =
            ensure_lem (source_exists owner_id input.source_id db1.sources) _ db1 e2 in
          let (check, made) = insert_relation_lem row db2 e3 in
          let entities : db'.entities ≡ db.entities = ground arith in
          let relations : db'.relations ≡ db.relations ++ row ∷ [] = ground arith in
          let (s, o) =
            count_entities-HasEntity owner_id input.subject_entity_id input.object_entity_id
              db.entities u (ground arith) in
          rw (entities, relations)
            (
              u,
              All-append (IsSoundRelation db.entities) db.relations (row ∷ []) rels
                  ((check, s, o), tt),
            )
  where
    owned : ℕ
    owned =
        count_entities owner_id (input.subject_entity_id ∷ input.object_entity_id ∷ []) db.entities

    row : RelationRow
    row = relation_row cx.now (cx.ids 0) owner_id input

pub close_relation_tx_lem :
    (cx : Context) (owner_id id : Uuid) (t : DateTime) (db : Db) {a : RelationRecord} {db' : Db}
    → close_relation_tx cx owner_id id t db ≡ ok (a, db')
    → (db'.entities ≡ db.entities)
      × (db'.relations ≡ update_where (may_close owner_id id t) (closed_row t) db.relations)
unfolding close_relation_tx insert_audit add_audit
close_relation_tx_lem cx owner_id id t db h = ground arith

closed_interval :
    (t : DateTime) (from : Option DateTime)
    → null_or (λ s. leb s t) from ≡ true
    → interval_ok from (some t) ≡ true
unfolding interval_ok
closed_interval t none h = refl
closed_interval t (some s) h = h

may_close_lem :
    (owner_id id : Uuid) (t : DateTime) (r : RelationRow)
    → may_close owner_id id t r ≡ true
    → null_or (λ s. leb s t) r.valid_from ≡ true
unfolding may_close holds_at
may_close_lem owner_id id t r h = ground arith

-- A relation that is closed while it holds keeps to its CHECK.
closed_row-IsSoundRelation :
    (owner_id id : Uuid) (t : DateTime) (es : List EntityRow) (r : RelationRow)
    → may_close owner_id id t r ≡ true
    → IsSoundRelation es r
    → IsSoundRelation es (closed_row t r)
unfolding relation_check closed_row
closed_row-IsSoundRelation owner_id id t es r hit (check, s, o) =
    let ends = closed_interval t r.valid_from (may_close_lem owner_id id t r hit) in
    (ground arith, s, o)

close_relation_tx-IsSoundGraph :
    (cx : Context) (owner_id id : Uuid) (t : DateTime) (db : Db) (a : RelationRecord) (db' : Db)
    → IsSoundGraph db
    → close_relation_tx cx owner_id id t db ≡ ok (a, db')
    → IsSoundGraph db'
close_relation_tx-IsSoundGraph cx owner_id id t db a db' (u, rels) h =
    let (entities, relations) = close_relation_tx_lem cx owner_id id t db h in
    rw (entities, relations)
      (
        u,
        All-update_where (IsSoundRelation db.entities) (may_close owner_id id t) (closed_row t)
            (closed_row-IsSoundRelation owner_id id t db.entities) db.relations rels,
      )

-- What the graph methods that write are asked.
pub data GraphChange : Type 0 where
  add_entity : Uuid → Text → Text → Value → List Text → GraphChange
  relate : Uuid → RelationInput → GraphChange
  close : Uuid → Uuid → DateTime → GraphChange

unfoldable pub change : GraphChange → Env → World → World
change (add_entity owner_id entity_type canonical_name attributes aliases) env w =
    (create_entity owner_id entity_type canonical_name attributes aliases env w).1
change (relate owner_id input) env w = (create_relation owner_id input env w).1
change (close owner_id id t) env w = (close_relation owner_id id t env w).1

unfoldable pub change_all : List GraphChange → Env → World → World
unfolding change
change_all [] env w = w
change_all (c ∷ cs) env w = change_all cs env (change c env w)

pub get_entity-Keeps : (P : Db → Type 0) (owner_id id : Uuid) → Keeps P (get_entity owner_id id)
unfolding get_entity get_entity_tx
get_entity-Keeps P owner_id id =
    reads-Keeps P (λ cx. get_entity_tx cx owner_id id) (λ cx db a db' h. ground arith)

change-IsSoundGraph :
    (c : GraphChange) (env : Env) (w : World) → IsSoundGraph w.db → IsSoundGraph (change c env w).db
unfolding change create_entity create_relation close_relation
change-IsSoundGraph (add_entity owner_id entity_type canonical_name attributes aliases) =
    bind-Keeps IsSoundGraph
      (transaction
        (λ cx. create_entity_tx cx owner_id entity_type canonical_name attributes aliases))
      (get_entity owner_id)
      (transaction-Keeps IsSoundGraph
        (λ cx. create_entity_tx cx owner_id entity_type canonical_name attributes aliases)
        (λ cx db id db' g h.
          create_entity_tx-IsSoundGraph cx owner_id entity_type canonical_name attributes aliases db
            id db' g h))
      (get_entity-Keeps IsSoundGraph owner_id)
change-IsSoundGraph (relate owner_id input) =
    bind-Keeps IsSoundGraph
      (ensure_action (not (input.subject_entity_id == input.object_entity_id)) _)
      (λ _.
        ensure_action (interval_ok input.valid_from input.valid_until) _
        >> transaction (λ cx. create_relation_tx cx owner_id input))
      (ensure-Keeps IsSoundGraph _ _)
      (λ _.
        bind-Keeps IsSoundGraph (ensure_action (interval_ok input.valid_from input.valid_until) _)
          (λ _. transaction (λ cx. create_relation_tx cx owner_id input))
          (ensure-Keeps IsSoundGraph _ _)
          (λ _.
            transaction-Keeps IsSoundGraph (λ cx. create_relation_tx cx owner_id input)
              (λ cx db a db' g h. create_relation_tx-IsSoundGraph cx owner_id input db a db' g h)))
change-IsSoundGraph (close owner_id id t) =
    transaction-Keeps IsSoundGraph (λ cx. close_relation_tx cx owner_id id t)
      (λ cx db a db' g h. close_relation_tx-IsSoundGraph cx owner_id id t db a db' g h)

change_all-from :
    (cs : List GraphChange) (env : Env) (w : World)
    → IsSoundGraph w.db
    → IsSoundGraph (change_all cs env w).db
unfolding change_all
change_all-from [] env w g = g
change_all-from (c ∷ cs) env w g =
    change_all-from cs env (change c env w) (change-IsSoundGraph c env w g)

-- Whatever entities and relations are created and closed from an empty database on, and wherever it fails:
-- no two entities have the same id; each relation has its two ends among the entities of its owner, they
-- differ, its confidence lies in the unit interval, and it does not end before it begins.
pub change_all-IsSoundGraph :
    (cs : List GraphChange) (env : Env)
    → IsSoundGraph (change_all cs env (record { db = empty_db; tick = 0 })).db
change_all-IsSoundGraph cs env =
    change_all-from cs env (record { db = empty_db; tick = 0 }) (tt, tt)
