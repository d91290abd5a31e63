-- ===== src/Storage/Graph/Relations.antt =====
-- The statements on relations, and the bodies of their transactions.
use personal_knowledge_os.Prelude.{
  ℕ, Bool, true, false, ◌&&◌, ◌||◌, not, List, [], ◌∷◌, ◌++◌, Option, none, some, map, leb, ltb,
  ◌==◌, select, find, any,
}
use personal_knowledge_os.Text.{Text, codes}
use personal_knowledge_os.Values.{Uuid, DateTime, F32, Value, string, object, end, field, in_unit}
use personal_knowledge_os.AppError.{bad_request, conflict, not_found}
use personal_knowledge_os.Models.{RelationRecord}
use personal_knowledge_os.Db.Tables.{Db, SourceRow, EntityRow, RelationRow}
use personal_knowledge_os.Db.Sql.{update_where, count_where, order_by, elem, null_or, and_then}
use personal_knowledge_os.Db.Libs.{Libs}
use personal_knowledge_os.Db.Tx.{Tx, Context, ◌>>=◌, ◌>>◌, pure, query, execute, ensure, ok_or}
use personal_knowledge_os.Storage.Rows.{unique_violation, check_violation, insert_audit}
use personal_knowledge_os.Storage.Sources.{is_source}
use personal_knowledge_os.Storage.Memories.Bodies.{interval_ok, uuid_json}

pub record RelationInput : Type 0 where
  pub subject_entity_id : Uuid
  pub predicate : Text
  pub object_entity_id : Uuid
  pub valid_from : Option DateTime
  pub valid_until : Option DateTime
  pub confidence : F32
  pub source_id : Option Uuid

-- `SELECT count(*) FROM entities WHERE owner_id=$1 AND id=ANY($2)`
unfoldable pub count_entities : Uuid → List Uuid → List EntityRow → ℕ
unfolding elem
count_entities owner_id ids =
    count_where (λ (e : EntityRow). e.owner_id == owner_id && elem e.id ids)

-- `if let Some(source_id) = input.source_id`
unfoldable pub source_exists : Uuid → Option Uuid → List SourceRow → Bool
source_exists owner_id none rows = true
source_exists owner_id (some source_id) rows = any (is_source owner_id source_id) rows

-- the CHECK constraints of `relations`
unfoldable pub relation_check : RelationRow → Bool
relation_check r =
    in_unit r.confidence
    && not (r.subject_entity_id == r.object_entity_id)
    && interval_ok r.valid_from r.valid_until

-- `INSERT INTO relations`
unfoldable pub insert_relation : RelationRow → Tx (Unit {0})
insert_relation row = do
  ensure (relation_check row) check_violation
  rows ← query (λ (db : Db). db.relations)
  ensure (not (any (λ (r : RelationRow). r.id == row.id) rows)) unique_violation
  execute (λ (db : Db). record db { relations = db.relations ++ row ∷ [] })

unfoldable pub relation_row : DateTime → Uuid → Uuid → RelationInput → RelationRow
relation_row now id owner_id input = record {
  id = id;
  owner_id = owner_id;
  subject_entity_id = input.subject_entity_id;
  predicate = input.predicate;
  object_entity_id = input.object_entity_id;
  valid_from = input.valid_from;
  valid_until = input.valid_until;
  confidence = input.confidence;
  source_id = input.source_id;
  created_at = now;
}

-- `relation_from_row`
unfoldable pub relation_from_row : RelationRow → RelationRecord
relation_from_row r = record {
  id = r.id;
  subject_entity_id = r.subject_entity_id;
  predicate = r.predicate;
  object_entity_id = r.object_entity_id;
  valid_from = r.valid_from;
  valid_until = r.valid_until;
  confidence = r.confidence;
  source_id = r.source_id;
  created_at = r.created_at;
}

-- the details of "relation.created"
unfoldable pub relation_json : Libs → RelationInput → Value
relation_json libs input = object (
    field (codes "subject_entity_id") (string (libs.uuid_text input.subject_entity_id)) (
      field (codes "predicate") (string input.predicate) (
        field (codes "object_entity_id") (string (libs.uuid_text input.object_entity_id))
          (field (codes "source_id") (uuid_json libs input.source_id) end))))

-- `create_relation`, from BEGIN to COMMIT
unfoldable pub create_relation_tx : Context → Uuid → RelationInput → Tx RelationRecord
create_relation_tx cx owner_id input = do
  owned_entities ← query (λ (db : Db).
      count_entities owner_id (input.subject_entity_id ∷ input.object_entity_id ∷ []) db.entities)
  ensure (owned_entities == 2)
      (bad_request (codes "both relation entities must exist for the current owner"))
  exists ← query (λ (db : Db). source_exists owner_id input.source_id db.sources)
  ensure exists (bad_request (codes "relation source_id must exist for the current owner"))
  insert_relation (relation_row cx.now (cx.ids 0) owner_id input)
  insert_audit (cx.ids 1) owner_id (codes "relation.created") (codes "relation") (cx.ids 0)
      (relation_json cx.libs input)
  pure (relation_from_row (relation_row cx.now (cx.ids 0) owner_id input))

-- `WHERE owner_id=$1 AND id=$2`
unfoldable pub is_relation : Uuid → Uuid → RelationRow → Bool
is_relation owner_id id r = r.owner_id == owner_id && r.id == id

-- the SELECT of `get_relation`
unfoldable pub get_relation_tx : Uuid → Uuid → Tx RelationRecord
get_relation_tx owner_id id = do
  row ← query (λ (db : Db). find (is_relation owner_id id) db.relations)
  relation ← ok_or row (not_found (codes "relation"))
  pure (relation_from_row relation)

-- (valid_from IS NULL OR valid_from <= $t) AND (valid_until IS NULL OR valid_until > $t)
unfoldable pub holds_at : DateTime → RelationRow → Bool
holds_at t r =
    null_or (λ from. leb from t) r.valid_from && null_or (λ until. ltb t until) r.valid_until

-- the WHERE clause of `close_relation`
unfoldable pub may_close : Uuid → Uuid → DateTime → RelationRow → Bool
unfolding is_relation holds_at
may_close owner_id id valid_until r = is_relation owner_id id r && holds_at valid_until r

-- SET valid_until=$3
unfoldable pub closed_row : DateTime → RelationRow → RelationRow
closed_row valid_until r = record r { valid_until = some valid_until }

-- `close_relation`, from BEGIN to COMMIT
unfoldable pub close_relation_tx : Context → Uuid → Uuid → DateTime → Tx RelationRecord
close_relation_tx cx owner_id id valid_until = do
  row ← query (λ (db : Db). find (may_close owner_id id valid_until) db.relations)
  relation ← ok_or row (
      conflict
        (codes "relation must exist, be active at valid_until, and not end before valid_from"))
  execute (λ (db : Db). record db {
    relations =
        update_where (may_close owner_id id valid_until) (closed_row valid_until) db.relations;
  })
  insert_audit (cx.ids 0) owner_id (codes "relation.closed") (codes "relation") id
      (object (field (codes "valid_until") (string (cx.libs.time_text valid_until)) end))
  pure (relation_from_row (closed_row valid_until relation))

-- valid_from DESC NULLS LAST
abbrev pub from_first : Option DateTime → Option DateTime → Bool
from_first a none = true
from_first none (some t) = false
from_first (some s) (some t) = leb t s

-- ORDER BY predicate, valid_from DESC NULLS LAST, created_at DESC
unfoldable pub relation_first : Libs → RelationRow → RelationRow → Bool
relation_first libs a b =
    and_then (libs.sql_leb a.predicate b.predicate) (libs.sql_leb b.predicate a.predicate) (
      and_then (from_first a.valid_from b.valid_from) (from_first b.valid_from a.valid_from)
        (leb b.created_at a.created_at))

-- the rows of one direction, by the entity at the near end
unfoldable pub is_listed : (RelationRow → Uuid) → Uuid → Uuid → DateTime → Bool → RelationRow → Bool
unfolding holds_at
is_listed near owner_id id as_of include_historical r =
    r.owner_id == owner_id && near r == id && (include_historical || holds_at as_of r)

unfoldable pub relations_tx :
    (RelationRow → Uuid) → Context → Uuid → Uuid → DateTime → Bool → Tx (List RelationRecord)
unfolding is_listed relation_first
relations_tx near cx owner_id id as_of include_historical = query (λ (db : Db).
    map relation_from_row (
      order_by (relation_first cx.libs)
        (select (is_listed near owner_id id as_of include_historical) db.relations)))

-- the SELECTs of `get_entity_graph`
unfoldable pub outgoing_tx : Context → Uuid → Uuid → DateTime → Bool → Tx (List RelationRecord)
outgoing_tx = relations_tx (λ r. r.subject_entity_id)

unfoldable pub incoming_tx : Context → Uuid → Uuid → DateTime → Bool → Tx (List RelationRecord)
incoming_tx = relations_tx (λ r. r.object_entity_id)
