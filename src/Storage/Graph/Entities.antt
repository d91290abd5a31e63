-- ===== src/Storage/Graph/Entities.antt =====
-- The statements on entities and their aliases, and the bodies of their transactions.
use personal_knowledge_os.Prelude.{
  Bool, ◌&&◌, ◌||◌, not, List, [], ◌∷◌, ◌++◌, Option, map, leb, ◌==◌, if◌then◌else◌, select, find,
  any, take,
}
use personal_knowledge_os.Text.{Text, codes, text_eq}
use personal_knowledge_os.Values.{Uuid, DateTime, Value, ℤ, pos, negsuc, string, object, end, field}
use personal_knowledge_os.AppError.{conflict, not_found, database, database_error}
use personal_knowledge_os.Models.{EntityRecord}
use personal_knowledge_os.Db.Tables.{Db, EntityRow, AliasRow}
use personal_knowledge_os.Db.Sql.{order_by, null_or, and_then}
use personal_knowledge_os.Db.Libs.{Libs}
use personal_knowledge_os.Db.Tx.{
  Tx, Context, ◌>>=◌, ◌>>◌, pure, throw, query, execute, ensure, ok_or,
}
use personal_knowledge_os.Storage.Rows.{insert_audit}

-- the primary key and `UNIQUE (owner_id, entity_type, lower(canonical_name))`
unfoldable pub entity_clashes : (Text → Text) → EntityRow → EntityRow → Bool
entity_clashes sql_lower row r =
    r.id == row.id
    || r.owner_id == row.owner_id
      && text_eq r.entity_type row.entity_type
      && text_eq (sql_lower r.canonical_name) (sql_lower row.canonical_name)

-- `INSERT INTO entities … ON CONFLICT DO NOTHING RETURNING id` that must insert
unfoldable pub insert_entity : (Text → Text) → EntityRow → Tx (Unit {0})
unfolding entity_clashes
insert_entity sql_lower row = do
  rows ← query (λ (db : Db). db.entities)
  ensure (not (any (entity_clashes sql_lower row) rows))
      (conflict (codes "entity with the same type and canonical_name already exists"))
  execute (λ (db : Db). record db { entities = db.entities ++ row ∷ [] })

-- `INSERT INTO entity_aliases … ON CONFLICT DO NOTHING`
unfoldable pub add_alias : Uuid → Text → List AliasRow → List AliasRow
add_alias id alias rows =
    if any (λ (a : AliasRow). a.entity_id == id && text_eq a.alias alias) rows
    then rows
    else rows ++ record { entity_id = id; alias = alias } ∷ []

-- `for alias in aliases`
unfoldable pub add_aliases : Uuid → List Text → List AliasRow → List AliasRow
unfolding add_alias
add_aliases id [] rows = rows
add_aliases id (alias ∷ aliases) rows = add_aliases id aliases (add_alias id alias rows)

unfoldable pub entity_row : DateTime → Uuid → Uuid → Text → Text → Value → EntityRow
entity_row now id owner_id entity_type canonical_name attributes = record {
  id = id;
  owner_id = owner_id;
  entity_type = entity_type;
  canonical_name = canonical_name;
  attributes = attributes;
  created_at = now;
  updated_at = now;
}

-- `create_entity`, from BEGIN to COMMIT
unfoldable pub create_entity_tx : Context → Uuid → Text → Text → Value → List Text → Tx Uuid
create_entity_tx cx owner_id entity_type canonical_name attributes aliases = do
  insert_entity cx.libs.sql_lower
      (entity_row cx.now (cx.ids 0) owner_id entity_type canonical_name attributes)
  execute
      (λ (db : Db). record db { entity_aliases = add_aliases (cx.ids 0) aliases db.entity_aliases })
  insert_audit (cx.ids 1) owner_id (codes "entity.created") (codes "entity") (cx.ids 0)
      (object (field (codes "entity_type") (string entity_type) end))
  pure (cx.ids 0)

-- the aliases of the LEFT JOIN
unfoldable pub aliases_of : Uuid → List AliasRow → List Text
aliases_of id rows =
    map (λ (a : AliasRow). a.alias) (select (λ (a : AliasRow). a.entity_id == id) rows)

-- `entity_from_row`, with `array_agg(ea.alias ORDER BY ea.alias)`
unfoldable pub entity_from_row : Libs → List AliasRow → EntityRow → EntityRecord
unfolding aliases_of
entity_from_row libs rows r = record {
  id = r.id;
  entity_type = r.entity_type;
  canonical_name = r.canonical_name;
  attributes = r.attributes;
  aliases = order_by libs.sql_leb (aliases_of r.id rows);
  created_at = r.created_at;
  updated_at = r.updated_at;
}

-- `WHERE e.owner_id=$1 AND e.id=$2`
unfoldable pub is_entity : Uuid → Uuid → EntityRow → Bool
is_entity owner_id id r = r.owner_id == owner_id && r.id == id

-- the SELECT of `get_entity`
unfoldable pub get_entity_tx : Context → Uuid → Uuid → Tx EntityRecord
get_entity_tx cx owner_id id = do
  row ← query (λ (db : Db). find (is_entity owner_id id) db.entities)
  entity ← ok_or row (not_found (codes "entity"))
  query (λ (db : Db). entity_from_row cx.libs db.entity_aliases entity)

-- the WHERE clause of `list_entities`
unfoldable pub entity_matches :
    Libs → List AliasRow → Uuid → Option Text → Option Text → EntityRow → Bool
unfolding aliases_of
entity_matches libs rows owner_id entity_type search r =
    r.owner_id == owner_id
    && null_or (text_eq r.entity_type) entity_type
    && null_or
        (λ q.
          libs.ilike r.canonical_name q || any (λ alias. libs.ilike alias q) (aliases_of r.id rows))
        search

-- ORDER BY lower(e.canonical_name), e.id
unfoldable pub entity_first : Libs → EntityRow → EntityRow → Bool
entity_first libs a b =
    and_then (libs.sql_leb (libs.sql_lower a.canonical_name) (libs.sql_lower b.canonical_name))
      (libs.sql_leb (libs.sql_lower b.canonical_name) (libs.sql_lower a.canonical_name))
      (leb a.id b.id)

-- the SELECT of `list_entities`; a negative LIMIT is an error of the database (SQLSTATE 2201W)
unfoldable pub list_entities_tx :
    Context → Uuid → Option Text → Option Text → ℤ → Tx (List EntityRecord)
unfolding entity_first entity_matches
list_entities_tx cx owner_id entity_type search (negsuc n) =
    throw (database (database_error (codes "2201W")))
list_entities_tx cx owner_id entity_type search (pos limit) = query (λ (db : Db).
    map (entity_from_row cx.libs db.entity_aliases) (
      take limit (
        order_by (entity_first cx.libs) (
          select (entity_matches cx.libs db.entity_aliases owner_id entity_type search)
            db.entities))))
