-- ===== src/Api/Graph/Handlers.antt =====
-- The handlers of the graph routes.
use personal_knowledge_os.Prelude.{
  Bool, true, ◌&&◌, not, List, Option, none, some, leb, length, is_empty, ◌==◌, if◌then◌else◌,
}
use personal_knowledge_os.Text.{Text, codes, trim}
use personal_knowledge_os.Values.{
  Uuid, DateTime, Value, null, object, end, is_finite, in_unit, f32_0_8, pos, clamp_ℤ,
}
use personal_knowledge_os.AppError.{Result, ok, err, bad_request}
use personal_knowledge_os.Models.{
  CreateEntityRequest, ListEntitiesQuery, EntityRecord, CreateRelationRequest, CloseRelationRequest,
  RelationRecord, EntityGraphQuery, EntityGraphResponse,
}
use personal_knowledge_os.Db.Sql.{coalesce}
use personal_knowledge_os.Db.Action.{Action, ◌>>=◌, ◌>>◌, pure, ensure, lift_result}
use personal_knowledge_os.Storage.Memories.Bodies.{interval_ok}
use personal_knowledge_os.Storage.Graph as StorageGraph
use personal_knowledge_os.Storage.Graph.Relations.{RelationInput}
use personal_knowledge_os.Api.Sources.{State}
use personal_knowledge_os.Api.Graph.{validate_nonempty, normalize_aliases}

-- the `attributes` of `create_entity`
unfoldable pub checked_attributes : Value → Result Value
checked_attributes null = ok (object end)
checked_attributes (object fields) = ok (object fields)
checked_attributes _ = err (bad_request (codes "attributes must be a JSON object"))

-- `create_entity`
unfoldable pub create_entity : State → CreateEntityRequest → Action EntityRecord
create_entity state request = do
  lift_result (validate_nonempty (codes "entity_type") (trim request.entity_type) 64 (codes "64"))
  lift_result
      (validate_nonempty (codes "canonical_name") (trim request.canonical_name) 256 (codes "256"))
  attributes ← lift_result (checked_attributes request.attributes)
  aliases ← λ env.
      lift_result
        (normalize_aliases env.libs.to_lowercase request.aliases (trim request.canonical_name)) env
  StorageGraph.create_entity state.owner_id (trim request.entity_type) (trim request.canonical_name)
      attributes aliases

-- `get_entity`
unfoldable pub get_entity : State → Uuid → Action EntityRecord
get_entity state id = StorageGraph.get_entity state.owner_id id

-- `.as_deref().map(str::trim).filter(|value| !value.is_empty())`
unfoldable pub given : Option Text → Option Text
given none = none
given (some v) = if is_empty (trim v) then none else some (trim v)

-- `if let Some(entity_type) = entity_type`
abbrev pub check_type : Option Text → Action (Unit {0})
check_type none = pure tt
check_type (some t) = lift_result (validate_nonempty (codes "entity_type") t 64 (codes "64"))

-- `if let Some(search) = search`, negated
abbrev pub search_ok : Option Text → Bool
search_ok none = true
search_ok (some q) = leb (length q) 256

-- `list_entities`
unfoldable pub list_entities : State → ListEntitiesQuery → Action (List EntityRecord)
unfolding given
list_entities state query = do
  check_type (given query.entity_type)
  ensure (search_ok (given query.query))
      (bad_request (codes "query must be at most 256 characters"))
  StorageGraph.list_entities state.owner_id (given query.entity_type) (given query.query)
      (pos (clamp_ℤ 1 200 (coalesce query.limit (pos 50))))

-- the input that `create_relation` builds
unfoldable pub relation_input : CreateRelationRequest → RelationInput
relation_input request = record {
  subject_entity_id = request.subject_entity_id;
  predicate = trim request.predicate;
  object_entity_id = request.object_entity_id;
  valid_from = request.valid_from;
  valid_until = request.valid_until;
  confidence = coalesce request.confidence f32_0_8;
  source_id = request.source_id;
}

-- `create_relation`
unfoldable pub create_relation : State → CreateRelationRequest → Action RelationRecord
create_relation state request = do
  lift_result (validate_nonempty (codes "predicate") (trim request.predicate) 128 (codes "128"))
  ensure (not (request.subject_entity_id == request.object_entity_id))
      (bad_request (codes "subject_entity_id and object_entity_id must differ"))
  ensure
      (is_finite (coalesce request.confidence f32_0_8)
        && in_unit (coalesce request.confidence f32_0_8))
      (bad_request (codes "confidence must be a finite number between 0 and 1"))
  ensure (interval_ok request.valid_from request.valid_until)
      (bad_request (codes "valid_until must be greater than or equal to valid_from"))
  StorageGraph.create_relation state.owner_id (relation_input request)

-- `get_relation`
unfoldable pub get_relation : State → Uuid → Action RelationRecord
get_relation state id = StorageGraph.get_relation state.owner_id id

-- `Utc::now`
abbrev pub utc_now : Action DateTime
utc_now env w = (ok (env.now w.tick), w)

-- `.unwrap_or_else(Utc::now)`
abbrev pub or_now : Option DateTime → Action DateTime
or_now none = utc_now
or_now (some t) = pure t

-- `close_relation`
unfoldable pub close_relation : State → Uuid → CloseRelationRequest → Action RelationRecord
close_relation state id request = do
  valid_until ← or_now request.valid_until
  StorageGraph.close_relation state.owner_id id valid_until

-- `get_entity_graph`
unfoldable pub get_entity_graph : State → Uuid → EntityGraphQuery → Action EntityGraphResponse
get_entity_graph state id query = do
  as_of ← or_now query.as_of
  StorageGraph.get_entity_graph state.owner_id id as_of query.include_historical
