-- ===== src/Storage/Graph.antt =====
-- src/storage_graph.rs: entities with their aliases, relations with the time in which they hold, and the
-- timeline of the sources. `Entities`,
-- `Relations` and `Timeline` have what each method runs inside its transaction.
pub mod Entities
pub mod Relations
pub mod Timeline
pub mod Ends
pub mod Invariant
pub mod Latest
pub mod Keeps
pub mod History
pub mod AsOf
use personal_knowledge_os.Prelude.{ℕ, ◌==◌, not, Bool, List, Option, none, some}
use personal_knowledge_os.Text.{Text, codes}
use personal_knowledge_os.Values.{Uuid, DateTime, Value, ℤ}
use personal_knowledge_os.AppError.{bad_request}
use personal_knowledge_os.Models.{EntityRecord, RelationRecord, EntityGraphResponse, TimelineItem}
use personal_knowledge_os.Db.Action.{Action, ◌>>=◌, ◌>>◌, pure, ensure, transaction}
use personal_knowledge_os.Storage.Memories.Bodies.{interval_ok}
use personal_knowledge_os.Storage.Graph.Entities.{create_entity_tx, get_entity_tx, list_entities_tx}
use personal_knowledge_os.Storage.Graph.Relations.{
  RelationInput, create_relation_tx, get_relation_tx, close_relation_tx, outgoing_tx, incoming_tx,
}
use personal_knowledge_os.Storage.Graph.Timeline.{list_timeline_tx}

-- `get_entity`
unfoldable pub get_entity : Uuid → Uuid → Action EntityRecord
get_entity owner_id id = transaction (λ cx. get_entity_tx cx owner_id id)

-- `create_entity`
unfoldable pub create_entity : Uuid → Text → Text → Value → List Text → Action EntityRecord
unfolding get_entity
create_entity owner_id entity_type canonical_name attributes aliases = do
  id ←
      transaction (λ cx. create_entity_tx cx owner_id entity_type canonical_name attributes aliases)
  get_entity owner_id id

-- `list_entities`
unfoldable pub list_entities : Uuid → Option Text → Option Text → ℤ → Action (List EntityRecord)
list_entities owner_id entity_type search limit =
    transaction (λ cx. list_entities_tx cx owner_id entity_type search limit)

-- `create_relation`
unfoldable pub create_relation : Uuid → RelationInput → Action RelationRecord
create_relation owner_id input = do
  ensure (not (input.subject_entity_id == input.object_entity_id))
      (bad_request (codes "subject_entity_id and object_entity_id must differ"))
  ensure (interval_ok input.valid_from input.valid_until)
      (bad_request (codes "valid_until must be greater than or equal to valid_from"))
  transaction (λ cx. create_relation_tx cx owner_id input)

-- `get_relation`
unfoldable pub get_relation : Uuid → Uuid → Action RelationRecord
get_relation owner_id id = transaction (λ cx. get_relation_tx owner_id id)

-- `close_relation`
unfoldable pub close_relation : Uuid → Uuid → DateTime → Action RelationRecord
close_relation owner_id id valid_until =
    transaction (λ cx. close_relation_tx cx owner_id id valid_until)

-- `get_entity_graph`: three statements outside of a transaction
unfoldable pub get_entity_graph : Uuid → Uuid → DateTime → Bool → Action EntityGraphResponse
unfolding get_entity
get_entity_graph owner_id id as_of include_historical = do
  entity ← get_entity owner_id id
  outgoing_rows ← transaction (λ cx. outgoing_tx cx owner_id id as_of include_historical)
  incoming_rows ← transaction (λ cx. incoming_tx cx owner_id id as_of include_historical)
  pure (record { entity = entity; outgoing = outgoing_rows; incoming = incoming_rows })

-- `list_timeline`
unfoldable pub list_timeline : Uuid → Option DateTime → ℤ → Action (List TimelineItem)
list_timeline owner_id before limit = transaction (λ cx. list_timeline_tx owner_id before limit)
