-- ===== src/Tests/Graph.antt =====
-- Entities, relations and the timeline at concrete rows.
use personal_knowledge_os.Prelude.{ℕ, ◌≡◌, ◌<◌, ◌⊎◌, List, [], ◌∷◌, none, some, map, false}
use personal_knowledge_os.Text.{codes}
use personal_knowledge_os.Values.{object, end, f32_0_8, pos, DateTime}
use personal_knowledge_os.AppError.{AppError, ok, err}
use personal_knowledge_os.Models.{EntityGraphResponse, TimelineItem}
use personal_knowledge_os.Db.Tables.{EntityRow, RelationRow, empty_db}
use personal_knowledge_os.Db.Action.{World}
use personal_knowledge_os.Storage.Graph.{close_relation, get_entity_graph, list_timeline}
use personal_knowledge_os.Storage.Graph.Relations.{RelationInput, holds_at}
use personal_knowledge_os.Storage.Graph.Invariant.{
  GraphChange, add_entity, relate, close, change_all, IsSoundGraph, change_all-IsSoundGraph,
}
use personal_knowledge_os.Storage.Graph.History.{NoneHolds, close_relation_history}
use personal_knowledge_os.Storage.Graph.AsOf.{ShowsExactly, get_entity_graph_exact}
use personal_knowledge_os.Storage.Graph.Latest.{IsTimeline, list_timeline-IsTimeline}
use personal_knowledge_os.Tests.Setup.{env_alive, db_example, world_example}

abbrev entity_example : ℕ → EntityRow
entity_example id = record {
  id = id;
  owner_id = 1;
  entity_type = codes "tool";
  canonical_name = id ∷ [];
  attributes = object end;
  created_at = 1;
  updated_at = 1;
}

abbrev relation_example : RelationRow
relation_example = record {
  id = 60;
  owner_id = 1;
  subject_entity_id = 50;
  predicate = codes "uses";
  object_entity_id = 51;
  valid_from = some 10;
  valid_until = none;
  confidence = f32_0_8;
  source_id = none;
  created_at = 5;
}

abbrev graph_example : World
graph_example = record {
  db = record db_example {
    entities = entity_example 50 ∷ entity_example 51 ∷ [];
    relations = relation_example ∷ [];
  };
  tick = 0;
}

abbrev input_example : RelationInput
input_example = record {
  subject_entity_id = 100;
  predicate = codes "uses";
  object_entity_id = 120;
  valid_from = none;
  valid_until = none;
  confidence = f32_0_8;
  source_id = none;
}

abbrev changes_example : List GraphChange
changes_example =
    add_entity 1 (codes "tool") (codes "A") (object end) []
    ∷ add_entity 1 (codes "tool") (codes "B") (object end) (codes "b" ∷ [])
    ∷ relate 1 input_example
    ∷ close 1 140 2000
    ∷ []

change_all-IsSoundGraph_example :
    IsSoundGraph (change_all changes_example env_alive (record { db = empty_db; tick = 0 })).db
change_all-IsSoundGraph_example = change_all-IsSoundGraph changes_example env_alive

close_relation_history_example :
    let after = close_relation 1 60 20 env_alive graph_example in
    ((e : AppError) × (after.0 ≡ err e) × (after.1.db ≡ graph_example.db))
    ⊎ (((u : DateTime)
          → u < 20
          → map (holds_at u) after.1.db.relations ≡ map (holds_at u) graph_example.db.relations)
        × NoneHolds 1 60 20 after.1.db.relations)
close_relation_history_example = close_relation_history 1 60 20 env_alive graph_example

get_entity_graph_exact_example :
    let after = get_entity_graph 1 50 15 false env_alive graph_example in
    (after.1.db ≡ graph_example.db)
    × ((g : EntityGraphResponse)
        → after.0 ≡ ok g
        → ShowsExactly 1 50 15 false graph_example.db.relations g)
get_entity_graph_exact_example = get_entity_graph_exact 1 50 15 false env_alive graph_example

list_timeline-IsTimeline_example :
    let after = list_timeline 1 (some 100) (pos 1) env_alive world_example in
    (after.1.db ≡ world_example.db)
    × ((items : List TimelineItem)
        → after.0 ≡ ok items
        → IsTimeline world_example.db.sources 1 (some 100) 1 items)
list_timeline-IsTimeline_example = list_timeline-IsTimeline 1 (some 100) 1 env_alive world_example
