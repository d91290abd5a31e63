-- ===== src/Api/Timeline.antt =====
-- src/api/timeline.rs: the handler of the timeline route.
use personal_knowledge_os.Prelude.{List}
use personal_knowledge_os.Values.{pos, clamp_ℤ}
use personal_knowledge_os.Models.{TimelineQuery, TimelineItem}
use personal_knowledge_os.Db.Sql.{coalesce}
use personal_knowledge_os.Db.Action.{Action}
use personal_knowledge_os.Storage.Graph as StorageGraph
use personal_knowledge_os.Api.Sources.{State}

-- `list_timeline`
unfoldable pub list_timeline : State → TimelineQuery → Action (List TimelineItem)
list_timeline state query =
    StorageGraph.list_timeline state.owner_id query.before
      (pos (clamp_ℤ 1 200 (coalesce query.limit (pos 50))))
