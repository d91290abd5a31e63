-- ===== src/Storage/Graph/Timeline.antt =====
-- The SELECT of the timeline.
use personal_knowledge_os.Prelude.{Bool, ◌&&◌, List, Option, map, leb, ltb, ◌==◌, select, take}
use personal_knowledge_os.Text.{codes}
use personal_knowledge_os.Values.{Uuid, DateTime, ℤ, pos, negsuc}
use personal_knowledge_os.AppError.{database, database_error}
use personal_knowledge_os.Models.{TimelineItem}
use personal_knowledge_os.Db.Tables.{Db, SourceRow}
use personal_knowledge_os.Db.Sql.{order_by, coalesce, null_or, and_then}
use personal_knowledge_os.Db.Tx.{Tx, throw, query}

-- COALESCE(occurred_at,ingested_at)
abbrev pub time_of : SourceRow → DateTime
time_of r = coalesce r.occurred_at r.ingested_at

-- ORDER BY COALESCE(occurred_at,ingested_at) DESC, ingested_at DESC, id DESC
unfoldable pub source_first : SourceRow → SourceRow → Bool
source_first a b =
    and_then (leb (time_of b) (time_of a)) (leb (time_of a) (time_of b))
      (and_then (leb b.ingested_at a.ingested_at) (leb a.ingested_at b.ingested_at) (leb b.id a.id))

-- the WHERE clause of `list_timeline`
unfoldable pub is_before : Uuid → Option DateTime → SourceRow → Bool
is_before owner_id before r = r.owner_id == owner_id && null_or (λ t. ltb (time_of r) t) before

-- `timeline_from_row`, with `left(content,280)`
unfoldable pub timeline_from_row : SourceRow → TimelineItem
timeline_from_row r = record {
  source_id = r.id;
  kind = r.kind;
  title = r.title;
  occurred_at = r.occurred_at;
  ingested_at = r.ingested_at;
  preview = take 280 r.content;
}

-- the SELECT of `list_timeline`; a negative LIMIT is an error of the database (SQLSTATE 2201W)
unfoldable pub list_timeline_tx : Uuid → Option DateTime → ℤ → Tx (List TimelineItem)
unfolding source_first is_before timeline_from_row
list_timeline_tx owner_id before (negsuc n) = throw (database (database_error (codes "2201W")))
list_timeline_tx owner_id before (pos limit) = query (λ (db : Db).
    map timeline_from_row
      (take limit (order_by source_first (select (is_before owner_id before) db.sources))))
