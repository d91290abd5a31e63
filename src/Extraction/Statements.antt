-- ===== src/Extraction/Statements.antt =====
-- The SQL statements that src/services/memory_extraction.rs runs itself.
pub mod Keeps
pub mod Reinforcement
use personal_knowledge_os.Prelude.{
  ℕ, suc, ◌+◌, ◌&&◌, ◌||◌, Bool, true, false, List, [], ◌∷◌, Option, none, some, any, select, leb,
  ltb, ◌==◌, if◌then◌else◌,
}
use personal_knowledge_os.Text.{Text, text_eq}
use personal_knowledge_os.Values.{Uuid, DateTime}
use personal_knowledge_os.Db.Tables.{
  Db, MemoryRow, EvidenceRow, MemoryStatus, candidate, active, superseded, rejected, disputed,
}
use personal_knowledge_os.Db.Sql.{order_by}
use personal_knowledge_os.Db.Tx.{Tx, Context, ◌>>=◌, ◌>>◌, pure, query, execute}
use personal_knowledge_os.Db.Action.{Action, ◌>>=◌ as ◌then_by◌, transaction, pure as done}
use personal_knowledge_os.Storage.Memories.Bodies.{
  add_evidence, update_memories, is_active_memory, is_active, is_candidate,
}

abbrev pub is_space : ℕ → Bool
is_space c = c == b' '

unfoldable pub ltrim : Text → Text
ltrim [] = []
ltrim (c ∷ s) = if is_space c then ltrim s else c ∷ s

push_unless_space : ℕ → Text → Text
push_unless_space c [] = if is_space c then [] else c ∷ []
push_unless_space c (d ∷ s) = c ∷ d ∷ s

unfoldable pub rtrim : Text → Text
unfolding push_unless_space
rtrim [] = []
rtrim (c ∷ s) = push_unless_space c (rtrim s)

-- SQL's `btrim`, of spaces only
unfoldable pub btrim : Text → Text
unfolding ltrim rtrim
btrim s = rtrim (ltrim s)

-- the WHERE clause of `find_existing_memory`, by SQL's `lower`
unfoldable pub same_statement : (Text → Text) → Uuid → Text → MemoryRow → Bool
unfolding btrim
same_statement sql_lower owner_id statement r =
    r.owner_id == owner_id
    && (is_active r.status || is_candidate r.status)
    && text_eq (sql_lower (btrim r.statement)) (sql_lower (btrim statement))

-- CASE status WHEN 'active' THEN 0 ELSE 1 END
abbrev pub status_rank : MemoryStatus → ℕ
status_rank active = 0
status_rank _ = 1

-- ORDER BY CASE …, updated_at DESC
abbrev pub comes_first : MemoryRow → MemoryRow → Bool
comes_first a b =
    ltb (status_rank a.status) (status_rank b.status)
    || status_rank a.status == status_rank b.status && leb b.updated_at a.updated_at

-- LIMIT 1 and `fetch_optional`
abbrev pub first_row : List MemoryRow → Option (Uuid × MemoryStatus)
first_row [] = none
first_row (r ∷ _) = some (r.id, r.status)

unfoldable pub find_existing_memory_tx : Context → Uuid → Text → Tx (Option (Uuid × MemoryStatus))
unfolding same_statement
find_existing_memory_tx cx owner_id statement = query (λ (db : Db). first_row (
    order_by comes_first
      (select (same_statement cx.libs.sql_lower owner_id statement) db.memories)))

-- `find_existing_memory`
unfoldable pub find_existing_memory : Uuid → Text → Action (Option (Uuid × MemoryStatus))
find_existing_memory owner_id statement =
    transaction (λ cx. find_existing_memory_tx cx owner_id statement)

-- whether the memory cites the source
unfoldable pub cites : Uuid → Uuid → List EvidenceRow → Bool
cites memory_id source_id rows =
    any (λ (e : EvidenceRow). e.memory_id == memory_id && e.source_id == source_id) rows

-- INSERT INTO memory_evidence … ON CONFLICT DO NOTHING, and the rows affected
unfoldable pub insert_evidence_tx : Uuid → Uuid → Tx ℕ
insert_evidence_tx memory_id source_id = do
  there ← query (λ (db : Db). cites memory_id source_id db.memory_evidence)
  execute (λ (db : Db). record db {
    memory_evidence = add_evidence memory_id source_id db.memory_evidence;
  })
  pure (if there then 0 else 1)

-- SET recurrence_count=recurrence_count+1, updated_at=now()
unfoldable pub reinforced_row : DateTime → MemoryRow → MemoryRow
reinforced_row now r = record r { recurrence_count = suc r.recurrence_count; updated_at = now }

unfoldable pub reinforce_tx : Context → Uuid → Uuid → Tx (Unit {0})
reinforce_tx cx owner_id memory_id = do
  update_memories (is_active_memory owner_id memory_id) (reinforced_row cx.now)
  pure tt

-- `if inserted.rows_affected() == 1`
unfoldable pub count_recurrence : Uuid → Uuid → Bool → Action (Unit {0})
count_recurrence owner_id memory_id true = transaction (λ cx. reinforce_tx cx owner_id memory_id)
count_recurrence owner_id memory_id false = done tt

-- `reinforce_existing_memory`: two statements outside of a transaction
unfoldable pub reinforce_existing_memory : Uuid → Uuid → Uuid → Action (Unit {0})
unfolding count_recurrence
reinforce_existing_memory owner_id memory_id source_id =
    transaction (λ cx. insert_evidence_tx memory_id source_id) then_by λ inserted.
    count_recurrence owner_id memory_id (inserted == 1)

-- SELECT EXISTS(… status='active')
unfoldable pub is_active_tx : Uuid → Uuid → Tx Bool
is_active_tx owner_id id = query (λ (db : Db). any (is_active_memory owner_id id) db.memories)

-- `active.then_some(id)`
abbrev pub then_some : Uuid → Bool → Option Uuid
then_some id true = some id
then_some id false = none

abbrev pub resolve_parsed : Uuid → Option Uuid → Action (Option Uuid)
resolve_parsed owner_id none = done none
resolve_parsed owner_id (some id) =
    transaction (λ cx. is_active_tx owner_id id) then_by λ found. done (then_some id found)

-- `resolve_supersedes`
unfoldable pub resolve_supersedes : Uuid → Option Text → Action (Option Uuid)
resolve_supersedes owner_id none = done none
resolve_supersedes owner_id (some text) =
    λ env. resolve_parsed owner_id (env.libs.uuid_parse text) env
