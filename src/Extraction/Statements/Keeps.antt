-- ===== src/Extraction/Statements/Keeps.antt =====
-- What the extraction reads leaves the tables alone, and what it asks of the model too.
use personal_knowledge_os.Prelude.{ℕ, ◌≡◌, Bool, List, Option, none, some, arith}
use personal_knowledge_os.Text.{Text}
use personal_knowledge_os.Values.{Uuid, ℤ, pos, negsuc}
use personal_knowledge_os.AppError.{ok}
use personal_knowledge_os.Models.{SourceRecord, MemoryRecord}
use personal_knowledge_os.Db.Tables.{Db, MemoryStatus}
use personal_knowledge_os.Db.Tx.{Context}
use personal_knowledge_os.Db.Action.{transaction, pure}
use personal_knowledge_os.Db.Keeps.{Keeps, reads-Keeps, bind-Keeps}
use personal_knowledge_os.Services.{Services}
use personal_knowledge_os.Storage.Sources.{get_source_tx}
use personal_knowledge_os.Storage.Memories.{list_memories}
use personal_knowledge_os.Storage.Memories.Bodies.{add_evidence, list_memories_tx}
use personal_knowledge_os.Extraction.Client.{extract, extract_with}
use personal_knowledge_os.Extraction.Client.Prompt.{MemoryExtractionClient}
use personal_knowledge_os.Extraction.Statements.{
  find_existing_memory_tx, insert_evidence_tx, resolve_supersedes, resolve_parsed, is_active_tx,
  then_some,
}

pub get_source_tx_reads :
    (owner_id id : Uuid) (db : Db) (a : SourceRecord) (db' : Db)
    → get_source_tx owner_id id db ≡ ok (a, db')
    → db' ≡ db
unfolding get_source_tx
get_source_tx_reads owner_id id db a db' h = ground arith

pub list_memories_tx_reads :
    (owner_id : Uuid) (status : Option Text) (limit : ℤ) (db : Db) (a : List MemoryRecord)
    (db' : Db)
    → list_memories_tx owner_id status limit db ≡ ok (a, db')
    → db' ≡ db
unfolding list_memories_tx
list_memories_tx_reads owner_id status (pos limit) db a db' h = ground arith
list_memories_tx_reads owner_id status (negsuc n) db a db' h = cc

pub list_memories-Keeps :
    (P : Db → Type 0) (owner_id : Uuid) (status : Option Text) (limit : ℤ)
    → Keeps P (list_memories owner_id status limit)
unfolding list_memories
list_memories-Keeps P owner_id status limit =
    reads-Keeps P (λ cx. list_memories_tx owner_id status limit)
      (λ cx. list_memories_tx_reads owner_id status limit)

pub find_existing_memory_tx_reads :
    (cx : Context) (owner_id : Uuid) (statement : Text) (db : Db) (a : Option (Uuid × MemoryStatus))
    (db' : Db)
    → find_existing_memory_tx cx owner_id statement db ≡ ok (a, db')
    → db' ≡ db
unfolding find_existing_memory_tx
find_existing_memory_tx_reads cx owner_id statement db a db' h = ground arith

pub is_active_tx_reads :
    (owner_id id : Uuid) (db : Db) (a : Bool) (db' : Db)
    → is_active_tx owner_id id db ≡ ok (a, db')
    → db' ≡ db
unfolding is_active_tx
is_active_tx_reads owner_id id db a db' h = ground arith

-- The model's answer changes no table.
pub extract-Keeps :
    (P : Db → Type 0) (services : Services) (client : MemoryExtractionClient)
    (source : SourceRecord) (active_memories : List MemoryRecord)
    → Keeps P (extract services client source active_memories)
unfolding extract extract_with
extract-Keeps P services client source active_memories =
    with_provider client.base_url client.api_key
  where
    with_provider :
        (base_url api_key : Option Text)
        → Keeps P (extract_with services client source active_memories base_url api_key)
    with_provider (some base_url) (some api_key) env w h = h
    with_provider (some base_url) none env w h = h
    with_provider none api_key env w h = h

pub resolve_supersedes-Keeps :
    (P : Db → Type 0) (owner_id : Uuid) (supersedes : Option Text)
    → Keeps P (resolve_supersedes owner_id supersedes)
unfolding resolve_supersedes
resolve_supersedes-Keeps P owner_id none = λ env w h. h
resolve_supersedes-Keeps P owner_id (some text) = λ env w h. go (env.libs.uuid_parse text) env w h
  where
    go : (o : Option Uuid) → Keeps P (resolve_parsed owner_id o)
    go none = λ env w h. h
    go (some id) =
        bind-Keeps P (transaction (λ cx. is_active_tx owner_id id))
          (λ found. pure (then_some id found))
          (reads-Keeps P (λ cx. is_active_tx owner_id id) (λ cx. is_active_tx_reads owner_id id))
          (λ found env w h. h)

pub insert_evidence_tx_lem :
    (memory_id source_id : Uuid) (db : Db) {n : ℕ} {db' : Db}
    → insert_evidence_tx memory_id source_id db ≡ ok (n, db')
    → db' ≡ record db { memory_evidence = add_evidence memory_id source_id db.memory_evidence }
unfolding insert_evidence_tx
insert_evidence_tx_lem memory_id source_id db h = ground arith
