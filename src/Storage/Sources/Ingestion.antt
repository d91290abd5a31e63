-- ===== src/Storage/Sources/Ingestion.antt =====
-- What `ingest_source` of src/storage.rs writes.
use personal_knowledge_os.Prelude.{
  ℕ, suc, ◌+◌, ◌≡◌, refl, ap, ◌∙◌, ◌⊎◌, inl, inr, Bool, true, false, List, [], ◌∷◌, ◌++◌,
  append_assoc, append-nil, none, any, length, arith,
}
use personal_knowledge_os.Text.{Text, codes, text_eq_refl}
use personal_knowledge_os.Values.{Uuid, DateTime, Value, object, field, string, end}
use personal_knowledge_os.AppError.{AppError, Result, ok, err, conflict}
use personal_knowledge_os.Models.{SourceRecord}
use personal_knowledge_os.Chunking.{Chunk}
use personal_knowledge_os.Db.Tables.{Db, SourceRow, ChunkRow, JobRow, pending}
use personal_knowledge_os.Db.Tx.{Context, bind_ok, bind_err}
use personal_knowledge_os.Db.Action.{Env, World, context, last_rule, transaction_alive}
use personal_knowledge_os.Storage.Rows.{
  insert_job, insert_audit, insert_job_lem, add_job, add_audit, source_from_row, unique_violation,
}
use personal_knowledge_os.Storage.Sources.{
  SourceInput, source_check, map_conflict, insert_source, source_row, chunk_row, insert_chunk,
  id_payload, insert_chunks, schedule, ingest_source_tx, ingest_source, clashes,
  map_unique_conflict,
}

-- a job as INSERT leaves it
unfoldable pub new_job : DateTime → Uuid → Uuid → Text → Value → JobRow
new_job now id owner_id kind payload = record {
  id = id;
  owner_id = owner_id;
  kind = kind;
  payload = payload;
  status = pending;
  attempts = 0;
  available_at = now;
  lease_until = none;
  last_error = none;
  created_at = now;
  updated_at = now;
}

-- the rows of the chunks, each with its own new identifier
unfoldable pub chunk_rows : Context → Uuid → Uuid → ℕ → List Chunk → List ChunkRow
chunk_rows cx owner_id source_id n [] = []
chunk_rows cx owner_id source_id n (chunk ∷ chunks) =
    chunk_row (cx.ids n) owner_id source_id chunk ∷ chunk_rows cx owner_id source_id (n + 2) chunks

-- one job for each chunk, which names it
unfoldable pub embed_jobs : Context → Uuid → ℕ → List Chunk → List JobRow
unfolding new_job id_payload
embed_jobs cx owner_id n [] = []
embed_jobs cx owner_id n (chunk ∷ chunks) =
    new_job cx.now (cx.ids (n + 1)) owner_id (codes "embed_chunk")
      (id_payload cx.libs (codes "chunk_id") (cx.ids n))
    ∷ embed_jobs cx owner_id (n + 2) chunks

-- The tables after the loop.
abbrev pub chunked_db : Context → Uuid → Uuid → ℕ → List Chunk → Db → Db
chunked_db cx owner_id source_id n chunks db = record db {
  chunks = db.chunks ++ chunk_rows cx owner_id source_id n chunks;
  jobs = db.jobs ++ embed_jobs cx owner_id n chunks;
}

insert_chunk_lem :
    (row : ChunkRow) (db : Db) {u : Unit} {db' : Db}
    → insert_chunk row db ≡ ok (u, db')
    → db' ≡ record db { chunks = db.chunks ++ row ∷ [] }
unfolding insert_chunk
insert_chunk_lem row db h = ground arith

-- The loop appends the rows of the chunks and their jobs, and touches nothing else.
insert_chunks_lem :
    (cx : Context) (owner_id source_id : Uuid) (n : ℕ) (chunks : List Chunk) (db : Db) {m : ℕ}
    {db' : Db}
    → insert_chunks cx owner_id source_id n chunks db ≡ ok (m, db')
    → (m ≡ n + (length chunks + length chunks))
      × (db' ≡ chunked_db cx owner_id source_id n chunks db)
unfolding insert_chunks chunk_rows embed_jobs new_job add_job
insert_chunks_lem cx owner_id source_id n [] db h =
    (ground arith, ground (arith, append-nil db.chunks, append-nil db.jobs))
insert_chunks_lem cx owner_id source_id n (chunk ∷ chunks) db h =
    bind_ok (insert_chunk row) _ db h λ u1 mid e1 k1.
      bind_ok
        (insert_job cx.now (cx.ids (n + 1)) owner_id (codes "embed_chunk")
          (id_payload cx.libs (codes "chunk_id") (cx.ids n)))
        _ mid k1
        λ u2 mid2 e2 k2.
          let (count, rest) = insert_chunks_lem cx owner_id source_id (n + 2) chunks mid2 k2 in
          let first = insert_chunk_lem row db e1 in
          let second =
            insert_job_lem cx.now (cx.ids (n + 1)) owner_id (codes "embed_chunk")
              (id_payload cx.libs (codes "chunk_id") (cx.ids n)) mid e2 in
          let shift_chunks =
            append_assoc db.chunks (row ∷ []) (chunk_rows cx owner_id source_id (n + 2) chunks) in
          let shift_jobs =
            append_assoc db.jobs (job ∷ []) (embed_jobs cx owner_id (n + 2) chunks) in
          (omega arith, rest ∙ rw (second, first, shift_chunks, shift_jobs))
  where
    row : ChunkRow
    row = chunk_row (cx.ids n) owner_id source_id chunk

    job : JobRow
    job =
        new_job cx.now (cx.ids (n + 1)) owner_id (codes "embed_chunk")
          (id_payload cx.libs (codes "chunk_id") (cx.ids n))

-- the job of the extraction, if it is to be scheduled
abbrev pub extraction_jobs : Context → Uuid → Uuid → ℕ → Bool → List JobRow
extraction_jobs cx owner_id source_id n false = []
extraction_jobs cx owner_id source_id n true =
    new_job cx.now (cx.ids n) owner_id (codes "extract_memories")
      (id_payload cx.libs (codes "source_id") source_id)
    ∷ []

-- the first identifier after those of the chunks, and the one of the audit record
abbrev pub after_chunks : List Chunk → ℕ
after_chunks chunks = 1 + (length chunks + length chunks)

abbrev pub next_index : ℕ → Bool → ℕ
next_index n false = n
next_index n true = n + 1

-- The tables after an ingestion.
abbrev pub ingested_db : Context → Uuid → SourceInput → Db → Db
ingested_db cx owner_id input db =
    add_audit (cx.ids (next_index (after_chunks input.chunks) input.schedule_memory_extraction))
      owner_id (codes "source.ingested") (codes "source") (cx.ids 0)
      (object (field (codes "kind") (string input.kind) end))
      (record db {
        sources = db.sources ++ source_row cx.now (cx.ids 0) owner_id input ∷ [];
        chunks = db.chunks ++ chunk_rows cx owner_id (cx.ids 0) 1 input.chunks;
        jobs =
            (db.jobs ++ embed_jobs cx owner_id 1 input.chunks)
            ++ extraction_jobs cx owner_id (cx.ids 0) (after_chunks input.chunks)
                input.schedule_memory_extraction;
      })

schedule_lem :
    (cx : Context) (owner_id source_id : Uuid) (n : ℕ) (wanted : Bool) (db : Db) {m : ℕ} {db' : Db}
    → schedule cx owner_id source_id n wanted db ≡ ok (m, db')
    → (m ≡ next_index n wanted)
      × (db' ≡ record db { jobs = db.jobs ++ extraction_jobs cx owner_id source_id n wanted })
unfolding schedule insert_job add_job new_job
schedule_lem cx owner_id source_id n false db h = (ground arith, ground (arith, append-nil db.jobs))
schedule_lem cx owner_id source_id n true db h = (ground arith, ground arith)

insert_source_lem :
    (row : SourceRow) (db : Db) {u : Unit} {db' : Db}
    → map_conflict (insert_source row db) ≡ ok (u, db')
    → (source_check row ≡ true)
      × (any (clashes row) db.sources ≡ false)
      × (db' ≡ record db { sources = db.sources ++ row ∷ [] })
unfolding map_conflict insert_source
insert_source_lem row db h = ground arith

-- A successful ingestion passed the CHECK constraints, and wrote exactly its own rows.
ingest_source_tx_lem :
    (cx : Context) (owner_id : Uuid) (input : SourceInput) (db : Db) {r : SourceRecord} {db' : Db}
    → ingest_source_tx cx owner_id input db ≡ ok (r, db')
    → (source_check (source_row cx.now (cx.ids 0) owner_id input) ≡ true)
      × (r ≡ source_from_row (source_row cx.now (cx.ids 0) owner_id input))
      × (db' ≡ ingested_db cx owner_id input db)
unfolding ingest_source_tx insert_audit
ingest_source_tx_lem cx owner_id input db {db' = db'} h =
    bind_ok (λ db. map_conflict (insert_source row db)) _ db h
      λ u1 db1 e1 k1.
        bind_ok (insert_chunks cx owner_id (cx.ids 0) 1 input.chunks) _ db1 k1 λ n db2 e2 k2.
          bind_ok (schedule cx owner_id (cx.ids 0) n input.schedule_memory_extraction) _ db2 k2
            λ m db3 e3 k3.
              let (checked, free, one) = insert_source_lem row db e1 in
              let (next, two) = insert_chunks_lem cx owner_id (cx.ids 0) 1 input.chunks db1 e2 in
              let (last, three) =
                schedule_lem cx owner_id (cx.ids 0) n input.schedule_memory_extraction db2 e3 in
              let written : db' ≡ audited m db3 = ground arith in
              (checked, ground arith, written ∙ rw (last, three, two, one, next))
  where
    row : SourceRow
    row = source_row cx.now (cx.ids 0) owner_id input

    audited : ℕ → Db → Db
    audited m db =
        add_audit (cx.ids m) owner_id (codes "source.ingested") (codes "source") (cx.ids 0)
          (object (field (codes "kind") (string input.kind) end)) db

-- Whatever fails, `ingest_source` either gives an error and leaves the tables as they were, or returns
-- the record of the source and has written exactly: its row, a row for each chunk in their order, for
-- each chunk one job that names it, a job for the extraction if it was to be scheduled, and one audit
-- record.
pub ingest_source_exact :
    (owner_id : Uuid) (input : SourceInput) (env : Env) (w : World)
    → let (r, w') = ingest_source owner_id input env w in
      let cx = context env w.tick in
      ((e : AppError) × (r ≡ err e) × (w'.db ≡ w.db))
      ⊎ ((r ≡ ok (source_from_row (source_row cx.now (cx.ids 0) owner_id input)))
          × (w'.db ≡ ingested_db cx owner_id input w.db))
unfolding ingest_source
ingest_source_exact owner_id input env w =
    last_rule After (λ cx. ingest_source_tx cx owner_id input) env w (λ e. inl (e, refl, refl))
      (λ r db' body.
        let (checked, same, tables) =
          ingest_source_tx_lem (context env w.tick) owner_id input w.db body in
        inr (ap ok same, tables))
  where
    After : Result SourceRecord × World → Type 0
    After (r, w') =
        ((e : AppError) × (r ≡ err e) × (w'.db ≡ w.db))
        ⊎ ((r
              ≡ ok (
                  source_from_row (
                    source_row (context env w.tick).now ((context env w.tick).ids 0) owner_id
                      input)))
            × (w'.db ≡ ingested_db (context env w.tick) owner_id input w.db))

-- What a successful ingestion has passed, and the tables after it.
pub ingest_source_checked :
    (owner_id : Uuid) (input : SourceInput) (env : Env) (w : World) {r : SourceRecord}
    → (ingest_source owner_id input env w).0 ≡ ok r
    → (source_check (source_row (env.now w.tick) (env.fresh w.tick 0) owner_id input) ≡ true)
      × ((ingest_source owner_id input env w).1.db
          ≡ ingested_db (context env w.tick) owner_id input w.db)
unfolding ingest_source
ingest_source_checked owner_id input env w {r} =
    last_rule After (λ cx. ingest_source_tx cx owner_id input) env w (λ e h. cc)
      (λ r db' body h.
        let (checked, same, tables) =
          ingest_source_tx_lem (context env w.tick) owner_id input w.db body in
        (checked, tables))
  where
    After : Result SourceRecord × World → Type 0
    After (s, w') =
        s ≡ ok r
        → (source_check (source_row (env.now w.tick) (env.fresh w.tick 0) owner_id input) ≡ true)
          × (w'.db ≡ ingested_db (context env w.tick) owner_id input w.db)

insert_source_taken :
    (row : SourceRow) (db : Db)
    → source_check row ≡ true
    → any (clashes row) db.sources ≡ true
    → map_conflict (insert_source row db)
      ≡ err (conflict (codes "source external_id already exists"))
unfolding insert_source map_conflict map_unique_conflict unique_violation
insert_source_taken row db checked taken = rw (checked, taken, text_eq_refl (codes "23505"))

ingest_source_tx_taken :
    (cx : Context) (owner_id : Uuid) (input : SourceInput) (db : Db)
    → source_check (source_row cx.now (cx.ids 0) owner_id input) ≡ true
    → any (clashes (source_row cx.now (cx.ids 0) owner_id input)) db.sources ≡ true
    → ingest_source_tx cx owner_id input db
      ≡ err (conflict (codes "source external_id already exists"))
unfolding ingest_source_tx
ingest_source_tx_taken cx owner_id input db checked taken =
    bind_err (λ db. map_conflict (insert_source row db)) _ db
      (insert_source_taken row db checked taken)
  where
    row : SourceRow
    row = source_row cx.now (cx.ids 0) owner_id input

-- If the database answers, the row passes the CHECK constraints, and a source of the same owner, kind and
-- external id is there, ingestion is a conflict, and the tables stay as they were.
pub ingest_source_conflict :
    (owner_id : Uuid) (input : SourceInput) (env : Env) (w : World)
    → env.fails w.tick ≡ false
    → source_check (source_row (env.now w.tick) (env.fresh w.tick 0) owner_id input) ≡ true
    → any (clashes (source_row (env.now w.tick) (env.fresh w.tick 0) owner_id input)) w.db.sources
      ≡ true
    → ingest_source owner_id input env w
      ≡ (err (conflict (codes "source external_id already exists")), record w { tick = suc w.tick })
unfolding ingest_source
ingest_source_conflict owner_id input env w alive checked taken =
    transaction_alive (λ cx. ingest_source_tx cx owner_id input) env w alive
    ∙ rw (ingest_source_tx_taken (context env w.tick) owner_id input w.db checked taken)
