-- ===== src/Retrieval/Queries.antt =====
-- What each query of a search finds.
use personal_knowledge_os.Prelude.{
  ℕ, ◌≡◌, refl, Bool, true, List, [], ◌∷◌, Option, none, some, arith, All, Any, Any-imp, ◌==◌, find,
  select,
}
use personal_knowledge_os.Text.{Text}
use personal_knowledge_os.Values.{Uuid, Vector, F64}
use personal_knowledge_os.Models.{RankedChunk, RankedMemory}
use personal_knowledge_os.Db.Libs.{Libs}
use personal_knowledge_os.Db.Tables.{Db, SourceRow, ChunkRow, MemoryRow, MemoryStatus, active}
use personal_knowledge_os.Db.Sql.{All-order_by}
use personal_knowledge_os.Db.Order.{All-take, select-All, All-map}
use personal_knowledge_os.Db.Tx.{bind_ok, ensure_lem, ensure as ensure_tx, query}
use personal_knowledge_os.Db.Finds.{Finds, query-Finds, query_lem}
use personal_knowledge_os.Storage.Memories.Bodies.{is_active}
use personal_knowledge_os.Storage.Search.{
  Ranks, chunk_from_row, joined, join_sources, chunk_matches, search_chunks_lexical_tx,
  search_chunks_lexical, search_chunks_dense, lexical_chunks, dense_chunks, lexical_memory_rows,
  dense_memory_rows, is_embedded_chunk, memory_matches, memory_rank_from_row,
  search_memories_lexical, search_memories_lexical_tx, is_embedded_memory, search_memories_dense,
  accepts,
}

-- A chunk of the owner.
abbrev pub ChunkOf : Db → Uuid → Uuid → Type 0
ChunkOf db owner_id id = Any (λ (c : ChunkRow). (c.id ≡ id) × (c.owner_id ≡ owner_id)) db.chunks

-- An active memory of the owner.
abbrev pub MemoryOf : Db → Uuid → Uuid → Type 0
MemoryOf db owner_id id =
    Any (λ (m : MemoryRow). (m.id ≡ id) × (m.owner_id ≡ owner_id) × (m.status ≡ active)) db.memories

is_active_lem : (s : MemoryStatus) → is_active s ≡ true → s ≡ active
is_active_lem active h = refl
is_active_lem _ h = cc

module _ (db : Db) (owner_id : Uuid) where
  joined-All :
      (score : F64) (c : ChunkRow) (o : Option SourceRow) (rest : List RankedChunk)
      → ChunkOf db owner_id c.id
      → All (λ (h : RankedChunk). ChunkOf db owner_id h.chunk_id) rest
      → All (λ (h : RankedChunk). ChunkOf db owner_id h.chunk_id) (joined score c o rest)
  unfolding joined chunk_from_row
  joined-All score c none rest p h = h
  joined-All score c (some s) rest p h = (p, h)

  join_sources-All :
      (score : ChunkRow → F64) (sources : List SourceRow) (cs : List ChunkRow)
      → All (λ (c : ChunkRow). ChunkOf db owner_id c.id) cs
      → All (λ (h : RankedChunk). ChunkOf db owner_id h.chunk_id) (join_sources score sources cs)
  unfolding join_sources
  join_sources-All score sources [] h = tt
  join_sources-All score sources (c ∷ cs) h =
      joined-All (score c) c (find (λ (s : SourceRow). s.id == c.source_id) sources)
        (join_sources score sources cs) h.0 (join_sources-All score sources cs h.1)

  chunks-All :
      (p : ChunkRow → Bool)
      → ((c : ChunkRow) → p c ≡ true → c.owner_id ≡ owner_id)
      → All (λ (c : ChunkRow). ChunkOf db owner_id c.id) (select p db.chunks)
  chunks-All p mine =
      select-All (λ (c : ChunkRow). ChunkOf db owner_id c.id) p db.chunks
        (λ c there hit.
          Any-imp (λ (x : ChunkRow). x ≡ c)
            (λ (x : ChunkRow). (x.id ≡ c.id) × (x.owner_id ≡ owner_id))
            (λ x e. rw e (refl, mine c hit)) db.chunks there)

  memories-All :
      (p : MemoryRow → Bool)
      → ((m : MemoryRow) → p m ≡ true → (m.owner_id ≡ owner_id) × (m.status ≡ active))
      → All (λ (m : MemoryRow). MemoryOf db owner_id m.id) (select p db.memories)
  memories-All p mine =
      select-All (λ (m : MemoryRow). MemoryOf db owner_id m.id) p db.memories
        (λ m there hit.
          Any-imp (λ (x : MemoryRow). x ≡ m)
            (λ (x : MemoryRow). (x.id ≡ m.id) × (x.owner_id ≡ owner_id) × (x.status ≡ active))
            (λ x e. rw e (refl, (mine m hit).0, (mine m hit).1)) db.memories there)

  chunk_matches_lem :
      (ranks : Ranks) (libs : Libs) (q : Text) (pg : Bool) (c : ChunkRow)
      → chunk_matches ranks libs owner_id q pg c ≡ true
      → c.owner_id ≡ owner_id
  unfolding chunk_matches
  chunk_matches_lem ranks libs q pg c h = ground arith

  memory_matches_lem :
      (ranks : Ranks) (libs : Libs) (q : Text) (pg : Bool) (m : MemoryRow)
      → memory_matches ranks libs owner_id q pg m ≡ true
      → (m.owner_id ≡ owner_id) × (m.status ≡ active)
  unfolding memory_matches
  memory_matches_lem ranks libs q pg m h = ground (arith, is_active_lem m.status)

  is_embedded_chunk_lem :
      (c : ChunkRow) → is_embedded_chunk owner_id c ≡ true → c.owner_id ≡ owner_id
  unfolding is_embedded_chunk
  is_embedded_chunk_lem c h = ground arith

  is_embedded_memory_lem :
      (m : MemoryRow)
      → is_embedded_memory owner_id m ≡ true
      → (m.owner_id ≡ owner_id) × (m.status ≡ active)
  unfolding is_embedded_memory
  is_embedded_memory_lem m h = ground (arith, is_active_lem m.status)

  lexical_chunks-All :
      (ranks : Ranks) (libs : Libs) (q : Text) (limit : ℕ) (pg : Bool)
      → All
          (λ (h : RankedChunk). ChunkOf db owner_id h.chunk_id)
          (lexical_chunks ranks libs owner_id q limit pg db)
  unfolding lexical_chunks
  lexical_chunks-All ranks libs q limit pg =
      All-take (λ x y. Unit) (λ (h : RankedChunk). ChunkOf db owner_id h.chunk_id) limit _
        (All-order_by (λ (h : RankedChunk). ChunkOf db owner_id h.chunk_id) _ _
          (join_sources-All _ db.sources _ (
            chunks-All (chunk_matches ranks libs owner_id q pg)
              (chunk_matches_lem ranks libs q pg))))

  dense_chunks-All :
      (ranks : Ranks) (vector : Vector) (limit : ℕ)
      → All
          (λ (h : RankedChunk). ChunkOf db owner_id h.chunk_id)
          (dense_chunks ranks owner_id vector limit db)
  unfolding dense_chunks
  dense_chunks-All ranks vector limit = join_sources-All _ db.sources _ (
      All-take (λ x y. Unit) (λ (c : ChunkRow). ChunkOf db owner_id c.id) limit _
        (All-order_by (λ (c : ChunkRow). ChunkOf db owner_id c.id) _ _
          (chunks-All (is_embedded_chunk owner_id) is_embedded_chunk_lem)))

  lexical_memory_rows-All :
      (ranks : Ranks) (libs : Libs) (q : Text) (limit : ℕ) (pg : Bool)
      → All
          (λ (h : RankedMemory). MemoryOf db owner_id h.memory_id)
          (lexical_memory_rows ranks libs owner_id q limit pg db)
  unfolding lexical_memory_rows memory_rank_from_row
  lexical_memory_rows-All ranks libs q limit pg =
      All-take (λ x y. Unit) (λ (h : RankedMemory). MemoryOf db owner_id h.memory_id) limit _
        (All-order_by (λ (h : RankedMemory). MemoryOf db owner_id h.memory_id) _ _
          (All-map (λ (m : MemoryRow). MemoryOf db owner_id m.id)
            (λ (h : RankedMemory). MemoryOf db owner_id h.memory_id) _ _ (λ m k. k)
            (memories-All (memory_matches ranks libs owner_id q pg)
              (memory_matches_lem ranks libs q pg))))

  dense_memory_rows-All :
      (ranks : Ranks) (vector : Vector) (limit : ℕ)
      → All
          (λ (h : RankedMemory). MemoryOf db owner_id h.memory_id)
          (dense_memory_rows ranks owner_id vector limit db)
  unfolding dense_memory_rows memory_rank_from_row
  dense_memory_rows-All ranks vector limit =
      All-map (λ (m : MemoryRow). MemoryOf db owner_id m.id)
        (λ (h : RankedMemory). MemoryOf db owner_id h.memory_id) _ _ (λ m k. k)
        (All-take (λ x y. Unit) (λ (m : MemoryRow). MemoryOf db owner_id m.id) limit _
          (All-order_by (λ (m : MemoryRow). MemoryOf db owner_id m.id) _ _
            (memories-All (is_embedded_memory owner_id) is_embedded_memory_lem)))

  pub search_chunks_lexical-Finds :
      (ranks : Ranks) (q : Text) (limit : ℕ) (pg : Bool)
      → Finds db
          (All (λ (h : RankedChunk). ChunkOf db owner_id h.chunk_id))
          (search_chunks_lexical ranks owner_id q limit pg)
  unfolding search_chunks_lexical search_chunks_lexical_tx
  search_chunks_lexical-Finds ranks q limit pg =
      query-Finds db (All (λ (h : RankedChunk). ChunkOf db owner_id h.chunk_id))
        (λ cx. search_chunks_lexical_tx ranks cx owner_id q limit pg)
        (λ cx a db' h. bind_ok (ensure_tx (accepts ranks q pg) _) _ db h λ u mid e k.
          let (accepted, same) = ensure_lem (accepts ranks q pg) _ db e in
          query_lem db (All (λ (h : RankedChunk). ChunkOf db owner_id h.chunk_id))
            (lexical_chunks ranks cx.libs owner_id q limit pg) mid same k
            (lexical_chunks-All ranks cx.libs q limit pg))

  pub search_chunks_dense-Finds :
      (ranks : Ranks) (vector : Vector) (limit : ℕ)
      → Finds db
          (All (λ (h : RankedChunk). ChunkOf db owner_id h.chunk_id))
          (search_chunks_dense ranks owner_id vector limit)
  unfolding search_chunks_dense
  search_chunks_dense-Finds ranks vector limit =
      query-Finds db (All (λ (h : RankedChunk). ChunkOf db owner_id h.chunk_id))
        (λ cx. query (dense_chunks ranks owner_id vector limit))
        (λ cx a db' h.
          query_lem db (All (λ (h : RankedChunk). ChunkOf db owner_id h.chunk_id))
            (dense_chunks ranks owner_id vector limit) db refl h
            (dense_chunks-All ranks vector limit))

  pub search_memories_lexical-Finds :
      (ranks : Ranks) (q : Text) (limit : ℕ) (pg : Bool)
      → Finds db
          (All (λ (h : RankedMemory). MemoryOf db owner_id h.memory_id))
          (search_memories_lexical ranks owner_id q limit pg)
  unfolding search_memories_lexical search_memories_lexical_tx
  search_memories_lexical-Finds ranks q limit pg =
      query-Finds db (All (λ (h : RankedMemory). MemoryOf db owner_id h.memory_id))
        (λ cx. search_memories_lexical_tx ranks cx owner_id q limit pg)
        (λ cx a db' h. bind_ok (ensure_tx (accepts ranks q pg) _) _ db h λ u mid e k.
          let (accepted, same) = ensure_lem (accepts ranks q pg) _ db e in
          query_lem db (All (λ (h : RankedMemory). MemoryOf db owner_id h.memory_id))
            (lexical_memory_rows ranks cx.libs owner_id q limit pg) mid same k
            (lexical_memory_rows-All ranks cx.libs q limit pg))

  pub search_memories_dense-Finds :
      (ranks : Ranks) (vector : Vector) (limit : ℕ)
      → Finds db
          (All (λ (h : RankedMemory). MemoryOf db owner_id h.memory_id))
          (search_memories_dense ranks owner_id vector limit)
  unfolding search_memories_dense
  search_memories_dense-Finds ranks vector limit =
      query-Finds db (All (λ (h : RankedMemory). MemoryOf db owner_id h.memory_id))
        (λ cx. query (dense_memory_rows ranks owner_id vector limit))
        (λ cx a db' h.
          query_lem db (All (λ (h : RankedMemory). MemoryOf db owner_id h.memory_id))
            (dense_memory_rows ranks owner_id vector limit) db refl h
            (dense_memory_rows-All ranks vector limit))
