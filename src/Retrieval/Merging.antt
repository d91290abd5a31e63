-- ===== src/Retrieval/Merging.antt =====
-- What the merged map of a search holds.
use personal_knowledge_os.Prelude.{
  ℕ, suc, ◌≡◌, refl, ◌⊎◌, inl, inr, Bool, true, false, ◌&&◌, ◌||◌, List, [], ◌∷◌, Option, none,
  some, All, Bool-cases, ◌==◌, find,
}
use personal_knowledge_os.Text.{Text, codes, text_eq, trim}
use personal_knowledge_os.Values.{Uuid, Vector, F64}
use personal_knowledge_os.Models.{SearchRequest, RankedChunk, RankedMemory}
use personal_knowledge_os.Db.Tables.{Db}
use personal_knowledge_os.Db.Action.{Action, ◌>>=◌, pure}
use personal_knowledge_os.Storage.Search.{
  Ranks, search_chunks_lexical, search_chunks_dense, search_memories_lexical, search_memories_dense,
}
use personal_knowledge_os.Retrieval.{
  Acc, Searcher, chunk_acc, memory_acc, rank_lexical, rank_dense, upsert, merge_chunks,
  merge_memories, with_fallback, lexical_memories, dense_memories, Found, with_vector, dense,
  gather,
}
use personal_knowledge_os.Embedding.{EmbeddingClient, embed}
use personal_knowledge_os.Embedding as Embedding
use personal_knowledge_os.Extraction.Process.{AppState}
use personal_knowledge_os.Worker.Keeps.{embed-Keeps}
use personal_knowledge_os.Db.Finds.{Finds, pure-Finds, attempt-Finds, bind-Finds}
use personal_knowledge_os.Retrieval.Queries.{
  ChunkOf, MemoryOf, search_chunks_lexical-Finds, search_chunks_dense-Finds,
  search_memories_lexical-Finds, search_memories_dense-Finds,
}

-- A hit of the search: a chunk of the owner or, if memories are included, an active memory of the owner.
abbrev pub IsFound : Db → Uuid → Bool → Text → Uuid → Type 0
IsFound db owner_id include_memories kind id =
    ((kind ≡ codes "source_chunk") × ChunkOf db owner_id id)
    ⊎ ((kind ≡ codes "memory") × (include_memories ≡ true) × MemoryOf db owner_id id)

module _ (db : Db) (owner_id : Uuid) (include_memories : Bool) where
  upsert-All :
      (fresh : Acc) (change : Acc → Acc) (merged : List Acc)
      → ((a : Acc) → ((change a).kind ≡ a.kind) × ((change a).id ≡ a.id))
      → IsFound db owner_id include_memories fresh.kind fresh.id
      → All (λ (a : Acc). IsFound db owner_id include_memories a.kind a.id) merged
      → All
          (λ (a : Acc). IsFound db owner_id include_memories a.kind a.id)
          (upsert fresh change merged)
  unfolding upsert
  upsert-All fresh change [] same p h = (rw ((same fresh).0, (same fresh).1) p, tt)
  upsert-All fresh change (a ∷ merged) same p h =
      elim (Bool-cases (text_eq a.kind fresh.kind && a.id == fresh.id)) [
        | inl hit ↦ rw hit (rw ((same a).0, (same a).1) h.0, h.1)
        | inr other ↦ rw other (h.0, upsert-All fresh change merged same p h.1)
      ]

  merge_chunks-All :
      (ranks : Ranks) (change : ℕ → F64 → Acc → Acc) (rank : ℕ) (hits : List RankedChunk)
      (merged : List Acc)
      → ((n : ℕ) (s : F64) (a : Acc) → ((change n s a).kind ≡ a.kind) × ((change n s a).id ≡ a.id))
      → All (λ (h : RankedChunk). ChunkOf db owner_id h.chunk_id) hits
      → All (λ (a : Acc). IsFound db owner_id include_memories a.kind a.id) merged
      → All
          (λ (a : Acc). IsFound db owner_id include_memories a.kind a.id)
          (merge_chunks ranks change rank hits merged)
  unfolding merge_chunks chunk_acc
  merge_chunks-All ranks change rank [] merged same p h = h
  merge_chunks-All ranks change rank (hit ∷ hits) merged same p h =
      merge_chunks-All ranks change (suc rank) hits _ same p.1 (
        upsert-All (chunk_acc ranks hit) (change rank hit.score) merged (same rank hit.score)
          (inl (refl, p.0)) h)

  merge_memories-All :
      (ranks : Ranks) (change : ℕ → F64 → Acc → Acc) (rank : ℕ) (hits : List RankedMemory)
      (merged : List Acc)
      → include_memories ≡ true
      → ((n : ℕ) (s : F64) (a : Acc) → ((change n s a).kind ≡ a.kind) × ((change n s a).id ≡ a.id))
      → All (λ (h : RankedMemory). MemoryOf db owner_id h.memory_id) hits
      → All (λ (a : Acc). IsFound db owner_id include_memories a.kind a.id) merged
      → All
          (λ (a : Acc). IsFound db owner_id include_memories a.kind a.id)
          (merge_memories ranks change rank hits merged)
  unfolding merge_memories memory_acc
  merge_memories-All ranks change rank [] merged on same p h = h
  merge_memories-All ranks change rank (hit ∷ hits) merged on same p h =
      merge_memories-All ranks change (suc rank) hits _ on same p.1 (
        upsert-All (memory_acc ranks hit) (change rank hit.score) merged (same rank hit.score)
          (inr (refl, on, p.0)) h)

rank_lexical-same :
    (ranks : Ranks) (n : ℕ) (s : F64) (a : Acc)
    → ((rank_lexical ranks n s a).kind ≡ a.kind) × ((rank_lexical ranks n s a).id ≡ a.id)
unfolding rank_lexical
rank_lexical-same ranks n s a = (refl, refl)

rank_dense-same :
    (ranks : Ranks) (n : ℕ) (s : F64) (a : Acc)
    → ((rank_dense ranks n s a).kind ≡ a.kind) × ((rank_dense ranks n s a).id ≡ a.id)
unfolding rank_dense
rank_dense-same ranks n s a = (refl, refl)

with_fallback-Finds :
    (db : Db) {A : Type 0} (Post : A → Type 0) (use_pgroonga : Bool) (find : Bool → Action A)
    → ((b : Bool) → Finds db Post (find b))
    → Finds db (λ (r : A × Bool). Post r.0) (with_fallback use_pgroonga find)
unfolding with_fallback
with_fallback-Finds db Post true find finds =
    attempt-Finds db Post (λ r. Post r.0) (find true) (λ v. pure (v, false))
      (λ e. find false >>= λ v. pure (v, true)) (finds true)
      (λ v p. pure-Finds db (λ r. Post r.0) (v, false) p)
      (λ e.
        bind-Finds db Post (λ r. Post r.0) (find false) (λ v. pure (v, true)) (finds false)
          (λ v p. pure-Finds db (λ r. Post r.0) (v, true) p))
with_fallback-Finds db Post false find finds =
    bind-Finds db Post (λ r. Post r.0) (find false) (λ v. pure (v, false)) (finds false)
      (λ v p. pure-Finds db (λ r. Post r.0) (v, false) p)

module _ (db : Db) (searcher : Searcher) (state : AppState) where
  -- every entry of the map is a hit
  abbrev pub AllFound : Bool → List Acc → Type 0
  AllFound include_memories =
      All (λ (a : Acc). IsFound db state.config.owner_id include_memories a.kind a.id)

  lexical_memories-Finds :
      (q : Text) (candidates : ℕ) (pg include_memories : Bool) (merged : List Acc)
      → AllFound include_memories merged
      → Finds db
          (λ (r : List Acc × Bool). AllFound include_memories r.0)
          (lexical_memories searcher state.config.owner_id q candidates pg include_memories merged)
  unfolding lexical_memories
  lexical_memories-Finds q candidates pg false merged h =
      pure-Finds db (λ (r : List Acc × Bool). AllFound false r.0) (merged, false) h
  lexical_memories-Finds q candidates pg true merged h =
      bind-Finds db
        (λ (r : List RankedMemory × Bool).
          All (λ (m : RankedMemory). MemoryOf db state.config.owner_id m.memory_id) r.0)
        (λ (r : List Acc × Bool). AllFound true r.0)
        (with_fallback pg
          (search_memories_lexical searcher.ranks state.config.owner_id q candidates))
        (λ found.
          pure
            (merge_memories searcher.ranks (rank_lexical searcher.ranks) 0 found.0 merged, found.1))
        (with_fallback-Finds db _ pg _
          (search_memories_lexical-Finds db state.config.owner_id searcher.ranks q candidates))
        (λ found p.
          pure-Finds db (λ (r : List Acc × Bool). AllFound true r.0) _
            (merge_memories-All db state.config.owner_id true searcher.ranks
              (rank_lexical searcher.ranks) 0 found.0 merged refl (rank_lexical-same searcher.ranks)
              p h))

  dense_memories-Finds :
      (vector : Vector) (candidates : ℕ) (include_memories : Bool) (merged : List Acc)
      → AllFound include_memories merged
      → Finds db
          (AllFound include_memories)
          (dense_memories searcher state.config.owner_id vector candidates include_memories merged)
  unfolding dense_memories
  dense_memories-Finds vector candidates false merged h = pure-Finds db (AllFound false) merged h
  dense_memories-Finds vector candidates true merged h =
      bind-Finds db (All (λ (m : RankedMemory). MemoryOf db state.config.owner_id m.memory_id))
        (AllFound true)
        (search_memories_dense searcher.ranks state.config.owner_id vector candidates)
        (λ found. pure (merge_memories searcher.ranks (rank_dense searcher.ranks) 0 found merged))
        (search_memories_dense-Finds db state.config.owner_id searcher.ranks vector candidates)
        (λ found p. pure-Finds db (AllFound true) _ (
          merge_memories-All db state.config.owner_id true searcher.ranks
            (rank_dense searcher.ranks) 0 found merged refl (rank_dense-same searcher.ranks) p h))

  with_vector-Finds :
      (candidates : ℕ) (include_memories degraded : Bool) (merged : List Acc)
      (vector : Option Vector)
      → AllFound include_memories merged
      → Finds db
          (λ (f : Found). AllFound include_memories f.merged)
          (with_vector searcher state.config.owner_id candidates include_memories degraded merged
            vector)
  unfolding with_vector
  with_vector-Finds candidates include_memories degraded merged none h =
      pure-Finds db (λ (f : Found). AllFound include_memories f.merged) _ h
  with_vector-Finds candidates include_memories degraded merged (some vector) h =
      bind-Finds db (All (λ (c : RankedChunk). ChunkOf db state.config.owner_id c.chunk_id))
        (λ (f : Found). AllFound include_memories f.merged)
        (search_chunks_dense searcher.ranks state.config.owner_id vector candidates)
        (λ chunks. rest (merge_chunks searcher.ranks (rank_dense searcher.ranks) 0 chunks merged))
        (search_chunks_dense-Finds db state.config.owner_id searcher.ranks vector candidates)
        (λ chunks p.
          bind-Finds db (AllFound include_memories)
            (λ (f : Found). AllFound include_memories f.merged)
            (dense_memories searcher state.config.owner_id vector candidates include_memories
              (merge_chunks searcher.ranks (rank_dense searcher.ranks) 0 chunks merged))
            (λ all_merged.
              pure (record { merged = all_merged; degraded = degraded; method = codes "dense" }))
            (dense_memories-Finds vector candidates include_memories _ (
              merge_chunks-All db state.config.owner_id include_memories searcher.ranks
                (rank_dense searcher.ranks) 0 chunks merged (rank_dense-same searcher.ranks) p h))
            (λ all_merged k. pure-Finds db (λ (f : Found). AllFound include_memories f.merged) _ k))
    where
      rest : List Acc → Action Found
      rest merged' =
          dense_memories searcher state.config.owner_id vector candidates include_memories merged'
          >>= λ all_merged.
              pure (record { merged = all_merged; degraded = degraded; method = codes "dense" })

  dense-Finds :
      (q : Text) (candidates : ℕ) (include_memories degraded : Bool) (merged : List Acc)
      → AllFound include_memories merged
      → Finds db
          (λ (f : Found). AllFound include_memories f.merged)
          (dense searcher state q candidates include_memories degraded merged)
  unfolding dense
  dense-Finds q candidates include_memories degraded merged h =
      attempt-Finds db (λ o. Unit) (λ (f : Found). AllFound include_memories f.merged)
        (embed state.services (Embedding.new state.config) q)
        (with_vector searcher state.config.owner_id candidates include_memories degraded merged)
        (λ e. pure (record { merged = merged; degraded = true; method = codes "dense_failed" }))
        (λ env w same. (
          embed-Keeps (λ d. d ≡ db) state.services (Embedding.new state.config) q env w same,
          λ o e. tt,
        ))
        (λ vector u. with_vector-Finds candidates include_memories degraded merged vector h)
        (λ e. pure-Finds db (λ (f : Found). AllFound include_memories f.merged) _ h)

  pub gather-Finds :
      (request : SearchRequest) (candidates : ℕ)
      → Finds db
          (λ (f : Found). AllFound request.include_memories f.merged)
          (gather searcher state request candidates)
  unfolding gather
  gather-Finds request candidates =
      bind-Finds db
        (λ (r : List RankedChunk × Bool).
          All (λ (c : RankedChunk). ChunkOf db state.config.owner_id c.chunk_id) r.0)
        (λ (f : Found). AllFound request.include_memories f.merged)
        (with_fallback pg (
          search_chunks_lexical searcher.ranks state.config.owner_id (trim request.query)
            candidates))
        (λ chunks. after chunks)
        (with_fallback-Finds db _ pg _ (
          search_chunks_lexical-Finds db state.config.owner_id searcher.ranks (trim request.query)
            candidates))
        (λ chunks p.
          bind-Finds db (λ (r : List Acc × Bool). AllFound request.include_memories r.0)
            (λ (f : Found). AllFound request.include_memories f.merged)
            (lexical_memories searcher state.config.owner_id (trim request.query) candidates pg
              request.include_memories
              (merge_chunks searcher.ranks (rank_lexical searcher.ranks) 0 chunks.0 []))
            (λ memories.
              dense searcher state (trim request.query) candidates request.include_memories
                (chunks.1 || memories.1) memories.0)
            (lexical_memories-Finds (trim request.query) candidates pg request.include_memories _
              (start chunks.0 p))
            (λ memories k.
              dense-Finds (trim request.query) candidates request.include_memories
                (chunks.1 || memories.1) memories.0 k))
    where
      pg : Bool
      pg = text_eq state.config.lexical_backend (codes "pgroonga")

      after : List RankedChunk × Bool → Action Found
      after chunks =
          lexical_memories searcher state.config.owner_id (trim request.query) candidates pg
            request.include_memories
            (merge_chunks searcher.ranks (rank_lexical searcher.ranks) 0 chunks.0 [])
          >>= λ memories.
              dense searcher state (trim request.query) candidates request.include_memories
                (chunks.1 || memories.1) memories.0

      start :
          (cs : List RankedChunk)
          → All (λ (c : RankedChunk). ChunkOf db state.config.owner_id c.chunk_id) cs
          → AllFound request.include_memories
              (merge_chunks searcher.ranks (rank_lexical searcher.ranks) 0 cs [])
      start cs p =
          merge_chunks-All db state.config.owner_id request.include_memories searcher.ranks
            (rank_lexical searcher.ranks) 0 cs [] (rank_lexical-same searcher.ranks) p tt
