-- ===== src/Retrieval/Sound.antt =====
-- What a search can return.
use personal_knowledge_os.Prelude.{
  ℕ, ◌-◌, ◌^◌, ◌≤◌, ◌≡◌, refl, subst, sym, ◌∙◌, Bool, true, false, not, List, [], ◌∷◌, arith, All,
  map, length, length-take, min, leb, is_empty,
}
use personal_knowledge_os.Text.{Text, codes, trim}
use personal_knowledge_os.Values.{Uuid, F64}
use personal_knowledge_os.AppError.{AppError, Result, ok, err, bad_request}
use personal_knowledge_os.Models.{SearchRequest, SearchHit, SearchResponse}
use personal_knowledge_os.Db.Tables.{Db}
use personal_knowledge_os.Db.Sql.{order_by, All-order_by}
use personal_knowledge_os.Db.Order.{Ordered, Ordered-take, Ordered-order_by, All-take, All-map}
use personal_knowledge_os.Db.Action.{Env, World, Action, ◌>>=◌, ◌>>◌, ensure, ensure_rule}
use personal_knowledge_os.Storage.Search.{Ranks, record_retrieval}
use personal_knowledge_os.Retrieval.{
  Acc, Searcher, Found, hit_of, best_hits, gather, response_of, respond, limit_of, candidates_of,
  search,
}
use personal_knowledge_os.Extraction.Process.{AppState}
use personal_knowledge_os.Retrieval.Merging.{IsFound, AllFound, gather-Finds}

-- The response is given whether or not the telemetry is recorded.
respond_lem :
    (searcher : Searcher) (state : AppState) (request : SearchRequest) (limit started : ℕ)
    (found : Found) (env : Env) (w : World)
    → (respond searcher state request limit started found env w).0
      ≡ ok (response_of searcher request limit found)
unfolding respond
respond_lem searcher state request limit started found env w = go (
    record_retrieval state.config.owner_id (trim request.query)
      (codes "lexical" ∷ found.method ∷ []) found.degraded
      (min (searcher.elapsed_ms started w.tick) (2 ^ 63 - 1)) limit env w)
  where
    go :
        (s : Result (Unit {0}) × World)
        → (let (r, w') = s in
            elim r as (λ _. Result SearchResponse × World) [
              | ok u ↦ (ok (response_of searcher request limit found), w')
              | err e ↦ (ok (response_of searcher request limit found), w')
            ]).0
          ≡ ok (response_of searcher request limit found)
    go (ok u, w') = refl
    go (err e, w') = refl

-- Best first.
abbrev pub BestFirst : Ranks → List SearchHit → Type 0
BestFirst ranks = Ordered (λ a b. ranks.total_leb b.score a.score ≡ true)

-- What a response to a request may hold.
abbrev pub IsResponse : Db → Searcher → AppState → SearchRequest → SearchResponse → Type 0
IsResponse db searcher state request response =
    All (λ (h : SearchHit). IsFound db state.config.owner_id request.include_memories h.kind h.id)
      response.hits
    × (length response.hits ≤ 50)
    × BestFirst searcher.ranks response.hits

limit_of_le : (state : AppState) (request : SearchRequest) → limit_of state request ≤ 50
unfolding limit_of
limit_of_le state request = omega arith

best_hits_lem :
    (searcher : Searcher) (state : AppState) (request : SearchRequest) (db : Db) (merged : List Acc)
    → ((P : Acc → Type 0) (m : List Acc) → All P m → All P (searcher.into_values m))
    → ((a b : F64) → searcher.ranks.total_leb a b ≡ false → searcher.ranks.total_leb b a ≡ true)
    → ((a b c : F64)
        → searcher.ranks.total_leb a b ≡ true
        → searcher.ranks.total_leb b c ≡ true
        → searcher.ranks.total_leb a c ≡ true)
    → AllFound db searcher state request.include_memories merged
    → All
        (λ (h : SearchHit). IsFound db state.config.owner_id request.include_memories h.kind h.id)
        (best_hits searcher (limit_of state request) merged)
      × (length (best_hits searcher (limit_of state request) merged) ≤ 50)
      × BestFirst searcher.ranks (best_hits searcher (limit_of state request) merged)
unfolding best_hits hit_of
best_hits_lem searcher state request db merged values total trans h = (
  All-take T (λ (x : SearchHit). Is x.kind x.id) limit sorted
      (All-order_by (λ (x : SearchHit). Is x.kind x.id) before hits
        (All-map (λ (a : Acc). Is a.kind a.id) (λ (x : SearchHit). Is x.kind x.id) hit_of
          (searcher.into_values merged) (λ a k. k)
          (values (λ (a : Acc). Is a.kind a.id) merged h))),
  let taken = length-take limit sorted in let small = limit_of_le state request in omega arith,
  Ordered-take T limit sorted (
      Ordered-order_by T before (λ a b k. k) (λ a b k. total b.score a.score k)
        (λ a b c j k. trans c.score b.score a.score k j) hits),
)
  where
    Is : Text → Uuid → Type 0
    Is kind id = IsFound db state.config.owner_id request.include_memories kind id

    before : SearchHit → SearchHit → Bool
    before a b = searcher.ranks.total_leb b.score a.score

    T : SearchHit → SearchHit → Type 0
    T a b = searcher.ranks.total_leb b.score a.score ≡ true

    limit : ℕ
    limit = limit_of state request

    hits : List SearchHit
    hits = map hit_of (searcher.into_values merged)

    sorted : List SearchHit
    sorted = order_by before hits

-- If `total_cmp` is a total order, and a `HashMap` gives only values that it has: the hits of a response
-- are chunks of the owner and, only if memories are included, active memories of the owner, as the
-- database had them when the search began; there are at most 50, best first, whatever the extensions, the
-- embedding provider and the telemetry do.
pub search_sound :
    (searcher : Searcher) (state : AppState) (request : SearchRequest) (env : Env) (w : World)
    → ((P : Acc → Type 0) (merged : List Acc) → All P merged → All P (searcher.into_values merged))
    → ((a b : F64) → searcher.ranks.total_leb a b ≡ false → searcher.ranks.total_leb b a ≡ true)
    → ((a b c : F64)
        → searcher.ranks.total_leb a b ≡ true
        → searcher.ranks.total_leb b c ≡ true
        → searcher.ranks.total_leb a c ≡ true)
    → (response : SearchResponse) → (search searcher state request env w).0 ≡ ok response
    → IsResponse w.db searcher state request response
unfolding search response_of
search_sound searcher state request env w values total trans =
    ensure_rule Good (not (is_empty (trim request.query)))
      (bad_request (codes "query must not be empty")) (within >> searched) env w
      (λ e response h. absurd (clash h))
      (λ e1.
        ensure_rule Good (leb (length (trim request.query)) 2000)
          (bad_request (codes "query is too long")) searched env w
          (λ e response h. absurd (clash h))
          (λ e2.
            go (gather searcher state request (candidates_of state request) env w)
              (gather-Finds w.db searcher state request (candidates_of state request) env w
                refl).1))
  where
    Good : Result SearchResponse × World → Type 0
    Good r =
        (response : SearchResponse)
        → r.0 ≡ ok response
        → IsResponse w.db searcher state request response

    within : Action (Unit {0})
    within =
        ensure (leb (length (trim request.query)) 2000) (bad_request (codes "query is too long"))

    searched : Action SearchResponse
    searched = (λ env w. (ok w.tick, w)) >>= λ started.
        gather searcher state request (candidates_of state request)
        >>= respond searcher state request (limit_of state request) started

    clash : {e : AppError} {r : SearchResponse} → ◌≡◌ {A = Result SearchResponse} (err e) (ok r) → ⊥
    clash h = cc

    responds :
        (found : Found)
        → AllFound w.db searcher state request.include_memories found.merged
        → IsResponse w.db searcher state request
            (response_of searcher request (limit_of state request) found)
    responds found h = best_hits_lem searcher state request w.db found.merged values total trans h

    same : {a b : SearchResponse} → ◌≡◌ {A = Result SearchResponse} (ok a) (ok b) → a ≡ b
    same e = cc

    go :
        (s : Result Found × World)
        → ((f : Found)
            → s.0 ≡ ok f
            → AllFound w.db searcher state request.include_memories f.merged)
        → Good (
            let (r, w') = s in
            elim r as (λ _. Result SearchResponse × World) [
              | ok found ↦
                  respond searcher state request (limit_of state request) w.tick found env w'
              | err e ↦ (err e, w')
            ])
    go (ok found, w') post response h =
        subst (IsResponse w.db searcher state request)
          (same (
            sym (respond_lem searcher state request (limit_of state request) w.tick found env w')
            ∙ h))
          (responds found (post found refl))
    go (err e, w') post response h = cc
