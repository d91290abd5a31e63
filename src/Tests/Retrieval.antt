-- ===== src/Tests/Retrieval.antt =====
-- A search that finds an active memory, with an embedding provider that answers with a wrong dimension.
use personal_knowledge_os.Prelude.{
  ◌+◌, ◌-◌, ◌≡◌, refl, [], ◌∷◌, none, some, leb, arith, true, false,
}
use personal_knowledge_os.Text.{codes, trim, is_whitespace, text_eq, contains}
use personal_knowledge_os.AppError.{ok}
use personal_knowledge_os.Models.{SearchRequest, SearchResponse}
use personal_knowledge_os.Db.Action.{transaction}
use personal_knowledge_os.Db.Sql.{order_by, insert_by}
use personal_knowledge_os.Embedding.{embed, new}
use personal_knowledge_os.Storage.Search.{
  search_chunks_lexical, search_chunks_lexical_tx, search_memories_lexical,
  search_memories_lexical_tx, record_retrieval, record_retrieval_tx,
}
use personal_knowledge_os.Retrieval.{Searcher, search}
use personal_knowledge_os.Retrieval.Sound.{IsResponse, search_sound}
use personal_knowledge_os.Tests.Setup.{env_alive, world_example}
use personal_knowledge_os.Tests.Extraction.{state_example}

abbrev pub searcher_example : Searcher
searcher_example = record {
  ranks = record {
    add_f64 = λ a b. a + b;
    sub_f64 = λ a b. a - b;
    div_f64 = λ a b. a;
    f64_of = λ n. n;
    total_leb = leb;
    float8_leb = leb;
    pgroonga_matches = λ content q. false;
    pgroonga_accepts = λ q. false;
    pgroonga_score = λ id q. 0;
    distance = λ a b. 0;
  };
  into_values = λ merged. merged;
  elapsed_ms = λ started ended. ended - started;
}

abbrev pub request_example : SearchRequest
request_example = record { query = codes " Bifrost "; limit = none; include_memories = true }

abbrev response_example : SearchResponse
response_example = record {
  query = codes "Bifrost";
  hits =
      record {
        kind = codes "memory";
        id = 21;
        source_id = none;
        title = none;
        content = codes "Uses Bifrost";
        score = 1;
        lexical_score = some 1;
        dense_score = none;
        occurred_at = some 8;
        evidence_source_ids = 11 ∷ [];
      }
      ∷ [];
  degraded = true;
  methods = codes "lexical" ∷ codes "dense_failed" ∷ [];
}

finds_memory :
    (search searcher_example state_example request_example env_alive world_example).0
    ≡ ok response_example
unfolding search trim codes is_whitespace text_eq search_chunks_lexical transaction
    search_chunks_lexical_tx search_memories_lexical search_memories_lexical_tx embed new
    record_retrieval record_retrieval_tx order_by contains insert_by
finds_memory = refl

search_sound_example :
    IsResponse world_example.db searcher_example state_example request_example response_example
search_sound_example =
    search_sound searcher_example state_example request_example env_alive world_example
      (λ P merged h. h) (λ a b h. ground arith) (λ a b c h k. ground arith) response_example
      finds_memory
