-- ===== src/Tests/Extraction.antt =====
-- The extraction from a stored source, with a model that proposes one memory.
use personal_knowledge_os.Prelude.{◌≡◌, refl, ◌⊎◌, [], ◌∷◌, none, All, false}
use personal_knowledge_os.Text.{codes}
use personal_knowledge_os.Values.{string, f32_0_8, f32_0_5}
use personal_knowledge_os.Db.Tables.{candidate}
use personal_knowledge_os.Services.{Services, answered, decoded}
use personal_knowledge_os.Extraction.Verifier.{ExtractedMemory}
use personal_knowledge_os.Extraction.Process.{AppState, process_source}
use personal_knowledge_os.Extraction.Process.Vetted.{
  WasThere, IsProposed, HadStatus, process_source_vets, process_source_unpromoted,
}
use personal_knowledge_os.Extraction.Statements.{reinforce_existing_memory}
use personal_knowledge_os.Extraction.Statements.Reinforcement.{reinforce_once}
use personal_knowledge_os.Tests.Configuration.{config_example}
use personal_knowledge_os.Tests.Setup.{env_alive, env_lost, world_example}

abbrev proposal : ExtractedMemory
proposal = record {
  memory_type = codes " fact ";
  statement = codes "Likes Bifrost";
  evidence_quote = codes "I use Bifrost.";
  confidence = f32_0_8;
  importance = f32_0_5;
  valid_from = none;
  supersedes_memory_id = none;
}

abbrev pub services_example : Services
services_example = record {
  chat = λ tick request. answered (record {
    status = 200;
    status_text = codes "200 OK";
    body = decoded (string (codes "{}") ∷ []);
  });
  embeddings = λ tick request.
      answered (record { status = 200; status_text = codes "200 OK"; body = decoded ([] ∷ []) });
  json_text = λ v. codes "[]";
  parse_envelope = λ t. decoded (proposal ∷ []);
  decimal = λ n. n ∷ [];
}

abbrev pub state_example : AppState
state_example = record { config = config_example; services = services_example }

abbrev careful_state : AppState
careful_state = record {
  config = record config_example { memory_auto_promote_enabled = false };
  services = services_example;
}

process_source_vets_example :
    All
      (λ r.
        WasThere world_example.db r ⊎ IsProposed state_example env_alive.libs world_example.db 10 r)
      (process_source state_example 10 env_alive world_example).1.db.memories
process_source_vets_example = process_source_vets state_example 10 env_alive world_example

process_source_unpromoted_example :
    All
      (λ r. HadStatus world_example.db r ⊎ (r.status ≡ candidate))
      (process_source careful_state 10 env_alive world_example).1.db.memories
process_source_unpromoted_example =
    process_source_unpromoted careful_state 10 env_alive world_example refl

reinforce_once_example :
    (reinforce_existing_memory 1 21 10 env_alive
      (reinforce_existing_memory 1 21 10 env_lost world_example).1).1.db
    ≡ (reinforce_existing_memory 1 21 10 env_lost world_example).1.db
reinforce_once_example =
    reinforce_once 1 21 10 env_lost env_alive world_example
      (reinforce_existing_memory 1 21 10 env_lost world_example).1 refl refl
