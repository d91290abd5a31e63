-- ===== src/Tests/Setup.antt =====
-- A world for the tests: stand-ins for the packages, a database that answers, and one that does not.
use personal_knowledge_os.Prelude.{ℕ, zero, suc, ◌+◌, ◌*◌, true, false, [], ◌∷◌, none, some}
use personal_knowledge_os.Text.{Text, codes, to_ascii_lowercase, contains}
use personal_knowledge_os.Values.{f32_0_8, f32_0_5, object, end}
use personal_knowledge_os.Api.Graph.{text_leb}
use personal_knowledge_os.Db.Libs.{Libs}
use personal_knowledge_os.Db.Tables.{
  Db, SourceRow, MemoryRow, JobRow, candidate, active, pending, empty_db,
}
use personal_knowledge_os.Db.Action.{Env, World}

abbrev pub libs_example : Libs
libs_example = record {
  uuid_text = λ id. id ∷ [];
  uuid_parse = λ s. none;
  to_lowercase = to_ascii_lowercase;
  sql_lower = to_ascii_lowercase;
  sql_leb = text_leb;
  ilike = contains;
  sha256_hex = λ s. s;
  time_text = λ t. t ∷ [];
  time_parse = λ s. none;
}

-- the database answers at every tick
abbrev pub env_alive : Env
env_alive = record {
  now = λ n. 1000 + n;
  fails = λ n. false;
  fresh = λ n k. 100 + 10 * n + k;
  libs = libs_example;
}

-- it is lost from the second tick on
abbrev pub env_lost : Env
env_lost = record env_alive { fails = λ n. elim n [ zero ↦ false | suc _ ↦ true ] }

-- a digest in hexadecimal
abbrev pub sha_example : Text
sha_example = codes "e3b0c44298fc1c149afbf4c8996fb92427ae41e4649b934ca495991b7852b855"

abbrev pub source_example : ℕ → SourceRow
source_example id = record {
  id = id;
  owner_id = 1;
  kind = codes "note";
  title = none;
  content = codes "I use Bifrost.";
  external_id = some (codes "ext");
  source_uri = none;
  sha256 = sha_example;
  occurred_at = none;
  ingested_at = 5;
  metadata = object end;
}

abbrev pub candidate_example : MemoryRow
candidate_example = record {
  id = 20;
  owner_id = 1;
  memory_type = codes "fact";
  statement = codes "Uses Bifrost";
  status = candidate;
  confidence = f32_0_8;
  importance = f32_0_5;
  recurrence_count = 1;
  valid_from = none;
  valid_until = none;
  supersedes_id = none;
  embedding = none;
  embedding_model = none;
  embedded_at = none;
  created_at = 7;
  updated_at = 7;
}

-- an active memory that the candidate can supersede
abbrev pub active_example : MemoryRow
active_example = record candidate_example { id = 21; status = active; valid_from = some 8 }

abbrev pub job_example : JobRow
job_example = record {
  id = 30;
  owner_id = 1;
  kind = codes "embed_chunk";
  payload = object end;
  status = pending;
  attempts = 0;
  available_at = 3;
  lease_until = none;
  last_error = none;
  created_at = 3;
  updated_at = 3;
}

abbrev pub db_example : Db
db_example = record empty_db {
  sources = source_example 10 ∷ source_example 11 ∷ [];
  memories = candidate_example ∷ active_example ∷ [];
  memory_evidence =
      record { memory_id = 20; source_id = 10 } ∷ record { memory_id = 21; source_id = 11 } ∷ [];
  jobs = job_example ∷ [];
}

abbrev pub world_example : World
world_example = record { db = db_example; tick = 0 }
