-- ===== src/Tests/Handlers.antt =====
-- Authentication, error responses, ingestion and the API at concrete requests.
use personal_knowledge_os.Prelude.{
  ◌≡◌, ◌≢◌, ◌≤◌, refl, ◌↔◌, ◌⊎◌, List, [], ◌∷◌, ◌++◌, none, some, arith, All, is_empty, true, false,
}
use personal_knowledge_os.Text.{
  Text, codes, trim, is_whitespace, to_ascii_lowercase, to_lower, byte_len, len_utf8, text_eq,
}
use personal_knowledge_os.Values.{object, end, pos}
use personal_knowledge_os.AppError.{
  AppError, ok, err, into_response, upstream, database, other_error,
}
use personal_knowledge_os.AppError.Response.{into_response_opaque}
use personal_knowledge_os.Auth.{require_auth, require_auth_iff, bearer}
use personal_knowledge_os.Models.{CaptureMessage, CreateMemoryCandidateRequest}
use personal_knowledge_os.Db.Action.{context}
use personal_knowledge_os.Storage.Rows.{source_from_row}
use personal_knowledge_os.Storage.Memories.Bodies.{candidate_row, memory_check}
use personal_knowledge_os.Storage.Sources.{SourceInput, ingest_source, source_row}
use personal_knowledge_os.Storage.Sources.Ingestion.{ingested_db, ingest_source_exact}
use personal_knowledge_os.Api.Capture.{render, is_role, section_of, heading, max_capture_bytes}
use personal_knowledge_os.Api.Capture.Rendering.{document, IsRenderable, render_sound}
use personal_knowledge_os.Api.Memories.{candidate_input}
use personal_knowledge_os.Api.Memories.Checks.{candidate_input-memory_check}
use personal_knowledge_os.Db.Tables.{empty_db}
use personal_knowledge_os.Storage.Memories.Keys.{UniqueIds}
use personal_knowledge_os.Storage.Memories.Grounding.{IsGrounded}
use personal_knowledge_os.Storage.Operations.{
  Operation, ingest, create, approve, reject, lease, run,
}
use personal_knowledge_os.Storage.Operations.Trace.{run-IsGrounded}
use personal_knowledge_os.Api.Graph.{
  normalize_aliases, collect_aliases, sort_aliases, push_alias, text_leb,
}
use personal_knowledge_os.Api.Graph.Aliases.{IsAlias, Distinct, normalize_aliases_sound}
use personal_knowledge_os.Db.Sql.{order_by, insert_by}
use personal_knowledge_os.Tests.Setup.{sha_example, env_alive, world_example}

require_auth_iff_example :
    (require_auth (codes "key") (some (codes "Bearer kez")) ≡ ok tt)
    ↔ (some (codes "Bearer kez") ≡ some (bearer ++ codes "key"))
require_auth_iff_example = require_auth_iff (codes "key") (some (codes "Bearer kez"))

into_response_opaque_example :
    into_response (upstream (codes "secret"))
    ≡ into_response (database (other_error (codes "host")))
into_response_opaque_example =
    into_response_opaque (upstream (codes "secret")) (database (other_error (codes "host"))) tt tt

abbrev delivery : SourceInput
delivery = record {
  kind = codes "note";
  title = none;
  content = codes "again";
  external_id = some (codes "ext");
  source_uri = none;
  sha256 = sha_example;
  occurred_at = none;
  metadata = object end;
  chunks = record { position = 0; char_start = 0; char_end = 5; content = codes "again" } ∷ [];
  schedule_memory_extraction = true;
}

abbrev pub fresh_delivery : SourceInput
fresh_delivery = record delivery { external_id = none }

ingest_source_exact_example :
    let (r, w') = ingest_source 1 fresh_delivery env_alive world_example in
    let cx = context env_alive 0 in
    ((e : AppError) × (r ≡ err e) × (w'.db ≡ world_example.db))
    ⊎ ((r ≡ ok (source_from_row (source_row cx.now (cx.ids 0) 1 fresh_delivery)))
        × (w'.db ≡ ingested_db cx 1 fresh_delivery world_example.db))
ingest_source_exact_example = ingest_source_exact 1 fresh_delivery env_alive world_example

abbrev messages_example : List CaptureMessage
messages_example =
    record { role = codes "User"; content = codes " hi "; name = none }
    ∷ record { role = codes "tool"; content = codes " "; name = none }
    ∷ []

rendered : render [] messages_example ≡ ok (document messages_example)
unfolding render document codes trim to_ascii_lowercase is_role text_eq byte_len section_of
    is_whitespace to_lower heading len_utf8
rendered = refl

render_sound_example :
    (document messages_example ≡ [] ++ document messages_example)
    × All IsRenderable messages_example
    × (byte_len (document messages_example) ≤ max_capture_bytes)
render_sound_example = render_sound [] messages_example rendered (unfold byte_len in omega arith)

abbrev request_example : CreateMemoryCandidateRequest
request_example = record {
  memory_type = codes " fact ";
  statement = codes "Uses Bifrost";
  confidence = none;
  importance = none;
  valid_from = none;
  evidence_source_ids = 10 ∷ [];
}

type_given : is_empty (trim request_example.memory_type) ≡ false
unfolding trim codes is_whitespace
type_given = refl

type_short : byte_len (trim request_example.memory_type) ≤ 64
unfolding trim codes byte_len is_whitespace
type_short = omega arith

candidate_input-memory_check_example :
    memory_check (candidate_row 1000 100 1 (candidate_input request_example)) ≡ true
candidate_input-memory_check_example =
    candidate_input-memory_check request_example 1000 100 1 type_given type_short (λ e. cc)
      (λ e. cc)

-- a source is ingested, a memory that rests on it is proposed, approved and rejected, and jobs are leased
abbrev pub session : List Operation
session =
    ingest 1 fresh_delivery
    ∷ create 1 (record (candidate_input request_example) { evidence = 100 ∷ [] })
    ∷ approve 1 110 none
    ∷ reject 1 110
    ∷ lease 1 (pos 8)
    ∷ []

run-IsGrounded_example :
    let db = (run session env_alive (record { db = empty_db; tick = 0 })).db in
    IsGrounded db × UniqueIds db.memories
run-IsGrounded_example = run-IsGrounded session env_alive

abbrev aliases_example : List Text
aliases_example = codes "Bob " ∷ codes "BOB" ∷ codes "Al" ∷ codes "Rob" ∷ []

abbrev normalized_example : List Text
normalized_example = codes "Al" ∷ codes "Bob" ∷ []

normalized :
    normalize_aliases to_ascii_lowercase aliases_example (codes "rob") ≡ ok normalized_example
unfolding normalize_aliases collect_aliases sort_aliases push_alias text_leb order_by insert_by
    to_ascii_lowercase to_lower trim codes text_eq is_whitespace
normalized = refl

normalize_aliases_sound_example :
    All IsAlias normalized_example
    × All (λ a. to_ascii_lowercase a ≢ to_ascii_lowercase (codes "rob")) normalized_example
    × Distinct to_ascii_lowercase normalized_example
normalize_aliases_sound_example =
    normalize_aliases_sound to_ascii_lowercase aliases_example (codes "rob") normalized
