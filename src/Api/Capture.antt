-- ===== src/Api/Capture.antt =====
-- src/api/capture.rs: the handler of `POST /v1/capture`, which renders a conversation as a source.
pub mod Rendering
use personal_knowledge_os.Prelude.{
  ℕ, ◌*◌, Bool, true, false, ◌&&◌, ◌||◌, not, List, [], ◌∷◌, ◌++◌, Option, none, some, leb, length,
  is_empty, if◌then◌else◌,
}
use personal_knowledge_os.Text.{Text, codes, trim, byte_len, to_ascii_lowercase, text_eq}
use personal_knowledge_os.Values.{
  Value, Fields, null, bool, number, integer, string, object, end, field, insert_field, pos,
}
use personal_knowledge_os.AppError.{AppError, Result, ok, err, bad_request}
use personal_knowledge_os.Models.{
  CaptureMessage, CreateCaptureRequest, CaptureResponse, SourceRecord,
}
use personal_knowledge_os.Db.Action.{Action, ◌>>=◌, ◌>>◌, ensure, pure, lift_result}
use personal_knowledge_os.Storage.Sources.{SourceInput, ingest_source}
use personal_knowledge_os.Api.Sources.{State, at_most, chunks_of}

abbrev pub max_capture_messages : ℕ
max_capture_messages = 200

abbrev pub max_capture_bytes : ℕ
max_capture_bytes = 10 * 1024 * 1024

-- the roles of `matches!`
unfoldable pub is_role : Text → Bool
is_role role =
    text_eq role (codes "user")
    || text_eq role (codes "assistant")
    || text_eq role (codes "system")
    || text_eq role (codes "tool")
    || text_eq role (codes "agent")

-- `message.role.trim().to_ascii_lowercase()`
abbrev pub role_of : CaptureMessage → Text
role_of message = to_ascii_lowercase (trim message.role)

abbrev pub body_of : CaptureMessage → Text
body_of message = trim message.content

-- the heading that is pushed
unfoldable pub heading : Text → Option Text → Text
heading role none = codes "## " ++ role ++ codes "\n"
heading role (some name) = codes "## " ++ role ++ codes " (" ++ trim name ++ codes ")\n"

-- the three `push_str` of one message
unfoldable pub section_of : CaptureMessage → Text
unfolding heading
section_of message = heading (role_of message) message.name ++ body_of message ++ codes "\n\n"

-- the `for message in &request.messages` loop, from the content so far
unfoldable pub render : Text → List CaptureMessage → Result Text
unfolding section_of
render content [] = ok content
render content (message ∷ messages) =
    let skipped = render content messages in
    let next = content ++ section_of message in
    let rest = render next messages in
    if is_role (role_of message)
    then (if is_empty (body_of message)
        then skipped
        else if at_most 128 message.name
        then (if leb (byte_len next) max_capture_bytes
            then rest
            else err (bad_request (codes "captured conversation exceeds 10 MiB API limit")))
        else err (bad_request (codes "message name is too long")))
    else err (bad_request (codes "unsupported capture role: " ++ message.role))

-- `match request.metadata`
unfoldable pub metadata_map : Value → Result Fields
metadata_map null = ok end
metadata_map (object map) = ok map
metadata_map v = err (bad_request (codes "metadata must be a JSON object"))

abbrev pub text_json : Option Text → Value
text_json none = null
text_json (some t) = string t

-- the `pkos_capture` entry
unfoldable pub capture_json : CreateCaptureRequest → Value
capture_json request = object (
    field (codes "provider") (text_json request.provider) (
      field (codes "session_id") (text_json request.session_id) (
        field (codes "message_count") (number (integer (pos (length request.messages))))
          (field (codes "automatic") (bool true) end))))

-- the arguments of `ingest_source`
unfoldable pub capture_input :
    (Text → Text) → Bool → CreateCaptureRequest → Text → Fields → SourceInput
unfolding capture_json
capture_input sha256_hex extraction request content metadata = record {
  kind = trim request.kind;
  title = request.title;
  content = content;
  external_id = request.external_id;
  source_uri = request.source_uri;
  sha256 = sha256_hex content;
  occurred_at = request.occurred_at;
  metadata = object (insert_field (codes "pkos_capture") (capture_json request) metadata);
  chunks = chunks_of content;
  schedule_memory_extraction = extraction;
}

-- `create_capture`
unfoldable pub create_capture : State → CreateCaptureRequest → Action CaptureResponse
create_capture state request = do
  ensure (not (is_empty (trim request.kind)) && leb (byte_len (trim request.kind)) 64)
      (bad_request (codes "kind must be 1..=64 bytes"))
  ensure (not (is_empty request.messages) && leb (length request.messages) max_capture_messages)
      (bad_request (codes "messages must contain 1..=200 items"))
  ensure (at_most 512 request.external_id) (bad_request (codes "external_id is too long"))
  ensure (at_most 512 request.session_id) (bad_request (codes "session_id is too long"))
  ensure (at_most 128 request.provider) (bad_request (codes "provider is too long"))
  rendered ← lift_result (render [] request.messages)
  ensure (not (is_empty (trim rendered)))
      (bad_request (codes "capture contains no non-empty messages"))
  metadata ← lift_result (metadata_map request.metadata)
  source ← λ env.
      ingest_source state.owner_id
        (capture_input env.libs.sha256_hex state.memory_extraction_enabled request (trim rendered)
          metadata)
        env
  pure (record { source = source; memory_extraction_scheduled = state.memory_extraction_enabled })
