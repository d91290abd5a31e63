-- ===== src/Api/Sources.antt =====
-- src/api/sources.rs: the handlers of `POST /v1/sources` and `GET /v1/sources/{id}`.
use personal_knowledge_os.Prelude.{
  ℕ, Bool, true, ◌&&◌, ◌*◌, not, List, [], Option, none, some, leb, is_empty,
}
use personal_knowledge_os.Text.{Text, codes, trim, byte_len}
use personal_knowledge_os.Values.{Uuid}
use personal_knowledge_os.AppError.{bad_request}
use personal_knowledge_os.Models.{CreateSourceRequest, SourceRecord}
use personal_knowledge_os.Chunking.{Chunk, chunk_text}
use personal_knowledge_os.Db.Action.{Action, ◌>>◌, ensure}
use personal_knowledge_os.Storage.Sources.{SourceInput, ingest_source}
use personal_knowledge_os.Storage.Sources as StorageSources

-- what the handlers read of `AppState::config`
pub record State : Type 0 where
  pub owner_id : Uuid
  pub memory_extraction_enabled : Bool

-- `value.is_some_and(|v| v.len() > n)`, negated
abbrev pub at_most : ℕ → Option Text → Bool
at_most n none = true
at_most n (some t) = leb (byte_len t) n

-- `chunk_text(content, 1400, 180)`; its loop ends on every text, so the other case does not occur
abbrev pub chunks_of : Text → List Chunk
chunks_of content = elim (chunk_text content 1400 180) [ some chunks ↦ chunks | none ↦ [] ]

-- `hex::encode(Sha256::digest(…))` and the call of `ingest_source`
unfoldable pub source_input : (Text → Text) → Bool → CreateSourceRequest → SourceInput
source_input sha256_hex extraction request =
    let content = trim request.content in
    record {
      kind = trim request.kind;
      title = request.title;
      content = content;
      external_id = request.external_id;
      source_uri = request.source_uri;
      sha256 = sha256_hex content;
      occurred_at = request.occurred_at;
      metadata = request.metadata;
      chunks = chunks_of content;
      schedule_memory_extraction = extraction;
    }

-- `create_source`
unfoldable pub create_source : State → CreateSourceRequest → Action SourceRecord
create_source state request = do
  ensure (not (is_empty (trim request.kind)) && leb (byte_len (trim request.kind)) 64)
      (bad_request (codes "kind must be 1..=64 bytes"))
  ensure (not (is_empty (trim request.content))) (bad_request (codes "content must not be empty"))
  ensure (leb (byte_len (trim request.content)) (10 * 1024 * 1024))
      (bad_request (codes "content exceeds 10 MiB API limit"))
  ensure (at_most 512 request.external_id) (bad_request (codes "external_id is too long"))
  λ env.
      ingest_source state.owner_id
        (source_input env.libs.sha256_hex state.memory_extraction_enabled request) env

-- `get_source`
unfoldable pub get_source : State → Uuid → Action SourceRecord
get_source state id = StorageSources.get_source state.owner_id id
