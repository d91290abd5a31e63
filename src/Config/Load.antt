-- ===== src/Config/Load.antt =====
-- `Config::from_env`: every reader in the order of the source, with the checks between them.
use personal_knowledge_os.Prelude.{
  Bool, true, false, not, ◌&&◌, ◌||◌, Option, none, some, is_some, leb, ◌==◌,
}
use personal_knowledge_os.Text.{Text, codes, byte_len}
use personal_knowledge_os.Values.{pos, leb_ℤ}
use personal_knowledge_os.Config.{Config, invalid}
use personal_knowledge_os.Config.Numbers.{parse_unsigned, parse_i64, u32_max, u64_max}
use personal_knowledge_os.Config.Readers.{
  Variables, Parsers, Loaded, loaded, ◌>>=◌, ◌>>◌, ensure, required, optional, or_default, parse,
  parse_bool, validate_unit_interval,
}

-- `.or_else(|| fallback.clone())`
abbrev pub or_else : Option Text → Option Text → Option Text
or_else none fallback = fallback
or_else (some v) fallback = some v

-- `memory_extraction_enabled && (memory_base_url.is_none() || memory_api_key.is_none())`, negated
abbrev pub provider_given : Bool → Option Text → Option Text → Bool
provider_given enabled base_url api_key = not enabled || is_some base_url && is_some api_key

-- `from_env`
unfoldable pub from_env : Parsers → Variables → Loaded Config
from_env parsers vars = do
  bind_addr ← parse parsers.parse_addr vars (codes "PKOS_BIND_ADDR") (codes "0.0.0.0:8080")
  database_url ← required vars (codes "DATABASE_URL")
  owner_id ←
      parse parsers.parse_uuid vars (codes "PKOS_OWNER_ID")
        (codes "00000000-0000-0000-0000-000000000001")
  api_key ← required vars (codes "PKOS_API_KEY")
  ensure (leb 32 (byte_len api_key))
      (invalid (codes "PKOS_API_KEY") (codes "must be at least 32 bytes"))
  embedding_dimensions ←
      parse (parse_unsigned u64_max) vars (codes "PKOS_EMBEDDING_DIMENSIONS") (codes "1536")
  ensure (embedding_dimensions == 1536)
      (invalid (codes "PKOS_EMBEDDING_DIMENSIONS") (codes "v1 schema is fixed to 1536 dimensions"))
  let openai_base_url = optional vars (codes "PKOS_OPENAI_BASE_URL")
  let openai_api_key = optional vars (codes "PKOS_OPENAI_API_KEY")
  let memory_base_url = or_else (optional vars (codes "PKOS_MEMORY_BASE_URL")) openai_base_url
  let memory_api_key = or_else (optional vars (codes "PKOS_MEMORY_API_KEY")) openai_api_key
  memory_extraction_enabled ← parse_bool vars (codes "PKOS_MEMORY_EXTRACTION_ENABLED") false
  ensure (provider_given memory_extraction_enabled memory_base_url memory_api_key) (
      invalid (codes "PKOS_MEMORY_EXTRACTION_ENABLED") (
        codes
          "requires PKOS_MEMORY_BASE_URL/PKOS_MEMORY_API_KEY or the OpenAI-compatible provider variables"))
  min_confidence ←
      parse parsers.parse_f32 vars (codes "PKOS_MEMORY_AUTO_PROMOTE_MIN_CONFIDENCE") (codes "0.92")
  validate_unit_interval (codes "PKOS_MEMORY_AUTO_PROMOTE_MIN_CONFIDENCE") min_confidence
  min_importance ←
      parse parsers.parse_f32 vars (codes "PKOS_MEMORY_AUTO_PROMOTE_MIN_IMPORTANCE") (codes "0.65")
  validate_unit_interval (codes "PKOS_MEMORY_AUTO_PROMOTE_MIN_IMPORTANCE") min_importance
  max_candidates ←
      parse (parse_unsigned u64_max) vars (codes "PKOS_MEMORY_MAX_CANDIDATES_PER_SOURCE")
        (codes "8")
  ensure (leb 1 max_candidates && leb max_candidates 32)
      (invalid (codes "PKOS_MEMORY_MAX_CANDIDATES_PER_SOURCE") (codes "must be between 1 and 32"))
  context_limit ← parse parse_i64 vars (codes "PKOS_MEMORY_CONTEXT_LIMIT") (codes "50")
  ensure (leb_ℤ (pos 1) context_limit && leb_ℤ context_limit (pos 200))
      (invalid (codes "PKOS_MEMORY_CONTEXT_LIMIT") (codes "must be between 1 and 200"))
  connections ←
      parse (parse_unsigned u32_max) vars (codes "PKOS_DATABASE_MAX_CONNECTIONS") (codes "20")
  candidate_limit ←
      parse (parse_unsigned u64_max) vars (codes "PKOS_SEARCH_CANDIDATE_LIMIT") (codes "40")
  result_limit ← parse (parse_unsigned u64_max) vars (codes "PKOS_SEARCH_RESULT_LIMIT") (codes "12")
  poll_ms ← parse (parse_unsigned u64_max) vars (codes "PKOS_WORKER_POLL_MS") (codes "1000")
  batch_size ← parse parse_i64 vars (codes "PKOS_WORKER_BATCH_SIZE") (codes "8")
  worker_enabled ← parse_bool vars (codes "PKOS_WORKER_ENABLED") true
  auto_promote ← parse_bool vars (codes "PKOS_MEMORY_AUTO_PROMOTE_ENABLED") true
  keep ← parse_bool vars (codes "PKOS_MEMORY_KEEP_UNPROMOTED_CANDIDATES") false
  loaded (record {
    bind_addr = bind_addr;
    database_url = database_url;
    owner_id = owner_id;
    api_key = api_key;
    database_max_connections = connections;
    lexical_backend = or_default (vars (codes "PKOS_LEXICAL_BACKEND")) (codes "pgroonga");
    search_candidate_limit = candidate_limit;
    search_result_limit = result_limit;
    worker_poll_ms = poll_ms;
    worker_batch_size = batch_size;
    worker_enabled = worker_enabled;
    openai_base_url = openai_base_url;
    openai_api_key = openai_api_key;
    embedding_model =
        or_default (vars (codes "PKOS_EMBEDDING_MODEL")) (codes "text-embedding-3-small");
    embedding_dimensions = embedding_dimensions;
    memory_base_url = memory_base_url;
    memory_api_key = memory_api_key;
    memory_model = or_default (vars (codes "PKOS_MEMORY_MODEL")) (codes "gpt-5-mini");
    memory_extraction_enabled = memory_extraction_enabled;
    memory_auto_promote_enabled = auto_promote;
    memory_auto_promote_min_confidence = min_confidence;
    memory_auto_promote_min_importance = min_importance;
    memory_keep_unpromoted_candidates = keep;
    memory_max_candidates_per_source = max_candidates;
    memory_context_limit = context_limit;
  })
