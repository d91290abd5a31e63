-- ===== src/Tests/Configuration.antt =====
-- The configuration of an environment with the two variables that are required, and extraction enabled.
use personal_knowledge_os.Prelude.{◌≡◌, refl, true, false, none, some, if◌then◌else◌}
use personal_knowledge_os.Text.{codes, text_eq, trim, is_whitespace, byte_len, to_ascii_lowercase}
use personal_knowledge_os.Values.{pos, f32_0_5, is_finite, in_unit, one_scaled}
use personal_knowledge_os.Config.{Config}
use personal_knowledge_os.Config.Numbers.{value, parse_unsigned, parse_i64}
use personal_knowledge_os.Config.Readers.{
  Variables, Parsers, loaded, parse, required, optional, not_blank, parse_bool, is_yes, is_no,
  validate_unit_interval,
}
use personal_knowledge_os.Config.Load.{from_env}
use personal_knowledge_os.Config.Sound.{IsSound, from_env-IsSound}

abbrev variables_example : Variables
variables_example name =
    if text_eq name (codes "DATABASE_URL")
    then some (codes "postgres://db")
    else if text_eq name (codes "PKOS_API_KEY")
    then some (codes "0123456789abcdef0123456789abcdef")
    else if text_eq name (codes "PKOS_OPENAI_BASE_URL")
    then some (codes "http://llm/v1/")
    else if text_eq name (codes "PKOS_OPENAI_API_KEY")
    then some (codes "k")
    else if text_eq name (codes "PKOS_MEMORY_EXTRACTION_ENABLED")
    then some (codes "Yes")
    else none

abbrev parsers_example : Parsers
parsers_example = record {
  parse_addr = value;
  parse_uuid = λ t. value 1;
  parse_f32 = λ t. value f32_0_5;
}

abbrev pub config_example : Config
config_example = record {
  bind_addr = codes "0.0.0.0:8080";
  database_url = codes "postgres://db";
  owner_id = 1;
  api_key = codes "0123456789abcdef0123456789abcdef";
  database_max_connections = 20;
  lexical_backend = codes "pgroonga";
  search_candidate_limit = 40;
  search_result_limit = 12;
  worker_poll_ms = 1000;
  worker_batch_size = pos 8;
  worker_enabled = true;
  openai_base_url = some (codes "http://llm/v1/");
  openai_api_key = some (codes "k");
  embedding_model = codes "text-embedding-3-small";
  embedding_dimensions = 1536;
  memory_base_url = some (codes "http://llm/v1/");
  memory_api_key = some (codes "k");
  memory_model = codes "gpt-5-mini";
  memory_extraction_enabled = true;
  memory_auto_promote_enabled = true;
  memory_auto_promote_min_confidence = f32_0_5;
  memory_auto_promote_min_importance = f32_0_5;
  memory_keep_unpromoted_candidates = false;
  memory_max_candidates_per_source = 8;
  memory_context_limit = pos 50;
}

loads : from_env parsers_example variables_example ≡ loaded config_example
unfolding from_env parse required optional not_blank parse_bool is_yes is_no validate_unit_interval
    text_eq codes trim is_whitespace byte_len parse_unsigned to_ascii_lowercase is_finite f32_0_5
    in_unit one_scaled parse_i64
loads = refl

from_env-IsSound_example : IsSound config_example
from_env-IsSound_example = from_env-IsSound parsers_example variables_example config_example loads
