-- ===== src/Config.antt =====
-- src/config.rs: the configuration and the way in which it is read from the environment.
-- `Numbers` has `str::parse` for integers, `Readers` the helpers of `from_env`, `Load` itself.
pub mod Numbers
pub mod Readers
pub mod Load
pub mod Sound
use personal_knowledge_os.Prelude.{ℕ, Bool, Option}
use personal_knowledge_os.Text.{Text}
use personal_knowledge_os.Values.{Uuid, F32, ℤ}

-- `bind_addr` is the text of the address.
pub record Config : Type 0 where
  pub bind_addr : Text
  pub database_url : Text
  pub owner_id : Uuid
  pub api_key : Text
  pub database_max_connections : ℕ
  pub lexical_backend : Text
  pub search_candidate_limit : ℕ
  pub search_result_limit : ℕ
  pub worker_poll_ms : ℕ
  pub worker_batch_size : ℤ
  pub worker_enabled : Bool
  pub openai_base_url : Option Text
  pub openai_api_key : Option Text
  pub embedding_model : Text
  pub embedding_dimensions : ℕ
  pub memory_base_url : Option Text
  pub memory_api_key : Option Text
  pub memory_model : Text
  pub memory_extraction_enabled : Bool
  pub memory_auto_promote_enabled : Bool
  pub memory_auto_promote_min_confidence : F32
  pub memory_auto_promote_min_importance : F32
  pub memory_keep_unpromoted_candidates : Bool
  pub memory_max_candidates_per_source : ℕ
  pub memory_context_limit : ℤ

pub data ConfigError : Type 0 where
  missing : Text → ConfigError
  invalid : Text → Text → ConfigError
