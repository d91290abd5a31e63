-- ===== src/Services.antt =====
-- What the clients of the language model and of the embedding provider take from reqwest and
-- serde_json: the answer to a request at a tick, and the two conversions of JSON text.
use personal_knowledge_os.Prelude.{ℕ, suc, ◌&&◌, Bool, List, [], ◌∷◌, leb, ltb, if◌then◌else◌, ◌==◌}
use personal_knowledge_os.Text.{Text}
use personal_knowledge_os.Values.{Vector, Value}
use personal_knowledge_os.AppError.{ok}
use personal_knowledge_os.Db.Action.{Action}
use personal_knowledge_os.Extraction.Verifier.{ExtractedMemory}

-- `Result<T, E>` with the text of the error
pub data Decoded (A : Type 0) : Type 0 where
  decoded : A → Decoded A
  undecodable : Text → Decoded A

-- a response: `StatusCode`, its text, and `json::<T>()` of its body
pub record Response (A : Type 0) : Type 0 where
  pub status : ℕ
  pub status_text : Text
  pub body : Decoded A

-- the result of `send()`
pub data Sent (A : Type 0) : Type 0 where
  not_sent : Text → Sent A
  answered : Response A → Sent A

pub record ChatMessage : Type 0 where
  pub role : Text
  pub content : Text

-- `ChatRequest` with its URL and bearer token
pub record ChatRequest : Type 0 where
  pub url : Text
  pub bearer : Text
  pub model : Text
  pub messages : List ChatMessage

-- `EmbeddingRequest` with its URL and bearer token
pub record EmbeddingRequest : Type 0 where
  pub url : Text
  pub bearer : Text
  pub model : Text
  pub input : Text
  pub dimensions : ℕ

-- The answers at each tick. A `ChatResponse` is the `content` of its choices, an `EmbeddingResponse` the
-- `embedding` of its data.
pub record Services : Type 0 where
  pub chat : ℕ → ChatRequest → Sent (List Value)
  pub embeddings : ℕ → EmbeddingRequest → Sent (List Vector)
  -- `serde_json::to_string`
  pub json_text : Value → Text
  -- `serde_json::from_str::<ExtractionEnvelope>`, its `memories`
  pub parse_envelope : Text → Decoded (List ExtractedMemory)
  -- `usize` by `{}`
  pub decimal : ℕ → Text

-- `StatusCode::is_success`
unfoldable pub is_success : ℕ → Bool
is_success status = leb 200 status && ltb status 300

-- A call of a service takes a tick and leaves the tables alone.
abbrev pub call : {A : Type 0} → (ℕ → A) → Action A
call f env w = (ok (f w.tick), record w { tick = suc w.tick })

push_unless_slash : ℕ → Text → Text
push_unless_slash c [] = if c == b'/' then [] else c ∷ []
push_unless_slash c (d ∷ s) = c ∷ d ∷ s

-- `str::trim_end_matches('/')`
unfoldable pub trim_end_slashes : Text → Text
unfolding push_unless_slash
trim_end_slashes [] = []
trim_end_slashes (c ∷ s) = push_unless_slash c (trim_end_slashes s)
