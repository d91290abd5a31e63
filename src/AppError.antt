-- ===== src/AppError.antt =====
-- src/error.rs: the error type, its text, and the response that it becomes.
pub mod Response
use personal_knowledge_os.Prelude.{
  ℕ, ◌≤◌, ◌≡◌, refl, ◌⊎◌, Bool, List, [], ◌++◌, leb, if◌then◌else◌, arith, ◌&&◌,
}
use personal_knowledge_os.Text.{Text, codes}

-- `sqlx::Error` as far as the code looks: a database error with its SQLSTATE, or any other.
pub data SqlxError : Type 0 where
  database_error : Text → SqlxError
  other_error : Text → SqlxError

pub data AppError : Type 0 where
  unauthorized : AppError
  not_found bad_request conflict : Text → AppError
  database : SqlxError → AppError
  migration upstream config : Text → AppError

-- `Result<A, AppError>`
pub data Result (A : Type 0) : Type 0 where
  ok : A → Result A
  err : AppError → Result A

-- `StatusCode` and `ErrorPayload` of `into_response`
pub record ErrorResponse : Type 0 where
  pub status : ℕ
  pub code : Text
  pub message : Text

-- the text of an sqlx error is the library's
sqlx_text : SqlxError → Text
sqlx_text (database_error c) = c
sqlx_text (other_error t) = t

-- the `#[error(...)]` formats
unfoldable pub to_string : AppError → Text
unfolding sqlx_text
to_string unauthorized = codes "unauthorized"
to_string (not_found t) = codes "not found: " ++ t
to_string (bad_request t) = codes "invalid request: " ++ t
to_string (conflict t) = codes "conflict: " ++ t
to_string (database e) = codes "database error: " ++ sqlx_text e
to_string (migration t) = codes "migration error: " ++ t
to_string (upstream t) = codes "upstream error: " ++ t
to_string (config t) = codes "configuration error: " ++ t

unfoldable pub status_of : AppError → ℕ
status_of unauthorized = 401
status_of (not_found _) = 404
status_of (bad_request _) = 400
status_of (conflict _) = 409
status_of _ = 500

unfoldable pub code_of : AppError → Text
code_of unauthorized = codes "unauthorized"
code_of (not_found _) = codes "not_found"
code_of (bad_request _) = codes "bad_request"
code_of (conflict _) = codes "conflict"
code_of _ = codes "internal_error"

-- `StatusCode::is_server_error`
unfoldable pub is_server_error : ℕ → Bool
is_server_error status = leb 500 status && leb status 599

-- `into_response`
unfoldable pub into_response : AppError → ErrorResponse
unfolding status_of code_of is_server_error to_string
into_response e = record {
  status = status_of e;
  code = code_of e;
  message = if is_server_error (status_of e) then codes "internal server error" else to_string e;
}

abbrev pub IsInternal : AppError → Type 0
IsInternal (database _) = Unit
IsInternal (migration _) = Unit
IsInternal (upstream _) = Unit
IsInternal (config _) = Unit
IsInternal _ = ⊥
