-- ===== src/AppError/Response.antt =====
-- What a client sees of an error of src/error.rs.
use personal_knowledge_os.Prelude.{◌≡◌, refl, sym, ◌∙◌}
use personal_knowledge_os.Text.{codes}
use personal_knowledge_os.AppError.{
  AppError, into_response, is_server_error, status_of, code_of, IsInternal, unauthorized, not_found,
  bad_request, conflict, database, migration, upstream, config,
}

-- Two errors that are both internal have the same response: what went wrong inside does not leave the
-- server.
pub into_response_opaque :
    (e f : AppError) → IsInternal e → IsInternal f → into_response e ≡ into_response f
unfolding into_response status_of code_of is_server_error
into_response_opaque e f he hf = opaque e he ∙ sym (opaque f hf)
  where
    opaque :
        (e : AppError)
        → IsInternal e
        → into_response e ≡ record {
          status = 500;
          code = codes "internal_error";
          message = codes "internal server error";
        }
    opaque (database x) h = refl
    opaque (migration x) h = refl
    opaque (upstream x) h = refl
    opaque (config x) h = refl
    opaque unauthorized h = absurd h
    opaque (not_found x) h = absurd h
    opaque (bad_request x) h = absurd h
    opaque (conflict x) h = absurd h
