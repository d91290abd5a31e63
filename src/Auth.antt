-- ===== src/Auth.antt =====
-- src/auth.rs: the check of the bearer token before a request reaches its handler.
use personal_knowledge_os.Prelude.{
  ◌≡◌, refl, sym, ap, ◌∙◌, ◌↔◌, Bool, true, ◌&&◌, Option, none, some, ◌++◌, ◌==◌, if◌then◌else◌,
  Bool-cases, &&_iff, ==_iff, inl, inr,
}
use personal_knowledge_os.Text.{
  Text, codes, byte_len, text_eq, text_eq_iff, text_eq→eq, strip_prefix, strip_prefix_lem,
  strip_prefix-append,
}
use personal_knowledge_os.AppError.{Result, ok, err, unauthorized}

unfoldable pub bearer : Text
bearer = codes "Bearer "

-- `Option::and_then`
unfoldable pub and_then : Option Text → (Text → Option Text) → Option Text
and_then none f = none
and_then (some t) f = f t

-- `subtle::ConstantTimeEq` on the bytes of two texts of the same length: they are equal.
unfoldable pub matches : Text → Text → Bool
matches expected actual = byte_len expected == byte_len actual && text_eq expected actual

-- `require_auth`, up to `next.run`; the header is as text, none if it is missing or is not text.
unfoldable pub require_auth : Text → Option Text → Result (Unit {0})
unfolding and_then
require_auth api_key header = elim (and_then header (λ value. strip_prefix value bearer)) [
  | none ↦ err unauthorized
  | some provided ↦ if matches api_key provided then ok tt else err unauthorized
]

matches_iff : (expected actual : Text) → (matches expected actual ≡ true) ↔ (expected ≡ actual)
unfolding matches
matches_iff expected actual = (
  λ h. text_eq→eq expected actual (((&&_iff _ _).0 h).1),
  λ e. (&&_iff _ _).1 ((==_iff _ _).1 (ap byte_len e), (text_eq_iff expected actual).1 e),
)

provided_key :
    (api_key value : Text) → value ≡ bearer ++ api_key → strip_prefix value bearer ≡ some api_key
provided_key api_key value f = rw f (strip_prefix-append bearer api_key)

token_iff :
    (api_key value : Text) (provided : Option Text)
    → strip_prefix value bearer ≡ provided
    → (◌≡◌ {A = Result (Unit {0})}
        (elim provided [
          | none ↦ err unauthorized
          | some t ↦ if matches api_key t then ok tt else err unauthorized
        ])
        (ok tt))
      ↔ (value ≡ bearer ++ api_key)
token_iff api_key value none e = (λ h. cc, λ f. (let g = provided_key api_key value f in cc))
token_iff api_key value (some t) e = elim (Bool-cases (matches api_key t)) [
  | inl same ↦ (
    λ h.
        strip_prefix_lem value bearer t e
        ∙ ap (λ k. bearer ++ k) (sym ((matches_iff api_key t).0 same)),
    λ f. rw same,
  )
  | inr different ↦ (
    λ h. (let bad = rw different at h in cc),
    λ f.
        let g = provided_key api_key value f in
        let same = ap (matches api_key) (out (sym e ∙ g)) ∙ (matches_iff api_key api_key).1 refl in
        cc,
  )
]
  where
    out : {s u : Text} → some s ≡ some u → s ≡ u
    out h = cc

-- A request passes exactly if its Authorization header is `Bearer ` and then the configured key.
pub require_auth_iff :
    (api_key : Text) (header : Option Text)
    → (require_auth api_key header ≡ ok tt) ↔ (header ≡ some (bearer ++ api_key))
unfolding require_auth
require_auth_iff api_key none = (λ h. cc, λ e. cc)
require_auth_iff api_key (some value) =
    let (f, g) = token_iff api_key value (strip_prefix value bearer) refl in
    (λ h. ap some (f h), λ e. g (cc))
