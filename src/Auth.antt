-- ===== src/Auth.antt =====
-- internal/auth: API keys (apikey.go), sessions (session.go) and the two checks of a request
-- (middleware.go). Hashing is the parameter `matches`, as `bcrypt.CompareHashAndPassword`; random
-- tokens, hashes and the clock are arguments. A statement that fails is an argument `fails`.
pub mod Admission
pub mod Stores
pub mod Tokens
pub mod Oauth
use brazier.Base.{
  ℕ, ◌+◌, Text, text, ◌==◌, Bool, true, false, not, Option, none, some, List, [], ◌∷◌, ◌++◌, keep,
  ltb, has_prefix, trim_prefix, trim_space, if◌then◌else◌,
}

pub record ApiKey : Type 0 where
  pub id : Text
  pub name : Text
  pub hash : Text
  pub created_at : ℕ

-- Times are in milliseconds.
pub record Session : Type 0 where
  pub token : Text
  pub user_id : Text
  pub login : Text
  pub expires_at : ℕ

abbrev pub api_key_prefix : Text
api_key_prefix = text "bz_"

-- 24 hours.
abbrev pub session_ttl : ℕ
session_ttl = 86400000

-- `Generate`, with the drawn bytes in hexadecimal, the hash and the new id.
unfoldable pub generate_key :
    (fails : Bool)
    → (drawn hash id name : Text) → (now : ℕ) → List ApiKey
    → Option Text × List ApiKey
generate_key fails drawn hash id name now keys = if fails then (none, keys) else (
  some (api_key_prefix ++ drawn),
  keys ++ record { id = id; name = name; hash = hash; created_at = now } ∷ [],
)

-- `Validate`: the first key whose hash is that of `raw`.
unfoldable pub find_key : (Text → Text → Bool) → Text → List ApiKey → Option ApiKey
find_key matches raw [] = none
find_key matches raw (k ∷ keys) = if matches k.hash raw then some k else find_key matches raw keys

unfoldable pub validate_key :
    (fails : Bool) → (Text → Text → Bool) → Text → List ApiKey → Option ApiKey
validate_key fails matches raw keys = if fails then none else find_key matches raw keys

unfoldable pub delete_key : Text → List ApiKey → List ApiKey
delete_key id keys = keep (λ k. not (k.id == id)) keys

unfoldable pub create_session :
    (fails : Bool)
    → (token user_id login : Text) → (now : ℕ) → List Session
    → Option Session × List Session
create_session fails token user_id login now sessions =
    let made : Session = record {
      token = token;
      user_id = user_id;
      login = login;
      expires_at = now + session_ttl;
    } in
    if fails then (none, sessions) else (some made, sessions ++ made ∷ [])

unfoldable pub find_session : Text → List Session → Option Session
find_session token [] = none
find_session token (s ∷ sessions) = if s.token == token then some s else find_session token sessions

unfoldable pub delete_session : Text → List Session → List Session
delete_session token sessions = keep (λ s. not (s.token == token)) sessions

-- The end of `Validate`: an expired session is deleted, and no error of that is looked at.
abbrev pub unexpired :
    (delete_fails : Bool)
    → Text
    → (now : ℕ) → List Session
    → Option Session
    → Option Session × List Session
unexpired delete_fails token now sessions none = (none, sessions)
unexpired delete_fails token now sessions (some s) =
    if ltb s.expires_at now
    then (none, if delete_fails then sessions else delete_session token sessions)
    else (some s, sessions)

unfoldable pub validate_session :
    (fails delete_fails : Bool) → Text → (now : ℕ) → List Session → Option Session × List Session
validate_session fails delete_fails token now sessions =
    if fails
    then (none, sessions)
    else unexpired delete_fails token now sessions (find_session token sessions)

unfoldable pub delete_expired : (now : ℕ) → List Session → List Session
delete_expired now sessions = keep (λ s. not (ltb s.expires_at now)) sessions

unfoldable pub extract_bearer : Text → Text
extract_bearer header =
    if has_prefix header (text "Bearer ")
    then trim_space (trim_prefix header (text "Bearer "))
    else []

abbrev pub is_some {ℓ} : {A : Type ℓ} → Option A → Bool
is_some none = false
is_some (some a) = true

-- Which of the statements fail while a request is checked.
pub record Failures : Type 0 where
  pub keys : Bool
  pub sessions : Bool
  pub delete : Bool

module _ (matches : Text → Text → Bool) (failures : Failures) (keys : List ApiKey) (now : ℕ) where
  -- The check of the token that `HTTPMiddleware` and `validateGRPC` share; true lets it pass.
  unfoldable pub check_token : Text → List Session → Bool × List Session
  check_token [] sessions = (false, sessions)
  check_token (c ∷ cs) sessions =
      let token = c ∷ cs in
      let (found, sessions') =
        validate_session failures.sessions failures.delete token now sessions in
      if has_prefix token api_key_prefix
      then (is_some (validate_key failures.keys matches token keys), sessions)
      else (is_some found, sessions')

  -- `HTTPMiddleware`: whether the next handler is called.
  unfoldable pub http_middleware : (auth_enabled : Bool) → Text → List Session → Bool × List Session
  http_middleware auth_enabled header sessions =
      if auth_enabled then check_token (extract_bearer header) sessions else (true, sessions)

  -- `validateGRPC`: the values of the header "authorization", or no metadata.
  unfoldable pub validate_grpc : Option (List Text) → List Session → Bool × List Session
  validate_grpc none sessions = (false, sessions)
  validate_grpc (some []) sessions = (false, sessions)
  validate_grpc (some (v ∷ vals)) sessions = check_token (extract_bearer v) sessions

  unfoldable pub grpc_interceptor :
      (auth_enabled : Bool) → Option (List Text) → List Session → Bool × List Session
  grpc_interceptor auth_enabled metadata sessions =
      if auth_enabled then validate_grpc metadata sessions else (true, sessions)
