-- ===== src/Examples/Admitting.antt =====
-- A push that is signed, and a session.
use brazier.Base.{
  ◌+◌, ==_refl, text, ◌==◌, ◌≡◌, refl, true, false, ◌∷◌, trim_space, trim_left, is_space, none,
  some, [], ◌↔◌, not, ltb, has_prefix, trim_prefix, cut_prefix,
}
use brazier.Auth.{
  generate_key, grpc_interceptor, ApiKey, Failures, http_middleware, check_token, extract_bearer,
  validate_key, find_key, find_session, create_session, validate_session, session_ttl, is_some,
}
use brazier.Cli.{resolve_api_key, auth_header}
use brazier.Cli.Keys.{NoSpace, grpc_interceptor-generate_key}
use brazier.Auth.Tokens.{Admits, http_middleware-Admits_iff}
use brazier.Auth.Admission.{validate_session-create_session}
use brazier.Webhook
use brazier.Webhook.{Codecs, Request, PushPayload, TriggerEvent, serve_http}
use brazier.Webhook.Triggers.{IsAccepted, serve_http-IsAccepted_iff}

-- A "signature" is the body itself.
abbrev pub open_codecs : Codecs
open_codecs = record {
  hmac = λ secret body. body;
  hmac_equal = λ a b. a == b;
  decode_hex = λ t. some t;
  unmarshal_push =
      λ body. some (record { ref = body; after = text "c0ffee"; full_name = text "org/repo" });
}

abbrev pub push : Request
push = record {
  method = text "POST";
  body = some (text "refs/heads/main");
  signature = text "sha256=refs/heads/main";
  event_type = text "push";
}

running : Unit {0}
unfolding Webhook.serve_http Webhook.read_all Webhook.take Webhook.trigger_event Webhook.parse_event
    Webhook.valid_signature Webhook.push_event text ◌==◌ has_prefix trim_prefix cut_prefix
running = tt

abbrev pub main_event : TriggerEvent
main_event = record {
  project = text "org/repo";
  branch = text "main";
  tag = [];
  event = text "push";
  sha = text "c0ffee";
}

-- The branch is what follows "refs/heads/".
pub main_pushed : (serve_http open_codecs (text "k") push).1 ≡ some main_event
unfolding running
main_pushed = refl

serve_http-IsAccepted_iff_example :
    ((serve_http open_codecs (text "k") push).1 ≡ some main_event)
    ↔ IsAccepted open_codecs (text "k") push main_event
serve_http-IsAccepted_iff_example = serve_http-IsAccepted_iff open_codecs (text "k") push main_event

no_session : find_session (text "t") [] ≡ none
unfolding find_session
no_session = refl

validate_session-create_session_example :
    let created = (create_session false (text "t") (text "1") (text "ann") 5 []).1 in
    let (found, left) = validate_session false false (text "t") 90000000 created in
    (is_some found ≡ not (ltb (5 + session_ttl) 90000000))
    × (is_some (find_session (text "t") left) ≡ not (ltb (5 + session_ttl) 90000000))
validate_session-create_session_example =
    validate_session-create_session (text "t") (text "1") (text "ann") 5 90000000 [] no_session

-- The key "bz_1", whose hash is itself.
abbrev api_key : ApiKey
api_key = record { id = text "1"; name = text "ci"; hash = text "bz_1"; created_at = 1 }

abbrev nothing_fails : Failures
nothing_fails = record { keys = false; sessions = false; delete = false }

checking : Unit {0}
unfolding http_middleware check_token extract_bearer validate_key find_key validate_session
    find_session has_prefix trim_prefix cut_prefix trim_space trim_left is_space text ◌==◌
checking = tt

let_in : (http_middleware ◌==◌ nothing_fails (api_key ∷ []) 5 true (text "Bearer bz_1") []).0 ≡ true
unfolding checking
let_in = refl

kept_out :
    (http_middleware ◌==◌ nothing_fails (api_key ∷ []) 5 true (text "Bearer bz_2") []).0 ≡ false
unfolding checking
kept_out = refl

http_middleware-Admits_iff_example :
    ((http_middleware ◌==◌ nothing_fails (api_key ∷ []) 5 true (text "Bearer bz_1") []).0 ≡ true)
    ↔ Admits ◌==◌ nothing_fails (api_key ∷ []) 5 [] (extract_bearer (text "Bearer bz_1"))
http_middleware-Admits_iff_example =
    http_middleware-Admits_iff ◌==◌ nothing_fails (api_key ∷ []) 5 [] (text "Bearer bz_1")

ab-NoSpace : NoSpace (text "ab")
unfolding text is_space
ab-NoSpace = (refl, (refl, tt))

bz_ab_shown :
    (generate_key false (text "ab") (text "bz_ab") (text "2") (text "ann") 3 (api_key ∷ [])).0
    ≡ some (text "bz_ab")
unfolding generate_key text
bz_ab_shown = refl

grpc_interceptor-generate_key_example :
    (grpc_interceptor ◌==◌ nothing_fails
      (generate_key false (text "ab") (text "bz_ab") (text "2") (text "ann") 3 (api_key ∷ [])).1
      5
      true
      (some (auth_header (resolve_api_key [] (text "bz_ab"))))
      []).0
    ≡ true
grpc_interceptor-generate_key_example =
    grpc_interceptor-generate_key ◌==◌ (text "ab") (text "bz_ab") (text "2") (text "ann")
      (text "bz_ab") [] (text "bz_ab") 3 5 (api_key ∷ []) nothing_fails [] bz_ab_shown refl
      (==_refl (text "bz_ab")) ab-NoSpace refl
