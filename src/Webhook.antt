-- ===== src/Webhook.antt =====
-- internal/webhook/handler.go: the handler of GitHub's webhooks. HMAC-SHA256, hex and JSON are
-- parameters. Whether the body could be read is an argument, and so are the headers. A body is the
-- list of its bytes, of which 10 MiB are read.
pub mod Events
pub mod Signatures
pub mod Triggers
use brazier.Base.{
  ℕ, Text, text, ◌==◌, Bool, true, false, not, Option, none, some, List, [], ◌∷◌, has_prefix,
  trim_prefix, if◌then◌else◌, zero, suc,
}

pub record TriggerEvent : Type 0 where
  pub project : Text
  pub branch : Text
  pub tag : Text
  pub event : Text
  pub sha : Text

-- `githubPushPayload`
pub record PushPayload : Type 0 where
  pub ref : Text
  pub after : Text
  pub full_name : Text

-- crypto/hmac with sha256, encoding/hex and encoding/json.
pub record Codecs : Type 0 where
  pub hmac : (secret body : Text) → List ℕ
  pub hmac_equal : List ℕ → List ℕ → Bool
  pub decode_hex : Text → Option (List ℕ)
  pub unmarshal_push : Text → Option PushPayload

pub record Request : Type 0 where
  pub method : Text
  pub body : Option Text
  pub signature : Text
  pub event_type : Text

pub data Status : Type 0 where
  method_not_allowed bad_request unauthorized no_content : Status

abbrev pub heads : Text
heads = text "refs/heads/"

abbrev pub tags : Text
tags = text "refs/tags/"

abbrev pub event_of : PushPayload → Text → Text → TriggerEvent
event_of p branch tag = record {
  project = p.full_name;
  branch = branch;
  tag = tag;
  event = text "push";
  sha = p.after;
}

unfoldable pub push_event : PushPayload → TriggerEvent
push_event p =
    if has_prefix p.ref heads
    then event_of p (trim_prefix p.ref heads) []
    else if has_prefix p.ref tags
    then event_of p [] (trim_prefix p.ref tags)
    else event_of p [] []

unfoldable pub take {ℓ} : {A : Type ℓ} → ℕ → List A → List A
take zero xs = []
take (suc n) [] = []
take (suc n) (x ∷ xs) = x ∷ take n xs

-- `io.ReadAll(io.LimitReader(r.Body, 10<<20))`
abbrev pub read_limit : ℕ
read_limit = 10485760

unfoldable pub read_all : Option Text → Option Text
read_all none = none
read_all (some body) = some (take read_limit body)

module _ (codecs : Codecs) where
  unfoldable pub valid_signature : (secret body sig : Text) → Bool
  valid_signature secret body sig =
      if has_prefix sig (text "sha256=")
      then elim (codecs.decode_hex (trim_prefix sig (text "sha256="))) [
        | none ↦ false
        | some got ↦ codecs.hmac_equal got (codecs.hmac secret body)
      ]
      else false

  unfoldable pub parse_event : (event_type body : Text) → Option TriggerEvent
  parse_event event_type body =
      if event_type == text "push"
      then elim (codecs.unmarshal_push body) [ none ↦ none | some p ↦ some (push_event p) ]
      else none

  -- The end of `ServeHTTP`: the status, and the event that is handed to `trigger`.
  unfoldable pub trigger_event : (event_type body : Text) → Status × Option TriggerEvent
  trigger_event event_type body = (no_content, parse_event event_type body)

  abbrev pub has_secret : Text → Bool
  has_secret [] = false
  has_secret (c ∷ secret) = true

  -- `ServeHTTP`, once the body was read, or could not be.
  abbrev pub serve_body : (secret : Text) → Request → Option Text → Status × Option TriggerEvent
  serve_body secret r none = (bad_request, none)
  serve_body secret r (some body) =
      if has_secret secret
      then (if valid_signature secret body r.signature
          then trigger_event r.event_type body
          else (unauthorized, none))
      else trigger_event r.event_type body

  unfoldable pub serve_http : (secret : Text) → Request → Status × Option TriggerEvent
  serve_http secret r =
      if r.method == text "POST"
      then serve_body secret r (read_all r.body)
      else (method_not_allowed, none)
