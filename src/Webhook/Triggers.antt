-- ===== src/Webhook/Triggers.antt =====
-- Which requests trigger a run.
use brazier.Base.{
  Text, text, ◌==◌, ==_iff, ==_refl, ◌∙◌, ap, ◌≡◌, refl, sym, true, Option, none, some, Bool-cases,
  Option-cases, inl, inr, some_inj, ◌↔◌, ◌≢◌, [], ◌∷◌, subst,
}
use brazier.Webhook.{
  TriggerEvent, PushPayload, Codecs, Request, push_event, valid_signature, parse_event,
  trigger_event, serve_body, serve_http, has_secret, take, read_all,
}
use brazier.Webhook.Events.{IsEventOf, push_event-Names, event_eq, push_event-IsEventOf}
use brazier.Webhook.Signatures.{IsSigned, valid_signature-IsSigned, IsSigned-valid_signature}

-- A POST whose body was read, up to 10 MiB, and, where there is a secret, is signed with it; and
-- the body is the payload of a push.
pub record IsAccepted (codecs : Codecs) (secret : Text) (r : Request) (e : TriggerEvent)
    : Type 0 where
  pub post : r.method ≡ text "POST"
  pub push : r.event_type ≡ text "push"
  pub sent : Text
  pub read : r.body ≡ some sent
  pub signed : secret ≢ [] → IsSigned codecs secret (take 10485760 sent) r.signature
  pub payload : PushPayload
  pub parsed : codecs.unmarshal_push (take 10485760 sent) ≡ some payload
  pub made : IsEventOf payload e

-- A POST whose body was read and passes the tests.
record Passes (codecs : Codecs) (secret : Text) (r : Request) (e : TriggerEvent) : Type 0 where
  pub post : r.method ≡ text "POST"
  pub push : r.event_type ≡ text "push"
  pub body : Text
  pub read : read_all r.body ≡ some body
  pub signed :
      has_secret codecs secret ≡ true → valid_signature codecs secret body r.signature ≡ true
  pub payload : PushPayload
  pub parsed : codecs.unmarshal_push body ≡ some payload
  pub made : e ≡ push_event payload

has_secret_iff :
    (codecs : Codecs) (secret : Text) → (has_secret codecs secret ≡ true) ↔ (secret ≢ [])
has_secret_iff codecs [] = (λ h. cc, λ h. absurd (h refl))
has_secret_iff codecs (c ∷ secret) = (λ h e. cc, λ h. refl)

read_all-some :
    (o : Option Text) (body : Text)
    → read_all o ≡ some body
    → (sent : Text) × (o ≡ some sent) × (body ≡ take 10485760 sent)
unfolding read_all
read_all-some none body h = cc
read_all-some (some sent) body h = (sent, refl, sym (some_inj h))

module _ (codecs : Codecs) (secret : Text) where
  parse_event-some :
      (type body : Text) (e : TriggerEvent)
      → parse_event codecs type body ≡ some e
      → (type ≡ text "push")
        × (p : PushPayload) × (codecs.unmarshal_push body ≡ some p)
        × (e ≡ push_event p)
  unfolding parse_event
  parse_event-some type body e h = elim (Bool-cases (type == text "push")) [
    | inr other ↦ cc (rw (parse_event, other) at h)
    | inl push ↦ elim (Option-cases (codecs.unmarshal_push body)) [
      | inl e' ↦ cc (rw (parse_event, push, e') at h)
      | inr (p, parsed) ↦ (
        (==_iff type (text "push")).0 push,
        p,
        parsed,
        some_inj (sym (rw (parse_event, push, parsed) at h)),
      )
    ]
  ]

  parse_event-push :
      (type body : Text) (p : PushPayload)
      → type ≡ text "push"
      → codecs.unmarshal_push body ≡ some p
      → parse_event codecs type body ≡ some (push_event p)
  unfolding parse_event
  parse_event-push type body p push parsed = rw (parse_event, push, ==_refl (text "push"), parsed)

  -- What is asked of the signature.
  abbrev Signed : Request → Text → Type 0
  Signed r body =
      has_secret codecs secret ≡ true → valid_signature codecs secret body r.signature ≡ true

  finish :
      (r : Request) (e : TriggerEvent) (body : Text)
      → r.method == text "POST" ≡ true
      → read_all r.body ≡ some body
      → Signed r body
      → parse_event codecs r.event_type body ≡ some e
      → Passes codecs secret r e
  finish r e body post read signed h =
      let (push, p, parsed, made) = parse_event-some r.event_type body e h in
      record {
        post = (==_iff r.method (text "POST")).0 post;
        push = push;
        body = body;
        read = read;
        signed = signed;
        payload = p;
        parsed = parsed;
        made = made;
      }

  accepted_body :
      (r : Request) (e : TriggerEvent) (o : Option Text)
      → r.method == text "POST" ≡ true
      → read_all r.body ≡ o
      → (serve_body codecs secret r o).1 ≡ some e
      → Passes codecs secret r e
  unfolding trigger_event
  accepted_body r e none post read h = cc
  accepted_body r e (some body) post read h = elim (Bool-cases (has_secret codecs secret)) [
    | inl s ↦ elim (Bool-cases (valid_signature codecs secret body r.signature)) [
      | inl v ↦ finish r e body post read (λ _. v) (rw (s, v) at h)
      | inr v ↦ cc (rw (s, v) at h)
    ]
    | inr s ↦ finish r e body post read (λ s'. cc) (rw s at h)
  ]

  Passes-serve_http :
      (r : Request) (e : TriggerEvent)
      → (serve_http codecs secret r).1 ≡ some e
      → Passes codecs secret r e
  unfolding serve_http
  Passes-serve_http r e h = elim (Bool-cases (r.method == text "POST")) [
    | inl post ↦ accepted_body r e (read_all r.body) post refl (rw (serve_http, post) at h)
    | inr other ↦ cc (rw (serve_http, other) at h)
  ]

  serve_body-some :
      (r : Request) (body : Text)
      → Signed r body
      → (serve_body codecs secret r (some body)).1 ≡ parse_event codecs r.event_type body
  unfolding trigger_event
  serve_body-some r body signed = elim (Bool-cases (has_secret codecs secret)) [
    | inl s ↦ rw (s, signed s) refl
    | inr s ↦ rw s refl
  ]

  serve_http-Passes :
      (r : Request) (e : TriggerEvent)
      → Passes codecs secret r e
      → (serve_http codecs secret r).1 ≡ some e
  unfolding serve_http
  serve_http-Passes r e a =
      rw (serve_http, a.post, ==_refl (text "POST"))
        (ap (λ o. (serve_body codecs secret r o).1) a.read
          ∙ serve_body-some r a.body a.signed
          ∙ parse_event-push r.event_type a.body a.payload a.push a.parsed
          ∙ ap some (sym a.made))

  Passes-IsAccepted :
      (r : Request) (e : TriggerEvent) → Passes codecs secret r e → IsAccepted codecs secret r e
  Passes-IsAccepted r e a =
      let (sent, present, cut) = read_all-some r.body a.body a.read in
      record {
        post = a.post;
        push = a.push;
        sent = sent;
        read = present;
        signed = λ keyed.
            subst (λ body. IsSigned codecs secret body r.signature) cut
              (valid_signature-IsSigned codecs secret a.body r.signature
                (a.signed ((has_secret_iff codecs secret).1 keyed)));
        payload = a.payload;
        parsed = sym (ap codecs.unmarshal_push cut) ∙ a.parsed;
        made = subst (IsEventOf a.payload) (sym a.made) (push_event-IsEventOf a.payload);
      }

  IsAccepted-Passes :
      (r : Request) (e : TriggerEvent) → IsAccepted codecs secret r e → Passes codecs secret r e
  unfolding read_all
  IsAccepted-Passes r e a = record {
    post = a.post;
    push = a.push;
    body = take 10485760 a.sent;
    read = ap read_all a.read;
    signed = λ keyed.
        IsSigned-valid_signature codecs secret (take 10485760 a.sent) r.signature
          (a.signed ((has_secret_iff codecs secret).0 keyed));
    payload = a.payload;
    parsed = a.parsed;
    made =
        event_eq e a.payload a.made
        ∙ sym (push_event-Names a.payload a.payload.ref e.branch e.tag refl a.made.names);
  }

  -- `ServeHTTP` hands an event to the trigger exactly where the request is a POST with the event
  -- type "push" whose body was read; where a secret is set, the signature is "sha256=" and the
  -- digits of the HMAC of the first 10 MiB of the body under it; and these are the payload of a
  -- push. The event then has the project and the commit of the payload, and its branch is what
  -- follows "refs/heads/" in the ref, its tag what follows "refs/tags/"; the other is empty, and
  -- both are for other refs.
  pub serve_http-IsAccepted_iff :
      (r : Request) (e : TriggerEvent)
      → ((serve_http codecs secret r).1 ≡ some e) ↔ IsAccepted codecs secret r e
  serve_http-IsAccepted_iff r e = (
    λ h. Passes-IsAccepted r e (Passes-serve_http r e h),
    λ a. serve_http-Passes r e (IsAccepted-Passes r e a),
  )
