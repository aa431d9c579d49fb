-- ===== src/Auth/Tokens.antt =====
-- Which requests the checks of middleware.go let pass.
use brazier.Base.{
  ℕ, ◌≤◌, Text, text, ◌≡◌, ◌↔◌, refl, sym, Bool, true, false, Option, none, some, List, [], ◌∷◌,
  Among, has_prefix, cut_prefix, arith, Bool-cases, Option-cases, some_inj, inl, inr,
}
use brazier.Auth.{
  ApiKey, Session, Failures, api_key_prefix, find_key, validate_key, find_session, validate_session,
  extract_bearer, is_some, check_token, http_middleware, validate_grpc, grpc_interceptor,
}

module _ (matches : Text → Text → Bool) where
  find_key_sound :
      (raw : Text) (k : ApiKey) (keys : List ApiKey)
      → find_key matches raw keys ≡ some k
      → Among k keys × (matches k.hash raw ≡ true)
  unfolding find_key
  find_key_sound raw k [] h = cc
  find_key_sound raw k (x ∷ keys) h = elim (Bool-cases (matches x.hash raw)) [
    | inl fits ↦ let e = sym (some_inj (rw fits at h)) in (inl e, rw e fits)
    | inr other ↦ let (among, fits) = find_key_sound raw k keys (rw other at h) in (inr among, fits)
  ]

  find_key_complete :
      (raw : Text) (k : ApiKey) (keys : List ApiKey)
      → Among k keys
      → matches k.hash raw ≡ true
      → is_some (find_key matches raw keys) ≡ true
  unfolding find_key
  find_key_complete raw k [] among fits = elim among [ ]
  find_key_complete raw k (x ∷ keys) (inl e) fits = rw (← e, fits) refl
  find_key_complete raw k (x ∷ keys) (inr among) fits =
      ground (arith, find_key_complete raw k keys among fits)

module _ (matches : Text → Text → Bool) (failures : Failures) (keys : List ApiKey) (now : ℕ)
    (sessions : List Session) where
  -- The token is an API key whose hash is stored, or the token of a session that has not expired.
  pub data Admits (token : Text) : Type 0 where
    by_key :
        has_prefix token api_key_prefix ≡ true
        → failures.keys ≡ false
        → (k : ApiKey) → Among k keys
        → matches k.hash token ≡ true
        → Admits token
    by_session :
        (c : ℕ) (cs : Text)
        → token ≡ c ∷ cs
        → has_prefix token api_key_prefix ≡ false
        → failures.sessions ≡ false
        → (s : Session) → find_session token sessions ≡ some s
        → now ≤ s.expires_at
        → Admits token

  validate_session-some :
      (token : Text)
      → is_some (validate_session failures.sessions failures.delete token now sessions).0 ≡ true
      → (failures.sessions ≡ false)
        × (s : Session) × (find_session token sessions ≡ some s)
        × (now ≤ s.expires_at)
  unfolding validate_session
  validate_session-some token h = elim (Bool-cases failures.sessions) [
    | inl bad ↦ cc (rw bad at h)
    | inr fine ↦ elim (Option-cases (find_session token sessions)) [
      | inl e ↦ cc (rw (fine, e) at h)
      | inr (s, e) ↦ let valid = rw (fine, e) at h in (fine, s, e, ground arith)
    ]
  ]

  validate_session_valid :
      (token : Text) (s : Session)
      → failures.sessions ≡ false
      → find_session token sessions ≡ some s
      → now ≤ s.expires_at
      → is_some (validate_session failures.sessions failures.delete token now sessions).0 ≡ true
  unfolding validate_session
  validate_session_valid token s fine found valid = rw (fine, found) (ground (arith, valid))

  validate_key-some :
      (token : Text)
      → is_some (validate_key failures.keys matches token keys) ≡ true
      → (failures.keys ≡ false) × (k : ApiKey) × Among k keys × (matches k.hash token ≡ true)
  unfolding validate_key
  validate_key-some token h = elim (Bool-cases failures.keys) [
    | inl bad ↦ cc (rw bad at h)
    | inr fine ↦ elim (Option-cases (find_key matches token keys)) [
      | inl e ↦ cc (rw (fine, e) at h)
      | inr (k, e) ↦
          let (among, fits) = find_key_sound matches token k keys e in (fine, k, among, fits)
    ]
  ]

  validate_key_valid :
      (token : Text) (k : ApiKey)
      → failures.keys ≡ false
      → Among k keys
      → matches k.hash token ≡ true
      → is_some (validate_key failures.keys matches token keys) ≡ true
  unfolding validate_key
  validate_key_valid token k fine among fits =
      rw fine (find_key_complete matches token k keys among fits)

  not-Admits-nil : ¬ Admits []
  unfolding has_prefix cut_prefix text
  not-Admits-nil (by_key prefix fine k among fits) = cc
  not-Admits-nil (by_session c cs e other fine s found valid) = cc

  Admits-of_check :
      (c : ℕ) (cs : Text)
      → (check_token matches failures keys now (c ∷ cs) sessions).0 ≡ true
      → Admits (c ∷ cs)
  unfolding check_token
  Admits-of_check c cs h = elim (Bool-cases (has_prefix (c ∷ cs) api_key_prefix)) [
    | inl prefix ↦
        let (fine, k, among, fits) = validate_key-some (c ∷ cs) (rw prefix at h) in
        by_key prefix fine k among fits
    | inr other ↦
        let (fine, s, found, valid) = validate_session-some (c ∷ cs) (rw other at h) in
        by_session c cs refl other fine s found valid
  ]

  check_of-Admits :
      (c : ℕ) (cs : Text)
      → Admits (c ∷ cs)
      → (check_token matches failures keys now (c ∷ cs) sessions).0 ≡ true
  unfolding check_token
  check_of-Admits c cs (by_key prefix fine k among fits) =
      rw prefix (validate_key_valid (c ∷ cs) k fine among fits)
  check_of-Admits c cs (by_session _ _ _ other fine s found valid) =
      rw other (validate_session_valid (c ∷ cs) s fine found valid)

  check_token-Admits :
      (token : Text)
      → ((check_token matches failures keys now token sessions).0 ≡ true) ↔ Admits token
  unfolding check_token
  check_token-Admits [] = (λ h. cc, λ a. absurd (not-Admits-nil a))
  check_token-Admits (c ∷ cs) = (Admits-of_check c cs, check_of-Admits c cs)

  -- With authentication enabled, `HTTPMiddleware` calls the next handler exactly where the bearer
  -- token of the header is an API key with a stored hash, or the token of a session that has not
  -- expired, and the statement that looks it up does not fail.
  pub http_middleware-Admits_iff :
      (header : Text)
      → ((http_middleware matches failures keys now true header sessions).0 ≡ true)
        ↔ Admits (extract_bearer header)
  unfolding http_middleware
  http_middleware-Admits_iff header = check_token-Admits (extract_bearer header)

  -- The first value of the header "authorization", or nothing.
  abbrev pub first_header : Option (List Text) → Text
  first_header none = []
  first_header (some []) = []
  first_header (some (v ∷ vals)) = v

  -- The interceptors of the gRPC server and the HTTP middleware let the same requests pass, and
  -- leave the same sessions; a request without the header counts as one with an empty header.
  pub grpc_interceptor-http_middleware :
      (enabled : Bool) (metadata : Option (List Text))
      → grpc_interceptor matches failures keys now enabled metadata sessions
        ≡ http_middleware matches failures keys now enabled (first_header metadata) sessions
  unfolding grpc_interceptor http_middleware validate_grpc extract_bearer check_token has_prefix
      cut_prefix text
  grpc_interceptor-http_middleware enabled none = refl
  grpc_interceptor-http_middleware enabled (some []) = refl
  grpc_interceptor-http_middleware enabled (some (v ∷ vals)) = refl
