-- ===== src/Cli/Keys.antt =====
-- A key that the master generates, sent by the command line.
use mathlib.Core.List.{reverse, reverse-cons, reverse-reverse}
use brazier.Base.{
  some_inj, ℕ, Text, text, ◌≡◌, refl, Bool, true, false, some, List, [], ◌∷◌, ◌++◌, All, Among,
  All-snoc, trim_space, trim_left, is_space, inl, inr,
}
use brazier.Base.Strings.Affixes.{has_prefix_iff, trim_prefix-append}
use brazier.Auth.{
  ApiKey, Session, Failures, api_key_prefix, generate_key, extract_bearer, grpc_interceptor,
}
use brazier.Auth.Tokens.{
  Admits, by_key, http_middleware-Admits_iff, grpc_interceptor-http_middleware,
}
use brazier.Cli.{resolve_api_key, auth_header}

abbrev pub NoSpace : Text → Type 0
NoSpace = All (λ c. is_space c ≡ false)

NoSpace-reverse : (s : Text) → NoSpace s → NoSpace (reverse s)
NoSpace-reverse [] h = h
NoSpace-reverse (c ∷ s) h =
    rw (reverse-cons c s)
      (All-snoc (λ d. is_space d ≡ false) (reverse s) c (NoSpace-reverse s h.1) h.0)

trim_left-NoSpace : (s : Text) → NoSpace s → trim_left s ≡ s
unfolding trim_left
trim_left-NoSpace [] h = refl
trim_left-NoSpace (c ∷ s) h = rw h.0 refl

trim_space-NoSpace : (s : Text) → NoSpace s → trim_space s ≡ s
unfolding trim_space
trim_space-NoSpace s h =
    rw
      (
        trim_left-NoSpace s h,
        trim_left-NoSpace (reverse s) (NoSpace-reverse s h),
        reverse-reverse s,
      )
      refl

key-NoSpace : (drawn : Text) → NoSpace drawn → NoSpace (api_key_prefix ++ drawn)
unfolding text is_space
key-NoSpace drawn h = (refl, (refl, (refl, h)))

extract_bearer-header : (key : Text) → NoSpace key → extract_bearer (text "Bearer " ++ key) ≡ key
unfolding extract_bearer
extract_bearer-header key h =
    rw
      (
        (has_prefix_iff (text "Bearer " ++ key) (text "Bearer ")).1 (key, refl),
        trim_prefix-append (text "Bearer ") key,
      )
      (trim_space-NoSpace key h)

Among-last : {A : Type 0} (a : A) (xs : List A) → Among a (xs ++ a ∷ [])
Among-last a [] = inl refl
Among-last a (x ∷ xs) = inr (Among-last a xs)

auth_header-key :
    (drawn : Text)
    → auth_header (api_key_prefix ++ drawn) ≡ (text "Bearer " ++ (api_key_prefix ++ drawn)) ∷ []
unfolding text
auth_header-key drawn = refl

-- A key that Generate returns is let pass by the interceptors of the gRPC server, where it is given
-- to the command line by the flag, or by the environment and no flag. No statement fails, the key
-- matches its own hash, and what was drawn has no space, as it is hexadecimal.
pub grpc_interceptor-generate_key :
    (matches : Text → Text → Bool) (drawn hash id name raw flag variable : Text) (made now : ℕ)
    (keys : List ApiKey) (failures : Failures) (sessions : List Session)
    → (generate_key false drawn hash id name made keys).0 ≡ some raw
    → resolve_api_key flag variable ≡ raw
    → matches hash raw ≡ true
    → NoSpace drawn
    → failures.keys ≡ false
    → (grpc_interceptor matches failures
        (generate_key false drawn hash id name made keys).1
        now
        true
        (some (auth_header (resolve_api_key flag variable)))
        sessions).0
      ≡ true
unfolding generate_key
grpc_interceptor-generate_key matches drawn hash id name raw flag variable made now keys failures
      sessions shown given matching hex working =
    let key = api_key_prefix ++ drawn in
    let is_raw : key ≡ raw = some_inj shown in
    let header = text "Bearer " ++ key in
    let stored : ApiKey = record { id = id; name = name; hash = hash; created_at = made } in
    let keys' = keys ++ stored ∷ [] in
    let admitted : Admits matches failures keys' now sessions key =
      by_key ((has_prefix_iff key api_key_prefix).1 (drawn, refl)) working stored
        (Among-last stored keys) (rw is_raw matching) in
    let passes =
      (http_middleware-Admits_iff matches failures keys' now sessions header).1
        (rw (extract_bearer-header key (key-NoSpace drawn hex)) admitted) in
    rw
      (
        given,
        ← is_raw,
        auth_header-key drawn,
        grpc_interceptor-http_middleware matches failures keys' now sessions true
            (some (header ∷ [])),
      )
      passes
