-- ===== src/Secrets.antt =====
-- internal/secrets: `InjectSecrets` (inject.go), over any backend, and the backend that keeps the
-- secrets encrypted in the database (db.go). AES-GCM and base64 are parameters, and so is the
-- nonce that is drawn; which statements fail is an argument.
pub mod Injection
pub mod Sealing
pub mod Opening
pub mod Cloud
use brazier.Base.{
  ℕ, zero, suc, Text, ◌==◌, Bool, true, false, Option, none, some, List, [], ◌∷◌, ◌++◌, length, ltb,
  if◌then◌else◌,
}
use brazier.Proto.{EnvVar, JobSpec, JobDispatch}

-- The loop over the names: the variables that were appended, and the name that had no value.
unfoldable pub resolve : (Text → Option Text) → List Text → List EnvVar × Option Text
resolve get [] = ([], none)
resolve get (name ∷ names) =
    let (vars, missing) = resolve get names in
    elim (get name) [
      | none ↦ ([], some name)
      | some value ↦ (record { key = name; value = value } ∷ vars, missing)
    ]

abbrev pub inject_spec :
    (Text → Option Text) → JobDispatch → Option JobSpec → JobDispatch × Option Text
inject_spec get j none = (j, none)
inject_spec get j (some spec) =
    let (vars, missing) = resolve get spec.secrets in (record j { env = j.env ++ vars }, missing)

-- `InjectSecrets`: the dispatch as it is left, and the name of a secret that was not resolved.
unfoldable pub inject_secrets : (Text → Option Text) → JobDispatch → JobDispatch × Option Text
inject_secrets get j = inject_spec get j j.spec

-- crypto/cipher, encoding/base64: bytes are numbers.
pub record Cipher : Type 0 where
  pub nonce_size : ℕ
  pub seal : List ℕ → Text → List ℕ
  pub open_sealed : List ℕ → List ℕ → Option Text
  pub encode : List ℕ → Text
  pub decode : Text → Option (List ℕ)

-- A row of the table `secrets`.
pub record Row : Type 0 where
  pub name : Text
  pub ciphertext : Text

pub data Reply : Type 0 where
  value : Text → Reply
  not_found query_failed not_base64 too_short not_opened : Reply

abbrev pub first_n : ℕ → List ℕ → List ℕ
first_n zero xs = []
first_n (suc n) [] = []
first_n (suc n) (x ∷ xs) = x ∷ first_n n xs

abbrev pub behind : ℕ → List ℕ → List ℕ
behind zero xs = xs
behind (suc n) [] = []
behind (suc n) (x ∷ xs) = behind n xs

unfoldable pub find : Text → List Row → Option Text
find name [] = none
find name (r ∷ rows) = if r.name == name then some r.ciphertext else find name rows

-- INSERT INTO secrets … ON CONFLICT(name) DO UPDATE
unfoldable pub put : Row → List Row → List Row
put r [] = r ∷ []
put r (s ∷ rows) = let rest = put r rows in if s.name == r.name then r ∷ rows else s ∷ rest

-- DELETE FROM secrets WHERE name
unfoldable pub delete_rows : Text → List Row → List Row
delete_rows name [] = []
delete_rows name (r ∷ rows) =
    let rest = delete_rows name rows in if r.name == name then rest else r ∷ rest

module _ (cipher : Cipher) where
  -- `encrypt`, with the nonce that was drawn: the nonce is the first part of the result.
  unfoldable pub encrypt : List ℕ → Text → Text
  encrypt nonce plaintext = cipher.encode (nonce ++ cipher.seal nonce plaintext)

  unfoldable pub decrypt : Text → Reply
  decrypt encoded = elim (cipher.decode encoded) [
    | none ↦ not_base64
    | some bytes ↦
        if ltb (length bytes) cipher.nonce_size
        then too_short
        else elim (cipher.open_sealed (first_n cipher.nonce_size bytes)
            (behind cipher.nonce_size bytes)) [ none ↦ not_opened | some plain ↦ value plain ]
  ]

  unfoldable pub get : (fails : Bool) → Text → List Row → Reply
  get fails name rows =
      if fails
      then query_failed
      else elim (find name rows) [ none ↦ not_found | some encoded ↦ decrypt encoded ]

  -- `Set`; no nonce is an error of the random source.
  unfoldable pub set :
      (fails : Bool) → Option (List ℕ) → (name value : Text) → List Row → Bool × List Row
  set fails none name v rows = (false, rows)
  set fails (some nonce) name v rows =
      if fails
      then (false, rows)
      else (true, put (record { name = name; ciphertext = encrypt nonce v }) rows)

unfoldable pub delete_secret : (fails : Bool) → Text → List Row → Bool × List Row
delete_secret fails name rows = if fails then (false, rows) else (true, delete_rows name rows)
