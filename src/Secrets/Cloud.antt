-- ===== src/Secrets/Cloud.antt =====
-- The backends for secrets that are kept elsewhere: `AWSSSMBackend` (awsssm.go), `GCPSecretBackend`
-- (gcp.go) and `VaultSecretBackend` (vault.go). The clients, the servers and JSON are parameters;
-- `S` is the state that the service keeps. An error is `none` or false, and contexts, credentials
-- and error texts are left out.
pub mod Vault
use brazier.Base.{
  ℕ, Text, text, ◌==◌, Bool, true, false, ◌||◌, Option, none, some, List, [], ◌∷◌, ◌++◌, ltb,
  nat_eq, trim_right, if◌then◌else◌,
}

-- `SecretBackend` of backend.go
pub record Backend (S : Type 0) : Type 0 where
  pub get : Text → S → Option Text
  pub set : (name value : Text) → S → Bool × S
  pub delete_secret : Text → S → Bool × S

-- The calls of the SSM client: the value of a parameter may be a nil pointer.
pub record SsmClient (S : Type 0) : Type 0 where
  pub get_parameter : Text → S → Option (Option Text)
  pub put_parameter : (name value : Text) → S → Bool × S
  pub delete_parameter : Text → S → Bool × S

-- `aws.ToString`
abbrev pub to_string : Option Text → Text
to_string none = []
to_string (some t) = t

abbrev pub parameter_value : Option (Option Text) → Option Text
parameter_value none = none
parameter_value (some v) = some (to_string v)

abbrev pub param_name : (prefix name : Text) → Text
param_name prefix name = prefix ++ (text "/" ++ name)

module _ {S : Type 0} where
  unfoldable pub ssm_backend : SsmClient S → (prefix : Text) → Backend S
  ssm_backend client prefix = record {
    get = λ name s. parameter_value (client.get_parameter (param_name prefix name) s);
    set = λ name value s. client.put_parameter (param_name prefix name) value s;
    delete_secret = λ name s. client.delete_parameter (param_name prefix name) s;
  }

-- What `CreateSecret` comes to; an error text with "AlreadyExists" is a case of its own.
pub data Created : Type 0 where
  created already_exists create_failed : Created

abbrev pub may_add : Created → Bool
may_add created = true
may_add already_exists = true
may_add create_failed = false

-- The calls of the Secret Manager client.
pub record GcpClient (S : Type 0) : Type 0 where
  pub access_version : Text → S → Option Text
  pub create_secret : (parent id : Text) → S → Created × S
  pub add_version : (parent payload : Text) → S → Bool × S
  pub delete_secret : Text → S → Bool × S

abbrev pub project_name : Text → Text
project_name project = text "projects/" ++ project

abbrev pub secret_name : (project name : Text) → Text
secret_name project name = text "projects/" ++ (project ++ (text "/secrets/" ++ name))

abbrev pub latest : Text → Text
latest secret = secret ++ text "/versions/latest"

module _ {S : Type 0} where
  unfoldable pub gcp_set : GcpClient S → (project name value : Text) → S → Bool × S
  gcp_set client project name value s =
      let (made, s₁) = client.create_secret (project_name project) name s in
      let added = client.add_version (secret_name project name) value s₁ in
      if may_add made then added else (false, s₁)

  unfoldable pub gcp_backend : GcpClient S → (project : Text) → Backend S
  gcp_backend client project = record {
    get = λ name s. client.access_version (latest (secret_name project name)) s;
    set = gcp_set client project;
    delete_secret = λ name s. client.delete_secret (secret_name project name) s;
  }

pub record Response : Type 0 where
  pub status : ℕ
  pub body : Text

-- An HTTP client with the JSON of the messages: each call is `none` where the request cannot be made
-- or sent. `decode` gives the inner `data` of a response, `encode` the payload with a value.
pub record VaultServer (S : Type 0) : Type 0 where
  pub get : (url token : Text) → S → Option Response
  pub post : (url token payload : Text) → S → Option Response × S
  pub delete_at : (url token : Text) → S → Option Response × S
  pub encode : Text → Text
  pub decode : Text → Option (List (Text × Text))

abbrev pub value_of : List (Text × Text) → Option Text
value_of [] = none
value_of ((k, v) ∷ fields) = if k == text "value" then some v else value_of fields

abbrev pub decoded_value : Option (List (Text × Text)) → Option Text
decoded_value none = none
decoded_value (some fields) = value_of fields

abbrev pub read_response : (Text → Option (List (Text × Text))) → Option Response → Option Text
read_response decode none = none
read_response decode (some r) = if ltb r.status 300 then decoded_value (decode r.body) else none

-- The answer to `Set`
abbrev pub is_set : Option Response → Bool
is_set none = false
is_set (some r) = ltb r.status 300

-- The answer to `Delete`: there may be nothing to delete.
abbrev pub is_deleted : Option Response → Bool
is_deleted none = false
is_deleted (some r) = ltb r.status 300 || nat_eq r.status 404

abbrev pub kv_path : (prefix name : Text) → Text
kv_path prefix name = prefix ++ (text "/" ++ name)

-- `kvURL`
abbrev pub kv_url : (addr mount path : Text) → Text
kv_url addr mount path = addr ++ (text "/v1/" ++ (mount ++ (text "/data/" ++ path)))

abbrev pub meta_url : (addr mount path : Text) → Text
meta_url addr mount path = addr ++ (text "/v1/" ++ (mount ++ (text "/metadata/" ++ path)))

module _ {S : Type 0} where
  -- With the address that `NewVaultSecretBackend` is given
  unfoldable pub vault_backend : VaultServer S → (addr token mount prefix : Text) → Backend S
  vault_backend server addr token mount prefix =
      let base = trim_right addr 47 in
      record {
        get = λ name s.
            read_response server.decode
              (server.get (kv_url base mount (kv_path prefix name)) token s);
        set = λ name value s.
            let (answer, s') =
              server.post (kv_url base mount (kv_path prefix name)) token (server.encode value) s in
            (is_set answer, s');
        delete_secret = λ name s.
            let (answer, s') =
              server.delete_at (meta_url base mount (kv_path prefix name)) token s in
            (is_deleted answer, s');
      }
