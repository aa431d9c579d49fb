-- ===== src/Examples/Running.antt =====
-- A job with secrets, and its commands.
use brazier.Base.{
  ℕ, Text, text, ◌==◌, ◌≡◌, refl, false, Option, some, List, [], ◌∷◌, contains, is_space, nat_eq,
  if◌then◌else◌, cut_prefix,
}
use brazier.Proto.{EnvVar, JobSpec, JobDispatch, pos}
use brazier.Executor
use brazier.Executor.{Process, Line, ran, succeeded, exit_error, build_env}
use brazier.Executor.Environment.{value_in}
use brazier.Secrets
use brazier.Secrets.{Cipher, Row, value, not_found}
use brazier.Secrets.Sealing.{Inverts, get-set-delete}

abbrev var : Text → Text → EnvVar
var k v = record { key = k; value = v }

abbrev pub spec : JobSpec
spec = record {
  commands = text "make" ∷ text "test" ∷ text "ship" ∷ [];
  env = var (text "A") (text "1") ∷ var (text "B") (text "2") ∷ var (text "B") (text "3") ∷ [];
  secrets = text "A" ∷ [];
  artifact_paths = [];
}

abbrev pub task : JobDispatch
task = record { job_id = text "j"; run_id = text "r"; spec = some spec; env = [] }

-- The second command fails.
abbrev pub shell : ℕ → Text → List Text → Process
shell k c env =
    if nat_eq k 1
    then ran [] (exit_error (pos 7))
    else ran (record { timestamp = 1; line = c; stderr = false } ∷ []) succeeded

abbrev vault : Text → Option Text
vault name = some (text "s3cret")

running : Unit {0}
unfolding Executor.run Executor.run_from Executor.build_env Executor.merged Executor.add_unseen
    contains text ◌==◌ Secrets.inject_secrets Secrets.resolve
running = tt

stops : (Executor.run shell task spec).0 ≡ (false, pos 7)
unfolding running
stops = refl

-- The first of two values that a spec gives to a variable is used.
environment : build_env task ≡ text "A=1" ∷ text "B=2" ∷ []
unfolding running
environment = refl

-- A name with a "=" gives a value to another variable, and takes the place of the secret there.
abbrev overriding : JobDispatch
overriding = record task { spec = some (record spec { env = var (text "A=x") (text "y") ∷ [] }) }

secret_overridden :
    value_in (text "A") (build_env (Secrets.inject_secrets vault overriding).0) ≡ some (text "x=y")
unfolding running value_in cut_prefix
secret_overridden = refl

-- A cipher that hides nothing, but has a nonce.
abbrev clear : Cipher
clear = record {
  nonce_size = 2;
  seal = λ nonce plain. plain;
  open_sealed = λ nonce bytes. some bytes;
  encode = λ bytes. bytes;
  decode = λ bytes. some bytes;
}

clear-Inverts : Inverts clear
clear-Inverts = record { opens = λ nonce plain size. refl; decodes = λ bytes. refl }

get-set-delete_example :
    let stored = (Secrets.set clear false (some (1 ∷ 2 ∷ [])) (text "K") (text "v") []).1 in
    let deleted = (Secrets.delete_secret false (text "K") stored).1 in
    (Secrets.get clear false (text "K") stored
      ≡ (if text "K" == text "K" then value (text "v") else Secrets.get clear false (text "K") []))
    × (Secrets.get clear false (text "K") deleted
        ≡ (if text "K" == text "K" then not_found else Secrets.get clear false (text "K") []))
get-set-delete_example =
    get-set-delete clear clear-Inverts (1 ∷ 2 ∷ []) (text "K") (text "v") (text "K") [] refl

split_go_test :
    Executor.split_command (text " go test  ./...") ≡ text "go" ∷ text "test" ∷ text "./..." ∷ []
unfolding Executor.split_command Executor.pieces is_space text
split_go_test = refl
