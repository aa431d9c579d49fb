-- ===== src/Secrets/Opening.antt =====
-- internal/secrets/db.go: `NewDBSecretBackend`. Whether AES and GCM take the key, and whether the
-- migration succeeds, are arguments; the arguments stand in the order of the calls.
use brazier.Base.{ℕ, Bool, Option, none, some, List, [], length, nat_eq, if◌then◌else◌}
use brazier.Secrets.{Row}

abbrev pub key_size : ℕ
key_size = 32

abbrev pub migrated_rows : Option (List Row) → List Row
migrated_rows none = []
migrated_rows (some rows) = rows

-- The rows of the table behind it, or none for an error.
unfoldable pub new_db_backend :
    (key : List ℕ) → (aes gcm migrates : Bool) → Option (List Row) → Option (List Row)
new_db_backend key aes gcm migrates table =
    if nat_eq (length key) key_size
    then (if aes
        then (if gcm then (if migrates then some (migrated_rows table) else none) else none)
        else none)
    else none
