-- ===== src/Auth/Stores.antt =====
-- internal/auth: making the two stores, and `List` of the keys.
use brazier.Base.{Bool, Option, none, some, List, [], map, if◌then◌else◌, leb}
use brazier.Db.{order_by}
use brazier.Auth.{ApiKey, Session}

-- CREATE TABLE IF NOT EXISTS: a table that is there stays.
abbrev pub kept_rows : {A : Type 0} → Option (List A) → List A
kept_rows none = []
kept_rows (some rows) = rows

-- `NewAPIKeyStore`
unfoldable pub new_api_key_store : (migrates : Bool) → Option (List ApiKey) → Option (List ApiKey)
new_api_key_store migrates table = if migrates then some (kept_rows table) else none

-- `NewSessionStore`
unfoldable pub new_session_store : (migrates : Bool) → Option (List Session) → Option (List Session)
new_session_store migrates table = if migrates then some (kept_rows table) else none

abbrev pub older : ApiKey → ApiKey → Bool
older j k = leb j.created_at k.created_at

-- `List`: the hash is not selected.
unfoldable pub list_keys : (fails : Bool) → List ApiKey → Option (List ApiKey)
list_keys fails keys =
    if fails
    then none
    else some (map (λ (k : ApiKey). record k { hash = [] }) (order_by older keys))
