-- ===== src/Secrets/Cloud/Vault.antt =====
-- `VaultSecretBackend`, over the engine KV of version 2.
use brazier.Base.{Text, text, ◌==◌, ◌≡◌, ◌≤◌, ◌⊎◌, false, some, [], ◌∷◌, ◌++◌}
use brazier.Secrets.Cloud.{Response, VaultServer}

-- The path of the value, and that of all its versions.
abbrev pub data_at : (addr mount path : Text) → Text
data_at addr mount path = addr ++ (text "/v1/" ++ (mount ++ (text "/data/" ++ path)))

abbrev pub metadata_at : (addr mount path : Text) → Text
metadata_at addr mount path = addr ++ (text "/v1/" ++ (mount ++ (text "/metadata/" ++ path)))

-- The engine answers with 200 or 204, or with an error of 400 or more. A value whose post was
-- answered so is what the data of its path has next; paths whose metadata was deleted, or that
-- have none, give 404; and neither touches another path.
pub record IsKv {S : Type 0} (server : VaultServer S) (addr token mount : Text) : Type 0 where
  pub answers_post :
      (url payload : Text) (s : S) (r : Response)
      → (server.post url token payload s).0 ≡ some r
      → (r.status ≡ 200) ⊎ ((r.status ≡ 204) ⊎ (400 ≤ r.status))
  pub answers_delete :
      (url : Text) (s : S) (r : Response)
      → (server.delete_at url token s).0 ≡ some r
      → (r.status ≡ 200) ⊎ ((r.status ≡ 204) ⊎ (400 ≤ r.status))
  pub posted :
      (p v : Text) (s : S) (r : Response)
      → (server.post (data_at addr mount p) token (server.encode v) s).0 ≡ some r
      → (r.status ≡ 200) ⊎ (r.status ≡ 204)
      → (body : Text) × (server.get
            (data_at addr mount p)
            token
            (server.post (data_at addr mount p) token (server.encode v) s).1
          ≡ some (record { status = 200; body = body }))
        × (server.decode body ≡ some ((text "value", v) ∷ []))
  pub deleted :
      (p : Text) (s : S) (r : Response)
      → (server.delete_at (metadata_at addr mount p) token s).0 ≡ some r
      → (r.status ≡ 200) ⊎ ((r.status ≡ 204) ⊎ (r.status ≡ 404))
      → (body : Text) × (server.get
            (data_at addr mount p)
            token
            (server.delete_at (metadata_at addr mount p) token s).1
          ≡ some (record { status = 404; body = body }))
  pub post_apart :
      (p q payload : Text) (s : S)
      → p == q ≡ false
      → server.get
          (data_at addr mount q)
          token
          (server.post (data_at addr mount p) token payload s).1
        ≡ server.get (data_at addr mount q) token s
  pub delete_apart :
      (p q : Text) (s : S)
      → p == q ≡ false
      → server.get
          (data_at addr mount q)
          token
          (server.delete_at (metadata_at addr mount p) token s).1
        ≡ server.get (data_at addr mount q) token s
