-- ===== src/Examples/Clouds.antt =====
-- A Vault that keeps its secrets in an association list.
use brazier.Base.{Text, text, ◌==◌, Option, none, some, List, [], ◌∷◌, cut_prefix, if◌then◌else◌}
use brazier.Secrets.Cloud.{Response, VaultServer}

abbrev Shelf : Type 0
Shelf = List (Text × Text)

found : Text → Shelf → Option Text
found k [] = none
found k ((j, v) ∷ shelf) = if j == k then some v else found k shelf

without : Text → Shelf → Shelf
without k [] = []
without k ((j, v) ∷ shelf) = let rest = without k shelf in if j == k then rest else (j, v) ∷ rest

-- The path behind "/data/" or "/metadata/" of a URL.
abbrev path_of : Option Text → Text
path_of none = []
path_of (some p) = p

abbrev answer : Option Text → Option Response
answer none = some (record { status = 404; body = [] })
answer (some v) = some (record { status = 200; body = v })

abbrev done : Option Response
done = some (record { status = 204; body = [] })

abbrev vault : VaultServer Shelf
vault = record {
  get = λ url token shelf. answer (found (path_of (cut_prefix url (text "h/v1/kv/data/"))) shelf);
  post = λ url token payload shelf.
      (done, (path_of (cut_prefix url (text "h/v1/kv/data/")), payload) ∷ shelf);
  delete_at = λ url token shelf.
      (done, without (path_of (cut_prefix url (text "h/v1/kv/metadata/"))) shelf);
  encode = λ v. v;
  decode = λ body. some ((text "value", body) ∷ []);
}

abbrev shelf : Shelf
shelf = (text "ci/B", text "2") ∷ []
