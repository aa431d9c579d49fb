-- ===== src/Artifacts/Artifactory.antt =====
-- internal/artifacts/artifactory.go: `ArtifactoryStore`. The HTTP client is a parameter: a call gives
-- no response where the request cannot be made or sent. `List` always returns an error.
use brazier.Base.{
  ℕ, Text, text, Bool, false, Option, none, some, ◌++◌, ltb, trim_right, if◌then◌else◌,
}
use brazier.Artifacts.{Reader}

pub record Response : Type 0 where
  pub status : ℕ
  pub body : Text

-- PUT and GET of a URL, with the header "Authorization".
pub record Client (S : Type 0) : Type 0 where
  pub put : (url authorization : Text) → Reader → S → Option Response × S
  pub get : (url authorization : Text) → S → Option Response

-- `NewArtifactoryStore`, for the base URL that it is given, and `artifactURL`
unfoldable pub artifact_url : (base run_id path : Text) → Text
artifact_url base run_id path = trim_right base 47 ++ (text "/" ++ (run_id ++ (text "/" ++ path)))

abbrev pub is_accepted : Option Response → Bool
is_accepted none = false
is_accepted (some r) = ltb r.status 300

abbrev pub body_of : Option Response → Option Text
body_of none = none
body_of (some r) = if ltb r.status 300 then some r.body else none

module _ {S : Type 0} (client : Client S) (base token : Text) where
  unfoldable pub artifactory_upload : (run_id path : Text) → Reader → S → Bool × S
  artifactory_upload run_id path r s =
      let (answer, s') = client.put (artifact_url base run_id path) (text "Bearer " ++ token) r s in
      (is_accepted answer, s')

  unfoldable pub artifactory_download : (run_id path : Text) → S → Option Text
  artifactory_download run_id path s =
      body_of (client.get (artifact_url base run_id path) (text "Bearer " ++ token) s)
