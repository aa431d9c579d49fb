-- ===== src/Auth/Oauth.antt =====
-- internal/auth/oauth.go: the login with GitHub. The HTTP client, JSON and the encoding of query
-- values are parameters; a call is `none` where the request cannot be made or sent.
use brazier.Base.{
  ℕ, Text, text, ◌==◌, Option, none, some, List, [], ◌∷◌, ◌++◌, nat_eq, if◌then◌else◌,
}
use brazier.Proto.{ℤ}

pub record OauthConfig : Type 0 where
  pub client_id : Text
  pub client_secret : Text
  pub redirect_url : Text

pub record GithubUser : Type 0 where
  pub id : ℤ
  pub login : Text

-- The fields of the answer to a code, each empty where it is missing.
pub record TokenResult : Type 0 where
  pub access_token : Text
  pub error : Text

-- `post` has the URL and the form, `get` the URL and the header "Authorization"; `encode` is
-- `url.Values.Encode`.
pub record Web : Type 0 where
  pub encode : List (Text × Text) → Text
  pub post : (url form : Text) → Option Text
  pub get : (url authorization : Text) → Option (ℕ × Text)
  pub decode_token : Text → Option TokenResult
  pub decode_user : Text → Option GithubUser

abbrev pub token_of : Option TokenResult → Option Text
token_of none = none
token_of (some r) = if r.error == [] then some r.access_token else none

abbrev pub read_token : (Text → Option TokenResult) → Option Text → Option Text
read_token decode none = none
read_token decode (some body) = token_of (decode body)

abbrev pub read_user : (Text → Option GithubUser) → Option (ℕ × Text) → Option GithubUser
read_user decode none = none
read_user decode (some (status, body)) = if nat_eq status 200 then decode body else none

module _ (web : Web) where
  unfoldable pub authorize_url : OauthConfig → (state : Text) → Text
  authorize_url c state =
      text "https://github.com/login/oauth/authorize?"
      ++ web.encode (
          (text "client_id", c.client_id)
          ∷ (text "redirect_uri", c.redirect_url)
          ∷ (text "scope", text "read:user")
          ∷ (text "state", state)
          ∷ [])

  -- The status of the answer is not looked at.
  unfoldable pub exchange : OauthConfig → (code : Text) → Option Text
  exchange c code = read_token web.decode_token (
      web.post (text "https://github.com/login/oauth/access_token") (
        web.encode (
          (text "client_id", c.client_id)
          ∷ (text "client_secret", c.client_secret)
          ∷ (text "code", code)
          ∷ [])))

  unfoldable pub get_user : (access_token : Text) → Option GithubUser
  get_user access_token =
      read_user web.decode_user
        (web.get (text "https://api.github.com/user") (text "Bearer " ++ access_token))
