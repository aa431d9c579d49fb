-- ===== src/Auth/Admission.antt =====
-- A session, from its creation until it expires.
use brazier.Base.{
  ℕ, ◌+◌, Text, ◌==◌, ==_iff, ==_refl, ◌≡◌, refl, false, not, none, some, List, [], ◌∷◌, ◌++◌, ltb,
  arith, if◌then◌else◌, Bool-cases, inl, inr,
}
use brazier.Auth.{
  Session, find_session, delete_session, create_session, validate_session, session_ttl, is_some,
}

find_session-snoc :
    (token : Text) (sessions : List Session) (s : Session)
    → find_session s.token sessions ≡ none
    → find_session token (sessions ++ s ∷ [])
      ≡ (if s.token == token then some s else find_session token sessions)
unfolding find_session
find_session-snoc token [] s h = refl
find_session-snoc token (x ∷ sessions) s h = ground (
  arith,
  find_session-snoc token sessions s,
  ==_iff x.token token,
  ==_iff x.token s.token,
  ==_iff s.token token,
)

find_session-delete_session :
    (token other : Text) (sessions : List Session)
    → find_session other (delete_session token sessions)
      ≡ (if token == other then none else find_session other sessions)
unfolding find_session delete_session
find_session-delete_session token other [] = ground arith
find_session-delete_session token other (x ∷ sessions) = ground (
  arith,
  find_session-delete_session token other sessions,
  ==_iff x.token token,
  ==_iff x.token other,
  ==_iff token other,
)

-- Where no statement fails and the token is new, a created session is valid until 24 hours have
-- passed, and from then on it is not, and is deleted by the first check.
pub validate_session-create_session :
    (token user_id login : Text) (now later : ℕ) (sessions : List Session)
    → find_session token sessions ≡ none
    → let created = (create_session false token user_id login now sessions).1 in
      let (found, left) = validate_session false false token later created in
      (is_some found ≡ not (ltb (now + session_ttl) later))
      × (is_some (find_session token left) ≡ not (ltb (now + session_ttl) later))
unfolding create_session validate_session
validate_session-create_session token user_id login now later sessions fresh =
    let s : Session = record {
      token = token;
      user_id = user_id;
      login = login;
      expires_at = now + session_ttl;
    } in
    let found : find_session token (sessions ++ s ∷ []) ≡ some s =
      rw (find_session-snoc token sessions s fresh, ==_refl token) refl in
    let gone : find_session token (delete_session token (sessions ++ s ∷ [])) ≡ none =
      rw (find_session-delete_session token token (sessions ++ s ∷ []), ==_refl token) refl in
    rw found (elim (Bool-cases (ltb s.expires_at later)) [
      | inl over ↦ rw (over, gone) (refl, refl)
      | inr open_still ↦ rw (open_still, found) (refl, refl)
    ])
