-- ===== src/Pipeline/Conditions/Globs.antt =====
-- What `matchGlob` decides.
use brazier.Base.{
  Text, text, ◌==◌, ==_iff, has_prefix, has_suffix, trim_suffix, ◌≡◌, refl, sym, ap, ◌∙◌, ◌↔◌, [],
  ◌++◌, true, false, inl, inr, Bool-cases,
}
use brazier.Base.Strings.Affixes.{
  has_prefix_iff, has_suffix_iff, trim_prefix-append, trim_suffix-append,
}
use brazier.Pipeline.Conditions.{match_glob}

-- The texts that a pattern stands for: a star at the end leaves the rest open, otherwise a star at
-- the start does, and any other star is a plain character.
pub data Globs (pattern s : Text) : Type 0 where
  starts : (p r : Text) → pattern ≡ p ++ text "*" → s ≡ p ++ r → Globs pattern s
  ends :
      (p r : Text)
      → pattern ≡ text "*" ++ p
      → has_suffix pattern (text "*") ≡ false
      → s ≡ r ++ p
      → Globs pattern s
  equals :
      has_suffix pattern (text "*") ≡ false
      → has_prefix pattern (text "*") ≡ false
      → pattern ≡ s
      → Globs pattern s

star_ends : has_suffix (text "*") (text "*") ≡ true
star_ends = (has_suffix_iff (text "*") (text "*")).1 ([], refl)

star_ne : (pattern : Text) → has_suffix pattern (text "*") ≡ false → (pattern == text "*") ≡ false
star_ne pattern plain = elim (Bool-cases (pattern == text "*")) [
  | inl same ↦
      cc (star_ends, ap (λ p. has_suffix p (text "*")) ((==_iff pattern (text "*")).0 same))
  | inr other ↦ other
]

-- A pattern that ends in a star tests the prefix before it, also where it is the star alone.
match_glob_starts : (p s : Text) → match_glob (p ++ text "*") s ≡ has_prefix s p
unfolding match_glob
match_glob_starts p s = elim (Bool-cases (p ++ text "*" == text "*")) [
  | inl same ↦
      let bare : p ≡ [] =
        sym (trim_suffix-append (text "*") p)
        ∙ ap (λ x. trim_suffix x (text "*")) ((==_iff _ _).0 same)
        ∙ trim_suffix-append (text "*") [] in
      rw same (sym ((has_prefix_iff s p).1 (s, ap (λ x. x ++ s) (sym bare))))
  | inr other ↦ rw (
    other,
    (has_suffix_iff (p ++ text "*") (text "*")).1 (p, refl),
    trim_suffix-append (text "*") p,
  )
]

match_glob_ends :
    (p s : Text)
    → has_suffix (text "*" ++ p) (text "*") ≡ false
    → match_glob (text "*" ++ p) s ≡ has_suffix s p
unfolding match_glob
match_glob_ends p s plain = rw (
  star_ne (text "*" ++ p) plain,
  plain,
  (has_prefix_iff (text "*" ++ p) (text "*")).1 (p, refl),
  trim_prefix-append (text "*") p,
)

match_glob_sound : (pattern s : Text) → match_glob pattern s ≡ true → Globs pattern s
match_glob_sound pattern s h = elim (Bool-cases (has_suffix pattern (text "*"))) [
  | inl open_end ↦
      let (p, e) = (has_suffix_iff pattern (text "*")).0 open_end in
      let (r, f) =
        (has_prefix_iff s p).0
          (sym (match_glob_starts p s) ∙ ap (λ x. match_glob x s) (sym e) ∙ h) in
      starts p r e f
  | inr plain ↦ elim (Bool-cases (has_prefix pattern (text "*"))) [
    | inl open_start ↦
        let (p, e) = (has_prefix_iff pattern (text "*")).0 open_start in
        let plain' : has_suffix (text "*" ++ p) (text "*") ≡ false = rw e at plain in
        let (r, f) =
          (has_suffix_iff s p).0
            (sym (match_glob_ends p s plain') ∙ ap (λ x. match_glob x s) (sym e) ∙ h) in
        ends p r e plain f
    | inr closed ↦
        equals plain closed (
          (==_iff pattern s).0
            (unfold match_glob in rw (star_ne pattern plain, plain, closed) at h))
  ]
]

match_glob_complete : (pattern s : Text) → Globs pattern s → match_glob pattern s ≡ true
match_glob_complete pattern s (starts p r e f) =
    ap (λ x. match_glob x s) e ∙ match_glob_starts p s ∙ (has_prefix_iff s p).1 (r, f)
match_glob_complete pattern s (ends p r e plain f) =
    ap (λ x. match_glob x s) e ∙ match_glob_ends p s (rw e at plain) ∙ (has_suffix_iff s p).1 (r, f)
match_glob_complete pattern s (equals plain closed e) =
    unfold match_glob in rw (star_ne pattern plain, plain, closed) ((==_iff pattern s).1 e)

-- A pattern matches exactly the texts that it stands for.
pub match_glob_iff : (pattern s : Text) → (match_glob pattern s ≡ true) ↔ Globs pattern s
match_glob_iff pattern s = (match_glob_sound pattern s, match_glob_complete pattern s)
