-- ===== src/Artifacts/Local/Parts.antt =====
-- The parts of a path, and what is left of them.
use mathlib.Core.List.{reverse, append_assoc, reverse-cons}
use brazier.Base.{
  Text, text, ◌==◌, nat_eq, nat_eq_iff, ◌≡◌, refl, ◌∙◌, Bool, false, List, [], ◌∷◌, ◌++◌, All,
  arith, Bool-cases, inl, inr,
}
use brazier.Artifacts.Names.{NoSlash}
use brazier.Artifacts.Local.{split_path, join_path, go_up, keep_part, keep_parts}

-- One part of a path, that is neither "." nor "..".
pub record IsName (e : Text) : Type 0 where
  pub no_slash : NoSlash e
  pub nonempty : (e == []) ≡ false
  pub no_dot : (e == text ".") ≡ false
  pub no_dots : (e == text "..") ≡ false

pub split_path-cons : (e : Text) → NoSlash e → split_path e ≡ e ∷ []
unfolding split_path NoSlash
split_path-cons [] h = refl
split_path-cons (c ∷ e) h = rw (split_path-cons e h.1) (ground (arith, nat_eq_iff c 47, h.0))

split_path-cases : (s : Text) → (e : Text) × (es : List Text) × (split_path s ≡ e ∷ es)
unfolding split_path
split_path-cases [] = ([], [], refl)
split_path-cases (c ∷ s) =
    let (e, es, same) = split_path-cases s in
    elim (Bool-cases (nat_eq c 47)) [
      | inl slash ↦ ([], split_path s, rw slash refl)
      | inr other ↦ (c ∷ e, es, rw (other, same) refl)
    ]

pub split_path-slash :
    (a b : Text) → split_path (a ++ (text "/" ++ b)) ≡ split_path a ++ split_path b
unfolding split_path text
split_path-slash [] b = refl
split_path-slash (c ∷ a) b =
    let (e, es, same) = split_path-cases a in
    elim (Bool-cases (nat_eq c 47)) [
      | inl slash ↦ rw (slash, split_path-slash a b) refl
      | inr other ↦ rw (other, split_path-slash a b, same) refl
    ]

pub keep_parts-append :
    (rooted : Bool) (kept xs ys : List Text)
    → keep_parts rooted kept (xs ++ ys) ≡ keep_parts rooted (keep_parts rooted kept xs) ys
unfolding keep_parts
keep_parts-append rooted kept [] ys = refl
keep_parts-append rooted kept (x ∷ xs) ys = keep_parts-append rooted (keep_part rooted kept x) xs ys

pub keep_part-IsName :
    (rooted : Bool) (kept : List Text) (e : Text) → IsName e → keep_part rooted kept e ≡ e ∷ kept
keep_part-IsName rooted kept e h = rw (h.nonempty, h.no_dot, h.no_dots) refl

pub keep_parts-names :
    (rooted : Bool) (kept es : List Text)
    → All IsName es
    → keep_parts rooted kept es ≡ reverse es ++ kept
unfolding keep_parts
keep_parts-names rooted kept [] h = refl
keep_parts-names rooted kept (e ∷ es) h =
    rw (keep_part-IsName rooted kept e h.0, keep_parts-names rooted (e ∷ kept) es h.1)
      (simp (reverse-cons, append_assoc))

go_up-IsName :
    (rooted : Bool) (kept : List Text) (e : Text) → IsName e → go_up rooted (e ∷ kept) ≡ kept
go_up-IsName rooted kept e h = rw h.no_dots refl

pub split_path-join_path :
    (e : Text) (es : List Text) → All IsName (e ∷ es) → split_path (join_path (e ∷ es)) ≡ e ∷ es
unfolding join_path
split_path-join_path e [] h = split_path-cons e h.0.no_slash
split_path-join_path e (d ∷ es) h =
    split_path-slash e (join_path (d ∷ es))
    ∙ rw (split_path-cons e h.0.no_slash, split_path-join_path d es h.1) refl
