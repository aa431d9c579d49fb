-- ===== src/Artifacts/Names.antt =====
-- The names of objects.
use mathlib.Core.List.{append_assoc}
use brazier.Base.{
  ℕ, Text, text, ◌==◌, ==_refl, nat_eq_iff, ◌≡◌, ◌≢◌, refl, sym, ◌∙◌, Bool, true, false, ◌&&◌, ◌||◌,
  Option, none, some, List, [], ◌∷◌, ◌++◌, length, contains, arith, Option-cases, some_inj,
  contains-append, has_prefix, inl, inr,
}
use brazier.Base.Strings.Affixes.{==_append, has_prefix_iff}
use brazier.Artifacts.{drop, relative, list_pages, key, object_name}

-- No "/" stands in the text.
unfoldable pub NoSlash : Text → Type 0
NoSlash [] = Unit
NoSlash (c ∷ s) = (c ≢ 47) × NoSlash s

==_slash :
    (r r' p p' : Text)
    → NoSlash r
    → NoSlash r'
    → (r ++ (text "/" ++ p) == r' ++ (text "/" ++ p')) ≡ (r == r' && p == p')
unfolding ◌==◌ NoSlash text
==_slash [] [] p p' h h' = refl
==_slash [] (d ∷ r') p p' h h' = ground (arith, nat_eq_iff 47 d)
==_slash (c ∷ r) [] p p' h h' = ground (arith, nat_eq_iff c 47)
==_slash (c ∷ r) (d ∷ r') p p' h h' = ground (arith, ==_slash r r' p p' h.1 h'.1)

-- Two names are the same where the runs and the paths are.
pub key-eq :
    (prefix r r' p p' : Text)
    → NoSlash r
    → NoSlash r'
    → (key prefix r p == key prefix r' p') ≡ (r == r' && p == p')
unfolding key
key-eq [] r r' p p' h h' = ==_slash r r' p p' h h'
key-eq (c ∷ cs) r r' p p' h h' =
    ==_append (c ∷ cs) _ _ ∙ ==_append (text "/") _ _ ∙ ==_slash r r' p p' h h'

object_name-key : (prefix r p : Text) → object_name prefix r p ≡ key prefix r p
unfolding object_name key
object_name-key [] r p = refl
object_name-key (c ∷ cs) r p = refl

pub object_name-eq :
    (prefix r r' p p' : Text)
    → NoSlash r
    → NoSlash r'
    → (object_name prefix r p == object_name prefix r' p') ≡ (r == r' && p == p')
object_name-eq prefix r r' p p' h h' =
    rw (object_name-key prefix r p, object_name-key prefix r' p') (key-eq prefix r r' p p' h h')

pub key-append : (prefix r p : Text) → key prefix r [] ++ p ≡ key prefix r p
unfolding key text
key-append [] r p = append_assoc r (47 ∷ []) p
key-append (c ∷ cs) r p = simp append_assoc

-- All pages have arrived.
abbrev pub arrived : List (Option (List Text)) → Bool
arrived [] = true
arrived (none ∷ pages) = false
arrived (some keys ∷ pages) = arrived pages

-- Some page has the name.
abbrev pub listed : Text → List (Option (List Text)) → Bool
listed k [] = false
listed k (none ∷ pages) = listed k pages
listed k (some keys ∷ pages) = contains k keys || listed k pages

drop-append : (p r : Text) → drop (length p) (p ++ r) ≡ r
drop-append [] r = refl
drop-append (c ∷ p) r = drop-append p r

contains-relative :
    (p path : Text) (keys : List Text)
    → ((k : Text) → contains k keys ≡ true → has_prefix k p ≡ true)
    → contains path (relative (length p) keys) ≡ contains (p ++ path) keys
unfolding contains
contains-relative p path [] h = refl
contains-relative p path (k ∷ keys) h =
    let (r, e) = (has_prefix_iff k p).0 (h k (rw (==_refl k) refl)) in
    rw
      (
        e,
        drop-append p r,
        ==_append p path r,
        contains-relative p path keys (λ j on. h j (ground arith)),
      )
      refl

pub list_pages-arrived :
    (n : ℕ) (pages : List (Option (List Text))) (paths : List Text)
    → list_pages n pages ≡ some paths
    → arrived pages ≡ true
unfolding list_pages
list_pages-arrived n [] paths h = refl
list_pages-arrived n (none ∷ pages) paths h = cc
list_pages-arrived n (some keys ∷ pages) paths h = elim (Option-cases (list_pages n pages)) [
  | inl missing ↦ cc (rw missing at h)
  | inr (ys, found) ↦ list_pages-arrived n pages ys found
]

pub list_pages-listed :
    (p path : Text) (pages : List (Option (List Text))) (paths : List Text)
    → ((k : Text) → listed k pages ≡ true → has_prefix k p ≡ true)
    → list_pages (length p) pages ≡ some paths
    → contains path paths ≡ listed (p ++ path) pages
unfolding list_pages contains
list_pages-listed p path [] paths h e = rw (sym (some_inj e)) refl
list_pages-listed p path (none ∷ pages) paths h e = cc
list_pages-listed p path (some keys ∷ pages) paths h e =
    elim (Option-cases (list_pages (length p) pages)) [
      | inl missing ↦ cc (rw missing at e)
      | inr (ys, found) ↦
          let both = some_inj (rw found at e) in
          rw
            (
              sym both,
              contains-append path (relative (length p) keys) ys,
              contains-relative p path keys (λ k on. h k (ground arith)),
              list_pages-listed p path pages ys (λ k on. h k (ground arith)) found,
            )
            refl
    ]
