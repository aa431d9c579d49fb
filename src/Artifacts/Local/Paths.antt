-- ===== src/Artifacts/Local/Paths.antt =====
-- Where an artifact's path leads.
use mathlib.Core.List.{reverse, append-nil, reverse-append, reverse-reverse}
use brazier.Base.{
  ℕ, Text, text, ◌==◌, nat_eq, nat_eq_iff, ◌≡◌, refl, sym, ◌∙◌, ap, Bool, false, List, [], ◌∷◌,
  ◌++◌, All, arith,
}
use brazier.Artifacts.{Reader}
use brazier.Artifacts.Names.{NoSlash}
use brazier.Artifacts.Local.{
  split_path, join_path, keep_parts, is_rooted, render, clean, join3, artifact_path, FileSystem,
  local_upload, local_download,
}
use brazier.Artifacts.Local.Parts.{
  IsName, split_path-cons, split_path-slash, keep_parts-append, keep_part-IsName, keep_parts-names,
  split_path-join_path,
}

is_rooted-join_path :
    (e : Text) (es : List Text) → IsName e → is_rooted (join_path (e ∷ es)) ≡ false
unfolding join_path NoSlash ◌==◌
is_rooted-join_path [] es h = cc (h.nonempty)
is_rooted-join_path (c ∷ e) [] h = ground (arith, h.no_slash, nat_eq_iff c 47)
is_rooted-join_path (c ∷ e) (d ∷ es) h = ground (arith, h.no_slash, nat_eq_iff c 47)

clean-join_path :
    (e : Text) (es : List Text)
    → All IsName (e ∷ es)
    → clean (join_path (e ∷ es)) ≡ join_path (e ∷ es)
unfolding clean
clean-join_path e es h =
    rw
      (
        is_rooted-join_path e es h.0,
        split_path-join_path e es h,
        keep_parts-names false [] (e ∷ es) h,
        append-nil (reverse (e ∷ es)),
        reverse-reverse (e ∷ es),
      )
      refl

-- A path that leads out of the run and into another one.
abbrev pub other_run : (other : Text) → List Text → Text
other_run other es = join_path (text ".." ∷ other ∷ es)

dots_split : split_path (text "..") ≡ text ".." ∷ []
unfolding split_path text
dots_split = refl

split_path-other_run :
    (other : Text) (es : List Text)
    → All IsName (other ∷ es)
    → split_path (other_run other es) ≡ text ".." ∷ other ∷ es
unfolding join_path
split_path-other_run other es h =
    split_path-slash (text "..") (join_path (other ∷ es))
    ∙ rw (split_path-join_path other es h, dots_split) refl

keep_parts-dots :
    (other : Text) (es : List Text)
    → All IsName (other ∷ es)
    → keep_parts false [] (text ".." ∷ other ∷ es) ≡ reverse (other ∷ es) ++ (text ".." ∷ [])
unfolding keep_parts text ◌==◌
keep_parts-dots other es h = keep_parts-names false (text ".." ∷ []) (other ∷ es) h

other_run-not_rooted : (other : Text) (es : List Text) → is_rooted (other_run other es) ≡ false
unfolding join_path text
other_run-not_rooted other es = refl

clean-other_run :
    (other : Text) (es : List Text)
    → All IsName (other ∷ es)
    → clean (other_run other es) ≡ other_run other es
unfolding clean
clean-other_run other es h =
    rw
      (
        other_run-not_rooted other es,
        split_path-other_run other es h,
        keep_parts-dots other es h,
        reverse-append (reverse (other ∷ es)) (text ".." ∷ []),
        reverse-reverse (other ∷ es),
      )
      refl

-- A name, and ".." behind it, are left out.
keep_parts-up :
    (rooted : Bool) (kept : List Text) (run : Text) (es : List Text)
    → IsName run
    → keep_parts rooted kept (run ∷ text ".." ∷ es) ≡ keep_parts rooted kept es
unfolding keep_parts text ◌==◌
keep_parts-up rooted kept run es h = rw (keep_part-IsName rooted kept run h, h.no_dots) refl

-- The parts of the base directory come first.
clean-below :
    (b : ℕ) (bs name q : Text) (parts : List Text)
    → IsName name
    → split_path q ≡ parts
    → clean ((b ∷ bs) ++ (text "/" ++ (name ++ (text "/" ++ q))))
      ≡ render (nat_eq b 47) (
          reverse (
            keep_parts
              (nat_eq b 47)
              (keep_parts (nat_eq b 47) [] (split_path (b ∷ bs)))
              (name ∷ parts)))
unfolding clean
clean-below b bs name q parts h same =
    let rooted = nat_eq b 47 in
    ap (λ (ps : List Text). render rooted (reverse (keep_parts rooted [] ps)))
      (split_path-slash (b ∷ bs) (name ++ (text "/" ++ q))
        ∙ rw (split_path-slash name q, split_path-cons name h.no_slash, same) refl)
    ∙ ap (λ (ps : List Text). render rooted (reverse ps))
        (keep_parts-append rooted [] (split_path (b ∷ bs)) (name ∷ parts))

artifact_path-other_run :
    (b : ℕ) (bs run other : Text) (e : Text) (es : List Text)
    → All IsName (run ∷ other ∷ e ∷ es)
    → artifact_path (b ∷ bs) run (other_run other (e ∷ es))
      ≡ artifact_path (b ∷ bs) other (join_path (e ∷ es))
unfolding artifact_path join3
artifact_path-other_run b bs run other e es h =
    let rooted = nat_eq b 47 in
    let kept = keep_parts rooted [] (split_path (b ∷ bs)) in
    rw (clean-other_run other (e ∷ es) h.1, clean-join_path e es h.1.1)
      (clean-below b bs run (other_run other (e ∷ es)) _ h.0
          (split_path-other_run other (e ∷ es) h.1)
        ∙ ap (λ (ps : List Text). render rooted (reverse ps))
            (keep_parts-up rooted kept run (other ∷ e ∷ es) h.0)
        ∙ sym
            (clean-below b bs other (join_path (e ∷ es)) _ h.1.0 (split_path-join_path e es h.1.1)))

-- Where the base directory is given, an upload of a run to the path "../<other>/<path>" is an upload
-- of the other run to <path>, and the same of a download: a run can overwrite and read the artifacts
-- of every other run. The parts of the path and the ids are names without "/" that are neither empty
-- nor "." nor "..".
pub local_upload-other_run :
    {F : Type 0} (fs : FileSystem F) (b : ℕ) (bs run other : Text) (e : Text) (es : List Text)
    (r : Reader) (f : F)
    → All IsName (run ∷ other ∷ e ∷ es)
    → (local_upload fs (b ∷ bs) run (other_run other (e ∷ es)) r f
        ≡ local_upload fs (b ∷ bs) other (join_path (e ∷ es)) r f)
      × (local_download fs (b ∷ bs) run (other_run other (e ∷ es)) f
          ≡ local_download fs (b ∷ bs) other (join_path (e ∷ es)) f)
unfolding local_upload local_download
local_upload-other_run fs b bs run other e es r f h =
    let same = artifact_path-other_run b bs run other e es h in
    (rw same refl, rw (local_download, same) refl)
