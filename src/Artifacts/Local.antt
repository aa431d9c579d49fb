-- ===== src/Artifacts/Local.antt =====
-- internal/artifacts/local.go: `LocalStore`, which keeps artifacts as files. The file system is a
-- parameter; `filepath.Clean` and `filepath.Join` are written out, for the separator "/".
pub mod Parts
pub mod Paths
use mathlib.Core.List.{reverse}
use brazier.Base.{
  ℕ, Text, text, ◌==◌, Bool, true, false, ◌||◌, Option, none, some, List, [], ◌∷◌, ◌++◌, nat_eq,
  if◌then◌else◌,
}
use brazier.Artifacts.{Reader}

abbrev pub push_char : ℕ → List Text → List Text
push_char c [] = (c ∷ []) ∷ []
push_char c (e ∷ es) = (c ∷ e) ∷ es

-- The parts between the separators.
unfoldable pub split_path : Text → List Text
split_path [] = [] ∷ []
split_path (c ∷ s) = let rest = split_path s in if nat_eq c 47 then [] ∷ rest else push_char c rest

unfoldable pub join_path : List Text → Text
join_path [] = []
join_path (e ∷ []) = e
join_path (e ∷ d ∷ es) = e ++ (text "/" ++ join_path (d ∷ es))

-- ".." behind the parts that are kept, the last first.
abbrev pub go_up : (rooted : Bool) → List Text → List Text
go_up true [] = []
go_up false [] = text ".." ∷ []
go_up rooted (e ∷ kept) = if e == text ".." then text ".." ∷ e ∷ kept else kept

abbrev pub keep_part : (rooted : Bool) → List Text → Text → List Text
keep_part rooted kept e =
    if e == [] || e == text "."
    then kept
    else if e == text ".."
    then go_up rooted kept
    else e ∷ kept

unfoldable pub keep_parts : (rooted : Bool) → List Text → List Text → List Text
keep_parts rooted kept [] = kept
keep_parts rooted kept (e ∷ es) = keep_parts rooted (keep_part rooted kept e) es

abbrev pub is_rooted : Text → Bool
is_rooted [] = false
is_rooted (c ∷ s) = nat_eq c 47

abbrev pub render : (rooted : Bool) → List Text → Text
render true parts = text "/" ++ join_path parts
render false [] = text "."
render false (e ∷ es) = join_path (e ∷ es)

-- `filepath.Clean`
unfoldable pub clean : Text → Text
clean p = render (is_rooted p) (reverse (keep_parts (is_rooted p) [] (split_path p)))

-- `filepath.Join` of three elements
unfoldable pub join3 : Text → Text → Text → Text
join3 [] [] [] = []
join3 [] [] (c ∷ cs) = clean (c ∷ cs)
join3 [] (b ∷ bs) c = clean ((b ∷ bs) ++ (text "/" ++ c))
join3 (a ∷ s) b c = clean ((a ∷ s) ++ (text "/" ++ (b ++ (text "/" ++ c))))

-- `artifactPath`
unfoldable pub artifact_path : (base run_id path : Text) → Text
artifact_path base run_id path = join3 base run_id (clean path)

-- What `filepath.Walk` comes to.
pub data Walked : Type 0 where
  walked : List Text → Walked
  no_directory walk_failed : Walked

-- `create` makes or empties the file, `write` adds the content; `walk` gives the files below a
-- directory, relative to it. `make_parents` is `os.MkdirAll` of the directory of a path.
pub record FileSystem (F : Type 0) : Type 0 where
  pub make_parents : Text → F → Bool × F
  pub create : Text → F → Bool × F
  pub write : Text → Text → F → Bool × F
  pub open_file : Text → F → Option Text
  pub walk : Text → F → Walked

module _ {F : Type 0} (fs : FileSystem F) (base : Text) where
  abbrev write_artifact : Text → Reader → Bool × F → Bool × F
  write_artifact dest r (false, f) = (false, f)
  write_artifact dest r (true, f) =
      let (written, f') = fs.write dest r.content f in (if r.fails then false else written, f')

  abbrev create_artifact : Text → Reader → Bool × F → Bool × F
  create_artifact dest r (false, f) = (false, f)
  create_artifact dest r (true, f) = write_artifact dest r (fs.create dest f)

  unfoldable pub local_upload : (run_id path : Text) → Reader → F → Bool × F
  local_upload run_id path r f =
      let dest = artifact_path base run_id path in create_artifact dest r (fs.make_parents dest f)

  unfoldable pub local_download : (run_id path : Text) → F → Option Text
  local_download run_id path f = fs.open_file (artifact_path base run_id path) f

  abbrev listing : Walked → Option (List Text)
  listing (walked paths) = some paths
  listing no_directory = some []
  listing walk_failed = none

  unfoldable pub local_list : (run_id : Text) → F → Option (List Text)
  local_list run_id f = listing (fs.walk (join3 base run_id []) f)
