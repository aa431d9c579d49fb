-- ===== src/Examples/Keeping.antt =====
-- A bucket as an association list, and artifacts in it.
use brazier.Base.{
  Text, text, ◌==◌, ==_iff, ◌≡◌, refl, Bool, true, false, ◌&&◌, Option, none, some, List, [], ◌∷◌,
  contains, has_prefix, cut_prefix, arith, if◌then◌else◌,
}
use brazier.Artifacts.{
  Reader, Bucket, key, list_pages, s3_upload, s3_download, s3_list, gcs_upload, gcs_download,
  object_name,
}
use brazier.Artifacts.Local.{
  walked, FileSystem, local_upload, local_download, artifact_path, join3, clean, keep_parts,
  split_path, join_path,
}
use brazier.Artifacts.Local.Parts.{IsName}
use brazier.Artifacts.Local.Paths.{other_run, local_upload-other_run}
use brazier.Artifacts.Names.{NoSlash}
use brazier.Artifacts.Stores.{
  is_there, IsConsistent, s3_download-s3_upload, gcs_download-gcs_upload, s3_list-s3_download,
}

abbrev Shelf : Type 0
Shelf = List (Text × Text)

object : Text → Shelf → Option Text
object k [] = none
object k ((j, c) ∷ shelf) = if j == k then some c else object k shelf

names : Text → Shelf → List Text
names p [] = []
names p ((j, c) ∷ shelf) = let rest = names p shelf in if has_prefix j p then j ∷ rest else rest

abbrev put : Text → Reader → Shelf → Bool × Shelf
put k r shelf = if r.fails then (false, shelf) else (true, (k, r.content) ∷ shelf)

abbrev bucket : Bucket Shelf
bucket = record {
  put_object = put;
  close_writer = λ k c shelf. (true, (k, c) ∷ shelf);
  object = object;
  pages = λ p shelf. some (names p shelf) ∷ [];
}

contains-names :
    (p k : Text) (shelf : Shelf)
    → contains k (names p shelf) ≡ (has_prefix k p && is_there (object k shelf))
unfolding names object contains
contains-names p k [] = ground arith
contains-names p k ((j, c) ∷ shelf) =
    ground (arith, contains-names p k shelf, ==_iff k j, ==_iff j k)

bucket-IsConsistent : IsConsistent bucket
unfolding object
bucket-IsConsistent = record {
  put_object = λ k j r b. ground arith;
  close_writer = λ k j c b. refl;
  pages = λ p k b all_there. ground (arith, contains-names p k b);
}

abbrev report : Reader
report = record { content = text "ok"; fails = false }

abbrev cut_off : Reader
cut_off = record { content = text "o"; fails = true }

r1-NoSlash : NoSlash (text "r1")
unfolding NoSlash text
r1-NoSlash = grind arith

keeping : Unit {0}
unfolding s3_upload s3_download s3_list list_pages key object names has_prefix cut_prefix text ◌==◌
    gcs_upload gcs_download object_name
keeping = tt

abbrev kept : Shelf
kept = (s3_upload bucket (text "p") (text "r1") (text "a/b") report []).1

found : s3_list bucket (text "p") (text "r1") kept ≡ some (text "a/b" ∷ [])
unfolding keeping
found = refl

-- What was read before the error is there.
half :
    gcs_download bucket []
      (text "r1")
      (text "a")
      (gcs_upload bucket [] (text "r1") (text "a") cut_off []).1
    ≡ some (text "o")
unfolding keeping
half = refl

s3_download-s3_upload_example : s3_download bucket (text "p") (text "r1") (text "a/b") kept ≡ (
    if text "r1" == text "r1" && text "a/b" == text "a/b"
    then some (text "ok")
    else s3_download bucket (text "p") (text "r1") (text "a/b") [])
unfolding s3_upload
s3_download-s3_upload_example =
    s3_download-s3_upload bucket bucket-IsConsistent (text "p") (text "r1") (text "r1") (text "a/b")
      (text "a/b") report [] r1-NoSlash r1-NoSlash

gcs_download-gcs_upload_example :
    let (done, shelf) = gcs_upload bucket [] (text "r1") (text "a") cut_off [] in
    (done ≡ false)
    × (gcs_download bucket [] (text "r1") (text "b") shelf ≡ (
        if text "r1" == text "r1" && text "a" == text "b"
        then some (text "o")
        else gcs_download bucket [] (text "r1") (text "b") []))
unfolding gcs_upload
gcs_download-gcs_upload_example =
    gcs_download-gcs_upload bucket bucket-IsConsistent [] (text "r1") (text "r1") (text "a")
      (text "b") cut_off [] r1-NoSlash r1-NoSlash

listed_download :
    contains (text "a/b") (text "a/b" ∷ [])
    ≡ is_there (s3_download bucket (text "p") (text "r1") (text "a/b") kept)
listed_download =
    s3_list-s3_download bucket bucket-IsConsistent (text "p") (text "r1") (text "a/b")
      (text "a/b" ∷ []) kept found

r2-NoSlash : NoSlash (text "r2")
unfolding NoSlash text
r2-NoSlash = grind arith

a-NoSlash : NoSlash (text "a")
unfolding NoSlash text
a-NoSlash = grind arith

r1-IsName : IsName (text "r1")
unfolding text ◌==◌
r1-IsName = record { no_slash = r1-NoSlash; nonempty = refl; no_dot = refl; no_dots = refl }

r2-IsName : IsName (text "r2")
unfolding text ◌==◌
r2-IsName = record { no_slash = r2-NoSlash; nonempty = refl; no_dot = refl; no_dots = refl }

a-IsName : IsName (text "a")
unfolding text ◌==◌
a-IsName = record { no_slash = a-NoSlash; nonempty = refl; no_dot = refl; no_dots = refl }

abbrev files : FileSystem Shelf
files = record {
  make_parents = λ p shelf. (true, shelf);
  create = λ p shelf. (true, (p, []) ∷ shelf);
  write = λ p c shelf. (true, (p, c) ∷ shelf);
  open_file = object;
  walk = λ p shelf. walked (names p shelf);
}

walking : Unit {0}
unfolding local_upload local_download artifact_path join3 clean keep_parts split_path join_path
    object text ◌==◌
walking = tt

-- The run r1 writes the artifact a of the run r2.
written :
    local_download files
      (text "./artifacts")
      (text "r2")
      (text "a")
      (local_upload files (text "./artifacts") (text "r1") (text "../r2/a") report []).1
    ≡ some (text "ok")
unfolding walking
written = refl

local_upload-other_run_example :
    (local_upload files
        (text "./artifacts")
        (text "r1")
        (other_run (text "r2") (text "a" ∷ []))
        report
        []
      ≡ local_upload files (text "./artifacts") (text "r2") (join_path (text "a" ∷ [])) report [])
    × (local_download files
          (text "./artifacts")
          (text "r1")
          (other_run (text "r2") (text "a" ∷ []))
          []
        ≡ local_download files (text "./artifacts") (text "r2") (join_path (text "a" ∷ [])) [])
unfolding text
local_upload-other_run_example =
    local_upload-other_run files 46 (text "/artifacts") (text "r1") (text "r2") (text "a") [] report
      [] (r1-IsName, (r2-IsName, (a-IsName, tt)))
