-- ===== src/Artifacts.antt =====
-- internal/artifacts: the stores for artifacts in S3 (s3.go) and in Google Cloud Storage (gcs.go).
-- The clients are parameters (`Bucket`). What is read from an
-- `io.Reader` is the text that comes before its end or its error. Credentials, buckets' names and
-- contexts are left out.
pub mod Names
pub mod Stores
pub mod Local
pub mod Artifactory
use brazier.Base.{
  ℕ, zero, suc, Text, text, Bool, true, false, ◌&&◌, not, Option, none, some, List, [], ◌∷◌, ◌++◌,
  length, if◌then◌else◌,
}

-- What an `io.Reader` gives, and whether it ends with an error.
pub record Reader : Type 0 where
  pub content : Text
  pub fails : Bool

-- The calls of the clients, on a bucket of type `B`: `PutObject`, the `Close` of a writer behind
-- what was written, the object of a name, and the names with a prefix, in pages that may fail.
pub record Bucket (B : Type 0) : Type 0 where
  pub put_object : Text → Reader → B → Bool × B
  pub close_writer : Text → Text → B → Bool × B
  pub object : Text → B → Option Text
  pub pages : Text → B → List (Option (List Text))

abbrev pub drop : ℕ → Text → Text
drop zero s = s
drop (suc n) [] = []
drop (suc n) (c ∷ s) = drop n s

abbrev pub append_page : List Text → Option (List Text) → Option (List Text)
append_page xs none = none
append_page xs (some ys) = some (xs ++ ys)

abbrev pub relative : ℕ → List Text → List Text
relative n [] = []
relative n (k ∷ ks) = drop n k ∷ relative n ks

-- The loop over the pages of `S3Store.List`, whose names are cut behind the prefix.
unfoldable pub list_pages : ℕ → List (Option (List Text)) → Option (List Text)
list_pages n [] = some []
list_pages n (none ∷ pages) = none
list_pages n (some keys ∷ pages) = append_page (relative n keys) (list_pages n pages)

-- `S3Store.key`
unfoldable pub key : (prefix run_id path : Text) → Text
key [] run_id path = run_id ++ (text "/" ++ path)
key (c ∷ cs) run_id path = (c ∷ cs) ++ (text "/" ++ (run_id ++ (text "/" ++ path)))

-- `GCSStore.object`
unfoldable pub object_name : (prefix run_id path : Text) → Text
object_name [] run_id path = run_id ++ (text "/" ++ path)
object_name (c ∷ cs) run_id path = (c ∷ cs) ++ (text "/" ++ (run_id ++ (text "/" ++ path)))

module _ {B : Type 0} (bucket : Bucket B) (prefix : Text) where
  unfoldable pub s3_upload : (run_id path : Text) → Reader → B → Bool × B
  s3_upload run_id path r b = bucket.put_object (key prefix run_id path) r b

  unfoldable pub s3_download : (run_id path : Text) → B → Option Text
  s3_download run_id path b = bucket.object (key prefix run_id path) b

  unfoldable pub s3_list : (run_id : Text) → B → Option (List Text)
  s3_list run_id b = let p = key prefix run_id [] in list_pages (length p) (bucket.pages p b)

  -- `GCSStore.Upload`: the object is stored by `Close`, which is called where the copy fails too.
  unfoldable pub gcs_upload : (run_id path : Text) → Reader → B → Bool × B
  gcs_upload run_id path r b =
      let (closed, b') = bucket.close_writer (object_name prefix run_id path) r.content b in
      (if r.fails then false else closed, b')

  unfoldable pub gcs_download : (run_id path : Text) → B → Option Text
  gcs_download run_id path b = bucket.object (object_name prefix run_id path) b

  -- Each page has one item.
  unfoldable pub gcs_list : (run_id : Text) → B → Option (List Text)
  gcs_list run_id b =
      let p = object_name prefix run_id [] in list_pages (length p) (bucket.pages p b)
