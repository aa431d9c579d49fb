-- ===== src/Artifacts/Stores.antt =====
-- The stores over a bucket: what can be downloaded and listed.
use brazier.Base.{
  Text, ◌==◌, ◌≡◌, refl, ◌∙◌, Bool, true, false, ◌&&◌, Option, none, some, List, [], ◌++◌, length,
  contains, has_prefix, arith, if◌then◌else◌,
}
use brazier.Base.Strings.Affixes.{has_prefix_iff}
use brazier.Artifacts.{
  Reader, Bucket, key, object_name, s3_upload, s3_download, s3_list, gcs_upload, gcs_download,
}
use brazier.Artifacts.Names.{
  NoSlash, key-eq, object_name-eq, key-append, arrived, listed, list_pages-arrived,
  list_pages-listed,
}

abbrev pub is_there {ℓ} : {A : Type ℓ} → Option A → Bool
is_there none = false
is_there (some a) = true

-- `PutObject` writes the whole body under its name, or nothing; the calls for S3 and the Google
-- client of a writer are consistent: what was stored is what is read next.
pub record IsConsistent {B : Type 0} (bucket : Bucket B) : Type 0 where
  pub put_object :
      (k j : Text) (r : Reader) (b : B)
      → bucket.object j (bucket.put_object k r b).1
        ≡ (if (bucket.put_object k r b).0 && k == j then some r.content else bucket.object j b)
  pub close_writer :
      (k j c : Text) (b : B)
      → bucket.object j (bucket.close_writer k c b).1
        ≡ (if (bucket.close_writer k c b).0 && k == j then some c else bucket.object j b)
  pub pages :
      (p k : Text) (b : B)
      → arrived (bucket.pages p b) ≡ true
      → listed k (bucket.pages p b) ≡ (has_prefix k p && is_there (bucket.object k b))

module _ {B : Type 0} (bucket : Bucket B) (consistent : IsConsistent bucket) (prefix : Text) where
  -- Where the bucket is consistent, an upload to S3 that succeeds makes its content the artifact
  -- of that path in that run, one that fails changes nothing, and every other artifact of every
  -- run stays as it was, whatever the prefix; the ids of the runs have no "/".
  pub s3_download-s3_upload :
      (r r' path path' : Text) (body : Reader) (b : B)
      → NoSlash r
      → NoSlash r'
      → let (done, b') = s3_upload bucket prefix r path body b in
        s3_download bucket prefix r' path' b' ≡ (
          if done && (r == r' && path == path')
          then some body.content
          else s3_download bucket prefix r' path' b)
  unfolding s3_upload s3_download
  s3_download-s3_upload r r' path path' body b h h' =
      consistent.put_object (key prefix r path) (key prefix r' path') body b
      ∙ rw (key-eq prefix r r' path path' h h') refl

  -- Where the bucket is consistent, an upload to Google Cloud Storage whose object is closed makes
  -- what was read the artifact of that path in that run, also where reading ends with an error,
  -- for which the upload fails; every other artifact of every run stays as it was; the ids of the
  -- runs have no "/".
  pub gcs_download-gcs_upload :
      (r r' path path' : Text) (body : Reader) (b : B)
      → NoSlash r
      → NoSlash r'
      → let closed = (bucket.close_writer (object_name prefix r path) body.content b).0 in
        let (done, b') = gcs_upload bucket prefix r path body b in
        (done ≡ (if body.fails then false else closed))
        × (gcs_download bucket prefix r' path' b' ≡ (
            if closed && (r == r' && path == path')
            then some body.content
            else gcs_download bucket prefix r' path' b))
  unfolding gcs_upload gcs_download
  gcs_download-gcs_upload r r' path path' body b h h' = (
    refl,
    consistent.close_writer (object_name prefix r path) (object_name prefix r' path') body.content b
        ∙ rw (object_name-eq prefix r r' path path' h h') refl,
  )

  -- Where the bucket is consistent and a listing of S3 succeeds, it has exactly the paths of the
  -- run that can be downloaded.
  pub s3_list-s3_download :
      (r path : Text) (paths : List Text) (b : B)
      → s3_list bucket prefix r b ≡ some paths
      → contains path paths ≡ is_there (s3_download bucket prefix r path b)
  unfolding s3_list s3_download
  s3_list-s3_download r path paths b found =
      let p = key prefix r [] in
      let pages = bucket.pages p b in
      let all_there = list_pages-arrived (length p) pages paths found in
      list_pages-listed p path pages paths
        (λ k on. ground (arith, consistent.pages p k b all_there, on)) found
      ∙ consistent.pages p (p ++ path) b all_there
      ∙ rw ((has_prefix_iff (p ++ path) p).1 (path, refl), key-append prefix r path) refl
