-- ===== src/Storage.antt =====
-- internal/infra/storage/object_promoter.go and object_deleter.go: the copy of a staged image to its
-- committed place, and the removal of objects. The object store (MinIO, R2) is a parameter.
pub mod Promotion
pub mod PublicUrl
use be_pawfund.Prelude.{◌≡◌, Bool, true, false, ◌&&◌, ◌||◌, Result, ok, err, if◌then◌else◌}
use be_pawfund.Text.{Text, text_eq, is_empty, trim_space}

-- What a call of the store answers: it worked, the object is not there (`isObjectNotFound`), or it
-- failed in another way.
pub data Answer : Type 0 where
  done missing broken : Answer

-- The operations of the MinIO client that the program calls, over the states of one bucket, with
-- their documented behaviour. `holds` tells the objects of a state.
pub record ObjectClient : Type 1 where
  pub Bucket : Type 0
  pub holds : Bucket → Text → Bool
  pub stat_object : Bucket → Text → Answer
  -- destination, source
  pub copy_object : Bucket → Text → Text → Answer × Bucket
  pub remove_object : Bucket → Text → Answer × Bucket
  -- StatObject finds exactly what is there, when it does not fail.
  pub stat-done : (b : Bucket) (k : Text) → stat_object b k ≡ done → holds b k ≡ true
  pub stat-missing : (b : Bucket) (k : Text) → stat_object b k ≡ missing → holds b k ≡ false
  -- CopyObject leaves every object but the destination alone; a success creates the destination,
  -- and the store answers that the source is missing only if it is.
  pub copy-other :
      (b : Bucket) (dest source k : Text)
      → text_eq k dest ≡ false
      → holds (copy_object b dest source).1 k ≡ holds b k
  pub copy-done :
      (b : Bucket) (dest source : Text)
      → (copy_object b dest source).0 ≡ done
      → holds (copy_object b dest source).1 dest ≡ true
  pub copy-missing :
      (b : Bucket) (dest source : Text)
      → (copy_object b dest source).0 ≡ missing
      → holds b source ≡ false
  -- RemoveObject removes nothing but its object.
  pub remove-other :
      (b : Bucket) (key k : Text)
      → text_eq k key ≡ false
      → holds (remove_object b key).1 k ≡ holds b k

-- The errors of the promoter: storage.ErrObjectNotFound, or another.
pub data StorageError : Type 0 where
  object_not_found other : StorageError

module _ (client : ObjectClient) where
  open client use {Bucket, stat_object, copy_object, remove_object}

  abbrev after_copy : Answer × Bucket → Result StorageError (Unit {0}) × Bucket
  after_copy (done, b) = (ok tt, b)
  after_copy (missing, b) = (err object_not_found, b)
  after_copy (broken, b) = (err other, b)

  abbrev after_stat : Answer → Bucket → Text → Text → Result StorageError (Unit {0}) × Bucket
  after_stat done b dest source = (ok tt, b)
  after_stat missing b dest source = after_copy (copy_object b dest source)
  after_stat broken b dest source = (err other, b)

  -- ObjectPromoter.Promote(sourceKey, destKey)
  unfoldable pub promote : Text → Text → Bucket → Result StorageError (Unit {0}) × Bucket
  promote source_key dest_key b =
      let source = trim_space source_key in
      let dest = trim_space dest_key in
      if is_empty source || is_empty dest
      then (err other, b)
      else if text_eq source dest
      then (err other, b)
      else after_stat (stat_object b dest) b dest source

  -- ObjectPromoter.Discard: a failure is only logged.
  unfoldable pub discard : Text → Bucket → Bucket
  discard object_key b =
      let key = trim_space object_key in if is_empty key then b else (remove_object b key).1

  abbrev after_remove : Answer × Bucket → Result StorageError (Unit {0}) × Bucket
  after_remove (done, b) = (ok tt, b)
  after_remove (_, b) = (err other, b)

  -- ObjectDeleter.Delete
  unfoldable pub delete : Text → Bucket → Result StorageError (Unit {0}) × Bucket
  delete object_key b =
      let key = trim_space object_key in
      if is_empty key then (err other, b) else after_remove (remove_object b key)
