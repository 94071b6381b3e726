-- ===== src/Storage/Promotion.antt =====
-- What Promote and Discard do to the bucket.
use be_pawfund.Prelude.{◌≡◌, sym, ap, ◌∙◌, true, false, ok, arith, Bool-cases, inl, inr}
use be_pawfund.Text.{Text, text_eq, trim_space}
use be_pawfund.Text.Laws.{text_eq_iff}
use be_pawfund.Storage.{ObjectClient, promote, discard}

module _ (client : ObjectClient) where
  open client use {Bucket, holds, stat_object, copy_object, remove_object}

  -- After a successful Promote the destination is there.
  pub promote-holds_dest :
      (source dest : Text) (b : Bucket)
      → (promote client source dest b).0 ≡ ok tt
      → holds (promote client source dest b).1 (trim_space dest) ≡ true
  unfolding promote
  promote-holds_dest source dest b h = ground (
    arith,
    client.stat-done b (trim_space dest),
    client.copy-done b (trim_space dest) (trim_space source),
  )

  -- Promote touches no object but the destination.
  pub promote-other :
      (source dest : Text) (b : Bucket) (k : Text)
      → text_eq k (trim_space dest) ≡ false
      → holds (promote client source dest b).1 k ≡ holds b k
  unfolding promote
  promote-other source dest b k h =
      ground (arith, client.copy-other b (trim_space dest) (trim_space source) k)

  -- Discard removes no object but the named one.
  pub discard-other :
      (key : Text) (b : Bucket) (k : Text)
      → text_eq k (trim_space key) ≡ false
      → holds (discard client key b) k ≡ holds b k
  unfolding discard
  discard-other key b k h = ground (arith, client.remove-other b (trim_space key) k)

  -- Promote loses no object, also where it fails: it copies only to a destination that is not there.
  pub promote-keeps_all :
      (source dest : Text) (b : Bucket) (k : Text)
      → holds b k ≡ true
      → holds (promote client source dest b).1 k ≡ true
  unfolding promote
  promote-keeps_all source dest b k kept = elim (Bool-cases (text_eq k (trim_space dest))) [
    | inl e ↦
        let same : k ≡ trim_space dest = (text_eq_iff k (trim_space dest)).0 e in
        let there : holds b (trim_space dest) ≡ true = ap (holds b) (sym same) ∙ kept in
        ground (arith, client.stat-missing b (trim_space dest), there, same)
    | inr e ↦ ground (arith, promote-other source dest b k)
  ]
