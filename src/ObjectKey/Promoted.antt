-- ===== src/ObjectKey/Promoted.antt =====
-- The promotion of a staged image, and its repetition after the staged file is gone.
use be_pawfund.Prelude.{
  ◌≡◌, ◌≢◌, refl, sym, ap, ◌∙◌, true, false, ◌++◌, arith, Result, ok, err, Member, Bool-cases, inl,
  inr, length, length-append,
}
use be_pawfund.Text.{Text, codes, text_eq, is_empty, is_space, trim_space, trim_right}
use be_pawfund.Text.Laws.{text_eq_sound, text_eq_comm}
use be_pawfund.Text.Trim.{
  StartsPlain, trim_space_of_plain, trim_right-trim_space, trim_right-suffix, trim_space_idem,
}
use be_pawfund.Domain.{ServiceError}
use be_pawfund.Storage.{
  ObjectClient, StorageError, object_not_found, other, done, broken, promote, discard,
}
use be_pawfund.Storage.Promotion.{promote-holds_dest, discard-other}
use be_pawfund.ObjectKey.{
  UuidPackage, staging_prefix, canonical_image_object_key, promote_image_object_key, promoted,
  promote_canonical,
}
use be_pawfund.ObjectKey.Canonical.{IsStaged, canonical-IsStaged}
use be_pawfund.ObjectKey.Staged.{directories}

module _ (uuid : UuidPackage) (key directory canonical : Text) where
  directory_plain :
      (rest : Text)
      → Member directory directories
      → (canonical ≡ directory ++ rest)
      → StartsPlain canonical
  unfolding is_space
  directory_plain rest (inl e) h = rw (h, e) refl
  directory_plain rest (inr (inl e)) h = rw (h, e) refl
  directory_plain rest (inr (inr m)) h = elim m [ ]

  -- A committed key has no space at its ends, and is not the staged key.
  pub IsStaged-trimmed :
      IsStaged uuid key directory canonical
      → Member directory directories
      → trim_space canonical ≡ canonical
  IsStaged-trimmed s m =
      trim_space_of_plain canonical
        (directory_plain (codes "/" ++ (s.id ++ s.extension)) m s.committed)
        (trim_right-suffix staging_prefix canonical
          (ap trim_right (sym s.staged) ∙ trim_right-trim_space key ∙ s.staged))

  pub IsStaged-other :
      IsStaged uuid key directory canonical → text_eq (trim_space key) canonical ≡ false
  IsStaged-other s = elim (Bool-cases (text_eq (trim_space key) canonical)) [
    | inl e ↦
        let same : staging_prefix ++ canonical ≡ canonical =
          sym s.staged ∙ text_eq_sound (trim_space key) canonical e in
        let longer : length (staging_prefix ++ canonical) ≡ length canonical = ap length same in
        absurd (omega (arith, longer, length-append staging_prefix canonical))
    | inr e ↦ e
  ]

  module _ (client : ObjectClient) where
    open client use {Bucket, holds, stat_object}

    pub promoted_parts :
        (b b' : Bucket)
        → promote_image_object_key uuid client true key directory b ≡ (ok canonical, b')
        → (canonical_image_object_key uuid key directory ≡ ok canonical)
          × (promote client (trim_space key) canonical b ≡ (ok tt, b'))
    unfolding promote_image_object_key
    promoted_parts b b' h = parts (canonical_image_object_key uuid key directory) refl h
      where
        parts :
            (r : Result ServiceError Text)
            → canonical_image_object_key uuid key directory ≡ r
            → promote_canonical uuid client true key r b ≡ (ok canonical, b')
            → (canonical_image_object_key uuid key directory ≡ ok canonical)
              × (promote client (trim_space key) canonical b ≡ (ok tt, b'))
        parts (err e) f k = ground arith
        parts (ok c) f k = from (promote client (trim_space key) c b) refl k
          where
            from :
                (p : Result StorageError (Unit {0}) × Bucket)
                → promote client (trim_space key) c b ≡ p
                → promoted uuid client c p ≡ (ok canonical, b')
                → (canonical_image_object_key uuid key directory ≡ ok canonical)
                  × (promote client (trim_space key) canonical b ≡ (ok tt, b'))
            from (ok tt, b'') g k =
                let same : c ≡ canonical = ground arith in
                let same_bucket : b'' ≡ b' = ground arith in
                (f ∙ ap ok same, rw (← same) (g ∙ ap (λ (x : Bucket). (ok tt, x)) same_bucket))
            from (err object_not_found, b'') g k = ground arith
            from (err other, b'') g k = ground arith

    -- After a successful promotion to one of the two directories the committed image is there, also
    -- when the staged one is discarded.
    pub promote_image-holds :
        (b b' : Bucket)
        → Member directory directories
        → promote_image_object_key uuid client true key directory b ≡ (ok canonical, b')
        → holds (discard client (trim_space key) b') canonical ≡ true
    promote_image-holds b b' m h =
        let (made, went) = promoted_parts b b' h in
        let s = canonical-IsStaged uuid key directory canonical made in
        let there : holds b' (trim_space canonical) ≡ true =
          ap (λ (r : Result StorageError (Unit {0}) × Bucket). holds r.1 (trim_space canonical))
            (sym went)
          ∙ promote-holds_dest client (trim_space key) canonical b
              (ap (λ (r : Result StorageError (Unit {0}) × Bucket). r.0) went) in
        discard-other client (trim_space key) b' canonical
          (rw (trim_space_idem key) (text_eq_comm canonical (trim_space key) ∙ IsStaged-other s))
        ∙ (let there' : holds b' canonical ≡ true =
              ap (holds b') (sym (IsStaged-trimmed s m)) ∙ there in
            there')

    -- A promotion for an accepted key of one of the two directories, whose committed image is there
    -- and can be looked up, succeeds and changes nothing, whether or not the staged image is there.
    pub promote_image-again :
        (b : Bucket)
        → Member directory directories
        → canonical_image_object_key uuid key directory ≡ ok canonical
        → holds b canonical ≡ true
        → stat_object b canonical ≢ broken
        → promote_image_object_key uuid client true key directory b ≡ (ok canonical, b)
    unfolding promote_image_object_key promote
    promote_image-again b m made there stat =
        let s = canonical-IsStaged uuid key directory canonical made in
        let full : is_empty (trim_space key) ≡ false = rw (s.staged) refl in
        let filled : is_empty canonical ≡ false = is_filled s m in
        let found : stat_object b canonical ≡ done =
          ground (arith, client.stat-missing b canonical) in
        rw (made, trim_space_idem key, IsStaged-trimmed s m, full, filled, IsStaged-other s, found)
          refl
      where
        is_filled :
            IsStaged uuid key directory canonical
            → Member directory directories
            → is_empty canonical ≡ false
        is_filled s (inl e) = rw (s.committed, e) refl
        is_filled s (inr (inl e)) = rw (s.committed, e) refl
        is_filled s (inr (inr n)) = elim n [ ]
