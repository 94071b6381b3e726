-- ===== src/Database/Images.antt =====
-- The images that the profile methods release: what their answers let the services delete.
use be_pawfund.Prelude.{
  ◌≡◌, refl, ap, ◌∙◌, Bool, true, false, not, ◌&&◌, All, All-weaken, any-eq-false, is_some,
  nat_eq_iff, Option, none, some, List, [], ◌∷◌, arith, Result, ok, err, any,
}
use be_pawfund.Text.{Text, trim_space}
use be_pawfund.Text.Laws.{text_eq_refl}
use be_pawfund.Domain.{
  Uuid, Instant, ImageObjectKeyUpdate, SupporterProfileReplacement, FundraiserProfileReplacement,
  RepositoryError,
}
use be_pawfund.Database.{
  Db, Driver, UserRow, FundraiserRow, SupporterRow, has_id, is_live, finish, supporter_account,
  fundraiser_account, supporter_of, fundraiser_of,
}
use be_pawfund.Database.Users.{
  Cleanup, is_image, image_still_referenced, image_referenced_live, replaced_image, deleted_image,
  update_email,
}
use be_pawfund.Database.Supporters
use be_pawfund.Database.Fundraisers
use be_pawfund.Database.History.{
  Method, creates_fundraiser, replaces_fundraiser, deletes_fundraiser, creates_supporter,
  replaces_supporter, deletes_supporter, creates_campaign, completes_deployment, after_method,
}

any_and_false :
    {A : Type 0} (p q : A → Bool) (xs : List A)
    → any p xs ≡ false
    → any (λ x. p x && q x) xs ≡ false
any_and_false p q [] h = refl
any_and_false p q (x ∷ xs) h = ground (arith, any_and_false p q xs)

unreferenced_live :
    (key : Text) (db : Db)
    → image_still_referenced key db ≡ false
    → image_referenced_live key db ≡ false
unfolding image_still_referenced image_referenced_live
unreferenced_live key db h =
    let fundraisers =
      any_and_false (λ (f : FundraiserRow). is_image key f.image_object_key)
        (λ f. any (λ u. has_id f.id u && is_live u) db.users) db.fundraisers (ground arith) in
    let supporters =
      any_and_false (λ (s : SupporterRow). is_image key s.image_object_key)
        (λ s. any (λ u. has_id s.id u && is_live u) db.users) db.supporters (ground arith) in
    rw (fundraisers, supporters) refl

replaced_image-unreferenced :
    (change : ImageObjectKeyUpdate) (current : Option Text) (key : Text) (db : Db)
    → replaced_image change current db ≡ some key
    → image_referenced_live key db ≡ false
unfolding replaced_image
replaced_image-unreferenced change none key db h = ground arith
replaced_image-unreferenced change (some current) key db h =
    let same : current ≡ key = ground arith in unreferenced_live key db (rw (← same) (ground arith))

deleted_image-unreferenced :
    (current : Option Text) (key : Text) (db : Db)
    → deleted_image current db ≡ some key
    → image_referenced_live key db ≡ false
unfolding deleted_image
deleted_image-unreferenced none key db h = ground arith
deleted_image-unreferenced (some current) key db h =
    let same : current ≡ key = ground arith in rw (← same) (ground arith)

-- The image is of no live user: no row with it belongs to a user that is not deleted.
abbrev pub IsNobodys : Text → List UserRow → Uuid → Option Text → Type 0
IsNobodys key users id image =
    All (λ u. ¬ ((u.user.id ≡ id) × (u.deleted_at ≡ none) × (image ≡ some key))) users

pub record IsUnreferenced (key : Text) (db : Db) : Type 0 where
  pub no_fundraiser : All (λ f. IsNobodys key db.users f.id f.image_object_key) db.fundraisers
  pub no_supporter : All (λ s. IsNobodys key db.users s.id s.image_object_key) db.supporters

nobodys :
    (key : Text) (users : List UserRow) (id : Uuid) (image : Option Text)
    → (is_image key image && any (λ u. has_id id u && is_live u) users) ≡ false
    → IsNobodys key users id image
nobodys key [] id image h = tt
nobodys key (u ∷ users) id image h = (
  λ (same, live, shown).
      let k : is_image key image ≡ true = ap (is_image key) shown ∙ text_eq_refl key in
      let i : has_id id u ≡ true = (nat_eq_iff u.user.id id).1 same in
      let l : is_live u ≡ true = ap (λ o. not (is_some o)) live in ground (arith, h, k, i, l),
  nobodys key users id image (ground (arith, h)),
)

none_of :
    {A : Type 0} (p : A → Bool) (P : A → Type 0) (xs : List A)
    → ((x : A) → p x ≡ false → P x)
    → any p xs ≡ false
    → All P xs
none_of p P xs f h = All-weaken (λ x. p x ≡ false) P xs f (any-eq-false p xs h)

unreferenced : (key : Text) (db : Db) → image_referenced_live key db ≡ false → IsUnreferenced key db
unfolding image_referenced_live
unreferenced key db h = record {
  no_fundraiser =
      none_of
        (λ (f : FundraiserRow).
          is_image key f.image_object_key && any (λ u. has_id f.id u && is_live u) db.users)
        (λ f. IsNobodys key db.users f.id f.image_object_key) db.fundraisers
        (λ f. nobodys key db.users f.id f.image_object_key) (ground (arith, h));
  no_supporter =
      none_of
        (λ (s : SupporterRow).
          is_image key s.image_object_key && any (λ u. has_id s.id u && is_live u) db.users)
        (λ s. IsNobodys key db.users s.id s.image_object_key) db.supporters
        (λ s. nobodys key db.users s.id s.image_object_key) (ground (arith, h));
}

-- The key that an answer releases to the services (`DeleteOldImageFile`, `DeleteImageObjectFile`).
abbrev pub released : Result RepositoryError (Option Cleanup) → Option Text
released (ok (some cleanup)) = cleanup
released (ok none) = none
released (err e) = none

released_commit :
    (driver : Driver) (cleanup : Cleanup) (key : Text) (before after : Db)
    → released (finish driver (some cleanup) before after).0 ≡ some key
    → (cleanup ≡ some key) × ((finish driver (some cleanup) before after).1 ≡ after)
unfolding finish
released_commit driver cleanup key before after h = ground arith

-- A commit whose answer releases what its tables release.
released_replacement :
    (driver : Driver) (change : ImageObjectKeyUpdate) (current : Option Text) (key : Text)
    (before after : Db)
    → released (finish driver (some (replaced_image change current after)) before after).0
      ≡ some key
    → image_referenced_live key
        (finish driver (some (replaced_image change current after)) before after).1
      ≡ false
released_replacement driver change current key before after h =
    let (cleanup, left) =
      released_commit driver (replaced_image change current after) key before after h in
    rw left (replaced_image-unreferenced change current key after cleanup)

released_deletion :
    (driver : Driver) (current : Option Text) (key : Text) (before after : Db)
    → released (finish driver (some (deleted_image current after)) before after).0 ≡ some key
    → image_referenced_live key (finish driver (some (deleted_image current after)) before after).1
      ≡ false
released_deletion driver current key before after h =
    let (cleanup, left) = released_commit driver (deleted_image current after) key before after h in
    rw left (deleted_image-unreferenced current key after cleanup)

module _ (driver : Driver) (key : Text) (db : Db) where
  replaced_supporter :
      (profile : SupporterProfileReplacement) (id : Uuid) (current : Option Text)
      (r : Result RepositoryError (List UserRow))
      → released (Supporters.replaced_users driver profile id current r db).0 ≡ some key
      → image_referenced_live key (Supporters.replaced_users driver profile id current r db).1
        ≡ false
  replaced_supporter profile id current (err e) h = ground arith
  replaced_supporter profile id current (ok users) h = ground (
    arith,
    released_replacement driver profile.image_object_key current key db (record db {
      users = users;
      supporters = Supporters.replace_supporter_rows id profile db.supporters;
    }),
  )

  replace_found_supporter :
      (profile : SupporterProfileReplacement) (found : Option UserRow)
      → released (Supporters.replace_found driver profile found db).0 ≡ some key
      → image_referenced_live key (Supporters.replace_found driver profile found db).1 ≡ false
  replace_found_supporter profile none h = ground arith
  replace_found_supporter profile (some u) h = ground (
    arith,
    replaced_supporter profile u.user.id (Supporters.image_of (supporter_of db.supporters u))
        (update_email profile.email u.user.id db.users),
  )

  delete_found_supporter :
      (now : Instant) (found : Option UserRow)
      → released (Supporters.delete_found driver now found db).0 ≡ some key
      → image_referenced_live key (Supporters.delete_found driver now found db).1 ≡ false
  delete_found_supporter now none h = ground arith
  delete_found_supporter now (some u) h = ground (
    arith,
    released_deletion driver (Supporters.image_of (supporter_of db.supporters u)) key db
        (Supporters.deleted_supporter now u.user.id db),
  )

module _ (driver : Driver) (key : Text) (db : Db) where
  replaced_fundraiser :
      (profile : FundraiserProfileReplacement) (id : Uuid) (current : Option Text)
      (r : Result RepositoryError (List UserRow))
      → released (Fundraisers.replaced_users driver profile id current r db).0 ≡ some key
      → image_referenced_live key (Fundraisers.replaced_users driver profile id current r db).1
        ≡ false
  replaced_fundraiser profile id current (err e) h = ground arith
  replaced_fundraiser profile id current (ok users) h = ground (
    arith,
    released_replacement driver profile.image_object_key current key db (record db {
      users = users;
      fundraisers = Fundraisers.replace_fundraiser_rows id profile db.fundraisers;
    }),
  )

  replace_found_fundraiser :
      (profile : FundraiserProfileReplacement) (found : Option UserRow)
      → released (Fundraisers.replace_found driver profile found db).0 ≡ some key
      → image_referenced_live key (Fundraisers.replace_found driver profile found db).1 ≡ false
  replace_found_fundraiser profile none h = ground arith
  replace_found_fundraiser profile (some u) h = ground (
    arith,
    replaced_fundraiser profile u.user.id (Fundraisers.image_of (fundraiser_of db.fundraisers u))
        (update_email profile.email u.user.id db.users),
  )

  delete_found_fundraiser :
      (now : Instant) (found : Option UserRow)
      → released (Fundraisers.delete_found driver now found db).0 ≡ some key
      → image_referenced_live key (Fundraisers.delete_found driver now found db).1 ≡ false
  delete_found_fundraiser now none h = ground arith
  delete_found_fundraiser now (some u) h = ground (
    arith,
    released_deletion driver (Fundraisers.image_of (fundraiser_of db.fundraisers u)) key db
        (Fundraisers.deleted_fundraiser now u.user.id db),
  )

module _ (lower : Text → Text) (driver : Driver) (db : Db) where
  -- The key that the answer of a method releases; only replacements and deletions release one.
  abbrev pub released_by : Method → Option Text
  released_by (replaces_supporter wallet_address profile) =
      released (Supporters.replace_supporter lower driver wallet_address profile db).0
  released_by (deletes_supporter now wallet_address) =
      released (Supporters.delete_supporter lower driver now wallet_address db).0
  released_by (replaces_fundraiser wallet_address profile) =
      released (Fundraisers.replace_fundraiser lower driver wallet_address profile db).0
  released_by (deletes_fundraiser now wallet_address) =
      released (Fundraisers.delete_fundraiser lower driver now wallet_address db).0
  released_by _ = none

  released_by-not_found :
      (m : Method) (key : Text)
      → released_by m ≡ some key
      → image_referenced_live key (after_method lower driver m db) ≡ false
  unfolding after_method Supporters.replace_supporter Supporters.delete_supporter
      Fundraisers.replace_fundraiser Fundraisers.delete_fundraiser
  released_by-not_found (replaces_supporter wallet_address profile) key h = ground (
    arith,
    replace_found_supporter driver key db profile
        (supporter_account lower (trim_space wallet_address) db),
  )
  released_by-not_found (deletes_supporter now wallet_address) key h = ground (
    arith,
    delete_found_supporter driver key db now
        (supporter_account lower (trim_space wallet_address) db),
  )
  released_by-not_found (replaces_fundraiser wallet_address profile) key h = ground (
    arith,
    replace_found_fundraiser driver key db profile
        (fundraiser_account lower (trim_space wallet_address) db),
  )
  released_by-not_found (deletes_fundraiser now wallet_address) key h = ground (
    arith,
    delete_found_fundraiser driver key db now
        (fundraiser_account lower (trim_space wallet_address) db),
  )
  released_by-not_found (creates_fundraiser now f) key h = ground arith
  released_by-not_found (creates_supporter now f) key h = ground arith
  released_by-not_found (creates_campaign now wallet_address campaign minimum) key h = ground arith
  released_by-not_found (completes_deployment id event contract_address) key h = ground arith

  -- The image that a replacement or a deletion of a profile releases for deletion is the image of no
  -- live fundraiser and of no live supporter in the tables that it leaves.
  pub released_by-IsUnreferenced :
      (m : Method) (key : Text)
      → released_by m ≡ some key
      → IsUnreferenced key (after_method lower driver m db)
  released_by-IsUnreferenced m key h =
      unreferenced key (after_method lower driver m db) (released_by-not_found m key h)
