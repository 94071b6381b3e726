-- ===== src/Database/Consistency/Profiles/Fundraisers.antt =====
-- The methods of the fundraiser repository keep the tables consistent.
use be_pawfund.Prelude.{
  ◌≡◌, ◌≢◌, refl, true, false, ◌&&◌, Option, none, some, List, [], ◌∷◌, ◌++◌, arith, Result, ok,
  err, Member, any, update_where, Bool-cases, inl, inr, ◌⊎◌, nat_eq, any_of_Member,
}
use be_pawfund.Text.{Text, trim_space}
use be_pawfund.Domain.{
  Uuid, Instant, Campaign, Fundraiser, FundraiserProfileReplacement, RepositoryError,
}
use be_pawfund.Database.{
  Db, Driver, UserRow, has_id, finish, fundraiser_account, fundraiser_of, begin, lock, insert,
  update,
}
use be_pawfund.Database.Users.{insert_user, update_email, soft_delete}
use be_pawfund.Database.Fundraisers.{
  create_fundraiser, inserted_fundraiser, fundraiser_row, replace_fundraiser, replace_found,
  replaced_users, replace_fundraiser_rows, image_of, delete_fundraiser, delete_found,
  cleared_fundraisers, deleted_fundraiser, is_open, has_active_campaign,
}
use be_pawfund.Database.Consistency.{is_owner, IsConsistent}
use be_pawfund.Database.Consistency.Profiles.{
  with_profiles, KeepsOwners-IsConsistent, insert_user-KeepsOwners, update_email-KeepsOwners,
  soft_delete-KeepsOwners,
}

module _ (driver : Driver) (db : Db) where
  -- What the ends of the methods leave of the tables.
  inserted_cases :
      (s : Fundraiser) (u : UserRow)
      → ((inserted_fundraiser driver s (ok u) db).1 ≡ db)
        ⊎ ((inserted_fundraiser driver s (ok u) db).1
            ≡ with_profiles
                (db.users ++ u ∷ [])
                (db.fundraisers ++ fundraiser_row s ∷ [])
                db.supporters
                db)
  unfolding finish
  inserted_cases s u = ground arith

  replaced_cases :
      (profile : FundraiserProfileReplacement) (id : Uuid) (current : Option Text)
      (users : List UserRow)
      → ((replaced_users driver profile id current (ok users) db).1 ≡ db)
        ⊎ ((replaced_users driver profile id current (ok users) db).1
            ≡ with_profiles
                (users)
                (replace_fundraiser_rows id profile db.fundraisers)
                db.supporters
                db)
  unfolding finish
  replaced_cases profile id current users = ground arith

  deleted_cases :
      (now : Instant) (u : UserRow)
      → ((delete_found driver now (some u) db).1 ≡ db)
        ⊎ ((has_active_campaign u.user.id db ≡ false)
            × ((delete_found driver now (some u) db).1 ≡ deleted_fundraiser now u.user.id db))
  unfolding finish
  deleted_cases now u = ground arith

module _ (driver : Driver) (db : Db) (h : IsConsistent db) where
  inserted_keep :
      (now : Instant) (s : Fundraiser) (r : Result RepositoryError UserRow)
      → insert_user now s.user db.users ≡ r
      → IsConsistent (inserted_fundraiser driver s r db).1
  inserted_keep now s (err e) eq = h
  inserted_keep now s (ok u) eq = elim (inserted_cases driver db s u) [
    | inl e ↦ rw e h
    | inr e ↦ rw e (
        KeepsOwners-IsConsistent (db.users ++ u ∷ []) (db.fundraisers ++ fundraiser_row s ∷ [])
          db.supporters db h (insert_user-KeepsOwners db h now s.user u eq))
  ]

  -- Create keeps the tables consistent.
  pub create_fundraiser-IsConsistent :
      (now : Instant) (s : Fundraiser) → IsConsistent (create_fundraiser driver now s db).1
  unfolding create_fundraiser
  create_fundraiser-IsConsistent now s =
      elim (Bool-cases (driver.works begin && driver.works insert)) [
        | inl works ↦ rw works (inserted_keep now s (insert_user now s.user db.users) refl)
        | inr broken ↦ rw broken h
      ]

  replaced_keep :
      (profile : FundraiserProfileReplacement) (id : Uuid) (current : Option Text)
      (r : Result RepositoryError (List UserRow))
      → update_email profile.email id db.users ≡ r
      → IsConsistent (replaced_users driver profile id current r db).1
  replaced_keep profile id current (err e) eq = h
  replaced_keep profile id current (ok users) eq =
      elim (replaced_cases driver db profile id current users) [
        | inl e ↦ rw e h
        | inr e ↦ rw e (
            KeepsOwners-IsConsistent (users) (replace_fundraiser_rows id profile db.fundraisers)
              db.supporters db h (update_email-KeepsOwners db h profile.email id users eq))
      ]

  replace_keep :
      (profile : FundraiserProfileReplacement) (found : Option UserRow)
      → IsConsistent (replace_found driver profile found db).1
  replace_keep profile none = h
  replace_keep profile (some u) = elim (Bool-cases (driver.works update)) [
    | inl works ↦ rw works (
        replaced_keep profile u.user.id (image_of (fundraiser_of db.fundraisers u))
          (update_email profile.email u.user.id db.users) refl)
    | inr broken ↦ rw broken h
  ]

  -- An account whose campaigns are none of them pending or active.
  owns_no_open :
      (id : Uuid)
      → has_active_campaign id db ≡ false
      → (c : Campaign) → Member c db.campaigns
      → is_open c.status ≡ true
      → any (is_owner c.fundraiser_id) db.users ≡ true
      → c.fundraiser_id ≢ id
  unfolding has_active_campaign
  owns_no_open id closed c mc is_open_c owned equal =
      let tested : (nat_eq c.fundraiser_id id && is_open c.status) ≡ true = ground arith in
      let found : any (λ (c : Campaign). nat_eq c.fundraiser_id id && is_open c.status) db.campaigns
          ≡ true =
        any_of_Member (λ (c : Campaign). nat_eq c.fundraiser_id id && is_open c.status) db.campaigns
          c mc tested in
      cc (found, closed)

  delete_keep :
      (now : Instant) (found : Option UserRow) → IsConsistent (delete_found driver now found db).1
  delete_keep now none = h
  delete_keep now (some u) = elim (deleted_cases driver db now u) [
    | inl e ↦ rw e h
    | inr (closed, e) ↦ rw e (
        KeepsOwners-IsConsistent (update_where (has_id u.user.id) (soft_delete now) db.users)
          (cleared_fundraisers u.user.id db.fundraisers) db.supporters db h
          (soft_delete-KeepsOwners db h now u.user.id (owns_no_open u.user.id closed)))
  ]

  module _ (lower : Text → Text) (wallet_address : Text) where
    -- ReplaceProfile keeps the tables consistent.
    pub replace_fundraiser-IsConsistent :
        (profile : FundraiserProfileReplacement)
        → IsConsistent (replace_fundraiser lower driver wallet_address profile db).1
    unfolding replace_fundraiser
    replace_fundraiser-IsConsistent profile =
        elim (Bool-cases (driver.works begin && driver.works lock)) [
          | inl works ↦
              rw works
                (replace_keep profile (fundraiser_account lower (trim_space wallet_address) db))
          | inr broken ↦ rw broken h
        ]

    -- DeleteProfile keeps the tables consistent.
    pub delete_fundraiser-IsConsistent :
        (now : Instant) → IsConsistent (delete_fundraiser lower driver now wallet_address db).1
    unfolding delete_fundraiser
    delete_fundraiser-IsConsistent now =
        elim (Bool-cases (driver.works begin && driver.works lock)) [
          | inl works ↦
              rw works (delete_keep now (fundraiser_account lower (trim_space wallet_address) db))
          | inr broken ↦ rw broken h
        ]
