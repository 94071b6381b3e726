-- ===== src/Database/Consistency/Profiles/Supporters.antt =====
-- The methods of the supporter repository keep the tables consistent.
use be_pawfund.Prelude.{
  ◌≡◌, ◌≢◌, refl, ap, true, ◌&&◌, Option, none, some, List, [], ◌∷◌, ◌++◌, arith, Result, ok, err,
  Member, any, update_where, Bool-cases, inl, inr, ◌⊎◌, any-Member, UniqueBy-injective,
}
use be_pawfund.Text.{Text, text_eq, trim_space}
use be_pawfund.Text.Laws.{text_eq_iff}
use be_pawfund.Domain.{
  Uuid, Instant, Campaign, Supporter, SupporterProfileReplacement, RepositoryError, role_fundraiser,
  role_supporter,
}
use be_pawfund.Database.{
  Db, Driver, UserRow, has_id, finish, supporter_account, supporter_of, begin, lock, insert, update,
}
use be_pawfund.Database.Users.{insert_user, update_email, soft_delete}
use be_pawfund.Database.Supporters.{
  create_supporter, inserted_supporter, supporter_row, replace_supporter, replace_found,
  replaced_users, replace_supporter_rows, image_of, delete_supporter, delete_found,
  cleared_supporters, deleted_supporter,
}
use be_pawfund.Database.Fundraisers.{is_open}
use be_pawfund.Database.Accounts.{supporter_account-Member, supporter_account-role}
use be_pawfund.Database.Consistency.{user_id, is_owner, IsConsistent}
use be_pawfund.Database.Consistency.Profiles.{
  with_profiles, KeepsOwners-IsConsistent, insert_user-KeepsOwners, update_email-KeepsOwners,
  soft_delete-KeepsOwners,
}

module _ (driver : Driver) (db : Db) where
  -- What the ends of the methods leave of the tables.
  inserted_cases :
      (s : Supporter) (u : UserRow)
      → ((inserted_supporter driver s (ok u) db).1 ≡ db)
        ⊎ ((inserted_supporter driver s (ok u) db).1
            ≡ with_profiles
                (db.users ++ u ∷ [])
                db.fundraisers
                (db.supporters ++ supporter_row s ∷ [])
                db)
  unfolding finish
  inserted_cases s u = ground arith

  replaced_cases :
      (profile : SupporterProfileReplacement) (id : Uuid) (current : Option Text)
      (users : List UserRow)
      → ((replaced_users driver profile id current (ok users) db).1 ≡ db)
        ⊎ ((replaced_users driver profile id current (ok users) db).1
            ≡ with_profiles
                (users)
                db.fundraisers
                (replace_supporter_rows id profile db.supporters)
                db)
  unfolding finish
  replaced_cases profile id current users = ground arith

  deleted_cases :
      (now : Instant) (u : UserRow)
      → ((delete_found driver now (some u) db).1 ≡ db)
        ⊎ ((delete_found driver now (some u) db).1 ≡ deleted_supporter now u.user.id db)
  unfolding finish
  deleted_cases now u = ground arith

module _ (driver : Driver) (db : Db) (h : IsConsistent db) where
  inserted_keep :
      (now : Instant) (s : Supporter) (r : Result RepositoryError UserRow)
      → insert_user now s.user db.users ≡ r
      → IsConsistent (inserted_supporter driver s r db).1
  inserted_keep now s (err e) eq = h
  inserted_keep now s (ok u) eq = elim (inserted_cases driver db s u) [
    | inl e ↦ rw e h
    | inr e ↦ rw e (
        KeepsOwners-IsConsistent (db.users ++ u ∷ []) db.fundraisers
          (db.supporters ++ supporter_row s ∷ []) db h
          (insert_user-KeepsOwners db h now s.user u eq))
  ]

  -- Create keeps the tables consistent.
  pub create_supporter-IsConsistent :
      (now : Instant) (s : Supporter) → IsConsistent (create_supporter driver now s db).1
  unfolding create_supporter
  create_supporter-IsConsistent now s =
      elim (Bool-cases (driver.works begin && driver.works insert)) [
        | inl works ↦ rw works (inserted_keep now s (insert_user now s.user db.users) refl)
        | inr broken ↦ rw broken h
      ]

  replaced_keep :
      (profile : SupporterProfileReplacement) (id : Uuid) (current : Option Text)
      (r : Result RepositoryError (List UserRow))
      → update_email profile.email id db.users ≡ r
      → IsConsistent (replaced_users driver profile id current r db).1
  replaced_keep profile id current (err e) eq = h
  replaced_keep profile id current (ok users) eq =
      elim (replaced_cases driver db profile id current users) [
        | inl e ↦ rw e h
        | inr e ↦ rw e (
            KeepsOwners-IsConsistent (users) db.fundraisers
              (replace_supporter_rows id profile db.supporters) db h
              (update_email-KeepsOwners db h profile.email id users eq))
      ]

  replace_keep :
      (profile : SupporterProfileReplacement) (found : Option UserRow)
      → IsConsistent (replace_found driver profile found db).1
  replace_keep profile none = h
  replace_keep profile (some u) = elim (Bool-cases (driver.works update)) [
    | inl works ↦ rw works (
        replaced_keep profile u.user.id (image_of (supporter_of db.supporters u))
          (update_email profile.email u.user.id db.users) refl)
    | inr broken ↦ rw broken h
  ]

  -- The account of a supporter owns no campaign: ids are unique, and it is no fundraiser's.
  supporter_owns_nothing :
      (u : UserRow)
      → Member u db.users
      → text_eq u.user.role role_supporter ≡ true
      → (c : Campaign) → Member c db.campaigns
      → is_open c.status ≡ true
      → any (is_owner c.fundraiser_id) db.users ≡ true
      → c.fundraiser_id ≢ u.user.id
  supporter_owns_nothing u m role c mc is_open_c owned equal =
      let (v, mv, is) = any-Member (is_owner c.fundraiser_id) db.users owned in
      let same : v ≡ u =
        UniqueBy-injective user_id db.users v u h.users_unique mv m (ground arith) in
      let is_fundraiser : v.user.role ≡ role_fundraiser =
        (text_eq_iff v.user.role role_fundraiser).0 (ground arith) in
      let is_supporter : u.user.role ≡ role_supporter =
        (text_eq_iff u.user.role role_supporter).0 role in
      cc (ap (λ (w : UserRow). w.user.role) same, is_fundraiser, is_supporter)

  delete_keep :
      (now : Instant) (found : Option UserRow)
      → ((u : UserRow)
          → found ≡ some u
          → Member u db.users × (text_eq u.user.role role_supporter ≡ true))
      → IsConsistent (delete_found driver now found db).1
  delete_keep now none account = h
  delete_keep now (some u) account = elim (deleted_cases driver db now u) [
    | inl e ↦ rw e h
    | inr e ↦ rw e (
        KeepsOwners-IsConsistent (update_where (has_id u.user.id) (soft_delete now) db.users)
          db.fundraisers (cleared_supporters u.user.id db.supporters) db h
          (let (m, role) = account u refl in
            soft_delete-KeepsOwners db h now u.user.id (supporter_owns_nothing u m role)))
  ]

  module _ (lower : Text → Text) (wallet_address : Text) where
    -- ReplaceProfile keeps the tables consistent.
    pub replace_supporter-IsConsistent :
        (profile : SupporterProfileReplacement)
        → IsConsistent (replace_supporter lower driver wallet_address profile db).1
    unfolding replace_supporter
    replace_supporter-IsConsistent profile =
        elim (Bool-cases (driver.works begin && driver.works lock)) [
          | inl works ↦
              rw works
                (replace_keep profile (supporter_account lower (trim_space wallet_address) db))
          | inr broken ↦ rw broken h
        ]

    -- DeleteProfile keeps the tables consistent.
    pub delete_supporter-IsConsistent :
        (now : Instant) → IsConsistent (delete_supporter lower driver now wallet_address db).1
    unfolding delete_supporter
    delete_supporter-IsConsistent now =
        elim (Bool-cases (driver.works begin && driver.works lock)) [
          | inl works ↦ rw works (
              delete_keep now (supporter_account lower (trim_space wallet_address) db) (λ u e. (
                supporter_account-Member lower (trim_space wallet_address) db u e,
                supporter_account-role lower (trim_space wallet_address) db u e,
              )))
          | inr broken ↦ rw broken h
        ]
