-- ===== src/Database/Accounts.antt =====
-- What a found account is: a live row of `users` of its role.
use be_pawfund.Prelude.{
  ◌≡◌, true, ◌&&◌, some, arith, any, Member, is_some, nat_eq_refl, find?-holds, find?-Member,
  any_of_Member,
}
use be_pawfund.Text.{Text, text_eq}
use be_pawfund.Domain.{role_fundraiser, role_supporter}
use be_pawfund.Database.{
  Db, UserRow, is_account, fundraiser_of, supporter_of, fundraiser_account, supporter_account,
}
use be_pawfund.Database.Consistency.{is_owner}

module _ (lower : Text → Text) (wallet_address : Text) (db : Db) (u : UserRow) where
  pub fundraiser_account-Member :
      fundraiser_account lower wallet_address db ≡ some u → Member u db.users
  unfolding fundraiser_account
  fundraiser_account-Member h =
      find?-Member
        (λ v.
          is_account lower role_fundraiser wallet_address v
          && is_some (fundraiser_of db.fundraisers v))
        db.users u h

  pub fundraiser_account-is_owner :
      fundraiser_account lower wallet_address db ≡ some u → is_owner u.user.id u ≡ true
  unfolding fundraiser_account is_account
  fundraiser_account-is_owner h = ground (
    arith,
    nat_eq_refl u.user.id,
    find?-holds
        (λ v.
          is_account lower role_fundraiser wallet_address v
          && is_some (fundraiser_of db.fundraisers v))
        db.users u h,
  )

  pub fundraiser_account-any_owner :
      fundraiser_account lower wallet_address db ≡ some u → any (is_owner u.user.id) db.users ≡ true
  fundraiser_account-any_owner h =
      any_of_Member (is_owner u.user.id) db.users u (fundraiser_account-Member h)
        (fundraiser_account-is_owner h)

  pub supporter_account-Member :
      supporter_account lower wallet_address db ≡ some u → Member u db.users
  unfolding supporter_account
  supporter_account-Member h =
      find?-Member
        (λ v.
          is_account lower role_supporter wallet_address v
          && is_some (supporter_of db.supporters v))
        db.users u h

  pub supporter_account-role :
      supporter_account lower wallet_address db ≡ some u → text_eq u.user.role role_supporter ≡ true
  unfolding supporter_account is_account
  supporter_account-role h = ground (
    arith,
    find?-holds
        (λ v.
          is_account lower role_supporter wallet_address v
          && is_some (supporter_of db.supporters v))
        db.users u h,
  )
