-- ===== src/Database/Consistency/Profiles.antt =====
-- Registration, replacement and deletion of profiles keep the tables consistent.
pub mod Supporters
pub mod Fundraisers
use be_pawfund.Prelude.{
  ◌≡◌, ◌≢◌, refl, sym, ap, ◌∙◌, Bool, true, false, not, ◌&&◌, Option, none, some, List, [], ◌∷◌,
  ◌++◌, arith, Result, ok, err, All, Member, any, is_some, update_where, UniqueBy, if◌then◌else◌,
  Bool-cases, Option-cases, inl, inr, nat_eq, nat_eq_iff, nat_eq_refl, All-weaken, All-tabulate,
  All-Member, UniqueBy-update_where, UniqueBy-injective, UniqueBy-append_one, any-eq-false,
  any_append_left, any-update_where, any-Member, any_of_Member, Member-update_where_ne,
}
use be_pawfund.Text.{Text, text_eq, trim_space}
use be_pawfund.Text.Laws.{text_eq_iff}
use be_pawfund.Domain.{
  Uuid, Instant, User, Campaign, Supporter, Fundraiser, SupporterProfileReplacement,
  FundraiserProfileReplacement, RepositoryError, role_fundraiser, role_supporter,
}
use be_pawfund.Database.{Db, Driver, UserRow, FundraiserRow, SupporterRow, has_id, is_live, finish}
use be_pawfund.Database.Users.{insert_user, set_email, update_email, soft_delete, holds_email}
use be_pawfund.Database.Fundraisers.{is_open}
use be_pawfund.Database.Consistency.{user_id, is_owner, OwnerLive, HasChainData, IsConsistent}

-- The users change so that every live owner stays; the campaigns do not change.
pub record KeepsOwners (users users' : List UserRow) (campaigns : List Campaign) : Type 0 where
  pub unique : UniqueBy user_id users'
  pub owners : All (OwnerLive users') campaigns

abbrev pub with_profiles : List UserRow → List FundraiserRow → List SupporterRow → Db → Db
with_profiles users fundraisers supporters db = record db {
  users = users;
  fundraisers = fundraisers;
  supporters = supporters;
}

pub KeepsOwners-IsConsistent :
    (users : List UserRow) (fundraisers : List FundraiserRow) (supporters : List SupporterRow)
    (db : Db)
    → IsConsistent db
    → KeepsOwners db.users users db.campaigns
    → IsConsistent (with_profiles users fundraisers supporters db)
KeepsOwners-IsConsistent users fundraisers supporters db h k = record {
  users_unique = k.unique;
  campaigns_unique = h.campaigns_unique;
  keys_unique = h.keys_unique;
  owners_live = k.owners;
  chain_data = h.chain_data;
}

module _ (db : Db) (h : IsConsistent db) where
  -- A new user.
  pub insert_user-KeepsOwners :
      (now : Instant) (user : User) (u : UserRow)
      → insert_user now user db.users ≡ ok u
      → KeepsOwners db.users (db.users ++ u ∷ []) db.campaigns
  unfolding insert_user
  insert_user-KeepsOwners now user u e =
      let free : any (has_id user.id) db.users ≡ false = ground arith in
      let same : u.user.id ≡ user.id = ground arith in
      record {
        unique = UniqueBy-append_one user_id db.users u h.users_unique (
            All-weaken (λ v. has_id user.id v ≡ false) (λ v. user_id v ≢ user_id u) db.users
              (λ v other eq. ground (arith, same)) (any-eq-false (has_id user.id) db.users free));
        owners =
            All-weaken (OwnerLive db.users) (OwnerLive (db.users ++ u ∷ [])) db.campaigns
              (λ c owner is_open.
                any_append_left (is_owner c.fundraiser_id) db.users (u ∷ []) (owner is_open))
              h.owners_live;
      }

  -- A new email.
  pub update_email-KeepsOwners :
      (email : Text) (id : Uuid) (users : List UserRow)
      → update_email email id db.users ≡ ok users
      → KeepsOwners db.users users db.campaigns
  unfolding update_email
  update_email-KeepsOwners email id users e =
      let same : users ≡ update_where (has_id id) (set_email email) db.users = ground arith in
      rw same (record {
        unique =
            UniqueBy-update_where user_id (has_id id) (set_email email) db.users (λ v. refl)
              h.users_unique;
        owners =
            All-weaken (OwnerLive db.users)
              (OwnerLive (update_where (has_id id) (set_email email) db.users)) db.campaigns
              (λ c owner is_open.
                any-update_where (is_owner c.fundraiser_id) (has_id id) (set_email email) db.users
                  (λ v. refl)
                ∙ owner is_open)
              h.owners_live;
      })

  -- A soft deletion of a user who owns no pending or active campaign.
  pub soft_delete-KeepsOwners :
      (now : Instant) (id : Uuid)
      → ((c : Campaign)
          → Member c db.campaigns
          → is_open c.status ≡ true
          → any (is_owner c.fundraiser_id) db.users ≡ true
          → c.fundraiser_id ≢ id)
      → KeepsOwners db.users (update_where (has_id id) (soft_delete now) db.users) db.campaigns
  soft_delete-KeepsOwners now id other = record {
    unique =
        UniqueBy-update_where user_id (has_id id) (soft_delete now) db.users (λ v. refl)
          h.users_unique;
    owners =
        All-tabulate (OwnerLive (update_where (has_id id) (soft_delete now) db.users)) db.campaigns
          (λ c m is_open.
            let owned : any (is_owner c.fundraiser_id) db.users ≡ true =
              All-Member (OwnerLive db.users) db.campaigns c h.owners_live m is_open in
            let (v, mv, is) = any-Member (is_owner c.fundraiser_id) db.users owned in
            let ne : c.fundraiser_id ≢ id = other c m is_open owned in
            any_of_Member (is_owner c.fundraiser_id)
              (update_where (has_id id) (soft_delete now) db.users) v
              (Member-update_where_ne (has_id id) (soft_delete now) db.users v mv (ground arith))
              is);
  }
