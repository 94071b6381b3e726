-- ===== src/Database/Consistency/Creating.antt =====
-- CreatePending keeps the tables consistent.
use be_pawfund.Prelude.{
  ◌≡◌, ◌≢◌, refl, ap, ◌∙◌, true, false, ◌&&◌, Option, none, some, List, [], ◌∷◌, arith, All, any,
  Bool-cases, Option-cases, inl, inr, ◌⊎◌, All-append, All-weaken, UniqueBy-append_one,
  any-eq-false, ltb,
}
use be_pawfund.Text.{Text, trim_space}
use be_pawfund.Text.Laws.{text_eq_iff}
use be_pawfund.Domain.{Uuid, Instant, Campaign}
use be_pawfund.Database.{
  Db, Driver, UserRow, finish, fundraiser_account, begin, lock, find_key, insert,
}
use be_pawfund.Database.Accounts.{fundraiser_account-any_owner}
use be_pawfund.Database.Campaigns.{
  is_on_chain, has_key, has_campaign_id, Insertion, rejected, nothing, stored, new_row,
  insert_campaign, returned, append_campaigns, find_campaign_by_idempotency_key,
}
use be_pawfund.Database.Campaigns.Creation.{
  replay, after_insert, after_find_key, create_for, create_pending,
}
use be_pawfund.Database.Consistency.{
  campaign_id, campaign_key, is_owner, OwnerLive, HasChainData, IsConsistent,
}

-- A commit leaves the tables of before or after.
pub finish_cases :
    {A : Type 0} (driver : Driver) (answer : A) (before after : Db)
    → ((finish driver answer before after).1 ≡ before)
      ⊎ ((finish driver answer before after).1 ≡ after)
unfolding finish
finish_cases driver answer before after = ground arith

-- What the insert has checked of the row that it stores.
pub record Fresh (c row : Campaign) (now : Instant) (campaigns : List Campaign) : Type 0 where
  pub row_is : row ≡ new_row now c
  pub key_free : any (has_key c.fundraiser_id c.idempotency_key) campaigns ≡ false
  pub id_free : any (has_campaign_id c.id) campaigns ≡ false
  pub off_chain : is_on_chain c.status ≡ false

pub insert_campaign-stored :
    (now : Instant) (c : Campaign) (campaigns : List Campaign) (row : Campaign)
    → insert_campaign now c campaigns ≡ stored row
    → Fresh c row now campaigns
unfolding insert_campaign
insert_campaign-stored now c campaigns row h = record {
  row_is = ground arith;
  key_free = ground arith;
  id_free = ground arith;
  off_chain = ground arith;
}

-- What CreatePending does to the tables: nothing, the commits of the others, or a fresh row behind
-- them for the owner that it has found.
pub record Inserted (driver : Driver) (others : List Campaign) (now : Instant) (c : Campaign)
    (db db' : Db) : Type 0 where
  pub row : Campaign
  pub fresh : Fresh c row now (append_campaigns others db).campaigns
  pub result : db' ≡ append_campaigns (row ∷ []) (append_campaigns others db)

Effect : Driver → List Campaign → Instant → Campaign → Db → Db → Type 0
Effect driver others now c db db' =
    (db' ≡ db) ⊎ ((db' ≡ append_campaigns others db) ⊎ Inserted driver others now c db db')

replay_effect :
    (driver : Driver) (found : Option Campaign) (c : Campaign) (db : Db)
    → (replay driver found c db).1 ≡ db
unfolding replay
replay_effect driver found c db = ground arith

after_insert-Effect :
    (driver : Driver) (others : List Campaign) (now : Instant) (c : Campaign) (i : Insertion)
    (db : Db)
    → insert_campaign now c (append_campaigns others db).campaigns ≡ i
    → Effect driver others now c db (after_insert driver c i (append_campaigns others db)).1
unfolding Effect after_insert
after_insert-Effect driver others now c rejected db h = inr (inl refl)
after_insert-Effect driver others now c nothing db h = inr (
    inl (
      ground (
        arith,
        replay_effect driver
            (find_campaign_by_idempotency_key c.fundraiser_id c.idempotency_key
              (append_campaigns others db))
            c (append_campaigns others db),
      )))
after_insert-Effect driver others now c (stored row) db h =
    elim (finish_cases driver (returned c row) (append_campaigns others db)
      (append_campaigns (row ∷ []) (append_campaigns others db))) [
        | inl e ↦ inr (inl e)
        | inr e ↦ inr (
            inr (record {
              row = row;
              fresh = insert_campaign-stored now c (append_campaigns others db).campaigns row h;
              result = e;
            }))
      ]

after_find_key-Effect :
    (driver : Driver) (others : List Campaign) (now : Instant) (c : Campaign)
    (minimum_end_at : Instant) (found : Option Campaign) (db : Db)
    → Effect driver others now c db (after_find_key driver others now c minimum_end_at found db).1
unfolding Effect after_find_key
after_find_key-Effect driver others now c minimum_end_at (some existing) db =
    inl (replay_effect driver (some existing) c db)
after_find_key-Effect driver others now c minimum_end_at none db =
    elim (Bool-cases (ltb c.end_at minimum_end_at)) [
      | inl soon ↦ rw soon (inl refl)
      | inr later ↦ rw later (elim (Bool-cases (driver.works insert)) [
        | inl works ↦ rw works (
            after_insert-Effect driver others now c
              (insert_campaign now c (append_campaigns others db).campaigns) db refl)
        | inr broken ↦ rw broken (inr (inl refl))
      ])
    ]

-- CreatePending for an account that was found: the row is stored under its id.
create_for-Effect :
    (driver : Driver) (others : List Campaign) (now : Instant) (c : Campaign)
    (minimum_end_at : Instant) (u : UserRow) (db : Db)
    → Effect driver others now
        (record c { fundraiser_id = u.user.id })
        db
        (create_for driver others now c minimum_end_at (some u) db).1
unfolding create_for
create_for-Effect driver others now c minimum_end_at u db =
    elim (Bool-cases (driver.works find_key)) [
      | inl works ↦ rw works (
          after_find_key-Effect driver others now (record c { fundraiser_id = u.user.id })
            minimum_end_at (find_campaign_by_idempotency_key u.user.id c.idempotency_key db) db)
      | inr broken ↦ rw broken (unfold Effect in inl refl)
    ]

-- A fresh row keeps the tables consistent, if its owner is a live account.
module _ (now : Instant) (c row : Campaign) (db : Db) where
  unique_id : Fresh c row now db.campaigns → All (λ y. campaign_id y ≢ campaign_id row) db.campaigns
  unfolding new_row
  unique_id f =
      All-weaken (λ y. has_campaign_id c.id y ≡ false) (λ y. campaign_id y ≢ campaign_id row)
        db.campaigns
        (λ y free e. let e' : y.id ≡ c.id = e ∙ ap campaign_id f.row_is in ground arith)
        (any-eq-false (has_campaign_id c.id) db.campaigns f.id_free)

  unique_key :
      Fresh c row now db.campaigns → All (λ y. campaign_key y ≢ campaign_key row) db.campaigns
  unfolding new_row
  unique_key f =
      All-weaken (λ y. has_key c.fundraiser_id c.idempotency_key y ≡ false)
        (λ y. campaign_key y ≢ campaign_key row) db.campaigns
        (λ y free e.
          let owner : y.fundraiser_id ≡ c.fundraiser_id =
            ap (λ (k : Uuid × Text). k.0) (e ∙ ap campaign_key f.row_is) in
          let key : y.idempotency_key ≡ c.idempotency_key =
            ap (λ (k : Uuid × Text). k.1) (e ∙ ap campaign_key f.row_is) in
          ground (arith, text_eq_iff y.idempotency_key c.idempotency_key))
        (any-eq-false (has_key c.fundraiser_id c.idempotency_key) db.campaigns f.key_free)

  pub Fresh-IsConsistent :
      IsConsistent db
      → Fresh c row now db.campaigns
      → any (is_owner c.fundraiser_id) db.users ≡ true
      → IsConsistent (append_campaigns (row ∷ []) db)
  unfolding new_row
  Fresh-IsConsistent h f owner = record {
    users_unique = h.users_unique;
    campaigns_unique =
        UniqueBy-append_one campaign_id db.campaigns row h.campaigns_unique (unique_id f);
    keys_unique = UniqueBy-append_one campaign_key db.campaigns row h.keys_unique (unique_key f);
    owners_live =
        All-append (OwnerLive db.users) db.campaigns (row ∷ []) h.owners_live
          ((λ is_open. ground (arith, f.row_is)), tt);
    chain_data =
        All-append HasChainData db.campaigns (row ∷ []) h.chain_data
          ((λ live. ground (arith, f.row_is, f.off_chain)), tt);
  }

Effect-IsConsistent :
    (driver : Driver) (others : List Campaign) (now : Instant) (c : Campaign) (db db' : Db)
    → Effect driver others now c db db'
    → IsConsistent db
    → IsConsistent (append_campaigns others db)
    → any (is_owner c.fundraiser_id) db.users ≡ true
    → IsConsistent db'
unfolding Effect
Effect-IsConsistent driver others now c db db' (inl e) h k owner = rw e h
Effect-IsConsistent driver others now c db db' (inr (inl e)) h k owner = rw e k
Effect-IsConsistent driver others now c db db' (inr (inr i)) h k owner =
    rw (i.result) (Fresh-IsConsistent now c i.row (append_campaigns others db) k i.fresh owner)

module _ (lower : Text → Text) (driver : Driver) (others : List Campaign) (now : Instant) where
  -- Whatever driver calls fail and whatever other campaigns are committed between its lookup and
  -- its insert, CreatePending keeps the tables consistent, if they are so with and without these
  -- campaigns.
  pub create_pending-IsConsistent :
      (wallet_address : Text) (campaign : Campaign) (minimum_end_at : Instant) (db : Db)
      → IsConsistent db
      → IsConsistent (append_campaigns others db)
      → IsConsistent
          (create_pending lower driver others now wallet_address campaign minimum_end_at db).1
  unfolding create_pending
  create_pending-IsConsistent wallet_address campaign minimum_end_at db h k =
      elim (Bool-cases (driver.works begin && driver.works lock)) [
        | inr broken ↦ rw broken h
        | inl works ↦
            rw works
              (elim (Option-cases (fundraiser_account lower (trim_space wallet_address) db)) [
                | inl missing ↦ rw missing h
                | inr (u, found) ↦ rw found (
                    Effect-IsConsistent driver others now
                      (record campaign { fundraiser_id = u.user.id }) db
                      (create_for driver others now campaign minimum_end_at (some u) db).1
                      (create_for-Effect driver others now campaign minimum_end_at u db) h k
                      (fundraiser_account-any_owner lower (trim_space wallet_address) db u found))
              ])
      ]
