-- ===== src/Database/Campaigns/Idempotency.antt =====
-- CreatePending and its idempotency key: a retry of a call that was answered with success.
use be_pawfund.Prelude.{
  ◌≡◌, ◌%◌, refl, sym, ap, ◌∙◌, true, Option, none, some, List, [], ◌∷◌, arith, ok, err,
  if◌then◌else◌, Option-cases, inl, inr, nat_eq_refl, find?-append_none, find?-none_of_any,
}
use be_pawfund.Text.{Text, trim_space}
use be_pawfund.Text.Laws.{text_eq_refl}
use be_pawfund.Domain.{Uuid, Instant, Campaign, idempotency_conflict, microsecond}
use be_pawfund.Database.{
  Db, Driver, UserRow, finish, fundraiser_account, fundraiser_of, Call, begin, lock, find_key,
  commit,
}
use be_pawfund.Database.Campaigns.{
  same_campaign_creation_payload, stored_instant, has_key, Insertion, rejected, nothing, stored,
  new_row, insert_campaign, returned, append_campaigns, find_campaign_by_idempotency_key,
}
use be_pawfund.Database.Campaigns.Creation.{
  replay, after_insert, after_find_key, create_for, create_pending,
}
use be_pawfund.Database.Consistency.Creating.{insert_campaign-stored}
use be_pawfund.Database.Campaigns.Payload.{same_payload_left, same_payload_refl}

-- What a success leaves: the answered campaign is the row with the key, it has the payload that was
-- asked for, and the accounts are as they were.
pub record Settled (id : Uuid) (asked answered : Campaign) (db db' : Db) : Type 0 where
  pub row_found : find_campaign_by_idempotency_key id asked.idempotency_key db' ≡ some answered
  pub same_payload : same_campaign_creation_payload answered asked ≡ true
  pub same_users : db'.users ≡ db.users
  pub same_fundraisers : db'.fundraisers ≡ db.fundraisers

replay-Settled :
    (driver : Driver) (found : Option Campaign) (asked answered : Campaign) (db db' : Db)
    → find_campaign_by_idempotency_key asked.fundraiser_id asked.idempotency_key db ≡ found
    → replay driver found asked db ≡ (ok answered, db')
    → Settled asked.fundraiser_id asked answered db db'
unfolding replay finish
replay-Settled driver none asked answered db db' f h = ground arith
replay-Settled driver (some existing) asked answered db db' f h =
    let is_existing : existing ≡ answered = ground arith in
    let same_db : db ≡ db' = ground arith in
    record {
      row_found = rw (← same_db) (f ∙ ap some is_existing);
      same_payload = rw (← is_existing) (ground arith);
      same_users = sym (ap (λ (d : Db). d.users) same_db);
      same_fundraisers = sym (ap (λ (d : Db). d.fundraisers) same_db);
    }

-- A stored row is found under its key.
stored_found :
    (now : Instant) (c : Campaign) (row : Campaign) (db : Db)
    → insert_campaign now c db.campaigns ≡ stored row
    → find_campaign_by_idempotency_key c.fundraiser_id c.idempotency_key
        (append_campaigns (row ∷ []) db)
      ≡ some row
unfolding find_campaign_by_idempotency_key new_row
stored_found now c row db h =
    let f = insert_campaign-stored now c db.campaigns row h in
    let keyed : has_key c.fundraiser_id c.idempotency_key row ≡ true =
      rw (f.row_is, nat_eq_refl c.fundraiser_id, text_eq_refl c.idempotency_key) refl in
    find?-append_none (has_key c.fundraiser_id c.idempotency_key) db.campaigns (row ∷ [])
      (find?-none_of_any (has_key c.fundraiser_id c.idempotency_key) db.campaigns f.key_free)
    ∙ rw keyed refl

-- RETURNING gives the stored row to a caller that set no event and no contract, and an end of whole
-- microseconds.
returned_is_row :
    (now : Instant) (c row : Campaign)
    → c.event_id ≡ none
    → c.contract_address ≡ none
    → c.end_at % microsecond ≡ 0
    → row ≡ new_row now c
    → returned c row ≡ row
unfolding new_row
returned_is_row now c row e1 e2 e3 r =
    let same : stored_instant c.end_at ≡ c.end_at = omega (arith, e3) in rw (r, e1, e2, same) refl

after_insert-Settled :
    (driver : Driver) (now : Instant) (i : Insertion) (asked answered : Campaign) (db db' : Db)
    → asked.event_id ≡ none
    → asked.contract_address ≡ none
    → asked.end_at % microsecond ≡ 0
    → insert_campaign now asked db.campaigns ≡ i
    → after_insert driver asked i db ≡ (ok answered, db')
    → Settled asked.fundraiser_id asked answered db db'
unfolding after_insert finish
after_insert-Settled driver now rejected asked answered db db' e1 e2 e3 f h = ground arith
after_insert-Settled driver now nothing asked answered db db' e1 e2 e3 f h =
    replay-Settled driver
      (find_campaign_by_idempotency_key asked.fundraiser_id asked.idempotency_key db) asked answered
      db db' refl (ground arith)
after_insert-Settled driver now (stored row) asked answered db db' e1 e2 e3 f h =
    let fresh = insert_campaign-stored now asked db.campaigns row f in
    let is_row : row ≡ answered =
      sym (returned_is_row now asked row e1 e2 e3 fresh.row_is) ∙ ground arith in
    let same_db : append_campaigns (row ∷ []) db ≡ db' = ground arith in
    record {
      row_found = rw (← same_db) (stored_found now asked row db f ∙ ap some is_row);
      same_payload =
          let whole : stored_instant asked.end_at ≡ asked.end_at = omega (arith, e3) in
          rw (← is_row, fresh.row_is)
            (unfold new_row in
              unfold same_campaign_creation_payload in rw whole (same_payload_refl asked));
      same_users = sym (ap (λ (d : Db). d.users) same_db);
      same_fundraisers = sym (ap (λ (d : Db). d.fundraisers) same_db);
    }

after_find_key-Settled :
    (driver : Driver) (others : List Campaign) (now : Instant) (minimum_end_at : Instant)
    (found : Option Campaign) (asked answered : Campaign) (db db' : Db)
    → asked.event_id ≡ none
    → asked.contract_address ≡ none
    → asked.end_at % microsecond ≡ 0
    → find_campaign_by_idempotency_key asked.fundraiser_id asked.idempotency_key db ≡ found
    → after_find_key driver others now asked minimum_end_at found db ≡ (ok answered, db')
    → Settled asked.fundraiser_id asked answered db db'
unfolding after_find_key
after_find_key-Settled driver others now minimum (some existing) asked answered db db' e1 e2 e3 f
      h =
    replay-Settled driver (some existing) asked answered db db' f h
after_find_key-Settled driver others now minimum none asked answered db db' e1 e2 e3 f h =
    let settled =
      after_insert-Settled driver now
        (insert_campaign now asked (append_campaigns others db).campaigns) asked answered
        (append_campaigns others db) db' e1 e2 e3 refl (ground arith) in
    record {
      row_found = settled.row_found;
      same_payload = settled.same_payload;
      same_users = settled.same_users;
      same_fundraisers = settled.same_fundraisers;
    }

module _ (lower : Text → Text) (wallet_address : Text) where
  account : Db → Option UserRow
  account db = fundraiser_account lower (trim_space wallet_address) db

  -- A success belongs to an account.
  record Answered (asked answered : Campaign) (db db' : Db) : Type 0 where
    owner : UserRow
    found : account db ≡ some owner
    settled : Settled owner.user.id asked answered db db'

  create_pending-Answered :
      (driver : Driver) (others : List Campaign) (now : Instant) (asked : Campaign)
      (minimum_end_at : Instant) (answered : Campaign) (db db' : Db)
      → asked.event_id ≡ none
      → asked.contract_address ≡ none
      → asked.end_at % microsecond ≡ 0
      → create_pending lower driver others now wallet_address asked minimum_end_at db
        ≡ (ok answered, db')
      → Answered asked answered db db'
  unfolding create_pending create_for account same_campaign_creation_payload
  create_pending-Answered driver others now asked minimum answered db db' e1 e2 e3 h =
      elim (Option-cases (account db)) [
        | inl missing ↦
            let missing' : fundraiser_account lower (trim_space wallet_address) db ≡ none =
              missing in
            ground arith
        | inr (u, found) ↦
            let found' : fundraiser_account lower (trim_space wallet_address) db ≡ some u = found in
            let owned = record asked { fundraiser_id = u.user.id } in
            let settled =
              after_find_key-Settled driver others now minimum
                (find_campaign_by_idempotency_key u.user.id asked.idempotency_key db) owned answered
                db db' e1 e2 e3 refl (ground arith) in
            record {
              owner = u;
              found = found;
              settled = record {
                row_found = settled.row_found;
                same_payload = settled.same_payload;
                same_users = settled.same_users;
                same_fundraisers = settled.same_fundraisers;
              };
            }
      ]

  -- After a success for a campaign without event and contract address, whose end has whole
  -- microseconds, a call with the same wallet and the same key on a connection whose calls all work changes nothing. It is answered with the same
  -- campaign if it asks for the same payload, whatever its id and its minimum end, and with the
  -- conflict error otherwise.
  pub create_pending-retry :
      (driver retry_driver : Driver) (others retry_others : List Campaign) (now retry_now : Instant)
      (asked second : Campaign) (minimum_end_at retry_minimum : Instant) (answered : Campaign)
      (db db' : Db)
      → asked.event_id ≡ none
      → asked.contract_address ≡ none
      → asked.end_at % microsecond ≡ 0
      → second.idempotency_key ≡ asked.idempotency_key
      → ((call : Call) → retry_driver.works call ≡ true)
      → create_pending lower driver others now wallet_address asked minimum_end_at db
        ≡ (ok answered, db')
      → create_pending lower retry_driver retry_others retry_now wallet_address second retry_minimum
          db'
        ≡ (if same_campaign_creation_payload asked second
            then (ok answered, db')
            else (err idempotency_conflict, db'))
  unfolding create_pending create_for after_find_key replay finish account fundraiser_account
      fundraiser_of same_campaign_creation_payload
  create_pending-retry driver retry_driver others retry_others now retry_now asked second
        minimum_end_at retry_minimum answered db db' e1 e2 e3 key works h =
      let a =
        create_pending-Answered driver others now asked minimum_end_at answered db db' e1 e2 e3 h in
      let same_account : account db' ≡ some a.owner =
        rw (a.settled.same_users, a.settled.same_fundraisers) (a.found) in
      let row_found : find_campaign_by_idempotency_key a.owner.user.id second.idempotency_key db'
          ≡ some answered =
        rw key (a.settled.row_found) in
      rw
        (
          works begin,
          works lock,
          same_account,
          works find_key,
          row_found,
          ← same_payload_left answered asked second (a.settled.same_payload),
          works commit,
        )
        refl
