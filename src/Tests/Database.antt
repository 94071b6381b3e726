-- ===== src/Tests/Database.antt =====
-- Runs of the repositories.
use be_pawfund.Prelude.{true, some, none}
use be_pawfund.Domain.{role_supporter}
use be_pawfund.Database.History.{Method, replaces_supporter}
use be_pawfund.Prelude.{◌≡◌, refl, [], ◌∷◌, ◌+◌, ◌*◌, ok, err, if◌then◌else◌, ◌⊎◌, arith}
use be_pawfund.Text.{Text, text_eq, trim_space, trim_left, trim_right, is_space, codes}
use be_pawfund.Domain.{minute, idempotency_conflict}
use be_pawfund.Database.{Db, finish, is_account, fundraiser_account, fundraiser_of}
use be_pawfund.Database.Campaigns.{
  same_campaign_creation_payload, find_campaign_by_idempotency_key, new_row, insert_campaign,
}
use be_pawfund.Database.Campaigns.Creation.{
  replay, after_insert, after_find_key, create_for, create_pending,
}
use be_pawfund.Database.Campaigns.Completion.{
  complete_deployment, complete_found, complete_locked, record_deployment,
}
use be_pawfund.Database.Campaigns.Idempotency.{create_pending-retry}
use be_pawfund.Database.Campaigns.Deployed.{
  WasDeployed, IsDeployed, complete_deployment-ok, complete_deployment-first_wins,
}
use be_pawfund.Database.{supporter_account, supporter_of}
use be_pawfund.Database.Users.{
  update_email, replaced_image, image_object_key_changed, image_still_referenced,
}
use be_pawfund.Database.Supporters.{replace_supporter, replace_supporter_rows}
use be_pawfund.Database.Images.{released_by, IsUnreferenced, released_by-IsUnreferenced}
use be_pawfund.Database.Consistency.{IsConsistent}
use be_pawfund.Database.Consistency.Creating.{create_pending-IsConsistent}
use be_pawfund.Database.Consistency.Completing.{recorded}
use be_pawfund.Database.History.{
  empty_db, creates_fundraiser, replaces_supporter, creates_campaign, after_method, Reached,
  migrated, called, Reached-IsConsistent,
}
use be_pawfund.Tests.Data.{working, wallet, noon, fundraiser, asked, row, db_of, event, address}

abbrev same : Text → Text
same s = s

abbrev registered : Db
registered = after_method same working (creates_fundraiser noon fundraiser) empty_db

abbrev with_campaign : Db
with_campaign = after_method same working (creates_campaign noon wallet asked noon) registered

with_campaign-Reached : Reached same with_campaign
with_campaign-Reached =
    called working (creates_campaign noon wallet asked noon)
      (called working (creates_fundraiser noon fundraiser) migrated)

Reached-IsConsistent_example : IsConsistent with_campaign
Reached-IsConsistent_example = Reached-IsConsistent same with_campaign with_campaign-Reached

created_once :
    create_pending same working [] noon wallet asked noon (db_of []) ≡ (ok row, db_of (row ∷ []))
unfolding create_pending create_for after_find_key after_insert replay insert_campaign new_row
    finish find_campaign_by_idempotency_key fundraiser_account fundraiser_of is_account text_eq
    trim_space trim_left trim_right is_space
created_once = refl

create_pending-retry_example :
    create_pending same working []
      (noon + minute)
      wallet
      (record asked { id = 3; title = codes "U" })
      (noon + 20 * minute)
      (db_of (row ∷ []))
    ≡ (if same_campaign_creation_payload asked (record asked { id = 3; title = codes "U" })
        then (ok row, db_of (row ∷ []))
        else (err idempotency_conflict, db_of (row ∷ [])))
create_pending-retry_example =
    create_pending-retry same wallet working working [] [] noon (noon + minute) asked
      (record asked { id = 3; title = codes "U" }) noon (noon + 20 * minute) row (db_of [])
      (db_of (row ∷ [])) refl refl (omega arith) refl (λ call. refl) created_once

with_row : IsConsistent (db_of (row ∷ []))
unfolding text_eq
with_row = record {
  users_unique = (tt, tt);
  campaigns_unique = (tt, tt);
  keys_unique = (tt, tt);
  owners_live = ((λ h. refl), tt);
  chain_data = ((λ h. absurd (ground (arith, h))), tt);
}

without_row : IsConsistent (db_of [])
without_row = record {
  users_unique = (tt, tt);
  campaigns_unique = tt;
  keys_unique = tt;
  owners_live = tt;
  chain_data = tt;
}

-- Another call has stored the campaign between the lookup and the insert of this one.
create_pending-IsConsistent_example :
    IsConsistent (create_pending same working (row ∷ []) noon wallet asked noon (db_of [])).1
create_pending-IsConsistent_example =
    create_pending-IsConsistent same working (row ∷ []) noon wallet asked noon (db_of [])
      without_row with_row

completed_once :
    complete_deployment working 2 event address (db_of (row ∷ []))
    ≡ (ok tt, recorded 2 event address (db_of (row ∷ [])))
unfolding complete_deployment complete_found complete_locked record_deployment finish text_eq
    trim_space trim_left trim_right is_space
completed_once = refl

complete_deployment-ok_example :
    WasDeployed 2 (db_of (row ∷ [])) (recorded 2 event address (db_of (row ∷ [])))
    ⊎ IsDeployed 2 event address (db_of (row ∷ [])) (recorded 2 event address (db_of (row ∷ [])))
complete_deployment-ok_example =
    complete_deployment-ok working 2 event address (db_of (row ∷ []))
      (recorded 2 event address (db_of (row ∷ []))) completed_once

complete_deployment-first_wins_example :
    complete_deployment working 2
      (record event { id = 8; tx_hash = codes "0xU" })
      (codes "0xD")
      (recorded 2 event address (db_of (row ∷ [])))
    ≡ (ok tt, recorded 2 event address (db_of (row ∷ [])))
unfolding text_eq trim_space trim_left trim_right is_space
complete_deployment-first_wins_example =
    complete_deployment-first_wins working 2 event address (db_of (row ∷ []))
      (recorded 2 event address (db_of (row ∷ []))) working
      (record event { id = 8; tx_hash = codes "0xU" }) (codes "0xD") completed_once refl refl refl

-- A supporter with an image, which a replacement clears.
abbrev supporter_db : Db
supporter_db = record empty_db {
  users =
      record {
        user = record {
          id = 5;
          role = role_supporter;
          email = codes "s@b";
          wallet_address = wallet;
          created_at = noon;
        };
        deleted_at = none;
      }
      ∷ [];
  supporters =
      record { id = 5; name = codes "S"; image_object_key = some (codes "profiles/a.png") } ∷ [];
}

abbrev clears_image : Method
clears_image = replaces_supporter wallet (record {
  name = codes "S";
  email = codes "s@b";
  image_object_key = record { is_set = true; value = none };
})

clears : released_by same working supporter_db clears_image ≡ some (codes "profiles/a.png")
unfolding replace_supporter replace_supporter_rows update_email replaced_image
    image_object_key_changed image_still_referenced finish supporter_account supporter_of is_account
    text_eq trim_space trim_left trim_right is_space
clears = refl

released_by-IsUnreferenced_example :
    IsUnreferenced (codes "profiles/a.png") (after_method same working clears_image supporter_db)
released_by-IsUnreferenced_example =
    released_by-IsUnreferenced same working supporter_db clears_image (codes "profiles/a.png")
      clears
