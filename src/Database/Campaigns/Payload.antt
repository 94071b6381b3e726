-- ===== src/Database/Campaigns/Payload.antt =====
-- sameCampaignCreationPayload as an equality of the compared fields.
use be_pawfund.Prelude.{◌≡◌, refl, true, arith, nat_eq_iff, nat_eq_refl}
use be_pawfund.Prelude.Int.{int_eq_iff}
use be_pawfund.Text.Laws.{text_eq_iff, text_eq_refl}
use be_pawfund.Domain.{Campaign}
use be_pawfund.Database.Campaigns.{same_campaign_creation_payload}

-- The payload of a campaign, as one value.
same_payload-fields :
    (a b : Campaign)
    → same_campaign_creation_payload a b ≡ true
    → (a.title ≡ b.title)
      × (a.short_description ≡ b.short_description)
      × (a.story ≡ b.story)
      × (a.goal_amount ≡ b.goal_amount)
      × (a.end_at ≡ b.end_at)
      × (a.image_object_key ≡ b.image_object_key)
      × (a.country ≡ b.country)
      × (a.zip_code ≡ b.zip_code)
unfolding same_campaign_creation_payload
same_payload-fields a b h = (
  (text_eq_iff a.title b.title).0 (ground arith),
  (text_eq_iff a.short_description b.short_description).0 (ground arith),
  (text_eq_iff a.story b.story).0 (ground arith),
  (int_eq_iff a.goal_amount b.goal_amount).0 (ground arith),
  (nat_eq_iff a.end_at b.end_at).0 (ground arith),
  (text_eq_iff a.image_object_key b.image_object_key).0 (ground arith),
  (text_eq_iff a.country b.country).0 (ground arith),
  (text_eq_iff a.zip_code b.zip_code).0 (ground arith),
)

pub same_payload_left :
    (a b c : Campaign)
    → same_campaign_creation_payload a b ≡ true
    → same_campaign_creation_payload a c ≡ same_campaign_creation_payload b c
unfolding same_campaign_creation_payload
same_payload_left a b c h =
    let (e1, e2, e3, e4, e5, e6, e7, e8) = same_payload-fields a b h in
    rw (e1, e2, e3, e4, e5, e6, e7, e8) refl

pub same_payload_refl : (a : Campaign) → same_campaign_creation_payload a a ≡ true
unfolding same_campaign_creation_payload
same_payload_refl a =
    rw
      (
        text_eq_refl a.title,
        text_eq_refl a.short_description,
        text_eq_refl a.story,
        (int_eq_iff a.goal_amount a.goal_amount).1 refl,
        nat_eq_refl a.end_at,
        text_eq_refl a.image_object_key,
        text_eq_refl a.country,
        text_eq_refl a.zip_code,
      )
      refl
