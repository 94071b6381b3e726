-- ===== src/Database/Listings/Shown.antt =====
-- What the condition of the public list means, row by row.
use be_pawfund.Prelude.{
  ◌≡◌, ◌⊎◌, ◌↔◌, inl, inr, refl, sym, ap, ◌∙◌, Bool, true, not, ◌&&◌, Option, none, some, List, [],
  ◌∷◌, ◌++◌, arith, Bool-cases, Member, find?, find?-holds, find?-Member, is_some, nat_eq,
  nat_eq_iff, if◌then◌else◌,
}
use be_pawfund.Text.{Text, codes, text_eq}
use be_pawfund.Text.Laws.{text_eq_sound, text_eq_refl}
use be_pawfund.Domain.{
  Instant, Campaign, CampaignStatus, pending, active, completed, cancelled, failed, role_fundraiser,
}
use be_pawfund.Database.{Db, UserRow, FundraiserRow, is_live, fundraiser_of}
use be_pawfund.Database.Campaigns.{is_on_chain}
use be_pawfund.Http.Sorting.{CampaignListOptions, status_name}
use be_pawfund.Database.Listings.{Sql, owner_of, is_public, matches_search, has_status, is_listed}

-- A campaign that anyone may see: on the chain with a contract address, of a fundraiser
-- who is not deleted and has a profile.
pub record IsVisible (db : Db) (c : Campaign) : Type 0 where
  pub on_chain : (c.status ≡ active) ⊎ ((c.status ≡ completed) ⊎ (c.status ≡ cancelled))
  pub address : Text
  pub addressed : c.contract_address ≡ some address
  pub owner : UserRow
  pub owner_in_table : Member owner db.users
  pub is_owner : owner.user.id ≡ c.fundraiser_id
  pub is_fundraiser : owner.user.role ≡ role_fundraiser
  pub not_deleted : owner.deleted_at ≡ none
  pub profile : FundraiserRow
  pub profile_in_table : Member profile db.fundraisers
  pub is_profile : profile.id ≡ c.fundraiser_id

-- Nothing is searched for, or the title or the short description has the searched text; and the status
-- is the asked one.
abbrev pub IsSearched : Sql → Text → Campaign → Type 0
IsSearched sql [] c = Unit
IsSearched sql search c =
    let pattern = codes "%" ++ search ++ codes "%" in
    (sql.ilike c.title pattern ≡ true) ⊎ (sql.ilike c.short_description pattern ≡ true)

abbrev pub HasStatus : Option CampaignStatus → Campaign → Type 0
HasStatus none c = Unit
HasStatus (some status) c = c.status ≡ status

pub record IsShown (sql : Sql) (options : CampaignListOptions) (db : Db) (c : Campaign)
    : Type 0 where
  pub visible : IsVisible db c
  pub searched : IsSearched sql options.search c
  pub asked : HasStatus options.status c

deployed_cases :
    (s : CampaignStatus) → is_on_chain s ≡ true → (s ≡ active) ⊎ ((s ≡ completed) ⊎ (s ≡ cancelled))
deployed_cases pending h = ground arith
deployed_cases active h = inl refl
deployed_cases completed h = inr (inl refl)
deployed_cases cancelled h = inr (inr refl)
deployed_cases failed h = ground arith

given : {A : Type 0} (o : Option A) → is_some o ≡ true → (a : A) × (o ≡ some a)
given none h = ground arith
given (some a) h = (a, refl)

is_live-none : (o : Option Instant) → not (is_some o) ≡ true → o ≡ none
is_live-none none h = refl
is_live-none (some t) h = ground arith

public-IsVisible : (db : Db) (c : Campaign) → is_public db c ≡ true → IsVisible db c
unfolding owner_of fundraiser_of
public-IsVisible db c h =
    let (u, found) = given (owner_of db c) (ground (arith, h)) in
    let (address, addressed) = given c.contract_address (ground (arith, h)) in
    let test : UserRow → Bool = λ u.
      nat_eq u.user.id c.fundraiser_id
      && text_eq u.user.role role_fundraiser
      && is_live u
      && is_some (fundraiser_of db.fundraisers u) in
    let holds : test u ≡ true = find?-holds test db.users u found in
    let (f, profile) = given (fundraiser_of db.fundraisers u) (ground (arith, holds)) in
    let same : (u.user.id ≡ c.fundraiser_id) =
      (nat_eq_iff u.user.id c.fundraiser_id).0 (ground (arith, holds)) in
    let keyed : FundraiserRow → Bool = λ f. nat_eq f.id u.user.id in
    record {
      on_chain = deployed_cases c.status (ground (arith, h));
      address = address;
      addressed = addressed;
      owner = u;
      owner_in_table = find?-Member test db.users u found;
      is_owner = same;
      is_fundraiser = text_eq_sound u.user.role role_fundraiser (ground (arith, holds));
      not_deleted = is_live-none u.deleted_at (ground (arith, holds));
      profile = f;
      profile_in_table = find?-Member keyed db.fundraisers f profile;
      is_profile =
          (nat_eq_iff f.id u.user.id).0 (find?-holds keyed db.fundraisers f profile) ∙ same;
    }

matches_search-IsSearched :
    (sql : Sql) (search : Text) (c : Campaign)
    → matches_search sql search c ≡ true
    → IsSearched sql search c
matches_search-IsSearched sql [] c h = tt
matches_search-IsSearched sql (x ∷ search) c h =
    let pattern = codes "%" ++ (x ∷ search) ++ codes "%" in
    elim (Bool-cases (sql.ilike c.title pattern)) [
      | inl e ↦ inl e
      | inr e ↦ inr (ground (arith, h, e))
    ]

named : Text → CampaignStatus
named name =
    if text_eq name (codes "pending")
    then pending
    else if text_eq name (codes "active")
    then active
    else if text_eq name (codes "completed")
    then completed
    else if text_eq name (codes "cancelled")
    then cancelled
    else failed

named-status_name : (s : CampaignStatus) → named (status_name s) ≡ s
unfolding named text_eq
named-status_name pending = refl
named-status_name active = refl
named-status_name completed = refl
named-status_name cancelled = refl
named-status_name failed = refl

status_name-injective :
    (a b : CampaignStatus) → text_eq (status_name a) (status_name b) ≡ true → a ≡ b
status_name-injective a b h =
    sym (named-status_name a)
    ∙ ap named (text_eq_sound (status_name a) (status_name b) h)
    ∙ named-status_name b

asked-HasStatus :
    (status : Option CampaignStatus) (c : Campaign)
    → has_status status c ≡ true
    → HasStatus status c
asked-HasStatus none c h = tt
asked-HasStatus (some status) c h = status_name-injective c.status status h

-- And the other way round.
find?-of_Member :
    {A : Type 0} (p : A → Bool) (xs : List A) (a : A)
    → Member a xs
    → p a ≡ true
    → is_some (find? p xs) ≡ true
find?-of_Member p [] a m h = elim m [ ]
find?-of_Member p (x ∷ xs) a (inl e) h = let px : p x ≡ true = rw (← e) h in rw px refl
find?-of_Member p (x ∷ xs) a (inr m) h = ground (arith, find?-of_Member p xs a m h)

visible-is_public : (db : Db) (c : Campaign) → IsVisible db c → is_public db c ≡ true
unfolding owner_of fundraiser_of
visible-is_public db c v =
    let owned : is_some (owner_of db c) ≡ true =
      find?-of_Member
        (λ u.
          nat_eq u.user.id c.fundraiser_id
          && text_eq u.user.role role_fundraiser
          && is_live u
          && is_some (fundraiser_of db.fundraisers u))
        db.users v.owner v.owner_in_table
        (rw
          (
            (nat_eq_iff v.owner.user.id c.fundraiser_id).1 v.is_owner,
            v.is_fundraiser,
            text_eq_refl role_fundraiser,
            v.not_deleted,
            find?-of_Member (λ f. nat_eq f.id v.owner.user.id) db.fundraisers v.profile
                v.profile_in_table
                ((nat_eq_iff v.profile.id v.owner.user.id).1 (v.is_profile ∙ sym v.is_owner)),
          )
          refl) in
    let chained : is_on_chain c.status ≡ true = elim v.on_chain [
      | inl e ↦ rw e refl
      | inr (inl e) ↦ rw e refl
      | inr (inr e) ↦ rw e refl
    ] in
    rw (owned, chained, v.addressed) refl

IsSearched-matches :
    (sql : Sql) (search : Text) (c : Campaign)
    → IsSearched sql search c
    → matches_search sql search c ≡ true
IsSearched-matches sql [] c h = refl
IsSearched-matches sql (x ∷ search) c (inl e) = rw e refl
IsSearched-matches sql (x ∷ search) c (inr e) = rw e (ground arith)

HasStatus-has_status :
    (status : Option CampaignStatus) (c : Campaign)
    → HasStatus status c
    → has_status status c ≡ true
HasStatus-has_status none c h = refl
HasStatus-has_status (some status) c h = rw h (text_eq_refl (status_name status))

-- The condition of the statement
pub is_listed_iff :
    (sql : Sql) (options : CampaignListOptions) (db : Db) (c : Campaign)
    → (is_listed sql db options c ≡ true) ↔ IsShown sql options db c
is_listed_iff sql options db c = (
  λ h. record {
    visible = public-IsVisible db c (ground (arith, h));
    searched = matches_search-IsSearched sql options.search c (ground (arith, h));
    asked = asked-HasStatus options.status c (ground (arith, h));
  },
  λ s.
      rw
        (
          visible-is_public db c s.visible,
          IsSearched-matches sql options.search c s.searched,
          HasStatus-has_status options.status c s.asked,
        )
        refl,
)
