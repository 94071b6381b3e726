-- ===== src/ObjectKey/Canonical.antt =====
-- Which keys CanonicalImageObjectKey accepts, and what it makes of them.
use be_pawfund.Prelude.{
  ◌≡◌, sym, ap, ◌∙◌, true, false, some, List, [], ◌∷◌, ◌++◌, append_assoc, arith, ok, Member,
  is_some, Option-cases, inl, inr,
}
use be_pawfund.Text.{
  Text, codes, is_empty, trim_space, has_prefix, drop_prefix, trim_prefix, has_suffix, trim_suffix,
  contains,
}
use be_pawfund.Text.Laws.{append-drop_prefix, trim_suffix-append_suffix}
use be_pawfund.Domain.{Uuid}
use be_pawfund.ObjectKey.{
  UuidPackage, staging_prefix, profile_image_extension_from_name, canonical_rest,
  canonical_image_object_key,
}

abbrev pub extensions : List Text
extensions = codes ".jpg" ∷ codes ".png" ∷ codes ".webp" ∷ []

-- The staged key `tmp/<directory>/<uuid><extension>`, and its committed form without `tmp/`.
pub record IsStaged (uuid : UuidPackage) (key directory canonical : Text) : Type 0 where
  pub id : Text
  pub extension : Text
  pub value : Uuid
  pub committed : canonical ≡ directory ++ (codes "/" ++ (id ++ extension))
  pub staged : trim_space key ≡ staging_prefix ++ canonical
  pub is_uuid : uuid.parse id ≡ some value
  pub known : Member extension extensions
  pub one_segment : contains (id ++ extension) (codes "/") ≡ false
  pub no_parent : contains canonical (codes "..") ≡ false

extension_known :
    (name : Text)
    → is_empty (profile_image_extension_from_name name) ≡ false
    → Member (profile_image_extension_from_name name) extensions
      × (has_suffix name (profile_image_extension_from_name name) ≡ true)
unfolding profile_image_extension_from_name
extension_known name h = ground arith

append_regroup : (p d s rest : Text) → (p ++ (d ++ s)) ++ rest ≡ p ++ (d ++ (s ++ rest))
append_regroup p d s rest = simp append_assoc

module _ (uuid : UuidPackage) where
  prefix_of : Text → Text
  prefix_of directory = staging_prefix ++ (directory ++ codes "/")

  record Accepted (key directory canonical : Text) : Type 0 where
    no_parent : contains (trim_space key) (codes "..") ≡ false
    rest : Text
    keyed : trim_space key ≡ staging_prefix ++ (directory ++ (codes "/" ++ rest))
    made : canonical_rest uuid rest directory ≡ ok canonical

  accepted :
      (key directory canonical : Text)
      → canonical_image_object_key uuid key directory ≡ ok canonical
      → Accepted key directory canonical
  unfolding canonical_image_object_key trim_prefix
  accepted key directory canonical h =
      let k = trim_space key in
      let prefix = staging_prefix ++ (directory ++ codes "/") in
      let begins : has_prefix k prefix ≡ true = ground arith in
      record {
        no_parent = ground arith;
        rest = drop_prefix k prefix;
        keyed =
            sym (append-drop_prefix k prefix begins)
            ∙ append_regroup staging_prefix directory (codes "/") (drop_prefix k prefix);
        made = ground arith;
      }

  record Named (rest directory canonical : Text) : Type 0 where
    made : canonical ≡ directory ++ (codes "/" ++ rest)
    one_segment : contains rest (codes "/") ≡ false
    has_extension : is_empty (profile_image_extension_from_name rest) ≡ false
    is_uuid :
        is_some (uuid.parse (trim_suffix rest (profile_image_extension_from_name rest))) ≡ true

  named :
      (rest directory canonical : Text)
      → canonical_rest uuid rest directory ≡ ok canonical
      → Named rest directory canonical
  unfolding canonical_rest
  named rest directory canonical h = record {
    made = ground arith;
    one_segment = ground arith;
    has_extension = ground arith;
    is_uuid = ground arith;
  }

  -- No ".." in the staged key, so none in the committed one.
  no_parent_below :
      (k canonical : Text)
      → k ≡ staging_prefix ++ canonical
      → contains k (codes "..") ≡ false
      → contains canonical (codes "..") ≡ false
  unfolding contains has_prefix
  no_parent_below k canonical e h =
      let h' : contains (staging_prefix ++ canonical) (codes "..") ≡ false = rw e at h in h'

  -- An accepted key is `tmp/<directory>/<uuid><extension>` between spaces, with one of the three
  -- image extensions, no further slash and no "..", and the committed key is the same without `tmp/`.
  pub canonical-IsStaged :
      (key directory canonical : Text)
      → canonical_image_object_key uuid key directory ≡ ok canonical
      → IsStaged uuid key directory canonical
  canonical-IsStaged key directory canonical h =
      let a = accepted key directory canonical h in
      let n = named a.rest directory canonical a.made in
      let extension = profile_image_extension_from_name a.rest in
      let (known, ends) = extension_known a.rest n.has_extension in
      let split : trim_suffix a.rest extension ++ extension ≡ a.rest =
        trim_suffix-append_suffix a.rest extension ends in
      let staged : trim_space key ≡ staging_prefix ++ canonical =
        a.keyed ∙ ap (λ t. staging_prefix ++ t) (sym n.made) in
      elim (Option-cases (uuid.parse (trim_suffix a.rest extension))) [
        | inl unparsed ↦ absurd (cc (ap is_some unparsed, n.is_uuid))
        | inr (value, parsed) ↦ record {
          id = trim_suffix a.rest extension;
          extension = extension;
          value = value;
          committed = rw split n.made;
          staged = staged;
          is_uuid = parsed;
          known = known;
          one_segment = rw split n.one_segment;
          no_parent = no_parent_below (trim_space key) canonical staged a.no_parent;
        }
      ]
