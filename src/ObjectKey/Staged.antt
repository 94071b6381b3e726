-- ===== src/ObjectKey/Staged.antt =====
-- The keys that the upload service hands out are accepted, and committed under their own name.
use be_pawfund.Prelude.{
  ℕ, ◌≡◌, ◌≢◌, refl, ◌∙◌, true, false, List, [], ◌∷◌, ◌++◌, arith, ok, All, Member, inl, inr,
  nat_eq,
}
use be_pawfund.Text.{
  Text, codes, text_eq, is_space, trim_right, trim_space, has_prefix, trim_prefix, has_suffix,
  contains, is_empty,
}
use be_pawfund.Text.Laws.{trim_suffix-append}
use be_pawfund.Text.Trim.{trim_space_of_plain, trim_right-append}
use be_pawfund.Domain.{Uuid}
use be_pawfund.ObjectKey.{
  UuidPackage, is_uuid_char, profile_image_directory, campaign_image_directory,
  profile_image_extension_from_name, staging_image_object_key, canonical_rest,
  canonical_image_object_key,
}
use be_pawfund.ObjectKey.Canonical.{extensions}

UuidChars : Text → Type 0
UuidChars id = All (λ c. is_uuid_char c ≡ true) id

-- A name `<id><extension>` whose id is of digits, letters and dashes.
record IsName (id extension : Text) : Type 0 where
  no_slash : contains (id ++ extension) (codes "/") ≡ false
  no_parent : contains (id ++ extension) (codes "..") ≡ false
  ending : profile_image_extension_from_name (id ++ extension) ≡ extension

plain_char : (c : ℕ) → is_uuid_char c ≡ true → (nat_eq c b'/' ≡ false) × (nat_eq c b'.' ≡ false)
plain_char c h = ground arith

slash_step :
    (c : ℕ) (s : Text)
    → nat_eq c b'/' ≡ false
    → contains (c ∷ s) (codes "/") ≡ contains s (codes "/")
unfolding contains has_prefix
slash_step c s h = rw h

parent_step :
    (c : ℕ) (s : Text)
    → nat_eq c b'.' ≡ false
    → contains (c ∷ s) (codes "..") ≡ contains s (codes "..")
unfolding contains has_prefix
parent_step c s h = rw h

ending_step :
    (c : ℕ) (s : Text)
    → nat_eq c b'.' ≡ false
    → profile_image_extension_from_name (c ∷ s) ≡ profile_image_extension_from_name s
unfolding profile_image_extension_from_name has_suffix text_eq
ending_step c s h = rw h

named_by : (id extension : Text) → IsName [] extension → UuidChars id → IsName id extension
unfolding UuidChars
named_by [] extension base h = base
named_by (c ∷ id) extension base (p, h) =
    let n = named_by id extension base h in
    let (slash, dot) = plain_char c p in
    record {
      no_slash = slash_step c (id ++ extension) slash ∙ n.no_slash;
      no_parent = parent_step c (id ++ extension) dot ∙ n.no_parent;
      ending = ending_step c (id ++ extension) dot ∙ n.ending;
    }

extension_alone : (extension : Text) → Member extension extensions → IsName [] extension
unfolding contains has_prefix profile_image_extension_from_name has_suffix text_eq
extension_alone extension (inl e) =
    rw e (record { no_slash = refl; no_parent = refl; ending = refl })
extension_alone extension (inr (inl e)) =
    rw e (record { no_slash = refl; no_parent = refl; ending = refl })
extension_alone extension (inr (inr (inl e))) =
    rw e (record { no_slash = refl; no_parent = refl; ending = refl })
extension_alone extension (inr (inr (inr m))) = elim m [ ]

-- An extension is not empty and ends in no space.
extension_plain :
    (extension : Text)
    → Member extension extensions
    → (extension ≢ []) × (trim_right extension ≡ extension) × (is_empty extension ≡ false)
unfolding trim_right is_space
extension_plain extension (inl e) = rw e ((λ p. cc p), refl, refl)
extension_plain extension (inr (inl e)) = rw e ((λ p. cc p), refl, refl)
extension_plain extension (inr (inr (inl e))) = rw e ((λ p. cc p), refl, refl)
extension_plain extension (inr (inr (inr m))) = elim m [ ]

is_empty-append :
    (id extension : Text) → is_empty extension ≡ false → is_empty (id ++ extension) ≡ false
is_empty-append [] extension h = h
is_empty-append (c ∷ id) extension h = refl

-- The two directories.
abbrev pub directories : List Text
directories = profile_image_directory ∷ campaign_image_directory ∷ []

module _ (uuid : UuidPackage) (u : Uuid) (extension : Text)
    (known : Member extension extensions) where
  id_IsName : IsName (uuid.to_string u) extension
  unfolding UuidChars
  id_IsName =
      named_by (uuid.to_string u) extension (extension_alone extension known)
        (uuid.to_string_chars u)

  rest_accepted :
      (directory : Text)
      → canonical_rest uuid (uuid.to_string u ++ extension) directory
        ≡ ok (directory ++ (codes "/" ++ (uuid.to_string u ++ extension)))
  unfolding canonical_rest
  rest_accepted directory =
      let n = id_IsName in
      let (ne, trimmed, full) = extension_plain extension known in
      rw (is_empty-append (uuid.to_string u) extension full, n.no_slash, n.ending, full)
        (rw (trim_suffix-append (uuid.to_string u) extension) (rw (uuid.parse-to_string u)))

  key_accepted :
      (directory : Text)
      → Member directory directories
      → canonical_image_object_key uuid
          (staging_image_object_key directory (uuid.to_string u) extension)
          directory
        ≡ canonical_rest uuid (uuid.to_string u ++ extension) directory
  unfolding canonical_image_object_key staging_image_object_key trim_prefix has_prefix contains
      is_space
  key_accepted directory (inl e) =
      let (ne, trimmed, full) = extension_plain extension known in
      let id = uuid.to_string u in
      let kept : trim_space (codes "tmp/profiles/" ++ (id ++ extension))
          ≡ codes "tmp/profiles/" ++ (id ++ extension) =
        trim_space_of_plain (codes "tmp/profiles/" ++ (id ++ extension)) refl
          (trim_right-append (codes "tmp/profiles/" ++ id) extension ne trimmed) in
      rw e (rw kept (rw (id_IsName.no_parent)))
  key_accepted directory (inr (inl e)) =
      let (ne, trimmed, full) = extension_plain extension known in
      let id = uuid.to_string u in
      let kept : trim_space (codes "tmp/campaigns/" ++ (id ++ extension))
          ≡ codes "tmp/campaigns/" ++ (id ++ extension) =
        trim_space_of_plain (codes "tmp/campaigns/" ++ (id ++ extension)) refl
          (trim_right-append (codes "tmp/campaigns/" ++ id) extension ne trimmed) in
      rw e (rw kept (rw (id_IsName.no_parent)))
  key_accepted directory (inr (inr m)) = elim m [ ]

  -- Every key that stagingImageObjectKey builds for one of the two directories, a UUID and one of the
  -- three extensions is accepted for its directory, and committed as `<directory>/<uuid><extension>`.
  pub canonical-staging_image_object_key :
      (directory : Text)
      → Member directory directories
      → canonical_image_object_key uuid
          (staging_image_object_key directory (uuid.to_string u) extension)
          directory
        ≡ ok (directory ++ (codes "/" ++ (uuid.to_string u ++ extension)))
  canonical-staging_image_object_key directory m =
      key_accepted directory m ∙ rest_accepted directory
