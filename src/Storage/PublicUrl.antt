-- ===== src/Storage/PublicUrl.antt =====
-- internal/infra/storage/public_url.go: the public URL of an object. The builder's base URL is
-- normalised when it is made; url.PathEscape is a parameter.
use be_pawfund.Prelude.{Option, none, some, List, [], ◌∷◌, ◌++◌, map, nat_eq, if◌then◌else◌}
use be_pawfund.Text.{Text, codes, is_empty, text_eq, trim_space}

abbrev pub add_to_first : List Text → Text → List Text
add_to_first [] c = c ∷ []
add_to_first (s ∷ rest) c = (c ++ s) ∷ rest

-- strings.Split(s, "/")
unfoldable pub split_slash : Text → List Text
split_slash [] = [] ∷ []
split_slash (c ∷ s) =
    let rest = split_slash s in if nat_eq c b'/' then [] ∷ rest else add_to_first rest (c ∷ [])

-- strings.Join(segments, "/")
unfoldable pub join_slash : List Text → Text
join_slash [] = []
join_slash (s ∷ []) = s
join_slash (s ∷ t ∷ rest) = s ++ codes "/" ++ join_slash (t ∷ rest)

abbrev pub escape_segment : (Text → Text) → Text → Text
escape_segment path_escape segment =
    if text_eq segment (codes ".")
    then codes "%2E"
    else if text_eq segment (codes "..")
    then codes "%2E%2E"
    else path_escape segment

-- PublicURLBuilder.Build
unfoldable pub build_public_url : (Text → Text) → Text → Option Text → Option Text
unfolding split_slash join_slash
build_public_url path_escape base_url none = none
build_public_url path_escape base_url (some object_key) =
    let key = trim_space object_key in
    if is_empty key
    then none
    else some
        (base_url ++ codes "/" ++ join_slash (map (escape_segment path_escape) (split_slash key)))
