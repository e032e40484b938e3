-- ===== src/Oss.antt =====
-- pkg/oss/whitelist.go: the URLs that clients may store.
use cooking_platform.Prelude.{Bool, true, false, ◌&&◌, List, [], ◌∷◌}
use cooking_platform.Prelude.Text.{Bytes, has_prefix}
use cooking_platform.Strings.{to_lower}

-- `IsAllowedURL`
unfoldable pub is_allowed_url : Bytes → Bytes → Bool
unfolding to_lower has_prefix
is_allowed_url [] prefix = true
is_allowed_url (c ∷ u) [] = false
is_allowed_url (c ∷ u) (p ∷ prefix) = has_prefix (to_lower (c ∷ u)) (to_lower (p ∷ prefix))

-- `AllAllowed`
unfoldable pub all_allowed : List Bytes → Bytes → Bool
unfolding is_allowed_url
all_allowed [] prefix = true
all_allowed (u ∷ urls) prefix = is_allowed_url u prefix && all_allowed urls prefix
