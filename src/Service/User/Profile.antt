-- ===== src/Service/User/Profile.antt =====
-- The profiles of internal/service/user_service.go.
use cooking_platform.Prelude.{
  ℕ, Bool, false, not, ◌&&◌, Option, none, some, [], ◌∷◌, ltb, ◌==◌, if◌then◌else◌,
}
use cooking_platform.Prelude.Text.{Bytes}
use cooking_platform.Errcode.{app, nickname_invalid, upload_url_not_allowed}
use cooking_platform.Action.{Result, ok, err, Action, ◌>>=◌, ◌>>◌, pure, wrap, map_error}
use cooking_platform.Action.Results
use cooking_platform.Action.Results.{give}
use cooking_platform.Strings.{trim_space}
use cooking_platform.Oss.{is_allowed_url}
use cooking_platform.Crypto.{CryptoLibrary, mask_phone, decrypt_phone}
use cooking_platform.Cache.Marker.{mark, has}
use cooking_platform.Cache.User.{delete_user_info}
use cooking_platform.Repository.Users.{ProfileFields, no_fields, find_by_id}
use cooking_platform.Repository.Users
use cooking_platform.Repository.Follows.{exists}
use cooking_platform.Service.User.{UserEnv, UserConfig, UserPublicResp, to_public_resp}
use cooking_platform.Service.User.Session.{user_error}

-- `dto.UserPrivateResp`
pub record UserPrivateResp : Type 0 where
  pub profile : UserPublicResp
  pub phone_masked : Bytes

-- `dto.UpdateProfileReq`: what the client sets
pub record UpdateProfileReq : Type 0 where
  pub nickname : Option Bytes
  pub bio : Option Bytes
  pub avatar_url : Option Bytes

abbrev pub plain_or_empty : Result Bytes → Bytes
plain_or_empty (ok plain) = plain
plain_or_empty (err e) = []

abbrev pub nonempty_nickname : Bytes → Result (Option Bytes)
nonempty_nickname [] = err (app nickname_invalid)
nonempty_nickname (c ∷ s) = ok (some (c ∷ s))

abbrev pub checked_nickname : Option Bytes → Result (Option Bytes)
checked_nickname none = ok none
checked_nickname (some s) = nonempty_nickname (trim_space s)

abbrev pub trimmed : Option Bytes → Option Bytes
trimmed none = none
trimmed (some s) = some (trim_space s)

abbrev pub checked_url : Bytes → Option Bytes → Result (Option Bytes)
checked_url prefix none = ok none
checked_url prefix (some s) =
    if is_allowed_url (trim_space s) prefix
    then ok (some (trim_space s))
    else err (app upload_url_not_allowed)

-- the columns that `UpdateProfile` sets, or its error
unfoldable pub profile_fields : Bytes → UpdateProfileReq → Result ProfileFields
profile_fields url_prefix req = Results.◌>>=◌ (checked_nickname req.nickname) λ nickname.
    Results.◌>>=◌ (checked_url url_prefix req.avatar_url) λ avatar_url.
      ok (record { nickname = nickname; bio = trimmed req.bio; avatar_url = avatar_url })

abbrev pub followed_or_false : Result Bool → Bool
followed_or_false (ok b) = b
followed_or_false (err e) = false

module _ {C G W : Type 0} (crypto : CryptoLibrary C G) (env : UserEnv W) (cfg : UserConfig) where
  -- `GetMyProfile`
  unfoldable pub get_my_profile : ℕ → Action W UserPrivateResp
  get_my_profile user_id = do
    force ← has env.marker cfg.marker_ttl user_id
    user ← map_error user_error (find_by_id env.users force user_id)
    pure (record {
      profile = to_public_resp user;
      phone_masked =
          mask_phone (plain_or_empty (decrypt_phone crypto user.phone_encrypted cfg.phone_key));
    })

  -- the viewer's badge; an error of the query counts as no
  abbrev pub is_following : ℕ → ℕ → Action W Bool
  is_following viewer_id user_id s =
      let (following, s') = exists env.follows false viewer_id user_id s in
      (ok (followed_or_false following), s')

  abbrev pub badge : ℕ → ℕ → Action W Bool
  badge viewer_id user_id =
      if ltb 0 viewer_id && not (viewer_id == user_id)
      then is_following viewer_id user_id
      else pure false

  -- `GetPublicProfile`
  unfoldable pub get_public_profile : ℕ → ℕ → Action W UserPublicResp
  get_public_profile viewer_id user_id = do
    user ← map_error user_error (find_by_id env.users false user_id)
    following ← badge viewer_id user_id
    pure (record (to_public_resp user) { is_following = following })

  -- the invalidation, whose error is logged
  abbrev pub forget : ℕ → Action W (Unit {0})
  forget user_id s = (ok tt, (delete_user_info env.redis user_id s).1)

  abbrev pub store_profile : ℕ → ProfileFields → Action W (Unit {0})
  store_profile user_id fields = do
    wrap (Users.update_profile env.users user_id fields)
    mark env.marker cfg.marker_ttl user_id
    forget user_id

  -- `UpdateProfile`
  unfoldable pub update_profile : ℕ → UpdateProfileReq → Action W (Unit {0})
  update_profile user_id req = do
    fields ← give (profile_fields cfg.url_prefix req)
    if no_fields fields.nickname fields.bio fields.avatar_url
        then pure tt
        else store_profile user_id fields
