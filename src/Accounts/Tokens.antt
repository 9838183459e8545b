-- ===== src/Accounts/Tokens.antt =====
-- The refresh tokens of apps/users/services/auth_service.py: issuing, logout, and the exchange for new
-- ones, with ROTATE_REFRESH_TOKENS and BLACKLIST_AFTER_ROTATION set as in config/settings/base.py.
pub mod Rotation
use gechu_backend.Base.{
  ℕ, ◌≡◌, ◌⊎◌, Bool, true, false, not, Option, none, some, String, List, [], ◌∷◌, ◌++◌, filter,
  first, elem, ◌==◌, if◌then◌else◌,
}
use gechu_backend.Core.Errors.{
  Error, api, refresh_token_missing, invalid_refresh_token, refresh_token_expired, Result, ok, err,
}
use gechu_backend.Core.Exec.{Exec, pure, raise, gets, modify, or_raise, ◌>>=◌, ◌>>◌}
use gechu_backend.Models.User.{User as UserRow}
use gechu_backend.Accounts.{Accounts, get_active_user_or_deactivated, blacklist}

-- What is read off a refresh token: its number, and the user in its payload. A `TokenError` comes
-- with whether its text holds the word "expired".
pub data Parsed : Type 0 where
  valid : ℕ → Option ℕ → Parsed
  refused : Bool → Parsed

abbrev pub IsRefused : Parsed → Type 0
IsRefused (valid jti user) = ⊥
IsRefused (refused says_expired) = Unit

-- `RefreshToken(text)` of simplejwt, by the clock and the blacklist: a token whose number is listed
-- is refused at any time.
pub record Jwt : Type 0 where
  pub read : ℕ → List ℕ → String → Parsed
  pub read_listed :
      (now later : ℕ) (listed listed' : List ℕ) (text : String) (jti : ℕ) (user : Option ℕ)
      → read now listed text ≡ valid jti user
      → elem jti listed' ≡ true
      → IsRefused (read later listed' text)

-- The tokens that are handed out, by the number of the refresh token.
pub record Issued : Type 0 where
  pub owner : ℕ
  pub jti : ℕ

-- `RefreshToken.for_user`, which adds the number to the outstanding ones.
abbrev pub issue_auth_tokens : ℕ → ℕ → Exec Accounts Issued
issue_auth_tokens jti user s = (
  ok (record { owner = user; jti = jti }),
  record s { outstanding_tokens = s.outstanding_tokens ++ (user, jti) ∷ [] },
)

-- `refresh.blacklist()`
abbrev pub blacklist_one : ℕ → Exec Accounts (Unit {0})
blacklist_one jti =
    modify (λ s. record s { blacklisted_tokens = blacklist (jti ∷ []) s.blacklisted_tokens })

pub logout_parsed : Parsed → Exec Accounts (Unit {0})
logout_parsed (refused says_expired) = raise (api invalid_refresh_token)
logout_parsed (valid jti user) = blacklist_one jti

-- An empty text counts as a missing one, and is passed as `none`.
pub logout_user : Jwt → ℕ → Option String → Exec Accounts (Unit {0})
logout_user jwt now none s = (err (api refresh_token_missing), s)
logout_user jwt now (some text) s = logout_parsed (jwt.read now s.blacklisted_tokens text) s

pub user_by_id : ℕ → List UserRow → Option UserRow
user_by_id id users = first (filter (λ u. id == u.id) users)

pub refresh_parsed : ℕ → Parsed → Exec Accounts Issued
refresh_parsed new_jti (refused says_expired) =
    raise (api (if says_expired then refresh_token_expired else invalid_refresh_token))
refresh_parsed new_jti (valid jti none) = raise (api invalid_refresh_token)
refresh_parsed new_jti (valid jti (some id)) = do
  row ← gets (λ s. user_by_id id s.users)
  u ← or_raise row (api invalid_refresh_token)
  get_active_user_or_deactivated u
  blacklist_one jti
  issue_auth_tokens new_jti u.id

pub refresh_access_token : Jwt → ℕ → ℕ → Option String → Exec Accounts Issued
refresh_access_token jwt now new_jti none s = (err (api refresh_token_missing), s)
refresh_access_token jwt now new_jti (some text) s =
    refresh_parsed new_jti (jwt.read now s.blacklisted_tokens text) s
