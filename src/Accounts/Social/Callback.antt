-- ===== src/Accounts/Social/Callback.antt =====
-- The callbacks of a login: handle_kakao_callback and handle_discord_callback of
-- apps/users/services/social_auth_service.py. The result is `none` where the search for a nickname
-- does not end.
use gechu_backend.Base.{ℕ, Bool, Option, none, some, String}
use gechu_backend.Core.Errors.{
  ErrorMessages, api, oauth_callback_error, discord_oauth_callback_error, Result, ok, err,
}
use gechu_backend.Accounts.Tokens.{Issued, issue_auth_tokens}
use gechu_backend.Accounts.{Accounts}
use gechu_backend.Accounts.Social.{
  Provider, kakao, discord, Socials, Login, Fresh, validate_oauth_state, get_or_create_social_user,
}
use gechu_backend.Accounts.Social.Profiles.{
  Extracted, KakaoInfo, DiscordInfo, extract_kakao_user_data, extract_discord_user_data,
}

-- A provider's answer to a request: no answer or an HTTP error, a payload of another form, or what
-- was asked for
pub data Reply (A : Type 0) : Type 0 where
  no_answer odd : Reply A
  reply : A → Reply A

-- The token for a code, and the user's data for a token
pub record Remote (Info : Type 0) : Type 0 where
  pub request_access_token : String → Reply String
  pub request_user_info : String → Reply Info

abbrev pub replied : {A : Type 0} → ErrorMessages → Reply A → Result A
replied message no_answer = err (api message)
replied message odd = err (api message)
replied message (reply a) = ok a

-- The tokens of the login, and whether the account is new
pub record LoggedIn : Type 0 where
  pub tokens : Issued
  pub is_new_user : Bool

abbrev pub issued : Result Issued × Accounts → Bool → Socials → Result LoggedIn × Socials
issued (ok tokens, a) is_new s =
    (ok (record { tokens = tokens; is_new_user = is_new }), record s { accounts = a })
issued (err e, a) is_new s = (err e, record s { accounts = a })

abbrev pub with_tokens : ℕ → Option Login → Option (Result LoggedIn × Socials)
with_tokens jti none = none
with_tokens jti (some (err e, s)) = some (err e, s)
with_tokens jti (some (ok (u, is_new), s)) =
    some (issued (issue_auth_tokens jti u.id s.accounts) is_new s)

unfoldable pub request_kakao_access_token : Remote KakaoInfo → String → Result String
request_kakao_access_token remote code =
    replied oauth_callback_error (remote.request_access_token code)

unfoldable pub request_discord_access_token : Remote DiscordInfo → String → Result String
request_discord_access_token remote code =
    replied discord_oauth_callback_error (remote.request_access_token code)

unfoldable pub request_kakao_user_info : Remote KakaoInfo → String → Result KakaoInfo
request_kakao_user_info remote token = replied oauth_callback_error (remote.request_user_info token)

unfoldable pub request_discord_user_info : Remote DiscordInfo → String → Result DiscordInfo
request_discord_user_info remote token =
    replied discord_oauth_callback_error (remote.request_user_info token)

abbrev pub and_then : {A B : Type 0} → Result A → (A → Result B) → Result B
and_then (err e) f = err e
and_then (ok a) f = f a

module _ (provider : Provider) (fresh : Fresh) (jti : ℕ) where
  abbrev pub logged_in : Result Extracted → Socials → Option (Result LoggedIn × Socials)
  logged_in (err e) s = some (err e, s)
  logged_in (ok x) s = with_tokens jti (
      get_or_create_social_user fresh provider x.provider_uid x.email x.birth_date
        x.preferred_nickname s)

  -- `user` is what the requests give for the code.
  abbrev pub after_state :
      Result (Unit {0}) × Socials → Result Extracted → Option (Result LoggedIn × Socials)
  after_state (err e, s) user = some (err e, s)
  after_state (ok u, s) user = logged_in user s

unfoldable pub handle_kakao_callback :
    (String → Option ℕ)
    → Remote KakaoInfo
    → Fresh
    → ℕ
    → ℕ
    → String
    → String
    → Socials
    → Option (Result LoggedIn × Socials)
handle_kakao_callback parse_int remote fresh jti now code state s =
    after_state kakao fresh jti (validate_oauth_state now state kakao s) (
      and_then (request_kakao_access_token remote code) (λ token.
        and_then (request_kakao_user_info remote token) (extract_kakao_user_data parse_int)))

unfoldable pub handle_discord_callback :
    Remote DiscordInfo
    → Fresh
    → ℕ
    → ℕ
    → String
    → String
    → Socials
    → Option (Result LoggedIn × Socials)
handle_discord_callback remote fresh jti now code state s =
    after_state discord fresh jti (validate_oauth_state now state discord s) (
      and_then (request_discord_access_token remote code)
        (λ token. and_then (request_discord_user_info remote token) extract_discord_user_data))
