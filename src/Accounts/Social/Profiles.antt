-- ===== src/Accounts/Social/Profiles.antt =====
-- What Kakao and Discord say of a user: extract_kakao_user_data and extract_discord_user_data of
-- apps/users/services/social_auth_service.py. `parse_int` is Python's `int` of a text, `none` for
-- ValueError or a number below 0.
use gechu_backend.Base.{
  ℕ, ◌%◌, Bool, not, ◌&&◌, ◌||◌, Option, none, some, String, leb, ◌==◌, if◌then◌else◌,
}
use gechu_backend.Core.Errors.{
  api, oauth_callback_error, discord_oauth_callback_error, value_error, Result, ok, err,
}
use gechu_backend.Models.User.{Date}
use gechu_backend.Games.Text.{is_blank, clip, skip, len, strip, ◌+++◌}

-- `kakao_account`: texts that are texts, and the nickname of a profile that is an object
pub record KakaoAccount : Type 0 where
  pub email : Option String
  pub nickname : Option String
  pub birthyear : Option String
  pub birthday : Option String

-- The `id` as `str` gives it, the account if it is an object, and the nickname of the properties
pub record KakaoInfo : Type 0 where
  pub id : Option String
  pub kakao_account : Option KakaoAccount
  pub properties_nickname : Option String

pub record Extracted : Type 0 where
  pub provider_uid : String
  pub email : String
  pub birth_date : Date
  pub preferred_nickname : Option String

abbrev pub default_social_birth_date : Date
default_social_birth_date = record { year = 2000; month = 1; day = 1 }

abbrev pub is_leap : ℕ → Bool
is_leap y = y % 4 == 0 && (not (y % 100 == 0) || y % 400 == 0)

abbrev pub days_in : ℕ → ℕ → ℕ
days_in y m =
    if m == 2
    then (if is_leap y then 29 else 28)
    else if m == 4 || m == 6 || m == 9 || m == 11
    then 30
    else 31

-- `date(year, month, day)`
unfoldable pub make_date : ℕ → ℕ → ℕ → Result Date
make_date y m d =
    if leb 1 y && leb y 9999 && leb 1 m && leb m 12 && leb 1 d && leb d (days_in y m)
    then ok (record { year = y; month = m; day = d })
    else err value_error

-- A nickname that is not blank, stripped
abbrev pub stripped : Option String → Option String
stripped none = none
stripped (some s) = if is_blank (strip s) then none else some (strip s)

abbrev pub either : Option String → Option String → Option String
either none t = t
either (some s) t = some s

abbrev pub email_or : Option String → String → String
email_or none fallback = fallback
email_or (some email) fallback = email

module _ (parse_int : String → Option ℕ) where
  abbrev pub date_of : Option ℕ → Option ℕ → Option ℕ → Result Date
  date_of (some y) (some m) (some d) = make_date y m d
  date_of none m d = err value_error
  date_of (some y) none d = err value_error
  date_of (some y) (some m) none = err value_error

  -- The month and the day are the halves of a birthday of four digits.
  unfoldable pub birth_date_of : Option String → Option String → Result Date
  birth_date_of none birthday = ok default_social_birth_date
  birth_date_of (some birthyear) none = ok default_social_birth_date
  birth_date_of (some birthyear) (some birthday) =
      if len birthday == 4
      then date_of (parse_int birthyear) (parse_int (clip 2 birthday)) (parse_int (skip 2 birthday))
      else ok default_social_birth_date

  abbrev pub dated : Result Date → String → String → Option String → Result Extracted
  dated (err e) uid email nickname = err e
  dated (ok date) uid email nickname = ok (record {
    provider_uid = uid;
    email = email;
    birth_date = date;
    preferred_nickname = nickname;
  })

  abbrev pub of_account : Option KakaoAccount → Option String → String → Result Extracted
  of_account none nickname uid =
      dated (ok default_social_birth_date) uid ("kakao_" +++ uid +++ "@social.gechu")
        (stripped nickname)
  of_account (some a) nickname uid =
      dated (birth_date_of a.birthyear a.birthday) uid
        (email_or a.email ("kakao_" +++ uid +++ "@social.gechu"))
        (either (stripped a.nickname) (stripped nickname))

  abbrev pub of_uid : Option String → KakaoInfo → Result Extracted
  of_uid none k = err (api oauth_callback_error)
  of_uid (some uid) k = of_account k.kakao_account k.properties_nickname uid

  unfoldable pub extract_kakao_user_data : KakaoInfo → Result Extracted
  extract_kakao_user_data k = of_uid k.id k

-- The texts of Discord's answer
pub record DiscordInfo : Type 0 where
  pub id : Option String
  pub email : Option String

abbrev pub discord_of : Option String → Option String → Result Extracted
discord_of none email = err (api discord_oauth_callback_error)
discord_of (some uid) none = err (api discord_oauth_callback_error)
discord_of (some uid) (some email) = ok (record {
  provider_uid = uid;
  email = email;
  birth_date = default_social_birth_date;
  preferred_nickname = none;
})

unfoldable pub extract_discord_user_data : DiscordInfo → Result Extracted
extract_discord_user_data i = discord_of i.id i.email
