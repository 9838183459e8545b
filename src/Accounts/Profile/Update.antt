-- ===== src/Accounts/Profile/Update.antt =====
-- What a change of the own account has checked and written.
use gechu_backend.Base.{ℕ, ◌≡◌, true, false, Option, none, some, String, elem}
use gechu_backend.Core.Errors.{Result, ok, err}
use gechu_backend.Models.User.{User as UserRow}
use gechu_backend.Accounts.{
  Accounts, Django, is_deactivated, is_social_only, update_user, tokens_of,
}
use gechu_backend.Accounts.Profile.{Changes, nickname_taken, changed}

-- What a new password has to be, and what it does to the refresh tokens.
abbrev pub IsNewPassword : Django → UserRow → Option String → Accounts → Accounts → Type 0
IsNewPassword django u none s s' = s'.blacklisted_tokens ≡ s.blacklisted_tokens
IsNewPassword django u (some password) s s' =
    (is_social_only u s ≡ false)
    × (django.is_valid_password password ≡ true)
    × ((t : ℕ)
        → elem t (tokens_of u.id s.outstanding_tokens) ≡ true
        → elem t s'.blacklisted_tokens ≡ true)

abbrev pub IsUpdated : Django → UserRow → Changes → Accounts → Result UserRow × Accounts → Type 0
IsUpdated django u c s (err e, s') = s' ≡ s
IsUpdated django u c s (ok v, s') =
    (v ≡ changed django c u)
    × (s'.users ≡ update_user u.id (changed django c) s.users)
    × (is_deactivated u ≡ false)
    × (nickname_taken u.id c.nickname s.users ≡ false)
    × IsNewPassword django u c.new_password s s'
