-- ===== src/Accounts/Codes.antt =====
-- Sending an email code: the code is there until it expires, and the next one has to wait.
use gechu_backend.Base.{
  ℕ, ◌+◌, ◌*◌, ◌≡◌, ◌<◌, Bool, true, false, Option, none, some, String, List, [], ◌∷◌, ◌++◌, ◌⊎◌,
}
use gechu_backend.Core.Errors.{Error, api, too_many_requests, Result, ok, err}
use gechu_backend.Models.User.{User as UserRow}
use gechu_backend.Accounts.Cache.{
  Purpose, email_code, email_code_cooldown, email_code_attempts, key, text, flag, Entry, cache_set,
  cache_delete,
}
use gechu_backend.Accounts.{
  second, email_code_ttl_seconds, email_code_cooldown_seconds, Accounts, user_by_email,
  counts_as_user, should_issue_email_code, seconds_from, send_email_code, saved_code,
}

abbrev pub issues : Purpose → String → Accounts → Bool
issues purpose email s =
    should_issue_email_code purpose (counts_as_user purpose (user_by_email email s.users) s)

module _ (now : ℕ) (code email : String) (purpose : Purpose) (s : Accounts) where
  abbrev cooled : List Entry
  cooled =
      cache_set (key email_code_cooldown purpose email) flag
        (seconds_from now email_code_cooldown_seconds) s.cache

  abbrev issued : List Entry
  issued = cache_delete (key email_code_attempts purpose email) (
      cache_set (key email_code purpose email) (text code) (seconds_from now email_code_ttl_seconds)
        cooled)

  -- What a request leaves for later ones: the code that was issued is the saved one until it
  -- expires, and every further request within a minute is refused.
  abbrev pub IsSaved : Accounts → Type 0
  IsSaved s' =
      (later : ℕ)
      → later < now + email_code_ttl_seconds * second
      → saved_code later purpose email s' ≡ some (text code)

  abbrev pub Waits : Accounts → Type 0
  Waits s' =
      (failure : Option Error) (later : ℕ) (next : String)
      → later < now + email_code_cooldown_seconds * second
      → send_email_code failure later next email purpose s' ≡ (err (api too_many_requests), s')

  -- How a request for a code ends.
  abbrev pub IsSent : Option Error → Result ℕ × Accounts → Type 0
  IsSent failure (err e, s') =
      (s' ≡ s)
      ⊎ ((failure ≡ some e)
          × (issues purpose email s ≡ true)
          × (s'.users ≡ s.users)
          × (s'.mails ≡ s.mails)
          × IsSaved s'
          × Waits s')
  IsSent failure (ok seconds, s') =
      (seconds ≡ email_code_ttl_seconds)
      × (s'.users ≡ s.users)
      × (issues purpose email s ≡ true
          → (failure ≡ none) × (s'.mails ≡ s.mails ++ (email, code) ∷ []) × IsSaved s')
      × (issues purpose email s ≡ false → s'.mails ≡ s.mails)
      × Waits s'
