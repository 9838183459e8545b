-- ===== src/Accounts/Reset.antt =====
-- The reset of a password: what a success has checked and changed, and that attempts are counted.
use gechu_backend.Base.{
  ℕ, ◌≡◌, refl, ap, ◌<◌, true, false, not, none, some, String, List, [], ◌∷◌, ◌++◌, elem,
  elem-append, arith, leb, if◌then◌else◌, Bool-cases, Option-cases, inl, inr,
}
use gechu_backend.Core.Errors.{
  Error, api, account_deactivated, social_user_only, validation_error, invalid_code, Result, ok,
  err,
}
use gechu_backend.Core.Exec.{Exec, continue, gets, modify, or_raise, raise_if, ◌>>=◌, ◌>>◌}
use gechu_backend.Models.User.{User as UserRow}
use gechu_backend.Accounts.Cache.{
  password_reset, email_code, email_code_attempts, key, Value, Entry, cache_get, cache_delete,
  key_eq, cache_get-cache_delete,
}
use gechu_backend.Accounts.{
  email_code_verify_max_attempts, Accounts, Django, user_by_email, is_deactivated, is_social_only,
  revoke_all_refresh_tokens, delete_codes, saved_code, is_code, digests, attempts_in, attempts_of,
  fail_attempt, verify_code, update_user, tokens_of, blacklist, with_password, reset_user_password,
}

blacklist_keeps :
    (t : ℕ) (tokens listed : List ℕ)
    → elem t listed ≡ true
    → elem t (blacklist tokens listed) ≡ true
unfolding blacklist
blacklist_keeps t [] listed h = h
blacklist_keeps t (u ∷ tokens) listed h =
    blacklist_keeps t tokens (if elem u listed then listed else listed ++ u ∷ [])
      (ground (arith, elem-append t listed (u ∷ [])))

pub blacklist_all :
    (t : ℕ) (tokens listed : List ℕ)
    → elem t tokens ≡ true
    → elem t (blacklist tokens listed) ≡ true
unfolding blacklist
blacklist_all t [] listed h = cc
blacklist_all t (u ∷ tokens) listed h =
    let listed' = if elem u listed then listed else listed ++ u ∷ [] in
    elim (Bool-cases (elem t tokens)) [
      | inl later ↦ blacklist_all t tokens listed' later
      | inr never ↦ blacklist_keeps t tokens listed' (ground (arith, elem-append t listed (u ∷ [])))
    ]

-- The parts of a success: the code was the saved one and no attempt too many had failed; the user is
-- active and not one of a social login alone; the row has the new password; the code is gone; and
-- every refresh token of the user is revoked.
abbrev pub IsReset : Django → ℕ → String → String → String → Accounts → Accounts → Type 0
IsReset django now email code new_password s s' =
    (attempts_of now email s < email_code_verify_max_attempts)
    × ((v : Value) × (saved_code now password_reset email s ≡ some v) × (is_code v code ≡ true))
    × ((later : ℕ) → saved_code later password_reset email s' ≡ none)
    × ((later : ℕ) → attempts_of later email s' ≡ 0)
    × (u : UserRow) × (user_by_email email s.users ≡ some u)
    × (is_deactivated u ≡ false)
    × (is_social_only u s ≡ false)
    × (django.is_valid_password new_password ≡ true)
    × (s'.users ≡ update_user u.id (with_password django new_password) s.users)
    × ((t : ℕ)
        → elem t (tokens_of u.id s.outstanding_tokens) ≡ true
        → elem t s'.blacklisted_tokens ≡ true)

-- The two keys of a reset differ.
code_after_attempts :
    (later : ℕ) (email : String) (cache : List Entry)
    → cache_get later (key email_code password_reset email) (
        cache_delete
          (key email_code_attempts password_reset email)
          (cache_delete (key email_code password_reset email) cache))
      ≡ none
unfolding cache_get cache_delete key_eq
code_after_attempts later email [] = refl
code_after_attempts later email (e ∷ cache) = ground (arith, code_after_attempts later email cache)

module _ (django : Django) (now : ℕ) (email code new_password : String) (s s' : Accounts) where
  after_user : UserRow → Exec Accounts (Unit {0})
  after_user u = do
    raise_if (is_deactivated u) (api account_deactivated)
    social ← gets (is_social_only u)
    raise_if social (api social_user_only)
    raise_if (not (django.is_valid_password new_password)) (api validation_error)
    modify (λ s. record s { users = update_user u.id (with_password django new_password) s.users })
    revoke_all_refresh_tokens u.id
    delete_codes password_reset email

  clash :
      {e : Error} {t : Accounts} → Path (Result (Unit {0}) × Accounts) (err e, t) (ok tt, s') → ⊥
  clash e = cc

  -- The steps after the code was accepted.
  after_code :
      (v : Value)
      → saved_code now password_reset email s ≡ some v
      → is_code v code ≡ true
      → attempts_of now email s < email_code_verify_max_attempts
      → continue (or_raise (user_by_email email s.users) (api invalid_code) s) after_user
        ≡ (ok tt, s')
      → IsReset django now email code new_password s s'
  unfolding after_user
  after_code v saved right few h = elim (Option-cases (user_by_email email s.users)) [
    | inl e ↦ absurd (clash (rw e at h))
    | inr (u, known) ↦ elim (Bool-cases (is_deactivated u)) [
      | inl e ↦ absurd (clash (rw (known, e) at h))
      | inr active ↦ elim (Bool-cases (is_social_only u s)) [
        | inl e ↦ absurd (clash (rw (known, active, e) at h))
        | inr own ↦ elim (Bool-cases (django.is_valid_password new_password)) [
          | inr e ↦ absurd (clash (rw (known, active, own, e) at h))
          | inl valid ↦
              let cleaned =
                cache_delete (key email_code_attempts password_reset email)
                  (cache_delete (key email_code password_reset email) s.cache) in
              let final : Accounts = record s {
                users = update_user u.id (with_password django new_password) s.users;
                blacklisted_tokens =
                    blacklist (tokens_of u.id s.outstanding_tokens) s.blacklisted_tokens;
                cache = cleaned;
              } in
              let done : Path (Result (Unit {0}) × Accounts) (ok tt, final) (ok tt, s') =
                rw (known, active, own, valid) at h in
              let same : final ≡ s' = ap (λ q. q.1) done in
              rw (← same) (
                few,
                (v, saved, right),
                λ later. code_after_attempts later email s.cache,
                λ later. ap attempts_in (
                    cache_get-cache_delete later (key email_code_attempts password_reset email)
                      (cache_delete (key email_code password_reset email) s.cache)),
                u,
                known,
                active,
                own,
                valid,
                refl,
                λ t listed.
                    blacklist_all t (tokens_of u.id s.outstanding_tokens) s.blacklisted_tokens
                      listed,
              )
        ]
      ]
    ]
  ]

  -- A reset that returns had the saved code of the address, unexpired, with fewer than five failed
  -- attempts, for an active user with a password and a valid new one. The password of that row
  -- is then the new one, code and count of attempts are gone at every later time, so that the
  -- code cannot be used twice, and every refresh token of the user is blacklisted.
  pub reset_user_password-IsReset :
      reset_user_password django now email code new_password s ≡ (ok tt, s')
      → IsReset django now email code new_password s s'
  unfolding reset_user_password verify_code fail_attempt after_user
  reset_user_password-IsReset h =
      let attempts = attempts_of now email s in
      elim (Bool-cases (leb email_code_verify_max_attempts attempts)) [
        | inl e ↦ absurd (clash (rw e at h))
        | inr few ↦ elim (Option-cases (saved_code now password_reset email s)) [
          | inl e ↦ absurd (clash (rw (few, e) at h))
          | inr (v, saved) ↦ elim (Bool-cases (digests v code)) [
            | inr e ↦ absurd (clash (rw (few, saved, e) at h))
            | inl plain ↦ elim (Bool-cases (is_code v code)) [
              | inr e ↦ absurd (clash (rw (few, saved, plain, e) at h))
              | inl right ↦
                  after_code v saved right (ground arith) (rw (few, saved, plain, right) at h)
            ]
          ]
        ]
      ]
