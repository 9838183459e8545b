-- ===== src/Accounts/Restore.antt =====
-- Restoring a deleted account lets its owner log in again, and nobody else.
use gechu_backend.Base.{
  ℕ, ◌+◌, ◌*◌, ◌≡◌, refl, ◌≤◌, true, false, some, String, string_eq, List, [], ◌∷◌, elem, arith,
  Bool-cases, Option-cases, inl, inr,
}
use gechu_backend.Core.Errors.{Result, ok, err}
use gechu_backend.Models.User.{User as UserRow}
use gechu_backend.Accounts.Reset.{blacklist_all}
use gechu_backend.Accounts.{
  second, Accounts, Django, user_by_email, is_deactivated, check_password, authenticate_user,
  update_user, tokens_of, restored, after_deadline, restore_user_account,
}

pub user_by_email-update_user :
    (email : String) (f : UserRow → UserRow) (users : List UserRow) (u : UserRow)
    → ((v : UserRow) → (f v).email ≡ v.email)
    → user_by_email email users ≡ some u
    → user_by_email email (update_user u.id f users) ≡ some (f u)
unfolding user_by_email update_user
user_by_email-update_user email f [] u keeps h = cc
user_by_email-update_user email f (v ∷ users) u keeps h =
    elim (Bool-cases (string_eq email v.email)) [
      | inl e ↦
          let found : some v ≡ some u = rw e at h in
          let same : v ≡ u = cc in rw (← same) (ground (arith, keeps v))
      | inr e ↦ ground (arith, keeps v, user_by_email-update_user email f users u keeps (rw e at h))
    ]

-- How an attempt to log in ends.
abbrev pub IsAuthenticated :
    Django → String → String → Accounts → Result UserRow × Accounts → Type 0
IsAuthenticated django email password s (ok u, s') =
    (s' ≡ s)
    × (user_by_email email s.users ≡ some u)
    × (is_deactivated u ≡ false)
    × (check_password django password u ≡ true)
IsAuthenticated django email password s (err e, s') = s' ≡ s

-- A login never changes anything, and it succeeds only for the row of the address, when that user
-- is active and not deleted and the password fits its hash.
pub authenticate_user-IsAuthenticated :
    (django : Django) (email password : String) (s : Accounts)
    → IsAuthenticated django email password s (authenticate_user django email password s)
unfolding authenticate_user
authenticate_user-IsAuthenticated django email password s =
    elim (Option-cases (user_by_email email s.users)) [
      | inl e ↦ rw e refl
      | inr (u, known) ↦ elim (Bool-cases (is_deactivated u)) [
        | inl e ↦ rw (known, e) refl
        | inr active ↦ elim (Bool-cases (check_password django password u)) [
          | inl right ↦ rw (known, active, right) (refl, known, active, right)
          | inr wrong ↦ rw (known, active, wrong) refl
        ]
      ]
    ]

restored-is_deactivated : (u : UserRow) → is_deactivated (restored u) ≡ false
unfolding is_deactivated
restored-is_deactivated u = refl

-- How a restoration ends: with an error and nothing changed, or with the account deleted no later
-- than the retention before now, from which its owner logs in, and every old refresh token listed.
abbrev pub IsRestored :
    Django → ℕ → ℕ → String → String → Accounts → Result (Unit {0}) × Accounts → Type 0
IsRestored django retention_days now email password s (err e, s') = s' ≡ s
IsRestored django retention_days now email password s (ok done, s') =
    (u : UserRow) × (user_by_email email s.users ≡ some u)
    × ((deleted_at : ℕ) × (u.deleted_at ≡ some deleted_at)
        × (now ≤ deleted_at + retention_days * (24 * 60 * 60 * second)))
    × (authenticate_user django email password s' ≡ (ok (restored u), s'))
    × ((t : ℕ)
        → elem t (tokens_of u.id s.outstanding_tokens) ≡ true
        → elem t s'.blacklisted_tokens ≡ true)

-- A restoration that fails changes nothing. One that returns was for an account that was deleted and
-- whose retention has not passed; with the same address and password a login then returns the
-- restored user, and every refresh token from before is blacklisted.
pub restore_user_account-IsRestored :
    (django : Django) (retention_days now : ℕ) (email password : String) (s : Accounts)
    → IsRestored django retention_days now email password s
        (restore_user_account django retention_days now email password s)
unfolding restore_user_account authenticate_user
restore_user_account-IsRestored django retention_days now email password s =
    elim (Option-cases (user_by_email email s.users)) [
      | inl e ↦ rw e refl
      | inr (u, known) ↦ elim (Bool-cases (check_password django password u)) [
        | inr wrong ↦ rw (known, wrong) refl
        | inl right ↦ elim (Option-cases u.deleted_at) [
          | inl e ↦ rw (known, right, e) refl
          | inr (deleted_at, gone) ↦
              elim (Bool-cases (after_deadline now retention_days deleted_at)) [
                | inl late ↦ rw (known, right, gone, late) refl
                | inr early ↦
                    let found =
                      user_by_email-update_user email restored s.users u (λ v. refl) known in
                    rw (known, right, gone, early)
                      (
                        u,
                        known,
                        (deleted_at, gone, ground arith),
                        rw (found, restored-is_deactivated u, right) refl,
                        λ t listed.
                            blacklist_all t (tokens_of u.id s.outstanding_tokens)
                              s.blacklisted_tokens listed,
                      )
              ]
        ]
      ]
    ]
