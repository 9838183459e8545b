-- ===== src/Accounts/Signup.antt =====
-- Sign-up by an emailed code.
use gechu_backend.Base.{
  ℕ, ◌≡◌, refl, true, false, Option, none, some, String, List, [], ◌∷◌, ◌++◌, arith, Bool-cases,
  Option-cases, inl, inr,
}
use gechu_backend.Core.Errors.{Result, ok, err}
use gechu_backend.Models.User.{User as UserRow, Date}
use gechu_backend.Accounts.Cache.{
  signup, email_code, email_code_attempts, key, Value, Entry, cache_get, cache_delete, key_eq,
}
use gechu_backend.Accounts.{
  Accounts, Django, user_by_email, has_nickname, is_some, saved_code, is_code, new_user,
  signup_user,
}

code_after_signup :
    (later : ℕ) (email : String) (cache : List Entry)
    → cache_get later (key email_code signup email) (
        cache_delete
          (key email_code_attempts signup email)
          (cache_delete (key email_code signup email) cache))
      ≡ none
unfolding cache_get cache_delete key_eq
code_after_signup later email [] = refl
code_after_signup later email (e ∷ cache) = ground (arith, code_after_signup later email cache)

absent_of_is_some : {A : Type 0} (o : Option A) → is_some o ≡ false → o ≡ none
absent_of_is_some none h = refl
absent_of_is_some (some a) h = cc

-- How a sign-up ends.
abbrev pub IsSignedUp :
    Django
    → ℕ
    → ℕ
    → String
    → String
    → String
    → String
    → Date
    → Accounts
    → Result UserRow × Accounts
    → Type 0
IsSignedUp django now id email code password nickname birth_date s (err e, s') = s' ≡ s
IsSignedUp django now id email code password nickname birth_date s (ok u, s') =
    (u ≡ new_user django id email password nickname birth_date)
    × (s'.users ≡ s.users ++ u ∷ [])
    × (user_by_email email s.users ≡ none)
    × (user_by_email u.email s.users ≡ none)
    × (has_nickname nickname s.users ≡ false)
    × ((v : Value) × (saved_code now signup email s ≡ some v) × (is_code v code ≡ true))
    × (django.is_valid_password password ≡ true)
    × ((later : ℕ) → saved_code later signup email s' ≡ none)

-- A sign-up that fails changes nothing. One that returns had the saved and unexpired code of the
-- address, an address that no row has, neither as given nor in the normal form that is stored, a
-- nickname that no row has, and a valid password; it adds the one row, and the code is gone at every
-- later time.
pub signup_user-IsSignedUp :
    (django : Django) (now id : ℕ) (email code password nickname : String) (birth_date : Date)
    (s : Accounts)
    → IsSignedUp django now id email code password nickname birth_date s
        (signup_user django now id email code password nickname birth_date s)
unfolding signup_user
signup_user-IsSignedUp django now id email code password nickname birth_date s =
    elim (Bool-cases (is_some (user_by_email email s.users))) [
      | inl e ↦ rw e refl
      | inr fresh ↦ elim (Bool-cases (has_nickname nickname s.users)) [
        | inl e ↦ rw (fresh, e) refl
        | inr free ↦ elim (Option-cases (saved_code now signup email s)) [
          | inl e ↦ rw (fresh, free, e) refl
          | inr (v, saved) ↦ elim (Bool-cases (is_code v code)) [
            | inr e ↦ rw (fresh, free, saved, e) refl
            | inl right ↦ elim (Bool-cases (django.is_valid_password password)) [
              | inr e ↦ rw (fresh, free, saved, right, e) refl
              | inl valid ↦
                  let stored = user_by_email (django.normalize_email email) s.users in
                  elim (Bool-cases (is_some stored)) [
                    | inl e ↦ rw (fresh, free, saved, right, valid, e) refl
                    | inr new ↦
                        rw (fresh, free, saved, right, valid, new)
                          (
                            refl,
                            refl,
                            absent_of_is_some (user_by_email email s.users) fresh,
                            absent_of_is_some stored new,
                            free,
                            (v, saved, right),
                            valid,
                            λ later. code_after_signup later email s.cache,
                          )
                  ]
            ]
          ]
        ]
      ]
    ]
