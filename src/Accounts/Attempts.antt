-- ===== src/Accounts/Attempts.antt =====
-- Failed attempts at a reset are counted, and the fifth closes the reset.
use gechu_backend.Base.{
  ℕ, ◌+◌, ◌*◌, ◌≡◌, refl, ◌∙◌, ap, ◌≤◌, ◌<◌, true, false, none, some, String, List, [], ◌∷◌, arith,
  leb, Bool-cases, Option-cases, inl, inr,
}
use gechu_backend.Core.Errors.{api, invalid_code, too_many_requests, err}
use gechu_backend.Accounts.Cache.{
  password_reset, email_code, email_code_attempts, key, Value, number, Entry, cache_get, cache_set,
  cache_delete, key_eq, cache_get-cache_delete, cache_get-cache_set,
}
use gechu_backend.Accounts.{
  second, email_code_verify_max_attempts, email_code_verify_block_seconds, Accounts, Django,
  saved_code, is_code, digests, attempts_in, attempts_of, count_attempt, fail_attempt, verify_code,
  reset_user_password,
}

-- The saved code, if there is one, is another one, of plain characters like the one given.
abbrev pub IsWrong : ℕ → String → String → Accounts → Type 0
IsWrong now email code s =
    (v : Value)
    → saved_code now password_reset email s ≡ some v
    → (digests v code ≡ true) × (is_code v code ≡ false)

reset_user_password_wrong_lem :
    (django : Django) (now : ℕ) (email code new_password : String) (s : Accounts)
    → attempts_of now email s < email_code_verify_max_attempts
    → IsWrong now email code s
    → reset_user_password django now email code new_password s ≡ (
      err (api invalid_code),
      record s { cache = count_attempt now email (attempts_of now email s + 1) s.cache },
    )
unfolding reset_user_password verify_code fail_attempt
reset_user_password_wrong_lem django now email code new_password s few wrong =
    let open_yet : leb email_code_verify_max_attempts (attempts_of now email s) ≡ false =
      ground arith in
    elim (Option-cases (saved_code now password_reset email s)) [
      | inl e ↦ rw (open_yet, e) refl
      | inr (v, saved) ↦
          let (plain, differs) = wrong v saved in rw (open_yet, saved, plain, differs) refl
    ]

reset_user_password_blocked :
    (django : Django) (now : ℕ) (email code new_password : String) (s : Accounts)
    → email_code_verify_max_attempts ≤ attempts_of now email s
    → reset_user_password django now email code new_password s ≡ (err (api too_many_requests), s)
unfolding reset_user_password
reset_user_password_blocked django now email code new_password s many =
    let closed : leb email_code_verify_max_attempts (attempts_of now email s) ≡ true =
      ground arith in
    rw closed refl

attempts_past_code :
    (later : ℕ) (email : String) (cache : List Entry)
    → cache_get later
        (key email_code_attempts password_reset email)
        (cache_delete (key email_code password_reset email) cache)
      ≡ cache_get later (key email_code_attempts password_reset email) cache
unfolding cache_get cache_delete key_eq
attempts_past_code later email [] = refl
attempts_past_code later email (e ∷ cache) = ground (arith, attempts_past_code later email cache)

module _ (later : ℕ) (email : String) (cache : List Entry) where
  attempts-count_attempt :
      (now n : ℕ)
      → later < now + email_code_verify_block_seconds * second
      → attempts_in (
          cache_get later
            (key email_code_attempts password_reset email)
            (count_attempt now email n cache))
        ≡ n
  attempts-count_attempt now n early =
      let until = now + email_code_verify_block_seconds * second in
      let attempts_key = key email_code_attempts password_reset email in
      let stored =
        ap attempts_in (cache_get-cache_set later attempts_key (number n) until cache early) in
      elim (Bool-cases (leb email_code_verify_max_attempts n)) [
        | inr e ↦ rw e stored
        | inl e ↦ rw e (
            ap attempts_in
              (attempts_past_code later email (cache_set attempts_key (number n) until cache))
            ∙ stored)
      ]

-- A wrong code, with fewer than five failed attempts before, is refused as invalid: nothing but the
-- cache changes, and for twenty minutes the count stands at one more. If it was the fifth, the
-- code is gone, and every attempt in that time, with the right code or not, is refused as too
-- many and changes nothing.
pub reset_user_password_wrong :
    (django : Django) (now : ℕ) (email code new_password : String) (s : Accounts)
    → attempts_of now email s < email_code_verify_max_attempts
    → IsWrong now email code s
    → let (result, s') = reset_user_password django now email code new_password s in
      let until = now + email_code_verify_block_seconds * second in
      (result ≡ err (api invalid_code))
      × (s' ≡ record s { cache = s'.cache })
      × ((later : ℕ) → later < until → attempts_of later email s' ≡ attempts_of now email s + 1)
      × (attempts_of now email s ≡ 4
          → ((later : ℕ) → saved_code later password_reset email s' ≡ none)
            × ((later : ℕ) (guess other_password : String)
                → later < until
                → reset_user_password django later email guess other_password s'
                  ≡ (err (api too_many_requests), s')))
reset_user_password_wrong django now email code new_password s few wrong =
    let n = attempts_of now email s in
    let s' : Accounts = record s { cache = count_attempt now email (n + 1) s.cache } in
    let until = now + email_code_verify_block_seconds * second in
    let counted : (later : ℕ) → later < until → attempts_of later email s' ≡ n + 1 =
      λ later early. attempts-count_attempt later email s.cache now (n + 1) early in
    rw (reset_user_password_wrong_lem django now email code new_password s few wrong) (
      refl,
      refl,
      counted,
      λ fourth. (
        λ later.
            let fifth : leb email_code_verify_max_attempts (n + 1) ≡ true = ground arith in
            rw fifth (
              cache_get-cache_delete later (key email_code password_reset email) (
                cache_set (key email_code_attempts password_reset email) (number (n + 1)) until
                  s.cache)),
        λ later guess other_password early.
            let now_many = counted later early in
            reset_user_password_blocked django later email guess other_password s' (omega arith),
      ),
    )
