-- ===== src/Tests/Accounts.antt =====
-- Tests of the accounts.
use gechu_backend.Base.{
  Bool, true, false, Option, ◌⊎◌, elem, List, first, ℕ, ◌+◌, ◌*◌, ◌≡◌, refl, ◌<◌, true, false, none,
  some, String, string_eq, string_eq_refl, [], ◌∷◌, arith,
}
use gechu_backend.Core.Errors.{
  invalid_refresh_token, refresh_token_expired, api, account_deactivated, invalid_code,
  too_many_requests, ok, err,
}
use gechu_backend.Models.User.{User as UserRow}
use gechu_backend.Accounts.Cache.{
  password_reset, email_code, email_code_attempts, key, text, number, Entry, cache_get,
  cache_delete, key_eq,
}
use gechu_backend.Accounts.Ascii.{is_ascii}
use gechu_backend.Accounts.{
  second, email_code_verify_block_seconds, Accounts, Django, user_by_email, attempts_of, saved_code,
  reset_user_password, signup_user, authenticate_user, restore_user_account, update_user, tokens_of,
  blacklist, verify_code, is_deactivated, is_social_only,
}
use gechu_backend.Accounts.Reset.{IsReset, reset_user_password-IsReset}
use gechu_backend.Accounts.Attempts.{reset_user_password_wrong}
use gechu_backend.Accounts.Signup.{IsSignedUp, signup_user-IsSignedUp}
use gechu_backend.Accounts.Restore.{IsRestored, restore_user_account-IsRestored}
use gechu_backend.Accounts.Profile.{Changes, delete_user_me}
use gechu_backend.Accounts.Profile.Deletion.{delete_user_me-restore_user_account}
use gechu_backend.Accounts.Searches.{
  holds, save_recent_search_keyword, delete_recent_search_keyword, clear_recent_searches,
}
use gechu_backend.Accounts.Searches.Kept.{IsKept, recent_searches-IsKept}
use gechu_backend.Accounts.Tokens.{
  Parsed, valid, refused, IsRefused, Jwt, Issued, logout_user, refresh_access_token,
}
use gechu_backend.Accounts.Tokens.Rotation.{IsExchanged, refresh_access_token-IsExchanged}
use gechu_backend.Tests.Samples.{sample_user}

-- Passwords that are their own hash.
abbrev pub plain : Django
plain = record {
  make_password = λ password. password;
  check_hash = string_eq;
  check_make = string_eq_refl;
  is_valid_password = λ password. true;
  normalize_email = λ email. email;
}

abbrev owner : UserRow
owner = record sample_user { password = some "old" }

abbrev sent : Entry
sent = record {
  at = key email_code password_reset "a@example.org";
  value = text "123456";
  expires_at = 400000000;
}

abbrev four_failed : Entry
four_failed = record {
  at = key email_code_attempts password_reset "a@example.org";
  value = number 4;
  expires_at = 900000000;
}

abbrev before : Accounts
before = record {
  users = owner ∷ [];
  social_user_ids = [];
  outstanding_tokens = (7, 71) ∷ (8, 81) ∷ (7, 72) ∷ [];
  blacklisted_tokens = 71 ∷ [];
  cache = four_failed ∷ sent ∷ [];
  mails = [];
}

abbrev after : Accounts
after = record before {
  users = record owner { password = some "new" } ∷ [];
  blacklisted_tokens = 71 ∷ 72 ∷ [];
  cache = [];
}

reset_run :
    reset_user_password plain 300000000 "a@example.org" "123456" "new" before ≡ (ok tt, after)
unfolding reset_user_password verify_code user_by_email update_user tokens_of blacklist is_ascii
    is_deactivated is_social_only cache_get cache_delete key_eq
reset_run = refl

reset_user_password-IsReset_example :
    IsReset plain 300000000 "a@example.org" "123456" "new" before after
reset_user_password-IsReset_example =
    reset_user_password-IsReset plain 300000000 "a@example.org" "123456" "new" before after
      reset_run

reset_user_password_wrong_example :
    let (result, s') = reset_user_password plain 300000000 "a@example.org" "654321" "new" before in
    let until = 300000000 + email_code_verify_block_seconds * second in
    (result ≡ err (api invalid_code))
    × (s' ≡ record before { cache = s'.cache })
    × ((later : ℕ)
        → later < until
        → attempts_of later "a@example.org" s' ≡ attempts_of 300000000 "a@example.org" before + 1)
    × (attempts_of 300000000 "a@example.org" before ≡ 4
        → ((later : ℕ) → saved_code later password_reset "a@example.org" s' ≡ none)
          × ((later : ℕ) (guess other_password : String)
              → later < until
              → reset_user_password plain later "a@example.org" guess other_password s'
                ≡ (err (api too_many_requests), s')))
unfolding cache_get key_eq is_ascii
reset_user_password_wrong_example =
    reset_user_password_wrong plain 300000000 "a@example.org" "654321" "new" before (omega arith)
      (λ v saved. let same : text "123456" ≡ v = cc in rw (← same) (refl, refl))

signup_user-IsSignedUp_example :
    IsSignedUp plain 300000000 9 "b@example.org" "123456" "pw" "b" sample_user.birth_date before (
      signup_user plain 300000000 9 "b@example.org" "123456" "pw" "b" sample_user.birth_date before)
signup_user-IsSignedUp_example =
    signup_user-IsSignedUp plain 300000000 9 "b@example.org" "123456" "pw" "b"
      sample_user.birth_date before

abbrev deleted : Accounts
deleted = record before { users = record owner { deleted_at = some 100; is_active = false } ∷ [] }

restore_user_account-IsRestored_example :
    IsRestored plain 7 300000000 "a@example.org" "old" deleted
      (restore_user_account plain 7 300000000 "a@example.org" "old" deleted)
restore_user_account-IsRestored_example =
    restore_user_account-IsRestored plain 7 300000000 "a@example.org" "old" deleted

delete_user_me-restore_user_account_example :
    let (result, s1) = delete_user_me 1000 owner before in
    let (restored_result, s2) = restore_user_account plain 7 2000 "a@example.org" "old" s1 in
    (result ≡ ok tt)
    × ((guess : String)
        → authenticate_user plain "a@example.org" guess s1 ≡ (err (api account_deactivated), s1))
    × (restored_result ≡ ok tt)
    × (authenticate_user plain "a@example.org" "old" s2
        ≡ (ok (record owner { deleted_at = none; is_active = true }), s2))
unfolding user_by_email is_deactivated
delete_user_me-restore_user_account_example =
    delete_user_me-restore_user_account plain 7 1000 2000 "a@example.org" "old" owner before refl
      refl refl (omega arith)

abbrev new_name : Changes
new_name = record { nickname = some "c"; birth_date = none; new_password = some "new" }

abbrev words : List String
words = "zelda" ∷ "mario" ∷ []

recent_searches-IsKept_example :
    IsKept 2 (save_recent_search_keyword 2 owner "tetris" words).1
    × IsKept 2 (delete_recent_search_keyword owner "tetris" words).1
    × IsKept 2 (clear_recent_searches owner words).1
    × (is_deactivated owner ≡ false
        → first (save_recent_search_keyword 2 owner "tetris" words).1 ≡ some "tetris")
    × (is_deactivated owner ≡ false
        → holds "tetris" (delete_recent_search_keyword owner "tetris" words).1 ≡ false)
recent_searches-IsKept_example =
    recent_searches-IsKept 2 owner "tetris" words (λ some_room. omega arith, (refl, (refl, tt)))

-- Every text is token 71 of user 7, until that number is listed.
abbrev parsed_if : Bool → Parsed
parsed_if true = refused false
parsed_if false = valid 71 (some 7)

one_token_law :
    (listed listed' : List ℕ) (jti : ℕ) (user : Option ℕ)
    → parsed_if (elem 71 listed) ≡ valid jti user
    → elem jti listed' ≡ true
    → IsRefused (parsed_if (elem 71 listed'))
one_token_law listed listed' jti user read there = ground arith

abbrev one_token : Jwt
one_token = record {
  read = λ now listed text. parsed_if (elem 71 listed);
  read_listed = λ now later listed listed' text jti user read there.
      one_token_law listed listed' jti user read there;
}

abbrev logged_in : Accounts
logged_in = record before { blacklisted_tokens = [] }

refresh_access_token-IsExchanged_example :
    let (result, s') = refresh_access_token one_token 300000000 73 (some "token") logged_in in
    IsExchanged 73
      (one_token.read 300000000 logged_in.blacklisted_tokens "token")
      logged_in
      (result, s')
    × ((issued : Issued) (later next_jti : ℕ)
        → result ≡ ok issued
        → ((refresh_access_token one_token later next_jti (some "token") s'
              ≡ (err (api invalid_refresh_token), s'))
            ⊎ (refresh_access_token one_token later next_jti (some "token") s'
                ≡ (err (api refresh_token_expired), s')))
          × (logout_user one_token later (some "token") s' ≡ (err (api invalid_refresh_token), s')))
refresh_access_token-IsExchanged_example =
    refresh_access_token-IsExchanged one_token 300000000 73 "token" logged_in
