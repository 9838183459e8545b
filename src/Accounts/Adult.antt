-- ===== src/Accounts/Adult.antt =====
-- apps/users/services/adult_verification_service.py: the adult verification by BBaton. Times are
-- microseconds, the day and the time of a call are arguments.
pub mod Year
pub mod Outcome
use gechu_backend.Base.{
  ℕ, zero, suc, ◌+◌, ◌*◌, Bool, true, false, not, ◌&&◌, ◌||◌, Option, none, some, String, string_eq,
  List, [], ◌∷◌, ◌++◌, map, filter, first, any, leb, ltb, ◌==◌, if◌then◌else◌,
}
use gechu_backend.Core.Errors.{
  Error, api, invalid_state, user_not_found, already_verified, underage, verification_already_used,
  adult_verification_callback_error, server_error, account_deactivated, other, Result, ok, err,
}
use gechu_backend.Core.Exec.{
  Exec, pure, raise, lift, gets, modify, or_raise, raise_if, atomic, ◌>>=◌, ◌>>◌,
}
use gechu_backend.Models.User.{User as UserRow, Date}
use gechu_backend.Accounts.{second, is_deactivated, is_some, update_user}
use Year.{year_of}

-- `adult_verification_state:{state}`, a user's id until a time
pub record StateEntry : Type 0 where
  pub state : String
  pub user_id : ℕ
  pub until : ℕ

-- AdultVerification rows; BBATON is the one provider.
pub record AdultVerification : Type 0 where
  pub user_id : ℕ
  pub provider_uid : String
  pub verified_at : ℕ
  pub expires_at : ℕ

pub record Adults : Type 0 where
  pub users : List UserRow
  pub states : List StateEntry
  pub verifications : List AdultVerification

abbrev pub state_ttl_seconds : ℕ
state_ttl_seconds = 300

abbrev pub ttl_days : ℕ
ttl_days = 365

-- What BBaton answers about a code: a token, a payload with no text for it, or a failed request
pub data TokenReply : Type 0 where
  token : String → TokenReply
  no_token no_answer : TokenReply

-- The value of a key of its user info
pub data Value : Type 0 where
  absent not_text : Value
  text : String → Value

pub data InfoReply : Type 0 where
  info : Value → Value → Value → InfoReply
  not_an_object no_info : InfoReply

-- The settings, each a text that may be missing or empty, and the provider
pub record Bbaton : Type 0 where
  pub authorize_url : Option String
  pub client_id : Option String
  pub client_secret : Option String
  pub redirect_uri : Option String
  pub token_url : Option String
  pub user_info_url : Option String
  pub request_token : String → TokenReply
  pub request_info : String → InfoReply

abbrev pub is_set : Option String → Bool
is_set none = false
is_set (some s) = not (string_eq s "")

abbrev pub all_set : List (Option String) → Bool
all_set [] = true
all_set (o ∷ os) = is_set o && all_set os

module _ {S : Type 0} where
  -- `_get_bbaton_config`
  abbrev pub need_config : List (Option String) → Exec S (Unit {0})
  need_config keys = raise_if (not (all_set keys)) (api server_error)

  abbrev pub token_of : TokenReply → Exec S String
  token_of (token t) = pure t
  token_of no_token = raise (api adult_verification_callback_error)
  token_of no_answer = raise (api adult_verification_callback_error)

  abbrev pub birth_year_of : Value → Exec S (Option String)
  birth_year_of absent = pure none
  birth_year_of (text year) = pure (some year)
  birth_year_of not_text = raise (api adult_verification_callback_error)

  -- `_extract_bbaton_verification_data`
  abbrev pub extract : Value → Value → Value → Exec S (String × String × Option String)
  extract (text uid) (text flag) year = birth_year_of year >>= λ y. pure (uid, flag, y)
  extract (text uid) absent year = raise (api adult_verification_callback_error)
  extract (text uid) not_text year = raise (api adult_verification_callback_error)
  extract absent flag year = raise (api adult_verification_callback_error)
  extract not_text flag year = raise (api adult_verification_callback_error)

  abbrev pub info_of : InfoReply → Exec S (String × String × Option String)
  info_of (info uid flag year) = extract uid flag year
  info_of not_an_object = raise (api adult_verification_callback_error)
  info_of no_info = raise (api adult_verification_callback_error)

  unfoldable pub request_bbaton_access_token : Bbaton → String → Exec S String
  request_bbaton_access_token b code =
      need_config (b.token_url ∷ b.client_id ∷ b.client_secret ∷ b.redirect_uri ∷ [])
      >> token_of (b.request_token code)

  unfoldable pub request_bbaton_user_info :
      Bbaton → String → Exec S (String × String × Option String)
  request_bbaton_user_info b access_token =
      need_config (b.user_info_url ∷ []) >> info_of (b.request_info access_token)

unfoldable pub find_state : ℕ → String → List StateEntry → Option ℕ
find_state now state [] = none
find_state now state (e ∷ entries) =
    if string_eq state e.state
    then (if ltb now e.until then some e.user_id else none)
    else find_state now state entries

unfoldable pub delete_state : String → List StateEntry → List StateEntry
delete_state state entries = filter (λ e. not (string_eq state e.state)) entries

-- The state that a user is sent to BBaton with; `state` is the random one.
unfoldable pub initiate_adult_verification : Bbaton → ℕ → String → ℕ → Exec Adults String
initiate_adult_verification b now state user =
    need_config (b.authorize_url ∷ b.client_id ∷ b.redirect_uri ∷ [])
    >> (modify (λ s. record s {
      states =
          record { state = state; user_id = user; until = now + state_ttl_seconds * second }
          ∷ delete_state state s.states;
    })
        >> pure state)

abbrev pub user_by_id : ℕ → List UserRow → Option UserRow
user_by_id id users = first (filter (λ u. id == u.id) users)

abbrev pub before_expiry : ℕ → Option ℕ → Bool
before_expiry now none = false
before_expiry now (some expires_at) = ltb now expires_at

unfoldable pub is_adult_verification_valid : ℕ → UserRow → Bool
is_adult_verification_valid now u =
    u.is_adult_verified && before_expiry now u.adult_verification_expires_at

-- `(today.month, today.day) < (birth_date.month, birth_date.day)`
abbrev pub is_before_in_year : Date → Date → Bool
is_before_in_year a b = ltb a.month b.month || (a.month == b.month && ltb a.day b.day)

abbrev pub over_18_by_date : Date → Date → Bool
over_18_by_date today birth =
    leb (birth.year + 18 + (if is_before_in_year today birth then 1 else 0)) today.year

abbrev pub by_year_or : Option ℕ → Date → Bool → Bool
by_year_or none today other_way = other_way
by_year_or (some year) today other_way = leb (year + 18) today.year

abbrev pub year_in : Option String → Option ℕ
year_in none = none
year_in (some s) = year_of s

unfoldable pub is_over_18 : Date → Date → Option String → Bool
is_over_18 today birth birth_year =
    by_year_or (year_in birth_year) today (over_18_by_date today birth)

abbrev pub is_used_by_other : ℕ → String → List AdultVerification → Bool
is_used_by_other user uid rows =
    any (λ v. string_eq uid v.provider_uid && not (user == v.user_id)) rows

abbrev pub expiry : ℕ → ℕ
expiry now = now + ttl_days * (24 * 3600) * second

abbrev pub verified : ℕ → UserRow → UserRow
verified now u = record u {
  is_adult_verified = true;
  adult_verified_at = some now;
  adult_verification_expires_at = some (expiry now);
}

abbrev pub new_verification : ℕ → ℕ → String → AdultVerification
new_verification now user uid = record {
  user_id = user;
  provider_uid = uid;
  verified_at = now;
  expires_at = expiry now;
}

unfoldable pub record_verification : ℕ → ℕ → String → Exec Adults (Unit {0})
record_verification now user uid = modify (λ s. record s {
  users = update_user user (verified now) s.users;
  verifications = s.verifications ++ new_verification now user uid ∷ [];
})

-- From the answers of BBaton on
unfoldable pub verify : Date → ℕ → UserRow → String × String × Option String → Exec Adults ℕ
verify today now user answered = do
  raise_if (not (string_eq answered.1 "Y" && is_over_18 today user.birth_date answered.2))
      (api underage)
  used ← gets (λ s. is_used_by_other user.id answered.0 s.verifications)
  raise_if used (api verification_already_used)
  record_verification now user.id answered.0
  pure now

-- The row's `raw_payload` is left out. The result is the time of the verification.
unfoldable pub complete_adult_verification : Bbaton → Date → ℕ → String → String → Exec Adults ℕ
complete_adult_verification b today now code state = do
  found ← gets (λ s. find_state now state s.states)
  user_id ← or_raise found (api invalid_state)
  modify (λ s. record s { states = delete_state state s.states })
  row ← gets (λ s. user_by_id user_id s.users)
  user ← or_raise row (api user_not_found)
  raise_if (is_deactivated user) (api account_deactivated)
  raise_if (is_adult_verification_valid now user) (api already_verified)
  access_token ← request_bbaton_access_token b code
  answered ← request_bbaton_user_info b access_token
  verify today now user answered

pub record VerificationStatus : Type 0 where
  pub is_adult_verified : Bool
  pub adult_verified_at : Option ℕ
  pub adult_verified_until : Option ℕ

unfoldable pub get_adult_verification_status : ℕ → UserRow → VerificationStatus
get_adult_verification_status now u = record {
  is_adult_verified = is_adult_verification_valid now u;
  adult_verified_at = u.adult_verified_at;
  adult_verified_until = u.adult_verification_expires_at;
}
