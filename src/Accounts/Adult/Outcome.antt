-- ===== src/Accounts/Adult/Outcome.antt =====
-- How an adult verification ends: complete_adult_verification of
-- apps/users/services/adult_verification_service.py.
use gechu_backend.Base.{
  ◌≡◌, refl, ap, ◌∙◌, subst, ℕ, ==_iff, ◌==◌, Bool, true, false, ◌&&◌, Option, none, some, String,
  string_eq, List, [], ◌∷◌, ◌++◌, arith, Bool-cases, Option-cases, inl, inr,
}
use gechu_backend.Base.Keys.{string_eq_iff}
use gechu_backend.Core.Errors.{Result, ok, err}
use gechu_backend.Core.Exec.{Exec, continue, ◌>>=◌, ◌>>◌}
use gechu_backend.Models.User.{User as UserRow, Date}
use gechu_backend.Accounts.{is_deactivated, update_user}
use gechu_backend.Accounts.Adult.{
  StateEntry, Adults, TokenReply, token, no_token, no_answer, Value, absent, text, not_text,
  InfoReply, info, not_an_object, no_info, Bbaton, all_set, need_config, birth_year_of, extract,
  info_of, token_of, request_bbaton_access_token, request_bbaton_user_info, find_state,
  delete_state, user_by_id, is_adult_verification_valid, is_over_18, is_used_by_other, verified,
  new_verification, record_verification, verify, complete_adult_verification,
}

-- A deleted state is not found again.
find_state-delete_state :
    (now : ℕ) (state : String) (entries : List StateEntry)
    → find_state now state (delete_state state entries) ≡ none
unfolding find_state delete_state
find_state-delete_state now state [] = refl
find_state-delete_state now state (e ∷ entries) =
    ground (arith, find_state-delete_state now state entries)

-- A step that writes nothing
abbrev Reads : {A : Type 0} → Exec Adults A → Type 0
Reads m = (s : Adults) → (m s).1 ≡ s

birth_year_of-Reads : (v : Value) → Reads (birth_year_of v)
birth_year_of-Reads absent s = refl
birth_year_of-Reads (text y) s = refl
birth_year_of-Reads not_text s = refl

extract-Reads : (uid flag year : Value) → Reads (extract uid flag year)
extract-Reads (text uid) (text flag) absent s = refl
extract-Reads (text uid) (text flag) (text y) s = refl
extract-Reads (text uid) (text flag) not_text s = refl
extract-Reads (text uid) absent year s = refl
extract-Reads (text uid) not_text year s = refl
extract-Reads absent flag year s = refl
extract-Reads not_text flag year s = refl

info_of-Reads : (r : InfoReply) → Reads (info_of r)
info_of-Reads (info uid flag year) s = extract-Reads uid flag year s
info_of-Reads not_an_object s = refl
info_of-Reads no_info s = refl

token_of-Reads : (r : TokenReply) → Reads (token_of r)
token_of-Reads (token t) s = refl
token_of-Reads no_token s = refl
token_of-Reads no_answer s = refl

need_config-Reads :
    {A : Type 0} (keys : List (Option String)) (m : Exec Adults A)
    → Reads m
    → Reads (need_config keys >> m)
need_config-Reads keys m h s = elim (Bool-cases (all_set keys)) [
  | inl set ↦ rw set (h s)
  | inr unset ↦ rw unset refl
]

request_token-Reads : (b : Bbaton) (code : String) → Reads (request_bbaton_access_token b code)
unfolding request_bbaton_access_token
request_token-Reads b code =
    need_config-Reads (b.token_url ∷ b.client_id ∷ b.client_secret ∷ b.redirect_uri ∷ [])
      (token_of (b.request_token code)) (token_of-Reads (b.request_token code))

request_info-Reads : (b : Bbaton) (t : String) → Reads (request_bbaton_user_info b t)
unfolding request_bbaton_user_info
request_info-Reads b t =
    need_config-Reads (b.user_info_url ∷ []) (info_of (b.request_info t))
      (info_of-Reads (b.request_info t))

-- The year of birth that an answer of BBaton names, if it names one
abbrev pub year_text : Value → Option String
year_text absent = none
year_text not_text = none
year_text (text year) = some year

-- What BBaton answered for the code: an identity, the flag and the year
abbrev pub Answered : Bbaton → String → String → String → Option String → Type 0
Answered b code uid adult_flag birth_year =
    (access_token : String) × (year : Value) × (b.request_token code ≡ token access_token)
    × (b.request_info access_token ≡ info (text uid) (text adult_flag) year)
    × (birth_year ≡ year_text year)

-- What a reply says, where a token or the data is taken from it
abbrev TellsToken : TokenReply → Result String → Type 0
TellsToken r (ok t) = r ≡ token t
TellsToken r (err e) = Unit

abbrev TellsInfo : InfoReply → Result (String × String × Option String) → Type 0
TellsInfo r (ok (uid, adult_flag, birth_year)) =
    (year : Value) × (r ≡ info (text uid) (text adult_flag) year) × (birth_year ≡ year_text year)
TellsInfo r (err e) = Unit

token_of-TellsToken : (r : TokenReply) (s : Adults) → TellsToken r (token_of r s).0
token_of-TellsToken (token t) s = refl
token_of-TellsToken no_token s = tt
token_of-TellsToken no_answer s = tt

info_of-TellsInfo : (r : InfoReply) (s : Adults) → TellsInfo r (info_of r s).0
info_of-TellsInfo (info (text uid) (text adult_flag) absent) s = (absent, refl, refl)
info_of-TellsInfo (info (text uid) (text adult_flag) (text y)) s = (text y, refl, refl)
info_of-TellsInfo (info (text uid) (text adult_flag) not_text) s = tt
info_of-TellsInfo (info (text uid) absent year) s = tt
info_of-TellsInfo (info (text uid) not_text year) s = tt
info_of-TellsInfo (info absent adult_flag year) s = tt
info_of-TellsInfo (info not_text adult_flag year) s = tt
info_of-TellsInfo not_an_object s = tt
info_of-TellsInfo no_info s = tt

request_token-TellsToken :
    (b : Bbaton) (code : String) (s : Adults)
    → TellsToken (b.request_token code) (request_bbaton_access_token b code s).0
unfolding request_bbaton_access_token
request_token-TellsToken b code s =
    elim (Bool-cases
      (all_set (b.token_url ∷ b.client_id ∷ b.client_secret ∷ b.redirect_uri ∷ []))) [
        | inl set ↦ rw set (token_of-TellsToken (b.request_token code) s)
        | inr unset ↦ rw unset tt
      ]

request_info-TellsInfo :
    (b : Bbaton) (t : String) (s : Adults)
    → TellsInfo (b.request_info t) (request_bbaton_user_info b t s).0
unfolding request_bbaton_user_info
request_info-TellsInfo b t s = elim (Bool-cases (all_set (b.user_info_url ∷ []))) [
  | inl set ↦ rw set (info_of-TellsInfo (b.request_info t) s)
  | inr unset ↦ rw unset tt
]

module _ (b : Bbaton) (code : String) (today : Date) (now : ℕ) (state : String) (s : Adults) where
  -- The account whose state it was, and its new verification
  abbrev IsVerified : UserRow → String → Adults → Type 0
  IsVerified u uid s' =
      (find_state now state s.states ≡ some u.id)
      × (user_by_id u.id s.users ≡ some u)
      × (is_deactivated u ≡ false)
      × (is_adult_verification_valid now u ≡ false)
      × ((birth_year : Option String) × Answered b code uid "Y" birth_year
          × (is_over_18 today u.birth_date birth_year ≡ true))
      × (is_used_by_other u.id uid s.verifications ≡ false)
      × (s'.users ≡ update_user u.id (verified now) s.users)
      × (s'.verifications ≡ s.verifications ++ new_verification now u.id uid ∷ [])

  abbrev pub IsCompleted : Result ℕ × Adults → Type 0
  IsCompleted (err e, s') =
      (s'.users ≡ s.users)
      × (s'.verifications ≡ s.verifications)
      × (find_state now state s'.states ≡ none)
  IsCompleted (ok t, s') =
      (t ≡ now)
      × ((u : UserRow) × (uid : String) × IsVerified u uid s')
      × (find_state now state s'.states ≡ none)

  abbrev used_up : Adults
  used_up = record s { states = delete_state state s.states }

  module _ (u : UserRow) (found : find_state now state s.states ≡ some u.id)
      (there : user_by_id u.id s.users ≡ some u) (active : is_deactivated u ≡ false)
      (expired : is_adult_verification_valid now u ≡ false) where
    verify-IsCompleted :
        (answered : String × String × Option String) (s1 : Adults)
        → s1 ≡ used_up
        → Answered b code answered.0 answered.1 answered.2
        → IsCompleted (verify today now u answered s1)
    unfolding verify record_verification
    verify-IsCompleted answered s1 same told =
        rw same
          (elim (Bool-cases
            (string_eq answered.1 "Y" && is_over_18 today u.birth_date answered.2)) [
              | inr no_adult ↦ rw no_adult (refl, refl, gone)
              | inl adult ↦ elim (Bool-cases (is_used_by_other u.id answered.0 s.verifications)) [
                | inl used ↦ rw (adult, used) (refl, refl, gone)
                | inr free ↦
                    let (flagged, old) = both_true (string_eq answered.1 "Y") _ adult in
                    let yes = (string_eq_iff answered.1 "Y").0 flagged in
                    let told' = subst (λ y. Answered b code answered.0 y answered.2) yes told in
                    rw (adult, free)
                      (
                        refl,
                        (
                          u,
                          answered.0,
                          (
                            found,
                            there,
                            active,
                            expired,
                            (answered.2, told', old),
                            free,
                            refl,
                            refl,
                          ),
                        ),
                        gone,
                      )
              ]
            ])
      where
        gone : find_state now state (delete_state state s.states) ≡ none
        gone = find_state-delete_state now state s.states

        both_true : (a b : Bool) → (a && b) ≡ true → (a ≡ true) × (b ≡ true)
        both_true true b h = (refl, h)
        both_true false b h = cc

    answered-IsCompleted :
        (t : String) (r : Result (String × String × Option String) × Adults)
        → r.1 ≡ used_up
        → b.request_token code ≡ token t
        → TellsInfo (b.request_info t) r.0
        → IsCompleted (continue r (verify today now u))
    answered-IsCompleted t (err e, s1) same given told =
        rw same (refl, refl, find_state-delete_state now state s.states)
    answered-IsCompleted t (ok (uid, adult_flag, birth_year), s1) same given (year, replied, read) =
        verify-IsCompleted (uid, adult_flag, birth_year) s1 same (t, year, given, replied, read)

    token-IsCompleted :
        (r : Result String × Adults)
        → r.1 ≡ used_up
        → TellsToken (b.request_token code) r.0
        → IsCompleted (continue r (λ t. request_bbaton_user_info b t >>= verify today now u))
    token-IsCompleted (err e, s1) same given =
        rw same (refl, refl, find_state-delete_state now state s.states)
    token-IsCompleted (ok t, s1) same given =
        answered-IsCompleted t (request_bbaton_user_info b t s1) (request_info-Reads b t s1 ∙ same)
          given (request_info-TellsInfo b t s1)

user_by_id-id :
    (id : ℕ) (users : List UserRow) (u : UserRow) → user_by_id id users ≡ some u → id ≡ u.id
user_by_id-id id [] u h = cc
user_by_id-id id (v ∷ users) u h = elim (Bool-cases (id == v.id)) [
  | inl same ↦
      let h' : some v ≡ some u = rw same at h in
      let e : v ≡ u = cc in (==_iff id v.id).0 same ∙ ap (λ w. w.id) e
  | inr differs ↦ user_by_id-id id users u (rw differs at h)
]

-- A verification that fails changes no account and records no verification. One that succeeds had a
-- kept state that was given out to the account, which is active and was not verified at the time.
-- BBaton then answered for the code with an identity, which no other account has used, and with the
-- flag Y, and the account is 18 or older by the year of birth in that answer, or by its own date of
-- birth where the answer has no year that can be read; the account is marked as verified from now
-- for 365 days, and the verification is recorded. Either way the state is used up.
pub complete_adult_verification-IsCompleted :
    (b : Bbaton) (today : Date) (now : ℕ) (code state : String) (s : Adults)
    → IsCompleted b code today now state s (complete_adult_verification b today now code state s)
unfolding complete_adult_verification
complete_adult_verification-IsCompleted b today now code state s =
    elim (Option-cases (find_state now state s.states)) [
      | inl unknown ↦ rw unknown (refl, refl, unknown)
      | inr (id, known) ↦ elim (Option-cases (user_by_id id s.users)) [
        | inl missing ↦ rw (known, missing) (refl, refl, gone)
        | inr (u, there) ↦ elim (Bool-cases (is_deactivated u)) [
          | inl left ↦ rw (known, there, left) (refl, refl, gone)
          | inr active ↦ elim (Bool-cases (is_adult_verification_valid now u)) [
            | inl valid ↦ rw (known, there, active, valid) (refl, refl, gone)
            | inr expired ↦
                let same = user_by_id-id id s.users u there in
                let known' = subst (λ i. find_state now state s.states ≡ some i) same known in
                let there' = subst (λ i. user_by_id i s.users ≡ some u) same there in
                rw (known, there, active, expired)
                  (token-IsCompleted b code today now state s u known' there' active expired
                    (request_bbaton_access_token b code (used_up b code today now state s))
                    (request_token-Reads b code (used_up b code today now state s))
                    (request_token-TellsToken b code (used_up b code today now state s)))
          ]
        ]
      ]
    ]
  where
    gone : find_state now state (delete_state state s.states) ≡ none
    gone = find_state-delete_state now state s.states
