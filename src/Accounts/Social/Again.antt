-- ===== src/Accounts/Social/Again.antt =====
-- The second login of a new account.
use gechu_backend.Base.{
  ℕ, zero, suc, ◌≡◌, refl, sym, ap, subst, true, false, ◌&&◌, ◌||◌, Option, none, some, String,
  string_eq, string_eq_refl, List, [], ◌∷◌, ◌++◌, ◌==◌, ==_iff, Bool-cases, Option-cases, inl, inr,
}
use gechu_backend.Core.Errors.{
  api, integrity_error, data_error, value_error, does_not_exist, igdb_rate_limit, igdb_server_error,
  igdb_not_found, igdb_auth_error, other, Result, ok, err,
}
use gechu_backend.Models.User.{User as UserRow, Date}
use gechu_backend.Games.Text.{is_blank, clip, strip}
use gechu_backend.Accounts.{user_by_email, has_nickname, is_some, is_deactivated}
use gechu_backend.Accounts.Nicknames.{generate_unique_nickname}
use gechu_backend.Accounts.Social.{
  Provider, kakao, discord, provider_eq, SocialUser, Socials, Fresh, Login, add_user, create_user,
  or_retry, create, try_nickname, tries, create_user_with_unique_nickname, find_link, has_link,
  add_link, user_by_id, linked, joined, signed_up, get_or_create_social_user, nickname_max_retries,
}

provider_eq_refl : (p : Provider) → provider_eq p p ≡ true
provider_eq_refl kakao = refl
provider_eq_refl discord = refl

find_link_added :
    (p : Provider) (uid : String) (user : ℕ) (links : List SocialUser)
    → find_link p uid links ≡ none
    → find_link p uid (links ++ record { user_id = user; provider = p; provider_uid = uid } ∷ [])
      ≡ some (record { user_id = user; provider = p; provider_uid = uid })
unfolding find_link
find_link_added p uid user [] h = rw (provider_eq_refl p, string_eq_refl uid) refl
find_link_added p uid user (l ∷ links) h =
    elim (Bool-cases (provider_eq p l.provider && string_eq uid l.provider_uid)) [
      | inl same ↦ absurd (no_some (rw same at h))
      | inr differs ↦ rw differs (find_link_added p uid user links (rw differs at h))
    ]
  where
    no_some : some l ≡ none → ⊥
    no_some e = cc

user_by_id_added :
    (u : UserRow) (users : List UserRow)
    → user_by_id u.id users ≡ none
    → user_by_id u.id (users ++ u ∷ []) ≡ some u
user_by_id_added u [] h = rw ((==_iff u.id u.id).1 refl) refl
user_by_id_added u (v ∷ users) h = elim (Bool-cases (u.id == v.id)) [
  | inl same ↦ absurd (no_some (rw same at h))
  | inr differs ↦ rw differs (user_by_id_added u users (rw differs at h))
]
  where
    no_some : some v ≡ none → ⊥
    no_some e = cc

-- A new account has the new id, is active, and stands last.
abbrev IsNew : Fresh → Socials → UserRow → Socials → Type 0
IsNew fresh s u s' = (u.id ≡ fresh.id) × (is_deactivated u ≡ false) × (s' ≡ add_user u s)

abbrev Creates : Fresh → Socials → Option (Result UserRow × Socials) → Type 0
Creates fresh s none = Unit
Creates fresh s (some (err e, s')) = s' ≡ s
Creates fresh s (some (ok u, s')) = IsNew fresh s u s'

create-Creates :
    (fresh : Fresh) (email : String) (birth_date : Date) (nickname : String) (s : Socials)
    → Creates fresh s (some (create fresh email birth_date nickname s))
unfolding create_user is_deactivated
create-Creates fresh email birth_date nickname s = elim (Bool-cases (is_blank email)) [
  | inl blank ↦ rw blank refl
  | inr given ↦
      elim (Bool-cases (
        is_some (user_by_email (fresh.django.normalize_email email) s.accounts.users)
        || has_nickname nickname s.accounts.users)) [
          | inl taken ↦ rw (given, taken) refl
          | inr free ↦ rw (given, free) (refl, refl, refl)
        ]
]

or_retry-Creates :
    (fresh : Fresh) (s : Socials) (r : Result UserRow × Socials)
    (again : Option (Result UserRow × Socials))
    → Creates fresh s (some r)
    → Creates fresh s again
    → Creates fresh s (or_retry r again)
or_retry-Creates fresh s (ok u, s') again h k = h
or_retry-Creates fresh s (err (api m), s') again h k = h
or_retry-Creates fresh s (err integrity_error, s') again h k = k
or_retry-Creates fresh s (err data_error, s') again h k = h
or_retry-Creates fresh s (err value_error, s') again h k = h
or_retry-Creates fresh s (err does_not_exist, s') again h k = h
or_retry-Creates fresh s (err igdb_rate_limit, s') again h k = h
or_retry-Creates fresh s (err igdb_server_error, s') again h k = h
or_retry-Creates fresh s (err igdb_not_found, s') again h k = h
or_retry-Creates fresh s (err igdb_auth_error, s') again h k = h
or_retry-Creates fresh s (err (other t), s') again h k = h

module _ (fresh : Fresh) (email : String) (birth_date : Date) (s : Socials) where
  try_nickname-Creates :
      (o : Option (String × ℕ)) (rest : ℕ → Option (Result UserRow × Socials))
      → ((n : ℕ) → Creates fresh s (rest n))
      → Creates fresh s (try_nickname fresh email birth_date o s rest)
  try_nickname-Creates none rest h = tt
  try_nickname-Creates (some (nickname, n)) rest h =
      or_retry-Creates fresh s (create fresh email birth_date nickname s) (rest n)
        (create-Creates fresh email birth_date nickname s) (h n)

  tries-Creates : (k n : ℕ) → Creates fresh s (tries fresh email birth_date k n s)
  unfolding tries
  tries-Creates zero n = create-Creates fresh email birth_date fresh.uuid_nickname s
  tries-Creates (suc k) n =
      try_nickname-Creates (generate_unique_nickname fresh.fuel fresh.draws n s.accounts.users)
        (λ m. tries fresh email birth_date k m s) (λ m. tries-Creates k m)

  preferred-Creates :
      (preferred : Option String)
      → Creates fresh s (create_user_with_unique_nickname fresh email birth_date preferred s)
  unfolding create_user_with_unique_nickname
  preferred-Creates none = tries-Creates nickname_max_retries 0
  preferred-Creates (some preferred) = elim (Bool-cases (is_blank (clip 30 (strip preferred)))) [
    | inl blank ↦ rw blank (tries-Creates nickname_max_retries 0)
    | inr given ↦ rw given (
        or_retry-Creates fresh s (create fresh email birth_date (clip 30 (strip preferred)) s)
          (tries fresh email birth_date nickname_max_retries 0 s)
          (create-Creates fresh email birth_date (clip 30 (strip preferred)) s)
          (tries-Creates nickname_max_retries 0))
  ]

module _ (fresh : Fresh) (provider : Provider) (uid email : String) (birth_date : Date) where
  -- A login that makes an account had no account before, by the link or by the address.
  abbrev IsLogin : Socials → Option Login → Type 0
  IsLogin s none = Unit
  IsLogin s (some (err e, s')) = Unit
  IsLogin s (some (ok (u, false), s')) = Unit
  IsLogin s (some (ok (u, true), s')) =
      (find_link provider uid s.links ≡ none)
      × (user_by_email email s.accounts.users ≡ none)
      × (u.id ≡ fresh.id)
      × (is_deactivated u ≡ false)
      × (s' ≡ add_link u.id provider uid (add_user u s))

  signed_up-IsLogin :
      (s : Socials) (r : Option (Result UserRow × Socials))
      → find_link provider uid s.links ≡ none
      → user_by_email email s.accounts.users ≡ none
      → Creates fresh s r
      → IsLogin s (signed_up r provider uid)
  signed_up-IsLogin s none unlinked unknown h = tt
  signed_up-IsLogin s (some (err e, s')) unlinked unknown h = tt
  signed_up-IsLogin s (some (ok u, s')) unlinked unknown h =
      (unlinked, unknown, h.0, h.1, ap (add_link u.id provider uid) h.2)

  joined-IsLogin : (s : Socials) (u : UserRow) → IsLogin s (some (joined u provider uid s))
  joined-IsLogin s u = elim (Bool-cases (is_deactivated u)) [
    | inl left ↦ rw left tt
    | inr active ↦ elim (Bool-cases (has_link u.id provider s.links)) [
      | inl has ↦ rw (active, has) tt
      | inr lacks ↦ rw (active, lacks) tt
    ]
  ]

  linked-IsLogin : (s : Socials) (o : Option UserRow) → IsLogin s (some (linked o s))
  linked-IsLogin s none = tt
  linked-IsLogin s (some u) = elim (Bool-cases (is_deactivated u)) [
    | inl left ↦ rw left tt
    | inr active ↦ rw active tt
  ]

  get_or_create_social_user-IsLogin :
      (preferred : Option String) (s : Socials)
      → IsLogin s (get_or_create_social_user fresh provider uid email birth_date preferred s)
  unfolding get_or_create_social_user
  get_or_create_social_user-IsLogin preferred s =
      elim (Option-cases (find_link provider uid s.links)) [
        | inr (l, there) ↦ rw there (linked-IsLogin s (user_by_id l.user_id s.accounts.users))
        | inl unlinked ↦ elim (Option-cases (user_by_email email s.accounts.users)) [
          | inr (u, known) ↦ rw (unlinked, known) (joined-IsLogin s u)
          | inl unknown ↦
              rw (unlinked, unknown)
                (signed_up-IsLogin s
                  (create_user_with_unique_nickname fresh email birth_date preferred s) unlinked
                  unknown (preferred-Creates fresh email birth_date s preferred))
        ]
      ]

-- When a login of a provider's user has made an account, with an id that no account had, then the
-- next login of the same user at the same provider finds that account and changes nothing, whatever
-- address, nickname and date of birth the provider gives by then.
pub get_or_create_social_user_again :
    (fresh fresh' : Fresh) (provider : Provider) (uid email email' : String)
    (birth_date birth_date' : Date) (preferred preferred' : Option String) (s s' : Socials)
    (u : UserRow)
    → user_by_id fresh.id s.accounts.users ≡ none
    → Path
        (Option Login)
        (get_or_create_social_user fresh provider uid email birth_date preferred s)
        (some (ok (u, true), s'))
    → Path
        (Option Login)
        (get_or_create_social_user fresh' provider uid email' birth_date' preferred' s')
        (some (ok (u, false), s'))
unfolding get_or_create_social_user
get_or_create_social_user_again fresh fresh' provider uid email email' birth_date birth_date'
      preferred preferred' s s' u new first_login =
    let facts : IsLogin fresh provider uid email birth_date s (some (ok (u, true), s')) =
      subst (IsLogin fresh provider uid email birth_date s) first_login
        (get_or_create_social_user-IsLogin fresh provider uid email birth_date preferred s) in
    let new' : user_by_id u.id s.accounts.users ≡ none =
      subst (λ i. user_by_id i s.accounts.users ≡ none) (sym facts.2) new in
    rw
      (
        facts.4,
        find_link_added provider uid u.id s.links facts.0,
        user_by_id_added u s.accounts.users new',
        facts.3,
      )
      refl
