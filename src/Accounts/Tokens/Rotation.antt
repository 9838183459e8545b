-- ===== src/Accounts/Tokens/Rotation.antt =====
-- A refresh token is good for one exchange.
use gechu_backend.Base.{
  ℕ, ◌≡◌, refl, ◌⊎◌, true, false, none, some, String, [], ◌∷◌, ◌++◌, elem, arith, Bool-cases,
  Option-cases, inl, inr,
}
use gechu_backend.Core.Errors.{api, invalid_refresh_token, refresh_token_expired, Result, ok, err}
use gechu_backend.Models.User.{User as UserRow}
use gechu_backend.Accounts.Reset.{blacklist_all}
use gechu_backend.Accounts.{Accounts, is_deactivated}
use gechu_backend.Accounts.Tokens.{
  Parsed, valid, refused, IsRefused, Jwt, Issued, logout_parsed, logout_user, user_by_id,
  refresh_parsed, refresh_access_token,
}

-- What an exchange has checked and written.
abbrev pub IsExchanged : ℕ → Parsed → Accounts → Result Issued × Accounts → Type 0
IsExchanged new_jti parsed s (err e, s') = s' ≡ s
IsExchanged new_jti parsed s (ok issued, s') =
    (jti id : ℕ) × (u : UserRow) × (parsed ≡ valid jti (some id))
    × (user_by_id id s.users ≡ some u)
    × (is_deactivated u ≡ false)
    × (issued ≡ record { owner = u.id; jti = new_jti })
    × (s'.outstanding_tokens ≡ s.outstanding_tokens ++ (u.id, new_jti) ∷ [])
    × (s'.users ≡ s.users)
    × (elem jti s'.blacklisted_tokens ≡ true)

refresh_parsed-IsExchanged :
    (new_jti : ℕ) (parsed : Parsed) (s : Accounts)
    → IsExchanged new_jti parsed s (refresh_parsed new_jti parsed s)
unfolding refresh_parsed
refresh_parsed-IsExchanged new_jti (refused says_expired) s = refl
refresh_parsed-IsExchanged new_jti (valid jti none) s = refl
refresh_parsed-IsExchanged new_jti (valid jti (some id)) s =
    elim (Option-cases (user_by_id id s.users)) [
      | inl e ↦ rw e refl
      | inr (u, known) ↦ elim (Bool-cases (is_deactivated u)) [
        | inl e ↦ rw known (rw e refl)
        | inr active ↦
            let listed = blacklist_all jti (jti ∷ []) s.blacklisted_tokens (ground arith) in
            rw known (rw active (jti, id, u, refl, known, active, refl, refl, refl, listed))
      ]
    ]

refused_exchange :
    (new_jti : ℕ) (parsed : Parsed) (s : Accounts)
    → IsRefused parsed
    → (refresh_parsed new_jti parsed s ≡ (err (api invalid_refresh_token), s))
      ⊎ (refresh_parsed new_jti parsed s ≡ (err (api refresh_token_expired), s))
unfolding refresh_parsed
refused_exchange new_jti (valid jti user) s h = absurd h
refused_exchange new_jti (refused true) s h = inr refl
refused_exchange new_jti (refused false) s h = inl refl

refused_logout :
    (parsed : Parsed) (s : Accounts)
    → IsRefused parsed
    → logout_parsed parsed s ≡ (err (api invalid_refresh_token), s)
unfolding logout_parsed
refused_logout (valid jti user) s h = absurd h
refused_logout (refused says_expired) s h = refl

-- An exchange that fails changes nothing. One that returns was of a token that could be read, for an
-- active user; the new token is the user's and is outstanding, no account has changed, and the
-- old token is of no more use: at every later time its exchange is refused as invalid or expired
-- and its logout as invalid, both without a change.
pub refresh_access_token-IsExchanged :
    (jwt : Jwt) (now new_jti : ℕ) (text : String) (s : Accounts)
    → let (result, s') = refresh_access_token jwt now new_jti (some text) s in
      IsExchanged new_jti (jwt.read now s.blacklisted_tokens text) s (result, s')
      × ((issued : Issued) (later next_jti : ℕ)
          → result ≡ ok issued
          → ((refresh_access_token jwt later next_jti (some text) s'
                ≡ (err (api invalid_refresh_token), s'))
              ⊎ (refresh_access_token jwt later next_jti (some text) s'
                  ≡ (err (api refresh_token_expired), s')))
            × (logout_user jwt later (some text) s' ≡ (err (api invalid_refresh_token), s')))
unfolding refresh_access_token logout_user
refresh_access_token-IsExchanged jwt now new_jti text s =
    let parsed = jwt.read now s.blacklisted_tokens text in
    let exchanged = refresh_parsed-IsExchanged new_jti parsed s in
    (
      exchanged,
      λ issued later next_jti returned.
          spent (refresh_parsed new_jti parsed s) issued later next_jti exchanged returned,
    )
  where
    spent :
        (p : Result Issued × Accounts) (issued : Issued) (later next_jti : ℕ)
        → IsExchanged new_jti (jwt.read now s.blacklisted_tokens text) s p
        → p.0 ≡ ok issued
        → ((refresh_parsed next_jti (jwt.read later p.1.blacklisted_tokens text) p.1
              ≡ (err (api invalid_refresh_token), p.1))
            ⊎ (refresh_parsed next_jti (jwt.read later p.1.blacklisted_tokens text) p.1
                ≡ (err (api refresh_token_expired), p.1)))
          × (logout_parsed (jwt.read later p.1.blacklisted_tokens text) p.1
              ≡ (err (api invalid_refresh_token), p.1))
    spent (err e, s') issued later next_jti exchanged returned = cc
    spent (ok i, s') issued later next_jti
          (jti, id, u, read, known, active, same, outstanding, users, listed) returned =
        let gone =
          jwt.read_listed now later s.blacklisted_tokens s'.blacklisted_tokens text jti (some id)
            read listed in
        let parsed = jwt.read later s'.blacklisted_tokens text in
        (refused_exchange next_jti parsed s' gone, refused_logout parsed s' gone)
