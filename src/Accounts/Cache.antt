-- ===== src/Accounts/Cache.antt =====
-- The cache of django.core.cache as the accounts use it: values by key, each until a time.
use gechu_backend.Base.{
  ℕ, ◌≡◌, refl, ◌<◌, Bool, true, false, not, ◌&&◌, Option, none, some, String, string_eq,
  string_eq_refl, List, [], ◌∷◌, filter, ltb, arith, if◌then◌else◌,
}

pub data Purpose : Type 0 where
  signup password_reset : Purpose

-- `email_code:{purpose}:{email}` and its siblings; the purposes hold no colon, so the parts of a
-- key can be read off it.
pub data Kind : Type 0 where
  email_code email_code_cooldown email_code_attempts : Kind

pub record CacheKey : Type 0 where
  pub kind : Kind
  pub purpose : Purpose
  pub email : String

abbrev pub key : Kind → Purpose → String → CacheKey
key kind purpose email = record { kind = kind; purpose = purpose; email = email }

pub data Value : Type 0 where
  text : String → Value
  number : ℕ → Value
  flag : Value

pub record Entry : Type 0 where
  pub at : CacheKey
  pub value : Value
  pub expires_at : ℕ

abbrev pub kind_eq : Kind → Kind → Bool
kind_eq email_code email_code = true
kind_eq email_code_cooldown email_code_cooldown = true
kind_eq email_code_attempts email_code_attempts = true
kind_eq _ _ = false

abbrev pub purpose_eq : Purpose → Purpose → Bool
purpose_eq signup signup = true
purpose_eq password_reset password_reset = true
purpose_eq _ _ = false

unfoldable pub key_eq : CacheKey → CacheKey → Bool
key_eq k l = kind_eq k.kind l.kind && purpose_eq k.purpose l.purpose && string_eq k.email l.email

unfoldable pub cache_get : ℕ → CacheKey → List Entry → Option Value
cache_get now k [] = none
cache_get now k (e ∷ cache) =
    if key_eq k e.at
    then (if ltb now e.expires_at then some e.value else none)
    else cache_get now k cache

unfoldable pub cache_delete : CacheKey → List Entry → List Entry
cache_delete k cache = filter (λ e. not (key_eq k e.at)) cache

unfoldable pub cache_set : CacheKey → Value → ℕ → List Entry → List Entry
cache_set k v expires_at cache =
    record { at = k; value = v; expires_at = expires_at } ∷ cache_delete k cache

pub key_eq_refl : (k : CacheKey) → key_eq k k ≡ true
unfolding key_eq
key_eq_refl k = rw (string_eq_refl k.email) (parts k.kind k.purpose)
  where
    parts :
        (kind : Kind) (purpose : Purpose)
        → (kind_eq kind kind && purpose_eq purpose purpose && true) ≡ true
    parts kind purpose = ground arith

pub cache_get-cache_delete :
    (now : ℕ) (k : CacheKey) (cache : List Entry) → cache_get now k (cache_delete k cache) ≡ none
unfolding cache_get cache_delete
cache_get-cache_delete now k [] = refl
cache_get-cache_delete now k (e ∷ cache) = ground (arith, cache_get-cache_delete now k cache)

pub cache_get-cache_set :
    (now : ℕ) (k : CacheKey) (v : Value) (expires_at : ℕ) (cache : List Entry)
    → now < expires_at
    → cache_get now k (cache_set k v expires_at cache) ≡ some v
unfolding cache_get cache_set
cache_get-cache_set now k v expires_at cache h = rw (key_eq_refl k) (ground arith)
