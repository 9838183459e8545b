-- ===== src/Accounts/Nicknames.antt =====
-- apps/users/services/nickname_service.py: a random nickname that no account has. The choices are a
-- sequence of pairs, and the loop runs on fuel.
use gechu_backend.Base.{
  ℕ, zero, suc, ◌+◌, ◌<◌, ◌≡◌, refl, subst, true, false, Option, none, some, String, List, [], ◌∷◌,
  arith, if◌then◌else◌, Bool-cases, inl, inr,
}
use gechu_backend.Models.User.{User as UserRow}
use gechu_backend.Accounts.{has_nickname}
use gechu_backend.Games.Text.{◌+++◌}

abbrev pub nickname_prefixes : List String
nickname_prefixes =
    "빠른" ∷ "게임하는" ∷ "최고의" ∷ "강아지좋아하는" ∷ "고양이좋아하는" ∷ "슬픈" ∷ "게임금지당한" ∷ "행복한" ∷ "이세계의" ∷ "한방좋아하는"
    ∷ "빨간색" ∷ "검은색" ∷ "파란색" ∷ "귀여운" ∷ "깜찍한" ∷ "적응하는" ∷ "최상급" ∷ "까칠한" ∷ "쿨한" ∷ "과일좋아하는" ∷ "잘먹는"
    ∷ "하얀색" ∷ "키작은" ∷ "키큰" ∷ "멋있는" ∷ "잘생긴" ∷ []

abbrev pub nickname_suffixes : List String
nickname_suffixes =
    "고양이" ∷ "강아지" ∷ "돼지" ∷ "소" ∷ "토끼" ∷ "양" ∷ "곰" ∷ "사자" ∷ "호랑이" ∷ "늑대" ∷ "여우" ∷ "사슴" ∷ "코끼리" ∷ "기린"
    ∷ "하마" ∷ "말" ∷ "당나귀" ∷ "캥거루" ∷ "코알라" ∷ "팬더" ∷ "몽구스" ∷ "고슴도치" ∷ "너구리" ∷ "두더지" ∷ "멧돼지" ∷ "치타"
    ∷ "표범" ∷ "침팬지" ∷ "햄스터" ∷ "돌고래" ∷ "바다사자" ∷ "바다코끼리" ∷ "하프물범" ∷ "가물치" ∷ "가리비" ∷ "상어" ∷ "고래" ∷ []

-- `secrets.choice(texts)`, by the index that is drawn
unfoldable pub choice : List String → ℕ → String
choice [] i = ""
choice (t ∷ texts) zero = t
choice (t ∷ texts) (suc i) = choice texts i

-- The indices that the n-th round draws
abbrev pub Draws : Type 0
Draws = ℕ → ℕ × ℕ

unfoldable pub drawn : Draws → ℕ → String
unfolding choice
drawn draws n = choice nickname_prefixes (draws n).0 +++ choice nickname_suffixes (draws n).1

-- The `while True` loop from round `n` on, with the number of rounds that it took
unfoldable pub generate_from : ℕ → Draws → ℕ → List UserRow → Option (String × ℕ)
generate_from zero draws n users = none
generate_from (suc fuel) draws n users =
    let again = generate_from fuel draws (n + 1) users in
    if has_nickname (drawn draws n) users then again else some (drawn draws n, n + 1)

unfoldable pub generate_unique_nickname : ℕ → Draws → ℕ → List UserRow → Option (String × ℕ)
generate_unique_nickname = generate_from

-- The loop gives a nickname that no account has.
abbrev pub GivesFree : Option (String × ℕ) → List UserRow → Type 0
GivesFree none users = ⊥
GivesFree (some (nickname, rounds)) users = has_nickname nickname users ≡ false

generate_from-GivesFree :
    (fuel k n : ℕ) (draws : Draws) (users : List UserRow)
    → k < fuel
    → has_nickname (drawn draws (n + k)) users ≡ false
    → GivesFree (generate_from fuel draws n users) users
unfolding generate_from
generate_from-GivesFree zero k n draws users lt free = absurd (omega arith)
generate_from-GivesFree (suc fuel) zero n draws users lt free =
    let now : has_nickname (drawn draws n) users ≡ false =
      subst (λ i. has_nickname (drawn draws i) users ≡ false) (plus_zero n) free in
    rw now now
  where
    plus_zero : (n : ℕ) → n + 0 ≡ n
    plus_zero n = omega arith
generate_from-GivesFree (suc fuel) (suc k) n draws users lt free =
    elim (Bool-cases (has_nickname (drawn draws n) users)) [
      | inr here ↦ rw here here
      | inl taken ↦ rw taken (
          generate_from-GivesFree fuel k (n + 1) draws users (omega arith)
            (subst (λ i. has_nickname (drawn draws i) users ≡ false) (plus_suc n k) free))
    ]
  where
    plus_suc : (n k : ℕ) → n + suc k ≡ (n + 1) + k
    plus_suc n k = omega arith

generate_from-none :
    (fuel n : ℕ) (draws : Draws) (users : List UserRow)
    → ((k : ℕ) → has_nickname (drawn draws k) users ≡ true)
    → generate_from fuel draws n users ≡ none
unfolding generate_from
generate_from-none zero n draws users taken = refl
generate_from-none (suc fuel) n draws users taken =
    rw (taken n) (generate_from-none fuel (n + 1) draws users taken)

-- The search for a nickname ends as soon as a draw is free: if no account has the nickname of draw
-- `k`, then k + 1 rounds are enough to give a nickname that no account has.
pub generate_unique_nickname-GivesFree :
    (draws : Draws) (users : List UserRow) (k : ℕ)
    → has_nickname (drawn draws k) users ≡ false
    → GivesFree (generate_unique_nickname (suc k) draws 0 users) users
unfolding generate_unique_nickname
generate_unique_nickname-GivesFree draws users k free =
    generate_from-GivesFree (suc k) k 0 draws users (omega arith)
      (subst (λ i. has_nickname (drawn draws i) users ≡ false) (zero_plus k) free)
  where
    zero_plus : (k : ℕ) → k ≡ 0 + k
    zero_plus k = omega arith

-- Once the accounts have all the nicknames that can be drawn, the search goes on for any number of
-- rounds.
pub generate_unique_nickname-none :
    (draws : Draws) (users : List UserRow)
    → ((k : ℕ) → has_nickname (drawn draws k) users ≡ true)
    → (fuel : ℕ) → generate_unique_nickname fuel draws 0 users ≡ none
unfolding generate_unique_nickname
generate_unique_nickname-none draws users taken fuel = generate_from-none fuel 0 draws users taken
