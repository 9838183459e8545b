-- ===== src/Tests/Logins.antt =====
-- Adult verifications, social logins and nicknames at concrete inputs.
use gechu_backend.Base.{◌≡◌, refl, true, false, Option, none, some, [], ◌∷◌}
use gechu_backend.Core.Errors.{ok}
use gechu_backend.Models.User.{User as UserRow, Date}
use gechu_backend.Accounts.{Accounts, has_nickname, user_by_email}
use gechu_backend.Accounts.Nicknames.{
  Draws, drawn, generate_from, generate_unique_nickname, GivesFree,
  generate_unique_nickname-GivesFree,
}
use gechu_backend.Accounts.Adult.{Adults, Bbaton, token, info, text, complete_adult_verification}
use gechu_backend.Accounts.Adult.Outcome.{IsCompleted, complete_adult_verification-IsCompleted}
use gechu_backend.Accounts.Social.{
  kakao, Socials, Fresh, Login, social_row, add_user, add_link, create_user, find_link, tries,
  create_user_with_unique_nickname, get_or_create_social_user,
}
use gechu_backend.Accounts.Social.Again.{get_or_create_social_user_again}
use gechu_backend.Tests.Accounts.{plain}
use gechu_backend.Tests.Samples.{sample_user}

-- BBaton confirms everyone.
abbrev bbaton : Bbaton
bbaton = record {
  authorize_url = some "https://bbaton.example/authorize";
  client_id = some "id";
  client_secret = some "secret";
  redirect_uri = some "https://gechu.example";
  token_url = some "https://bbaton.example/token";
  user_info_url = some "https://bbaton.example/me";
  request_token = λ code. token "t";
  request_info = λ t. info (text "uid") (text "Y") (text "1990");
}

abbrev adults : Adults
adults = record {
  users = sample_user ∷ [];
  states = record { state = "s"; user_id = sample_user.id; until = 900 } ∷ [];
  verifications = [];
}

abbrev today : Date
today = record { year = 2026; month = 3; day = 1 }

complete_adult_verification-IsCompleted_example :
    IsCompleted bbaton "c" today 500 "s" adults
      (complete_adult_verification bbaton today 500 "c" "s" adults)
complete_adult_verification-IsCompleted_example =
    complete_adult_verification-IsCompleted bbaton today 500 "c" "s" adults

-- Every round draws the next prefix.
abbrev draws : Draws
draws n = (n, 0)

abbrev fast_cat : UserRow
fast_cat = record sample_user { nickname = "빠른고양이" }

second_is_free : has_nickname (drawn draws 1) (fast_cat ∷ []) ≡ false
unfolding drawn
second_is_free = refl

generate_unique_nickname-GivesFree_example :
    GivesFree (generate_unique_nickname 2 draws 0 (fast_cat ∷ [])) (fast_cat ∷ [])
generate_unique_nickname-GivesFree_example =
    generate_unique_nickname-GivesFree draws (fast_cat ∷ []) 1 second_is_free

abbrev accounts : Accounts
accounts = record {
  users = fast_cat ∷ [];
  social_user_ids = [];
  outstanding_tokens = [];
  blacklisted_tokens = [];
  cache = [];
  mails = [];
}

abbrev socials : Socials
socials = record { accounts = accounts; links = []; states = [] }

abbrev fresh : Fresh
fresh = record {
  django = plain;
  id = 77;
  draws = draws;
  fuel = 10;
  uuid_nickname = "0123456789abcdef";
}

abbrev born : Date
born = record { year = 2000; month = 1; day = 1 }

abbrev newcomer : UserRow
newcomer = social_row plain 77 "new@example.org" "게임하는고양이" born

abbrev joined_socials : Socials
joined_socials = add_link 77 kakao "k1" (add_user newcomer socials)

first_login :
    Path
      (Option Login)
      (get_or_create_social_user fresh kakao "k1" "new@example.org" born none socials)
      (some (ok (newcomer, true), joined_socials))
unfolding get_or_create_social_user find_link user_by_email create_user_with_unique_nickname tries
    generate_unique_nickname generate_from create_user drawn
first_login = refl

get_or_create_social_user_again_example :
    Path
      (Option Login)
      (get_or_create_social_user fresh kakao "k1" "other@example.org" born none joined_socials)
      (some (ok (newcomer, false), joined_socials))
get_or_create_social_user_again_example =
    get_or_create_social_user_again fresh fresh kakao "k1" "new@example.org" "other@example.org"
      born born none none socials joined_socials newcomer refl first_login
