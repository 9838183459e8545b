-- ===== src/Games/Lists/Adults.antt =====
-- Whom the lists of games show what: games for adults, and the pages that the filter thins out.
use gechu_backend.Base.{
  length-map, ℕ, zero, suc, ◌+◌, ◌≤◌, ◌<◌, ◌≡◌, refl, sym, ap, ◌∙◌, Bool, false, Option, none, some,
  String, string_eq, List, [], ◌∷◌, map, filter, first, length, All, All-take, Elem,
  length-filter-le, arith, ltb, ltb→lt, Bool-cases, inl, inr,
}
use gechu_backend.Base.Int.{ℤ}
use gechu_backend.Core.Errors.{Result, ok, err}
use gechu_backend.Models.User.{User}
use gechu_backend.Models.Preference.{UserGameAffinity}
use gechu_backend.Games.Response.{GameListItem}
use gechu_backend.Games.Keys.{by_genre}
use gechu_backend.Games.Cache.{Store, Context, search_games}
use gechu_backend.Games.Lists.{
  Listed, ListQuery, GenreRow, age_rating_limit, is_adult, filter_adult_games, attach_is_saved,
  saved_of, shown, list_params, list_games, igdb_sort_of, top_of_id, top_of, top_n_by_genre,
}
use gechu_backend.Games.Lists.View.{
  Fields, Validated, validated_data, Page, page_of, top_page, with_page, top_10_genre, listed,
  game_list, ViewState, in_view, after_words, kept_words, viewed, game_list_view,
}

abbrev IsYouth : Listed → Type 0
IsYouth g = g.game.age_rating_min < age_rating_limit

filter-AllYouth :
    (gs : List Listed) → All IsYouth (filter (λ g. ltb g.game.age_rating_min age_rating_limit) gs)
filter-AllYouth [] = tt
filter-AllYouth (g ∷ gs) = elim (Bool-cases (ltb g.game.age_rating_min age_rating_limit)) [
  | inl young ↦ rw young (ltb→lt _ _ young, filter-AllYouth gs)
  | inr old ↦ rw old (filter-AllYouth gs)
]

filter_adult_games-AllYouth :
    (user : Option User) (gs : List Listed)
    → is_adult user ≡ false
    → All IsYouth (filter_adult_games user gs)
unfolding filter_adult_games
filter_adult_games-AllYouth user gs h = rw h (filter-AllYouth gs)

-- A list is for the young, if there is one.
abbrev ListsYouth : {S : Type 0} → Result (List Listed) × S → Type 0
ListsYouth (ok gs, s) = All IsYouth gs
ListsYouth (err e, s) = Unit

abbrev pub ShowsYouth : {S : Type 0} → Result Page × S → Type 0
ShowsYouth (ok page, s) = All (λ g. g.game.age_rating_min < age_rating_limit) page.results
ShowsYouth (err e, s) = Unit

module _ (ctx : Context) (affinities : List UserGameAffinity) (genres : List GenreRow)
    (user : Option User) (young : is_adult user ≡ false) where
  shown-ListsYouth : (r : Result (List GameListItem) × Store) → ListsYouth (shown user affinities r)
  shown-ListsYouth (err e, s) = tt
  shown-ListsYouth (ok gs, s) =
      filter_adult_games-AllYouth user (attach_is_saved user affinities gs) young

  top_of_id-ListsYouth :
      (o : Option ℕ) (n : ℕ) (sort : String) (s : Store)
      → ListsYouth (top_of_id ctx affinities o n sort user s)
  top_of_id-ListsYouth none n sort s = tt
  top_of_id-ListsYouth (some zero) n sort s = tt
  top_of_id-ListsYouth (some (suc id)) n sort s =
      shown-ListsYouth
        (search_games ctx (by_genre (suc id) (igdb_sort_of sort) n 100 70 1514764800) s)

  top_of-ListsYouth :
      (g : Option GenreRow) (n : ℕ) (sort : String) (s : Store)
      → ListsYouth (top_of ctx affinities g n sort user s)
  top_of-ListsYouth none n sort s = tt
  top_of-ListsYouth (some g) n sort s = top_of_id-ListsYouth g.igdb_id n sort s

  page_of-ShowsYouth :
      (q : ListQuery) (r : Result (List Listed) × Store)
      → ListsYouth r
      → ShowsYouth (with_page (page_of q) r)
  page_of-ShowsYouth q (err e, s) h = tt
  page_of-ShowsYouth q (ok gs, s) h = All-take IsYouth q.page_size gs h

  top_page-ShowsYouth :
      (r : Result (List Listed) × Store) → ListsYouth r → ShowsYouth (with_page top_page r)
  top_page-ShowsYouth (err e, s) h = tt
  top_page-ShowsYouth (ok gs, s) h = h

  listed-ShowsYouth :
      (o : Option String) (q : ListQuery) (s : Store)
      → ShowsYouth (listed ctx affinities genres o q user s)
  unfolding top_n_by_genre list_games
  listed-ShowsYouth (some name) q s =
      top_page-ShowsYouth (top_n_by_genre ctx affinities genres name 10 "-rawg_rating" user s)
        (top_of-ListsYouth (first (filter (λ g. string_eq name g.name) genres)) 10 "-rawg_rating" s)
  listed-ShowsYouth none q s =
      page_of-ShowsYouth q (list_games ctx affinities q user s)
        (shown-ListsYouth (search_games ctx (list_params q) s))

  in_view-ShowsYouth :
      (parse_int : String → Option ℤ) (max_size : ℕ) (r : Result Page × Store) (words : List String)
      → ShowsYouth r
      → ShowsYouth (in_view parse_int ctx affinities genres max_size r words)
  in_view-ShowsYouth parse_int max_size (err e, s) words h = tt
  in_view-ShowsYouth parse_int max_size (ok page, s) words h = h

  after_words-ShowsYouth :
      (parse_int : String → Option ℤ) (max_size : ℕ) (r : Result (Unit {0}) × List String)
      (v : Validated) (s : Store)
      → ShowsYouth (after_words parse_int ctx affinities genres max_size r v user s)
  unfolding game_list
  after_words-ShowsYouth parse_int max_size (err e, words) v s = tt
  after_words-ShowsYouth parse_int max_size (ok u, words) v s =
      in_view-ShowsYouth parse_int max_size (game_list ctx affinities genres v user s) words
        (listed-ShowsYouth (top_10_genre v genres) v.query s)

-- A user who has not passed the adult verification, and a visitor, see no game rated 18 or older in
-- the list of games, whatever they ask for: a search, filters, a page or the top ten of a genre.
pub game_list_view-ShowsYouth :
    (parse_int : String → Option ℤ) (ctx : Context) (affinities : List UserGameAffinity)
    (genres : List GenreRow) (max_size : ℕ) (f : Fields) (user : Option User) (s : ViewState)
    → is_adult user ≡ false
    → ShowsYouth (game_list_view parse_int ctx affinities genres max_size f user s)
unfolding game_list_view
game_list_view-ShowsYouth parse_int ctx affinities genres max_size f user s young =
    of_data (validated_data parse_int ctx f)
  where
    of_data :
        (r : Result Validated)
        → ShowsYouth (viewed parse_int ctx affinities genres max_size r user s)
    of_data (err e) = tt
    of_data (ok v) =
        after_words-ShowsYouth ctx affinities genres user young parse_int max_size
          (kept_words parse_int ctx affinities genres max_size user v.query.search s.words) v
          s.store

-- A filter that leaves something out gives fewer items.
filter_shorter :
    (p : Listed → Bool) (g : Listed) (gs : List Listed)
    → Elem g gs
    → p g ≡ false
    → length (filter p gs) < length gs
filter_shorter p g [] e h = absurd e
filter_shorter p g (x ∷ gs) (inl e) h = rw (ap p (sym e) ∙ h) (omega (arith, length-filter-le p gs))
filter_shorter p g (x ∷ gs) (inr e) h = elim (Bool-cases (p x)) [
  | inl in_ ↦ rw in_ (omega (arith, filter_shorter p g gs e h))
  | inr out ↦ rw out (omega (arith, filter_shorter p g gs e h))
]

Elem-map : {A B : Type 0} (f : A → B) (a : A) (xs : List A) → Elem a xs → Elem (f a) (map f xs)
Elem-map f a [] e = absurd e
Elem-map f a (x ∷ xs) (inl e) = inl (ap f e)
Elem-map f a (x ∷ xs) (inr e) = inr (Elem-map f a xs e)

module _ (user : Option User) (rows : List UserGameAffinity) (young : is_adult user ≡ false) where
  length-filter_adult_games :
      (gs : List GameListItem) (g : GameListItem)
      → Elem g gs
      → age_rating_limit ≤ g.age_rating_min
      → length (filter_adult_games user (attach_is_saved user rows gs)) < length gs
  unfolding filter_adult_games attach_is_saved
  length-filter_adult_games gs g e adult =
      let label : GameListItem → Listed =
        λ h. record { game = h; is_saved = saved_of user (map (λ x. x.id) gs) rows h.id } in
      rw young (fewer label (λ h. refl))
    where
      fewer :
          (label : GameListItem → Listed)
          → ((h : GameListItem) → (label h).game ≡ h)
          → length (filter (λ g. ltb g.game.age_rating_min age_rating_limit) (map label gs))
            < length gs
      fewer label same =
          let out : ltb (label g).game.age_rating_min age_rating_limit ≡ false =
            rw (same g) (ground arith) in
          let less =
            filter_shorter (λ g. ltb g.game.age_rating_min age_rating_limit) (label g)
              (map label gs) (Elem-map label g gs e) out in
          omega (arith, length-map label gs)

-- When IGDB has given as many games as were asked for, one more than a page holds, and one of them
-- is for adults, a user who has not passed the adult verification gets a page that names no next
-- page, although there are more games.
pub next_page_lost :
    (ctx : Context) (affinities : List UserGameAffinity) (genres : List GenreRow) (v : Validated)
    (user : Option User) (s s' : Store) (games : List GameListItem) (g : GameListItem)
    → is_adult user ≡ false
    → top_10_genre v genres ≡ none
    → Path
        (Result (List GameListItem) × Store)
        (search_games ctx (list_params v.query) s)
        (ok games, s')
    → length games ≡ v.query.page_size + 1
    → Elem g games
    → age_rating_limit ≤ g.age_rating_min
    → (page : Page) × (Path
        (Result Page × Store)
        (game_list ctx affinities genres v user s)
        (ok page, s'))
      × (page.has_next ≡ false)
unfolding game_list list_games
next_page_lost ctx affinities genres v user s s' games g young list found count e adult =
    let items = filter_adult_games user (attach_is_saved user affinities games) in
    let fewer = length-filter_adult_games user affinities young games g e adult in
    (page_of v.query items, rw (list, found) refl, ground arith)
