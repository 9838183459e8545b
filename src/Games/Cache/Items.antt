-- ===== src/Games/Cache/Items.antt =====
-- The items of a search's answer: build_game_list_item of apps/games/igdb/response_builder.py over
-- the rows
use gechu_backend.Base.{
  ℕ, suc, ◌≡◌, refl, ap, Option, none, some, String, List, [], ◌∷◌, map, length,
}
use gechu_backend.Base.Dict.{nat_eq}
use gechu_backend.Core.Errors.{Result, ok, err}
use gechu_backend.Games.Raw.{RawGame}
use gechu_backend.Games.Converters.{required}
use gechu_backend.Games.Names.{Names}
use gechu_backend.Games.Names.Resolve.{resolve_name_ko}
use gechu_backend.Games.Response.{GameListItem, list_item, built, build_with, build_game_list_item}
use gechu_backend.Games.Cache.{Context, cons_item, build_items}
use gechu_backend.Games.Cache.Answers.{row_ids}

module _ (ctx : Context) where
  -- An item has the id of its row.
  abbrev ItemFor : RawGame → Result GameListItem → Type 0
  ItemFor raw (err e) = Unit
  ItemFor raw (ok i) = raw.id ≡ some i.id

  build_game_list_item-ItemFor :
      (raw : RawGame) (s : Names) → ItemFor raw (build_game_list_item ctx.outside ctx.now raw s).0
  unfolding build_game_list_item list_item
  build_game_list_item-ItemFor raw s = of_id raw.id refl
    where
      of_name :
          (id : ℕ)
          → raw.id ≡ some id
          → (n : Result String × Names)
          → ItemFor raw (built ctx.outside ctx.now (λ name_ko. list_item id name_ko raw) n).0
      of_name id there (err e, s') = tt
      of_name id there (ok name, s') = there

      of_id :
          (o : Option ℕ)
          → raw.id ≡ o
          → ItemFor raw (build_with ctx.outside ctx.now list_item (required o) raw s).0
      of_id none there = tt
      of_id (some id) there = of_name id there (
          resolve_name_ko ctx.outside.lower ctx.outside.keywords ctx.outside.search ctx.now id raw
            s)

  -- The items stand for the rows, in order.
  abbrev pub StandsFor : List RawGame → Result (List GameListItem) → Type 0
  StandsFor rows (err e) = Unit
  StandsFor rows (ok items) = (map (λ i. i.id) items ≡ row_ids rows) × (length items ≡ length rows)

  cons_item-StandsFor :
      (raw : RawGame) (rows : List RawGame) (o : Result GameListItem × Names)
      (rest : Names → Result (List GameListItem) × Names)
      → ItemFor raw o.0
      → ((s : Names) → StandsFor rows (rest s).0)
      → StandsFor (raw ∷ rows) (cons_item ctx o rest).0
  cons_item-StandsFor raw rows (err e, s) rest has h = tt
  cons_item-StandsFor raw rows (ok item, s) rest has h = of_rest (rest s) (h s)
    where
      of_rest :
          (r : Result (List GameListItem) × Names)
          → StandsFor rows r.0
          → StandsFor (raw ∷ rows) (cons_item ctx (ok item, s) (λ s'. r)).0
      of_rest (err e, s') fit = tt
      of_rest (ok items, s') fit = (rw has (ap (λ ids. item.id ∷ ids) fit.0), ap (λ n. suc n) fit.1)

  pub build_items-StandsFor :
      (rows : List RawGame) (s : Names) → StandsFor rows (build_items ctx rows s).0
  unfolding build_items
  build_items-StandsFor [] s = (refl, refl)
  build_items-StandsFor (raw ∷ rows) s =
      cons_item-StandsFor raw rows (build_game_list_item ctx.outside ctx.now raw s)
        (build_items ctx rows) (build_game_list_item-ItemFor raw s) (build_items-StandsFor rows)
