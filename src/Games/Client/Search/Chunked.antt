-- ===== src/Games/Client/Search/Chunked.antt =====
-- What get_games_by_ids of apps/games/igdb/client.py asks for, and gives.
use gechu_backend.Base.{ℕ, ◌≡◌, refl, none, String, List, [], ◌∷◌, ◌++◌, map, arith, length}
use gechu_backend.Base.Chunks.{concat, chunks, concat-chunks, AreFull, chunks-AreFull}
use gechu_backend.Games.Client.{ok, IgdbClient, Remote, reply, checked, post, post_with_auth_retry}
use gechu_backend.Games.Client.Pages.{page_size}
use gechu_backend.Games.Client.Search.{chunk_query, get_chunks, get_games_by_ids}
use mathlib.Core.List.{append-nil, append_assoc}

module _ {A : Type 0} (remote : Remote A) (rows_of : List ℕ → List A) where
  -- IGDB answers a query for ids with the rows that `rows_of` gives.
  abbrev pub Answers : Type 0
  Answers =
      (i : ℕ) (token : String) (ids : List ℕ)
      → remote.answer i token (chunk_query ids) ≡ reply 200 none (rows_of ids)

  get_chunks_lem :
      Answers
      → (pieces : List (List ℕ)) (rows : List A) (c : IgdbClient)
      → get_chunks remote pieces rows c ≡ (
        ok (rows ++ concat (map rows_of pieces)),
        record c { requests = c.requests ++ map chunk_query pieces },
      )
  unfolding get_chunks post_with_auth_retry post checked concat
  get_chunks_lem h [] rows c = rw (append-nil rows, append-nil c.requests) refl
  get_chunks_lem h (ids ∷ pieces) rows c =
      rw
        (
          h (length c.requests) c.access_token ids,
          get_chunks_lem h pieces (rows ++ rows_of ids)
              (record c { requests = c.requests ++ chunk_query ids ∷ [] }),
          append_assoc rows (rows_of ids) (concat (map rows_of pieces)),
          append_assoc c.requests (chunk_query ids ∷ []) (map chunk_query pieces),
        )
        refl

  -- While IGDB answers, a lookup of any number of games asks for each of the ids once and in order,
  -- in requests of which every one but the last asks for exactly 500, and the last for the 1 to 500
  -- that are left, each with a limit of the number it asks for, and gives the games of all the answers.
  pub get_games_by_ids_asks :
      Answers
      → (ids : List ℕ) (c : IgdbClient)
      → (pieces : List (List ℕ)) × (concat pieces ≡ ids)
        × AreFull page_size pieces
        × (get_games_by_ids remote ids c ≡ (
          ok (concat (map rows_of pieces)),
          record c { requests = c.requests ++ map chunk_query pieces },
        ))
  unfolding get_games_by_ids
  get_games_by_ids_asks h ids c = (
    chunks page_size ids,
    concat-chunks page_size ids (omega arith),
    chunks-AreFull 499 ids,
    get_chunks_lem h (chunks page_size ids) [] c,
  )
