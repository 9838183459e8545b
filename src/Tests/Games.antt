-- ===== src/Tests/Games.antt =====
-- The games of IGDB at concrete inputs.
use gechu_backend.Base.{
  ℕ, ◌*◌, ◌≤◌, ◌≡◌, ◌≢◌, refl, Option, none, some, List, [], ◌∷◌, ◌++◌, map, take, drop, length,
}
use gechu_backend.Base.Chunks.{concat, AreFull}
use gechu_backend.Games.Client.{IgdbClient, Remote, Answer, reply}
use gechu_backend.Games.Client.Queries.{genres, Condition, id_in}
use gechu_backend.Games.Client.Pages.{page_size, max_pages, finished, out_of_fuel, paginate}
use gechu_backend.Games.Client.Pages.Table.{paginate_table}
use gechu_backend.Games.Client.Pages.Traversal.{paginate_ends}
use gechu_backend.Games.Client.Search as Requests
use gechu_backend.Games.Client.Search.{chunk_query}
use gechu_backend.Games.Client.Search.Chunked.{get_games_by_ids_asks}

abbrev offset_of : Option ℕ → ℕ
offset_of none = 0
offset_of (some n) = n

abbrev three_rows : List ℕ
three_rows = 11 ∷ 12 ∷ 13 ∷ []

-- A server of three rows
abbrev table : Remote ℕ
table = record {
  new_token = λ n. some "token";
  answer = λ i token q. reply 200 none (take page_size (drop (offset_of q.offset) three_rows));
}

abbrev client : IgdbClient
client = record { access_token = "token"; requests = []; tokens = 1 }

paginate_table_example :
    (concat (paginate table genres "id,name" client).pages
      ≡ take (max_pages * page_size) three_rows)
    × ((paginate table genres "id,name" client).stop ≡ finished)
paginate_table_example = paginate_table table genres "id,name" three_rows (λ i t o. refl) client

paginate_ends_example :
    ((paginate table genres "id,name" client).stop ≢ out_of_fuel)
    × (length (paginate table genres "id,name" client).pages ≤ max_pages)
paginate_ends_example = paginate_ends table genres "id,name" client

abbrev ids_in : List Condition → List ℕ
ids_in [] = []
ids_in (id_in ids ∷ cs) = ids
ids_in (c ∷ cs) = []

-- A server that gives each id back
abbrev echo : Remote ℕ
echo = record {
  new_token = λ n. some "token";
  answer = λ i token q. reply 200 none (ids_in q.conditions);
}

get_games_by_ids_asks_example :
    (pieces : List (List ℕ)) × (concat pieces ≡ three_rows)
    × AreFull page_size pieces
    × (Requests.get_games_by_ids echo three_rows client ≡ (
      Answer.ok (concat (map (λ ids. ids) pieces)),
      record client { requests = client.requests ++ map chunk_query pieces },
    ))
get_games_by_ids_asks_example =
    get_games_by_ids_asks echo (λ ids. ids) (λ i t ids. refl) three_rows client
