-- ===== src/Games/Client.antt =====
-- apps/games/igdb/client.py: the client of IGDB, its token and its requests. A request's body is
-- a Query, whose text Client/Queries writes.
pub mod Queries
pub mod Pages
pub mod Search
use gechu_backend.Base.{
  ℕ, zero, suc, ◌+◌, ◌*◌, Bool, true, false, Option, none, some, String, List, [], ◌∷◌, ◌++◌,
  length, ltb, leb, ◌==◌, if◌then◌else◌,
}
use Queries.{Query}

-- exceptions.py, and what `requests` raises: `http_error` is raise_for_status, `request_error` any
-- failure to get an answer
pub data IgdbError : Type 0 where
  auth_error not_found_error request_error : IgdbError
  rate_limit_error server_error http_error : ℕ → IgdbError

pub data Reply (A : Type 0) : Type 0 where
  broken : Reply A
  reply : ℕ → Option ℕ → List A → Reply A

pub data Answer (A : Type 0) : Type 0 where
  ok : A → Answer A
  failed : IgdbError → Answer A

-- The token, and the requests made so far, the latest last
pub record IgdbClient : Type 0 where
  pub access_token : String
  pub requests : List Query
  pub tokens : ℕ

-- `int(resp.headers.get("Retry-After", 1))`
abbrev pub retry_after : Option ℕ → ℕ
retry_after none = 1
retry_after (some seconds) = seconds

unfoldable pub checked : {A : Type 0} → Reply A → Answer (List A)
checked broken = failed request_error
checked (reply status after body) =
    if status == 401
    then failed auth_error
    else if status == 429
    then failed (rate_limit_error (retry_after after))
    else if status == 404
    then failed not_found_error
    else if leb 500 status
    then failed (server_error status)
    else if leb 400 status
    then failed (http_error status)
    else ok body

-- What Twitch and IGDB answer: a new token, or a failure of that request, by the number of those
-- asked for before, and a reply by the number of requests before, the token and the query
pub record Remote (A : Type 0) : Type 0 where
  pub new_token : ℕ → Option String
  pub answer : ℕ → String → Query → Reply A

abbrev pub issue : Option String → IgdbClient → Answer (Unit {0}) × IgdbClient
issue (some token) c = (ok tt, record c { access_token = token; tokens = c.tokens + 1 })
issue none c = (failed request_error, record c { tokens = c.tokens + 1 })

abbrev pub opened : Option String → Answer IgdbClient
opened (some token) = ok (record { access_token = token; requests = []; tokens = 1 })
opened none = failed request_error

module _ {A : Type 0} (remote : Remote A) where
  open remote use {new_token, answer}

  unfoldable pub fetch_token : IgdbClient → Answer (Unit {0}) × IgdbClient
  fetch_token c = issue (new_token c.tokens) c

  -- `IgdbClient()`
  unfoldable pub new_client : Answer IgdbClient
  new_client = opened (new_token 0)

  -- `get_igdb_client()`: one client for the process
  unfoldable pub get_igdb_client : Option IgdbClient → Answer IgdbClient
  get_igdb_client none = new_client
  get_igdb_client (some c) = ok c

  unfoldable pub post : Query → IgdbClient → Answer (List A) × IgdbClient
  post q c = (
    checked (answer (length c.requests) c.access_token q),
    record c { requests = c.requests ++ q ∷ [] },
  )

  abbrev pub post_again : Query → Answer (Unit {0}) × IgdbClient → Answer (List A) × IgdbClient
  post_again q (ok u, c) = post q c
  post_again q (failed e, c) = (failed e, c)

  abbrev pub after_auth_error : Query → Answer (List A) × IgdbClient → Answer (List A) × IgdbClient
  after_auth_error q (failed auth_error, c) = post_again q (fetch_token c)
  after_auth_error q (failed not_found_error, c) = (failed not_found_error, c)
  after_auth_error q (failed request_error, c) = (failed request_error, c)
  after_auth_error q (failed (rate_limit_error n), c) = (failed (rate_limit_error n), c)
  after_auth_error q (failed (server_error n), c) = (failed (server_error n), c)
  after_auth_error q (failed (http_error n), c) = (failed (http_error n), c)
  after_auth_error q (ok rows, c) = (ok rows, c)

  unfoldable pub post_with_auth_retry : Query → IgdbClient → Answer (List A) × IgdbClient
  unfolding fetch_token post
  post_with_auth_retry q c = after_auth_error q (post q c)
