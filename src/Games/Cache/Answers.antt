-- ===== src/Games/Cache/Answers.antt =====
-- What IGDB answers to a query with a limit: the client of apps/games/igdb/client.py
use gechu_backend.Base.{
  ℕ, ◌≡◌, refl, Option, none, some, String, List, [], ◌∷◌, length, ◌≤◌, Bool-cases, inl, inr,
  IsDistinct,
}
use gechu_backend.Base.Dict.{nat_eq}
use gechu_backend.Games.Raw.{RawGame}
use gechu_backend.Games.Text.{is_blank}
use gechu_backend.Games.Client.{
  auth_error, not_found_error, request_error, rate_limit_error, server_error, http_error, Answer,
  failed, IgdbClient, Remote, checked, post, post_again, fetch_token, after_auth_error,
  post_with_auth_retry,
}
use gechu_backend.Games.Client.Queries.{Query}
use gechu_backend.Games.Client.Search.{Search, query_or}

-- The ids of the rows that have one
abbrev pub id_before : Option ℕ → List ℕ → List ℕ
id_before none ids = ids
id_before (some id) ids = id ∷ ids

abbrev pub row_ids : List RawGame → List ℕ
row_ids [] = []
row_ids (raw ∷ rows) = id_before raw.id (row_ids rows)

-- IGDB gives at most as many games as the limit of a query says, and none twice.
abbrev pub KeepsLimits : Remote RawGame → Type 0
KeepsLimits remote =
    (n limit : ℕ) (token : String) (q : Query) (rows : List RawGame)
    → q.limit ≡ some limit
    → checked (remote.answer n token q) ≡ Answer.ok rows
    → (length rows ≤ limit) × IsDistinct (row_ids rows)

abbrev pub AnswerFits : ℕ → Answer (List RawGame) → Type 0
AnswerFits limit (Answer.ok rows) = (length rows ≤ limit) × IsDistinct (row_ids rows)
AnswerFits limit (failed e) = Unit

module _ (remote : Remote RawGame) (keeps : KeepsLimits remote) where
  post-AnswerFits :
      (q : Query) (limit : ℕ) (c : IgdbClient)
      → q.limit ≡ some limit
      → AnswerFits limit (post remote q c).0
  unfolding post
  post-AnswerFits q limit c h =
      of_answer (checked (remote.answer (length c.requests) c.access_token q)) refl
    where
      of_answer :
          (a : Answer (List RawGame))
          → checked (remote.answer (length c.requests) c.access_token q) ≡ a
          → AnswerFits limit a
      of_answer (failed e) same = tt
      of_answer (Answer.ok rows) same = keeps (length c.requests) limit c.access_token q rows h same

  pub post_with_auth_retry-AnswerFits :
      (q : Query) (limit : ℕ) (c : IgdbClient)
      → q.limit ≡ some limit
      → AnswerFits limit (post_with_auth_retry remote q c).0
  unfolding post_with_auth_retry
  post_with_auth_retry-AnswerFits q limit c h =
      first_answer (post remote q c) (post-AnswerFits q limit c h)
    where
      again : (t : Answer (Unit {0}) × IgdbClient) → AnswerFits limit (post_again remote q t).0
      again (failed e, c') = tt
      again (Answer.ok u, c') = post-AnswerFits q limit c' h

      first_answer :
          (a : Answer (List RawGame) × IgdbClient)
          → AnswerFits limit a.0
          → AnswerFits limit (after_auth_error remote q a).0
      first_answer (Answer.ok rows, c') fit = fit
      first_answer (failed auth_error, c') fit = again (fetch_token remote c')
      first_answer (failed not_found_error, c') fit = tt
      first_answer (failed request_error, c') fit = tt
      first_answer (failed (rate_limit_error n), c') fit = tt
      first_answer (failed (server_error n), c') fit = tt
      first_answer (failed (http_error n), c') fit = tt

pub query_or-limit : (o : Option String) (s : Search) → (query_or o s).limit ≡ some s.limit
query_or-limit none s = refl
query_or-limit (some text) s = elim (Bool-cases (is_blank text)) [
  | inl blank ↦ rw blank refl
  | inr there ↦ rw there refl
]
