-- ===== src/Games/Client/Pages/Table.antt =====
-- The traversal of a table that IGDB serves unchanged.
use gechu_backend.Base.{
  ℕ, zero, suc, ◌+◌, ◌-◌, ◌*◌, ◌/◌, ◌<◌, ◌≡◌, refl, ◌∙◌, sym, none, String, List, [], ◌∷◌, ◌++◌,
  arith, length, take, drop, ltb, leb, ltb→lt, Bool-cases, inl, inr,
}
use gechu_backend.Base.Chunks.{
  concat, take-nil, take_all, take_short, take_nothing, take-add, drop-add,
}
use gechu_backend.Games.Client.{ok, IgdbClient, Remote, reply, checked, post, post_with_auth_retry}
use gechu_backend.Games.Client.Queries.{Endpoint}
use gechu_backend.Games.Client.Pages.{
  page_size, max_pages, finished, Pages, page_query, after_page, page_at, paginate_from, paginate,
}
use mathlib.Core.List.{append-nil}

module _ {A : Type 0} (remote : Remote A) (endpoint : Endpoint) (fields : String) where
  -- The pages are the rows `ys`, and the traversal ended by itself.
  abbrev Gives : List A → Pages A → Type 0
  Gives ys p = (concat p.pages ≡ ys) × (p.stop ≡ finished)

  -- A page of a list `xs`, before what the rest of the traversal gives of it
  after_page-Gives :
      (m : ℕ) (xs page : List A) (c : IgdbClient) (rest : IgdbClient → Pages A)
      → page ≡ take page_size xs
      → Gives (take m (drop page_size xs)) (rest c)
      → Gives (take (page_size + m) xs) (after_page remote endpoint fields (ok page, c) rest)
  unfolding concat
  after_page-Gives m xs [] c rest e h =
      let none_left = take_nothing page_size xs (omega arith) (sym e) in
      rw (none_left, take-nil {A = A} (page_size + m)) (refl, refl)
  after_page-Gives m xs (row ∷ rows) c rest e h =
      elim (Bool-cases (ltb (length (row ∷ rows)) page_size)) [
        | inl short ↦
            rw short
              (append-nil (row ∷ rows) ∙ last_page m xs (row ∷ rows) e (ltb→lt _ _ short), refl)
        | inr full ↦ rw full (joined m xs (row ∷ rows) (concat (rest c).pages) e h.0, h.1)
      ]
    where
      last_page :
          (m : ℕ) (xs page : List A)
          → page ≡ take page_size xs
          → length page < page_size
          → page ≡ take (page_size + m) xs
      last_page m xs page e short =
          let short' : length (take page_size xs) < page_size = rw e at short in
          let whole = take_short page_size xs short' in
          let small : length xs < page_size = rw whole at short' in
          e ∙ whole ∙ sym (take_all (page_size + m) xs (omega arith))

      joined :
          (m : ℕ) (xs page more : List A)
          → page ≡ take page_size xs
          → more ≡ take m (drop page_size xs)
          → page ++ more ≡ take (page_size + m) xs
      joined m xs page more e e' = rw (e, e') (sym (take-add page_size m xs))

  -- IGDB answers with the rows of a table, by their numbers.
  abbrev pub Serves : List A → Type 0
  Serves rows =
      (i : ℕ) (token : String) (offset : ℕ)
      → remote.answer i token (page_query endpoint fields offset)
        ≡ reply 200 none (take page_size (drop offset rows))

  page_at_table :
      (rows : List A)
      → Serves rows
      → (offset : ℕ) (c : IgdbClient)
      → (c' : IgdbClient) × (page_at remote endpoint fields offset c
          ≡ (ok (take page_size (drop offset rows)), c'))
  unfolding page_at post_with_auth_retry post checked
  page_at_table rows h offset c = (
    record c { requests = c.requests ++ page_query endpoint fields offset ∷ [] },
    rw (h (length c.requests) c.access_token offset) refl,
  )

  paginate_from_table :
      (rows : List A)
      → Serves rows
      → (fuel k offset : ℕ) (c : IgdbClient) → k + fuel ≡ max_pages + 1
      → 0 < fuel
      → offset ≡ k * page_size
      → Gives
          (take ((max_pages - k) * page_size) (drop offset rows))
          (paginate_from remote endpoint fields fuel offset c)
  unfolding paginate_from concat
  paginate_from_table rows h zero k offset c e pos at = absurd (omega arith)
  paginate_from_table rows h (suc fuel) k offset c e pos at =
      elim (Bool-cases (leb max_pages (offset / page_size))) [
        | inl past ↦
            let none_left : (max_pages - k) * page_size ≡ 0 = ground arith in
            rw (past, none_left) (refl, refl)
        | inr within ↦
            let (c', found) = page_at_table rows h offset c in
            let room : (max_pages - k) * page_size ≡ page_size + (max_pages - (k + 1)) * page_size =
              ground arith in
            let ih =
              paginate_from_table rows h fuel (k + 1) (offset + page_size) c' (omega arith)
                (ground arith) (omega arith) in
            rw (within, found, room)
              (after_page-Gives ((max_pages - (k + 1)) * page_size) (drop offset rows)
                (take page_size (drop offset rows)) c'
                (paginate_from remote endpoint fields fuel (offset + page_size)) refl
                (rw (sym (drop-add offset page_size rows)) ih))
      ]

  -- While IGDB serves a table, whose rows it gives by offset and limit, a traversal of the pages
  -- ends by itself and yields the rows of the table in order, each once, up to the 250000 of the
  -- 500 pages that it asks for at most.
  pub paginate_table :
      (rows : List A)
      → Serves rows
      → (c : IgdbClient)
      → (concat (paginate remote endpoint fields c).pages ≡ take (max_pages * page_size) rows)
        × ((paginate remote endpoint fields c).stop ≡ finished)
  unfolding paginate
  paginate_table rows h c =
      paginate_from_table rows h (max_pages + 1) 0 0 c (omega arith) (omega arith) (omega arith)
