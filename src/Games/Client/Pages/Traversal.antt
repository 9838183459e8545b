-- ===== src/Games/Client/Pages/Traversal.antt =====
-- How a traversal of the pages ends, and what it gives.
use gechu_backend.Base.{
  ℕ, zero, suc, ◌+◌, ◌-◌, ◌*◌, ◌/◌, ◌≤◌, ◌<◌, ◌≡◌, ◌≢◌, String, List, [], ◌∷◌, arith, length, ltb,
  leb, Bool-cases, inl, inr,
}
use gechu_backend.Games.Client.{Answer, ok, failed, IgdbClient, Remote}
use gechu_backend.Games.Client.Queries.{Endpoint}
use gechu_backend.Games.Client.Pages.{
  page_size, max_pages, out_of_fuel, Pages, after_page, page_at, paginate_from, paginate,
}

module _ {A : Type 0} where
  -- Fuel did not run out, and no more than `n` pages came.
  abbrev EndsWithin : ℕ → Pages A → Type 0
  EndsWithin n p = (p.stop ≢ out_of_fuel) × (length p.pages ≤ n)

  after_page-EndsWithin :
      (remote : Remote A) (endpoint : Endpoint) (fields : String) (n : ℕ)
      (page : Answer (List A) × IgdbClient) (rest : IgdbClient → Pages A)
      → ((c : IgdbClient) → EndsWithin n (rest c))
      → EndsWithin (suc n) (after_page remote endpoint fields page rest)
  after_page-EndsWithin remote endpoint fields n (failed e, c) rest h = (λ e'. cc, omega arith)
  after_page-EndsWithin remote endpoint fields n (ok [], c) rest h = (λ e'. cc, omega arith)
  after_page-EndsWithin remote endpoint fields n (ok (row ∷ rows), c) rest h =
      elim (Bool-cases (ltb (length (row ∷ rows)) page_size)) [
        | inl short ↦ rw short (λ e'. cc, omega arith)
        | inr full ↦ rw full ((h c).0, omega (arith, (h c).1))
      ]

  module _ (remote : Remote A) (endpoint : Endpoint) (fields : String) where
    paginate_from-EndsWithin :
        (fuel k offset : ℕ) (c : IgdbClient)
        → k + fuel ≡ max_pages + 1
        → 0 < fuel
        → offset ≡ k * page_size
        → EndsWithin (max_pages - k) (paginate_from remote endpoint fields fuel offset c)
    unfolding paginate_from
    paginate_from-EndsWithin zero k offset c e pos at = absurd (omega arith)
    paginate_from-EndsWithin (suc fuel) k offset c e pos at =
        elim (Bool-cases (leb max_pages (offset / page_size))) [
          | inl past ↦ rw past (λ e'. cc, omega arith)
          | inr within ↦ rw within (
              let room : max_pages - k ≡ suc (max_pages - (k + 1)) = ground arith in
              rw room (
                after_page-EndsWithin remote endpoint fields (max_pages - (k + 1))
                  (page_at remote endpoint fields offset c)
                  (paginate_from remote endpoint fields fuel (offset + page_size))
                  (λ c'.
                    paginate_from-EndsWithin fuel (k + 1) (offset + page_size) c' (omega arith)
                      (ground arith) (omega arith))))
        ]

    -- A traversal of the pages of IGDB ends, after 500 pages at most, whatever IGDB answers: the
    -- loop leaves by its own tests and never for want of fuel.
    pub paginate_ends :
        (c : IgdbClient)
        → ((paginate remote endpoint fields c).stop ≢ out_of_fuel)
          × (length (paginate remote endpoint fields c).pages ≤ max_pages)
    unfolding paginate
    paginate_ends c =
        paginate_from-EndsWithin (max_pages + 1) 0 0 c (omega arith) (omega arith) (omega arith)
