-- ===== src/Preferences/Replace.antt =====
-- `update_user_preferences`: the three lists are replaced together or not at all.
use gechu_backend.Base.{
  ℕ, ◌≡◌, ◌≢◌, refl, ◌∙◌, Bool, true, false, ◌&&◌, some, List, [], ◌∷◌, ◌++◌, arith, ◌==◌,
  Bool-cases, inl, inr,
}
use gechu_backend.Core.Errors.{integrity_error, Result, ok, err}
use gechu_backend.Models.{Db}
use gechu_backend.Models.Preference.{UserPreference}
use gechu_backend.Recommendations.Candidates.{preference_of}
use gechu_backend.Preferences.{
  has_preference, ensure_preference, write_preference, links_fit, Catalogue,
  update_user_preferences,
}

preference_of-write :
    (f : UserPreference → UserPreference) (user : ℕ) (rows : List UserPreference)
    (p : UserPreference)
    → ((q : UserPreference) → (f q).user_id ≡ q.user_id)
    → preference_of user rows ≡ some p
    → preference_of user (write_preference f user rows) ≡ some (f p)
preference_of-write f user [] p keeps h = cc
preference_of-write f user (q ∷ rows) p keeps h =
    ground (arith, keeps q, preference_of-write f user rows p keeps)

preference_of-write_ne :
    (f : UserPreference → UserPreference) (user other : ℕ) (rows : List UserPreference)
    → ((q : UserPreference) → (f q).user_id ≡ q.user_id)
    → other ≢ user
    → preference_of other (write_preference f user rows) ≡ preference_of other rows
preference_of-write_ne f user other [] keeps ne = refl
preference_of-write_ne f user other (q ∷ rows) keeps ne =
    ground (arith, keeps q, preference_of-write_ne f user other rows keeps ne)

has_preference-preference_of :
    (user : ℕ) (rows : List UserPreference)
    → has_preference user rows ≡ true
    → (p : UserPreference) × (preference_of user rows ≡ some p)
has_preference-preference_of user [] h = cc
has_preference-preference_of user (q ∷ rows) h = elim (Bool-cases (user == q.user_id)) [
  | inl e ↦ (q, rw e refl)
  | inr e ↦ let (p, found) = has_preference-preference_of user rows (rw e at h) in (p, rw e found)
]

preference_of-append :
    (user : ℕ) (rows : List UserPreference) (p : UserPreference)
    → has_preference user rows ≡ false
    → p.user_id ≡ user
    → preference_of user (rows ++ p ∷ []) ≡ some p
preference_of-append user [] p h own = ground arith
preference_of-append user (q ∷ rows) p h own = ground (arith, preference_of-append user rows p)

preference_of-append_ne :
    (user other : ℕ) (rows : List UserPreference) (p : UserPreference)
    → p.user_id ≡ user
    → other ≢ user
    → preference_of other (rows ++ p ∷ []) ≡ preference_of other rows
preference_of-append_ne user other [] p own ne = ground arith
preference_of-append_ne user other (q ∷ rows) p own ne =
    ground (arith, preference_of-append_ne user other rows p own ne)

module _ (user : ℕ) (rows : List UserPreference) where
  ensure_preference-found :
      (p : UserPreference) × (preference_of user (ensure_preference user rows) ≡ some p)
  unfolding ensure_preference
  ensure_preference-found = elim (Bool-cases (has_preference user rows)) [
    | inl e ↦ rw e (has_preference-preference_of user rows e)
    | inr e ↦
        let p : UserPreference = record {
          user_id = user;
          genre_ids = [];
          platform_ids = [];
          tag_ids = [];
        } in
        rw e (p, preference_of-append user rows p e refl)
  ]

  ensure_preference-other :
      (other : ℕ)
      → other ≢ user
      → preference_of other (ensure_preference user rows) ≡ preference_of other rows
  unfolding ensure_preference
  ensure_preference-other other ne = elim (Bool-cases (has_preference user rows)) [
    | inl e ↦ rw e refl
    | inr e ↦ rw e (
        preference_of-append_ne user other rows
          (record { user_id = user; genre_ids = []; platform_ids = []; tag_ids = [] }) refl ne)
  ]

-- How a replacement may end: with the three lists as given, or with an integrity error and the
-- preference as it was.
abbrev pub IsReplaced :
    ℕ
    → List ℕ
    → List ℕ
    → List ℕ
    → List UserPreference
    → Bool
    → Result (Unit {0}) × List UserPreference
    → Type 0
IsReplaced user genres platforms tags before fits (ok done, rows) =
    (fits ≡ true)
    × (p : UserPreference) × (preference_of user rows ≡ some p)
    × (p.genre_ids ≡ genres)
    × (p.platform_ids ≡ platforms)
    × (p.tag_ids ≡ tags)
IsReplaced user genres platforms tags before fits (err e, rows) =
    (fits ≡ false) × (e ≡ integrity_error) × (rows ≡ before)

-- The call succeeds just when no list has a repeated or unknown id, and the user's preference is
-- then exactly the three lists; otherwise it fails as a whole, and of the preferences only an
-- empty row for a user without one is new. The preferences of other users are not touched.
pub update_user_preferences-IsReplaced :
    (catalogue : Catalogue) (user : ℕ) (genres platforms tags : List ℕ) (db : Db)
    → let (result, db') = update_user_preferences catalogue user genres platforms tags db in
      IsReplaced user genres platforms tags
        (ensure_preference user db.preferences)
        (links_fit catalogue.genre genres
          && links_fit catalogue.platform platforms
          && links_fit catalogue.tag tags)
        (result, db'.preferences)
      × ((other : ℕ)
          → other ≢ user
          → preference_of other db'.preferences ≡ preference_of other db.preferences)
unfolding update_user_preferences
update_user_preferences-IsReplaced catalogue user genres platforms tags db =
    let rows = ensure_preference user db.preferences in
    let unchanged = ensure_preference-other user db.preferences in
    let (p, found) = ensure_preference-found user db.preferences in
    let clear : UserPreference → UserPreference =
      λ q. record q { genre_ids = []; platform_ids = []; tag_ids = [] } in
    let set_genres : UserPreference → UserPreference = λ q. record q { genre_ids = genres } in
    let set_platforms : UserPreference → UserPreference =
      λ q. record q { platform_ids = platforms } in
    let set_tags : UserPreference → UserPreference = λ q. record q { tag_ids = tags } in
    let rows1 = write_preference clear user rows in
    let rows2 = write_preference set_genres user rows1 in
    let rows3 = write_preference set_platforms user rows2 in
    elim (Bool-cases (links_fit catalogue.genre genres)) [
      | inr e ↦ rw e ((refl, refl, refl), unchanged)
      | inl g ↦ elim (Bool-cases (links_fit catalogue.platform platforms)) [
        | inr e ↦ rw g (rw e ((refl, refl, refl), unchanged))
        | inl l ↦ elim (Bool-cases (links_fit catalogue.tag tags)) [
          | inr e ↦ rw g (rw l (rw e ((refl, refl, refl), unchanged)))
          | inl t ↦
              let found1 = preference_of-write clear user rows p (λ q. refl) found in
              let found2 = preference_of-write set_genres user rows1 (clear p) (λ q. refl) found1 in
              let found3 =
                preference_of-write set_platforms user rows2 (set_genres (clear p)) (λ q. refl)
                  found2 in
              let found4 =
                preference_of-write set_tags user rows3 (set_platforms (set_genres (clear p)))
                  (λ q. refl) found3 in
              rw g (
                rw l (
                  rw t (
                    (
                      refl,
                      set_tags (set_platforms (set_genres (clear p))),
                      found4,
                      refl,
                      refl,
                      refl,
                    ),
                    λ other ne.
                        preference_of-write_ne set_tags user other rows3 (λ q. refl) ne
                        ∙ preference_of-write_ne set_platforms user other rows2 (λ q. refl) ne
                        ∙ preference_of-write_ne set_genres user other rows1 (λ q. refl) ne
                        ∙ preference_of-write_ne clear user other rows (λ q. refl) ne
                        ∙ unchanged other ne,
                  )))
        ]
      ]
    ]
