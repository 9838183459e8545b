-- ===== src/Preferences/Settled.antt =====
-- `update_game_interaction` as a whole: what it promises of the row, and that repeating it is idle.
use gechu_backend.Base.{
  ℕ, ◌≡◌, refl, ◌∙◌, ap, sym, subst, Bool, true, false, Option, none, some, String, [], ◌∷◌, ◌++◌,
  Bool-cases, Option-cases, inl, inr,
}
use gechu_backend.Core.Errors.{api, invalid_reaction, Result, ok, err}
use gechu_backend.Core.Exec.{continue, ◌>>=◌, roll_back}
use gechu_backend.Models.{Db}
use gechu_backend.Models.Interaction.{SourceType}
use gechu_backend.Models.Preference.{UserGameAffinity}
use gechu_backend.Preferences.{
  Stamp, affinity_of, new_affinity, get_or_create_affinity, react, apply_reaction, bool_eq,
  apply_saved, save_if, update_game_interaction,
}
use gechu_backend.Preferences.Affinity.{
  affinity_of-save_affinity, affinity_of-save_affinity_ne, affinity_of-append,
  affinity_of-append_ne, affinity_of-fields, AgreesState, AgreesSaved, IsStage, Reacted,
  state_eq_refl, bool_eq_sound, bool_eq_refl, apply_reaction-Reacted,
}

-- How the transaction ends, on the row that was found or created.
abbrev pub IsSettled :
    ℕ → ℕ → Option Bool → Option String → Db → Result UserGameAffinity × Db → Type 0
IsSettled user game is_saved reaction db0 (err e, db) = (e ≡ api invalid_reaction) × (db ≡ db0)
IsSettled user game is_saved reaction db0 (ok a, db) =
    (affinity_of user game db.affinities ≡ some a)
    × AgreesState reaction a.like_state
    × AgreesSaved is_saved a.is_saved
    × ((u g : ℕ)
        → ¬ ((u ≡ user) × (g ≡ game))
        → affinity_of u g db.affinities ≡ affinity_of u g db0.affinities)

module _ (stamp : Stamp) (user game : ℕ) (source : SourceType) (is_saved : Option Bool)
    (reaction : Option String) where
  module _ (a0 : UserGameAffinity) (db0 : Db)
      (found : affinity_of user game db0.affinities ≡ some a0) where
    save_if-IsSettled :
        (q : UserGameAffinity × Bool) (db : Db)
        → IsStage a0 db0 q db
        → AgreesState reaction q.0.like_state
        → AgreesSaved is_saved q.0.is_saved
        → IsSettled user game is_saved reaction db0 (roll_back db0 (save_if stamp.now q db))
    unfolding save_if
    save_if-IsSettled (a, false) db (rows, u, g, same) state saved = (
      ap (affinity_of user game) rows ∙ found ∙ ap some (sym (same refl)),
      state,
      saved,
      λ v h other. ap (affinity_of v h) rows,
    )
    save_if-IsSettled (a, true) db (rows, u, g, same) state saved =
        let own = affinity_of-fields user game a0 db0.affinities found in
        let new = record a { last_interacted_at = stamp.now } in
        (
          affinity_of-save_affinity user game new a0 db.affinities (u ∙ own.0) (g ∙ own.1)
              (ap (affinity_of user game) rows ∙ found),
          state,
          saved,
          λ v h other.
              affinity_of-save_affinity_ne user game v h new db.affinities (u ∙ own.0) (g ∙ own.1)
                other
              ∙ ap (affinity_of v h) rows,
        )

    apply_saved-IsSettled :
        (saved : Option Bool) (q : UserGameAffinity × Bool) (db : Db)
        → saved ≡ is_saved
        → IsStage a0 db0 q db
        → AgreesState reaction q.0.like_state
        → IsSettled user game is_saved reaction db0
            (roll_back db0 (continue (apply_saved stamp source saved q db) (save_if stamp.now)))
    unfolding apply_saved
    apply_saved-IsSettled none (a, changed) db asked stage state =
        save_if-IsSettled (a, changed) db stage state
          (subst (λ o. AgreesSaved o a.is_saved) asked tt)
    apply_saved-IsSettled (some b) (a, changed) db asked stage state =
        elim (Bool-cases (bool_eq a.is_saved b)) [
          | inl e ↦
              let same = bool_eq_sound a.is_saved b e in
              rw e (
                save_if-IsSettled (a, changed) db stage state
                  (subst (λ o. AgreesSaved o a.is_saved) asked same))
          | inr e ↦ rw e (
              save_if-IsSettled (record a { is_saved = b }, true) _
                (stage.0, stage.1, stage.2, λ c. cc) state
                (subst (λ o. AgreesSaved o b) asked refl))
        ]

    continue-IsSettled :
        (p : Result (UserGameAffinity × Bool) × Db)
        → Reacted a0 db0 reaction p
        → IsSettled user game is_saved reaction db0 (
            roll_back db0
              (continue p (λ q. apply_saved stamp source is_saved q >>= λ r. save_if stamp.now r)))
    continue-IsSettled (err e, db) invalid = (invalid, refl)
    continue-IsSettled (ok q, db) (stage, state) =
        apply_saved-IsSettled is_saved q db refl stage state

-- The row is found or created before the transaction.
abbrev pub created_first : ℕ → ℕ → ℕ → Option UserGameAffinity → Db → Db
created_first user game now none db = record db {
  affinities = db.affinities ++ new_affinity user game now ∷ [];
}
created_first user game now (some a) db = db

-- A refused reaction changes nothing beyond the row that a first call creates. Otherwise the row of
-- the user and the game is the affinity that is returned, with the reaction and the saving that
-- were asked for, and the affinities of other users and games are found as before.
pub update_game_interaction-IsSettled :
    (stamp : Stamp) (user game : ℕ) (source : SourceType) (is_saved : Option Bool)
    (reaction : Option String) (db : Db)
    → let db0 = created_first user game stamp.now (affinity_of user game db.affinities) db in
      IsSettled user game is_saved reaction db0
        (update_game_interaction stamp user game source is_saved reaction db)
      × (db0.interaction_logs ≡ db.interaction_logs)
      × ((u g : ℕ)
          → ¬ ((u ≡ user) × (g ≡ game))
          → affinity_of u g db0.affinities ≡ affinity_of u g db.affinities)
unfolding update_game_interaction get_or_create_affinity
update_game_interaction-IsSettled stamp user game source is_saved reaction db =
    elim (Option-cases (affinity_of user game db.affinities)) [
      | inr (a, e) ↦ rw e (
        continue-IsSettled stamp user game source is_saved reaction a db e
            (apply_reaction stamp source a reaction db)
            (apply_reaction-Reacted stamp source a reaction db),
        refl,
        λ u g other. refl,
      )
      | inl e ↦
          let a = new_affinity user game stamp.now in
          let db0 = record db { affinities = db.affinities ++ a ∷ [] } in
          rw e (
            continue-IsSettled stamp user game source is_saved reaction a db0
                (affinity_of-append user game a db.affinities refl refl e)
                (apply_reaction stamp source a reaction db0)
                (apply_reaction-Reacted stamp source a reaction db0),
            refl,
            λ u g other. affinity_of-append_ne user game u g a db.affinities refl refl other,
          )
    ]

react_idle :
    (stamp : Stamp) (source : SourceType) (a : UserGameAffinity) (reaction : Option String)
    (db : Db)
    → AgreesState reaction a.like_state
    → apply_reaction stamp source a reaction db ≡ (ok (a, false), db)
unfolding apply_reaction react
react_idle stamp source a none db h = refl
react_idle stamp source a (some reaction) db h = rw h (rw (state_eq_refl a.like_state) refl)

saved_idle :
    (stamp : Stamp) (source : SourceType) (a : UserGameAffinity) (is_saved : Option Bool) (db : Db)
    → AgreesSaved is_saved a.is_saved
    → apply_saved stamp source is_saved (a, false) db ≡ (ok (a, false), db)
unfolding apply_saved
saved_idle stamp source a none db h = refl
saved_idle stamp source a (some b) db h = rw h (rw (bool_eq_refl b) refl)

-- A call that returned, made again at any later time, returns the same affinity, and logs and
-- writes nothing.
pub update_game_interaction_again :
    (stamp later : Stamp) (user game : ℕ) (source : SourceType) (is_saved : Option Bool)
    (reaction : Option String) (a : UserGameAffinity) (db db' : Db)
    → update_game_interaction stamp user game source is_saved reaction db ≡ (ok a, db')
    → update_game_interaction later user game source is_saved reaction db' ≡ (ok a, db')
unfolding update_game_interaction get_or_create_affinity save_if
update_game_interaction_again stamp later user game source is_saved reaction a db db' once =
    let db0 = created_first user game stamp.now (affinity_of user game db.affinities) db in
    let (found, state, saved, others) =
      subst (IsSettled user game is_saved reaction db0) once
        (update_game_interaction-IsSettled stamp user game source is_saved reaction db).0 in
    rw found (
      rw (react_idle later source a reaction db' state)
        (rw (saved_idle later source a is_saved db' saved) refl))
