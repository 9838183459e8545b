-- ===== src/Preferences/Affinity.antt =====
-- What `update_game_interaction` leaves: the affinity that was asked for, once.
use gechu_backend.Base.{
  ℕ, ◌≡◌, refl, ◌∙◌, ap, sym, Bool, true, false, Option, none, some, String, List, [], ◌∷◌, ◌++◌,
  arith, Bool-cases, Option-cases, inl, inr,
}
use gechu_backend.Core.Errors.{api, invalid_reaction, Result, ok, err}
use gechu_backend.Models.{Db}
use gechu_backend.Models.Interaction.{SourceType}
use gechu_backend.Models.Preference.{LikeState, UserGameAffinity}
use gechu_backend.Preferences.{
  Stamp, state_eq, reaction_map, is_affinity_of, affinity_of, save_affinity, react, apply_reaction,
  bool_eq,
}

module _ (user game : ℕ) where
  pub affinity_of-save_affinity :
      (new old : UserGameAffinity) (rows : List UserGameAffinity)
      → new.user_id ≡ user
      → new.igdb_game_id ≡ game
      → affinity_of user game rows ≡ some old
      → affinity_of user game (save_affinity new rows) ≡ some new
  unfolding affinity_of save_affinity is_affinity_of
  affinity_of-save_affinity new old [] u g h = cc
  affinity_of-save_affinity new old (a ∷ rows) u g h =
      ground (arith, affinity_of-save_affinity new old rows u g)

  pub affinity_of-save_affinity_ne :
      (v h : ℕ) (new : UserGameAffinity) (rows : List UserGameAffinity)
      → new.user_id ≡ user
      → new.igdb_game_id ≡ game
      → ¬ ((v ≡ user) × (h ≡ game))
      → affinity_of v h (save_affinity new rows) ≡ affinity_of v h rows
  unfolding affinity_of save_affinity is_affinity_of
  affinity_of-save_affinity_ne v h new [] u g other = refl
  affinity_of-save_affinity_ne v h new (a ∷ rows) u g other =
      ground (arith, affinity_of-save_affinity_ne v h new rows u g other)

  pub affinity_of-append :
      (new : UserGameAffinity) (rows : List UserGameAffinity)
      → new.user_id ≡ user
      → new.igdb_game_id ≡ game
      → affinity_of user game rows ≡ none
      → affinity_of user game (rows ++ new ∷ []) ≡ some new
  unfolding affinity_of is_affinity_of
  affinity_of-append new [] u g h = ground arith
  affinity_of-append new (a ∷ rows) u g h = ground (arith, affinity_of-append new rows u g)

  pub affinity_of-append_ne :
      (v h : ℕ) (new : UserGameAffinity) (rows : List UserGameAffinity)
      → new.user_id ≡ user
      → new.igdb_game_id ≡ game
      → ¬ ((v ≡ user) × (h ≡ game))
      → affinity_of v h (rows ++ new ∷ []) ≡ affinity_of v h rows
  unfolding affinity_of is_affinity_of
  affinity_of-append_ne v h new [] u g other = ground arith
  affinity_of-append_ne v h new (a ∷ rows) u g other =
      ground (arith, affinity_of-append_ne v h new rows u g other)

  pub affinity_of-fields :
      (a : UserGameAffinity) (rows : List UserGameAffinity)
      → affinity_of user game rows ≡ some a
      → (a.user_id ≡ user) × (a.igdb_game_id ≡ game)
  unfolding affinity_of is_affinity_of
  affinity_of-fields a [] h = cc
  affinity_of-fields a (b ∷ rows) h = ground (arith, affinity_of-fields a rows)

-- The state and the saving that a call asks for.
abbrev pub AgreesState : Option String → LikeState → Type 0
AgreesState none state = Unit
AgreesState (some reaction) state = reaction_map reaction ≡ some state

abbrev pub AgreesSaved : Option Bool → Bool → Type 0
AgreesSaved none saved = Unit
AgreesSaved (some asked) saved = saved ≡ asked

-- Between the steps: nothing is written to the affinities, and an unchanged affinity is the row's.
abbrev pub IsStage : UserGameAffinity → Db → UserGameAffinity × Bool → Db → Type 0
IsStage a0 db0 (a, has_changed) db =
    (db.affinities ≡ db0.affinities)
    × (a.user_id ≡ a0.user_id)
    × (a.igdb_game_id ≡ a0.igdb_game_id)
    × (has_changed ≡ false → a ≡ a0)

state_eq_sound : (s t : LikeState) → state_eq s t ≡ true → s ≡ t
state_eq_sound s t h = ground arith

pub state_eq_refl : (s : LikeState) → state_eq s s ≡ true
state_eq_refl s = ground arith

pub bool_eq_sound : (s t : Bool) → bool_eq s t ≡ true → s ≡ t
bool_eq_sound s t h = ground arith

pub bool_eq_refl : (s : Bool) → bool_eq s s ≡ true
bool_eq_refl s = ground arith

-- What the first step has done.
abbrev pub Reacted :
    UserGameAffinity → Db → Option String → Result (UserGameAffinity × Bool) × Db → Type 0
Reacted a0 db0 reaction (err e, db) = e ≡ api invalid_reaction
Reacted a0 db0 reaction (ok (a, has_changed), db) =
    IsStage a0 db0 (a, has_changed) db × AgreesState reaction a.like_state

react-Reacted :
    (stamp : Stamp) (source : SourceType) (a : UserGameAffinity) (state : LikeState)
    (reaction : String) (db : Db)
    → reaction_map reaction ≡ some state
    → Reacted a db (some reaction) (react stamp source a state db)
unfolding react
react-Reacted stamp source a state reaction db h = elim (Bool-cases (state_eq a.like_state state)) [
  | inl e ↦
      let same = state_eq_sound a.like_state state e in
      rw e ((refl, refl, refl, λ c. refl), h ∙ ap some (sym same))
  | inr e ↦ rw e ((refl, refl, refl, λ c. cc), h)
]

pub apply_reaction-Reacted :
    (stamp : Stamp) (source : SourceType) (a : UserGameAffinity) (reaction : Option String)
    (db : Db)
    → Reacted a db reaction (apply_reaction stamp source a reaction db)
unfolding apply_reaction
apply_reaction-Reacted stamp source a none db = ((refl, refl, refl, λ c. refl), tt)
apply_reaction-Reacted stamp source a (some reaction) db =
    elim (Option-cases (reaction_map reaction)) [
      | inl e ↦ rw e refl
      | inr (state, e) ↦ rw e (react-Reacted stamp source a state reaction db e)
    ]
