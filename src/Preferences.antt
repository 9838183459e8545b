-- ===== src/Preferences.antt =====
-- apps/preferences/services.py: what a user prefers, and the saving and rating of single games. The
-- link tables of a preference are the lists of ids in its row.
pub mod Affinity
pub mod Settled
pub mod Replace
use gechu_backend.Base.{
  ℕ, ◌+◌, ◌≡◌, Bool, true, false, not, ◌&&◌, ◌||◌, Option, none, some, String, string_eq, List, [],
  ◌∷◌, ◌++◌, filter, first, elem, leb, ◌==◌, if◌then◌else◌,
}
use gechu_backend.Base.Int.{ℤ, pos, leb_ℤ}
use gechu_backend.Base.Sort.{sort_by, descending}
use gechu_backend.Core.Errors.{Error, api, invalid_reaction, integrity_error, Result, ok, err}
use gechu_backend.Core.Exec.{
  Exec, pure, raise, gets, atomic, modify, or_raise, raise_if, ◌>>=◌, ◌>>◌,
}
use gechu_backend.Models.{Db}
use gechu_backend.Models.Interaction.{
  ActionType, view, search, saved_add, saved_remove, like, dislike, preference_set, store_click,
  unlisted, SourceType, InteractionLog,
}
use gechu_backend.Models.Preference.{
  UserPreference, LikeState, disliked, neutral, liked, UserGameAffinity,
}

-- The primary keys and the creation times of the rows that a call adds to the log.
pub record Stamp : Type 0 where
  pub now : ℕ
  pub reaction_id : ℕ
  pub reaction_at : ℕ
  pub saved_id : ℕ
  pub saved_at : ℕ

abbrev pub state_eq : LikeState → LikeState → Bool
state_eq disliked disliked = true
state_eq neutral neutral = true
state_eq liked liked = true
state_eq _ _ = false

-- `reaction_map.get(reaction)`
abbrev pub reaction_map : String → Option LikeState
reaction_map reaction =
    if string_eq reaction "like"
    then some liked
    else if string_eq reaction "neutral"
    then some neutral
    else if string_eq reaction "dislike"
    then some disliked
    else none

-- `type=reaction`, where the map has an entry: "neutral" is not among the choices of the log.
abbrev pub reaction_type : LikeState → ActionType
reaction_type liked = like
reaction_type neutral = unlisted "neutral"
reaction_type disliked = dislike

unfoldable pub is_affinity_of : ℕ → ℕ → UserGameAffinity → Bool
is_affinity_of user game a = user == a.user_id && game == a.igdb_game_id

unfoldable pub affinity_of : ℕ → ℕ → List UserGameAffinity → Option UserGameAffinity
affinity_of user game [] = none
affinity_of user game (a ∷ rows) =
    if is_affinity_of user game a then some a else affinity_of user game rows

abbrev pub new_affinity : ℕ → ℕ → ℕ → UserGameAffinity
new_affinity user game now = record {
  user_id = user;
  igdb_game_id = game;
  is_saved = false;
  like_state = neutral;
  preference_score = pos 0;
  last_interacted_at = now;
  calculated_at = now;
}

-- `affinity.save()`: the row of the user and the game is overwritten.
unfoldable pub save_affinity : UserGameAffinity → List UserGameAffinity → List UserGameAffinity
save_affinity new [] = []
save_affinity new (a ∷ rows) =
    if is_affinity_of new.user_id new.igdb_game_id a then new ∷ rows else a ∷ save_affinity new rows

unfoldable pub get_or_create_affinity :
    ℕ → ℕ → ℕ → Option UserGameAffinity → Exec Db UserGameAffinity
get_or_create_affinity user game now (some a) db = (ok a, db)
get_or_create_affinity user game now none db =
    let a = new_affinity user game now in (ok a, record db { affinities = db.affinities ++ a ∷ [] })

unfoldable pub new_log : ℕ → ℕ → ℕ → ℕ → ActionType → SourceType → InteractionLog
new_log id at user game type source = record {
  id = id;
  user_id = user;
  igdb_game_id = some game;
  store_id = none;
  search_query = none;
  type = type;
  weight = none;
  source = source;
  metadata = none;
  created_at = at;
}

abbrev pub append_log : InteractionLog → Exec Db (Unit {0})
append_log log = modify (λ db. record db { interaction_logs = db.interaction_logs ++ log ∷ [] })

-- The affinity in memory, and whether it has changed.
unfoldable pub react :
    Stamp → SourceType → UserGameAffinity → LikeState → Exec Db (UserGameAffinity × Bool)
react stamp source a state = if state_eq a.like_state state then pure (a, false) else do
  append_log (
      new_log stamp.reaction_id stamp.reaction_at a.user_id a.igdb_game_id (reaction_type state)
        source)
  pure (record a { like_state = state }, true)

unfoldable pub apply_reaction :
    Stamp → SourceType → UserGameAffinity → Option String → Exec Db (UserGameAffinity × Bool)
apply_reaction stamp source a none = pure (a, false)
apply_reaction stamp source a (some reaction) = do
  state ← or_raise (reaction_map reaction) (api invalid_reaction)
  react stamp source a state

abbrev pub bool_eq : Bool → Bool → Bool
bool_eq true b = b
bool_eq false b = not b

unfoldable pub apply_saved :
    Stamp → SourceType → Option Bool → UserGameAffinity × Bool → Exec Db (UserGameAffinity × Bool)
apply_saved stamp source none (a, has_changed) = pure (a, has_changed)
apply_saved stamp source (some is_saved) (a, has_changed) =
    if bool_eq a.is_saved is_saved then pure (a, has_changed) else do
      append_log (
          new_log stamp.saved_id stamp.saved_at a.user_id a.igdb_game_id
            (if is_saved then saved_add else saved_remove) source)
      pure (record a { is_saved = is_saved }, true)

unfoldable pub save_if : ℕ → UserGameAffinity × Bool → Exec Db UserGameAffinity
save_if now (a, false) db = (ok a, db)
save_if now (a, true) db =
    let saved = record a { last_interacted_at = now } in
    (ok saved, record db { affinities = save_affinity saved db.affinities })

-- The row is created before the transaction, so it stays where the reaction is refused.
unfoldable pub update_game_interaction :
    Stamp → ℕ → ℕ → SourceType → Option Bool → Option String → Exec Db UserGameAffinity
update_game_interaction stamp user game source is_saved reaction = do
  row ← gets (λ db. affinity_of user game db.affinities)
  affinity ← get_or_create_affinity user game stamp.now row
  atomic (do
    reacted ← apply_reaction stamp source affinity reaction
    changed ← apply_saved stamp source is_saved reacted
    save_if stamp.now changed)

pub get_saved_games : ℕ → Db → List UserGameAffinity
get_saved_games user db =
    sort_by (descending (λ a. a.last_interacted_at))
      (filter (λ a. user == a.user_id && a.is_saved) db.affinities)

pub get_game_affinities : ℕ → Db → List UserGameAffinity
get_game_affinities user db =
    sort_by (λ a b. leb_ℤ b.preference_score a.preference_score)
      (filter (λ a. user == a.user_id) db.affinities)

-- `update_user_preferences`, with the unique constraints of the link tables
abbrev pub distinct : List ℕ → Bool
distinct [] = true
distinct (x ∷ xs) = not (elem x xs) && distinct xs

abbrev pub has_preference : ℕ → List UserPreference → Bool
has_preference user [] = false
has_preference user (p ∷ rows) = user == p.user_id || has_preference user rows

pub ensure_preference : ℕ → List UserPreference → List UserPreference
ensure_preference user rows =
    if has_preference user rows
    then rows
    else rows ++ record { user_id = user; genre_ids = []; platform_ids = []; tag_ids = [] } ∷ []

abbrev pub write_preference :
    (UserPreference → UserPreference) → ℕ → List UserPreference → List UserPreference
write_preference f user [] = []
write_preference f user (p ∷ rows) =
    if user == p.user_id then f p ∷ rows else p ∷ write_preference f user rows

abbrev pub write : (UserPreference → UserPreference) → ℕ → Exec Db (Unit {0})
write f user = modify (λ db. record db { preferences = write_preference f user db.preferences })

-- `known` says which genres, platforms and tags the tables of games have.
pub record Catalogue : Type 0 where
  pub genre : ℕ → Bool
  pub platform : ℕ → Bool
  pub tag : ℕ → Bool

abbrev pub all_known : (ℕ → Bool) → List ℕ → Bool
all_known known [] = true
all_known known (x ∷ xs) = known x && all_known known xs

abbrev pub links_fit : (ℕ → Bool) → List ℕ → Bool
links_fit known ids = distinct ids && all_known known ids

pub update_user_preferences : Catalogue → ℕ → List ℕ → List ℕ → List ℕ → Exec Db (Unit {0})
update_user_preferences catalogue user genre_ids platform_ids tag_ids = do
  modify (λ db. record db { preferences = ensure_preference user db.preferences })
  atomic (do
    write (λ p. record p { genre_ids = []; platform_ids = []; tag_ids = [] }) user
    raise_if (not (links_fit catalogue.genre genre_ids)) integrity_error
    write (λ p. record p { genre_ids = genre_ids }) user
    raise_if (not (links_fit catalogue.platform platform_ids)) integrity_error
    write (λ p. record p { platform_ids = platform_ids }) user
    raise_if (not (links_fit catalogue.tag tag_ids)) integrity_error
    write (λ p. record p { tag_ids = tag_ids }) user)
