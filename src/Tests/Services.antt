-- ===== src/Tests/Services.antt =====
-- Tests of the interaction and preference services.
use gechu_backend.Base.{All, ℕ, ◌≡◌, ◌≢◌, refl, true, ◌&&◌, none, some, [], ◌∷◌, ◌++◌}
use gechu_backend.Base.Int.{pos}
use gechu_backend.Base.Round.{round_half_even}
use gechu_backend.Base.Sort.{sort_by}
use gechu_backend.Core.Errors.{ok}
use gechu_backend.Models.Interaction.{view, detail_page, InteractionLog}
use gechu_backend.Models.Preference.{liked, UserGameAffinity}
use gechu_backend.Interactions.Record.{
  Context, view_request, new_log, record_view_interaction, record_interaction, latest_reusable_log,
  is_reusable, is_repeat, reused, reuse_or_create, create_log, weight_of,
}
use gechu_backend.Interactions.Decimal.{excess, in_context, ◌*ᵈ◌, power, quantize}
use gechu_backend.Interactions.Rules.{
  WeightUpdate, validate_weight_update, validate_multiplier, get_weight_rule, update_weight_rule,
  update_context_rule,
}
use gechu_backend.Interactions.Rules.Positive.{
  IsPositiveRule, IsPositiveContext, update_rules-IsPositive,
}
use gechu_backend.Preferences.{
  get_or_create_affinity, apply_reaction, react, apply_saved, save_if, Stamp, affinity_of,
  new_affinity, update_game_interaction, Catalogue, links_fit, ensure_preference,
  update_user_preferences,
}
use gechu_backend.Preferences.Settled.{
  IsSettled, created_first, update_game_interaction-IsSettled, update_game_interaction_again,
}
use gechu_backend.Preferences.Replace.{IsReplaced, update_user_preferences-IsReplaced}
use gechu_backend.Recommendations.Candidates.{preference_of}
use gechu_backend.Tests.Samples.{sample_db, view_rule, detail_rule}

abbrev first_visit : Context
first_visit = record { now = 100000000; new_id = 6; created_at = 100000001 }

-- The user's second view of game 10: 1.00 * 1.50 * 0.900, after one earlier view.
abbrev visit_log : InteractionLog
visit_log = new_log first_visit (view_request 7 10 detail_page none) (pos 13500)

visited : record_view_interaction first_visit 7 10 detail_page none sample_db ≡ (
  ok (visit_log, true),
  record sample_db { interaction_logs = sample_db.interaction_logs ++ visit_log ∷ [] },
)
unfolding record_view_interaction record_interaction latest_reusable_log is_reusable is_repeat
    reused reuse_or_create create_log weight_of excess in_context ◌*ᵈ◌ power quantize
    round_half_even sort_by
visited = refl

abbrev morning : Stamp
morning = record { now = 200; reaction_id = 6; reaction_at = 201; saved_id = 7; saved_at = 202 }

abbrev evening : Stamp
evening = record { now = 300; reaction_id = 8; reaction_at = 301; saved_id = 9; saved_at = 302 }

update_game_interaction-IsSettled_example :
    let db0 = created_first 7 10 200 (affinity_of 7 10 sample_db.affinities) sample_db in
    IsSettled 7 10
      (some true)
      (some "like")
      db0
      (update_game_interaction morning 7 10 detail_page (some true) (some "like") sample_db)
    × (db0.interaction_logs ≡ sample_db.interaction_logs)
    × ((u g : ℕ)
        → ¬ ((u ≡ 7) × (g ≡ 10))
        → affinity_of u g db0.affinities ≡ affinity_of u g sample_db.affinities)
update_game_interaction-IsSettled_example =
    update_game_interaction-IsSettled morning 7 10 detail_page (some true) (some "like") sample_db

abbrev settled : UserGameAffinity
settled = record (new_affinity 7 10 200) { like_state = liked }

liked_once : update_game_interaction morning 7 10 detail_page none (some "like") sample_db ≡ (
  ok settled,
  (update_game_interaction morning 7 10 detail_page none (some "like") sample_db).1,
)
unfolding update_game_interaction affinity_of get_or_create_affinity apply_reaction react
    apply_saved save_if
liked_once = refl

update_game_interaction_again_example :
    let db' = (update_game_interaction morning 7 10 detail_page none (some "like") sample_db).1 in
    update_game_interaction evening 7 10 detail_page none (some "like") db' ≡ (ok settled, db')
update_game_interaction_again_example =
    update_game_interaction_again morning evening 7 10 detail_page none (some "like") settled
      sample_db (update_game_interaction morning 7 10 detail_page none (some "like") sample_db).1
      liked_once

abbrev catalogue : Catalogue
catalogue = record { genre = λ g. true; platform = λ p. true; tag = λ t. true }

update_user_preferences-IsReplaced_example :
    let (result, db') = update_user_preferences catalogue 7 (1 ∷ 2 ∷ []) (3 ∷ []) [] sample_db in
    IsReplaced 7
      (1 ∷ 2 ∷ [])
      (3 ∷ [])
      []
      (ensure_preference 7 sample_db.preferences)
      (links_fit catalogue.genre (1 ∷ 2 ∷ [])
        && links_fit catalogue.platform (3 ∷ [])
        && links_fit catalogue.tag [])
      (result, db'.preferences)
    × ((other : ℕ)
        → other ≢ 7
        → preference_of other db'.preferences ≡ preference_of other sample_db.preferences)
update_user_preferences-IsReplaced_example =
    update_user_preferences-IsReplaced catalogue 7 (1 ∷ 2 ∷ []) (3 ∷ []) [] sample_db

abbrev slower : WeightUpdate
slower = record { base_weight = none; cooldown_seconds = some (pos 120); repeat_decay = none }

update_rules-IsPositive_example :
    let (found, rules') = update_weight_rule view slower (view_rule ∷ []) in
    All IsPositiveRule rules'
    × (get_weight_rule view rules' ≡ found)
    × All IsPositiveContext (update_context_rule detail_page (pos 200) (detail_rule ∷ [])).1
unfolding validate_weight_update validate_multiplier
update_rules-IsPositive_example =
    update_rules-IsPositive view slower slower (view_rule ∷ []) detail_page (pos 200) (pos 200)
      (detail_rule ∷ []) refl refl ((refl, refl, refl), tt) (refl, tt)
