-- ===== src/Interactions/Rules.antt =====
-- apps/interactions/services/admin_weight_rule_service.py and admin_context_rule_service.py, with the
-- checks of the update requests in apps/interactions/serializers.py.
pub mod Positive
use gechu_backend.Base.{
  ℕ, suc, ◌≡◌, ◌≤◌, ◌<◌, Bool, true, false, not, ◌&&◌, ◌||◌, Option, none, some, List, [], ◌∷◌, ltb,
  if◌then◌else◌,
}
use gechu_backend.Base.Int.{ℤ, pos, pos_part, neg_part}
use gechu_backend.Base.Sort.{sort_by, ascending}
use gechu_backend.Core.Errors.{
  Error, api, validation_error, base_weight_invalid, multiplier_invalid, Result, ok, err,
}
use gechu_backend.Models.Interaction.{
  ActionType, view, search, saved_add, saved_remove, like, dislike, preference_set, store_click,
  unlisted, SourceType, list_page, detail_page, search_result, recommendation, saved_page,
  onboarding, InteractionLog, InteractionWeightRule, InteractionContextRule,
}
use gechu_backend.Interactions.Record.{action_eq, source_eq}

-- The place in `ordered_types`, or behind it.
abbrev pub action_order : ActionType → ℕ
action_order view = 0
action_order search = 1
action_order saved_add = 2
action_order saved_remove = 3
action_order like = 4
action_order dislike = 5
action_order preference_set = 6
action_order store_click = 7
action_order (unlisted text) = 8

abbrev pub source_order : SourceType → ℕ
source_order list_page = 0
source_order detail_page = 1
source_order search_result = 2
source_order recommendation = 3
source_order saved_page = 4
source_order onboarding = 5

pub list_weight_rules : List InteractionWeightRule → List InteractionWeightRule
list_weight_rules rules = sort_by (ascending (λ w. action_order w.interaction_type)) rules

pub list_context_rules : List InteractionContextRule → List InteractionContextRule
list_context_rules rules = sort_by (ascending (λ c. source_order c.interaction_source)) rules

-- The fields of an update request, as the serializer has parsed them.
pub record WeightUpdate : Type 0 where
  pub base_weight : Option ℤ
  pub cooldown_seconds : Option ℤ
  pub repeat_decay : Option ℤ

abbrev pub is_positive : ℤ → Bool
is_positive z = ltb 0 (pos_part z)

abbrev pub is_negative : ℤ → Bool
is_negative z = ltb 0 (neg_part z)

-- `value is not None and value <= 0`, and `value is not None and value < 0`
abbrev pub given_not_positive : Option ℤ → Bool
given_not_positive none = false
given_not_positive (some z) = not (is_positive z)

abbrev pub given_negative : Option ℤ → Bool
given_negative none = false
given_negative (some z) = is_negative z

abbrev pub is_absent : Option ℤ → Bool
is_absent none = true
is_absent (some z) = false

unfoldable pub validate_weight_update : WeightUpdate → Result WeightUpdate
validate_weight_update u =
    if is_absent u.base_weight && is_absent u.cooldown_seconds && is_absent u.repeat_decay
    then err (api validation_error)
    else if given_not_positive u.base_weight
    then err (api base_weight_invalid)
    else if given_negative u.cooldown_seconds
    then err (api validation_error)
    else if given_not_positive u.repeat_decay
    then err (api validation_error)
    else ok u

unfoldable pub validate_multiplier : ℤ → Result ℤ
validate_multiplier value = if is_positive value then ok value else err (api multiplier_invalid)

abbrev pub given_or : Option ℤ → ℤ → ℤ
given_or none old = old
given_or (some z) old = z

pub changed_rule : WeightUpdate → InteractionWeightRule → InteractionWeightRule
changed_rule u w = record w {
  base_weight = given_or u.base_weight w.base_weight;
  cooldown_seconds = given_or u.cooldown_seconds w.cooldown_seconds;
  repeat_decay = given_or u.repeat_decay w.repeat_decay;
}

pub get_weight_rule : ActionType → List InteractionWeightRule → Option InteractionWeightRule
get_weight_rule type [] = none
get_weight_rule type (w ∷ rules) =
    if action_eq type w.interaction_type then some w else get_weight_rule type rules

-- The row that `get_weight_rule` finds is changed and saved; without one nothing is.
pub update_weight_rule :
    ActionType
    → WeightUpdate
    → List InteractionWeightRule
    → Option InteractionWeightRule × List InteractionWeightRule
update_weight_rule type u [] = (none, [])
update_weight_rule type u (w ∷ rules) =
    let (found, rest) = update_weight_rule type u rules in
    if action_eq type w.interaction_type
    then (some (changed_rule u w), changed_rule u w ∷ rules)
    else (found, w ∷ rest)

pub get_context_rule : SourceType → List InteractionContextRule → Option InteractionContextRule
get_context_rule source [] = none
get_context_rule source (c ∷ rules) =
    if source_eq source c.interaction_source then some c else get_context_rule source rules

pub update_context_rule :
    SourceType
    → ℤ
    → List InteractionContextRule
    → Option InteractionContextRule × List InteractionContextRule
update_context_rule source multiplier [] = (none, [])
update_context_rule source multiplier (c ∷ rules) =
    let (found, rest) = update_context_rule source multiplier rules in
    if source_eq source c.interaction_source
    then (some (record c { multiplier = multiplier }), record c { multiplier = multiplier } ∷ rules)
    else (found, c ∷ rest)
