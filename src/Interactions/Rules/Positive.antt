-- ===== src/Interactions/Rules/Positive.antt =====
-- Updates that pass the checks keep the rules positive.
use gechu_backend.Base.{
  ◌≡◌, refl, true, false, Option, none, some, List, [], ◌∷◌, All, arith, Bool-cases, inl, inr,
}
use gechu_backend.Base.Int.{ℤ}
use gechu_backend.Core.Errors.{ok}
use gechu_backend.Models.Interaction.{
  ActionType, SourceType, InteractionWeightRule, InteractionContextRule,
}
use gechu_backend.Interactions.Record.{action_eq, source_eq}
use gechu_backend.Interactions.Rules.{
  WeightUpdate, is_positive, is_negative, given_not_positive, given_negative,
  validate_weight_update, validate_multiplier, given_or, changed_rule, get_weight_rule,
  update_weight_rule, update_context_rule,
}

abbrev pub IsPositiveRule : InteractionWeightRule → Type 0
IsPositiveRule w =
    (is_positive w.base_weight ≡ true)
    × (is_negative w.cooldown_seconds ≡ false)
    × (is_positive w.repeat_decay ≡ true)

abbrev pub IsPositiveContext : InteractionContextRule → Type 0
IsPositiveContext c = is_positive c.multiplier ≡ true

abbrev Checked : WeightUpdate → Type 0
Checked u =
    (given_not_positive u.base_weight ≡ false)
    × (given_negative u.cooldown_seconds ≡ false)
    × (given_not_positive u.repeat_decay ≡ false)

validate-Checked : (u v : WeightUpdate) → validate_weight_update u ≡ ok v → (v ≡ u) × Checked u
unfolding validate_weight_update
validate-Checked u v h = ground arith

given_or-positive :
    (o : Option ℤ) (old : ℤ)
    → given_not_positive o ≡ false
    → is_positive old ≡ true
    → is_positive (given_or o old) ≡ true
given_or-positive none old h p = p
given_or-positive (some z) old h p = ground arith

given_or-not_negative :
    (o : Option ℤ) (old : ℤ)
    → given_negative o ≡ false
    → is_negative old ≡ false
    → is_negative (given_or o old) ≡ false
given_or-not_negative none old h p = p
given_or-not_negative (some z) old h p = h

changed_rule-IsPositiveRule :
    (u : WeightUpdate) (w : InteractionWeightRule)
    → Checked u
    → IsPositiveRule w
    → IsPositiveRule (changed_rule u w)
unfolding changed_rule
changed_rule-IsPositiveRule u w (b, c, d) (pb, pc, pd) = (
  given_or-positive u.base_weight w.base_weight b pb,
  given_or-not_negative u.cooldown_seconds w.cooldown_seconds c pc,
  given_or-positive u.repeat_decay w.repeat_decay d pd,
)

module _ (type : ActionType) (u : WeightUpdate) where
  update_weight_rule-All :
      (rules : List InteractionWeightRule)
      → Checked u
      → All IsPositiveRule rules
      → All IsPositiveRule (update_weight_rule type u rules).1
  unfolding update_weight_rule
  update_weight_rule-All [] c h = tt
  update_weight_rule-All (w ∷ rules) c h = elim (Bool-cases (action_eq type w.interaction_type)) [
    | inl e ↦ rw e (changed_rule-IsPositiveRule u w c h.0, h.1)
    | inr e ↦ rw e (h.0, update_weight_rule-All rules c h.1)
  ]

  update_weight_rule-found :
      (rules : List InteractionWeightRule)
      → let (found, rules') = update_weight_rule type u rules in get_weight_rule type rules' ≡ found
  unfolding update_weight_rule get_weight_rule changed_rule
  update_weight_rule-found [] = refl
  update_weight_rule-found (w ∷ rules) = elim (Bool-cases (action_eq type w.interaction_type)) [
    | inl e ↦ rw (e, e) refl
    | inr e ↦ rw (e, e) (update_weight_rule-found rules)
  ]

module _ (source : SourceType) (multiplier : ℤ) where
  update_context_rule-All :
      (rules : List InteractionContextRule)
      → is_positive multiplier ≡ true
      → All IsPositiveContext rules
      → All IsPositiveContext (update_context_rule source multiplier rules).1
  unfolding update_context_rule
  update_context_rule-All [] c h = tt
  update_context_rule-All (r ∷ rules) c h =
      elim (Bool-cases (source_eq source r.interaction_source)) [
        | inl e ↦ rw e (c, h.1)
        | inr e ↦ rw e (h.0, update_context_rule-All rules c h.1)
      ]

-- A weight update that passes the request's checks keeps every base weight and decay above 0 and
-- every cooldown at 0 or more, and returns the rule as it is then found; a multiplier that passes
-- its check keeps every multiplier above 0.
pub update_rules-IsPositive :
    (type : ActionType) (u v : WeightUpdate) (rules : List InteractionWeightRule)
    (source : SourceType) (asked multiplier : ℤ) (contexts : List InteractionContextRule)
    → validate_weight_update u ≡ ok v
    → validate_multiplier asked ≡ ok multiplier
    → All IsPositiveRule rules
    → All IsPositiveContext contexts
    → let (found, rules') = update_weight_rule type v rules in
      All IsPositiveRule rules'
      × (get_weight_rule type rules' ≡ found)
      × All IsPositiveContext (update_context_rule source multiplier contexts).1
unfolding validate_multiplier
update_rules-IsPositive type u v rules source asked multiplier contexts passed allowed h k =
    let (same, checked) = validate-Checked u v passed in
    let above : is_positive multiplier ≡ true = ground arith in
    rw same (
      update_weight_rule-All type u rules checked h,
      update_weight_rule-found type u rules,
      update_context_rule-All source multiplier contexts above k,
    )
