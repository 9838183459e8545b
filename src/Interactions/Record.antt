-- ===== src/Interactions/Record.antt =====
-- apps/interactions/services/view_log_service.py: recording that a user saw a game, searched it, or
-- clicked on a store.
pub mod Results
use gechu_backend.Base.{
  ℕ, zero, suc, ◌+◌, ◌*◌, ◌^◌, ◌≡◌, Bool, true, false, not, ◌&&◌, Option, none, some, String,
  string_eq, List, [], ◌∷◌, ◌++◌, filter, first, length, elem, ltb, leb, ◌==◌, if◌then◌else◌,
}
use gechu_backend.Base.Int.{ℤ, pos, negsuc, pos_part, neg_part}
use gechu_backend.Base.Sort.{sort_by, descending}
use gechu_backend.Core.Errors.{
  Error, api, validation_error, interaction_type_not_found, source_not_found, store_not_found,
  does_not_exist, data_error, Result, ok, err,
}
use gechu_backend.Core.Exec.{
  Exec, pure, raise, gets, atomic, modify, or_raise, raise_if, ◌>>=◌, ◌>>◌,
}
use gechu_backend.Models.{Db}
use gechu_backend.Models.User.{User as UserRow}
use gechu_backend.Models.Interaction.{
  ActionType, view, search, saved_add, saved_remove, like, dislike, preference_set, store_click,
  unlisted, SourceType, list_page, detail_page, search_result, recommendation, saved_page,
  onboarding, InteractionLog, InteractionWeightRule, InteractionContextRule,
}
use gechu_backend.Interactions.Decimal.{Decimal, from_units, ◌*ᵈ◌, power, quantize}

abbrev pub max_effective_repeat_count : ℕ
max_effective_repeat_count = 10

abbrev pub action_eq : ActionType → ActionType → Bool
action_eq view view = true
action_eq search search = true
action_eq saved_add saved_add = true
action_eq saved_remove saved_remove = true
action_eq like like = true
action_eq dislike dislike = true
action_eq preference_set preference_set = true
action_eq store_click store_click = true
action_eq (unlisted a) (unlisted b) = string_eq a b
action_eq _ _ = false

abbrev pub source_eq : SourceType → SourceType → Bool
source_eq list_page list_page = true
source_eq detail_page detail_page = true
source_eq search_result search_result = true
source_eq recommendation recommendation = true
source_eq saved_page saved_page = true
source_eq onboarding onboarding = true
source_eq _ _ = false

-- A filter that a service may leave out.
abbrev pub asks_store : Option ℕ → Option ℕ → Bool
asks_store none o = true
asks_store (some s) none = false
asks_store (some s) (some t) = s == t

abbrev pub asks_query : Option String → Option String → Bool
asks_query none o = true
asks_query (some q) none = false
asks_query (some q) (some r) = string_eq q r

abbrev pub is_weighed : Option ℤ → Bool
is_weighed none = false
is_weighed (some w) = true

-- What one call records. `metadata` is the JSON text of an argument other than `None`, or `none`
-- inside where `json.dumps` raises.
pub record Request : Type 0 where
  pub user_id : ℕ
  pub game_id : ℕ
  pub store : Option ℕ
  pub search_query : Option String
  pub type : ActionType
  pub source : SourceType
  pub metadata : Option (Option String)

-- The identity and time that the database gives the row, and the clock at the cooldown test.
pub record Context : Type 0 where
  pub now : ℕ
  pub new_id : ℕ
  pub created_at : ℕ

unfoldable pub is_reusable : Request → InteractionLog → Bool
is_reusable r l =
    r.user_id == l.user_id
    && asks_store (some r.game_id) l.igdb_game_id
    && asks_store r.store l.store_id
    && action_eq r.type l.type
    && source_eq r.source l.source
    && asks_query r.search_query l.search_query
    && is_weighed l.weight

unfoldable pub is_repeat : Request → InteractionLog → Bool
is_repeat r l =
    r.user_id == l.user_id
    && asks_store (some r.game_id) l.igdb_game_id
    && asks_store r.store l.store_id
    && action_eq r.type l.type

abbrev pub dumps_fails : Option (Option String) → Bool
dumps_fails (some none) = true
dumps_fails (some (some text)) = false
dumps_fails none = false

abbrev pub text_of : Option (Option String) → Option String
text_of none = none
text_of (some o) = o

abbrev pub weight_rule_of : ActionType → Db → Option InteractionWeightRule
weight_rule_of type db =
    first (filter (λ w. action_eq type w.interaction_type && w.is_active) db.weight_rules)

abbrev pub context_rule_of : SourceType → Db → Option InteractionContextRule
context_rule_of source db =
    first (filter (λ c. source_eq source c.interaction_source) db.context_rules)

abbrev pub user_of : ℕ → Db → Option UserRow
user_of user db = first (filter (λ u. user == u.id) db.users)

unfoldable pub latest_reusable_log : Request → Db → Option InteractionLog
latest_reusable_log r db =
    first (sort_by (descending (λ l. l.created_at)) (filter (is_reusable r) db.interaction_logs))

-- `timedelta(seconds=...)`, in microseconds
abbrev pub within_cooldown : ℕ → ℤ → InteractionLog → Bool
within_cooldown now cooldown l =
    ltb 0 (pos_part cooldown) && leb now (l.created_at + pos_part cooldown * 1000000)

unfoldable pub reused : ℕ → ℤ → Option InteractionLog → Option InteractionLog
reused now cooldown none = none
reused now cooldown (some l) = if within_cooldown now cooldown l then some l else none

abbrev pub effective_repeat_count : ℕ → ℕ
effective_repeat_count n =
    if leb n max_effective_repeat_count then n else max_effective_repeat_count

unfoldable pub weight_of : InteractionWeightRule → InteractionContextRule → ℕ → ℤ
weight_of w c repeats = quantize (
    from_units w.base_weight 2
    *ᵈ from_units c.multiplier 2
    *ᵈ power (from_units w.repeat_decay 3) (effective_repeat_count repeats))

-- `numeric(6, 4)`
abbrev pub fits : ℤ → Bool
fits weight = ltb (pos_part weight + neg_part weight) (10 ^ 6)

abbrev pub new_log : Context → Request → ℤ → InteractionLog
new_log ctx r weight = record {
  id = ctx.new_id;
  user_id = r.user_id;
  igdb_game_id = some r.game_id;
  store_id = r.store;
  search_query = r.search_query;
  type = r.type;
  weight = some weight;
  source = r.source;
  metadata = text_of r.metadata;
  created_at = ctx.created_at;
}

unfoldable pub create_log : InteractionLog → ℤ → Exec Db (InteractionLog × Bool)
create_log log weight db =
    if fits weight
    then (ok (log, true), record db { interaction_logs = db.interaction_logs ++ log ∷ [] })
    else (err data_error, db)

unfoldable pub reuse_or_create :
    Context
    → Request
    → InteractionWeightRule
    → InteractionContextRule
    → Option InteractionLog
    → Exec Db (InteractionLog × Bool)
reuse_or_create ctx r w c (some log) db = (ok (log, false), db)
reuse_or_create ctx r w c none db =
    let weight = weight_of w c (length (filter (is_repeat r) db.interaction_logs)) in
    create_log (new_log ctx r weight) weight db

-- What the three services have in common from the rules on.
unfoldable pub record_interaction : Context → Request → Exec Db (InteractionLog × Bool)
record_interaction ctx r = do
  weight_rule ← gets (weight_rule_of r.type)
  w ← or_raise weight_rule (api interaction_type_not_found)
  context_rule ← gets (context_rule_of r.source)
  c ← or_raise context_rule (api source_not_found)
  atomic (do
    row ← gets (user_of r.user_id)
    or_raise row does_not_exist
    latest ← gets (latest_reusable_log r)
    reuse_or_create ctx r w c (reused ctx.now w.cooldown_seconds latest))

abbrev pub view_request : ℕ → ℕ → SourceType → Option (Option String) → Request
view_request user game source metadata = record {
  user_id = user;
  game_id = game;
  store = none;
  search_query = none;
  type = view;
  source = source;
  metadata = metadata;
}

abbrev pub search_request : ℕ → ℕ → SourceType → String → Option (Option String) → Request
search_request user game source query metadata = record {
  user_id = user;
  game_id = game;
  store = none;
  search_query = some query;
  type = search;
  source = source;
  metadata = metadata;
}

abbrev pub store_click_request : ℕ → ℕ → ℕ → SourceType → Option (Option String) → Request
store_click_request user game store source metadata = record {
  user_id = user;
  game_id = game;
  store = some store;
  search_query = none;
  type = store_click;
  source = source;
  metadata = metadata;
}

unfoldable pub record_view_interaction :
    Context → ℕ → ℕ → SourceType → Option (Option String) → Exec Db (InteractionLog × Bool)
record_view_interaction ctx user game source metadata = do
  raise_if (dumps_fails metadata) (api validation_error)
  record_interaction ctx (view_request user game source metadata)

pub record_search_interaction :
    Context → ℕ → ℕ → SourceType → String → Option (Option String) → Exec Db (InteractionLog × Bool)
record_search_interaction ctx user game source query metadata = do
  raise_if (dumps_fails metadata) (api validation_error)
  record_interaction ctx (search_request user game source query metadata)

pub record_store_click_interaction :
    Context → ℕ → ℕ → ℕ → SourceType → Option (Option String) → Exec Db (InteractionLog × Bool)
record_store_click_interaction ctx user game store source metadata = do
  raise_if (dumps_fails metadata) (api validation_error)
  known ← gets (λ db. elem store db.store_ids)
  raise_if (not known) (api store_not_found)
  record_interaction ctx (store_click_request user game store source metadata)
