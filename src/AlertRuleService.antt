-- ===== src/AlertRuleService.antt =====
-- services/control-plane/src/app/alert-rule-service.ts: the commands on alert rules.
pub mod Steps
pub mod Names
pub mod Sources
mod Tests
use logalot.Authorize.{assert_can}
use logalot.Ports.{TenantContext}
use logalot.Domain.Action.{◌>>=◌, ◌>>◌, Action, lift, pure, throw_when}
use logalot.Domain.Rbac.{Operation}
use logalot.Domain.Email.{trim}
use logalot.Domain.Errors.{ok, err, Result, Error, not_found, validation, text, naming, Message}
use logalot.Named.{catch_unique}
use logalot.AlertRules.{
  AlertRules, AlertRule, AlertRulePatch, NewAlertRule, AlertComparator, RuleQuery, NotifyChannel,
  webhook, email, insert_rule, update_rule, find_rule, list_rules, delete_rule,
}
use logalot.Base.{
  none, some, [], ◌∷◌, true, false, if◌then◌else◌, Text, List, ℕ, Option, Bool, ◌&&◌, ◌||◌, not,
  is_none, is_empty,
}

pub record CreateAlertRuleCommand : Type 0 where
  pub name : Text
  pub saved_query_id : Option Text
  pub query : RuleQuery
  pub comparator : AlertComparator
  pub threshold : Text
  pub window_seconds : ℕ
  pub severity : Text
  pub enabled : Bool
  pub notify_channels : List NotifyChannel

-- `s?.trim()`, `s` and `labels && Object.keys(labels).length > 0` as tests
abbrev pub has_words : Option Text → Bool
has_words none = false
has_words (some s) = not (is_empty (trim s))

abbrev pub has_value : Option Text → Bool
has_value none = false
has_value (some s) = not (is_empty s)

abbrev pub has_labels : Option (List (Text × Text)) → Bool
has_labels none = false
has_labels (some []) = false
has_labels (some (l ∷ ls)) = true

unfoldable pub has_inline_query : RuleQuery → Bool
has_inline_query q =
    has_words q.text || has_words q.service || has_value q.level || has_labels q.labels

-- One round of `assertChannels`.
abbrev pub check_channel : NotifyChannel → Result (Unit {0})
check_channel (webhook url) =
    if is_empty url then err (validation (text "webhook channel requires a url")) else ok tt
check_channel (email to) =
    if is_empty to then err (validation (text "email channel requires a recipient")) else ok tt

unfoldable pub assert_channels : List NotifyChannel → Result (Unit {0})
assert_channels [] = ok tt
assert_channels (ch ∷ chs) = elim (check_channel ch) [ ok _ ↦ assert_channels chs | err e ↦ err e ]

-- `a === b` on truth values
abbrev pub same_truth : Bool → Bool → Bool
same_truth true b = b
same_truth false b = not b

abbrev pub one_source : Error
one_source = validation (text "provide exactly one of: savedQueryId, or a non-empty query")

unfoldable pub assert_query_source : Option Text → RuleQuery → Result (Unit {0})
assert_query_source saved_query_id query =
    if same_truth (not (is_none saved_query_id)) (has_inline_query query)
    then err one_source
    else ok tt

abbrev pub rule_input_of : TenantContext → CreateAlertRuleCommand → NewAlertRule
rule_input_of ctx cmd = record {
  name = cmd.name;
  saved_query_id = cmd.saved_query_id;
  query = cmd.query;
  comparator = cmd.comparator;
  threshold = cmd.threshold;
  window_seconds = cmd.window_seconds;
  severity = cmd.severity;
  enabled = cmd.enabled;
  notify_channels = cmd.notify_channels;
  created_by = some ctx.principal_id;
}

abbrev pub create_rule :
    TenantContext → CreateAlertRuleCommand → Text → ℕ → Action AlertRules AlertRule
create_rule ctx cmd new_id now rows =
    let end = insert_rule ctx.tenant_id (rule_input_of ctx cmd) new_id now rows in
    (catch_unique (naming "an alert rule named '" cmd.name "' already exists") end.0, end.1)

unfoldable pub create :
    TenantContext → CreateAlertRuleCommand → Text → ℕ → Action AlertRules AlertRule
create ctx cmd new_id now = do
  lift (assert_can ctx Operation.alert_create)
  lift (assert_channels cmd.notify_channels)
  lift (assert_query_source cmd.saved_query_id cmd.query)
  create_rule ctx cmd new_id now

unfoldable pub list : TenantContext → Action AlertRules (List AlertRule)
list ctx rows =
    (lift (assert_can ctx Operation.alert_list) >> pure (list_rules ctx.tenant_id rows)) rows

abbrev pub rule_missing : Message
rule_missing = text "alert rule not found"

abbrev pub found_rule : Option AlertRule → Result AlertRule
found_rule none = err (not_found rule_missing)
found_rule (some rule) = ok rule

unfoldable pub get : TenantContext → Text → Action AlertRules AlertRule
get ctx id rows =
    (lift (assert_can ctx Operation.alert_read)
        >> lift (found_rule (find_rule ctx.tenant_id id rows)))
      rows

-- `if (patch.notifyChannels) …`
abbrev pub check_patch_channels : Option (List NotifyChannel) → Result (Unit {0})
check_patch_channels none = ok tt
check_patch_channels (some channels) = assert_channels channels

-- `patch.savedQueryId == null`, of a missing one and of null
abbrev pub sets_no_saved : Option (Option Text) → Bool
sets_no_saved none = true
sets_no_saved (some none) = true
sets_no_saved (some (some id)) = false

abbrev pub empties_query : AlertRulePatch → Bool
empties_query patch = elim patch.query [
  | none ↦ false
  | some query ↦ not (has_inline_query query) && sets_no_saved patch.saved_query_id
]

abbrev pub query_emptied : Error
query_emptied =
    validation (text "query cannot be emptied; set a savedQueryId to switch query source")

abbrev pub patch_rule :
    TenantContext → Text → AlertRulePatch → ℕ → Action AlertRules (Option AlertRule)
patch_rule ctx id patch now rows =
    let end = update_rule ctx.tenant_id id patch now rows in
    (catch_unique (text "an alert rule with that name already exists") end.0, end.1)

unfoldable pub update : TenantContext → Text → AlertRulePatch → ℕ → Action AlertRules AlertRule
update ctx id patch now = do
  lift (assert_can ctx Operation.alert_update)
  lift (check_patch_channels patch.notify_channels)
  throw_when (empties_query patch) query_emptied
  updated ← patch_rule ctx id patch now
  lift (found_rule updated)

abbrev pub remove_rule : TenantContext → Text → Action AlertRules (Unit {0})
remove_rule ctx id rows =
    let end = delete_rule ctx.tenant_id id rows in
    (if end.0 then ok tt else err (not_found rule_missing), end.1)

unfoldable pub remove : TenantContext → Text → Action AlertRules (Unit {0})
remove ctx id = lift (assert_can ctx Operation.alert_delete) >> remove_rule ctx id
