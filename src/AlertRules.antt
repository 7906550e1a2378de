-- ===== src/AlertRules.antt =====
-- services/control-plane/src/adapters/postgres/alert-rule-repository.ts: the table of alert rules. The
-- constraints are those of migrations/000009_alert_rules.up.sql and
-- 000014_alert_rules_query_source.up.sql, but for the references that an INSERT must
-- meet. A threshold, on which nothing here computes, is the text of its decimal.
use logalot.Domain.Errors.{ok, err, Result, pg_error}
use logalot.Named.{NamedTable, insert_row, update_row, delete_row, find_row, list_rows}
use logalot.Base.{
  none, some, if◌then◌else◌, Text, List, ℕ, Option, Bool, ◌&&◌, ◌||◌, not, or_else, is_none, ltb,
  leb,
}

pub data AlertComparator : Type 0 where
  gt gte lt lte eq : AlertComparator

pub data AlertState : Type 0 where
  ok_state firing no_data : AlertState

pub record RuleQuery : Type 0 where
  pub text : Option Text
  pub service : Option Text
  pub level : Option Text
  pub labels : Option (List (Text × Text))

pub data NotifyChannel : Type 0 where
  webhook : Text → NotifyChannel
  email : Text → NotifyChannel

-- A row, and its projection, which has the same fields.
pub record AlertRule : Type 0 where
  pub id : Text
  pub tenant_id : Text
  pub name : Text
  pub saved_query_id : Option Text
  pub query : RuleQuery
  pub comparator : AlertComparator
  pub threshold : Text
  pub window_seconds : ℕ
  pub severity : Text
  pub enabled : Bool
  pub notify_channels : List NotifyChannel
  pub state : AlertState
  pub last_evaluated_at : Option ℕ
  pub last_triggered_at : Option ℕ
  pub created_by : Option Text
  pub created_at : ℕ
  pub updated_at : ℕ

pub record NewAlertRule : Type 0 where
  pub name : Text
  pub saved_query_id : Option Text
  pub query : RuleQuery
  pub comparator : AlertComparator
  pub threshold : Text
  pub window_seconds : ℕ
  pub severity : Text
  pub enabled : Bool
  pub notify_channels : List NotifyChannel
  pub created_by : Option Text

-- A field that the patch does not have is `none`; the saved query may be set to null.
pub record AlertRulePatch : Type 0 where
  pub name : Option Text
  pub saved_query_id : Option (Option Text)
  pub query : Option RuleQuery
  pub comparator : Option AlertComparator
  pub threshold : Option Text
  pub window_seconds : Option ℕ
  pub severity : Option Text
  pub enabled : Option Bool
  pub notify_channels : Option (List NotifyChannel)

abbrev pub AlertRules : Type 0
AlertRules = List AlertRule

abbrev pub alert_rules : NamedTable AlertRule
alert_rules = record {
  tenant_id = λ r. r.tenant_id;
  id = λ r. r.id;
  name = λ r. r.name;
  created_at = λ r. r.created_at;
}

-- `query = '{}'::jsonb`
abbrev pub is_empty_object : RuleQuery → Bool
is_empty_object q = is_none q.text && is_none q.service && is_none q.level && is_none q.labels

-- CHECK (window_seconds BETWEEN 30 AND 86400), and alert_rules_query_source
abbrev pub rule_within_checks : AlertRule → Bool
rule_within_checks r =
    (leb 30 r.window_seconds && leb r.window_seconds 86400)
    && (not (is_none r.saved_query_id) || not (is_empty_object r.query))

-- The largest value of the column window_seconds.
abbrev pub max_window_integer : ℕ
max_window_integer = 2147483647

abbrev pub new_rule : Text → NewAlertRule → Text → ℕ → AlertRule
new_rule tenant_id input new_id now = record {
  id = new_id;
  tenant_id = tenant_id;
  name = input.name;
  saved_query_id = input.saved_query_id;
  query = input.query;
  comparator = input.comparator;
  threshold = input.threshold;
  window_seconds = input.window_seconds;
  severity = input.severity;
  enabled = input.enabled;
  notify_channels = input.notify_channels;
  state = AlertState.ok_state;
  last_evaluated_at = none;
  last_triggered_at = none;
  created_by = input.created_by;
  created_at = now;
  updated_at = now;
}

-- A number that is no integer of the database, a row that violates a CHECK, and one that violates a
-- unique constraint are the driver's errors.
unfoldable pub insert_rule :
    Text → NewAlertRule → Text → ℕ → AlertRules → Result AlertRule × AlertRules
insert_rule tenant_id input new_id now rows =
    if ltb max_window_integer input.window_seconds
    then (err (pg_error 22003), rows)
    else if not (rule_within_checks (new_rule tenant_id input new_id now))
    then (err (pg_error 23514), rows)
    else insert_row alert_rules (new_rule tenant_id input new_id now) rows

-- The columns that the patch sets, and the trigger on updated_at.
abbrev pub patched_rule : AlertRulePatch → ℕ → AlertRule → AlertRule
patched_rule patch now r = record r {
  name = or_else patch.name r.name;
  saved_query_id = or_else patch.saved_query_id r.saved_query_id;
  query = or_else patch.query r.query;
  comparator = or_else patch.comparator r.comparator;
  threshold = or_else patch.threshold r.threshold;
  window_seconds = or_else patch.window_seconds r.window_seconds;
  severity = or_else patch.severity r.severity;
  enabled = or_else patch.enabled r.enabled;
  notify_channels = or_else patch.notify_channels r.notify_channels;
  updated_at = now;
}

-- `sets.length === 0`
abbrev pub rule_sets_nothing : AlertRulePatch → Bool
rule_sets_nothing patch =
    is_none patch.name
    && is_none patch.saved_query_id
    && is_none patch.query
    && is_none patch.comparator
    && is_none patch.threshold
    && is_none patch.window_seconds
    && is_none patch.severity
    && is_none patch.enabled
    && is_none patch.notify_channels

unfoldable pub update_checked :
    Text → Text → AlertRulePatch → ℕ → AlertRules → Result (Option AlertRule) × AlertRules
update_checked tenant_id id patch now rows = elim (find_row alert_rules tenant_id id rows) [
  | none ↦ (ok none, rows)
  | some r ↦
      if not (rule_within_checks (patched_rule patch now r))
      then (err (pg_error 23514), rows)
      else update_row alert_rules tenant_id id (patched_rule patch now) rows
]

unfoldable pub update_rule :
    Text → Text → AlertRulePatch → ℕ → AlertRules → Result (Option AlertRule) × AlertRules
update_rule tenant_id id patch now rows =
    if rule_sets_nothing patch
    then (ok (find_row alert_rules tenant_id id rows), rows)
    else if ltb max_window_integer (or_else patch.window_seconds 0)
    then (err (pg_error 22003), rows)
    else update_checked tenant_id id patch now rows

unfoldable pub find_rule : Text → Text → AlertRules → Option AlertRule
find_rule tenant_id id rows = find_row alert_rules tenant_id id rows

unfoldable pub list_rules : Text → AlertRules → List AlertRule
list_rules tenant_id rows = list_rows alert_rules tenant_id rows

unfoldable pub delete_rule : Text → Text → AlertRules → Bool × AlertRules
delete_rule tenant_id id rows = delete_row alert_rules tenant_id id rows
