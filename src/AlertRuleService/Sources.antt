-- ===== src/AlertRuleService/Sources.antt =====
-- The query sources of alert rules: a saved query, or an inline query that is not empty.
use logalot.Domain.Errors.{ok}
use logalot.Base.{
  false, [], is_empty, List, Bool, ◌≡◌, Text, All, not, ℕ, arith, is_none, ◌++◌, ◌∷◌, refl, some,
  Option, sym, ◌⊎◌, ◌||◌, ap, ◌∙◌, none, true, inl, inr, Option-cases, Bool-cases, ◌≤◌,
}
use logalot.AlertRuleService.{
  CreateAlertRuleCommand, create, update, assert_channels, assert_query_source, same_truth,
  has_inline_query, rule_input_of, empties_query, create_rule,
}
use logalot.AlertRules.{
  AlertRules, AlertRule, AlertRulePatch, NotifyChannel, webhook, email, RuleQuery, alert_rules,
  insert_rule, update_rule, update_checked, new_rule, patched_rule, rule_within_checks,
  rule_sets_nothing, is_empty_object,
}
use logalot.Named.{insert_row, update_row, find_row}
use logalot.Named.Unique.{IsUnique, rename_free}
use logalot.Ports.{TenantContext}
use logalot.Authorize.{assert_can}
use logalot.Domain.Rbac.{Operation, can}

-- A channel that has a target.
abbrev pub IsComplete : NotifyChannel → Type 0
IsComplete (webhook url) = is_empty url ≡ false
IsComplete (email to) = is_empty to ≡ false

assert_channels-IsComplete :
    (chs : List NotifyChannel) → assert_channels chs ≡ ok tt → All IsComplete chs
unfolding assert_channels
assert_channels-IsComplete [] h = tt
assert_channels-IsComplete (webhook url ∷ chs) h = ground (arith, assert_channels-IsComplete chs)
assert_channels-IsComplete (email to ∷ chs) h = ground (arith, assert_channels-IsComplete chs)

abbrev pub has_saved : AlertRule → Bool
has_saved r = not (is_none r.saved_query_id)

-- What a creation that succeeds has established.
pub record IsCreated (ctx : TenantContext) (rows : AlertRules) (rule : AlertRule)
    (after : AlertRules) : Type 0 where
  pub one_source : same_truth (has_saved rule) (has_inline_query rule.query) ≡ false
  pub complete : All IsComplete rule.notify_channels
  pub tenant : rule.tenant_id ≡ ctx.tenant_id
  pub appended : after ≡ rows ++ rule ∷ []

inserted-ok :
    (ctx : TenantContext) (cmd : CreateAlertRuleCommand) (new_id : Text) (now : ℕ)
    (rows : AlertRules) (rule : AlertRule)
    → (create_rule ctx cmd new_id now rows).0 ≡ ok rule
    → (rule ≡ new_rule ctx.tenant_id (rule_input_of ctx cmd) new_id now)
      × ((create_rule ctx cmd new_id now rows).1 ≡ rows ++ rule ∷ [])
unfolding insert_rule insert_row
inserted-ok ctx cmd new_id now rows rule h = ground arith

created-passes :
    (ctx : TenantContext) (cmd : CreateAlertRuleCommand) (new_id : Text) (now : ℕ)
    (rows : AlertRules) (rule : AlertRule)
    → (create ctx cmd new_id now rows).0 ≡ ok rule
    → (assert_channels cmd.notify_channels ≡ ok tt)
      × (assert_query_source cmd.saved_query_id cmd.query ≡ ok tt)
      × (create ctx cmd new_id now rows ≡ create_rule ctx cmd new_id now rows)
unfolding create
created-passes ctx cmd new_id now rows rule h = ground arith

source-one :
    (saved : Option Text) (query : RuleQuery)
    → assert_query_source saved query ≡ ok tt
    → same_truth (not (is_none saved)) (has_inline_query query) ≡ false
unfolding assert_query_source
source-one saved query h = ground arith

-- A rule that is created has exactly one source, a saved query or an inline query that is not empty;
-- each of its channels has a target; and it is appended to the table, in the tenant of the caller.
pub create_has_one_source :
    (ctx : TenantContext) (cmd : CreateAlertRuleCommand) (new_id : Text) (now : ℕ)
    (rows : AlertRules) (rule : AlertRule)
    → (create ctx cmd new_id now rows).0 ≡ ok rule
    → IsCreated ctx rows rule (create ctx cmd new_id now rows).1
create_has_one_source ctx cmd new_id now rows rule h =
    let (channels, source, same) = created-passes ctx cmd new_id now rows rule h in
    let (made, after) = inserted-ok ctx cmd new_id now rows rule (sym (ap (λ x. x.0) same) ∙ h) in
    record {
      one_source = rw made (source-one cmd.saved_query_id cmd.query source);
      complete = rw made (assert_channels-IsComplete cmd.notify_channels channels);
      tenant = rw made refl;
      appended = ap (λ x. x.1) same ∙ after;
    }

-- What an update that succeeds has established.
updated-passes :
    (ctx : TenantContext) (id : Text) (patch : AlertRulePatch) (now : ℕ) (rows : AlertRules)
    (rule : AlertRule)
    → (update ctx id patch now rows).0 ≡ ok rule
    → (empties_query patch ≡ false)
      × ((update_rule ctx.tenant_id id patch now rows).0 ≡ ok (some rule))
unfolding update
updated-passes ctx id patch now rows rule h = ground arith

checked-patched :
    (t id : Text) (patch : AlertRulePatch) (now : ℕ) (rows : AlertRules) (rule r : AlertRule)
    → find_row alert_rules t id rows ≡ some r
    → (update_checked t id patch now rows).0 ≡ ok (some rule)
    → rule ≡ patched_rule patch now r
unfolding update_checked update_row find_row
checked-patched t id patch now rows rule r f h = ground (arith, f, h)

checked-found :
    (t id : Text) (patch : AlertRulePatch) (now : ℕ) (rows : AlertRules) (rule : AlertRule)
    → (update_checked t id patch now rows).0 ≡ ok (some rule)
    → (r : AlertRule) × (find_row alert_rules t id rows ≡ some r)
unfolding update_checked
checked-found t id patch now rows rule h = elim (Option-cases (find_row alert_rules t id rows)) [
  | inl n ↦ absurd (ground (arith, n, h))
  | inr (r, f) ↦ (r, f)
]

updated-rule :
    (t id : Text) (patch : AlertRulePatch) (now : ℕ) (rows : AlertRules) (rule : AlertRule)
    → (update_rule t id patch now rows).0 ≡ ok (some rule)
    → (find_row alert_rules t id rows ≡ some rule)
      ⊎ ((update_checked t id patch now rows).0 ≡ ok (some rule))
unfolding update_rule
updated-rule t id patch now rows rule h = elim (Bool-cases (rule_sets_nothing patch)) [
  | inl nothing ↦ inl (ground arith)
  | inr some' ↦ inr (ground arith)
]

abbrev pub has_source : AlertRule → Bool
has_source r = has_saved r || has_inline_query r.query

-- `savedQueryId: null`
abbrev pub clears_saved : Option (Option Text) → Bool
clears_saved none = false
clears_saved (some none) = true
clears_saved (some (some id)) = false

some-eq : (a b : AlertRule) → some a ≡ some b → a ≡ b
some-eq a b e = cc

patched-has_source :
    (patch : AlertRulePatch) (now : ℕ) (r : AlertRule)
    → empties_query patch ≡ false
    → clears_saved patch.saved_query_id ≡ false
    → has_source r ≡ true
    → has_source (patched_rule patch now r) ≡ true
patched-has_source patch now r e k h = ground arith

-- An update leaves a rule with a source, where the rule had one and the patch does not set the saved
-- query to null: whatever else it sets, the inline query included, it is refused or the rule that it
-- answers with has a saved query or an inline query that is not empty.
pub update-has_source :
    (ctx : TenantContext) (id : Text) (patch : AlertRulePatch) (now : ℕ) (rows : AlertRules)
    (r rule : AlertRule)
    → find_row alert_rules ctx.tenant_id id rows ≡ some r
    → has_source r ≡ true
    → clears_saved patch.saved_query_id ≡ false
    → (update ctx id patch now rows).0 ≡ ok rule
    → has_source rule ≡ true
update-has_source ctx id patch now rows r rule f source keeps h =
    let (guarded, updated) = updated-passes ctx id patch now rows rule h in
    elim (updated-rule ctx.tenant_id id patch now rows rule updated) [
      | inl same ↦ let e : some r ≡ some rule = sym f ∙ same in rw (← some-eq r rule e) source
      | inr checked ↦
          rw (checked-patched ctx.tenant_id id patch now rows rule r f checked)
            (patched-has_source patch now r guarded keeps source)
    ]

abbrev pub no_change : AlertRulePatch
no_change = record {
  name = none;
  saved_query_id = none;
  query = none;
  comparator = none;
  threshold = none;
  window_seconds = none;
  severity = none;
  enabled = none;
  notify_channels = none;
}

-- The patch that sets the saved query only.
abbrev pub set_saved : Option Text → AlertRulePatch
set_saved saved = record no_change { saved_query_id = some saved }

pub set_saved-ok :
    (ctx : TenantContext) (id : Text) (saved : Option Text) (now : ℕ) (rows : AlertRules)
    (r : AlertRule)
    → IsUnique alert_rules rows
    → find_row alert_rules ctx.tenant_id id rows ≡ some r
    → can ctx.role Operation.alert_update ≡ true
    → rule_within_checks (patched_rule (set_saved saved) now r) ≡ true
    → (update ctx id (set_saved saved) now rows).0 ≡ ok (patched_rule (set_saved saved) now r)
unfolding update assert_can update_rule update_checked update_row find_row
set_saved-ok ctx id saved now rows r u f c w = ground (
  arith,
  f,
  c,
  w,
  rename_free alert_rules ctx.tenant_id id rows r (patched_rule (set_saved saved) now r) u f refl
      refl,
)

-- A rule with an inline query is given a saved query besides: the command that sets the saved query of
-- such a rule, and nothing else, is accepted by whoever may update rules, and the rule that it answers
-- with has both sources. The table has unique ids and names, and the window of the rule is in its bounds.
pub switch_leaves_both :
    (ctx : TenantContext) (id query_id : Text) (now : ℕ) (rows : AlertRules) (r : AlertRule)
    → IsUnique alert_rules rows
    → find_row alert_rules ctx.tenant_id id rows ≡ some r
    → can ctx.role Operation.alert_update ≡ true
    → has_inline_query r.query ≡ true
    → 30 ≤ r.window_seconds
    → r.window_seconds ≤ 86400
    → (rule : AlertRule) × ((update ctx id (set_saved (some query_id)) now rows).0 ≡ ok rule)
      × (rule.saved_query_id ≡ some query_id)
      × (has_inline_query rule.query ≡ true)
switch_leaves_both ctx id query_id now rows r u f c i lo hi = (
  patched_rule (set_saved (some query_id)) now r,
  set_saved-ok ctx id (some query_id) now rows r u f c (ground arith),
  refl,
  i,
)

-- A rule can lose its only source: where its inline query is an object with fields, but has no filter
-- (such as an empty text), the command that sets its saved query to null is accepted by whoever may
-- update rules, and the rule that it answers with has no source. The table has unique ids and names, and
-- the window of the rule is in its bounds.
pub source_can_vanish :
    (ctx : TenantContext) (id : Text) (now : ℕ) (rows : AlertRules) (r : AlertRule)
    → IsUnique alert_rules rows
    → find_row alert_rules ctx.tenant_id id rows ≡ some r
    → can ctx.role Operation.alert_update ≡ true
    → has_inline_query r.query ≡ false
    → is_empty_object r.query ≡ false
    → 30 ≤ r.window_seconds
    → r.window_seconds ≤ 86400
    → (rule : AlertRule) × ((update ctx id (set_saved none) now rows).0 ≡ ok rule)
      × (has_source rule ≡ false)
source_can_vanish ctx id now rows r u f c i o lo hi = (
  patched_rule (set_saved none) now r,
  set_saved-ok ctx id none now rows r u f c (ground arith),
  i,
)
