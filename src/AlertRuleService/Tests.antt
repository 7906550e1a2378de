-- ===== src/AlertRuleService/Tests.antt =====
-- A rule on an inline query, and what a patch makes of its source.
use logalot.Domain.Email.{trim, trim_start, trim_end, is_space}
use logalot.Domain.Errors.{ok}
use logalot.Base.{
  ◌∷◌, refl, none, some, true, false, [], codes, count_where, find_where, ◌≡◌, List, arith,
  text_eq_refl,
}
use logalot.AlertRules.{
  AlertRule, AlertComparator, RuleQuery, NotifyChannel, alert_rules, insert_rule, new_rule,
}
use logalot.AlertRuleService.{
  CreateAlertRuleCommand, create, update, assert_channels, assert_query_source, has_inline_query,
  rule_input_of,
}
use logalot.AlertRuleService.Names
use logalot.AlertRuleService.Names.{AlertRuleOp, create_op, remove_op, run_rules-IsUnique}
use logalot.AlertRuleService.Sources.{
  IsCreated, has_source, create_has_one_source, update-has_source, switch_leaves_both,
  source_can_vanish, set_saved, set_saved-ok,
}
use logalot.Named.{insert_row, find_row}
use logalot.Named.Unique.{IsUnique}
use logalot.Ports.{TenantContext}
use logalot.Authorize.{assert_can}
use logalot.Domain.Roles.{Role}
use logalot.Domain.Rbac.{can, Operation}

abbrev ctx : TenantContext
ctx = record { tenant_id = codes "t1"; principal_id = codes "u1"; role = Role.tenant_admin }

abbrev query : RuleQuery
query = record { text = some (codes "oops"); service = none; level = none; labels = none }

abbrev blank : RuleQuery
blank = record { text = some []; service = none; level = none; labels = none }

abbrev command : CreateAlertRuleCommand
command = record {
  name = codes "errors";
  saved_query_id = none;
  query = query;
  comparator = AlertComparator.gt;
  threshold = codes "5";
  window_seconds = 300;
  severity = codes "warning";
  enabled = true;
  notify_channels = NotifyChannel.email (codes "a@b") ∷ [];
}

abbrev rule : AlertRule
rule = new_rule (codes "t1") (rule_input_of ctx command) (codes "r1") 7

abbrev saved_rule : AlertRule
saved_rule = record rule { saved_query_id = some (codes "q1"); query = blank }

creates : (create ctx command (codes "r1") 7 []).0 ≡ ok rule
unfolding create assert_can can assert_channels assert_query_source has_inline_query insert_rule
    insert_row count_where trim trim_start trim_end is_space
creates = refl

create_has_one_source_example : IsCreated ctx [] rule (create ctx command (codes "r1") 7 []).1
create_has_one_source_example = create_has_one_source ctx command (codes "r1") 7 [] rule creates

single-IsUnique : (r : AlertRule) → IsUnique alert_rules (r ∷ [])
unfolding count_where
single-IsUnique r = record { one_id = λ id. ground arith; one_name = λ t name. ground arith }

found :
    (r : AlertRule)
    → r.tenant_id ≡ codes "t1"
    → r.id ≡ codes "r1"
    → find_row alert_rules (codes "t1") (codes "r1") (r ∷ []) ≡ some r
unfolding find_row find_where
found r t i = ground (arith, text_eq_refl (codes "t1"), text_eq_refl (codes "r1"))

may_update : can Role.tenant_admin Operation.alert_update ≡ true
unfolding can
may_update = refl

inline : has_inline_query query ≡ true
unfolding has_inline_query trim trim_start trim_end is_space
inline = refl

no_filter : has_inline_query blank ≡ false
unfolding has_inline_query trim trim_start trim_end is_space
no_filter = refl

switch_leaves_both_example :
    (rule' : AlertRule) × ((update ctx (codes "r1") (set_saved (some (codes "q1"))) 9 (rule ∷ [])).0
      ≡ ok rule')
    × (rule'.saved_query_id ≡ some (codes "q1"))
    × (has_inline_query rule'.query ≡ true)
switch_leaves_both_example =
    switch_leaves_both ctx (codes "r1") (codes "q1") 9 (rule ∷ []) rule (single-IsUnique rule)
      (found rule refl refl) may_update inline (omega arith) (omega arith)

source_can_vanish_example :
    (rule' : AlertRule) × ((update ctx (codes "r1") (set_saved none) 9 (saved_rule ∷ [])).0
      ≡ ok rule')
    × (has_source rule' ≡ false)
source_can_vanish_example =
    source_can_vanish ctx (codes "r1") 9 (saved_rule ∷ []) saved_rule (single-IsUnique saved_rule)
      (found saved_rule refl refl) may_update no_filter refl (omega arith) (omega arith)

abbrev switched : AlertRule
switched = record rule { saved_query_id = some (codes "q1"); updated_at = 9 }

updates : (update ctx (codes "r1") (set_saved (some (codes "q1"))) 9 (rule ∷ [])).0 ≡ ok switched
updates =
    set_saved-ok ctx (codes "r1") (some (codes "q1")) 9 (rule ∷ []) rule (single-IsUnique rule)
      (found rule refl refl) may_update refl

rule-has_source : has_source rule ≡ true
unfolding has_inline_query trim trim_start trim_end is_space
rule-has_source = refl

update-has_source_example : has_source switched ≡ true
update-has_source_example =
    update-has_source ctx (codes "r1") (set_saved (some (codes "q1"))) 9 (rule ∷ []) rule switched
      (found rule refl refl) rule-has_source refl updates

abbrev ops : List (TenantContext × AlertRuleOp)
ops = (ctx, create_op command (codes "r1") 7) ∷ (ctx, create_op command (codes "r2") 8) ∷ []

empty-IsUnique : IsUnique alert_rules []
unfolding count_where
empty-IsUnique = record { one_id = λ id. omega arith; one_name = λ t name. omega arith }

run_rules-IsUnique_example : IsUnique alert_rules (Names.run ops [])
run_rules-IsUnique_example = run_rules-IsUnique ops [] empty-IsUnique
