-- ===== src/Routes/Rules.antt =====
-- daemon/src/collect/routes.rs: `rule_to_proto` and the text of a rule's selector.
use netdiag.Prelude.{ℕ, true, false, none, some, List, [], ◌∷◌}
use netdiag.Routes.Model.{new_prefix, RoutingRule, RuleAction, RuleAttribute, RuleMessage}
use netdiag.Routes.Convert.{family_to_proto, table_name}

abbrev pub rule_action_to_proto : RuleAction → ℕ
rule_action_to_proto RuleAction.to_table = 1
rule_action_to_proto RuleAction.goto = 2
rule_action_to_proto RuleAction.nop = 3
rule_action_to_proto RuleAction.blackhole = 4
rule_action_to_proto RuleAction.unreachable = 5
rule_action_to_proto RuleAction.prohibit = 6
rule_action_to_proto RuleAction.other = 0

-- `RoutingRule::default()` with what the header of the message has.
abbrev pub start_rule : RuleMessage → RoutingRule
start_rule msg = record {
  family = family_to_proto msg.family;
  priority = 0;
  source = none;
  destination = none;
  input_interface = "";
  output_interface = "";
  fwmark = 0;
  fwmask = 0;
  has_fwmark = false;
  uid_range_start = 0;
  uid_range_end = 0;
  has_uid_range = false;
  tos = msg.tos;
  table = msg.table;
  table_name = "";
  action = rule_action_to_proto msg.action;
  suppress_prefix_len = 0;
  has_suppress_prefix_len = false;
  suppress_interface_group = 0;
  has_suppress_interface_group = false;
  invert = msg.invert;
  protocol = 0;
}

unfoldable pub read_rule_attribute : RuleMessage → RuleAttribute → RoutingRule → RoutingRule
read_rule_attribute msg (RuleAttribute.priority p) r = record r { priority = p }
read_rule_attribute msg (RuleAttribute.table t) r = record r { table = t }
read_rule_attribute msg (RuleAttribute.fw_mark m) r = record r { fwmark = m; has_fwmark = true }
read_rule_attribute msg (RuleAttribute.fw_mask m) r = record r { fwmask = m }
read_rule_attribute msg (RuleAttribute.iifname n) r = record r { input_interface = n }
read_rule_attribute msg (RuleAttribute.oifname n) r = record r { output_interface = n }
read_rule_attribute msg (RuleAttribute.source a) r = record r {
  source = some (new_prefix a msg.src_len);
}
read_rule_attribute msg (RuleAttribute.destination a) r = record r {
  destination = some (new_prefix a msg.dst_len);
}
read_rule_attribute msg (RuleAttribute.uid_range low high) r = record r {
  uid_range_start = low;
  uid_range_end = high;
  has_uid_range = true;
}
read_rule_attribute msg (RuleAttribute.suppress_prefix_len v) r = record r {
  suppress_prefix_len = v;
  has_suppress_prefix_len = true;
}
read_rule_attribute msg (RuleAttribute.suppress_if_group v) r = record r {
  suppress_interface_group = v;
  has_suppress_interface_group = true;
}
read_rule_attribute msg (RuleAttribute.protocol p) r = record r { protocol = p }
read_rule_attribute msg (RuleAttribute.goto g) r = record r { table = g }
read_rule_attribute msg RuleAttribute.other r = r

unfoldable pub read_rule_attributes : RuleMessage → List RuleAttribute → RoutingRule → RoutingRule
unfolding read_rule_attribute
read_rule_attributes msg [] r = r
read_rule_attributes msg (a ∷ rest) r = read_rule_attributes msg rest (read_rule_attribute msg a r)

abbrev pub with_table_name : RoutingRule → RoutingRule
with_table_name r = record r { table_name = table_name r.table }

unfoldable pub rule_to_proto : RuleMessage → RoutingRule
unfolding read_rule_attributes
rule_to_proto msg = with_table_name (read_rule_attributes msg msg.attributes (start_rule msg))
