-- ===== src/CommandSecurity/Tests.antt =====
-- Custom commands at concrete inputs.
use switch_manager.Base.{◌≡◌, refl, false, List, [], ◌∷◌, some, length}
use switch_manager.Base.Text.{
  Text, codes, byte_len, valid_string, trim_space, is_blank, is_space, is_control, rune_len,
}
use switch_manager.Base.Int.{pos, lt_int}
use switch_manager.Operation.{low, high, config}
use switch_manager.CommandSecurity.Policy.{
  allow_medium, allow_high, deny, prefix, Rule, CustomCommandPolicy, Value, texts, policy_is_valid,
  rule_is_valid, limits_are_valid, ids_differ, decode_custom_commands,
}
use switch_manager.CommandSecurity.{
  Decision, evaluate, evaluate_commands, evaluate_command, scan_rules, scan_rule, matches,
  has_prefix, max_risk, shape_is_valid,
}
use switch_manager.CommandSecurity.Safety.{Decided, evaluate-Decided}

abbrev set_rule : Rule
set_rule = record {
  id = codes "set";
  match = prefix;
  pattern = codes "set ";
  effect = allow_medium;
  warning = [];
}

abbrev high_rule : Rule
high_rule = record set_rule { id = codes "high"; pattern = codes "set hi"; effect = allow_high }

abbrev deny_rule : Rule
deny_rule = record set_rule { id = codes "deny"; pattern = codes "set no"; effect = deny }

abbrev policy : CustomCommandPolicy
policy = record {
  operation = codes "command.execute_config";
  class = config;
  limits = record {
    max_commands = pos 3;
    max_command_bytes = pos 32;
    max_total_bytes = pos 64;
    max_command_timeout = pos 1000000000;
    max_total_timeout = pos 3000000000;
    max_output_bytes = pos 1024;
  };
  rules = set_rule ∷ high_rule ∷ deny_rule ∷ [];
}

abbrev parameters : List (Text × Value)
parameters = (codes "commands", texts (codes "set hi" ∷ [])) ∷ []

abbrev decision : Decision
decision = record {
  operation = codes "command.execute_config";
  class = config;
  commands =
      record {
        text = codes "set hi";
        risk_level = high;
        rule_ids = codes "set" ∷ codes "high" ∷ [];
        warnings = [];
      }
      ∷ [];
  risk_level = high;
  limits = policy.limits;
}

evaluate-Decided_example :
    (commands : List Text) × (decode_custom_commands parameters ≡ some commands)
    × (lt_int (pos 3) (pos (length commands)) ≡ false)
    × Decided policy low commands decision.commands high
unfolding evaluate evaluate_commands evaluate_command scan_rules scan_rule matches has_prefix
    max_risk shape_is_valid policy_is_valid rule_is_valid limits_are_valid ids_differ
    decode_custom_commands byte_len valid_string trim_space is_blank is_space is_control rune_len
evaluate-Decided_example =
    evaluate-Decided policy (codes "command.execute_config") parameters decision refl
