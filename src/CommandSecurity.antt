-- ===== src/CommandSecurity.antt =====
-- internal/commandsecurity/engine.go with the policies of pkg/pluginapi/custom_commands.go: whether an
-- operator's own commands may be sent to a switch. Errors are the codes that they carry. Texts are
-- compared by code points, so a pattern that ends inside the bytes of a character is not covered.
-- Redaction of output is not modelled, with the checks of the policy's redactions.
pub mod Policy
pub mod Safety
pub mod Tests
use switch_manager.Base.{
  ℕ, ◌+◌, Bool, true, false, not, ◌&&◌, ◌||◌, List, [], ◌∷◌, ◌++◌, Option, none, some, ltb, any,
  if◌then◌else◌, is_empty, length, Result, ok, err, ◌>>=◌, ◌>>◌, fail_if,
}
use switch_manager.Base.Text.{Text, text_eq, byte_len, valid_string, trim_space}
use switch_manager.Base.Int.{ℤ, pos, lt_int}
use switch_manager.AppError.{Code, validation_error, internal_error, dangerous_command_blocked}
use switch_manager.Operation.{Class, RiskLevel, low, medium, high, blocked, other}
use Policy.{
  Effect, allow_low, allow_medium, allow_high, deny, other_effect, other_match, Match, exact,
  prefix, Rule, Limits, CustomCommandPolicy, Value, policy_is_valid, decode_custom_commands,
}

-- strings.HasPrefix.
unfoldable pub has_prefix : Text → Text → Bool
has_prefix text [] = true
has_prefix [] (c ∷ cs) = false
has_prefix (d ∷ ds) (c ∷ cs) = text_eq (d ∷ []) (c ∷ []) && has_prefix ds cs

unfoldable pub matches : Rule → Text → Bool
matches rule command = elim rule.match [
  | exact ↦ text_eq command rule.pattern
  | prefix ↦ has_prefix command rule.pattern
  | other_match t ↦ false
]

abbrev pub risk_rank : RiskLevel → ℕ
risk_rank blocked = 4
risk_rank high = 3
risk_rank medium = 2
risk_rank low = 1
risk_rank (other t) = 0

unfoldable pub max_risk : RiskLevel → RiskLevel → RiskLevel
max_risk left right = if ltb (risk_rank left) (risk_rank right) then right else left

pub record CommandDecision : Type 0 where
  pub text : Text
  pub risk_level : RiskLevel
  pub rule_ids : List Text
  pub warnings : List Text

-- The variables of the loop in `evaluateCommand`.
pub record Scan : Type 0 where
  pub matched_allow : Bool
  pub is_blocked : Bool
  pub risk : RiskLevel
  pub rule_ids : List Text
  pub warnings : List Text

abbrev pub apply_effect : Effect → Scan → Scan
apply_effect deny s = record s { is_blocked = true }
apply_effect allow_low s = record s { matched_allow = true }
apply_effect allow_medium s = record s { matched_allow = true; risk = max_risk s.risk medium }
apply_effect allow_high s = record s { matched_allow = true; risk = max_risk s.risk high }
apply_effect (other_effect t) s = s

abbrev pub note : Rule → Scan → Scan
note rule s = record s {
  rule_ids = s.rule_ids ++ rule.id ∷ [];
  warnings = if is_empty rule.warning then s.warnings else s.warnings ++ rule.warning ∷ [];
}

unfoldable pub scan_rule : Rule → Text → Scan → Scan
scan_rule rule command s =
    if matches rule command then apply_effect rule.effect (note rule s) else s

unfoldable pub scan_rules : List Rule → Text → Scan → Scan
scan_rules [] command s = s
scan_rules (rule ∷ rest) command s = scan_rules rest command (scan_rule rule command s)

abbrev pub no_match : Scan
no_match = record {
  matched_allow = false;
  is_blocked = false;
  risk = low;
  rule_ids = [];
  warnings = [];
}

-- `evaluateCommand`.
unfoldable pub evaluate_command : List Rule → Text → Result Code CommandDecision
evaluate_command rules command =
    let s = scan_rules rules command no_match in
    if s.is_blocked || not s.matched_allow
    then err dangerous_command_blocked
    else ok (record {
      text = command;
      risk_level = s.risk;
      rule_ids = s.rule_ids;
      warnings = s.warnings;
    })

-- `validateCommandShape` answers no error.
unfoldable pub shape_is_valid : Text → ℤ → Bool
shape_is_valid command max_bytes =
    not (is_empty command)
    && valid_string command
    && text_eq command (trim_space command)
    && not (lt_int max_bytes (pos (byte_len command)))
    && not (any (λ c. ltb c 0x20 || text_eq (c ∷ []) (0x7f ∷ [])) command)

pub record Decision : Type 0 where
  pub operation : Text
  pub class : Class
  pub commands : List CommandDecision
  pub risk_level : RiskLevel
  pub limits : Limits

-- The loop of `Evaluate`, with `total` bytes before.
unfoldable pub evaluate_commands :
    CustomCommandPolicy → ℕ → RiskLevel → List Text → Result Code (List CommandDecision × RiskLevel)
evaluate_commands p total risk [] = ok ([], risk)
evaluate_commands p total risk (command ∷ rest) = do
  let sum = total + byte_len command
  fail_if (not (shape_is_valid command p.limits.max_command_bytes)) validation_error
  fail_if (lt_int p.limits.max_total_bytes (pos sum)) validation_error
  d ← evaluate_command p.rules command
  more ← evaluate_commands p sum (max_risk risk d.risk_level) rest
  ok (d ∷ more.0, more.1)

abbrev pub decode : List (Text × Value) → Result Code (List Text)
decode parameters = elim (decode_custom_commands parameters) [
  | none ↦ err validation_error
  | some commands ↦ ok commands
]

-- `Evaluate`.
unfoldable pub evaluate : CustomCommandPolicy → Text → List (Text × Value) → Result Code Decision
evaluate p operation parameters = do
  fail_if (not (policy_is_valid p)) internal_error
  fail_if (not (text_eq p.operation operation)) internal_error
  commands ← decode parameters
  fail_if (is_empty commands) validation_error
  fail_if (lt_int p.limits.max_commands (pos (length commands))) validation_error
  more ← evaluate_commands p 0 low commands
  ok (record {
    operation = operation;
    class = p.class;
    commands = more.0;
    risk_level = more.1;
    limits = p.limits;
  })
