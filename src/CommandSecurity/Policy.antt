-- ===== src/CommandSecurity/Policy.antt =====
-- pkg/pluginapi/custom_commands.go: the rules and limits of a policy, its checks, and the decoding of
-- an operation's parameters. Output redactions are left out; durations are in nanoseconds.
use switch_manager.Base.{
  Bool, true, false, not, ◌&&◌, ◌||◌, List, [], ◌∷◌, Option, none, some, ltb, any, all,
  if◌then◌else◌, is_empty, length,
}
use switch_manager.Base.Text.{
  Text, codes, text_eq, byte_len, is_blank, is_space, is_control, trim_space,
}
use switch_manager.Base.Int.{ℤ, pos, lt_int}
use switch_manager.Operation.{Class, query, config}

pub data Effect : Type 0 where
  allow_low allow_medium allow_high deny : Effect
  other_effect : Text → Effect

pub data Match : Type 0 where
  exact prefix : Match
  other_match : Text → Match

pub record Rule : Type 0 where
  pub id : Text
  pub match : Match
  pub pattern : Text
  pub effect : Effect
  pub warning : Text

abbrev pub effect_is_known : Effect → Bool
effect_is_known (other_effect t) = false
effect_is_known _ = true

abbrev pub match_is_known : Match → Bool
match_is_known (other_match t) = false
match_is_known _ = true

abbrev pub is_exact : Match → Bool
is_exact exact = true
is_exact _ = false

abbrev pub starts_with_space : Text → Bool
starts_with_space [] = false
starts_with_space (c ∷ cs) = is_space c

-- `CustomCommandRule.Validate` answers no error.
unfoldable pub rule_is_valid : Rule → Bool
rule_is_valid r =
    not (is_blank r.id)
    && text_eq r.id (trim_space r.id)
    && not (ltb 128 (byte_len r.id))
    && match_is_known r.match
    && not (is_empty r.pattern)
    && not (ltb 512 (byte_len r.pattern))
    && not (starts_with_space r.pattern)
    && not (any is_control r.pattern)
    && (not (is_exact r.match) || text_eq r.pattern (trim_space r.pattern))
    && effect_is_known r.effect

pub record Limits : Type 0 where
  pub max_commands : ℤ
  pub max_command_bytes : ℤ
  pub max_total_bytes : ℤ
  pub max_command_timeout : ℤ
  pub max_total_timeout : ℤ
  pub max_output_bytes : ℤ

abbrev pub is_between : ℤ → ℤ → ℤ → Bool
is_between low high value = not (lt_int value low) && not (lt_int high value)

-- `CustomCommandLimits.Validate` answers no error.
unfoldable pub limits_are_valid : Limits → Bool
limits_are_valid l =
    is_between (pos 1) (pos 64) l.max_commands
    && is_between (pos 1) (pos 4096) l.max_command_bytes
    && is_between l.max_command_bytes (pos 262144) l.max_total_bytes
    && is_between (pos 1) (pos 120000000000) l.max_command_timeout
    && is_between l.max_command_timeout (pos 600000000000) l.max_total_timeout
    && is_between (pos 1) (pos 16777216) l.max_output_bytes

pub record CustomCommandPolicy : Type 0 where
  pub operation : Text
  pub class : Class
  pub limits : Limits
  pub rules : List Rule

abbrev pub readonly : Text
readonly = codes "command.execute_readonly"

abbrev pub configure : Text
configure = codes "command.execute_config"

abbrev pub class_fits : Class → Text → Bool
class_fits query name = text_eq name readonly
class_fits config name = text_eq name configure
class_fits _ name = false

unfoldable pub ids_differ : List Rule → Bool
ids_differ [] = true
ids_differ (r ∷ rest) = not (any (λ q. text_eq q.id r.id) rest) && ids_differ rest

-- `CustomCommandPolicy.Validate` answers no error.
unfoldable pub policy_is_valid : CustomCommandPolicy → Bool
policy_is_valid p =
    class_fits p.class p.operation
    && limits_are_valid p.limits
    && not (is_empty p.rules)
    && not (ltb 256 (length p.rules))
    && all rule_is_valid p.rules
    && ids_differ p.rules

-- A value of the JSON object of parameters: a slice of strings, an array, or another.
pub data Value : Type 0 where
  texts : List Text → Value
  array : List (Option Text) → Value
  scalar : Value

-- The strings of an array, whose other elements are none.
unfoldable pub all_texts : List (Option Text) → Option (List Text)
all_texts [] = some []
all_texts (none ∷ rest) = none
all_texts (some t ∷ rest) = elim (all_texts rest) [ none ↦ none | some ts ↦ some (t ∷ ts) ]

abbrev pub value_texts : Value → Option (List Text)
value_texts (texts ts) = some ts
value_texts (array items) = all_texts items
value_texts scalar = none

-- `DecodeCustomCommands`.
unfoldable pub decode_custom_commands : List (Text × Value) → Option (List Text)
decode_custom_commands ((key, value) ∷ []) =
    if text_eq key (codes "commands") then value_texts value else none
decode_custom_commands _ = none
