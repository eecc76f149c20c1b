-- ===== src/Plugin/Plans/Adapters/Same.antt =====
-- SDK values and values of the core that say the same.
use switch_manager.Base.{Bool, ◌≡◌, ◌↔◌, refl, List, [], ◌∷◌, map, ok, arith}
use switch_manager.Operation.{
  DataValue, PlannedCommand, ExecutionPlan, CommandExecution, OperationResult,
}
use switch_manager.Plugin.Plans.{
  SdkCommand, SdkPlan, SdkExecution, SdkResult, sdk_plan_validate, sdk_result_validate,
}
use switch_manager.Plugin.Plans.Adapters.Copies.{plan_to_domain-copy, result_to_domain-copy}
use switch_manager.Plugin.Plans.Adapters.{
  plan_to_domain, result_to_domain, plan_copy, result_copy, command_to_domain, execution_to_domain,
}

-- Two lists of one length whose elements at the same places are related.
abbrev pub Each {ℓ κ} : {A : Type ℓ} {B : Type κ} → (A → B → Type 0) → List A → List B → Type 0
Each R [] [] = Unit
Each R (x ∷ xs) (y ∷ ys) = R x y × Each R xs ys
Each R _ _ = ⊥

abbrev pub SameCommand : SdkCommand → PlannedCommand → Type 0
SameCommand c d =
    (d.sequence ≡ c.sequence)
    × (d.text ≡ c.text)
    × (d.sensitive ≡ c.sensitive)
    × (d.expected_mode ≡ c.expected_mode)
    × (d.timeout ≡ c.timeout)

abbrev pub SamePlan : SdkPlan → ExecutionPlan → Type 0
SamePlan p q =
    (q.plan_id ≡ p.plan_id)
    × (q.device_id ≡ p.device_id)
    × (q.vendor ≡ p.vendor)
    × (q.plugin_name ≡ p.plugin_name)
    × (q.plugin_version ≡ p.plugin_version)
    × (q.operation ≡ p.operation)
    × (q.class ≡ p.class)
    × Each SameCommand p.commands q.commands
    × (q.enter_config_mode ≡ p.enter_config_mode)
    × (q.save_config ≡ p.save_config)
    × (q.risk_level ≡ p.risk_level)
    × (q.warnings ≡ p.warnings)

abbrev pub SameExecution : SdkExecution → CommandExecution → Type 0
SameExecution c d =
    (d.sequence ≡ c.sequence)
    × (d.succeeded ≡ c.succeeded)
    × (d.output_truncated ≡ c.output_truncated)
    × (d.error_code ≡ c.error_code)
    × (d.duration ≡ c.duration)

abbrev pub SameResult : SdkResult → OperationResult → Type 0
SameResult r o =
    (o.status ≡ r.status)
    × (o.result_data ≡ r.result_data)
    × Each SameExecution r.commands o.commands
    × (o.error_code ≡ r.error_code)
    × (o.error_message ≡ r.error_message)
    × (o.started_at ≡ r.started_at)
    × (o.finished_at ≡ r.finished_at)

commands-same :
    (cs : List SdkCommand) (ds : List PlannedCommand)
    → Each SameCommand cs ds ↔ (ds ≡ map command_to_domain cs)
commands-same [] [] = (λ _. refl, λ _. tt)
commands-same [] (d ∷ ds) = (λ h. absurd h, λ h. absurd (cc))
commands-same (c ∷ cs) [] = (λ h. absurd h, λ h. absurd (cc))
commands-same (c ∷ cs) (d ∷ ds) = ground (arith, commands-same cs ds)

executions-same :
    (cs : List SdkExecution) (ds : List CommandExecution)
    → Each SameExecution cs ds ↔ (ds ≡ map execution_to_domain cs)
executions-same [] [] = (λ _. refl, λ _. tt)
executions-same [] (d ∷ ds) = (λ h. absurd h, λ h. absurd (cc))
executions-same (c ∷ cs) [] = (λ h. absurd h, λ h. absurd (cc))
executions-same (c ∷ cs) (d ∷ ds) = ground (arith, executions-same cs ds)

plan-same : (p : SdkPlan) (q : ExecutionPlan) → SamePlan p q ↔ (q ≡ plan_copy p p.vendor)
plan-same p q = ground (arith, commands-same p.commands q.commands)

result-same : (r : SdkResult) (o : OperationResult) → SameResult r o ↔ (o ≡ result_copy r)
result-same r o = ground (arith, executions-same r.commands o.commands)

-- PlanToDomain and ResultToDomain answer a plan and a result exactly when the SDK's checks accept
-- the argument, and the answer agrees with it in every field, command by command: the checks of
-- the core, on the vendor and on the copies, refuse none of them.
pub to_domain-Same :
    (marshals : DataValue → Bool) (p : SdkPlan) (q : ExecutionPlan) (r : SdkResult)
    (o : OperationResult)
    → ((plan_to_domain p ≡ ok q) ↔ (sdk_plan_validate p ≡ ok tt) × SamePlan p q)
      × ((result_to_domain marshals r ≡ ok o)
          ↔ (sdk_result_validate marshals r ≡ ok tt) × SameResult r o)
to_domain-Same marshals p q r o = (
  (
    λ h. let (v, is) = (plan_to_domain-copy p q).0 h in (v, (plan-same p q).1 is),
    λ (v, s). (plan_to_domain-copy p q).1 (v, (plan-same p q).0 s),
  ),
  (
    λ h. let (v, is) = (result_to_domain-copy marshals r o).0 h in (v, (result-same r o).1 is),
    λ (v, s). (result_to_domain-copy marshals r o).1 (v, (result-same r o).0 s),
  ),
)
