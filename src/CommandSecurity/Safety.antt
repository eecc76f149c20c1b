-- ===== src/CommandSecurity/Safety.antt =====
-- What a command that Evaluate lets through has.
use switch_manager.Base.{
  ℕ, zero, suc, ◌+◌, ◌≡◌, ◌≤◌, refl, Bool, true, false, not, List, [], ◌∷◌, some, is_empty, length,
  get_elem?, ok, fail_if, arith, >>=-eq-ok, ap,
}
use switch_manager.Base.Text.{Text, text_eq, byte_len}
use switch_manager.Base.Int.{pos, lt_int}
use switch_manager.AppError.{validation_error, internal_error}
use switch_manager.Operation.{RiskLevel, low}
use switch_manager.CommandSecurity.Policy.{
  Effect, allow_low, allow_medium, allow_high, deny, other_effect, Rule, CustomCommandPolicy, Value,
  policy_is_valid, decode_custom_commands,
}
use switch_manager.CommandSecurity.{
  matches, risk_rank, max_risk, CommandDecision, Scan, scan_rule, scan_rules, no_match,
  evaluate_command, evaluate_commands, evaluate, Decision, decode, shape_is_valid,
}

-- The rank of the risk that an effect stands for, 4 for a blocked command.
abbrev pub effect_rank : Effect → ℕ
effect_rank deny = 4
effect_rank allow_high = 3
effect_rank allow_medium = 2
effect_rank allow_low = 1
effect_rank (other_effect t) = 0

abbrev pub is_allow : Effect → Bool
is_allow allow_low = true
is_allow allow_medium = true
is_allow allow_high = true
is_allow _ = false

-- What the loop knows of a rule that matched and has the effect `e`.
abbrev pub Heeds : Effect → Scan → Type 0
Heeds e s =
    (e ≡ deny → s.is_blocked ≡ true) × (is_allow e ≡ true → effect_rank e ≤ risk_rank s.risk)

scan_rule-grows :
    (rule : Rule) (command : Text) (s : Scan)
    → (s.is_blocked ≡ true → (scan_rule rule command s).is_blocked ≡ true)
      × (risk_rank s.risk ≤ risk_rank (scan_rule rule command s).risk)
unfolding scan_rule max_risk
scan_rule-grows rule command s = ground arith

scan_rule-Heeds :
    (rule : Rule) (command : Text) (s : Scan)
    → matches rule command ≡ true
    → 1 ≤ risk_rank s.risk
    → Heeds rule.effect (scan_rule rule command s)
unfolding scan_rule max_risk
scan_rule-Heeds rule command s m p = ground arith

-- A scan that goes on keeps a block and does not lower the risk.
scan-grows :
    (rules : List Rule) (command : Text) (s : Scan)
    → (s.is_blocked ≡ true → (scan_rules rules command s).is_blocked ≡ true)
      × (risk_rank s.risk ≤ risk_rank (scan_rules rules command s).risk)
unfolding scan_rules
scan-grows [] command s = (λ h. h, omega arith)
scan-grows (rule ∷ rest) command s =
    let now = scan_rule-grows rule command s in
    let later = scan-grows rest command (scan_rule rule command s) in
    (λ h. later.0 (now.0 h), omega (arith, now.1, later.1))

-- At the end it heeds every rule that matched.
scan-Heeds :
    (rules : List Rule) (command : Text) (s : Scan) (i : ℕ) {rule : Rule}
    → 1 ≤ risk_rank s.risk
    → get_elem? rules i ≡ some rule
    → matches rule command ≡ true
    → Heeds rule.effect (scan_rules rules command s)
unfolding scan_rules
scan-Heeds [] command s i p h m = absurd (ground arith)
scan-Heeds (x ∷ rest) command s zero {rule} p h m =
    let one : x ≡ rule = ground (arith, h) in
    let (b, r) = scan_rule-Heeds rule command s m p in
    let (kept, grown) = scan-grows rest command (scan_rule rule command s) in
    rw one (λ e. kept (b e), λ a. omega (arith, r a, grown))
scan-Heeds (x ∷ rest) command s (suc i) {rule} p h m =
    scan-Heeds rest command (scan_rule x command s) i {rule = rule}
      (omega (arith, p, (scan_rule-grows x command s).1)) h m

-- An allow flag comes from a rule that matched.
scan-allow :
    (rules : List Rule) (command : Text) (s : Scan)
    → s.matched_allow ≡ false
    → (scan_rules rules command s).matched_allow ≡ true
    → (i : ℕ) × (rule : Rule) × (get_elem? rules i ≡ some rule)
      × (matches rule command ≡ true)
      × (is_allow rule.effect ≡ true)
unfolding scan_rules scan_rule
scan-allow [] command s n h = absurd (cc)
scan-allow (x ∷ rest) command s n h =
    by_now (scan_rule x command s).matched_allow refl
      (scan-allow rest command (scan_rule x command s))
  where
    by_now :
        (b : Bool)
        → (scan_rule x command s).matched_allow ≡ b
        → ((scan_rule x command s).matched_allow ≡ false
            → (scan_rules rest command (scan_rule x command s)).matched_allow ≡ true
            → (i : ℕ) × (rule : Rule) × (get_elem? rest i ≡ some rule)
              × (matches rule command ≡ true)
              × (is_allow rule.effect ≡ true))
        → (i : ℕ) × (rule : Rule) × (get_elem? (x ∷ rest) i ≡ some rule)
          × (matches rule command ≡ true)
          × (is_allow rule.effect ≡ true)
    by_now true e later = (0, x, refl, ground (arith, e, n), ground (arith, e, n))
    by_now false e later = let (i, rule, at, m, a) = later e h in (suc i, rule, at, m, a)

-- A decision on one command that the rules justify: a rule that allows it matches, no rule that
-- blocks it does, and its risk is not below that of any matching rule.
abbrev pub Justified : List Rule → CommandDecision → Type 0
Justified rules d =
    ((i : ℕ) × (rule : Rule) × (get_elem? rules i ≡ some rule)
      × (matches rule d.text ≡ true)
      × (is_allow rule.effect ≡ true))
    × ((i : ℕ) (rule : Rule)
        → get_elem? rules i ≡ some rule
        → matches rule d.text ≡ true
        → ¬ (rule.effect ≡ deny)
          × (is_allow rule.effect ≡ true → effect_rank rule.effect ≤ risk_rank d.risk_level))

evaluate_command-Justified :
    (rules : List Rule) (command : Text) (d : CommandDecision)
    → evaluate_command rules command ≡ ok d
    → (d.text ≡ command) × Justified rules d
unfolding evaluate_command
evaluate_command-Justified rules command d e =
    let s = scan_rules rules command no_match in
    let free : s.is_blocked ≡ false = ground (arith, e) in
    let allowed : s.matched_allow ≡ true = ground (arith, e) in
    let text : d.text ≡ command = ground (arith, e) in
    let risk : d.risk_level ≡ s.risk = ground (arith, e) in
    (
      text,
      (
        rw text (scan-allow rules command no_match refl allowed),
        λ i rule at m.
            let same : matches rule command ≡ true = cc (text, m) in
            let (stop, rank) =
              scan-Heeds rules command no_match i {rule = rule} (ground arith) at same in
            (λ b. ground (arith, free, stop b), rw risk rank),
      ),
    )

-- The decisions `ds` of the loop over the commands, in their order, with the risk `r` of them all.
abbrev pub Decided :
    CustomCommandPolicy → RiskLevel → List Text → List CommandDecision → RiskLevel → Type 0
Decided p risk commands ds r =
    (risk_rank risk ≤ risk_rank r)
    × (length ds ≡ length commands)
    × ((j : ℕ) (d : CommandDecision)
        → get_elem? ds j ≡ some d
        → (get_elem? commands j ≡ some d.text)
          × (shape_is_valid d.text p.limits.max_command_bytes ≡ true)
          × (risk_rank d.risk_level ≤ risk_rank r)
          × Justified p.rules d)

max_risk-le :
    (a b c : RiskLevel)
    → risk_rank (max_risk a b) ≤ risk_rank c
    → (risk_rank a ≤ risk_rank c) × (risk_rank b ≤ risk_rank c)
unfolding max_risk
max_risk-le a b c h = ground arith

Decided-cons :
    (p : CustomCommandPolicy) (risk r : RiskLevel) (command : Text) (rest : List Text)
    (d : CommandDecision) (ds : List CommandDecision)
    → shape_is_valid command p.limits.max_command_bytes ≡ true
    → evaluate_command p.rules command ≡ ok d
    → Decided p (max_risk risk d.risk_level) rest ds r
    → Decided p risk (command ∷ rest) (d ∷ ds) r
Decided-cons p risk r command rest d ds shape run (le, len, all) =
    let (text, just) = evaluate_command-Justified p.rules command d run in
    let (a, b) = max_risk-le risk d.risk_level r le in (a, ap suc len, each text just b)
  where
    each :
        d.text ≡ command
        → Justified p.rules d
        → risk_rank d.risk_level ≤ risk_rank r
        → (j : ℕ) (q : CommandDecision) → get_elem? (d ∷ ds) j ≡ some q
        → (get_elem? (command ∷ rest) j ≡ some q.text)
          × (shape_is_valid q.text p.limits.max_command_bytes ≡ true)
          × (risk_rank q.risk_level ≤ risk_rank r)
          × Justified p.rules q
    each text just b zero q at =
        let same : q ≡ d = ground (arith, at) in
        rw same (ground (arith, text), rw text shape, b, just)
    each text just b (suc j) q at = all j q at

Decided-same :
    (p : CustomCommandPolicy) (risk q r : RiskLevel) (commands : List Text)
    (cs ds : List CommandDecision)
    → ds ≡ cs
    → r ≡ q
    → Decided p risk commands cs q
    → Decided p risk commands ds r
Decided-same p risk q r commands cs ds e f h = rw e (rw f h)

evaluate_commands-Decided :
    (p : CustomCommandPolicy) (total : ℕ) (risk r : RiskLevel) (commands : List Text)
    (ds : List CommandDecision)
    → evaluate_commands p total risk commands ≡ ok (ds, r)
    → Decided p risk commands ds r
unfolding evaluate_commands
evaluate_commands-Decided p total risk r [] ds e =
    let none_left : ds ≡ [] = ground (arith, e) in
    let same : r ≡ risk = ground (arith, e) in
    rw (none_left) (rw same (omega arith, refl, λ j d at. absurd (ground (arith, at))))
evaluate_commands-Decided p total risk r (command ∷ rest) ds e =
    let (_, fine, e1) =
      >>=-eq-ok (fail_if (not (shape_is_valid command p.limits.max_command_bytes)) validation_error)
        _ e in
    let (_, _, e2) =
      >>=-eq-ok
        (fail_if (lt_int p.limits.max_total_bytes (pos (total + byte_len command)))
          validation_error)
        _ e1 in
    let (d, run, e3) = >>=-eq-ok (evaluate_command p.rules command) _ e2 in
    let (more, later, end) =
      >>=-eq-ok (evaluate_commands p (total + byte_len command) (max_risk risk d.risk_level) rest) _
        e3 in
    let shape : shape_is_valid command p.limits.max_command_bytes ≡ true = ground (arith, fine) in
    let is_ds : ds ≡ d ∷ more.0 = ground (arith, end) in
    let is_r : r ≡ more.1 = ground (arith, end) in
    Decided-same p risk more.1 r (command ∷ rest) (d ∷ more.0) ds is_ds is_r (
      Decided-cons p risk more.1 command rest d more.0 shape run (
        evaluate_commands-Decided p (total + byte_len command) (max_risk risk d.risk_level) more.1
          rest more.0 later))

-- When Evaluate answers a decision, the parameters are a list of commands, not more than the policy's
-- limit, and the decision has one entry for each, in their order: the command is of a valid
-- shape, a rule that allows it matches, no rule that blocks it does, and the entry's risk, which
-- is not above the decision's risk, is not below that of any rule that allows it.
pub evaluate-Decided :
    (p : CustomCommandPolicy) (operation : Text) (parameters : List (Text × Value)) (d : Decision)
    → evaluate p operation parameters ≡ ok d
    → (commands : List Text) × (decode_custom_commands parameters ≡ some commands)
      × (lt_int p.limits.max_commands (pos (length commands)) ≡ false)
      × Decided p low commands d.commands d.risk_level
unfolding evaluate
evaluate-Decided p operation parameters d e =
    let (_, _, e1) = >>=-eq-ok (fail_if (not (policy_is_valid p)) internal_error) _ e in
    let (_, _, e2) =
      >>=-eq-ok (fail_if (not (text_eq p.operation operation)) internal_error) _ e1 in
    let (commands, decoded, e3) = >>=-eq-ok (decode parameters) _ e2 in
    let (_, _, e4) = >>=-eq-ok (fail_if (is_empty commands) validation_error) _ e3 in
    let (_, count, e5) =
      >>=-eq-ok (fail_if (lt_int p.limits.max_commands (pos (length commands))) validation_error) _
        e4 in
    let (more, run, end) = >>=-eq-ok (evaluate_commands p 0 low commands) _ e5 in
    (
      commands,
      ground (arith, decoded),
      ground (arith, count),
      Decided-same p low more.1 d.risk_level commands more.0 d.commands (ground (arith, end))
          (ground (arith, end)) (evaluate_commands-Decided p 0 low more.1 commands more.0 run),
    )
