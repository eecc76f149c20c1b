-- ===== src/OperationService/Executor/Run.antt =====
-- The transcripts that the executor makes.
use switch_manager.Base.{
  ℕ, suc, ◌≡◌, ◌≤◌, ◌<◌, ◌⊎◌, inl, inr, refl, Bool, true, false, not, ◌&&◌, ◌||◌, List, [], ◌∷◌,
  Option, none, some, ok, arith, length, is_empty, ltb, ◌==◌, if◌then◌else◌, fail_if-then,
  Bool-cases, sym, ◌∙◌, any,
}
use switch_manager.Base.Text.{is_blank, text_eq_refl}
use switch_manager.Base.Int.{ℤ, pos, lt_int, le_int, eq_int, eq_int_iff}
use switch_manager.Plugin.Plans.{
  SdkCommand, SdkPlan, CommandRecord, check_plan_commands, sdk_plan_validate, check_record,
  check_records, last_succeeded, validate_transcript, is_break,
}
use switch_manager.Plugin.Plans.Parts.{sdk_plan_validate-Parts}
use switch_manager.OperationService.Executor.{
  Answer, Failure, not_negative, answer_code, has_failed, command_error_code, record_of,
  execute_commands, execute_plan,
}

-- The application errors of a session have codes that are not blank, as apperror makes them.
abbrev pub Coded : Option Failure → Type 0
Coded none = Unit {0}
Coded (some f) = is_blank (command_error_code f) ≡ false

numbered :
    (i : ℕ) (n : ℤ) → n ≡ pos (suc i) → not (eq_int n (pos (suc i))) || not (eq_int n n) ≡ false
numbered i n e = ground (arith, e, eq_int_iff n (pos (suc i)), eq_int_iff n n)

duration_kept : (d e : ℤ) → lt_int (if le_int d (pos 0) then not_negative e else d) (pos 0) ≡ false
duration_kept d e = ground arith

-- A record has a code exactly when its command failed.
code_kept :
    (f : Option Failure)
    → Coded f
    → (not (has_failed f) && not (is_empty (answer_code f)) ≡ false)
      × (not (not (has_failed f)) && is_blank (answer_code f) ≡ false)
code_kept none k = (refl, refl)
code_kept (some f) k = (refl, k)

record_of-check :
    (i : ℕ) (c : SdkCommand) (a : Answer)
    → c.sequence ≡ pos (suc i)
    → Coded a.failure
    → check_record i (record_of c a) c ≡ ok tt
unfolding check_record record_of
record_of-check i c a e k =
    let (clean, coded) = code_kept a.failure k in
    rw
      (
        numbered i c.sequence e,
        text_eq_refl c.text,
        duration_kept a.duration a.elapsed,
        clean,
        coded,
      )
      refl

-- What the records of a run owe to the commands.
record Good (i : ℕ) (records : List CommandRecord) (commands : List SdkCommand) : Type 0 where
  pub checked : check_records i records commands ≡ ok tt
  pub bounded : length records ≤ length commands
  pub some : is_empty records ≡ is_empty commands
  pub ended : (length commands ≤ length records) ⊎ (last_succeeded records ≡ false)

last-cons :
    (r : CommandRecord) (rs : List CommandRecord)
    → last_succeeded rs ≡ false
    → is_empty rs ≡ false
    → last_succeeded (r ∷ rs) ≡ false
last-cons r [] h e = absurd (cc)
last-cons r (q ∷ rs) h e = h

cons-Good :
    (i : ℕ) (r : CommandRecord) (c : SdkCommand) (rs : List CommandRecord) (cs : List SdkCommand)
    → check_record i r c ≡ ok tt
    → Good (suc i) rs cs
    → Good i (r ∷ rs) (c ∷ cs)
unfolding check_records
cons-Good i r c rs cs h g = record {
  checked = rw h g.checked;
  bounded = omega (arith, g.bounded);
  some = refl;
  ended = elim g.ended [
    | inl m ↦ inl (omega (arith, m))
    | inr l ↦ elim (Bool-cases (is_empty rs)) [
      | inl e ↦ inl (all_there cs (sym g.some ∙ e))
      | inr e ↦ inr (last-cons r rs l e)
    ]
  ];
}
  where
    all_there : (ds : List SdkCommand) → is_empty ds ≡ true → length (c ∷ ds) ≤ length (r ∷ rs)
    all_there [] e = omega arith
    all_there (d ∷ ds) e = absurd (cc)

times_good :
    (a b : ℕ) → 0 < a → let c = if ltb b a then a else b in a == 0 || c == 0 || ltb c a ≡ false
times_good a b h = ground arith

counts_good :
    (rs : List CommandRecord) (cs : List SdkCommand)
    → is_empty rs ≡ false
    → length rs ≤ length cs
    → is_empty rs || ltb (length cs) (length rs) ≡ false
counts_good rs cs e h = rw e (ground arith)

ends_good :
    (rs : List CommandRecord) (cs : List SdkCommand)
    → (length cs ≤ length rs) ⊎ (last_succeeded rs ≡ false)
    → ltb (length rs) (length cs) && last_succeeded rs ≡ false
ends_good rs cs h = ground (arith, h)

module _ {ℓ} {S : Type ℓ} (send : S → SdkCommand → S × Answer)
    (answers : (s : S) (c : SdkCommand) → Coded (send s c).1.failure) where
  abbrev Run : Type ℓ
  Run = S × List CommandRecord × Option Failure

  records-Good :
      (i : ℕ) (s : S) (cs : List SdkCommand)
      → check_plan_commands i cs ≡ ok tt
      → Good i (execute_commands send s cs).1 cs
  unfolding execute_commands check_plan_commands check_records record_of
  records-Good i s [] h = record {
    checked = refl;
    bounded = omega arith;
    some = refl;
    ended = inl (omega arith);
  }
  records-Good i s (c ∷ cs) h =
      let (sequence, h1) = fail_if-then (not (eq_int c.sequence (pos (suc i)))) _ h in
      let (_, h2) = fail_if-then (is_blank c.text) _ h1 in
      let (_, h3) = fail_if-then (any is_break c.text) _ h2 in
      let (_, rest) = fail_if-then (le_int c.timeout (pos 0)) _ h3 in
      let (t, a) = send s c in
      let number : c.sequence ≡ pos (suc i) =
        ground (arith, sequence, eq_int_iff c.sequence (pos (suc i))) in
      by_failure (has_failed a.failure) refl (record_of-check i c a number (answers s c))
        (records-Good (suc i) t cs rest)
    where
      by_failure :
          (b : Bool)
          → has_failed (send s c).1.failure ≡ b
          → check_record i (record_of c (send s c).1) c ≡ ok tt
          → Good (suc i) (execute_commands send (send s c).0 cs).1 cs
          → let (t, a) = send s c in
            let more : Run = execute_commands send t cs in
            let run : Run =
              if b
              then (t, record_of c a ∷ [], a.failure)
              else (more.0, record_of c a ∷ more.1, more.2) in
            Good i run.1 (c ∷ cs)
      by_failure true e k g = record {
        checked = rw k refl;
        bounded = omega arith;
        some = refl;
        ended = inr (rw e refl);
      }
      by_failure false e k g =
          cons-Good i (record_of c (send s c).1) c (execute_commands send (send s c).0 cs).1 cs k g

  -- When a valid plan is executed, whatever the session answers with errors whose codes are not blank,
  -- and whatever the clock reads after a start that is set, the transcript passes the checks against
  -- the plan that come before the parsing by the plugin.
  pub execute_plan-Valid :
      (s : S) (plan : SdkPlan) (started finished : ℕ)
      → sdk_plan_validate plan ≡ ok tt
      → 0 < started
      → validate_transcript (execute_plan send s plan started finished).1 plan ≡ ok tt
  unfolding execute_plan validate_transcript
  execute_plan-Valid s plan started finished v h =
      let c = sdk_plan_validate-Parts plan v in
      let g = records-Good 0 s plan.commands c.commands in
      let rs = (execute_commands send s plan.commands).1 in
      rw
        (
          v,
          times_good started finished h,
          counts_good rs plan.commands (g.some ∙ c.some) g.bounded,
          g.checked,
          ends_good rs plan.commands g.ended,
        )
        refl
