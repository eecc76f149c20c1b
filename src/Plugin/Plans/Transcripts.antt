-- ===== src/Plugin/Plans/Transcripts.antt =====
-- What a transcript that passes the checks tells of the plan.
use switch_manager.Base.{
  ℕ, suc, ◌≤◌, ◌<◌, ◌≡◌, ◌⊎◌, inl, inr, refl, Bool, true, false, List, [], ◌∷◌, map, length, take,
  ok, >>=-eq-ok, fail_if, fail_if_passed, arith, is_empty, ltb, ◌==◌, ◌||◌, ◌&&◌,
}
use switch_manager.Base.Text.{Text, text_eq_iff}
use switch_manager.Plugin.Plans.{
  SdkCommand, SdkPlan, CommandRecord, Transcript, sdk_plan_validate, check_record, check_records,
  last_succeeded, validate_transcript, bad_times, bad_count,
}

abbrev pub texts_of : List SdkCommand → List Text
texts_of cs = map (λ c. c.text) cs

abbrev pub commands_of : List CommandRecord → List Text
commands_of rs = map (λ r. r.command) rs

check_record-text :
    (i : ℕ) (r : CommandRecord) (p : SdkCommand) → check_record i r p ≡ ok tt → r.command ≡ p.text
unfolding check_record
check_record-text i r p h = ground (arith, h, text_eq_iff r.command p.text)

check_records-prefix :
    (i : ℕ) (rs : List CommandRecord) (ps : List SdkCommand)
    → check_records i rs ps ≡ ok tt
    → commands_of rs ≡ take (length rs) (texts_of ps)
unfolding check_records
check_records-prefix i [] ps h = refl
check_records-prefix i (r ∷ rs) [] h = absurd (cc)
check_records-prefix i (r ∷ rs) (p ∷ ps) h =
    let (tt, e, h1) = >>=-eq-ok (check_record i r p) _ h in
    rw (check_record-text i r p e, check_records-prefix (suc i) rs ps h1) refl

complete_or : (n m : ℕ) (b : Bool) → ltb n m && b ≡ false → (m ≤ n) ⊎ (b ≡ false)
complete_or n m true h = inl (ground arith)
complete_or n m false h = inr refl

-- A transcript that passes the checks tells of a first part of the plan, with the texts of its commands
-- in their order: at least one command, and all of them, or the last one there failed.
pub validate_transcript-prefix :
    (t : Transcript) (plan : SdkPlan)
    → validate_transcript t plan ≡ ok tt
    → (0 < length t.commands)
      × (commands_of t.commands ≡ take (length t.commands) (texts_of plan.commands))
      × ((length plan.commands ≤ length t.commands) ⊎ (last_succeeded t.commands ≡ false))
unfolding validate_transcript
validate_transcript-prefix t plan h =
    let a = t.started_at == 0 || t.finished_at == 0 || ltb t.finished_at t.started_at in
    let b = is_empty t.commands || ltb (length plan.commands) (length t.commands) in
    let (tt, _, h1) = >>=-eq-ok (sdk_plan_validate plan) _ h in
    let (tt, _, h2) = >>=-eq-ok (fail_if a bad_times) _ h1 in
    let (tt, counted, h3) = >>=-eq-ok (fail_if b bad_count) _ h2 in
    let (tt, records, h4) = >>=-eq-ok (check_records 0 t.commands plan.commands) _ h3 in
    (
      some_commands t.commands (ground (arith, fail_if_passed b bad_count counted)),
      check_records-prefix 0 t.commands plan.commands records,
      complete_or (length t.commands) (length plan.commands) (last_succeeded t.commands)
          (fail_if_passed _ _ h4),
    )
  where
    some_commands : (rs : List CommandRecord) → is_empty rs ≡ false → 0 < length rs
    some_commands [] e = absurd (cc)
    some_commands (r ∷ rs) e = omega arith
