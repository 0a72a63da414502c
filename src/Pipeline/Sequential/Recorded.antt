-- ===== src/Pipeline/Sequential/Recorded.antt =====
-- Results that a sequential group records and keeps.
use vectorless.Base.{
  if_true, if_false, Bool-cases, List, String, [], ap, get_elem?, if◌then◌else◌, inl, inr, refl,
  some, some_eq, subst, suc, sym, true, zero, ℕ, ◌-◌, ◌∙◌, ◌∷◌, ◌≡◌,
}
use vectorless.Pipeline.Sequential.Sound.{
  and_then_done, and_then_failed, Status-cases, done≢failed, after,
}
use vectorless.Pipeline.Context.Results.{contains_key-insert, contains_key-insert_other}
use vectorless.Pipeline.Policy.{
  FailurePolicy, FailurePolicy, allows_continuation, fail, retry, skip,
}
use vectorless.Pipeline.Stage.{CompilePass, Stages}
use vectorless.Pipeline.Order.{Result, err, ok}
use vectorless.Pipeline.Context.{
  CompileContext, Kind, PassResult, contains_key, pass_failure, record_stage,
}
use vectorless.Pipeline.Attempt.{
  Execute, Ran, apply_policy, execute_stage_with_policy, retry_after, retry_loop, skip_failure,
}
use vectorless.Pipeline.State.{Run, Services, Status, done, failed, saved, stage_at}
use vectorless.Pipeline.Sequential.{run_sequential, sequential_result, sequential_stage}

module _ {Part : Kind → Type 0} where
  abbrev pub HasResult : CompileContext Part → String → Type 0
  HasResult ctx name = contains_key ctx.stage_results name ≡ true

  record_stage-HasResult :
      (name : String) (r : PassResult) (ctx : CompileContext Part)
      → HasResult (record_stage name r ctx) name
  unfolding record_stage
  record_stage-HasResult name r ctx = contains_key-insert name r ctx.stage_results

  record_stage-keeps :
      (name other : String) (r : PassResult) (ctx : CompileContext Part)
      → HasResult ctx other
      → HasResult (record_stage name r ctx) other
  unfolding record_stage
  record_stage-keeps name other r ctx h = contains_key-insert_other name other r ctx.stage_results h

module _ {W : Type 0} {Part : Kind → Type 0} where
  -- A pass that takes no result away.
  abbrev pub KeepsResults : Execute W Part → Type 0
  KeepsResults run =
      (w : W) (ctx : CompileContext Part) (name : String)
      → HasResult ctx name
      → HasResult (run w ctx).context name

  abbrev pub AllKeepResults : Stages (Execute W Part) → Type 0
  AllKeepResults stages = (idx : ℕ) → KeepsResults (stage_at stages idx).execute

  retry_loop-KeepsResults :
      (run : Execute W Part) → KeepsResults run → (left : ℕ) → KeepsResults (retry_loop run left)
  unfolding retry_loop retry_after
  retry_loop-KeepsResults run h zero w ctx name k = h w ctx name k
  retry_loop-KeepsResults run h (suc left) w ctx name k =
      let ran = run w ctx in
      go ran (retry_loop run left ran.world ran.context) ran.result (h w ctx name k)
        (retry_loop-KeepsResults run h left ran.world ran.context name (h w ctx name k))
    where
      go :
          (ran next : Ran W Part) (r : Result PassResult String)
          → HasResult ran.context name
          → HasResult next.context name
          → HasResult (retry_after next ran r).context name
      go ran next (ok p) a b = a
      go ran next (err e) a b = b

  apply_policy-KeepsResults :
      (policy : FailurePolicy) (stage_name : String) (run : Execute W Part)
      → KeepsResults run
      → KeepsResults (apply_policy policy stage_name run)
  unfolding apply_policy skip_failure
  apply_policy-KeepsResults fail n run h w ctx name k = h w ctx name k
  apply_policy-KeepsResults (retry config) n run h w ctx name k =
      retry_loop-KeepsResults run h (config.max_attempts - 1) w ctx name k
  apply_policy-KeepsResults skip n run h w ctx name k =
      let ran = run w ctx in go ran ran.result (h w ctx name k)
    where
      go :
          (ran : Ran W Part) (r : Result PassResult String)
          → HasResult ran.context name
          → HasResult (skip_failure n ran r).context name
      go ran (ok p) a = a
      go ran (err e) a = a

  -- What one step does, whichever way it goes: a state it may lead to.
  pub record Step (s t : Run W Part) (name : String) (status : Status) : Type 0 where
    pub stages : t.stages ≡ s.stages
    pub keeps : (other : String) → HasResult s.context other → HasResult t.context other
    pub records : status ≡ done → HasResult t.context name

  sequential_result-Step :
      (services : Services W Part) (s : Run W Part) (stage : CompilePass (Execute W Part))
      (r : Result PassResult String)
      → let after = sequential_result services s stage r in Step s after.0 stage.name after.1
  unfolding sequential_result
  sequential_result-Step services s stage (ok p) = record {
    stages = refl;
    keeps = λ other h. record_stage-keeps stage.name other p s.context h;
    records = λ d. record_stage-HasResult stage.name p s.context;
  }
  sequential_result-Step services s stage (err e) = go stage.failure_policy
    where
      p : PassResult
      p = pass_failure stage.name e

      go :
          (policy : FailurePolicy)
          → let after : Run W Part × Status =
              (if allows_continuation policy
                then (record s { context = record_stage stage.name p s.context }, done)
                else (saved services s, failed e)) in
            Step s after.0 stage.name after.1
      go skip = record {
        stages = refl;
        keeps = λ other h. record_stage-keeps stage.name other p s.context h;
        records = λ d. record_stage-HasResult stage.name p s.context;
      }
      go fail = record {
        stages = refl;
        keeps = λ other h. h;
        records = λ d. absurd (done≢failed (sym d));
      }
      go (retry c) = record {
        stages = refl;
        keeps = λ other h. h;
        records = λ d. absurd (done≢failed (sym d));
      }

  sequential_stage-Step :
      (services : Services W Part) (idx : ℕ) (s : Run W Part)
      → KeepsResults (stage_at s.stages idx).execute
      → let after = sequential_stage services idx s in
        Step s after.0 (stage_at s.stages idx).name after.1
  unfolding sequential_stage
  sequential_stage-Step services idx s keep =
      let stage = stage_at s.stages idx in
      let ran = execute_stage_with_policy stage s.world s.context in
      let over : Run W Part × Status = (s, done) in
      let go = sequential_result services (after s idx) stage ran.result in
      let P = λ (r : Run W Part × Status). Step s r.0 stage.name r.1 in
      elim (Bool-cases (contains_key s.context.stage_results stage.name)) [
        | inl t ↦
            subst P (sym (if_true over go t))
              (record { stages = refl; keeps = λ other h. h; records = λ d. t })
        | inr f ↦
            let step = sequential_result-Step services (after s idx) stage ran.result in
            subst P (sym (if_false over go f)) (record {
              stages = step.stages;
              keeps = λ other h. step.keeps other (
                  apply_policy-KeepsResults stage.failure_policy stage.name stage.execute keep
                    s.world s.context other h);
              records = step.records;
            })
      ]

  -- What a group has done when it ends without an error.
  pub record GroupRecorded (indices : List ℕ) (s t : Run W Part) : Type 0 where
    pub stages : t.stages ≡ s.stages
    pub keeps : (other : String) → HasResult s.context other → HasResult t.context other
    pub records :
        (n idx : ℕ)
        → get_elem? indices n ≡ some idx
        → HasResult t.context (stage_at s.stages idx).name

  -- A sequential group that ends without an error has a result for each of its stages, still has
  -- the results from before, and has the stages as they were, provided that no pass takes a result
  -- away from the context.
  pub run_sequential-recorded :
      (services : Services W Part) (indices : List ℕ) (s : Run W Part)
      → AllKeepResults s.stages
      → (run_sequential services indices s).1 ≡ done
      → GroupRecorded indices s (run_sequential services indices s).0
  unfolding run_sequential
  run_sequential-recorded services [] s keep d = record {
    stages = refl;
    keeps = λ other h. h;
    records = λ n idx h. cc;
  }
  run_sequential-recorded services (i ∷ indices) s keep d =
      let r = sequential_stage services i s in
      let step = sequential_stage-Step services i s (keep i) in
      elim (Status-cases r.1) [
        | inl e ↦
            let same = and_then_done r (run_sequential services indices) e in
            let rest =
              run_sequential-recorded services indices r.0
                (subst AllKeepResults (sym step.stages) keep) (ap (λ p. p.1) (sym same) ∙ d) in
            subst (λ p. GroupRecorded (i ∷ indices) s p.0) (sym same)
              (go r.0 (run_sequential services indices r.0).0 step.stages step.keeps
                (step.records e) rest)
        | inr f ↦ absurd (
            done≢failed (
              sym d
              ∙ ap (λ p. p.1) (and_then_failed r (run_sequential services indices) f.1)
              ∙ f.1))
      ]
    where
      go :
          (m t : Run W Part)
          → m.stages ≡ s.stages
          → ((other : String) → HasResult s.context other → HasResult m.context other)
          → HasResult m.context (stage_at s.stages i).name
          → GroupRecorded indices m t
          → GroupRecorded (i ∷ indices) s t
      go m t eq kept here rest = record {
        stages = rest.stages ∙ eq;
        keeps = λ other h. rest.keeps other (kept other h);
        records = at;
      }
        where
          at :
              (n idx : ℕ)
              → get_elem? (i ∷ indices) n ≡ some idx
              → HasResult t.context (stage_at s.stages idx).name
          at zero idx h =
              subst (λ k. HasResult t.context (stage_at s.stages k).name) (some_eq h)
                (rest.keeps (stage_at s.stages i).name here)
          at (suc n) idx h =
              subst (λ st. HasResult t.context (stage_at st idx).name) eq (rest.records n idx h)
