-- ===== src/Pipeline/Sequential/Sound.antt =====
-- What a sequential group does: which stage stops it, and what it records.
use vectorless.Base.{
  if_true, if_false, ◌≢◌, Bool-cases, List, String, [], ap, false, inl, inr, refl, sym, ℕ, ◌++◌,
  ◌∙◌, ◌∷◌, ◌≡◌, ◌⊎◌,
}
use vectorless.Pipeline.Policy.{allows_continuation}
use vectorless.Pipeline.Stage.{CompilePass}
use vectorless.Pipeline.Order.{Result, err, ok}
use vectorless.Pipeline.Context.{Kind, PassResult, contains_key, record_stage, pass_failure}
use vectorless.Pipeline.Attempt.{Execute, execute_stage_with_policy}
use vectorless.Pipeline.State.{Run, Services, Status, and_then, done, failed, saved, stage_at}
use vectorless.Pipeline.Sequential.{run_sequential, sequential_result, sequential_stage}

pub Status-cases : (r : Status) → (r ≡ done) ⊎ ((e : String) × (r ≡ failed e))
Status-cases done = inl refl
Status-cases (failed e) = inr (e, refl)

pub done≢failed : {e : String} → done ≢ failed e
done≢failed h = cc

failed_eq : {e e' : String} → failed e ≡ failed e' → e ≡ e'
failed_eq h = cc

module _ {W : Type 0} {Part : Kind → Type 0} where
  pub and_then_done :
      (r : Run W Part × Status) (next : Run W Part → Run W Part × Status)
      → r.1 ≡ done
      → and_then r next ≡ next r.0
  and_then_done (s, done) next h = refl
  and_then_done (s, failed e) next h = cc

  pub and_then_failed :
      (r : Run W Part × Status) (next : Run W Part → Run W Part × Status) {e : String}
      → r.1 ≡ failed e
      → and_then r next ≡ r
  and_then_failed (s, done) next h = cc
  and_then_failed (s, failed e) next h = refl

  -- The state after a stage's run, before its result is recorded.
  abbrev pub after : Run W Part → ℕ → Run W Part
  after s idx =
      let ran = execute_stage_with_policy (stage_at s.stages idx) s.world s.context in
      record s { world = ran.world; context = ran.context }

  -- The stage that stops a group, and where.
  pub record StoppedAt (services : Services W Part) (indices : List ℕ) (s : Run W Part) (e : String)
      : Type 0 where
    pub before : List ℕ
    pub idx : ℕ
    pub rest : List ℕ
    pub reached : Run W Part
    pub split : indices ≡ before ++ idx ∷ rest
    pub ran_before : run_sequential services before s ≡ (reached, done)
    pub fails :
        (execute_stage_with_policy
          (stage_at reached.stages idx)
          reached.world
          reached.context).result
        ≡ err e
    pub stops : allows_continuation (stage_at reached.stages idx).failure_policy ≡ false
    pub stopped : run_sequential services indices s ≡ (saved services (after reached idx), failed e)

  sequential_result-failed :
      (services : Services W Part) (s : Run W Part) (stage : CompilePass (Execute W Part))
      (r : Result PassResult String) (e : String)
      → (sequential_result services s stage r).1 ≡ failed e
      → (r ≡ err e)
        × (allows_continuation stage.failure_policy ≡ false)
        × (sequential_result services s stage r ≡ (saved services s, failed e))
  unfolding sequential_result
  sequential_result-failed services s stage (ok p) e h = cc
  sequential_result-failed services s stage (err e') e h =
      let kept : Run W Part × Status = (
        record s { context = record_stage stage.name (pass_failure stage.name e') s.context },
        done,
      ) in
      let stop : Run W Part × Status = (saved services s, failed e') in
      elim (Bool-cases (allows_continuation stage.failure_policy)) [
        | inl t ↦ absurd (done≢failed (ap (λ p. p.1) (sym (if_true kept stop t)) ∙ h))
        | inr f ↦
            let same : sequential_result services s stage (err e') ≡ (saved services s, failed e') =
              if_false kept stop f in
            let eq : e' ≡ e = failed_eq (ap (λ p. p.1) (sym same) ∙ h) in
            (ap err eq, f, same ∙ ap (λ e. (saved services s, failed e)) eq)
      ]

  sequential_stage-failed :
      (services : Services W Part) (idx : ℕ) (s : Run W Part) (e : String)
      → (sequential_stage services idx s).1 ≡ failed e
      → ((execute_stage_with_policy (stage_at s.stages idx) s.world s.context).result ≡ err e)
        × (allows_continuation (stage_at s.stages idx).failure_policy ≡ false)
        × (sequential_stage services idx s ≡ (saved services (after s idx), failed e))
  unfolding sequential_stage
  sequential_stage-failed services idx s e h =
      let stage = stage_at s.stages idx in
      let ran = execute_stage_with_policy stage s.world s.context in
      let over : Run W Part × Status = (s, done) in
      let go = sequential_result services (after s idx) stage ran.result in
      elim (Bool-cases (contains_key s.context.stage_results (stage_at s.stages idx).name)) [
        | inl t ↦ absurd (done≢failed (ap (λ p. p.1) (sym (if_true over go t)) ∙ h))
        | inr f ↦
            let stage = stage_at s.stages idx in
            let ran = execute_stage_with_policy stage s.world s.context in
            let same : sequential_stage services idx s
                ≡ sequential_result services (after s idx) stage ran.result =
              if_false over go f in
            let r =
              sequential_result-failed services (after s idx) stage ran.result e
                (ap (λ p. p.1) (sym same) ∙ h) in
            (r.0, r.1, same ∙ r.2)
      ]

  -- A sequential group that ends with an error was stopped by one of its stages: the stages before
  -- it went through without an error, its own run under its policy failed with just that error, the
  -- policy does not allow continuation, no later stage ran, and the checkpoint of the state after
  -- the failed run was saved.
  pub run_sequential-stopped :
      (services : Services W Part) (indices : List ℕ) (s : Run W Part) (e : String)
      → (run_sequential services indices s).1 ≡ failed e
      → StoppedAt services indices s e
  unfolding run_sequential
  run_sequential-stopped services [] s e h = cc
  run_sequential-stopped services (idx ∷ indices) s e h =
      let r = sequential_stage services idx s in
      elim (Status-cases r.1) [
        | inl d ↦
            let same = and_then_done r (run_sequential services indices) d in
            let rest =
              run_sequential-stopped services indices r.0 e (ap (λ p. p.1) (sym same) ∙ h) in
            record {
              before = idx ∷ rest.before;
              idx = rest.idx;
              rest = rest.rest;
              reached = rest.reached;
              split = ap (◌∷◌ idx) rest.split;
              ran_before =
                  and_then_done r (run_sequential services rest.before) d ∙ rest.ran_before;
              fails = rest.fails;
              stops = rest.stops;
              stopped = same ∙ rest.stopped;
            }
        | inr f ↦
            let same = and_then_failed r (run_sequential services indices) f.1 in
            let at = sequential_stage-failed services idx s e (ap (λ p. p.1) (sym same) ∙ h) in
            record {
              before = [];
              idx = idx;
              rest = indices;
              reached = s;
              split = refl;
              ran_before = refl;
              fails = at.0;
              stops = at.1;
              stopped = same ∙ at.2;
            }
      ]
