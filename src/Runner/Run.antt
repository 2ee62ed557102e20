-- ===== src/Runner/Run.antt =====
-- `status_from_run_result` and `TEventProcessorRunner::run` of
-- nexus-watcher/src/service/runner/mod.rs. A world `W` holds all that a run can change.
use pubky_nexus.Base.{
  ℕ, zero, suc, String, Bool, true, false, List, [], ◌∷◌, Result, ok, err, Step, ◌-◌, ◌+◌, leb,
  if◌then◌else◌,
}
use pubky_nexus.Errors.{EventProcessorError}
use pubky_nexus.Runner.Stats.{ProcessorRunStatus, RunAllProcessorsStats, add_run_result}
pub mod Covers

-- `RunError` of nexus-watcher/src/service/indexer/mod.rs.
pub data RunError : Type 0 where
  internal : EventProcessorError → RunError
  panicked : RunError
  budget_spent : RunError

-- `status_from_run_result`
unfoldable pub status_from_run_result : Result (Unit {0}) RunError → ProcessorRunStatus
status_from_run_result (ok _) = ProcessorRunStatus.ok
status_from_run_result (err (internal _)) = ProcessorRunStatus.error
status_from_run_result (err panicked) = ProcessorRunStatus.panic
status_from_run_result (err budget_spent) = ProcessorRunStatus.budget_spent

-- What an implementation of `TEventProcessorRunner` supplies, and the clock. The error type is
-- `DynError`.
pub record Runner (W DynError : Type 0) : Type 0 where
  pub now : W → ℕ × W
  pub is_shutdown : W → Bool × W
  pub build : String → Step W DynError (Step W RunError (Unit {0}))
  pub pre_run : Step W DynError (List String)
  pub poll_limit : ℕ
  pub post_run : RunAllProcessorsStats → W → RunAllProcessorsStats × W
  pub backoff_hs_should_skip : String → W → Bool × W
  pub backoff_hs_record_result : String → ProcessorRunStatus → W → W

module _ {W DynError : Type 0} (self : Runner W DynError) where
  -- The `match` on `self.build`.
  run_built : Result (Step W RunError (Unit {0})) DynError × W → ProcessorRunStatus × W
  unfolding status_from_run_result
  run_built (ok event_processor, w) =
      let (result, w') = event_processor w in (status_from_run_result result, w')
  run_built (err _, w) = (ProcessorRunStatus.failed_to_build, w)

  -- A homeserver that is built and run: its status, and how long it took.
  pub poll : String → W → (ProcessorRunStatus × ℕ) × W
  unfolding run_built
  poll hs_id w =
      let (t0, w1) = self.now w in
      let (status, w2) = run_built (self.build hs_id w1) in
      let (t1, w3) = self.now w2 in
      ((status, t1 - t0), self.backoff_hs_record_result hs_id status w3)

  -- The loop over the homeservers.
  unfoldable pub run_loop : List String → ℕ → RunAllProcessorsStats → W → RunAllProcessorsStats × W
  unfolding poll
  run_loop [] polled run_stats w = (run_stats, w)
  run_loop (hs_id ∷ hs_ids) polled run_stats w =
      let (stop, w1) = self.is_shutdown w in
      let (skip, w2) = self.backoff_hs_should_skip hs_id w1 in
      let after_skip =
        run_loop hs_ids polled (add_run_result hs_id 0 ProcessorRunStatus.skipped run_stats) w2 in
      let (p, w3) = poll hs_id w2 in
      let after_poll = run_loop hs_ids (polled + 1) (add_run_result hs_id p.1 p.0 run_stats) w3 in
      if leb self.poll_limit polled
      then (run_stats, w)
      else if stop
      then (run_stats, w1)
      else if skip
      then after_skip
      else after_poll

  -- `run`
  unfoldable pub run : Step W DynError RunAllProcessorsStats
  unfolding run_loop
  run w = elim (self.pre_run w).0 [
    | err e ↦ (err e, (self.pre_run w).1)
    | ok hs_ids ↦
        let (run_stats, w') = run_loop hs_ids 0 [] (self.pre_run w).1 in
        let (processed_stats, w'') = self.post_run run_stats w' in (ok processed_stats, w'')
  ]
