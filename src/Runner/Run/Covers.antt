-- ===== src/Runner/Run/Covers.antt =====
-- Which homeservers a run covers.
use pubky_nexus.Base.{
  append_assoc, append_nil, sym, ℕ, suc, String, true, false, List, [], ◌∷◌, ◌++◌, Result, ok, err,
  ◌+◌, leb, ◌≡◌, ◌≤◌, refl, arith, if◌then◌else◌, All, Bool-cases, inl, inr, ◌⊎◌, ap, ◌∙◌,
}
use pubky_nexus.Runner.Stats.{
  ProcessorRunStatus, ProcessorRunStats, RunAllProcessorsStats, add_run_result, same_status,
}
use pubky_nexus.Runner.Run.{
  RunError, status_from_run_result, Runner, run_built, poll, run_loop, run,
}

-- The homeservers that were built and run.
abbrev pub polled_in : RunAllProcessorsStats → ℕ
polled_in [] = 0
polled_in (ps ∷ stats) =
    if same_status ps.status ProcessorRunStatus.skipped
    then polled_in stats
    else suc (polled_in stats)

abbrev pub ids : RunAllProcessorsStats → List String
ids [] = []
ids (ps ∷ stats) = ps.hs_id ∷ ids stats

status_ran :
    (r : Result (Unit {0}) RunError)
    → same_status (status_from_run_result r) ProcessorRunStatus.skipped ≡ false
unfolding status_from_run_result
status_ran (ok u) = ground arith
status_ran (err (RunError.internal e)) = ground arith
status_ran (err RunError.panicked) = ground arith
status_ran (err RunError.budget_spent) = ground arith

module _ {W DynError : Type 0} (self : Runner W DynError) where
  run_built_status :
      (r : Result (W → Result (Unit {0}) RunError × W) DynError × W)
      → same_status (run_built self r).0 ProcessorRunStatus.skipped ≡ false
  unfolding run_built
  run_built_status (err e, w) = ground arith
  run_built_status (ok processor, w) = status_ran (processor w).0

  poll_status :
      (hs_id : String) (w : W)
      → same_status (poll self hs_id w).0.0 ProcessorRunStatus.skipped ≡ false
  unfolding poll
  poll_status hs_id w = run_built_status (self.build hs_id (self.now w).1)

  -- Why a run ends in the world `w`, before the homeservers `rest`, with `n` of them polled.
  abbrev pub Ends : List String → ℕ → W → Type 0
  Ends rest n w = (rest ≡ []) ⊎ (n ≡ self.poll_limit) ⊎ ((v : W) × (self.is_shutdown v ≡ (true, w)))

  -- A homeserver is skipped when the backoff, asked about it, says so; otherwise it is built and run
  -- from there, and its status is what that gave.
  abbrev pub Judged : ProcessorRunStats → Type 0
  Judged ps =
      (v : W) × ((((self.backoff_hs_should_skip ps.hs_id v).0 ≡ true)
          × (ps.status ≡ ProcessorRunStatus.skipped))
        ⊎ (((self.backoff_hs_should_skip ps.hs_id v).0 ≡ false)
            × (ps.status ≡ (poll self ps.hs_id (self.backoff_hs_should_skip ps.hs_id v).1).0.0)))

  -- The statistics that a run collects over the homeservers.
  abbrev pub Covers : List String → ℕ → RunAllProcessorsStats → W → Type 0
  Covers hs_ids polled new w =
      (rest : List String) × (hs_ids ≡ ids new ++ rest)
      × All Judged new
      × (polled + polled_in new ≤ self.poll_limit)
      × Ends rest (polled + polled_in new) w

  abbrev Adds : List String → ℕ → RunAllProcessorsStats → RunAllProcessorsStats × W → Type 0
  Adds hs_ids polled old out =
      (new : RunAllProcessorsStats) × (out.0 ≡ old ++ new) × Covers hs_ids polled new out.1

  Adds-none :
      (hs_ids : List String) (polled : ℕ) (old : RunAllProcessorsStats) (w : W)
      → polled ≤ self.poll_limit
      → Ends hs_ids polled w
      → Adds hs_ids polled old (old, w)
  Adds-none hs_ids polled old w k e =
      let same : polled + 0 ≡ polled = omega arith in
      ([], sym (append_nil old), (hs_ids, refl, tt, omega arith, rw same e))

  Adds-skipped :
      (ps : ProcessorRunStats) (hs_ids : List String) (polled : ℕ) (old : RunAllProcessorsStats)
      (out : RunAllProcessorsStats × W)
      → Judged ps
      → same_status ps.status ProcessorRunStatus.skipped ≡ true
      → Adds hs_ids polled (old ++ (ps ∷ [])) out
      → Adds (ps.hs_id ∷ hs_ids) polled old out
  Adds-skipped ps hs_ids polled old out j q (new, e, (rest, c, js, k, ends)) = (
    ps ∷ new,
    e ∙ append_assoc old (ps ∷ []) new,
    rw q (rest, ap (◌∷◌ ps.hs_id) c, (j, js), k, ends),
  )

  Adds-polled :
      (ps : ProcessorRunStats) (hs_ids : List String) (polled : ℕ) (old : RunAllProcessorsStats)
      (out : RunAllProcessorsStats × W)
      → Judged ps
      → same_status ps.status ProcessorRunStatus.skipped ≡ false
      → Adds hs_ids (polled + 1) (old ++ (ps ∷ [])) out
      → Adds (ps.hs_id ∷ hs_ids) polled old out
  Adds-polled ps hs_ids polled old out j q (new, e, (rest, c, js, k, ends)) =
      let same : polled + suc (polled_in new) ≡ polled + 1 + polled_in new = omega arith in
      (
        ps ∷ new,
        e ∙ append_assoc old (ps ∷ []) new,
        rw (q, same) (rest, ap (◌∷◌ ps.hs_id) c, (j, js), k, ends),
      )

  run_loop-Adds :
      (hs_ids : List String) (polled : ℕ) (old : RunAllProcessorsStats) (w : W)
      → polled ≤ self.poll_limit
      → Adds hs_ids polled old (run_loop self hs_ids polled old w)
  unfolding run_loop add_run_result
  run_loop-Adds [] polled old w k = Adds-none [] polled old w k (inl refl)
  run_loop-Adds (h ∷ hs_ids) polled old w k = elim (Bool-cases (leb self.poll_limit polled)) [
    | inl q ↦ rw q (Adds-none (h ∷ hs_ids) polled old w k (inr (inl (ground arith))))
    | inr q ↦ elim (Bool-cases (self.is_shutdown w).0) [
      | inl stop ↦
          rw (q, stop)
            (Adds-none (h ∷ hs_ids) polled old (self.is_shutdown w).1 k
              (inr (inr (w, ap (λ b. (b, (self.is_shutdown w).1)) stop))))
      | inr on ↦
          let w1 = (self.is_shutdown w).1 in
          elim (Bool-cases (self.backoff_hs_should_skip h w1).0) [
            | inl skip ↦
                rw (q, on, skip)
                  (Adds-skipped _ hs_ids polled old _ (w1, inl (skip, refl)) (ground arith)
                    (run_loop-Adds hs_ids polled _ (self.backoff_hs_should_skip h w1).1 k))
            | inr go ↦
                let w2 = (self.backoff_hs_should_skip h w1).1 in
                rw (q, on, go)
                  (Adds-polled _ hs_ids polled old _ (w1, inr (go, refl)) (poll_status h w2)
                    (run_loop-Adds hs_ids (polled + 1) _ (poll self h w2).1 (ground arith)))
          ]
    ]
  ]

  -- A run whose list of homeservers was read never fails. Its statistics are about the first
  -- homeservers of the list, in order and without a gap. A homeserver is reported as skipped when
  -- the backoff, asked about it, answered so, and otherwise with the status of a run that was built
  -- right then. Those skipped do not use up the limit, and at most as many as the limit are built
  -- and run. The run stops before the end of the list only when it has used up the limit or has
  -- just seen the shutdown flag set.
  pub run-Covers :
      (w w1 : W) (hs_ids : List String)
      → self.pre_run w ≡ (ok hs_ids, w1)
      → (stats : RunAllProcessorsStats) × (w2 : W) × (run self w
          ≡ (ok (self.post_run stats w2).0, (self.post_run stats w2).1))
        × Covers hs_ids 0 stats w2
  unfolding run
  run-Covers w w1 hs_ids h =
      let (new, e, c) = run_loop-Adds hs_ids 0 [] w1 (omega arith) in
      let out = run_loop self hs_ids 0 [] w1 in
      (out.0, out.1, rw (run, ap (λ p. p.0) h, ap (λ p. p.1) h) refl, rw e c)
