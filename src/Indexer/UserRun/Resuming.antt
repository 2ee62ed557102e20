-- ===== src/Indexer/UserRun/Resuming.antt =====
-- How a run over the users of a homeserver ends, and what it leaves for the next one.
use native.Mathlib.Nat.{mod-lt}
use pubky_nexus.Base.{
  ◌≤◌, sym, ◌∙◌, append_assoc, length-append, leb→le, ℕ, suc, String, true, Option, some, List, [],
  ◌∷◌, ◌++◌, Result, ok, err, ◌≡◌, ◌<◌, ◌+◌, ◌%◌, refl, arith, length, leb, Bool-cases, inl, inr,
  Result-cases, ap, subst,
}
use pubky_nexus.Errors.{EventProcessorError, should_not_retry_now, is_not_found}
use pubky_nexus.Event.{Specs}
use pubky_nexus.Indexer.UserRun.{
  KeyBased, State, Ended, process_user, record_result, stop_after, after_user, run_users,
}
use pubky_nexus.Retry.Processor.{RunOutcome, completed, budget_spent}
use pubky_nexus.Runner.Resume.{
  User, UserResumePoints, order, rotate_left, record_stop_after, record_full_pass,
}
use pubky_nexus.Runner.Resume.Turn.{split_at, order-record_stop_after}
use pubky_nexus.Runner.Resume.Strict.{IsDistinct}
use pubky_nexus.Runner.UserBackoff.{UserNotFoundBackoff, consume_skip}

module _ {specs : Specs} {W : Type 0} (self : KeyBased specs W) where
  -- The user with the index `index` was processed last, and the clock, read right after that, has
  -- reached the deadline; the world is as that reading left it.
  abbrev pub StopsAfter : List User → ℕ → ℕ → W → Type 0
  StopsAfter users deadline index w =
      (before : List User) × (user : User) × (rest : List User) × (users ≡ before ++ (user ∷ rest))
      × (length before ≡ index)
      × ((v : W) × (t : ℕ) × (deadline ≤ t)
          × (self.signals.now (process_user self user deadline v).1 ≡ (t, w)))

  -- The user at which a run failed was processed last, with the error of the run.
  abbrev pub FailsAt : List User → ℕ → EventProcessorError → W → Type 0
  FailsAt users deadline e w =
      (before : List User) × (user : User) × (rest : List User) × (users ≡ before ++ (user ∷ rest))
      × ((v : W) × (process_user self user deadline v ≡ (err e, w)))

  -- How a run over `users` ends in the world `w`, with the resume points before and after it.
  pub data Leaves (users : List User) (deadline : ℕ) (points points' : UserResumePoints) (w : W)
      : Result RunOutcome EventProcessorError → Type 0 where
    spent :
        (index : ℕ)
        → StopsAfter users deadline index w
        → record_stop_after self.homeserver_id users index points ≡ some points'
        → Leaves users deadline points points' w (ok budget_spent)
    full_pass :
        points' ≡ record_full_pass self.homeserver_id points
        → Leaves users deadline points points' w (ok completed)
    stopped :
        (v : W)
        → self.signals.is_shutdown v ≡ (true, w)
        → points' ≡ points
        → Leaves users deadline points points' w (ok completed)
    failed :
        {e : EventProcessorError}
        → should_not_retry_now e ≡ true
        → FailsAt users deadline e w
        → points' ≡ points
        → Leaves users deadline points points' w (err e)

  abbrev pub EndsWell : List User → ℕ → UserResumePoints → Option (Ended self) → Type 0
  EndsWell users deadline points out =
      (end : Ended self) × (out ≡ some end) × Leaves users deadline points end.1.1 end.1.2 end.0

  StopsAfter-lt :
      (users : List User) (deadline index : ℕ) (w : W)
      → StopsAfter users deadline index w
      → index < length users
  StopsAfter-lt users deadline index w (before, user, rest, e, n, last) =
      rw (← n, e, length-append before (user ∷ rest)) (omega arith)

  stop_after-EndsWell :
      (users : List User) (deadline index : ℕ) (backoff : UserNotFoundBackoff)
      (points : UserResumePoints) (w : W)
      → StopsAfter users deadline index w
      → EndsWell users deadline points (stop_after self users index (backoff, points, w))
  unfolding stop_after record_stop_after
  stop_after-EndsWell users deadline index backoff points w stops =
      let h = StopsAfter-lt users deadline index w stops in
      let (c, x, d, e, l, g) =
        split_at ((index + 1) % length users) users (mod-lt (index + 1) (omega (arith, h))) in
      rw (stop_after, record_stop_after, g)
        (_, refl, spent index stops (rw (record_stop_after, g) refl))

  record_result_err :
      (user_pk : String) (r : Result (Unit {0}) EventProcessorError) (b : UserNotFoundBackoff)
      (e : EventProcessorError)
      → record_result self user_pk r b ≡ err e
      → (should_not_retry_now e ≡ true) × (r ≡ err e)
  unfolding record_result
  record_result_err user_pk (ok x) b e h = absurd (ground arith)
  record_result_err user_pk (err x) b e h = elim (Bool-cases (should_not_retry_now x)) [
    | inl q ↦ (ground arith, ground arith)
    | inr q ↦ elim (Bool-cases (is_not_found x)) [
      | inl p ↦ absurd (ground arith)
      | inr p ↦ absurd (ground arith)
    ]
  ]

  module _ (users : List User) (deadline : ℕ) (points : UserResumePoints) where
    after_user-EndsWell :
        (before : List User) (user : User) (rest : List User) (backoff : UserNotFoundBackoff)
        (next : State self → Option (Ended self)) (v : W)
        → users ≡ before ++ (user ∷ rest)
        → ((b : UserNotFoundBackoff) (x : W) → EndsWell users deadline points (next (b, points, x)))
        → EndsWell users deadline points (
            after_user self users deadline
              (length before)
              user.0
              backoff
              points
              next
              (process_user self user deadline v))
    unfolding after_user
    after_user-EndsWell before user rest backoff next v c ih =
        let (r, w) = process_user self user deadline v in
        let (t, w') = self.signals.now w in
        elim (Result-cases (record_result self user.0 r backoff)) [
          | inr (e, q) ↦
              let (forbids, same) = record_result_err user.0 r backoff e q in
              rw (after_user, q)
                (_, refl, failed forbids (before, user, rest, c, (v, ap (λ x. (x, w)) same)) refl)
          | inl (b, q) ↦ elim (Bool-cases (leb deadline t)) [
            | inl late ↦
                rw (after_user, q, late)
                  (stop_after-EndsWell users deadline (length before) b points w'
                    (before, user, rest, c, refl, (v, t, leb→le deadline t late, refl)))
            | inr early ↦ rw (after_user, q, early) (ih b w')
          ]
        ]

    run_users-EndsWell :
        (before rest : List User) (backoff : UserNotFoundBackoff) (w : W)
        → users ≡ before ++ rest
        → EndsWell users deadline points
            (run_users self users deadline (length before) rest (backoff, points, w))
    unfolding run_users
    run_users-EndsWell before [] backoff w c = (_, refl, full_pass refl)
    run_users-EndsWell before (user ∷ rest) backoff w c =
        let w1 = (self.signals.is_shutdown w).1 in
        let backoff1 = (consume_skip user.0 backoff).1 in
        let tail : users ≡ (before ++ (user ∷ [])) ++ rest =
          c ∙ sym (append_assoc before (user ∷ []) rest) in
        let next : length (before ++ (user ∷ [])) ≡ suc (length before) =
          length-append before (user ∷ []) ∙ omega arith in
        let ih : (b : UserNotFoundBackoff) (x : W)
            → EndsWell users deadline points
                (run_users self users deadline (suc (length before)) rest (b, points, x)) =
          λ b x.
            subst
              (λ n.
                EndsWell users deadline points
                  (run_users self users deadline n rest (b, points, x)))
              next (run_users-EndsWell (before ++ (user ∷ [])) rest b x tail) in
        elim (Bool-cases (self.signals.is_shutdown w).0) [
          | inl stop ↦ rw stop (_, refl, stopped w (ap (λ b. (b, w1)) stop) refl)
          | inr on ↦ elim (Bool-cases (consume_skip user.0 backoff).0) [
            | inl skip ↦ rw (on, skip) (ih backoff1 w1)
            | inr go ↦
                rw (on, go)
                  (after_user-EndsWell before user rest backoff1
                    (λ s. run_users self users deadline (suc (length before)) rest s) w1 c ih)
          ]
        ]

  pub run_users-Leaves :
      (users : List User) (deadline : ℕ) (backoff : UserNotFoundBackoff) (points : UserResumePoints)
      (w : W)
      → EndsWell users deadline points (run_users self users deadline 0 users (backoff, points, w))
  run_users-Leaves users deadline backoff points w =
      run_users-EndsWell users deadline points [] users backoff w refl

  spent_index :
      {users : List User} {deadline : ℕ} {points points' : UserResumePoints} {w : W}
      {r : Result RunOutcome EventProcessorError}
      → Leaves users deadline points points' w r
      → r ≡ ok budget_spent
      → (index : ℕ) × StopsAfter users deadline index w
        × (record_stop_after self.homeserver_id users index points ≡ some points')
  spent_index (spent index h p) q = (index, h, p)
  spent_index (full_pass p) q = absurd (ground arith)
  spent_index (stopped v h p) q = absurd (ground arith)
  spent_index (failed p f e) q = absurd (ground arith)

  -- Runs that spend their budget take turns over the users. If a run over users with different
  -- keys, in the order that `order` gives, spent its budget, then the next run over the same users
  -- goes round in the same circular order, starting right after the user that this one
  -- processed last, when the clock had reached the deadline.
  pub run_users-order :
      (users : List User) (deadline : ℕ) (backoff backoff' : UserNotFoundBackoff)
      (points points' : UserResumePoints) (w w' : W)
      → IsDistinct users
      → run_users self
          (order self.homeserver_id users points)
          deadline
          0
          (order self.homeserver_id users points)
          (backoff, points, w)
        ≡ some (ok budget_spent, (backoff', points', w'))
      → let o = order self.homeserver_id users points in
        (index : ℕ) × StopsAfter o deadline index w'
        × (order self.homeserver_id users points' ≡ rotate_left ((index + 1) % length o) o)
  run_users-order users deadline backoff backoff' points points' w w' distinct h =
      let hs_id = self.homeserver_id in
      let o = order hs_id users points in
      let (end, out, leaves) = run_users-Leaves o deadline backoff points w in
      let same : end ≡ (ok budget_spent, (backoff', points', w')) = cc in
      let (index, stops, stop) = spent_index leaves (ap (λ x. x.0) same) in
      let lt = StopsAfter-lt o deadline index end.1.2 stops in
      let (inner, recorded, turn) = order-record_stop_after hs_id users points index distinct lt in
      let there : inner ≡ points' = cc in
      (
        index,
        subst (StopsAfter o deadline index) (ap (λ x. x.1.2) same) stops,
        subst (λ p. order hs_id users p ≡ rotate_left ((index + 1) % length o) o) there turn,
      )
