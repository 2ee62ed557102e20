-- ===== src/Indexer/UserRun.antt =====
-- `KeyBasedEventProcessor` of nexus-watcher/src/service/indexer/key_based.rs: a run over the users
-- of one homeserver.
use pubky_nexus.Base.{
  ℕ, zero, suc, String, Bool, true, false, Option, none, some, List, [], ◌∷◌, Result, ok, err, Step,
  if◌then◌else◌, leb, any, is_empty, ◌+◌, ◌==◌, string_eq, map_err,
}
use pubky_nexus.Errors.{
  EventProcessorError, HsError, RedisError, Messages, from_hs, should_not_retry_now, is_not_found,
}
use pubky_nexus.Event.{Specs, HsStreamEvent}
use pubky_nexus.Indexer.Processor.{Processor}
use pubky_nexus.Indexer.UserEvents.{Signals, Progress, process_user_events}
use pubky_nexus.Retry.Processor.{RunOutcome, completed, budget_spent}
use pubky_nexus.Runner.Resume.{User, UserResumePoints, order, record_stop_after, record_full_pass}
use pubky_nexus.Runner.UserBackoff.{
  UserNotFoundBackoff, consume_skip, record_failure, record_success,
}
pub mod Resuming
mod Tests

-- `HsBlacklist::is_blacklisted` of nexus-common/src/models/homeserver.rs.
unfoldable pub is_blacklisted : List String → String → Bool
is_blacklisted blacklist hs_id = any (λ pk. pk == hs_id) blacklist

-- What the processor reaches. Resolving the users reads the graph and the cursors; the rest is the
-- client's event stream and the write of a user's cursor.
pub record KeyBased (specs : Specs) (W : Type 0) : Type 0 where
  pub processor : Processor specs W
  pub signals : Signals W
  pub homeserver_id : String
  pub limit : ℕ  -- u16
  pub budget : ℕ
  pub hs_blacklist : List String
  pub text : Messages
  pub resolve_users_with_cursors : Step W EventProcessorError (List User)
  pub user_events : String → String → ℕ → ℕ → Step W HsError (List HsStreamEvent)
  pub write_cursor : String → String → ℕ → Step W RedisError (Unit {0})

module _ {specs : Specs} {W : Type 0} (self : KeyBased specs W) where
  -- The write of the cursor that ends `process_user`; its failure is logged only.
  persist :
      String
      → (Option ℕ × Result (Unit {0}) EventProcessorError) × W
      → Result (Unit {0}) EventProcessorError × W
  persist user_id ((none, result), w) = (result, w)
  persist user_id ((some cursor, result), w) =
      (result, (self.write_cursor user_id self.homeserver_id cursor w).1)

  -- What follows the fetch in `process_user`.
  process_fetched :
      String
      → ℕ
      → ℕ
      → Result (List HsStreamEvent) HsError × W
      → Result (Unit {0}) EventProcessorError × W
  unfolding persist
  process_fetched user_id cursor deadline (err e, w) = (err (from_hs self.text e), w)
  process_fetched user_id cursor deadline (ok stream_events, w) = persist user_id (
      process_user_events self.processor self.signals self.homeserver_id user_id deadline cursor
        stream_events w)

  -- `process_user`
  unfoldable pub process_user : User → ℕ → Step W EventProcessorError (Unit {0})
  unfolding process_fetched
  process_user user deadline w =
      process_fetched user.0 user.1 deadline
        (self.user_events self.homeserver_id user.0 user.1 self.limit w)

  -- The 404s of the users, the resume points, and the rest of the world.
  abbrev pub State : Type 0
  State = UserNotFoundBackoff × UserResumePoints × W

  -- The `match` on a user's result: the error that ends the run, or the new 404 backoff.
  unfoldable pub record_result :
      String
      → Result (Unit {0}) EventProcessorError
      → UserNotFoundBackoff
      → Result UserNotFoundBackoff EventProcessorError
  record_result user_pk (ok _) backoff = ok (record_success user_pk backoff)
  record_result user_pk (err e) backoff =
      if should_not_retry_now e
      then err e
      else if is_not_found e
      then ok (record_failure user_pk backoff)
      else ok backoff

  abbrev pub Ended : Type 0
  Ended = Result RunOutcome EventProcessorError × State

  -- A run that spent its budget after the user at `index`: none if that index is out of range.
  unfoldable pub stop_after : List User → ℕ → State → Option Ended
  stop_after users index (backoff, points, w) =
      elim (record_stop_after self.homeserver_id users index points) [
        | none ↦ none
        | some points' ↦ some (ok budget_spent, (backoff, points', w))
      ]

  -- What follows `process_user` in the loop; `next` is the rest of the loop.
  unfoldable pub after_user :
      List User
      → ℕ
      → ℕ
      → String
      → UserNotFoundBackoff
      → UserResumePoints
      → (State → Option Ended)
      → Result (Unit {0}) EventProcessorError × W
      → Option Ended
  unfolding record_result stop_after
  after_user users deadline index user_pk backoff points next (result, w) =
      elim (record_result user_pk result backoff) [
        | err e ↦ some (err e, (backoff, points, w))
        | ok backoff' ↦
            let (t, w') = self.signals.now w in
            let rest = next (backoff', points, w') in
            if leb deadline t then stop_after users index (backoff', points, w') else rest
      ]

  -- The loop over the users, from `index` on; none where it panics.
  unfoldable pub run_users : List User → ℕ → ℕ → List User → State → Option Ended
  unfolding after_user process_user
  run_users users deadline index [] (backoff, points, w) =
      some (ok completed, (backoff, record_full_pass self.homeserver_id points, w))
  run_users users deadline index (user ∷ rest) (backoff, points, w) =
      let (stop, w1) = self.signals.is_shutdown w in
      let (skip, backoff1) = consume_skip user.0 backoff in
      let skipped = run_users users deadline (suc index) rest (backoff1, points, w1) in
      let processed =
        after_user users deadline index user.0 backoff1 points
          (λ s. run_users users deadline (suc index) rest s) (process_user user deadline w1) in
      if stop
      then some (ok completed, (backoff, points, w1))
      else if skip
      then skipped
      else processed

  -- What follows the resolution of the users.
  unfoldable pub run_resolved :
      ℕ
      → UserNotFoundBackoff
      → UserResumePoints
      → Result (List User) EventProcessorError × W
      → Option Ended
  unfolding run_users
  run_resolved deadline backoff points (err e, w) = some (err e, (backoff, points, w))
  run_resolved deadline backoff points (ok users, w) =
      let ordered = order self.homeserver_id users points in
      let ran = run_users ordered deadline 0 ordered (backoff, points, w) in
      if is_empty users then some (ok completed, (backoff, points, w)) else ran

  -- `run_internal`
  unfoldable pub run_internal : State → Option Ended
  unfolding run_resolved is_blacklisted
  run_internal (backoff, points, w) =
      let (t, w1) = self.signals.now w in
      let ran =
        run_resolved (t + self.budget) backoff points (self.resolve_users_with_cursors w1) in
      if is_blacklisted self.hs_blacklist self.homeserver_id
      then some (err (EventProcessorError.hs_blacklisted self.homeserver_id), (backoff, points, w))
      else ran
