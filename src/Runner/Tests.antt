-- ===== src/Runner/Tests.antt =====
-- The runners on small inputs.
use pubky_nexus.Base.{
  ◌+◌, ◌%◌, length, ℕ, String, false, none, some, List, [], ◌∷◌, ok, ◌≡◌, refl, arith, ltb, min,
  ◌==◌, string_eq,
}
use pubky_nexus.Base.HashMap
use pubky_nexus.Base.Order.{str_leb}
use pubky_nexus.Base.Sort.{sort_by, insert_sorted}
use pubky_nexus.Runner.Resume.{
  User, UserResumePoints, order, record_stop_after, rotate_left, partition_point,
}
use pubky_nexus.Runner.Resume.Strict.{IsDistinct}
use pubky_nexus.Runner.Resume.Turn.{order-record_stop_after}
use pubky_nexus.Runner.Stats.{ProcessorRunStatus, RunAllProcessorsStats}
use pubky_nexus.Runner.HsBackoff
use pubky_nexus.Runner.HsBackoff.{HomeserverBackoff, should_skip}
use pubky_nexus.Runner.HsBackoff.Streak
use pubky_nexus.Runner.HsBackoff.Streak.{Run, backed_off, streak, should_skip-replay}
use pubky_nexus.Runner.UserBackoff.{consume_skip}
use pubky_nexus.Runner.UserBackoff.Since
use pubky_nexus.Runner.UserBackoff.Since.{
  Call, asked, failed, fetched, since, unseen, consume_skip-replay,
}
use pubky_nexus.Runner.Run.{Runner, run}
use pubky_nexus.Runner.Run.Covers.{Covers, run-Covers}

abbrev fresh : HomeserverBackoff
fresh = record { initial_backoff_secs = 60; max_backoff_secs = 3600; state = [] }

abbrev failure : String → ℕ → Run
failure hs_id now = record {
  hs_id = hs_id;
  status = ProcessorRunStatus.budget_spent;
  now = (now, now);
}

abbrev runs : List Run
runs = failure "hs1" 5 ∷ failure "hs2" 6 ∷ failure "hs1" 7 ∷ []

should_skip-replay_example :
    should_skip (Streak.replay fresh runs) 100000000000 "hs1"
    ≡ backed_off 60 3600 100000000000 (streak "hs1" none runs)
unfolding HsBackoff.new
should_skip-replay_example =
    should_skip-replay 60 3600 fresh runs 100000000000 "hs1" refl (omega arith)

-- The second failure in a row is waited for twice as long.
second_waits_120s : streak "hs1" none runs ≡ some (1, 7)
second_waits_120s = refl

abbrev calls : List Call
calls = failed "u1" ∷ asked "u1" ∷ failed "u1" ∷ failed "u2" ∷ asked "u1" ∷ []

consume_skip-replay_example :
    (consume_skip "u1" (Since.replay [] calls)).0
    ≡ ltb (since "u1" unseen calls).asks (min (since "u1" unseen calls).failures 10)
consume_skip-replay_example = consume_skip-replay calls "u1"

-- Two homeservers and a limit of one; the first is in backoff.
abbrev capped : Runner ℕ String
capped = record {
  now = λ w. (w, w);
  is_shutdown = λ w. (false, w);
  build = λ hs_id w. (ok (λ v. (ok tt, v)), w);
  pre_run = λ w. (ok ("hs1" ∷ "hs2" ∷ "hs3" ∷ []), w);
  poll_limit = 1;
  post_run = λ stats w. (stats, w);
  backoff_hs_should_skip = λ hs_id w. (hs_id == "hs1", w);
  backoff_hs_record_result = λ hs_id status w. w;
}

run-Covers_example :
    (stats : RunAllProcessorsStats) × (w2 : ℕ) × (run capped 0
      ≡ (ok (capped.post_run stats w2).0, (capped.post_run stats w2).1))
    × Covers capped ("hs1" ∷ "hs2" ∷ "hs3" ∷ []) 0 stats w2
run-Covers_example = run-Covers capped 0 0 ("hs1" ∷ "hs2" ∷ "hs3" ∷ []) refl

abbrev users : List User
users = ("b", 2) ∷ ("a", 1) ∷ []

users-IsDistinct : IsDistinct users
users-IsDistinct = (((λ h. ground (arith, (string_eq.same_iff "a" "b").1 h)), tt), (tt, tt))

-- The run starts from "b" and stops there, so the next one starts from "a".
order-record_stop_after_example :
    let o = order "hs" users (("hs", "b") ∷ []) in
    (inner' : UserResumePoints) × (record_stop_after "hs" o 0 (("hs", "b") ∷ []) ≡ some inner')
    × (order "hs" users inner' ≡ rotate_left ((0 + 1) % length o) o)
unfolding order sort_by insert_sorted HashMap.get str_leb partition_point
order-record_stop_after_example =
    order-record_stop_after "hs" users (("hs", "b") ∷ []) 0 users-IsDistinct (omega arith)
