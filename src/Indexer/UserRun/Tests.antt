-- ===== src/Indexer/UserRun/Tests.antt =====
-- A run over two users whose budget is spent after the first.
use pubky_nexus.Base.{
  ℕ, String, true, false, none, some, List, [], ◌∷◌, ok, ◌≡◌, ◌+◌, ◌%◌, refl, arith, length,
  string_eq,
}
use pubky_nexus.Base.HashMap
use pubky_nexus.Base.Order.{str_leb}
use pubky_nexus.Base.Sort.{sort_by, insert_sorted}
use pubky_nexus.Event.{Specs, ResourceClass}
use pubky_nexus.Indexer.UserEvents.{process_user_events, first_out_of_order, process_events}
use pubky_nexus.Indexer.UserRun.{
  KeyBased, run_users, after_user, process_user, record_result, stop_after,
}
use pubky_nexus.Indexer.UserRun.Resuming.{StopsAfter, run_users-order}
use pubky_nexus.Runner.Resume.{User, order, rotate_left, record_stop_after}
use pubky_nexus.Runner.Resume.Strict.{IsDistinct}
use pubky_nexus.Runner.UserBackoff.{consume_skip, record_success}

abbrev posts : Specs
posts = record {
  ExtendedParsedUri = String;
  try_from = λ uri. ok uri;
  try_to_uri_str = λ uri. ok uri;
  resource = λ uri. some ResourceClass.other;
  user_id = λ uri. "alice";
}

-- The world is the clock; the streams are empty.
abbrev external : KeyBased posts ℕ
external = record {
  processor = record {
    handle = λ event w. (ok tt, w);
    retry_scheduler = none;
    homeserver_id = some "hs";
    should_process_event = λ event w. (ok true, w);
  };
  signals = record { now = λ w. (w, w + 1); is_shutdown = λ w. (false, w) };
  homeserver_id = "hs";
  limit = 10;
  budget = 5;
  hs_blacklist = [];
  text = record { redis = λ e. ""; graph = λ e. ""; hs = λ e. "" };
  resolve_users_with_cursors = λ w. (ok [], w);
  user_events = λ hs_id user_id cursor limit w. (ok [], w);
  write_cursor = λ user_id hs_id cursor w. (ok tt, w);
}

abbrev users : List User
users = ("b", 2) ∷ ("a", 1) ∷ []

users-IsDistinct : IsDistinct users
users-IsDistinct = (((λ h. ground (arith, (string_eq.same_iff "a" "b").1 h)), tt), (tt, tt))

run_users-order_example :
    let o = order "hs" users [] in
    (index : ℕ) × StopsAfter external o 5 index 10
    × (order "hs" users (("hs", "b") ∷ []) ≡ rotate_left ((index + 1) % length o) o)
unfolding run_users after_user process_user record_result stop_after order record_stop_after
    HashMap.get HashMap.insert HashMap.remove sort_by insert_sorted str_leb consume_skip
    record_success process_user_events first_out_of_order process_events
run_users-order_example =
    run_users-order external users 5 [] [] [] (("hs", "b") ∷ []) 9 10 users-IsDistinct refl
