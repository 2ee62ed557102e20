-- ===== src/Resolver/Unbound/Streak.antt =====
-- When a user without a homeserver is looked up again, against its empty lookups in a row.
use native.Mathlib.Nat.{pow-suc}
use pubky_nexus.Base.{
  ℕ, suc, String, Bool, true, Option, none, some, List, [], ◌∷◌, min, ◌+◌, ◌*◌, ◌^◌, leb,
  if◌then◌else◌, ◌==◌, string_eq, ◌≡◌, ◌<◌, ◌∙◌, refl, arith, filter, any, All, All-map,
  filter-agree,
}
use pubky_nexus.Base.HashMap
use pubky_nexus.Base.Word.{u64_mod}
use pubky_nexus.Resolver.Unbound.{
  UnboundEntry, UnboundBackoff, unbound_retry_initial, from_millis, saturating_double, is_due,
  retain_due, next_wait, record_unbound, clear,
}

-- A call: a round over users, an empty lookup, or a lookup that found a homeserver.
pub data Call : Type 0 where
  selected : List String → ℕ → Call
  unbound : String → ℕ → Call
  found : String → Call

abbrev pub called : ℕ → UnboundBackoff → Call → UnboundBackoff
called ttl_ms self (selected user_ids now) = (retain_due self user_ids now).1
called ttl_ms self (unbound user_id now) = record_unbound self user_id now (from_millis ttl_ms)
called ttl_ms self (found user_id) = clear self user_id

abbrev pub replay : ℕ → UnboundBackoff → List Call → UnboundBackoff
replay ttl_ms self [] = self
replay ttl_ms self (c ∷ calls) = replay ttl_ms (called ttl_ms self c) calls

-- Empty lookups in a row: how many there are after the first, and when the last was.
abbrev pub Streak : Type 0
Streak = Option (ℕ × ℕ)

abbrev longer : ℕ → Streak → Streak
longer now none = some (0, now)
longer now (some (n, _)) = some (suc n, now)

abbrev pub streak_step : String → Streak → Call → Streak
streak_step user_id acc (selected user_ids now) =
    if any (λ u. u == user_id) user_ids then acc else none
streak_step user_id acc (unbound other now) = if other == user_id then longer now acc else acc
streak_step user_id acc (found other) = if other == user_id then none else acc

abbrev pub streak : String → Streak → List Call → Streak
streak user_id acc [] = acc
streak user_id acc (c ∷ calls) = streak user_id (streak_step user_id acc c) calls

-- The wait after a streak: a minute, doubled with each further empty lookup, up to the TTL.
abbrev pub wait_after : ℕ → ℕ → ℕ
wait_after ttl_ms n = min (unbound_retry_initial * 2 ^ n) (from_millis ttl_ms)

-- Whether a user with such a streak is to be looked up at `now`.
abbrev pub due_after : ℕ → ℕ → Streak → Bool
due_after ttl_ms now none = true
due_after ttl_ms now (some (n, last)) = leb (last + wait_after ttl_ms n) now

record_unbound-get :
    (self : UnboundBackoff) (user_id j : String) (now ttl : ℕ)
    → let w = next_wait ttl (HashMap.get user_id self) in
      HashMap.get j (record_unbound self user_id now ttl) ≡ (
        if user_id == j
        then some (record { next_attempt = now + w; wait = w })
        else HashMap.get j self)
unfolding record_unbound
record_unbound-get self user_id j now ttl = HashMap.get-insert user_id j _ self

module _ (ttl_ms : ℕ) where
  abbrev shown : Streak → Option UnboundEntry
  shown none = none
  shown (some (n, last)) =
      some (record { next_attempt = last + wait_after ttl_ms n; wait = wait_after ttl_ms n })

  wait_doubles :
      (n : ℕ)
      → ttl_ms < u64_mod
      → min (saturating_double (wait_after ttl_ms n)) (from_millis ttl_ms)
        ≡ wait_after ttl_ms (suc n)
  unfolding saturating_double
  wait_doubles n k = rw pow-suc (ground arith)

  next_wait-shown :
      (acc : Streak) (now : ℕ)
      → ttl_ms < u64_mod
      → let w = next_wait (from_millis ttl_ms) (shown acc) in
        some (record { next_attempt = now + w; wait = w }) ≡ shown (longer now acc)
  unfolding next_wait
  next_wait-shown none now k = refl
  next_wait-shown (some (n, last)) now k = rw (wait_doubles n k) refl

  -- The backoff shows the streak of each user.
  abbrev Shows : UnboundBackoff → (String → Streak) → Type 0
  Shows self s = (user_id : String) → HashMap.get user_id self ≡ shown (s user_id)

  called-Shows :
      (self : UnboundBackoff) (s : String → Streak) (c : Call)
      → ttl_ms < u64_mod
      → Shows self s
      → Shows (called ttl_ms self c) (λ u. streak_step u (s u) c)
  unfolding retain_due record_unbound clear
  called-Shows self s (selected user_ids now) k g u =
      ground (arith, HashMap.get-retain (λ v. any (λ w. w == v) user_ids) u self, g u)
  called-Shows self s (unbound other now) k g u =
      rw (record_unbound-get self other u now (from_millis ttl_ms), g other, g u)
        (ground (arith, next_wait-shown (s other) now k, string_eq.same_iff other u))
  called-Shows self s (found other) k g u = ground (arith, HashMap.get-remove other u self, g u)

  replay-Shows :
      (self : UnboundBackoff) (s : String → Streak) (calls : List Call)
      → ttl_ms < u64_mod
      → Shows self s
      → Shows (replay ttl_ms self calls) (λ u. streak u (s u) calls)
  replay-Shows self s [] k g = g
  replay-Shows self s (c ∷ calls) k g =
      replay-Shows (called ttl_ms self c) (λ u. streak_step u (s u) c) calls k
        (called-Shows self s c k g)

  is_due-shown :
      (entries : UnboundBackoff) (acc : Streak) (now : ℕ) (u : String)
      → HashMap.get u entries ≡ shown acc
      → is_due entries now u ≡ due_after ttl_ms now acc
  unfolding is_due
  is_due-shown entries none now u h = rw (is_due, h) refl
  is_due-shown entries (some (n, last)) now u h = rw (is_due, h) refl

any_self : (xs : List String) → All (λ u. any (λ w. w == u) xs ≡ true) xs
any_self [] = tt
any_self (x ∷ xs) =
    (ground (arith, string_eq.same_iff x x), All-map (λ u h. ground arith) xs (any_self xs))

get-retain_kept :
    (p : String → Bool) (u : String) (self : UnboundBackoff)
    → p u ≡ true
    → HashMap.get u (HashMap.retain p self) ≡ HashMap.get u self
get-retain_kept p u self h = ground (arith, HashMap.get-retain p u self)

-- An unbound user is not looked up in every round, but ever more seldom. From an empty backoff on, whatever
-- rounds and lookups came before, with one TTL of less than 2 ^ 64 milliseconds: a round keeps, in
-- order, exactly those of its users for which at least a minute has passed since the last empty
-- lookup, doubled with each further empty lookup in a row, up to the TTL. A lookup that finds a
-- homeserver ends the streak, and so does a round in which the user is not unbound any more; the
-- lookups of other users do not matter.
pub retain_due-replay :
    (ttl_ms : ℕ) (calls : List Call) (user_ids : List String) (now : ℕ)
    → ttl_ms < u64_mod
    → (retain_due (replay ttl_ms [] calls) user_ids now).0
      ≡ filter (λ u. due_after ttl_ms now (streak u none calls)) user_ids
unfolding retain_due HashMap.get
retain_due-replay ttl_ms calls user_ids now k =
    let self = replay ttl_ms [] calls in
    let shows = replay-Shows ttl_ms [] (λ u. none) calls k (λ u. refl) in
    let listed : String → Bool = λ u. any (λ w. w == u) user_ids in
    filter-agree (is_due (HashMap.retain listed self) now)
      (λ u. due_after ttl_ms now (streak u none calls)) user_ids
      (All-map
        (λ u h.
          is_due-shown ttl_ms (HashMap.retain listed self) (streak u none calls) now u
            (get-retain_kept listed u self h ∙ shows u))
        user_ids (any_self user_ids))
