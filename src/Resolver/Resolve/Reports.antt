-- ===== src/Resolver/Resolve/Reports.antt =====
-- What a resolution that succeeds does and reports.
use mathlib.Core.Option
use pubky_nexus.Base.{
  String, Bool, true, false, not, Option, none, some, Result, ok, err, Step, and_then, pure, ◌==◌,
  ◌&&◌, string_eq, if◌then◌else◌, ◌≡◌, ◌≢◌, inl, inr, refl, arith, ap, ◌∙◌, Bool-cases,
  Result-cases, sym, subst,
}
use pubky_nexus.Errors.{GraphError, PubkyClientError}
use pubky_nexus.Resolver.Record.{
  Pkarr, StoredRecord, PkdnsRecord, missing, published, homeserver, stored, own_record,
  resolve_own_record,
}
use pubky_nexus.Resolver.Record.Proof.{own_record-cases}
use pubky_nexus.Resolver.Resolve.{
  UserHomeserverMapping, Resolution, StaleReason, Outcome, Edge, bind, flag, User, view, coalesce,
  Unmoved, Applied, Graph, mapping_state, outcome, mapping, newly_stale, bind_first, toggle,
  apply_record, after_lookup, resolve_user, bound, confirmed, diverged, lookup_failed,
}
use pubky_nexus.Resolver.Resolve.Acts.{then_pure-ok, then_pure-state}

-- Whether a published homeserver is the bound one.
abbrev pub names : String → Option String → Bool
names hs_id none = false
names hs_id (some resolved_hs_id) = resolved_hs_id == hs_id

abbrev pub first_edge : Option String → Option StoredRecord → Option Edge
first_edge none kept = none
first_edge (some hs_id) none = none
first_edge (some hs_id) (some kept) =
    some (record { hs_id = hs_id; stale = false; kept = some kept })

-- A user after a lookup that found a homeserver and a record, either of which may be missing.
abbrev pub resolved_user : Option String → Option StoredRecord → User → User
resolved_user hs kept none = none
resolved_user hs kept (some none) = some (first_edge hs kept)
resolved_user hs kept (some (some edge)) = some (
    some (record {
      hs_id = edge.hs_id;
      stale = not (names edge.hs_id hs);
      kept = coalesce kept edge.kept;
    }))

abbrev pub outcome_of : Option String → Outcome
outcome_of none = Outcome.unresolved
outcome_of (some hs_id) = Outcome.resolved

abbrev pub reason_of : Option String → StaleReason
reason_of none = StaleReason.unresolved
reason_of (some hs_id) = StaleReason.hs_changed

-- Whether an edge that was active is stale.
abbrev pub became_stale : User → User → Bool
became_stale none after = false
became_stale (some none) after = false
became_stale (some (some before)) none = false
became_stale (some (some before)) (some none) = false
became_stale (some (some before)) (some (some edge)) = not before.stale && edge.stale

-- The three labels of a resolution that had an answer, and the user after it.
abbrev pub Reported : Option String → Option StoredRecord → User → User → Resolution → Type 0
Reported hs kept before after r =
    (after ≡ resolved_user hs kept before)
    × (mapping r ≡ mapping_state (view before))
    × (outcome r ≡ outcome_of hs)
    × (newly_stale r ≡ (if became_stale before after then some (reason_of hs) else none))

pub Reported-bound :
    (hs_id : String) (kept : StoredRecord) (before : User)
    → view before ≡ none
    → Reported (some hs_id) (some kept) before (Option.map (bind hs_id kept) before) bound
unfolding mapping mapping_state outcome newly_stale
Reported-bound hs_id kept none h = (refl, refl, refl, refl)
Reported-bound hs_id kept (some none) h = (refl, refl, refl, refl)
Reported-bound hs_id kept (some (some edge)) h = absurd (ground arith)

pub Reported-unbound :
    (kept : Option StoredRecord) (before : User)
    → view before ≡ none
    → Reported none kept before before Resolution.unbound
unfolding mapping mapping_state outcome newly_stale
Reported-unbound kept none h = (refl, refl, refl, refl)
Reported-unbound kept (some none) h = (refl, refl, refl, refl)
Reported-unbound kept (some (some edge)) h = absurd (ground arith)

pub Reported-toggled :
    (hs : Option String) (kept : Option StoredRecord) (edge : Edge) (r : Resolution)
    → r ≡ (if names edge.hs_id hs then confirmed edge.stale else diverged (reason_of hs) edge.stale)
    → Reported hs kept
        (some (some edge))
        (Option.map (flag (not (names edge.hs_id hs)) kept) (some (some edge)))
        r
unfolding mapping mapping_state outcome newly_stale
Reported-toggled none kept edge r h = rw h (refl, ground arith, refl, ground arith)
Reported-toggled (some hs_id) kept edge r h = elim (Bool-cases (hs_id == edge.hs_id)) [
  | inl q ↦ rw (h, q) (refl, ground arith, refl, ground arith)
  | inr q ↦ rw (h, q) (refl, ground arith, refl, ground arith)
]

own-Applied :
    {W : Type 0} (user_of : String → W → User) (f : Option Edge → Option Edge) (u : String)
    (w w' : W)
    → Applied user_of f u w w'
    → user_of u w' ≡ Option.map f (user_of u w)
own-Applied user_of f u w w' h = ground (arith, h u, string_eq.same_iff u u)

module _ {W : Type 0} (pkarr : Pkarr) (graph : Graph W) where
  open pkarr use {PublicKey, SignedPacket, z32}
  open graph use {user_of}

  flag_then-Reported :
      (u : String) (hs : Option String) (kept : Option StoredRecord) (edge : Edge) (mark : Bool)
      (x r : Resolution) (w : W)
      → user_of u w ≡ some (some edge)
      → mark ≡ not (names edge.hs_id hs)
      → x
        ≡ (if names edge.hs_id hs then confirmed edge.stale else diverged (reason_of hs) edge.stale)
      → (and_then (graph.set_user_homeserver_stale u mark kept w) (λ _. pure x)).0 ≡ ok r
      → Reported hs kept
          (some (some edge))
          (user_of u (and_then (graph.set_user_homeserver_stale u mark kept w) (λ _. pure x)).1)
          r
  flag_then-Reported u hs kept edge mark x r w before m e h =
      let (done, same) = then_pure-ok (graph.set_user_homeserver_stale u mark kept w) x r h in
      let after = own-Applied user_of (flag mark kept) u w _ (graph.flag_ok u mark kept w done) in
      rw (then_pure-state (graph.set_user_homeserver_stale u mark kept w) x, after, before, m)
        (Reported-toggled hs kept edge r (sym same ∙ e))

  toggle-Reported :
      (u : String) (hs : Option String) (kept : Option StoredRecord) (edge : Edge) (r : Resolution)
      (w : W)
      → user_of u w ≡ some (some edge)
      → let out =
          toggle pkarr graph u (record { hs_id = edge.hs_id; stale = edge.stale }) hs kept w in
        out.0 ≡ ok r → Reported hs kept (some (some edge)) (user_of u out.1) r
  unfolding toggle
  toggle-Reported u none kept edge r w before h =
      flag_then-Reported u none kept edge true _ r w before refl refl h
  toggle-Reported u (some hs_id) kept edge r w before h = elim (Bool-cases (hs_id == edge.hs_id)) [
    | inl q ↦ branch false (confirmed edge.stale) (rw q refl) (rw q refl) (rw (toggle, q) refl)
    | inr q ↦
        branch true (diverged StaleReason.hs_changed edge.stale) (rw q refl) (rw q refl)
          (rw (toggle, q) refl)
  ]
    where
      out : Result Resolution GraphError × W
      out =
          toggle pkarr graph u (record { hs_id = edge.hs_id; stale = edge.stale }) (some hs_id) kept
            w

      branch :
          (mark : Bool) (x : Resolution)
          → mark ≡ not (names edge.hs_id (some hs_id))
          → x ≡ (
              if names edge.hs_id (some hs_id)
              then confirmed edge.stale
              else diverged StaleReason.hs_changed edge.stale)
          → out ≡ and_then (graph.set_user_homeserver_stale u mark kept w) (λ _. pure x)
          → Reported (some hs_id) kept (some (some edge)) (user_of u out.1) r
      branch mark x m e o =
          subst (λ p. Reported (some hs_id) kept (some (some edge)) (user_of u p.1) r) (sym o)
            (flag_then-Reported u (some hs_id) kept edge mark x r w before m e
              (sym (ap (λ p. p.0) o) ∙ h))

  bind_first-Reported :
      (u : String) (hs : Option String) (kept : Option StoredRecord) (before : User)
      (r : Resolution) (w : W)
      → user_of u w ≡ before
      → view before ≡ none
      → ((hs_id : String) → hs ≡ some hs_id → kept ≢ none)
      → (bind_first pkarr graph u hs kept w).0 ≡ ok r
      → Reported hs kept before (user_of u (bind_first pkarr graph u hs kept w).1) r
  unfolding bind_first
  bind_first-Reported u none kept before r w b v s h =
      let e : Resolution.unbound ≡ r = cc in rw (b, ← e) (Reported-unbound kept before v)
  bind_first-Reported u (some hs_id) none before r w b v s h = absurd (s hs_id refl refl)
  bind_first-Reported u (some hs_id) (some kept) before r w b v s h =
      let step = graph.set_user_homeserver_from_record u hs_id kept w in
      let (done, same) = then_pure-ok step bound r h in
      let after = own-Applied user_of (bind hs_id kept) u w _ (graph.bind_ok u hs_id kept w done) in
      rw (then_pure-state step bound, after, b, ← same) (Reported-bound hs_id kept before v)

  -- The labels, by what the lookup gave.
  abbrev pub Explains :
      Result (PkdnsRecord SignedPacket) PubkyClientError → User → User → Resolution → Type 0
  Explains (err e) before after r =
      (after ≡ before)
      × (mapping r ≡ mapping_state (view before))
      × (outcome r ≡ Outcome.error)
      × (newly_stale r ≡ none)
  Explains (ok found) before after r =
      Reported (homeserver pkarr found) (stored pkarr found) before after r

  apply_record-Reported :
      (u : String) (o : Option UserHomeserverMapping) (found : PkdnsRecord SignedPacket)
      (before : User) (r : Resolution) (w : W)
      → user_of u w ≡ before
      → o ≡ view before
      → ((hs_id : String) → homeserver pkarr found ≡ some hs_id → stored pkarr found ≢ none)
      → (apply_record pkarr graph u o found w).0 ≡ ok r
      → Explains (ok found) before (user_of u (apply_record pkarr graph u o found w).1) r
  unfolding apply_record homeserver stored
  apply_record-Reported u none missing before r w b v s h =
      let e : Resolution.unbound ≡ r = cc in rw (b, ← e) (Reported-unbound none before (sym v))
  apply_record-Reported u none (published p) before r w b v s h =
      bind_first-Reported u (homeserver pkarr (published p)) (stored pkarr (published p)) before r w
        b (sym v) s h
  apply_record-Reported u (some old) found none r w b v s h = absurd (ground arith)
  apply_record-Reported u (some old) found (some none) r w b v s h = absurd (ground arith)
  apply_record-Reported u (some old) found (some (some edge)) r w b v s h =
      let same : old ≡ record { hs_id = edge.hs_id; stale = edge.stale } = cc in
      let hs = homeserver pkarr found in
      let kept = stored pkarr found in
      subst
        (λ x.
          Reported hs kept (some (some edge)) (user_of u (toggle pkarr graph u x hs kept w).1) r)
        (sym same)
        (toggle-Reported u hs kept edge r w b
          (subst (λ x. (toggle pkarr graph u x hs kept w).0 ≡ ok r) same h))

  lookup_failed-Explains :
      (e : PubkyClientError) (o : Option UserHomeserverMapping) (before after : User)
      (r : Resolution)
      → after ≡ before
      → o ≡ view before
      → lookup_failed (mapping_state o) ≡ r
      → Explains (err e) before after r
  unfolding mapping outcome newly_stale
  lookup_failed-Explains e o before after r a v h = rw (← h) (a, ap mapping_state v, refl, refl)

  -- A record that may be applied and names a homeserver can be kept.
  own_record-stored :
      (user_pk : PublicKey) (answer found : PkdnsRecord SignedPacket) (hs_id : String)
      → own_record pkarr user_pk answer ≡ ok found
      → homeserver pkarr found ≡ some hs_id
      → stored pkarr found ≢ none
  unfolding stored homeserver
  own_record-stored user_pk answer found hs_id h n =
      elim (own_record-cases pkarr user_pk answer found h) [
        | inl e ↦
            let no : homeserver pkarr missing ≡ some hs_id = rw e at n in absurd (ground arith)
        | inr (packet, e, _, (kept, k)) ↦ rw e (λ q. ground arith)
      ]

  after_lookup-Explains :
      (u : String) (o : Option UserHomeserverMapping) (before : User) (r : Resolution)
      (lookup : Result (PkdnsRecord SignedPacket) PubkyClientError × W)
      → user_of u lookup.1 ≡ before
      → o ≡ view before
      → ((found : PkdnsRecord SignedPacket) (hs_id : String)
          → lookup.0 ≡ ok found
          → homeserver pkarr found ≡ some hs_id
          → stored pkarr found ≢ none)
      → (after_lookup pkarr graph u o lookup).0 ≡ ok r
      → Explains lookup.0 before (user_of u (after_lookup pkarr graph u o lookup).1) r
  unfolding after_lookup
  after_lookup-Explains u o before r (err e, x) b v s h =
      lookup_failed-Explains e o before (user_of u x) r b v cc
  after_lookup-Explains u o before r (ok found, x) b v s h =
      apply_record-Reported u o found before r x b v (λ hs_id. s found hs_id refl) h

  own_lookup :
      (user_pk : PublicKey) (answered : Result (PkdnsRecord SignedPacket) PubkyClientError × W)
      → let lookup = and_then answered (λ answer x. (own_record pkarr user_pk answer, x)) in
        (lookup.1 ≡ answered.1)
        × ((found : PkdnsRecord SignedPacket) (hs_id : String)
            → lookup.0 ≡ ok found
            → homeserver pkarr found ≡ some hs_id
            → stored pkarr found ≢ none)
  own_lookup user_pk (err e, x) = (refl, λ found hs_id h. absurd (ground arith))
  own_lookup user_pk (ok answer, x) =
      (refl, λ found hs_id h. own_record-stored user_pk answer found hs_id h)

  resolve_user-fails :
      (resolve_record : PublicKey → Step W PubkyClientError (PkdnsRecord SignedPacket))
      (user_pk : PublicKey) (w : W) (e : GraphError)
      → (graph.get_user_homeserver (z32 user_pk) w).0 ≡ err e
      → (resolve_user pkarr graph resolve_record user_pk w).0 ≡ err e
  unfolding resolve_user
  resolve_user-fails resolve_record user_pk w e q = rw (resolve_user, q) refl

  resolve_user-goes_on :
      (resolve_record : PublicKey → Step W PubkyClientError (PkdnsRecord SignedPacket))
      (user_pk : PublicKey) (w : W) (o : Option UserHomeserverMapping)
      → let u = z32 user_pk in
        (graph.get_user_homeserver u w).0 ≡ ok o
        → resolve_user pkarr graph resolve_record user_pk w
          ≡ after_lookup pkarr graph u o
              (resolve_own_record pkarr resolve_record user_pk (graph.get_user_homeserver u w).1)
  unfolding resolve_user
  resolve_user-goes_on resolve_record user_pk w o q = rw (resolve_user, q) refl

  -- A resolution that succeeds did what its report says. Without an answer of the user's own the
  -- user is as before and the outcome is an error. With one, an unbound user is bound to the
  -- homeserver that the record names, if it names one, and a bound user is marked stale exactly
  -- when the record does not name its homeserver; a record that was found is kept. The outcome
  -- says whether a homeserver was named, the mapping what state the user was in before, and a
  -- newly stale mapping is reported exactly when the edge turned from active to stale, with the
  -- right reason. It is assumed that nothing else writes the user during the lookup.
  pub resolve_user-Explains :
      (resolve_record : PublicKey → Step W PubkyClientError (PkdnsRecord SignedPacket))
      → ((user_pk : PublicKey) (w : W) → Unmoved user_of w (resolve_record user_pk w).1)
      → (user_pk : PublicKey) (w w' : W) (r : Resolution)
      → resolve_user pkarr graph resolve_record user_pk w ≡ (ok r, w')
      → let u = z32 user_pk in
        let v = (graph.get_user_homeserver u w).1 in
        Explains
          (resolve_own_record pkarr resolve_record user_pk v).0
          (user_of u w)
          (user_of u w')
          r
  unfolding resolve_own_record
  resolve_user-Explains resolve_record quiet user_pk w w' r h =
      let u = z32 user_pk in
      let v = (graph.get_user_homeserver u w).1 in
      let still : user_of u (resolve_record user_pk v).1 ≡ user_of u w =
        quiet user_pk v u ∙ graph.get_acts u w u in
      let (same, s) = own_lookup user_pk (resolve_record user_pk v) in
      elim (Result-cases (graph.get_user_homeserver u w).0) [
        | inr (e, q) ↦
            let failed = resolve_user-fails resolve_record user_pk w e q in absurd (ground arith)
        | inl (o, q) ↦
            let unrolled = resolve_user-goes_on resolve_record user_pk w o q in
            let out = sym unrolled ∙ h in
            subst
              (λ y.
                Explains (resolve_own_record pkarr resolve_record user_pk v).0 (user_of u w)
                  (user_of u y) r)
              (ap (λ p. p.1) out)
              (after_lookup-Explains u o (user_of u w) r
                (resolve_own_record pkarr resolve_record user_pk v) (ap (user_of u) same ∙ still)
                (graph.get_ok u w o q) s (ap (λ p. p.0) out))
      ]
