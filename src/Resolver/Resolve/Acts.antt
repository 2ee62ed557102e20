-- ===== src/Resolver/Resolve/Acts.antt =====
-- What one resolution can do to the graph.
use pubky_nexus.Base.{
  String, Bool, true, false, Option, none, some, Result, ok, err, and_then, pure, ◌==◌, string_eq,
  ◌≡◌, ◌⊎◌, inl, inr, refl, arith, Bool-cases,
}
use pubky_nexus.Resolver.Record.{
  Pkarr, StoredRecord, PkdnsRecord, missing, published, homeserver, stored,
}
use pubky_nexus.Resolver.Resolve.{
  UserHomeserverMapping, Resolution, bind, flag, Unmoved, Applied, Graph, bind_first, toggle,
  apply_record,
}

pub then_pure-state :
    {W E A B : Type 0} (r : Result A E × W) (b : B) → (and_then r (λ _. pure b)).1 ≡ r.1
then_pure-state (ok a, w) b = refl
then_pure-state (err e, w) b = refl

pub then_pure-ok :
    {W E B : Type 0} (r : Result (Unit {0}) E × W) (b c : B)
    → (and_then r (λ _. pure b)).0 ≡ ok c
    → (r.0 ≡ ok tt) × (b ≡ c)
then_pure-ok (ok a, w) b c h = (refl, cc)
then_pure-ok (err e, w) b c h = absurd (ground arith)

module _ {W : Type 0} (pkarr : Pkarr) (graph : Graph W) where
  open pkarr use {SignedPacket}
  open graph use {user_of}

  -- Nothing, a first binding, or a new flag and record on the edge that is there.
  abbrev pub Acts :
      String → Option UserHomeserverMapping → PkdnsRecord SignedPacket → W → W → Type 0
  Acts u o found w w' =
      Unmoved user_of w w'
      ⊎ ((hs_id : String) × (kept : StoredRecord) × (o ≡ none)
          × (stored pkarr found ≡ some kept)
          × Applied user_of (bind hs_id kept) u w w')
      ⊎ ((mark : Bool) × Applied user_of (flag mark (stored pkarr found)) u w w')

  bind_first-Acts :
      (u : String) (found : PkdnsRecord SignedPacket) (hs : Option String)
      (kept : Option StoredRecord) (w : W)
      → stored pkarr found ≡ kept
      → Acts u none found w (bind_first pkarr graph u hs kept w).1
  unfolding bind_first
  bind_first-Acts u found none kept w h = inl (λ j. refl)
  bind_first-Acts u found (some hs_id) none w h = inl (λ j. refl)
  bind_first-Acts u found (some hs_id) (some k) w h =
      rw (then_pure-state (graph.set_user_homeserver_from_record u hs_id k w) Resolution.bound)
        (elim (graph.bind_acts u hs_id k w) [
          | inl same ↦ inl same
          | inr s ↦ inr (inl (hs_id, k, refl, h, s))
        ])

  flag_then-Acts :
      (u : String) (o : Option UserHomeserverMapping) (found : PkdnsRecord SignedPacket)
      (mark : Bool) (r : Resolution) (w : W)
      → Acts u o found w
          (and_then (graph.set_user_homeserver_stale u mark (stored pkarr found) w) (λ _. pure r)).1
  flag_then-Acts u o found mark r w =
      rw (then_pure-state (graph.set_user_homeserver_stale u mark (stored pkarr found) w) r)
        (elim (graph.flag_acts u mark (stored pkarr found) w) [
          | inl same ↦ inl same
          | inr s ↦ inr (inr (mark, s))
        ])

  toggle-Acts :
      (u : String) (old : UserHomeserverMapping) (found : PkdnsRecord SignedPacket)
      (hs : Option String) (w : W)
      → Acts u (some old) found w (toggle pkarr graph u old hs (stored pkarr found) w).1
  unfolding toggle
  toggle-Acts u old found none w = flag_then-Acts u (some old) found true _ w
  toggle-Acts u old found (some hs_id) w = elim (Bool-cases (hs_id == old.hs_id)) [
    | inl q ↦ rw (toggle, q) (flag_then-Acts u (some old) found false _ w)
    | inr q ↦ rw (toggle, q) (flag_then-Acts u (some old) found true _ w)
  ]

  pub apply_record-Acts :
      (u : String) (o : Option UserHomeserverMapping) (found : PkdnsRecord SignedPacket) (w : W)
      → Acts u o found w (apply_record pkarr graph u o found w).1
  unfolding apply_record
  apply_record-Acts u none missing w = inl (λ j. refl)
  apply_record-Acts u none (published p) w =
      bind_first-Acts u (published p) (homeserver pkarr (published p)) (stored pkarr (published p))
        w refl
  apply_record-Acts u (some old) found w = toggle-Acts u old found (homeserver pkarr found) w
