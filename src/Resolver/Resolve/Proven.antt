-- ===== src/Resolver/Resolve/Proven.antt =====
-- The records kept in the graph prove what their users published.
use mathlib.Core.Option
use pubky_nexus.Base.{
  String, Bool, Option, none, some, ok, Step, ◌==◌, string_eq, ◌≡◌, inl, inr, arith, ap, ◌∙◌,
  Bool-cases, sym, subst,
}
use pubky_nexus.Errors.{PubkyClientError}
use pubky_nexus.Resolver.Record.{Pkarr, StoredRecord, PkdnsRecord, stored, verify, own_record}
use pubky_nexus.Resolver.Record.Proof.{PkarrLaws, own_record-verify}
use pubky_nexus.Resolver.Resolve.{
  UserHomeserverMapping, Edge, bind, flag, User, Applied, Graph, resolve_user,
}
use pubky_nexus.Resolver.Resolve.Acts.{Acts}
use pubky_nexus.Resolver.Resolve.Keeps.{resolve_user-cases}

module _ {W : Type 0} (pkarr : Pkarr) (graph : Graph W) where
  open pkarr use {PublicKey, SignedPacket, z32}
  open graph use {user_of}

  -- The record verifies against the key.
  abbrev pub Verifies : PublicKey → StoredRecord → Type 0
  Verifies user_pk kept = (packet : SignedPacket) × (verify pkarr kept user_pk ≡ ok packet)

  abbrev pub Proven : PublicKey → User → Type 0
  Proven user_pk none = Unit
  Proven user_pk (some none) = Unit
  Proven user_pk (some (some edge)) =
      (kept : StoredRecord) → edge.kept ≡ some kept → Verifies user_pk kept

  abbrev pub AllProven : W → Type 0
  AllProven w = (user_pk : PublicKey) → Proven user_pk (user_of (z32 user_pk) w)

  bind-Proven :
      (user_pk : PublicKey) (user : User) (hs_id : String) (new : StoredRecord)
      → Verifies user_pk new
      → Proven user_pk (Option.map (bind hs_id new) user)
  bind-Proven user_pk none hs_id new h = tt
  bind-Proven user_pk (some none) hs_id new h =
      λ kept e. let same : new ≡ kept = cc in rw (← same) h
  bind-Proven user_pk (some (some edge)) hs_id new h =
      λ kept e. let same : new ≡ kept = cc in rw (← same) h

  flag-Proven :
      (user_pk : PublicKey) (user : User) (mark : Bool) (new : Option StoredRecord)
      → ((kept : StoredRecord) → new ≡ some kept → Verifies user_pk kept)
      → Proven user_pk user
      → Proven user_pk (Option.map (flag mark new) user)
  flag-Proven user_pk none mark new h p = tt
  flag-Proven user_pk (some none) mark new h p = tt
  flag-Proven user_pk (some (some edge)) mark none h p = p
  flag-Proven user_pk (some (some edge)) mark (some new) h p = h

  module _ (laws : PkarrLaws pkarr) where
    same_z32 : (a b : PublicKey) → z32 a ≡ z32 b → a ≡ b
    same_z32 a b h =
        let e : some a ≡ some b =
          sym (laws.z32_back a) ∙ ap pkarr.try_from_z32 h ∙ laws.z32_back b in
        cc

    Applied-AllProven :
        (f : Option Edge → Option Edge) (owner : PublicKey) (w w' : W)
        → Applied user_of f (z32 owner) w w'
        → Proven owner (Option.map f (user_of (z32 owner) w))
        → AllProven w
        → AllProven w'
    Applied-AllProven f owner w w' h k p user_pk = elim (Bool-cases (z32 owner == z32 user_pk)) [
      | inl q ↦
          let same : owner ≡ user_pk =
            same_z32 owner user_pk ((string_eq.same_iff (z32 owner) (z32 user_pk)).0 q) in
          let e : user_of (z32 user_pk) w' ≡ Option.map f (user_of (z32 owner) w) =
            ground (arith, h (z32 user_pk)) in
          rw e (subst (λ key. Proven key (Option.map f (user_of (z32 owner) w))) same k)
      | inr q ↦
          let e : user_of (z32 user_pk) w' ≡ user_of (z32 user_pk) w =
            ground (arith, h (z32 user_pk)) in
          rw e (p user_pk)
    ]

    Acts-AllProven :
        (user_pk : PublicKey) (o : Option UserHomeserverMapping)
        (answer found : PkdnsRecord SignedPacket) (w w' : W)
        → own_record pkarr user_pk answer ≡ ok found
        → Acts pkarr graph (z32 user_pk) o found w w'
        → AllProven w
        → AllProven w'
    Acts-AllProven user_pk o answer found w w' h (inl same) p = λ key. rw (same (z32 key)) (p key)
    Acts-AllProven user_pk o answer found w w' h (inr (inl (hs_id, kept, e, s, a))) p =
        Applied-AllProven (bind hs_id kept) user_pk w w' a
          (bind-Proven user_pk (user_of (z32 user_pk) w) hs_id kept
            (own_record-verify pkarr laws user_pk answer found kept h s))
          p
    Acts-AllProven user_pk o answer found w w' h (inr (inr (mark, a))) p =
        Applied-AllProven (flag mark (stored pkarr found)) user_pk w w' a
          (flag-Proven user_pk (user_of (z32 user_pk) w) mark (stored pkarr found)
            (λ kept s. own_record-verify pkarr laws user_pk answer found kept h s) (p user_pk))
          p

    -- The graph carries proof of what users published: when every record kept on an edge verifies
    -- against its user's key, and what else happens during a lookup keeps that so, then it is so
    -- after a resolution too, however it ends and whatever packet, of whatever key, the lookup
    -- came back with.
    pub resolve_user-AllProven :
        (resolve_record : PublicKey → Step W PubkyClientError (PkdnsRecord SignedPacket))
        → ((user_pk : PublicKey) (w : W) → AllProven w → AllProven (resolve_record user_pk w).1)
        → (user_pk : PublicKey) (w : W) → AllProven w
        → AllProven (resolve_user pkarr graph resolve_record user_pk w).1
    resolve_user-AllProven resolve_record others user_pk w p =
        let u = z32 user_pk in
        let v = (graph.get_user_homeserver u w).1 in
        let x = (resolve_record user_pk v).1 in
        let at_v : AllProven v = λ key. rw (graph.get_acts u w (z32 key)) (p key) in
        elim (resolve_user-cases pkarr graph resolve_record user_pk w) [
          | inl e ↦ rw e at_v
          | inr (inl e) ↦ rw e (others user_pk v at_v)
          | inr (inr (o, answer, found, q, r, a)) ↦
              Acts-AllProven user_pk o answer found x _ r a (others user_pk v at_v)
        ]
