-- ===== src/Resolver/Resolve/Keeps.antt =====
-- What a resolution never does: move a user to another homeserver, touch another user, or keep a
-- record that its user did not publish.
use mathlib.Core.Option
use pubky_nexus.Base.{
  String, Bool, false, Option, none, some, ok, Step, ◌==◌, string_eq, ◌≡◌, ◌⊎◌, inl, inr, refl,
  arith, ap, ◌∙◌, Bool-cases, Result-cases, sym, subst,
}
use pubky_nexus.Errors.{PubkyClientError}
use pubky_nexus.Resolver.Record.{
  Pkarr, StoredRecord, PkdnsRecord, stored, own_record, resolve_own_record,
}
use pubky_nexus.Resolver.Resolve.{
  UserHomeserverMapping, Edge, bind, flag, User, view, Unmoved, Applied, Graph, after_lookup,
  resolve_user,
}
use pubky_nexus.Resolver.Resolve.Acts.{Acts, apply_record-Acts}

module _ {W : Type 0} (pkarr : Pkarr) (graph : Graph W)
    (resolve_record : pkarr.PublicKey
      → Step W PubkyClientError (PkdnsRecord pkarr.SignedPacket)) where
  open pkarr use {PublicKey, SignedPacket, z32}
  open graph use {user_of}

  -- A resolution: it failed at the read, it did nothing after the lookup, or it acted on a record
  -- that was not refused.
  pub resolve_user-cases :
      (user_pk : PublicKey) (w : W)
      → let u = z32 user_pk in
        let v = (graph.get_user_homeserver u w).1 in
        let x = (resolve_record user_pk v).1 in
        let w' = (resolve_user pkarr graph resolve_record user_pk w).1 in
        (w' ≡ v)
        ⊎ (w' ≡ x)
        ⊎ ((o : Option UserHomeserverMapping) × (answer : PkdnsRecord SignedPacket)
            × (found : PkdnsRecord SignedPacket) × ((graph.get_user_homeserver u w).0 ≡ ok o)
            × (own_record pkarr user_pk answer ≡ ok found)
            × Acts pkarr graph u o found x w')
  unfolding resolve_user after_lookup resolve_own_record
  resolve_user-cases user_pk w =
      let u = z32 user_pk in
      let v = (graph.get_user_homeserver u w).1 in
      elim (Result-cases (graph.get_user_homeserver u w).0) [
        | inr (e, q) ↦ rw (resolve_user, q) (inl refl)
        | inl (o, q) ↦ elim (Result-cases (resolve_record user_pk v).0) [
          | inr (e, p) ↦ rw (resolve_user, q, p) (inr (inl refl))
          | inl (answer, p) ↦ elim (Result-cases (own_record pkarr user_pk answer)) [
            | inr (e, r) ↦ rw (resolve_user, q, p, r) (inr (inl refl))
            | inl (found, r) ↦
                rw (resolve_user, q, p, r)
                  (inr (inr (o, answer, found, refl, r, apply_record-Acts pkarr graph u o found _)))
          ]
        ]
      ]

-- What a resolution may make of its user: the homeserver of a bound one stays.
abbrev pub Kept : User → User → Type 0
Kept none after = after ≡ none
Kept (some none) after = (after ≡ some none) ⊎ ((edge : Edge) × (after ≡ some (some edge)))
Kept (some (some before)) after =
    (edge : Edge) × (after ≡ some (some edge)) × (edge.hs_id ≡ before.hs_id)

Kept-refl : (user : User) → Kept user user
Kept-refl none = refl
Kept-refl (some none) = inl refl
Kept-refl (some (some edge)) = (edge, refl, refl)

Kept-bind :
    (user : User) (hs_id : String) (kept : StoredRecord)
    → view user ≡ none
    → Kept user (Option.map (bind hs_id kept) user)
Kept-bind none hs_id kept h = refl
Kept-bind (some none) hs_id kept h = inr (_, refl)
Kept-bind (some (some edge)) hs_id kept h = absurd (ground arith)

Kept-flag :
    (user : User) (mark : Bool) (kept : Option StoredRecord)
    → Kept user (Option.map (flag mark kept) user)
Kept-flag none mark kept = refl
Kept-flag (some none) mark kept = inl refl
Kept-flag (some (some edge)) mark kept = (_, refl, refl)

module _ {W : Type 0} (pkarr : Pkarr) (graph : Graph W)
    (resolve_record : pkarr.PublicKey
      → Step W PubkyClientError (PkdnsRecord pkarr.SignedPacket)) where
  open pkarr use {PublicKey, SignedPacket, z32}
  open graph use {user_of}

  -- What a resolution of the user `u` may do to the user `j`.
  abbrev pub Keeps : String → String → W → W → Type 0
  Keeps u j w w' = (u == j ≡ false → user_of j w' ≡ user_of j w) × Kept (user_of j w) (user_of j w')

  Unmoved-Keeps : (u j : String) (w w' : W) → user_of j w' ≡ user_of j w → Keeps u j w w'
  Unmoved-Keeps u j w w' h = (λ q. h, rw h (Kept-refl (user_of j w)))

  Applied-Keeps :
      (f : Option Edge → Option Edge) (u j : String) (w w' : W)
      → Applied user_of f u w w'
      → Kept (user_of u w) (Option.map f (user_of u w))
      → Keeps u j w w'
  Applied-Keeps f u j w w' h k = elim (Bool-cases (u == j)) [
    | inl q ↦
        let same : u ≡ j = (string_eq.same_iff u j).0 q in
        let e : user_of j w' ≡ Option.map f (user_of u w) = ground (arith, h j) in
        (
          λ no. absurd (ground arith),
          rw e (subst (λ x. Kept (user_of x w) (Option.map f (user_of u w))) same k),
        )
    | inr q ↦ let e : user_of j w' ≡ user_of j w = ground (arith, h j) in Unmoved-Keeps u j w w' e
  ]

  Acts-Keeps :
      (u j : String) (o : Option UserHomeserverMapping) (found : PkdnsRecord SignedPacket)
      (w w' : W)
      → o ≡ view (user_of u w)
      → Acts pkarr graph u o found w w'
      → Keeps u j w w'
  Acts-Keeps u j o found w w' h (inl same) = Unmoved-Keeps u j w w' (same j)
  Acts-Keeps u j o found w w' h (inr (inl (hs_id, kept, e, s, a))) =
      Applied-Keeps (bind hs_id kept) u j w w' a (Kept-bind (user_of u w) hs_id kept (sym h ∙ e))
  Acts-Keeps u j o found w w' h (inr (inr (mark, a))) =
      Applied-Keeps (flag mark (stored pkarr found)) u j w w' a
        (Kept-flag (user_of u w) mark (stored pkarr found))

  -- A homeserver, once bound, stays: whatever is published, and whether or not the lookup and the
  -- graph fail, a resolution leaves a bound user bound to the same homeserver, never makes or
  -- removes a user, and leaves every other user as it was. It is assumed that nothing else writes
  -- these users while the lookup is under way.
  pub resolve_user-Keeps :
      ((user_pk : PublicKey) (w : W) → Unmoved user_of w (resolve_record user_pk w).1)
      → (user_pk : PublicKey) (w : W) (j : String)
      → Keeps (z32 user_pk) j w (resolve_user pkarr graph resolve_record user_pk w).1
  resolve_user-Keeps quiet user_pk w j =
      let u = z32 user_pk in
      let v = (graph.get_user_homeserver u w).1 in
      let x = (resolve_record user_pk v).1 in
      let still : (i : String) → user_of i x ≡ user_of i w =
        λ i. quiet user_pk v i ∙ graph.get_acts u w i in
      elim (resolve_user-cases pkarr graph resolve_record user_pk w) [
        | inl e ↦ rw e (Unmoved-Keeps u j w v (graph.get_acts u w j))
        | inr (inl e) ↦ rw e (Unmoved-Keeps u j w x (still j))
        | inr (inr (o, answer, found, q, r, a)) ↦
            let here : o ≡ view (user_of u x) = graph.get_ok u w o q ∙ ap view (sym (still u)) in
            let w' = (resolve_user pkarr graph resolve_record user_pk w).1 in
            subst (λ y. (u == j ≡ false → user_of j w' ≡ y) × Kept y (user_of j w')) (still j)
              (Acts-Keeps u j o found x w' here a)
      ]
