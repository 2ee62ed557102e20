-- ===== src/Resolver/Record/Proof.antt =====
-- A record that is kept proves what its user published.
use pubky_nexus.Base.{
  ℕ, zero, suc, true, false, some, List, [], ◌∷◌, ◌++◌, ok, ltb, length, take, drop, not, ◌≡◌, ◌<◌,
  refl, arith, Bool-cases, Option-cases, ◌⊎◌, inl, inr, ap, length-append, subst,
}
use pubky_nexus.Base.Word.{i64_min}
use pubky_nexus.Resolver.Record.{
  Pkarr, StoredRecord, PkdnsRecord, missing, published, bytes_beq, try_from, stored, verify,
  verify_bytes, own_record,
}

-- What pkarr and hex document: encoding and z-base-32 lose nothing, a packet's bytes are its key's 32 bytes
-- followed by the payload that relays serve, and reading that payload back under the key gives the
-- packet, as its signature was checked when it was made.
pub record PkarrLaws (pkarr : Pkarr) : Type 0 where
  pub relay_payload : pkarr.SignedPacket → List ℕ
  pub hex_back : (bytes : List ℕ) → pkarr.hex_decode (pkarr.hex_encode bytes) ≡ some bytes
  pub key_length : (key : pkarr.PublicKey) → length (pkarr.key_bytes key) ≡ 32
  pub z32_back : (key : pkarr.PublicKey) → pkarr.try_from_z32 (pkarr.z32 key) ≡ some key
  pub packet_bytes :
      (packet : pkarr.SignedPacket)
      → pkarr.as_bytes packet ≡ pkarr.key_bytes (pkarr.public_key packet) ++ relay_payload packet
  pub relay_back :
      (packet : pkarr.SignedPacket)
      → pkarr.timestamp packet < i64_min
      → pkarr.from_relay_payload (pkarr.public_key packet) (relay_payload packet) ≡ some packet

bytes_beq_refl : (xs : List ℕ) → bytes_beq xs xs ≡ true
unfolding bytes_beq
bytes_beq_refl [] = refl
bytes_beq_refl (x ∷ xs) = ground (arith, bytes_beq_refl xs)

take-append : {A : Type 0} (n : ℕ) (xs ys : List A) → length xs ≡ n → take n (xs ++ ys) ≡ xs
take-append zero [] ys h = refl
take-append zero (x ∷ xs) ys h = absurd (omega (arith, h))
take-append (suc n) [] ys h = absurd (omega (arith, h))
take-append (suc n) (x ∷ xs) ys h = ap (◌∷◌ x) (take-append n xs ys (omega (arith, h)))

drop-append : {A : Type 0} (n : ℕ) (xs ys : List A) → length xs ≡ n → drop n (xs ++ ys) ≡ ys
drop-append zero [] ys h = refl
drop-append zero (x ∷ xs) ys h = absurd (omega (arith, h))
drop-append (suc n) [] ys h = absurd (omega (arith, h))
drop-append (suc n) (x ∷ xs) ys h = drop-append n xs ys (omega (arith, h))

module _ (pkarr : Pkarr) where
  open pkarr use {PublicKey, SignedPacket}

  same_key : (a b : PublicKey) → not (pkarr.key_eq.same a b) ≡ false → a ≡ b
  same_key a b h = (pkarr.key_eq.same_iff a b).0 (ground arith)

  -- An answer that was not refused: no packet, or one of the user's own that can be kept.
  pub own_record-cases :
      (user_pk : PublicKey) (answer found : PkdnsRecord SignedPacket)
      → own_record pkarr user_pk answer ≡ ok found
      → (found ≡ missing)
        ⊎ ((packet : SignedPacket) × (found ≡ published packet)
            × (pkarr.public_key packet ≡ user_pk)
            × ((kept : StoredRecord) × (try_from pkarr packet ≡ some kept)))
  unfolding own_record
  own_record-cases user_pk missing found h = inl (ground arith)
  own_record-cases user_pk (published packet) found h =
      elim (Bool-cases (not (pkarr.key_eq.same (pkarr.public_key packet) user_pk))) [
        | inl q ↦ absurd (ground arith)
        | inr q ↦ elim (Option-cases (try_from pkarr packet)) [
          | inl e ↦ inl (ground arith)
          | inr (kept, e) ↦
              inr (packet, ground arith, same_key (pkarr.public_key packet) user_pk q, (kept, e))
        ]
      ]

module _ (pkarr : Pkarr) (laws : PkarrLaws pkarr) where
  open pkarr use {PublicKey, SignedPacket}

  verify_bytes-as_bytes :
      (packet : SignedPacket)
      → pkarr.timestamp packet < i64_min
      → verify_bytes pkarr (pkarr.public_key packet) (pkarr.as_bytes packet) ≡ ok packet
  unfolding verify_bytes
  verify_bytes-as_bytes packet h =
      let key = pkarr.key_bytes (pkarr.public_key packet) in
      let payload = laws.relay_payload packet in
      let n = laws.key_length (pkarr.public_key packet) in
      let long : ltb (length (key ++ payload)) 32 ≡ false =
        ground (arith, length-append key payload, n) in
      rw
        (
          laws.packet_bytes packet,
          long,
          take-append 32 key payload n,
          drop-append 32 key payload n,
          bytes_beq_refl key,
          laws.relay_back packet h,
        )
        refl

  -- What the graph keeps of a packet verifies against the packet's key, and gives the packet back.
  pub verify-try_from :
      (packet : SignedPacket) (kept : StoredRecord)
      → try_from pkarr packet ≡ some kept
      → verify pkarr kept (pkarr.public_key packet) ≡ ok packet
  unfolding verify try_from
  verify-try_from packet kept h = elim (Bool-cases (ltb (pkarr.timestamp packet) i64_min)) [
    | inl q ↦
        let e : pkarr.hex_encode (pkarr.as_bytes packet) ≡ kept.packet = ground arith in
        rw (verify, ← e, laws.hex_back (pkarr.as_bytes packet))
          (verify_bytes-as_bytes packet (ground arith))
    | inr q ↦ absurd (ground arith)
  ]

  -- A record that may be kept, of an answer that was not refused, verifies against the user's key.
  pub own_record-verify :
      (user_pk : PublicKey) (answer found : PkdnsRecord SignedPacket) (kept : StoredRecord)
      → own_record pkarr user_pk answer ≡ ok found
      → stored pkarr found ≡ some kept
      → (packet : SignedPacket) × (verify pkarr kept user_pk ≡ ok packet)
  unfolding stored
  own_record-verify user_pk answer found kept h k =
      elim (own_record-cases pkarr user_pk answer found h) [
        | inl e ↦ let no : stored pkarr missing ≡ some kept = rw e at k in absurd (ground arith)
        | inr (packet, e, own, _) ↦
            let s : try_from pkarr packet ≡ some kept = rw e at k in
            (
              packet,
              subst (λ key. verify pkarr kept key ≡ ok packet) own (verify-try_from packet kept s),
            )
      ]
