-- ===== src/Resolver/Record.antt =====
-- The records that users publish: nexus-common/src/models/user/homeserver_resolver.rs. Keys, signed
-- packets and their encodings come from the pubky and pkarr libraries, the parameter `Pkarr`.
use pubky_nexus.Base.{
  ℕ, String, Bool, true, false, Option, none, some, List, [], ◌∷◌, ◌++◌, Result, ok, err, Step, ltb,
  leb, nat_beq, length, take, drop, not, if◌then◌else◌, ◌≡◌, pure, raise, ◌>>=◌, Eq, ◌==◌, append,
}
use mathlib.Core.Option
use pubky_nexus.Base.Word.{i64_min}
use pubky_nexus.Errors.PubkyClientError.{request_failed}
use pubky_nexus.Errors.{PubkyClientError}
pub mod Proof

-- `RData`, as far as the source tells its cases apart.
pub data RData : Type 0 where
  svcb https : String → RData
  other : RData

-- What the source uses of keys and packets. A key is known by its 32 bytes.
pub record Pkarr : Type 1 where
  pub PublicKey : Type 0
  pub key_eq : Eq PublicKey
  pub key_bytes : PublicKey → List ℕ
  pub z32 : PublicKey → String
  pub try_from_z32 : String → Option PublicKey
  pub SignedPacket : Type 0
  pub public_key : SignedPacket → PublicKey
  pub timestamp : SignedPacket → ℕ
  pub as_bytes : SignedPacket → List ℕ
  pub resource_records : String → SignedPacket → List RData
  pub from_relay_payload : PublicKey → List ℕ → Option SignedPacket
  pub hex_encode : List ℕ → String
  pub hex_decode : String → Option (List ℕ)

-- `StoredRecord`
pub record StoredRecord : Type 0 where
  pub packet : String
  pub timestamp : ℕ  -- i64

-- `PkdnsRecord`
pub data PkdnsRecord (SignedPacket : Type 0) : Type 0 where
  missing : PkdnsRecord SignedPacket
  published : SignedPacket → PkdnsRecord SignedPacket

-- The errors of `StoredRecord::verify`.
pub data VerifyError : Type 0 where
  not_hex too_short other_key bad_payload : VerifyError

-- Equality of byte strings.
unfoldable pub bytes_beq : List ℕ → List ℕ → Bool
bytes_beq [] [] = true
bytes_beq [] (y ∷ ys) = false
bytes_beq (x ∷ xs) [] = false
bytes_beq (x ∷ xs) (y ∷ ys) = if nat_beq x y then bytes_beq xs ys else false

-- The target of the first SVCB or HTTPS record.
unfoldable pub svcb_target : List RData → Option String
svcb_target [] = none
svcb_target (svcb target ∷ rrs) = some target
svcb_target (https target ∷ rrs) = some target
svcb_target (other ∷ rrs) = svcb_target rrs

module _ (pkarr : Pkarr) where
  open pkarr use {PublicKey, z32, SignedPacket}

  -- `published_homeserver`
  unfoldable pub published_homeserver : SignedPacket → Option String
  unfolding svcb_target
  published_homeserver packet = elim (svcb_target (pkarr.resource_records "_pubky" packet)) [
    | none ↦ none
    | some target ↦ Option.map z32 (pkarr.try_from_z32 target)
  ]

  -- `PkdnsRecord::homeserver`
  unfoldable pub homeserver : PkdnsRecord SignedPacket → Option String
  unfolding published_homeserver
  homeserver missing = none
  homeserver (published packet) = published_homeserver packet

  -- `StoredRecord::try_from`
  unfoldable pub try_from : SignedPacket → Option StoredRecord
  try_from packet =
      if ltb (pkarr.timestamp packet) i64_min
      then some (record {
        packet = pkarr.hex_encode (pkarr.as_bytes packet);
        timestamp = pkarr.timestamp packet;
      })
      else none

  -- `PkdnsRecord::stored`
  unfoldable pub stored : PkdnsRecord SignedPacket → Option StoredRecord
  unfolding try_from
  stored missing = none
  stored (published packet) = try_from packet

  -- The tests of `verify` on the decoded bytes.
  unfoldable pub verify_bytes : PublicKey → List ℕ → Result SignedPacket VerifyError
  unfolding bytes_beq
  verify_bytes user bytes =
      if ltb (length bytes) 32
      then err too_short
      else if not (bytes_beq (take 32 bytes) (pkarr.key_bytes user))
      then err other_key
      else (elim (pkarr.from_relay_payload user (drop 32 bytes)) [
        | none ↦ err bad_payload
        | some packet ↦ ok packet
      ])

  -- `StoredRecord::verify`
  unfoldable pub verify : StoredRecord → PublicKey → Result SignedPacket VerifyError
  unfolding verify_bytes
  verify self user = elim (pkarr.hex_decode self.packet) [
    | none ↦ err not_hex
    | some bytes ↦ verify_bytes user bytes
  ]

  -- The message of a refused answer.
  refusal : PublicKey → SignedPacket → String
  refusal user_pk packet =
      append "PKDNS answer for "
        (append (z32 user_pk) (append " is signed by " (z32 (pkarr.public_key packet))))

  -- What `resolve_own_record` makes of an answer.
  unfoldable pub own_record :
      PublicKey → PkdnsRecord SignedPacket → Result (PkdnsRecord SignedPacket) PubkyClientError
  unfolding refusal try_from
  own_record user_pk missing = ok missing
  own_record user_pk (published packet) =
      if not (pkarr.key_eq.same (pkarr.public_key packet) user_pk)
      then err (request_failed (refusal user_pk packet))
      else (elim (try_from packet) [ none ↦ ok missing | some _ ↦ ok (published packet) ])

  -- `resolve_own_record`, over the method `resolve_record` of a resolver.
  unfoldable pub resolve_own_record :
      {W : Type 0}
      → (PublicKey → Step W PubkyClientError (PkdnsRecord SignedPacket))
      → PublicKey
      → Step W PubkyClientError (PkdnsRecord SignedPacket)
  unfolding own_record
  resolve_own_record resolve_record user_pk =
      resolve_record user_pk >>= λ answer w. (own_record user_pk answer, w)
