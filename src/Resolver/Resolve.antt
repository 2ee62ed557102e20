-- ===== src/Resolver/Resolve.antt =====
-- `resolve_user` of nexus-watcher/src/service/user_hs_resolver.rs, and what it reports. The graph's
-- users and their `HOSTED_BY` edges are the parameter `Graph`.
use mathlib.Core.Option
use pubky_nexus.Base.{
  String, Bool, true, false, Option, none, some, Result, ok, err, Step, ◌>>=◌, ◌>>◌, pure, ◌==◌,
  string_eq, if◌then◌else◌, ◌≡◌, ◌⊎◌, map_err,
}
use pubky_nexus.Errors.{GraphError, PubkyClientError}
use pubky_nexus.Resolver.Record.{
  Pkarr, StoredRecord, PkdnsRecord, missing, published, homeserver, stored, resolve_own_record,
}
pub mod Acts
pub mod Keeps
pub mod Proven
pub mod Reports

-- `StaleReason`
pub data StaleReason : Type 0 where
  unresolved hs_changed : StaleReason

-- `MappingState`
pub data MappingState : Type 0 where
  unbound active stale : MappingState

-- `Outcome`
pub data Outcome : Type 0 where
  resolved unresolved error : Outcome

-- `Resolution`
pub data Resolution : Type 0 where
  unbound bound : Resolution
  confirmed : Bool → Resolution
  diverged : StaleReason → Bool → Resolution
  lookup_failed : MappingState → Resolution

-- `UserHomeserverMapping`
pub record UserHomeserverMapping : Type 0 where
  pub hs_id : String
  pub stale : Bool

-- A `HOSTED_BY` edge, with the record kept on it.
pub record Edge : Type 0 where
  pub hs_id : String
  pub stale : Bool
  pub kept : Option StoredRecord

-- `MappingState::of`
unfoldable pub mapping_state : Option UserHomeserverMapping → MappingState
mapping_state none = MappingState.unbound
mapping_state (some mapping) = if mapping.stale then MappingState.stale else MappingState.active

-- `Resolution::outcome`
unfoldable pub outcome : Resolution → Outcome
outcome bound = Outcome.resolved
outcome (confirmed was_stale) = Outcome.resolved
outcome (diverged StaleReason.hs_changed was_stale) = Outcome.resolved
outcome Resolution.unbound = Outcome.unresolved
outcome (diverged StaleReason.unresolved was_stale) = Outcome.unresolved
outcome (lookup_failed mapping) = Outcome.error

-- `Resolution::mapping`
unfoldable pub mapping : Resolution → MappingState
mapping Resolution.unbound = MappingState.unbound
mapping bound = MappingState.unbound
mapping (confirmed true) = MappingState.stale
mapping (diverged reason true) = MappingState.stale
mapping (confirmed false) = MappingState.active
mapping (diverged reason false) = MappingState.active
mapping (lookup_failed before) = before

-- `Resolution::newly_stale`
unfoldable pub newly_stale : Resolution → Option StaleReason
newly_stale (diverged reason false) = some reason
newly_stale (diverged reason true) = none
newly_stale Resolution.unbound = none
newly_stale bound = none
newly_stale (confirmed was_stale) = none
newly_stale (lookup_failed before) = none

-- `coalesce($record, r.record)`
abbrev pub coalesce : Option StoredRecord → Option StoredRecord → Option StoredRecord
coalesce none old = old
coalesce (some new) old = some new

-- What a query makes of one user: nothing where there is no such user.
abbrev pub User : Type 0
User = Option (Option Edge)

-- `set_user_homeserver`: an edge to another homeserver goes, with all it holds.
abbrev pub bind : String → StoredRecord → Option Edge → Option Edge
bind hs_id new none = some (record { hs_id = hs_id; stale = false; kept = some new })
bind hs_id new (some edge) = some (record {
  hs_id = hs_id;
  stale = if edge.hs_id == hs_id then edge.stale else false;
  kept = some new;
})

-- `set_user_homeserver_stale`
abbrev pub flag : Bool → Option StoredRecord → Option Edge → Option Edge
flag mark new none = none
flag mark new (some edge) =
    some (record { hs_id = edge.hs_id; stale = mark; kept = coalesce new edge.kept })

abbrev pub view : User → Option UserHomeserverMapping
view none = none
view (some none) = none
view (some (some edge)) = some (record { hs_id = edge.hs_id; stale = edge.stale })

module _ {W : Type 0} (user_of : String → W → User) where
  abbrev pub Unmoved : W → W → Type 0
  Unmoved w w' = (j : String) → user_of j w' ≡ user_of j w

  -- A query did its work on one user.
  abbrev pub Applied : (Option Edge → Option Edge) → String → W → W → Type 0
  Applied f user_id w w' =
      (j : String)
      → user_of j w' ≡ (if user_id == j then Option.map f (user_of user_id w) else user_of j w)

-- The queries `get_user_homeserver`, `set_user_homeserver` and `set_user_homeserver_stale` of
-- nexus-common/src/db/graph/queries, as the database runs them. A write that fails may have been
-- done or not.
pub record Graph (W : Type 0) : Type 0 where
  pub user_of : String → W → User
  pub get_user_homeserver : String → Step W GraphError (Option UserHomeserverMapping)
  pub set_user_homeserver_from_record :
      String → String → StoredRecord → Step W GraphError (Unit {0})
  pub set_user_homeserver_stale : String → Bool → Option StoredRecord → Step W GraphError (Unit {0})
  pub get_acts : (u : String) (w : W) → Unmoved user_of w (get_user_homeserver u w).1
  pub get_ok :
      (u : String) (w : W) (o : Option UserHomeserverMapping)
      → (get_user_homeserver u w).0 ≡ ok o
      → o ≡ view (user_of u w)
  pub bind_acts :
      (u hs_id : String) (r : StoredRecord) (w : W)
      → Unmoved user_of w (set_user_homeserver_from_record u hs_id r w).1
        ⊎ Applied user_of (bind hs_id r) u w (set_user_homeserver_from_record u hs_id r w).1
  pub bind_ok :
      (u hs_id : String) (r : StoredRecord) (w : W)
      → (set_user_homeserver_from_record u hs_id r w).0 ≡ ok tt
      → Applied user_of (bind hs_id r) u w (set_user_homeserver_from_record u hs_id r w).1
  pub flag_acts :
      (u : String) (s : Bool) (r : Option StoredRecord) (w : W)
      → Unmoved user_of w (set_user_homeserver_stale u s r w).1
        ⊎ Applied user_of (flag s r) u w (set_user_homeserver_stale u s r w).1
  pub flag_ok :
      (u : String) (s : Bool) (r : Option StoredRecord) (w : W)
      → (set_user_homeserver_stale u s r w).0 ≡ ok tt
      → Applied user_of (flag s r) u w (set_user_homeserver_stale u s r w).1

module _ {W : Type 0} (pkarr : Pkarr) (graph : Graph W) where
  open pkarr use {PublicKey, SignedPacket, z32}

  -- A first binding: it takes a homeserver and a record that can be stored.
  bind_first : String → Option String → Option StoredRecord → Step W GraphError Resolution
  bind_first user_id (some resolved_hs_id) (some stored_record) =
      graph.set_user_homeserver_from_record user_id resolved_hs_id stored_record >> pure bound
  bind_first user_id (some resolved_hs_id) none = pure Resolution.unbound
  bind_first user_id none stored_record = pure Resolution.unbound

  -- A bound user: the flag is set or cleared, the homeserver stays.
  toggle :
      String
      → UserHomeserverMapping
      → Option String
      → Option StoredRecord
      → Step W GraphError Resolution
  toggle user_id old none stored_record =
      graph.set_user_homeserver_stale user_id true stored_record
      >> pure (diverged StaleReason.unresolved old.stale)
  toggle user_id old (some resolved_hs_id) stored_record =
      if resolved_hs_id == old.hs_id
      then graph.set_user_homeserver_stale user_id false stored_record >> pure (confirmed old.stale)
      else graph.set_user_homeserver_stale user_id true stored_record
        >> pure (diverged StaleReason.hs_changed old.stale)

  -- The `match` on the stored mapping and the record.
  unfoldable pub apply_record :
      String
      → Option UserHomeserverMapping
      → PkdnsRecord SignedPacket
      → Step W GraphError Resolution
  unfolding bind_first toggle
  apply_record user_id none missing = pure Resolution.unbound
  apply_record user_id none (published packet) =
      bind_first user_id (homeserver pkarr (published packet)) (stored pkarr (published packet))
  apply_record user_id (some old) found =
      toggle user_id old (homeserver pkarr found) (stored pkarr found)

  -- The rest of `resolve_user`, after the lookup.
  unfoldable pub after_lookup :
      String
      → Option UserHomeserverMapping
      → Result (PkdnsRecord SignedPacket) PubkyClientError × W
      → Result Resolution GraphError × W
  unfolding apply_record
  after_lookup user_id stored_mapping (err e, w) =
      (ok (lookup_failed (mapping_state stored_mapping)), w)
  after_lookup user_id stored_mapping (ok found, w) = apply_record user_id stored_mapping found w

  -- `resolve_user`: only a graph error is an error.
  unfoldable pub resolve_user :
      (PublicKey → Step W PubkyClientError (PkdnsRecord SignedPacket))
      → PublicKey
      → Step W GraphError Resolution
  unfolding after_lookup
  resolve_user resolve_record user_pk =
      graph.get_user_homeserver (z32 user_pk) >>= λ stored_mapping w.
      after_lookup (z32 user_pk) stored_mapping (resolve_own_record pkarr resolve_record user_pk w)
