-- ===== src/Session/Switch.antt =====
-- frontend/components/P2pGameProvider.jsx: a guest is promoted, and the actions of the lobby begin a
-- session.
use fakeartist.Prelude.{
  List, [], ◌∷◌, ◌++◌, Bool, true, false, ◌&&◌, Option, none, some, Str, is_empty, if◌then◌else◌,
}
use fakeartist.Protocol.{ClientCommand, configure_game, ConfigPatch, ℤ}
use fakeartist.PeerHub.{close_hub}
use fakeartist.Log.{Database}
use fakeartist.Session.{World, SessionOutput, torn_down, Refs}
use fakeartist.Session.Guest.{Guest, no_transport, guest_send, wire_guest}
use fakeartist.Session.Host.{Host, Seed, host_send, wire_host}

-- `mode`. `idle` holds what a new session begins with, and the notices so far.
pub data Session : Type 0 where
  idle : Option (ConfigPatch ℤ) → List SessionOutput → Session
  as_guest : Guest → Session
  as_host : Host → Session

-- `promoteSelfToHost`, up to the stack of the new host; the database is the one of the browser. The
-- handlers that the guest has registered on the signaling client stay there, beside those of the new
-- host, and are not part of the result.
unfoldable pub promote : World → Database → Guest → Host
promote w db g =
    wire_host w g.refs (record { state = g.replica.state; version = g.replica.last_version }) db
      true (g.out ++ torn_down (close_hub g.peer_hub) ∷ [])

-- A configuration waits until there is a transport; other commands are dropped.
unfoldable pub kept_config : ClientCommand → Option (ConfigPatch ℤ) → Option (ConfigPatch ℤ)
kept_config (configure_game p) old = some p
kept_config _ old = old

unfoldable pub guest_command : ClientCommand → Guest → Guest
unfolding kept_config
guest_command cmd g = elim g.transport [
  | no_transport ↦ record g {
    refs = record g.refs { pending_config = kept_config cmd g.refs.pending_config };
  }
  | _ ↦ guest_send cmd g
]

-- `sendCmd`
unfoldable pub send_cmd : World → ClientCommand → Session → Session
unfolding kept_config guest_command
send_cmd w cmd (idle config out) = idle (kept_config cmd config) out
send_cmd w cmd (as_guest g) = as_guest (guest_command cmd g)
send_cmd w cmd (as_host h) = as_host (host_send w cmd h)

-- The ids that the server gives out for a new room and for a player who joins one.
pub record Admission : Type 0 where
  pub room_id : Str
  pub player_id : Str

unfoldable pub new_refs : Admission → Str → Option (ConfigPatch ℤ) → Refs
new_refs a host config = record {
  room_id = a.room_id;
  player_id = a.player_id;
  host_id = host;
  connected = [];
  failover_timer = none;
  pending_config = config;
}

abbrev pub no_seed : Seed
no_seed = record { state = none; version = 0 }

-- `handleCreate` with the answer of the server.
unfoldable pub create_room : World → Database → Admission → Option (ConfigPatch ℤ) → Host
unfolding new_refs
create_room w db a config = wire_host w (new_refs a a.player_id config) no_seed db false []

-- What `handleJoin` is told of a room without a host: the checkpoint, where there is one that can be
-- read, and whether the server endorses the claim.
pub record ColdBoot : Type 0 where
  pub endorsed : Bool
  pub snapshot : Option Seed

-- The engine gets the state of the checkpoint after it has been wired.
unfoldable pub reseed : Option Seed → Host → Host
reseed none h = h
reseed (some seed) h = elim seed.state [
  | none ↦ h
  | some s ↦ record h { engine = record h.engine { state = s; version = seed.version } }
]

-- `handleJoin` with the answers of the server. The cold boot is asked for only without a host.
unfoldable pub join_room :
    World → Database → Admission → Str → Option ColdBoot → Option (ConfigPatch ℤ) → Session
unfolding new_refs reseed
join_room w db a host none config = as_guest (wire_guest (new_refs a host config) none [])
join_room w db a host (some boot) config =
    if is_empty host && boot.endorsed
    then as_host
        (reseed boot.snapshot (wire_host w (new_refs a a.player_id config) no_seed db false []))
    else as_guest (wire_guest (new_refs a host config) none [])
