-- ===== src/Session.antt =====
-- frontend/components/P2pGameProvider.jsx: the session of one browser, which puts the other parts
-- together. Here is what the host and the guest share. What is asked of the browser and of React
-- goes to the end of `out`; the text of a notice is what the player reads.
pub mod Guest
pub mod Host
pub mod Switch
pub mod Frame
pub mod Failover
pub mod Mute
pub mod Resync
pub mod Relaying
pub mod Succession
pub mod Lost
pub mod Creation
use fakeartist.Prelude.{
  ℕ, ◌+◌, List, [], ◌∷◌, ◌++◌, Bool, true, false, not, Option, none, some, Str, codes, ◌==◌,
  includes, is_empty, keep_if, if◌then◌else◌,
}
use fakeartist.Models.{RolePayload, Stroke}
use fakeartist.Protocol.{ℤ, ConfigPatch, Envelope}
use fakeartist.Replica.{ReplicaSnapshot, ReplicaOutput, changed, drawn, failed, sync_asked}
use fakeartist.PeerHub.{PeerHub, HubOutput, send_offer, send_answer, send_ice}
use fakeartist.Signaling.{OutboundEnvelope}
use fakeartist.Engine.State.{Env}

-- What the signaling socket brings. A relayed frame is `none` where the message has none.
pub data SignalMessage : Type 0 where
  peer_joined peer_left host_changed : Str → SignalMessage
  offered answered candidate_came : Str → Str → SignalMessage
  role_dealt : RolePayload → SignalMessage
  relay_came : Str → Option Envelope → SignalMessage

-- What the session takes from its surroundings: the engine's, the descriptions that the browser
-- makes for a peer, the name in `localStorage`, which is empty where there is none, and the time.
pub record World : Type 0 where
  pub env : Env
  pub offer : Str → Str
  pub answer : Str → Str → Str
  pub stored_name : Str
  pub now : ℕ

pub data SessionOutput : Type 0 where
  -- `sig.send`, and `hostDc.send` past the transport
  signal : OutboundEnvelope → SessionOutput
  asked_host : Envelope → SessionOutput
  -- `setErrorMsg`, and the timer that clears the message
  notice : Option Str → SessionOutput
  notice_ends : ℕ → SessionOutput
  -- `setSnapshot`, and the listeners for strokes
  shown : ReplicaSnapshot → SessionOutput
  stroke_shown : Stroke → ℕ → SessionOutput
  -- the POST to claim-host, with the version and the stroke index
  claim_posted : ℕ → ℤ → SessionOutput
  -- a stack that is closed
  torn_down : PeerHub → SessionOutput

-- The fields of `refs` that a change of roles keeps. `failover_timer` holds the delay of a timer
-- that runs.
pub record Refs : Type 0 where
  pub room_id : Str
  pub player_id : Str
  pub host_id : Str
  pub connected : List Str
  pub failover_timer : Option ℕ
  pub pending_config : Option (ConfigPatch ℤ)

-- `Set.prototype.add` and `delete`
unfoldable pub add_id : Str → List Str → List Str
add_id id ids = if includes ids id then ids else ids ++ id ∷ []

unfoldable pub delete_id : Str → List Str → List Str
delete_id id = keep_if (λ x. not (x == id))

-- `localStorage.getItem('fakeartist_name') || default`
unfoldable pub name_or : Str → World → Str
name_or default w = if is_empty w.stored_name then default else w.stored_name

-- The hooks that the peer hub sends by.
unfoldable pub hub_signal : HubOutput → List SessionOutput
hub_signal (send_offer to sdp) = signal (OutboundEnvelope.sdp_offer to sdp) ∷ []
hub_signal (send_answer to sdp) = signal (OutboundEnvelope.sdp_answer to sdp) ∷ []
hub_signal (send_ice to c) = signal (OutboundEnvelope.ice to c) ∷ []
hub_signal _ = []

unfoldable pub hub_signals : List HubOutput → List SessionOutput
unfolding hub_signal
hub_signals [] = []
hub_signals (o ∷ os) = hub_signal o ++ hub_signals os

-- The listeners of a replica. The hook for sync requests is the guest's.
unfoldable pub show : ReplicaOutput → List SessionOutput
show (changed s) = shown s ∷ []
show (drawn stroke n) = stroke_shown stroke n ∷ []
show (failed message) = notice (some message) ∷ notice_ends 4000 ∷ []
show (sync_asked round from) = []

-- `3000 + Math.floor(Math.random() * 5000)`, from the second number.
unfoldable pub grace_delay : ℕ → ℕ
grace_delay random = 3000 + random

-- `scheduleFailover`: an armed timer stays.
unfoldable pub arm : ℕ → Option ℕ → Option ℕ
unfolding grace_delay
arm random none = some (grace_delay random)
arm random (some d) = some d
