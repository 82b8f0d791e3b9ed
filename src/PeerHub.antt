-- ===== src/PeerHub.antt =====
-- frontend/p2p/peerHub.ts, class `PeerHub`: one connection and one data channel for each peer. What
-- is asked of the browser and of the signaling server, and the calls of handlers, go to the end of
-- `out`. An event of a channel or a connection is one of the peer's present channel or connection. A method that awaits the browser goes on behind the await as if nothing had come between.
pub mod Candidates
pub mod Closing
use fakeartist.Prelude.{
  ℕ, List, [], ◌∷◌, ◌++◌, map, Bool, true, false, not, ◌&&◌, Option, none, some, Str, ◌==◌, find_if,
  keep_if, update_first, if◌then◌else◌,
}
use fakeartist.Protocol.{Envelope}

-- Session descriptions and candidates are opaque texts.
pub data HubOutput : Type 0 where
  send_offer send_answer : Str → Str → HubOutput
  send_ice : Str → Str → HubOutput
  set_remote : Str → Str → HubOutput
  add_candidate : Str → Str → HubOutput
  sent_to : Str → Envelope → HubOutput
  closed_connection : Str → HubOutput
  peer_opened peer_closed : Str → HubOutput

-- `channel` is the `readyState` of the data channel: `some true` where it is "open", `none` where
-- there is no channel yet.
pub record PeerEntry : Type 0 where
  pub peer_id : Str
  pub channel : Option Bool
  pub pending_ice : List Str
  pub remote_set : Bool

pub record PeerHub : Type 0 where
  pub peers : List PeerEntry
  pub out : List HubOutput

unfoldable pub new_hub : PeerHub
new_hub = record { peers = []; out = [] }

unfoldable pub is_peer : Str → PeerEntry → Bool
is_peer id p = p.peer_id == id

unfoldable pub find_peer : Str → List PeerEntry → Option PeerEntry
unfolding is_peer
find_peer id ps = find_if (is_peer id) ps

unfoldable pub tell : List HubOutput → PeerHub → PeerHub
tell os h = record h { out = h.out ++ os }

unfoldable pub update_peer : Str → (PeerEntry → PeerEntry) → PeerHub → PeerHub
unfolding is_peer
update_peer id f h = record h { peers = update_first (is_peer id) f h.peers }

unfoldable pub new_entry : Str → Bool → PeerEntry
new_entry id create_channel = record {
  peer_id = id;
  channel = if create_channel then some false else none;
  pending_ice = [];
  remote_set = false;
}

unfoldable pub ensure_peer : Str → Bool → PeerHub → PeerHub
unfolding find_peer new_entry
ensure_peer id create_channel h = elim (find_peer id h.peers) [
  | some p ↦ h
  | none ↦ record h { peers = h.peers ++ new_entry id create_channel ∷ [] }
]

-- The loop of `drainIce`; a candidate that the browser refuses is dropped like one that it takes.
unfoldable pub drained : Str → List Str → List HubOutput
drained id cs = map (add_candidate id) cs

unfoldable pub drain_ice : Str → PeerHub → PeerHub
unfolding find_peer update_peer tell drained
drain_ice id h = elim (find_peer id h.peers) [
  | none ↦ h
  | some p ↦ update_peer id (λ q. record q { pending_ice = [] }) (tell (drained id p.pending_ice) h)
]

-- The remote description is set, and then the candidates that came before it.
unfoldable pub set_remote_description : Str → Str → PeerHub → PeerHub
unfolding drain_ice
set_remote_description id sdp h =
    drain_ice id
      (update_peer id (λ p. record p { remote_set = true }) (tell (set_remote id sdp ∷ []) h))

unfoldable pub connect_to : Str → Str → PeerHub → PeerHub
unfolding ensure_peer tell
connect_to id offer h = tell (send_offer id offer ∷ []) (ensure_peer id true h)

unfoldable pub accept_offer : Str → Str → Str → PeerHub → PeerHub
unfolding ensure_peer set_remote_description tell
accept_offer id sdp answer h =
    tell (send_answer id answer ∷ []) (set_remote_description id sdp (ensure_peer id false h))

unfoldable pub add_remote_answer : Str → Str → PeerHub → PeerHub
unfolding set_remote_description
add_remote_answer id sdp h = elim (find_peer id h.peers) [
  | none ↦ h
  | some p ↦ set_remote_description id sdp h
]

-- A candidate for an entry that is there.
unfoldable pub take_ice : Str → Str → Bool → PeerHub → PeerHub
unfolding update_peer tell
take_ice id c true h = tell (add_candidate id c ∷ []) h
take_ice id c false h = update_peer id (λ p. record p { pending_ice = p.pending_ice ++ c ∷ [] }) h

unfoldable pub is_ready : Option PeerEntry → Bool
is_ready none = false
is_ready (some p) = p.remote_set

unfoldable pub add_remote_ice : Str → Str → PeerHub → PeerHub
unfolding ensure_peer take_ice is_ready
add_remote_ice id c h =
    let there = ensure_peer id false h in take_ice id c (is_ready (find_peer id there.peers)) there

abbrev pub is_open : Option Bool → Bool
is_open none = false
is_open (some b) = b

unfoldable pub send : Str → Envelope → PeerHub → PeerHub
unfolding find_peer tell
send id env h = elim (find_peer id h.peers) [
  | none ↦ h
  | some p ↦ if is_open p.channel then tell (sent_to id env ∷ []) h else h
]

unfoldable pub frames_for : Envelope → List PeerEntry → List HubOutput
frames_for env [] = []
frames_for env (p ∷ ps) =
    if is_open p.channel then sent_to p.peer_id env ∷ frames_for env ps else frames_for env ps

unfoldable pub broadcast_frame : Envelope → PeerHub → PeerHub
unfolding frames_for tell
broadcast_frame env h = tell (frames_for env h.peers) h

unfoldable pub close_peer : Str → PeerHub → PeerHub
unfolding find_peer is_peer
close_peer id h = elim (find_peer id h.peers) [
  | none ↦ h
  | some p ↦ record h {
    peers = keep_if (λ q. not (is_peer id q)) h.peers;
    out = h.out ++ closed_connection id ∷ peer_closed id ∷ [];
  }
]

unfoldable pub close_peers : List PeerEntry → PeerHub → PeerHub
unfolding close_peer
close_peers [] h = h
close_peers (p ∷ ps) h = close_peers ps (close_peer p.peer_id h)

unfoldable pub close_hub : PeerHub → PeerHub
unfolding close_peers
close_hub h = close_peers h.peers h

-- `wireChannel` and the handlers of the channel and of the connection.
unfoldable pub wire_channel : Str → Bool → PeerHub → PeerHub
unfolding update_peer
wire_channel id ready h = update_peer id (λ p. record p { channel = some ready }) h

unfoldable pub on_channel_open : Str → PeerHub → PeerHub
unfolding wire_channel tell
on_channel_open id h = tell (peer_opened id ∷ []) (wire_channel id true h)

unfoldable pub on_channel_close : Str → PeerHub → PeerHub
unfolding wire_channel tell
on_channel_close id h = tell (peer_closed id ∷ []) (wire_channel id false h)

-- `connectionState`
pub data ConnectionState : Type 0 where
  fresh connecting connected disconnected failed closed : ConnectionState

-- The end of the candidates is an event without one.
unfoldable pub on_ice_candidate : Str → Option Str → PeerHub → PeerHub
unfolding tell
on_ice_candidate id none h = h
on_ice_candidate id (some c) h = tell (send_ice id c ∷ []) h

unfoldable pub is_lost : ConnectionState → Bool
is_lost disconnected = true
is_lost failed = true
is_lost closed = true
is_lost _ = false

unfoldable pub on_connection_state : Str → ConnectionState → PeerHub → PeerHub
unfolding is_lost close_peer
on_connection_state id st h = if is_lost st then close_peer id h else h
