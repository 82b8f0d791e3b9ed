-- ===== src/Session/Host.antt =====
-- frontend/components/P2pGameProvider.jsx: `wireHost` and the handlers that it installs. The engine
-- calls its listeners one after the other; what they read of it is the same until `dispatch` ends:
-- the version of the one state that is sent, and the round's index. The checkpoint dispatcher, which
-- listens as well, and the draw's request stand apart.
use fakeartist.Prelude.{
  ℕ, List, [], ◌∷◌, ◌++◌, map, Bool, true, false, Option, none, some, Str, codes, ◌==◌, includes,
  length, drop, if◌then◌else◌,
}
use fakeartist.Models.{GameState, Stroke}
use fakeartist.Protocol.{
  ClientCommand, JoinGamePayload, join_game, configure_game, ServerEvent, Envelope, ConfigPatch, ℤ,
}
use fakeartist.Replica.{Replica, ReplicaOutput, new_replica, apply}
use fakeartist.Transport.{
  Call, handled, framed, Loopback, new_loopback, loopback_on_event, loopback_hear,
}
use fakeartist.PeerHub.{
  PeerHub, new_hub, connect_to, accept_offer, add_remote_answer, add_remote_ice, close_peer, send,
  broadcast_frame,
}
use fakeartist.Signaling.{OutboundEnvelope}
use fakeartist.Log.{Database, get_strokes_from}
use fakeartist.Engine.State.{
  Engine, Output, broadcast, direct, draw_request, PendingDraw, DrawResult, drawn, failed,
  new_engine,
}
use fakeartist.Engine.Round.{take_draw, finish_draw}
use fakeartist.Engine.Dispatch.{dispatch}
use fakeartist.HostBridge.{
  Effect, to_all, to_peer, append_stroke, put_state, index_of, relay, frames_of_round,
  handle_peer_message,
}
use fakeartist.Session.{
  SignalMessage, peer_joined, peer_left, host_changed, offered, answered, candidate_came,
  role_dealt, relay_came, World, SessionOutput, signal, Refs, add_id, delete_id, name_or,
  hub_signals, show,
}

pub record Host : Type 0 where
  pub refs : Refs
  pub engine : Engine
  pub replica : Replica
  pub loopback : Loopback
  pub peer_hub : PeerHub
  pub database : Database
  -- the guests that have fallen back to the server
  pub relay_peers : List Str
  pub out : List SessionOutput

unfoldable pub host_out : List SessionOutput → Host → Host
host_out os h = record h { out = h.out ++ os }

unfoldable pub show_all : List ReplicaOutput → List SessionOutput
show_all [] = []
show_all (o ∷ os) = show o ++ show_all os

unfoldable pub host_replica : (Replica → Replica) → Host → Host
unfolding show_all host_out
host_replica f h =
    let v = f h.replica in
    host_out (show_all (drop (length h.replica.out) v.out)) (record h { replica = v })

unfoldable pub host_hub : (PeerHub → PeerHub) → Host → Host
unfolding host_out
host_hub f h =
    let hub = f h.peer_hub in
    host_out (hub_signals (drop (length h.peer_hub.out) hub.out)) (record h { peer_hub = hub })

-- `transport.onEvent((evt) => replica.apply(evt))`
unfoldable pub host_calls : List Call → Host → Host
unfolding host_replica
host_calls [] h = h
host_calls (handled n evt ∷ cs) h = host_calls cs (host_replica (apply evt) h)
host_calls (framed env ∷ cs) h = host_calls cs h

-- The bridge's effects, on the peer hub and on the log.
unfoldable pub perform : World → Effect → Host → Host
unfolding host_hub
perform w (to_all env) h = host_hub (broadcast_frame env) h
perform w (to_peer peer env) h = host_hub (send peer env) h
perform w (append_stroke round i stroke) h = record h {
  database = fakeartist.Log.append_stroke h.refs.room_id w.now round i stroke h.database;
}
perform w (put_state version s) h = record h {
  database = fakeartist.Log.put_state h.refs.room_id version s h.database;
}

unfoldable pub perform_all : World → List Effect → Host → Host
unfolding perform
perform_all w [] h = h
perform_all w (x ∷ xs) h = perform_all w xs (perform w x h)

-- The frame that guests behind the server get of a broadcast.
unfoldable pub mirrored : ServerEvent → Engine → Option Envelope
mirrored (ServerEvent.state_update s) e = some (Envelope.state_update e.version s)
mirrored (ServerEvent.stroke_added stroke n) e =
    some (Envelope.stroke_added (index_of e.state.current_round) n stroke)
mirrored _ e = none

-- The frame of a direct event.
unfoldable pub mirrored_direct : ServerEvent → Engine → Option Envelope
mirrored_direct (ServerEvent.player_welcome id) e = some (Envelope.player_welcome id)
mirrored_direct (ServerEvent.your_role p) e =
    some (Envelope.your_role (index_of e.state.current_round) p)
mirrored_direct (ServerEvent.error message) e = some (Envelope.error message)
mirrored_direct _ e = none

unfoldable pub relay_frames : Option Envelope → List Str → List SessionOutput
relay_frames none peers = []
relay_frames (some env) peers = map (λ pid. signal (OutboundEnvelope.relayed pid env)) peers

-- What goes to the server for one output of the engine.
unfoldable pub mirror : List Str → Output → Engine → List SessionOutput
unfolding mirrored mirrored_direct relay_frames
mirror peers (broadcast evt) e = relay_frames (mirrored evt e) peers
mirror peers (direct pid evt) e =
    if includes peers pid then relay_frames (mirrored_direct evt e) (pid ∷ []) else []
mirror peers (draw_request room req pool) e = []

-- The listeners of the engine, in their order: loopback, bridge, mirror.
unfoldable pub host_hear : World → Output → Host → Host
unfolding host_calls perform_all mirror host_out
host_hear w o h =
    let t = loopback_hear o h.loopback in
    let told = host_calls (drop (length h.loopback.out) t.out) (record h { loopback = t }) in
    let bridged = perform_all w (relay true o told.engine) told in
    host_out (mirror bridged.relay_peers o bridged.engine) bridged

unfoldable pub host_hear_all : World → List Output → Host → Host
unfolding host_hear
host_hear_all w [] h = h
host_hear_all w (o ∷ os) h = host_hear_all w os (host_hear w o h)

-- The engine after a call, and what it has emitted in it.
unfoldable pub settle : World → Engine → Host → Host
unfolding host_hear_all
settle w e h = host_hear_all w (drop (length h.engine.out) e.out) (record h { engine = e })

unfoldable pub host_dispatch : World → ClientCommand → Str → Host → Host
unfolding settle
host_dispatch w cmd from h = settle w (dispatch w.env cmd from h.engine) h

-- `transport.send`: the host's own commands.
unfoldable pub host_send : World → ClientCommand → Host → Host
unfolding host_dispatch
host_send w cmd h = host_dispatch w cmd h.loopback.self_id h

-- The answer to an awaited draw. The host's role is heard before the round is there.
unfoldable pub host_drawn : World → PendingDraw → DrawResult → Host → Host
unfolding settle
host_drawn w req (failed message) h = settle w (finish_draw w.env req (failed message) h.engine) h
host_drawn w req (drawn res) h =
    settle w (finish_draw w.env req (drawn res) h.engine)
      (settle w (take_draw w.env req res h.engine) h)

-- The strokes that the bridge reads from the log.
unfoldable pub log_for : Option Envelope → Host → Option (List (ℕ × Stroke))
log_for (some (Envelope.sync_req round from)) h =
    some (get_strokes_from h.refs.room_id round from h.database)
log_for _ h = none

-- A message on the channel of a peer.
unfoldable pub host_on_message : World → Str → Option Envelope → Host → Host
unfolding settle perform_all log_for
host_on_message w peer m h =
    let (e, effects) = handle_peer_message w.env peer m (log_for m h) h.engine in
    perform_all w effects (settle w e h)

-- The answer to a SYNC_REQ that came by the server: the strokes in memory.
unfoldable pub relay_sync : Str → ℕ → ℕ → Engine → List SessionOutput
relay_sync from round idx e =
    let frames = frames_of_round round idx e.state.current_round in
    signal (OutboundEnvelope.relayed from (Envelope.sync_res e.state e.version frames)) ∷ []

unfoldable pub host_on_relay : World → Str → Option Envelope → Host → Host
unfolding host_dispatch relay_sync host_out
host_on_relay w from m h =
    let known = record h { relay_peers = add_id from h.relay_peers } in
    elim m [
      | some (Envelope.cmd seq c claimed) ↦ host_dispatch w c from known
      | some (Envelope.sync_req round idx) ↦ host_out (relay_sync from round idx known.engine) known
      | _ ↦ known
    ]

unfoldable pub host_connected : List Str → Host → Host
host_connected ids h = record h { refs = record h.refs { connected = ids } }

-- HOST_CHANGED changes nothing where it names the host itself; a demotion is not modelled.
unfoldable pub host_on_signal : World → SignalMessage → Host → Host
unfolding host_hub host_replica host_on_relay host_connected
host_on_signal w (peer_joined id) h =
    if id == h.refs.player_id
    then h
    else host_hub (connect_to id (w.offer id)) (host_connected (add_id id h.refs.connected) h)
host_on_signal w (peer_left id) h =
    host_hub (close_peer id) (host_connected (delete_id id h.refs.connected) h)
host_on_signal w (offered from sdp) h = host_hub (accept_offer from sdp (w.answer from sdp)) h
host_on_signal w (answered from sdp) h = host_hub (add_remote_answer from sdp) h
host_on_signal w (candidate_came from c) h = host_hub (add_remote_ice from c) h
host_on_signal w (role_dealt p) h = host_replica (apply (ServerEvent.your_role p)) h
host_on_signal w (relay_came from m) h = host_on_relay w from m h
host_on_signal w (host_changed id) h = h

-- What a promoted guest starts from: the state that it has seen, with the number of its updates.
pub record Seed : Type 0 where
  pub state : Option GameState
  pub version : ℕ

abbrev pub no_config : ConfigPatch ℕ
no_config = record {
  words_per_player = none;
  target_score = none;
  strokes_per_artist = none;
  min_players = none;
  turn_duration = none;
}

unfoldable pub seeded_engine : Str → Seed → Engine
seeded_engine room seed =
    let e = new_engine room no_config true in
    elim seed.state [ none ↦ e | some s ↦ record e { state = s; version = seed.version } ]

-- `wireHost` up to the first command. The host's replica has no hook for sync requests.
unfoldable pub host_parts : Refs → Seed → Database → List SessionOutput → Host
unfolding seeded_engine
host_parts refs seed db out = record {
  refs = record refs { host_id = refs.player_id };
  engine = seeded_engine refs.room_id seed;
  replica = new_replica false;
  loopback = loopback_on_event 0 (new_loopback refs.player_id);
  peer_hub = new_hub;
  database = db;
  relay_peers = [];
  out = out;
}

abbrev pub host_payload : World → Str → JoinGamePayload
host_payload w id = record { id = id; player_name = name_or (codes "Host") w; room_code = none }

-- The JOIN of the host, and then the configuration that waits.
unfoldable pub host_joins : World → Host → Host
unfolding host_send
host_joins w h = host_send w (join_game (host_payload w h.refs.player_id)) h

unfoldable pub send_config : Option (ConfigPatch ℤ) → World → Host → Host
unfolding host_send
send_config none w h = h
send_config (some p) w h =
    let sent = host_send w (configure_game p) h in
    record sent { refs = record sent.refs { pending_config = none } }

unfoldable pub send_pending : World → Host → Host
unfolding send_config
send_pending w h = send_config h.refs.pending_config w h

-- The offers to the peers that are there already.
unfoldable pub offer_all : World → List Str → Host → Host
unfolding host_hub
offer_all w [] h = h
offer_all w (id ∷ ids) h =
    if id == h.refs.player_id
    then offer_all w ids h
    else offer_all w ids (host_hub (connect_to id (w.offer id)) h)

unfoldable pub wire_host : World → Refs → Seed → Database → Bool → List SessionOutput → Host
unfolding host_parts host_joins send_pending offer_all
wire_host w refs seed db keep out =
    let h = send_pending w (host_joins w (host_parts refs seed db out)) in
    if keep then offer_all w h.refs.connected h else h
