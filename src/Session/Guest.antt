-- ===== src/Session/Guest.antt =====
-- frontend/components/P2pGameProvider.jsx: `wireGuest`, the handlers that it installs, and the
-- failover. An awaited call of the browser returns at once.
use fakeartist.Prelude.{
  ℕ, List, [], ◌∷◌, ◌++◌, Bool, true, false, not, ◌&&◌, Option, none, some, Str, codes, ◌==◌,
  nat_eq, includes, length, drop, decimal, keep_if, if◌then◌else◌,
}
use fakeartist.Protocol.{ClientCommand, join_game, ServerEvent, Envelope}
use fakeartist.Election.{LocalView, elect}
use fakeartist.Replica.{Replica, ReplicaOutput, sync_asked, new_replica, apply}
use fakeartist.Replica.CatchUp.{apply_frame, request_sync}
use fakeartist.Transport.{
  Rtc, Relay, Call, handled, framed, new_rtc, rtc_send, rtc_on_event, rtc_on_message, rtc_on_close,
  new_relay, relay_send, relay_on_event, handle_relay_in,
}
use fakeartist.PeerHub.{PeerHub, new_hub, accept_offer, add_remote_answer, add_remote_ice}
use fakeartist.Signaling.{OutboundEnvelope}
use fakeartist.Session.{
  SignalMessage, peer_joined, peer_left, host_changed, offered, answered, candidate_came,
  role_dealt, relay_came, World, SessionOutput, signal, asked_host, notice, notice_ends,
  claim_posted, Refs, add_id, delete_id, name_or, hub_signals, show, arm,
}

pub data GuestTransport : Type 0 where
  no_transport : GuestTransport
  over_channel : Rtc → GuestTransport
  over_relay : Relay → GuestTransport

pub record Guest : Type 0 where
  pub refs : Refs
  pub replica : Replica
  pub peer_hub : PeerHub
  pub transport : GuestTransport
  -- whether `hostDc` is set, and whether the host's channel is open
  pub has_host_dc : Bool
  pub channel_open : Bool
  -- whether the timer of the ICE fallback runs
  pub ice_armed : Bool
  pub out : List SessionOutput

unfoldable pub guest_out : List SessionOutput → Guest → Guest
guest_out os g = record g { out = g.out ++ os }

-- The hook for sync requests: they go to the channel of the host, if it is open.
unfoldable pub ask_host : ℕ → ℕ → Guest → List SessionOutput
ask_host round from g =
    if g.has_host_dc && g.channel_open then asked_host (Envelope.sync_req round from) ∷ [] else []

unfoldable pub react : ReplicaOutput → Guest → Guest
unfolding guest_out ask_host
react (sync_asked round from) g = guest_out (ask_host round from g) g
react o g = guest_out (show o) g

unfoldable pub react_all : List ReplicaOutput → Guest → Guest
unfolding react
react_all [] g = g
react_all (o ∷ os) g = react_all os (react o g)

-- A call into the replica, with the calls that it makes of its listeners.
unfoldable pub with_replica : (Replica → Replica) → Guest → Guest
unfolding react_all
with_replica f g =
    let v = f g.replica in react_all (drop (length g.replica.out) v.out) (record g { replica = v })

unfoldable pub with_hub : (PeerHub → PeerHub) → Guest → Guest
unfolding guest_out
with_hub f g =
    let h = f g.peer_hub in
    guest_out (hub_signals (drop (length g.peer_hub.out) h.out)) (record g { peer_hub = h })

-- The handlers of the guest's transport: `replica.apply` and `replica.applyFrame`.
unfoldable pub hear_call : Call → Guest → Guest
unfolding with_replica
hear_call (handled h evt) g = with_replica (apply evt) g
hear_call (framed env) g = with_replica (apply_frame env) g

unfoldable pub hear_calls : List Call → Guest → Guest
unfolding hear_call
hear_calls [] g = g
hear_calls (c ∷ cs) g = hear_calls cs (hear_call c g)

-- `sendRelay`: what the relay transport sends goes to the host of that moment.
unfoldable pub relayed_to : Str → List Envelope → List SessionOutput
relayed_to host [] = []
relayed_to host (env ∷ envs) = signal (OutboundEnvelope.relayed host env) ∷ relayed_to host envs

unfoldable pub guest_send : ClientCommand → Guest → Guest
unfolding guest_out
guest_send cmd g = elim g.transport [
  | no_transport ↦ g
  | over_channel t ↦ record g { transport = over_channel (rtc_send g.channel_open cmd t) }
  | over_relay t ↦
      let sent = relay_send cmd t in
      guest_out (relayed_to g.refs.host_id (drop (length t.sent) sent.sent))
        (record g { transport = over_relay sent })
]

unfoldable pub join_as : Str → World → Guest → ClientCommand
join_as default w g =
    join_game (record { id = g.refs.player_id; player_name = name_or default w; room_code = none })

-- The callback of the ICE timer.
unfoldable pub ice_timeout : World → Guest → Guest
unfolding guest_send guest_out join_as
ice_timeout w g =
    let fired = record g { ice_armed = false } in
    elim g.transport [
      | no_transport ↦
          guest_out
            (notice (some (codes "Connecting via server (slower mode)")) ∷ notice_ends 3000 ∷ [])
            (guest_send (join_as (codes "Guest") w g)
              (record fired { transport = over_relay (relay_on_event 0 (new_relay none)) }))
      | _ ↦ fired
    ]

-- The channel of the host is the transport from now on.
unfoldable pub bind_channel : Guest → Guest
bind_channel g = record g {
  ice_armed = false;
  has_host_dc = true;
  channel_open = true;
  transport = over_channel (rtc_on_event 0 (new_rtc true none true));
}

-- `peerHub.onPeerOpen`, with a channel that is open.
unfoldable pub on_peer_open : World → Str → Guest → Guest
unfolding guest_send join_as with_replica bind_channel
on_peer_open w peer g =
    if peer == g.refs.host_id
    then with_replica request_sync (guest_send (join_as (codes "Guest") w g) (bind_channel g))
    else g

-- A message on the channel of the host, and its end.
unfoldable pub on_channel_message : Option Envelope → Guest → Guest
unfolding hear_calls
on_channel_message m g = elim g.transport [
  | over_channel t ↦
      let got = rtc_on_message m t in
      hear_calls (drop (length t.out) got.out) (record g { transport = over_channel got })
  | _ ↦ g
]

unfoldable pub on_host_channel_close : Guest → Guest
on_host_channel_close g = elim g.transport [
  | over_channel t ↦ record g { transport = over_channel (rtc_on_close t); channel_open = false }
  | _ ↦ record g { channel_open = false }
]

unfoldable pub set_timer : Option ℕ → Guest → Guest
set_timer t g = record g { refs = record g.refs { failover_timer = t } }

-- `cancelFailover`
unfoldable pub cancel_failover : Guest → Guest
unfolding set_timer
cancel_failover g = set_timer none g

-- `scheduleFailover`
unfoldable pub schedule_failover : ℕ → Guest → Guest
unfolding set_timer arm
schedule_failover random g = set_timer (arm random g.refs.failover_timer) g

unfoldable pub set_connected : List Str → Guest → Guest
set_connected ids g = record g { refs = record g.refs { connected = ids } }

unfoldable pub guest_peer_left : ℕ → Str → Guest → Guest
unfolding set_connected schedule_failover guest_out
guest_peer_left random id g =
    let gone = set_connected (delete_id id g.refs.connected) g in
    if id == g.refs.host_id
    then schedule_failover random
        (guest_out (notice (some (codes "Host disconnected — electing new host")) ∷ []) gone)
    else gone

-- A relayed frame is for the relay transport only.
unfoldable pub take_relay : Envelope → GuestTransport → Guest → Guest
unfolding hear_calls
take_relay env (over_relay t) g =
    let got = handle_relay_in env t in
    hear_calls (drop (length t.out) got.out) (record g { transport = over_relay got })
take_relay env _ g = g

unfoldable pub on_relay : Option Envelope → Guest → Guest
unfolding take_relay
on_relay none g = g
on_relay (some env) g = take_relay env g.transport g

-- HOST_CHANGED. If the guest itself is named, it is promoted after this.
unfoldable pub guest_host_changed : Str → Guest → Guest
unfolding cancel_failover guest_out
guest_host_changed id g =
    let cleared = guest_out (notice none ∷ []) (cancel_failover g) in
    if id == g.refs.player_id
    then cleared
    else record cleared { refs = record cleared.refs { host_id = id }; has_host_dc = false }

unfoldable pub guest_on_signal : World → ℕ → SignalMessage → Guest → Guest
unfolding set_connected cancel_failover with_hub with_replica
guest_on_signal w random (peer_joined id) g =
    let joined = set_connected (add_id id g.refs.connected) g in
    if id == g.refs.host_id then cancel_failover joined else joined
guest_on_signal w random (offered from sdp) g =
    with_hub (accept_offer from sdp (w.answer from sdp)) g
guest_on_signal w random (answered from sdp) g = with_hub (add_remote_answer from sdp) g
guest_on_signal w random (candidate_came from c) g = with_hub (add_remote_ice from c) g
guest_on_signal w random (role_dealt p) g = with_replica (apply (ServerEvent.your_role p)) g
guest_on_signal w random (relay_came from m) g = on_relay m g
guest_on_signal w random (peer_left id) g = guest_peer_left random id g
guest_on_signal w random (host_changed id) g = guest_host_changed id g

-- The candidates of `runHostFailover`: the peers that are there, and the guest itself.
unfoldable pub electors : Refs → List Str
electors r =
    let others = keep_if (λ id. not (id == r.host_id)) r.connected in
    if includes others r.player_id then others else others ++ r.player_id ∷ []

unfoldable pub election_view : Guest → LocalView
unfolding electors
election_view g = record {
  self_id = g.refs.player_id;
  self_version = g.replica.last_version;
  self_last_stroke_index = g.replica.last_stroke_index;
  connected = electors g.refs;
  peers = λ id. none;
}

unfoldable pub is_self : Option Str → Str → Bool
is_self none id = false
is_self (some w) id = w == id

-- `runHostFailover`, up to its post.
unfoldable pub run_host_failover : Guest → Guest
unfolding election_view is_self set_timer guest_out
run_host_failover g =
    let fired = set_timer none g in
    if is_self (elect (election_view g)) g.refs.player_id
    then guest_out (claim_posted g.replica.last_version g.replica.last_stroke_index ∷ []) fired
    else fired

-- The rest, where the server answers: 409 is a lost arbitration.
unfoldable pub claim_answered : Bool → ℕ → Guest → Guest
unfolding guest_out
claim_answered ok status g =
    if not ok && not (nat_eq status 409)
    then guest_out (notice (some (codes "Claim-host failed (" ++ decimal status ++ codes ")")) ∷ [])
        g
    else g

-- The rest, where the request fails.
unfoldable pub claim_failed : Str → Guest → Guest
unfolding guest_out
claim_failed message g = guest_out (notice (some (codes "Claim-host error: " ++ message)) ∷ []) g

-- `wireGuest`. A replica that is reused keeps the hook with which it was made.
unfoldable pub wire_guest : Refs → Option Replica → List SessionOutput → Guest
wire_guest refs reused out = record {
  refs = refs;
  replica = elim reused [ none ↦ new_replica true | some v ↦ v ];
  peer_hub = new_hub;
  transport = no_transport;
  has_host_dc = false;
  channel_open = false;
  ice_armed = true;
  out = out;
}
