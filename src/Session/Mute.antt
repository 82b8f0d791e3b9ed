-- ===== src/Session/Mute.antt =====
-- frontend/components/P2pGameProvider.jsx: a guest whose request to the host counts as in flight.
pub mod Events
use fakeartist.Prelude.{
  ℕ, List, [], ◌∷◌, ◌++◌, Bool, true, false, Option, none, some, Str, ◌≡◌, refl, sym, ap, subst,
  ◌∙◌, arith, All, All-append, if◌then◌else◌, length, drop, codes, ◌==◌,
}
use fakeartist.Prelude.Adds.{Adds, Adds-none, Adds-all, Adds-then, Adds-drop}
use fakeartist.Protocol.{ClientCommand, Envelope, ServerEvent}
use fakeartist.Transport.{
  rtc_send, relay_on_event, new_relay, Call, handled, framed, fan_out, calls_for, env_to_event,
  Relay, Rtc, relay_send, handle_relay_in, rtc_handle_frame, rtc_on_message,
}
use fakeartist.PeerHub.{
  accept_offer, add_remote_answer, add_remote_ice, PeerHub, HubOutput, send_offer, send_answer,
  send_ice,
}
use fakeartist.Replica.{Replica, ReplicaOutput, changed, drawn, failed, sync_asked, apply}
use fakeartist.Replica.CatchUp.{apply_frame, request_sync}
use fakeartist.Replica.Waiting.{IsNews, Waits, stays_waiting, apply-Waits, request_sync-Waits}
use fakeartist.Session.{
  SignalMessage, peer_joined, peer_left, host_changed, offered, answered, candidate_came,
  role_dealt, relay_came, World, SessionOutput, signal, asked_host, hub_signals, hub_signal, show,
  notice, notice_ends, delete_id,
}
use fakeartist.Session.Guest.{
  Guest, GuestTransport, no_transport, over_channel, over_relay, guest_out, react, react_all,
  with_replica, with_hub, hear_call, hear_calls, relayed_to, guest_send, join_as, ice_timeout,
  bind_channel, on_peer_open, on_channel_message, on_host_channel_close, guest_peer_left,
  take_relay, on_relay, guest_host_changed, guest_on_signal, set_connected, schedule_failover,
}
use fakeartist.Session.Switch.{guest_command, kept_config}
use fakeartist.Session.Failover.{
  GuestEvent, signalled, commanded, ice_fired, peer_opened, channel_said, channel_closed,
  guest_step, guest_run,
}

-- It is no request to the host for strokes.
abbrev pub IsOther : SessionOutput → Type 0
IsOther (asked_host env) = ⊥
IsOther _ = Unit

-- From the first guest to the second nothing was asked of the host, and the request of its replica
-- counts as in flight.
pub record IsMute (g h : Guest) : Type 0 where
  pub flight : h.replica.sync_in_flight ≡ true
  pub unasked : Adds IsOther g.out h.out

abbrev pub IsOtherFrame : Envelope → Type 0
IsOtherFrame (Envelope.sync_res s version frames) = ⊥
IsOtherFrame _ = Unit

-- It is no SYNC_RES on the channel of the host.
abbrev pub IsUnanswered : GuestEvent → Type 0
IsUnanswered (channel_said (some env)) = IsOtherFrame env
IsUnanswered _ = Unit

abbrev pub IsCall : Call → Type 0
IsCall (framed env) = IsOtherFrame env
IsCall (handled h evt) = Unit

-- Only the output and the replica matter.
pub says :
    (g h : Guest) (os : List SessionOutput)
    → g.replica.sync_in_flight ≡ true
    → h.replica ≡ g.replica
    → h.out ≡ g.out ++ os
    → All IsOther os
    → IsMute g h
says g h os f r o a = record {
  flight = ap (λ (v : Replica). v.sync_in_flight) r ∙ f;
  unasked = subst (Adds IsOther g.out) (sym o) (Adds-all IsOther g.out os a);
}

pub hushed :
    (g h : Guest)
    → g.replica.sync_in_flight ≡ true
    → h.replica ≡ g.replica
    → h.out ≡ g.out
    → IsMute g h
hushed g h f r o = record {
  flight = ap (λ (v : Replica). v.sync_in_flight) r ∙ f;
  unasked = subst (Adds IsOther g.out) (sym o) (Adds-none IsOther g.out);
}

pub IsMute-then : (f g h : Guest) → IsMute f g → IsMute g h → IsMute f h
IsMute-then f g h a b = record {
  flight = b.flight;
  unasked = Adds-then f.out g.out h.out a.unasked b.unasked;
}

show-All : (o : ReplicaOutput) → All IsOther (show o)
unfolding show
show-All (changed s) = (tt, tt)
show-All (drawn s n) = (tt, tt)
show-All (failed m) = (tt, (tt, tt))
show-All (sync_asked r n) = tt

react-IsMute :
    (o : ReplicaOutput) (g : Guest)
    → IsNews o
    → g.replica.sync_in_flight ≡ true
    → IsMute g (react o g)
unfolding react guest_out
react-IsMute (changed s) g n f = says g _ _ f refl refl (show-All (changed s))
react-IsMute (drawn s i) g n f = says g _ _ f refl refl (show-All (drawn s i))
react-IsMute (failed m) g n f = says g _ _ f refl refl (show-All (failed m))
react-IsMute (sync_asked r i) g n f = absurd n

react_all-IsMute :
    (os : List ReplicaOutput) (g : Guest)
    → All IsNews os
    → g.replica.sync_in_flight ≡ true
    → IsMute g (react_all os g)
unfolding react_all
react_all-IsMute [] g n f = hushed g g f refl refl
react_all-IsMute (o ∷ os) g n f =
    let a = react-IsMute o g n.0 f in
    IsMute-then g (react o g) _ a (react_all-IsMute os (react o g) n.1 a.flight)

pub with_replica-IsMute :
    (f : Replica → Replica) (g : Guest)
    → Waits g.replica (f g.replica)
    → IsMute g (with_replica f g)
unfolding with_replica
with_replica-IsMute f g k =
    let a =
      react_all-IsMute (drop (length g.replica.out) (f g.replica).out)
        (record g { replica = f g.replica }) (Adds-drop g.replica.out (f g.replica).out k.news)
        k.flight in
    record { flight = a.flight; unasked = a.unasked }

apply_frame_same : (env : Envelope) (v : Replica) → IsCall (framed env) → apply_frame env v ≡ v
unfolding apply_frame
apply_frame_same (Envelope.sync_res s n fs) v k = absurd k
apply_frame_same (Envelope.state_update n s) v k = refl
apply_frame_same (Envelope.stroke_added r n s) v k = refl
apply_frame_same (Envelope.your_role r p) v k = refl
apply_frame_same (Envelope.player_welcome id) v k = refl
apply_frame_same (Envelope.error m) v k = refl
apply_frame_same _ v k = refl

hear_call-IsMute :
    (c : Call) (g : Guest) → IsCall c → g.replica.sync_in_flight ≡ true → IsMute g (hear_call c g)
unfolding hear_call
hear_call-IsMute (handled n evt) g k f =
    with_replica-IsMute (apply evt) g (apply-Waits evt g.replica f)
hear_call-IsMute (framed env) g k f =
    let e = apply_frame_same env g.replica k in
    with_replica-IsMute (apply_frame env) g (
      stays_waiting g.replica (apply_frame env g.replica) f
        (ap (λ (v : Replica). v.sync_in_flight) e) (ap (λ (v : Replica). v.out) e))

hear_calls-IsMute :
    (cs : List Call) (g : Guest)
    → All IsCall cs
    → g.replica.sync_in_flight ≡ true
    → IsMute g (hear_calls cs g)
unfolding hear_calls
hear_calls-IsMute [] g k f = hushed g g f refl refl
hear_calls-IsMute (c ∷ cs) g k f =
    let a = hear_call-IsMute c g k.0 f in
    IsMute-then g (hear_call c g) _ a (hear_calls-IsMute cs (hear_call c g) k.1 a.flight)

-- The calls that come with a new transport.
pub heard-IsMute :
    (cs : List Call) (t : GuestTransport) (g : Guest)
    → All IsCall cs
    → g.replica.sync_in_flight ≡ true
    → IsMute g (hear_calls cs (record g { transport = t }))
heard-IsMute cs t g k f =
    let a = hear_calls-IsMute cs (record g { transport = t }) k f in
    record { flight = a.flight; unasked = a.unasked }

fan_out-All : (hs : List ℕ) (evt : ServerEvent) → All IsCall (fan_out hs evt)
unfolding fan_out
fan_out-All [] evt = tt
fan_out-All (h ∷ hs) evt = (tt, fan_out-All hs evt)

pub calls_for-All : (hs : List ℕ) (env : Envelope) → All IsCall (calls_for hs env)
calls_for-All hs env = go (env_to_event env)
  where
    go : (m : Option ServerEvent) → All IsCall (elim m [ none ↦ [] | some evt ↦ fan_out hs evt ])
    go none = tt
    go (some evt) = fan_out-All hs evt

relayed_to-All : (host : Str) (envs : List Envelope) → All IsOther (relayed_to host envs)
unfolding relayed_to
relayed_to-All host [] = tt
relayed_to-All host (e ∷ es) = (tt, relayed_to-All host es)

pub guest_send-IsMute :
    (cmd : ClientCommand) (g : Guest)
    → g.replica.sync_in_flight ≡ true
    → IsMute g (guest_send cmd g)
unfolding guest_send guest_out
guest_send-IsMute cmd g f = go g.transport
  where
    go :
        (t : GuestTransport)
        → IsMute g (elim t as (λ _. Guest) [
          | no_transport ↦ g
          | over_channel t ↦ record g { transport = over_channel (rtc_send g.channel_open cmd t) }
          | over_relay t ↦
              guest_out
                (relayed_to g.refs.host_id (drop (length t.sent) (relay_send cmd t).sent))
                (record g { transport = over_relay (relay_send cmd t) })
        ])
    go no_transport = hushed g g f refl refl
    go (over_channel t) = hushed g _ f refl refl
    go (over_relay t) = says g _ _ f refl refl (relayed_to-All _ _)

hub_signals-All : (os : List HubOutput) → All IsOther (hub_signals os)
unfolding hub_signals hub_signal
hub_signals-All [] = tt
hub_signals-All (send_offer to sdp ∷ os) = (tt, hub_signals-All os)
hub_signals-All (send_answer to sdp ∷ os) = (tt, hub_signals-All os)
hub_signals-All (send_ice to c ∷ os) = (tt, hub_signals-All os)
hub_signals-All (_ ∷ os) = hub_signals-All os

pub with_hub-IsMute :
    (f : PeerHub → PeerHub) (g : Guest) → g.replica.sync_in_flight ≡ true → IsMute g (with_hub f g)
unfolding with_hub guest_out
with_hub-IsMute h g f = says g _ _ f refl refl (hub_signals-All _)
