-- ===== src/Session/Mute/Events.antt =====
-- frontend/components/P2pGameProvider.jsx: what comes to a guest while its request counts as in
-- flight.
use fakeartist.Prelude.{
  ℕ, List, [], ◌∷◌, ◌++◌, Bool, true, false, Option, none, some, Str, ◌≡◌, refl, arith, All,
  if◌then◌else◌, length, drop, codes, ◌==◌,
}
use fakeartist.Prelude.Adds.{Adds, Adds-none, Adds-all, Adds-then, Adds-drop}
use fakeartist.Protocol.{ClientCommand, Envelope, ServerEvent}
use fakeartist.Transport.{
  relay_on_event, new_relay, framed, calls_for, Rtc, handle_relay_in, rtc_handle_frame,
  rtc_on_message,
}
use fakeartist.PeerHub.{accept_offer, add_remote_answer, add_remote_ice}
use fakeartist.Replica.{apply}
use fakeartist.Replica.CatchUp.{request_sync}
use fakeartist.Replica.Waiting.{apply-Waits, request_sync-Waits}
use fakeartist.Session.{
  SignalMessage, peer_joined, peer_left, host_changed, offered, answered, candidate_came,
  role_dealt, relay_came, World, SessionOutput, notice, notice_ends, delete_id,
}
use fakeartist.Session.Guest.{
  Guest, GuestTransport, no_transport, over_channel, over_relay, guest_out, with_replica,
  hear_calls, guest_send, join_as, ice_timeout, bind_channel, on_peer_open, on_channel_message,
  on_host_channel_close, guest_peer_left, take_relay, on_relay, guest_host_changed, guest_on_signal,
  set_connected, schedule_failover,
}
use fakeartist.Session.Switch.{guest_command, kept_config}
use fakeartist.Session.Failover.{
  GuestEvent, signalled, commanded, ice_fired, peer_opened, channel_said, channel_closed,
  guest_step, guest_run,
}
use fakeartist.Session.Mute.{
  IsMute, IsUnanswered, IsCall, IsMute-then, with_replica-IsMute, calls_for-All, heard-IsMute,
  guest_send-IsMute, with_hub-IsMute, says, hushed,
}

ice_timeout-IsMute :
    (w : World) (g : Guest) → g.replica.sync_in_flight ≡ true → IsMute g (ice_timeout w g)
unfolding ice_timeout guest_out
ice_timeout-IsMute w g f = go g.transport
  where
    fired : Guest
    fired = record g { ice_armed = false }

    relayed : Guest
    relayed = record fired { transport = over_relay (relay_on_event 0 (new_relay none)) }

    notices : List SessionOutput
    notices = notice (some (codes "Connecting via server (slower mode)")) ∷ notice_ends 3000 ∷ []

    go :
        (t : GuestTransport)
        → IsMute g (elim t as (λ _. Guest) [
          | no_transport ↦ guest_out notices (guest_send (join_as (codes "Guest") w g) relayed)
          | _ ↦ fired
        ])
    go no_transport =
        let sent = guest_send (join_as (codes "Guest") w g) relayed in
        let a = guest_send-IsMute (join_as (codes "Guest") w g) relayed f in
        let b = says sent (guest_out notices sent) notices a.flight refl refl (tt, (tt, tt)) in
        record { flight = b.flight; unasked = Adds-then g.out sent.out _ a.unasked b.unasked }
    go (over_channel t) = hushed g fired f refl refl
    go (over_relay t) = hushed g fired f refl refl

on_peer_open-IsMute :
    (w : World) (peer : Str) (g : Guest)
    → g.replica.sync_in_flight ≡ true
    → IsMute g (on_peer_open w peer g)
unfolding on_peer_open bind_channel
on_peer_open-IsMute w peer g f = go (peer == g.refs.host_id)
  where
    joined : Guest
    joined = guest_send (join_as (codes "Guest") w g) (bind_channel g)

    go : (b : Bool) → IsMute g (if b then with_replica request_sync joined else g)
    go true =
        let a = guest_send-IsMute (join_as (codes "Guest") w g) (bind_channel g) f in
        let k =
          with_replica-IsMute request_sync joined (request_sync-Waits joined.replica a.flight) in
        record { flight = k.flight; unasked = Adds-then g.out joined.out _ a.unasked k.unasked }
    go false = hushed g g f refl refl

rtc_calls :
    (m : Option Envelope) (t : Rtc)
    → IsUnanswered (channel_said m)
    → Adds IsCall t.out (rtc_on_message m t).out
unfolding rtc_on_message rtc_handle_frame
rtc_calls none t k = Adds-none IsCall t.out
rtc_calls (some env) t k = go t.has_hook
  where
    go :
        (b : Bool)
        → Adds IsCall t.out
            ((if b then t.out ++ framed env ∷ [] else t.out) ++ calls_for t.listeners env)
    go true =
        Adds-then t.out (t.out ++ framed env ∷ []) _
          (Adds-all IsCall t.out (framed env ∷ []) (k, tt))
          (Adds-all IsCall (t.out ++ framed env ∷ []) _ (calls_for-All t.listeners env))
    go false = Adds-all IsCall t.out _ (calls_for-All t.listeners env)

on_channel_message-IsMute :
    (m : Option Envelope) (g : Guest)
    → IsUnanswered (channel_said m)
    → g.replica.sync_in_flight ≡ true
    → IsMute g (on_channel_message m g)
unfolding on_channel_message
on_channel_message-IsMute m g k f = go g.transport
  where
    go :
        (t : GuestTransport)
        → IsMute g (elim t as (λ _. Guest) [
          | over_channel t ↦
              hear_calls
                (drop (length t.out) (rtc_on_message m t).out)
                (record g { transport = over_channel (rtc_on_message m t) })
          | _ ↦ g
        ])
    go (over_channel t) =
        heard-IsMute _ _ g (Adds-drop t.out (rtc_on_message m t).out (rtc_calls m t k)) f
    go no_transport = hushed g g f refl refl
    go (over_relay t) = hushed g g f refl refl

on_relay-IsMute :
    (m : Option Envelope) (g : Guest) → g.replica.sync_in_flight ≡ true → IsMute g (on_relay m g)
unfolding on_relay take_relay handle_relay_in
on_relay-IsMute none g f = hushed g g f refl refl
on_relay-IsMute (some env) g f = go g.transport
  where
    go : (t : GuestTransport) → IsMute g (take_relay env t g)
    go (over_relay t) =
        heard-IsMute _ _ g
          (Adds-drop t.out _ (Adds-all IsCall t.out _ (calls_for-All t.listeners env))) f
    go no_transport = hushed g g f refl refl
    go (over_channel t) = hushed g g f refl refl

guest_command-IsMute :
    (cmd : ClientCommand) (g : Guest)
    → g.replica.sync_in_flight ≡ true
    → IsMute g (guest_command cmd g)
unfolding guest_command
guest_command-IsMute cmd g f = go g.transport
  where
    kept : Guest
    kept = record g {
      refs = record g.refs { pending_config = kept_config cmd g.refs.pending_config };
    }

    go :
        (t : GuestTransport)
        → IsMute g (elim t as (λ _. Guest) [ no_transport ↦ kept | _ ↦ guest_send cmd g ])
    go no_transport = hushed g kept f refl refl
    go (over_channel t) = guest_send-IsMute cmd g f
    go (over_relay t) = guest_send-IsMute cmd g f

on_host_channel_close-IsMute :
    (g : Guest) → g.replica.sync_in_flight ≡ true → IsMute g (on_host_channel_close g)
unfolding on_host_channel_close
on_host_channel_close-IsMute g f =
    hushed g (on_host_channel_close g) f (ground arith) (ground arith)

guest_peer_left-IsMute :
    (random : ℕ) (id : Str) (g : Guest)
    → g.replica.sync_in_flight ≡ true
    → IsMute g (guest_peer_left random id g)
unfolding guest_peer_left guest_out
guest_peer_left-IsMute random id g f = go (id == g.refs.host_id)
  where
    gone : Guest
    gone = set_connected (delete_id id g.refs.connected) g

    told : Guest
    told = guest_out (notice (some (codes "Host disconnected — electing new host")) ∷ []) gone

    go : (b : Bool) → IsMute g (if b then schedule_failover random told else gone)
    go true = says g _ _ f refl refl (tt, tt)
    go false = hushed g gone f refl refl

guest_host_changed-IsMute :
    (id : Str) (g : Guest) → g.replica.sync_in_flight ≡ true → IsMute g (guest_host_changed id g)
unfolding guest_host_changed guest_out
guest_host_changed-IsMute id g f =
    says g (guest_host_changed id g) (notice none ∷ []) f (ground arith) (ground arith) (tt, tt)

guest_on_signal-IsMute :
    (w : World) (random : ℕ) (m : SignalMessage) (g : Guest)
    → g.replica.sync_in_flight ≡ true
    → IsMute g (guest_on_signal w random m g)
unfolding guest_on_signal
guest_on_signal-IsMute w random (peer_joined id) g f =
    hushed g (guest_on_signal w random (peer_joined id) g) f (ground arith) (ground arith)
guest_on_signal-IsMute w random (offered from sdp) g f =
    with_hub-IsMute (accept_offer from sdp (w.answer from sdp)) g f
guest_on_signal-IsMute w random (answered from sdp) g f =
    with_hub-IsMute (add_remote_answer from sdp) g f
guest_on_signal-IsMute w random (candidate_came from c) g f =
    with_hub-IsMute (add_remote_ice from c) g f
guest_on_signal-IsMute w random (role_dealt p) g f =
    with_replica-IsMute (apply (ServerEvent.your_role p)) g
      (apply-Waits (ServerEvent.your_role p) g.replica f)
guest_on_signal-IsMute w random (relay_came from m) g f = on_relay-IsMute m g f
guest_on_signal-IsMute w random (peer_left id) g f = guest_peer_left-IsMute random id g f
guest_on_signal-IsMute w random (host_changed id) g f = guest_host_changed-IsMute id g f

pub guest_step-IsMute :
    (w : World) (x : GuestEvent) (g : Guest)
    → IsUnanswered x
    → g.replica.sync_in_flight ≡ true
    → IsMute g (guest_step w x g)
unfolding guest_step
guest_step-IsMute w (signalled random m) g k f = guest_on_signal-IsMute w random m g f
guest_step-IsMute w (commanded cmd) g k f = guest_command-IsMute cmd g f
guest_step-IsMute w ice_fired g k f = ice_timeout-IsMute w g f
guest_step-IsMute w (peer_opened peer) g k f = on_peer_open-IsMute w peer g f
guest_step-IsMute w (channel_said m) g k f = on_channel_message-IsMute m g k f
guest_step-IsMute w channel_closed g k f = on_host_channel_close-IsMute g f

-- While no SYNC_RES comes, a guest whose request counts as in flight asks for nothing.
pub guest_run-IsMute :
    (w : World) (xs : List GuestEvent) (g : Guest)
    → All IsUnanswered xs
    → g.replica.sync_in_flight ≡ true
    → IsMute g (guest_run w xs g)
unfolding guest_run
guest_run-IsMute w [] g k f = hushed g g f refl refl
guest_run-IsMute w (x ∷ xs) g k f =
    let a = guest_step-IsMute w x g k.0 f in
    IsMute-then g (guest_step w x g) _ a (guest_run-IsMute w xs (guest_step w x g) k.1 a.flight)
