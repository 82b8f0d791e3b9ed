-- ===== src/Session/Resync.antt =====
-- frontend/components/P2pGameProvider.jsx: a guest's request to the host for what it has missed,
-- where no channel is open for it.
use fakeartist.Prelude.{
  ℕ, suc, ◌<◌, [], ◌∷◌, ◌++◌, true, false, some, ◌≡◌, refl, ap, ◌∙◌, arith, codes, length, drop,
  append-nil, ◌&&◌, if◌then◌else◌,
}
use fakeartist.Models.{Stroke}
use fakeartist.Protocol.{Envelope, ServerEvent}
use fakeartist.Transport.{env_to_event, fan_out, Relay, handle_relay_in}
use fakeartist.Replica.{
  Replica, ReplicaOutput, Expected, sync_asked, apply, apply_stroke, place_stroke, buffer_stroke,
  request_sync_if_needed, round_of, notify,
}
use fakeartist.Replica.CatchUp.{request_sync}
use fakeartist.Session.{World, asked_host}
use fakeartist.Session.Guest.{
  Guest, over_relay, on_peer_open, bind_channel, guest_send, join_as, with_replica, on_relay,
  take_relay, react_all, react, hear_calls, hear_call, ask_host, guest_out,
}
use fakeartist.Prelude.{List, All, subst, sym}
use fakeartist.Prelude.Adds.{Adds-all}
use fakeartist.Session.Failover.{GuestEvent, guest_run}
use fakeartist.Session.Mute.{IsOther, IsMute, IsUnanswered, IsMute-then}
use fakeartist.Session.Mute.Events.{guest_run-IsMute}
use fakeartist.Session.Frame.{drop-length, drop-length-append}

opened :
    (w : World) (g : Guest)
    → on_peer_open w g.refs.host_id g
      ≡ with_replica request_sync (guest_send (join_as (codes "Guest") w g) (bind_channel g))
unfolding on_peer_open
opened w g = ground arith

-- A call that leaves the replica as it is changes nothing.
with_replica_self :
    (f : Replica → Replica) (g : Guest) → f g.replica ≡ g.replica → with_replica f g ≡ g
unfolding with_replica react_all
with_replica_self f g e =
    ap (λ v. react_all (drop (length g.replica.out) v.out) (record g { replica = v })) e
    ∙ ap (λ os. react_all os g) (drop-length g.replica.out)

-- A call in which the replica tells its listeners one thing.
with_replica_told :
    (f : Replica → Replica) (o : ReplicaOutput) (g : Guest)
    → (f g.replica).out ≡ g.replica.out ++ o ∷ []
    → with_replica f g ≡ react o (record g { replica = f g.replica })
unfolding with_replica react_all
with_replica_told f o g e =
    ap (λ os. react_all (drop (length g.replica.out) os) (record g { replica = f g.replica })) e
    ∙ ap (λ os. react_all os (record g { replica = f g.replica }))
        (drop-length-append g.replica.out (o ∷ []))

in_flight : (v : Replica) → v.sync_in_flight ≡ true → request_sync v ≡ v
unfolding request_sync
in_flight v f = ground (arith, f)

-- What `onPeerOpen` has done before it asks.
abbrev joined_by : World → Guest → Guest
joined_by w g = guest_send (join_as (codes "Guest") w g) (bind_channel g)

joined-out : (w : World) (g : Guest) → (joined_by w g).out ≡ g.out
unfolding guest_send bind_channel
joined-out w g = refl

joined-replica : (w : World) (g : Guest) → (joined_by w g).replica ≡ g.replica
unfolding guest_send bind_channel
joined-replica w g = refl

pub silent :
    (w : World) (g : Guest)
    → request_sync g.replica ≡ g.replica
    → (on_peer_open w g.refs.host_id g).out ≡ g.out
unfolding guest_send bind_channel
silent w g e =
    ap (λ (h : Guest). h.out) (opened w g ∙ with_replica_self request_sync (joined_by w g) e)

gap :
    (s : Stroke) (n : ℕ) (v : Replica) (x : Expected)
    → v.expected_next ≡ some x
    → round_of v.state (some x) ≡ x.round
    → x.idx < n
    → apply_stroke s (suc n) v ≡ buffer_stroke s n x v
unfolding apply_stroke place_stroke
gap s n v x e r l = ground arith

-- A relayed stroke at a transport with the replica's handler.
relayed_stroke :
    (round n : ℕ) (s : Stroke) (t : Relay) (g : Guest)
    → g.transport ≡ over_relay t
    → t.listeners ≡ 0 ∷ []
    → on_relay (some (Envelope.stroke_added round n s)) g
      ≡ with_replica (apply (ServerEvent.stroke_added s n)) (record g {
        transport = over_relay (handle_relay_in (Envelope.stroke_added round n s) t);
      })
unfolding on_relay take_relay handle_relay_in hear_calls hear_call env_to_event fan_out
relayed_stroke round n s t g e l =
    let env = Envelope.stroke_added round n s in
    let evt = ServerEvent.stroke_added s n in
    let h = record g { transport = over_relay (handle_relay_in env t) } in
    ap (λ u. take_relay env u g) e
    ∙ ap (λ cs. hear_calls cs h) (drop-length-append t.out (fan_out t.listeners evt))
    ∙ ap (λ hs. hear_calls (fan_out hs evt) h) l

buffered-out :
    (s : Stroke) (n : ℕ) (v : Replica) (x : Expected)
    → v.has_hook ≡ true
    → v.sync_in_flight ≡ false
    → (buffer_stroke s n x v).out ≡ v.out ++ sync_asked x.round x.idx ∷ []
unfolding buffer_stroke request_sync_if_needed notify
buffered-out s n v x k f = ground (arith, k, f)

buffered-flight :
    (s : Stroke) (n : ℕ) (v : Replica) (x : Expected)
    → v.has_hook ≡ true
    → (buffer_stroke s n x v).sync_in_flight ≡ true
unfolding buffer_stroke request_sync_if_needed notify
buffered-flight s n v x k = ground (arith, k)

-- A relay transport, and a replica that waits for stroke `x` and asks for what it misses.
pub record IsRelayed (t : Relay) (x : Expected) (g : Guest) : Type 0 where
  pub transport : g.transport ≡ over_relay t
  pub listener : t.listeners ≡ 0 ∷ []
  pub no_channel : g.has_host_dc ≡ false
  pub floor : g.replica.expected_next ≡ some x
  pub round : round_of g.replica.state (some x) ≡ x.round
  pub hook : g.replica.has_hook ≡ true
  pub no_flight : g.replica.sync_in_flight ≡ false

-- A stroke behind a gap is kept, and the hook has nowhere to ask.
missed :
    (round n : ℕ) (s : Stroke) (t : Relay) (x : Expected) (g : Guest)
    → IsRelayed t x g
    → x.idx < n
    → on_relay (some (Envelope.stroke_added round (suc n) s)) g
      ≡ guest_out [] (record g {
        transport = over_relay (handle_relay_in (Envelope.stroke_added round (suc n) s) t);
        replica = buffer_stroke s n x g.replica;
      })
unfolding react ask_host apply
missed round n s t x g k l =
    let relayed = over_relay (handle_relay_in (Envelope.stroke_added round (suc n) s) t) in
    let kept = gap s n g.replica x k.floor k.round l in
    relayed_stroke round (suc n) s t g k.transport k.listener
    ∙ with_replica_told (apply_stroke s (suc n)) (sync_asked x.round x.idx)
        (record g { transport = relayed })
        (ap (λ (v : Replica). v.out) kept ∙ buffered-out s n g.replica x k.hook k.no_flight)
    ∙ ap (λ v. react (sync_asked x.round x.idx) (record g { transport = relayed; replica = v }))
        kept
    ∙ ap
        (λ b.
          guest_out
            (if b && g.channel_open then asked_host (Envelope.sync_req x.round x.idx) ∷ [] else [])
            (record g { transport = relayed; replica = buffer_stroke s n x g.replica }))
        k.no_channel

-- A stroke behind a gap asks for nothing, and the request counts as in flight.
missed-IsMute :
    (round n : ℕ) (s : Stroke) (t : Relay) (x : Expected) (g : Guest)
    → IsRelayed t x g
    → x.idx < n
    → IsMute g (on_relay (some (Envelope.stroke_added round (suc n) s)) g)
unfolding guest_out
missed-IsMute round n s t x g k l = subst (IsMute g) (sym (missed round n s t x g k l)) (record {
  flight = buffered-flight s n g.replica x k.hook;
  unasked = Adds-all IsOther g.out [] tt;
})

-- When a guest on the relay of the server, without a channel, whose replica has a hook and no
-- request in flight, gets a stroke beyond the one that it waits for: if the channel of the host
-- opens then, that opening outputs nothing; and through every later sequence of signals, commands
-- and events of channels, openings and strokes behind a gap among them, but without a SYNC_RES on
-- the channel of the host, while it is handled as a guest, nothing is ever asked of the host, and
-- the request of the replica counts as in flight at the end.
pub on_peer_open-on_relay :
    (w : World) (round n : ℕ) (s : Stroke) (t : Relay) (x : Expected) (xs : List GuestEvent)
    (g : Guest)
    → IsRelayed t x g
    → x.idx < n
    → All IsUnanswered xs
    → let stuck = on_relay (some (Envelope.stroke_added round (suc n) s)) g in
      ((on_peer_open w g.refs.host_id stuck).out ≡ g.out) × IsMute g (guest_run w xs stuck)
unfolding guest_out
on_peer_open-on_relay w round n s t x xs g k l q =
    let stuck = guest_out [] (record g {
      transport = over_relay (handle_relay_in (Envelope.stroke_added round (suc n) s) t);
      replica = buffer_stroke s n x g.replica;
    }) in
    let met = on_relay (some (Envelope.stroke_added round (suc n) s)) g in
    let mute = missed-IsMute round n s t x g k l in
    (
      ap (λ (h : Guest). (on_peer_open w g.refs.host_id h).out) (missed round n s t x g k l)
          ∙ silent w stuck (in_flight stuck.replica (buffered-flight s n g.replica x k.hook))
          ∙ append-nil g.out,
      IsMute-then g met (guest_run w xs met) mute (guest_run-IsMute w xs met q mute.flight),
    )
