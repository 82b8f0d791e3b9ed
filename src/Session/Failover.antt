-- ===== src/Session/Failover.antt =====
-- frontend/components/P2pGameProvider.jsx: `scheduleFailover`, `cancelFailover` and
-- `runHostFailover`, from the loss of the host to the claim.
use fakeartist.Prelude.{
  ℕ, ◌<◌, ◌≤◌, List, [], ◌∷◌, ◌++◌, true, Option, none, some, Str, ◌≡◌, ◌≢◌, refl, ap, ◌∙◌, ◌==◌,
  arith, includes, inl, inr, Bool-cases, All, codes,
}
use fakeartist.Protocol.{ClientCommand, Envelope}
use fakeartist.Election.{elect}
use fakeartist.Replica.CatchUp.{request_sync}
use fakeartist.Election.Agreement.{elect_self}
use fakeartist.Session.{
  SignalMessage, peer_joined, peer_left, host_changed, offered, answered, candidate_came,
  role_dealt, relay_came, World, claim_posted, Refs, grace_delay,
}
use fakeartist.Session.Guest.{
  Guest, ice_timeout, on_peer_open, on_channel_message, on_host_channel_close, guest_on_signal,
  on_relay, guest_peer_left, electors, election_view, run_host_failover, set_timer, guest_out,
  is_self, join_as, bind_channel,
}
use fakeartist.Session.Switch.{guest_command}
use fakeartist.Session.Frame.{with_replica-refs, hear_calls-refs, guest_send-refs}

-- What can happen to a guest before its timer runs out.
pub data GuestEvent : Type 0 where
  signalled : ℕ → SignalMessage → GuestEvent
  commanded : ClientCommand → GuestEvent
  ice_fired : GuestEvent
  peer_opened : Str → GuestEvent
  channel_said : Option Envelope → GuestEvent
  channel_closed : GuestEvent

unfoldable pub guest_step : World → GuestEvent → Guest → Guest
guest_step w (signalled random m) g = guest_on_signal w random m g
guest_step w (commanded cmd) g = guest_command cmd g
guest_step w ice_fired g = ice_timeout w g
guest_step w (peer_opened peer) g = on_peer_open w peer g
guest_step w (channel_said m) g = on_channel_message m g
guest_step w channel_closed g = on_host_channel_close g

unfoldable pub guest_run : World → List GuestEvent → Guest → Guest
guest_run w [] g = g
guest_run w (x ∷ xs) g = guest_run w xs (guest_step w x g)

-- The host does not come back, and nobody is named the new host.
abbrev pub IsQuiet : Str → GuestEvent → Type 0
IsQuiet host (signalled random (peer_joined id)) = id ≢ host
IsQuiet host (signalled random (host_changed id)) = ⊥
IsQuiet host _ = Unit

-- The timer runs with this delay, and the host that it waits for is this one.
pub record Waits (d : ℕ) (lost : Str) (g : Guest) : Type 0 where
  pub timer : g.refs.failover_timer ≡ some d
  pub host : g.refs.host_id ≡ lost

same_refs : (d : ℕ) (host : Str) (g h : Guest) → h.refs ≡ g.refs → Waits d host g → Waits d host h
same_refs d host g h e k = record {
  timer = ap (λ (r : Refs). r.failover_timer) e ∙ k.timer;
  host = ap (λ (r : Refs). r.host_id) e ∙ k.host;
}

on_relay-refs : (m : Option Envelope) (g : Guest) → (on_relay m g).refs ≡ g.refs
unfolding on_relay
on_relay-refs m g = grind (arith, hear_calls-refs)

on_channel_message-refs : (m : Option Envelope) (g : Guest) → (on_channel_message m g).refs ≡ g.refs
unfolding on_channel_message
on_channel_message-refs m g = grind (arith, hear_calls-refs)

guest_command-timer :
    (cmd : ClientCommand) (d : ℕ) (host : Str) (g : Guest)
    → Waits d host g
    → Waits d host (guest_command cmd g)
unfolding guest_command
guest_command-timer cmd d host g k = record {
  timer = grind (arith, k.timer, guest_send-refs);
  host = grind (arith, k.host, guest_send-refs);
}

ice_timeout-refs : (w : World) (g : Guest) → (ice_timeout w g).refs ≡ g.refs
unfolding ice_timeout
ice_timeout-refs w g = grind (arith, guest_send-refs)

on_peer_open-refs : (w : World) (peer : Str) (g : Guest) → (on_peer_open w peer g).refs ≡ g.refs
unfolding on_peer_open
on_peer_open-refs w peer g = elim (Bool-cases (peer == g.refs.host_id)) [
  | inl e ↦ rw e (
      with_replica-refs request_sync _
      ∙ guest_send-refs (join_as (codes "Guest") w g) (bind_channel g))
  | inr e ↦ rw e refl
]

on_host_channel_close-refs : (g : Guest) → (on_host_channel_close g).refs ≡ g.refs
unfolding on_host_channel_close
on_host_channel_close-refs g = ground arith

guest_peer_left-Waits :
    (random : ℕ) (id : Str) (d : ℕ) (host : Str) (g : Guest)
    → Waits d host g
    → Waits d host (guest_peer_left random id g)
unfolding guest_peer_left
guest_peer_left-Waits random id d host g k = record {
  timer = ground (arith, k.timer);
  host = ground (arith, k.host);
}

guest_on_signal-Waits :
    (w : World) (random : ℕ) (m : SignalMessage) (d : ℕ) (host : Str) (g : Guest)
    → IsQuiet host (signalled random m)
    → Waits d host g
    → Waits d host (guest_on_signal w random m g)
unfolding guest_on_signal
guest_on_signal-Waits w random (peer_joined id) d host g q k = record {
  timer = ground (arith, k.timer, k.host, q);
  host = ground (arith, k.host);
}
guest_on_signal-Waits w random (peer_left id) d host g q k =
    guest_peer_left-Waits random id d host g k
guest_on_signal-Waits w random (host_changed id) d host g q k = absurd q
guest_on_signal-Waits w random (offered from sdp) d host g q k = record {
  timer = k.timer;
  host = k.host;
}
guest_on_signal-Waits w random (answered from sdp) d host g q k = record {
  timer = k.timer;
  host = k.host;
}
guest_on_signal-Waits w random (candidate_came from c) d host g q k = record {
  timer = k.timer;
  host = k.host;
}
guest_on_signal-Waits w random (role_dealt p) d host g q k =
    same_refs d host g _
      (with_replica-refs (fakeartist.Replica.apply (fakeartist.Protocol.ServerEvent.your_role p)) g)
      k
guest_on_signal-Waits w random (relay_came from m) d host g q k =
    same_refs d host g _ (on_relay-refs m g) k

guest_step-Waits :
    (w : World) (x : GuestEvent) (d : ℕ) (host : Str) (g : Guest)
    → IsQuiet host x
    → Waits d host g
    → Waits d host (guest_step w x g)
unfolding guest_step
guest_step-Waits w (signalled random m) d host g q k = guest_on_signal-Waits w random m d host g q k
guest_step-Waits w (commanded cmd) d host g q k = guest_command-timer cmd d host g k
guest_step-Waits w ice_fired d host g q k = same_refs d host g _ (ice_timeout-refs w g) k
guest_step-Waits w (peer_opened peer) d host g q k =
    same_refs d host g _ (on_peer_open-refs w peer g) k
guest_step-Waits w (channel_said m) d host g q k =
    same_refs d host g _ (on_channel_message-refs m g) k
guest_step-Waits w channel_closed d host g q k =
    same_refs d host g _ (on_host_channel_close-refs g) k

guest_run-Waits :
    (w : World) (xs : List GuestEvent) (d : ℕ) (host : Str) (g : Guest)
    → All (IsQuiet host) xs
    → Waits d host g
    → Waits d host (guest_run w xs g)
unfolding guest_run
guest_run-Waits w [] d host g q k = k
guest_run-Waits w (x ∷ xs) d host g q k =
    guest_run-Waits w xs d host (guest_step w x g) q.1 (guest_step-Waits w x d host g q.0 k)

includes-append : (ids : List Str) (id : Str) → includes (ids ++ id ∷ []) id ≡ true
includes-append [] id = ground arith
includes-append (x ∷ xs) id = ground (arith, includes-append xs id)

electors_self : (r : Refs) → includes (electors r) r.player_id ≡ true
unfolding electors
electors_self r = grind (arith, includes-append)

elects_self :
    (g : Guest) → 0 < g.replica.last_version → elect (election_view g) ≡ some g.refs.player_id
unfolding election_view
elects_self g v = elect_self (election_view g) (electors_self g.refs) (λ p. refl) v

-- A guest that has seen a state claims when its timer runs out.
run_host_failover-claims :
    (g : Guest)
    → 0 < g.replica.last_version
    → run_host_failover g
      ≡ guest_out
          (claim_posted g.replica.last_version g.replica.last_stroke_index ∷ [])
          (set_timer none g)
unfolding run_host_failover is_self
run_host_failover-claims g v = grind (arith, elects_self g v)

pub record Claims (d : ℕ) (g : Guest) : Type 0 where
  pub timer : g.refs.failover_timer ≡ some d
  pub claim :
      (run_host_failover g).out
      ≡ g.out ++ claim_posted g.replica.last_version g.replica.last_stroke_index ∷ []
  pub soonest : 3000 ≤ d
  pub latest : d < 8000
  pub spent : (run_host_failover g).refs.failover_timer ≡ none

claiming :
    (d : ℕ) (g : Guest)
    → g.refs.failover_timer ≡ some d
    → 0 < g.replica.last_version
    → 3000 ≤ d
    → d < 8000
    → Claims d g
unfolding guest_out set_timer
claiming d g t v lo hi =
    let e = run_host_failover-claims g v in
    record {
      timer = t;
      soonest = lo;
      latest = hi;
      claim = ap (λ (h : Guest). h.out) e;
      spent = ap (λ (h : Guest). h.refs.failover_timer) e;
    }

lost-Waits :
    (w : World) (random : ℕ) (g : Guest)
    → g.refs.failover_timer ≡ none
    → Waits
        (grace_delay random)
        g.refs.host_id
        (guest_on_signal w random (peer_left g.refs.host_id) g)
unfolding guest_on_signal guest_peer_left
lost-Waits w random g t = record { timer = ground (arith, t); host = ground arith }

-- When a guest without a running timer hears that the host has left, with a random number below
-- 5000, and then, through any sequence of other messages, commands and channel events, neither
-- the host comes back nor a new host is named, and it has by then seen a state: one timer runs,
-- with its first delay, which is at least 3000 and below 8000 ms, and when it runs out the guest
-- posts one claim with the version and the stroke that it has seen, and no timer runs.
pub host_loss-Claims :
    (w : World) (random : ℕ) (xs : List GuestEvent) (g : Guest)
    → random < 5000
    → g.refs.failover_timer ≡ none
    → All (IsQuiet g.refs.host_id) xs
    → 0 < (guest_run w (signalled random (peer_left g.refs.host_id) ∷ xs) g).replica.last_version
    → Claims (grace_delay random) (guest_run w (signalled random (peer_left g.refs.host_id) ∷ xs) g)
unfolding guest_run guest_step grace_delay
host_loss-Claims w random xs g r t q v =
    claiming (grace_delay random) _
      (guest_run-Waits w xs (grace_delay random) g.refs.host_id _ q (lost-Waits w random g t)).timer
      v (ground arith) (ground arith)
