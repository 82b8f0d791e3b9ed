-- ===== src/Transport.antt =====
-- frontend/p2p/transport.ts: the three transports between the user interface and the engine. A
-- handler is known by a number; what the handlers and the frame hook are called with goes to `out`.
pub mod Wire
use fakeartist.Prelude.{
  ℕ, zero, suc, ◌+◌, List, [], ◌∷◌, ◌++◌, map, Bool, true, false, not, Option, none, some, Str,
  ◌==◌, nat_eq, keep_if, length, drop, if◌then◌else◌,
}
use fakeartist.Protocol.{ClientCommand, ServerEvent, Envelope}
use fakeartist.Engine.State.{Env, Engine, Output, broadcast, direct, draw_request}
use fakeartist.Engine.Dispatch.{dispatch}

pub data TransportStatus : Type 0 where
  connecting opened closed reconnecting : TransportStatus

-- Transport-only frames carry no event.
unfoldable pub env_to_event : Envelope → Option ServerEvent
env_to_event (Envelope.state_update version s) = some (ServerEvent.state_update s)
env_to_event (Envelope.stroke_added round n stroke) = some (ServerEvent.stroke_added stroke n)
env_to_event (Envelope.your_role round p) = some (ServerEvent.your_role p)
env_to_event (Envelope.player_welcome id) = some (ServerEvent.player_welcome id)
env_to_event (Envelope.error message) = some (ServerEvent.error message)
env_to_event _ = none

-- `x ?? 0`
abbrev pub or_zero : Option ℕ → ℕ
or_zero none = 0
or_zero (some n) = n

unfoldable pub event_to_env : ServerEvent → Option ℕ → Option ℕ → Option Envelope
event_to_env (ServerEvent.state_update s) version round =
    some (Envelope.state_update (or_zero version) s)
event_to_env (ServerEvent.stroke_added stroke n) version round =
    some (Envelope.stroke_added (or_zero round) n stroke)
event_to_env (ServerEvent.your_role p) version round = some (Envelope.your_role (or_zero round) p)
event_to_env (ServerEvent.player_welcome id) version round = some (Envelope.player_welcome id)
event_to_env (ServerEvent.error message) version round = some (Envelope.error message)

pub data Call : Type 0 where
  handled : ℕ → ServerEvent → Call
  framed : Envelope → Call

-- `listeners.forEach((fn) => fn(evt))`
unfoldable pub fan_out : List ℕ → ServerEvent → List Call
fan_out hs evt = map (λ h. handled h evt) hs

-- The unsubscribe function of a handler.
unfoldable pub without : ℕ → List ℕ → List ℕ
without h = keep_if (λ f. not (nat_eq f h))

-- Class `LoopbackTransport`.
pub record Loopback : Type 0 where
  pub status : TransportStatus
  pub self_id : Str
  pub listeners : List ℕ
  -- whether it still listens to the engine
  pub attached : Bool
  pub out : List Call

unfoldable pub new_loopback : Str → Loopback
new_loopback self = record {
  status = opened;
  self_id = self;
  listeners = [];
  attached = true;
  out = [];
}

unfoldable pub loopback_on_event : ℕ → Loopback → Loopback
loopback_on_event h t = record t { listeners = t.listeners ++ h ∷ [] }

unfoldable pub loopback_off_event : ℕ → Loopback → Loopback
unfolding without
loopback_off_event h t = record t { listeners = without h t.listeners }

-- A broadcast is for everybody, a direct event for its addressee.
unfoldable pub is_for : Str → Output → Option ServerEvent
is_for self (broadcast evt) = some evt
is_for self (direct pid evt) = if pid == self then some evt else none
is_for self (draw_request room req pool) = none

unfoldable pub loopback_hear : Output → Loopback → Loopback
unfolding fan_out
loopback_hear o t =
    if t.attached
    then elim (is_for t.self_id o) [
      | none ↦ t
      | some evt ↦ record t { out = t.out ++ fan_out t.listeners evt }
    ]
    else t

unfoldable pub loopback_hear_all : List Output → Loopback → Loopback
loopback_hear_all [] t = t
loopback_hear_all (o ∷ os) t = loopback_hear_all os (loopback_hear o t)

-- The command goes into the engine, and what the engine emits comes back before the call returns.
unfoldable pub loopback_send : Env → ClientCommand → Loopback → Engine → Loopback × Engine
loopback_send env cmd t e =
    let e' = dispatch env cmd t.self_id e in (loopback_hear_all (drop (length e.out) e'.out) t, e')

unfoldable pub loopback_close : Loopback → Loopback
loopback_close t = record t { attached = false; listeners = []; status = closed }

-- Class `RTCTransport`. The channel's `readyState` is an argument where the code reads it.
pub record Rtc : Type 0 where
  pub status : TransportStatus
  pub listeners : List ℕ
  pub seq : ℕ
  -- whether a frame hook is given
  pub has_hook : Bool
  pub sent : List Envelope
  pub out : List Call

unfoldable pub new_rtc : Bool → Option ℕ → Bool → Rtc
new_rtc ready seq_start hook = record {
  status = if ready then opened else connecting;
  listeners = [];
  seq = or_zero seq_start;
  has_hook = hook;
  sent = [];
  out = [];
}

unfoldable pub rtc_on_open : Rtc → Rtc
rtc_on_open t = record t { status = opened }

unfoldable pub rtc_on_close : Rtc → Rtc
rtc_on_close t = record t { status = closed }

unfoldable pub rtc_send : Bool → ClientCommand → Rtc → Rtc
rtc_send ready cmd t =
    if ready
    then (record t { seq = t.seq + 1; sent = t.sent ++ Envelope.cmd (t.seq + 1) cmd none ∷ [] })
    else t

unfoldable pub rtc_on_event : ℕ → Rtc → Rtc
rtc_on_event h t = record t { listeners = t.listeners ++ h ∷ [] }

unfoldable pub rtc_off_event : ℕ → Rtc → Rtc
unfolding without
rtc_off_event h t = record t { listeners = without h t.listeners }

unfoldable pub rtc_close : Rtc → Rtc
rtc_close t = record t { listeners = []; status = closed }

abbrev pub calls_for : List ℕ → Envelope → List Call
calls_for hs env = elim (env_to_event env) [ none ↦ [] | some evt ↦ fan_out hs evt ]

unfoldable pub rtc_handle_frame : Envelope → Rtc → Rtc
rtc_handle_frame env t =
    let hooked = if t.has_hook then t.out ++ framed env ∷ [] else t.out in
    record t { out = hooked ++ calls_for t.listeners env }

-- `none` is a message that is no JSON.
unfoldable pub rtc_on_message : Option Envelope → Rtc → Rtc
unfolding rtc_handle_frame
rtc_on_message none t = t
rtc_on_message (some env) t = rtc_handle_frame env t

-- Class `RelayTransport`.
pub record Relay : Type 0 where
  pub status : TransportStatus
  pub listeners : List ℕ
  pub seq : ℕ
  pub sent : List Envelope
  pub out : List Call

unfoldable pub new_relay : Option ℕ → Relay
new_relay seq_start = record {
  status = opened;
  listeners = [];
  seq = or_zero seq_start;
  sent = [];
  out = [];
}

unfoldable pub relay_send : ClientCommand → Relay → Relay
relay_send cmd t = record t {
  seq = t.seq + 1;
  sent = t.sent ++ Envelope.cmd (t.seq + 1) cmd none ∷ [];
}

unfoldable pub relay_on_event : ℕ → Relay → Relay
relay_on_event h t = record t { listeners = t.listeners ++ h ∷ [] }

unfoldable pub relay_off_event : ℕ → Relay → Relay
unfolding without
relay_off_event h t = record t { listeners = without h t.listeners }

unfoldable pub relay_close : Relay → Relay
relay_close t = record t { listeners = []; status = closed }

unfoldable pub handle_relay_in : Envelope → Relay → Relay
handle_relay_in env t = record t { out = t.out ++ calls_for t.listeners env }
