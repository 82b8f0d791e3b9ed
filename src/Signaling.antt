-- ===== src/Signaling.antt =====
-- frontend/p2p/signaling.ts, class `SignalingClient`: the socket to the signaling server, which is
-- opened again after a loss. What is asked of the browser, and the calls of handlers, go to the end
-- of `out`. A message is an opaque text; a listener for messages is not modelled.
pub mod Backoff
pub mod Closing
use fakeartist.Prelude.{
  ℕ, zero, suc, ◌+◌, ◌*◌, List, [], ◌∷◌, ◌++◌, Bool, true, false, Option, none, some, Str, leb,
  nat_eq, if◌then◌else◌,
}
use fakeartist.Protocol.{Envelope}

pub data SignalRole : Type 0 where
  host guest : SignalRole

pub data SignalStatus : Type 0 where
  connecting opened closed reconnecting : SignalStatus

pub data OutboundEnvelope : Type 0 where
  hello : SignalRole → OutboundEnvelope
  sdp_offer sdp_answer ice : Str → Str → OutboundEnvelope
  relayed : Str → Envelope → OutboundEnvelope
  bye : OutboundEnvelope

pub data SignalOutput : Type 0 where
  status_changed : SignalStatus → SignalOutput
  socket_opened : SignalOutput
  socket_closed : SignalOutput
  message_sent : OutboundEnvelope → SignalOutput
  -- a timer for the next attempt, with its delay in milliseconds
  timer_set : ℕ → SignalOutput

pub record SignalingOptions : Type 0 where
  pub role : SignalRole
  pub reconnect : Bool
  pub backoff_base : ℕ
  pub backoff_max : ℕ

pub record SignalingClient : Type 0 where
  pub opts : SignalingOptions
  pub is_closed : Bool
  pub has_socket : Bool
  pub retry : ℕ
  -- the timers of `setTimeout` that have not run yet
  pub timers : ℕ
  pub status : SignalStatus
  pub out : List SignalOutput

unfoldable pub status_number : SignalStatus → ℕ
status_number connecting = 0
status_number opened = 1
status_number closed = 2
status_number reconnecting = 3

unfoldable pub add_output : SignalOutput → SignalingClient → SignalingClient
add_output o c = record c { out = c.out ++ o ∷ [] }

unfoldable pub set_signal_status : SignalStatus → SignalingClient → SignalingClient
unfolding status_number add_output
set_signal_status s c =
    if nat_eq (status_number c.status) (status_number s)
    then c
    else add_output (status_changed s) (record c { status = s })

unfoldable pub attempt_status : ℕ → SignalStatus
attempt_status zero = connecting
attempt_status (suc n) = reconnecting

unfoldable pub connect : SignalingClient → SignalingClient
unfolding set_signal_status attempt_status
connect c = record (add_output socket_opened (set_signal_status (attempt_status c.retry) c)) {
  has_socket = true;
}

-- The constructor, with the options that it has after the defaults are filled in.
unfoldable pub new_client : SignalingOptions → SignalingClient
unfolding connect
new_client opts = connect (record {
  opts = opts;
  is_closed = false;
  has_socket = false;
  retry = 0;
  timers = 0;
  status = connecting;
  out = [];
})

-- `ready` tells whether the socket is open.
unfoldable pub send_signal : Bool → OutboundEnvelope → SignalingClient → SignalingClient
unfolding add_output
send_signal ready env c =
    if c.has_socket then if ready then add_output (message_sent env) c else c else c

unfoldable pub on_socket_open : SignalingClient → SignalingClient
unfolding set_signal_status send_signal
on_socket_open c =
    send_signal true (hello c.opts.role) (set_signal_status opened (record c { retry = 0 }))

-- `2 ** n`
unfoldable pub power_of_two : ℕ → ℕ
power_of_two zero = 1
power_of_two (suc n) = 2 * power_of_two n

unfoldable pub delay_of : SignalingOptions → ℕ → ℕ
unfolding power_of_two
delay_of opts n =
    let delay = opts.backoff_base * power_of_two n in
    if leb delay opts.backoff_max then delay else opts.backoff_max

unfoldable pub on_socket_close : SignalingClient → SignalingClient
unfolding set_signal_status delay_of
on_socket_close c =
    if c.is_closed
    then c
    else (let lost = set_signal_status reconnecting c in
        let counted = record lost { retry = c.retry + 1 } in
        if c.opts.reconnect
        then add_output (timer_set (delay_of c.opts c.retry))
            (record counted { timers = c.timers + 1 })
        else set_signal_status closed counted)

unfoldable pub close_client : SignalingClient → SignalingClient
unfolding set_signal_status add_output
close_client c =
    let done = record c { is_closed = true } in
    set_signal_status closed (
      if c.has_socket
      then record (add_output socket_closed (add_output (message_sent bye) done)) {
        has_socket = false;
      }
      else done)

-- The callback of `setTimeout`, for a timer that was set.
unfoldable pub on_timer : SignalingClient → SignalingClient
unfolding connect
on_timer c = elim c.timers [ zero ↦ c | suc n ↦ connect (record c { timers = n }) ]
