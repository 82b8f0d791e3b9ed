-- ===== src/Transport/Wire.antt =====
-- frontend/p2p/transport.ts: what the wire keeps.
use fakeartist.Prelude.{
  ℕ, ◌+◌, ◌≡◌, refl, sym, ◌∙◌, List, [], ◌∷◌, ◌++◌, map, Bool, true, false, Option, none, some, Str,
  if◌then◌else◌, arith,
}
use mathlib.Core.List.{append_assoc, append-nil, map-append}
use fakeartist.Protocol.{ClientCommand, ServerEvent, Envelope}
use fakeartist.Engine.State.{Output}
use fakeartist.Transport.{
  env_to_event, event_to_env, Call, handled, Loopback, is_for, loopback_hear, loopback_hear_all,
  Rtc, rtc_send,
}

-- Every event of the engine has a frame, and the other side reads the same event out of it.
pub env_to_event-event_to_env :
    (evt : ServerEvent) (version round : Option ℕ)
    → (env : Envelope) × (event_to_env evt version round ≡ some env) × (env_to_event env ≡ some evt)
unfolding env_to_event event_to_env
env_to_event-event_to_env (ServerEvent.state_update s) version round = (_, refl, refl)
env_to_event-event_to_env (ServerEvent.stroke_added s n) version round = (_, refl, refl)
env_to_event-event_to_env (ServerEvent.your_role p) version round = (_, refl, refl)
env_to_event-event_to_env (ServerEvent.player_welcome id) version round = (_, refl, refl)
env_to_event-event_to_env (ServerEvent.error m) version round = (_, refl, refl)

-- The events for one player, among what the engine emits.
pub events_for : Str → List Output → List ServerEvent
events_for self [] = []
events_for self (o ∷ os) = elim (is_for self o) [
  | none ↦ events_for self os
  | some evt ↦ evt ∷ events_for self os
]

-- One handler's calls, in order.
abbrev pub heard_by : ℕ → List ServerEvent → List Call
heard_by h = map (handled h)

hear_one :
    (h : ℕ) (o : Output) (t : Loopback)
    → t.attached ≡ true
    → t.listeners ≡ h ∷ []
    → (loopback_hear o t).out ≡ t.out ++ heard_by h (events_for t.self_id (o ∷ []))
unfolding loopback_hear events_for
hear_one h o t a l = ground (arith, append-nil t.out)

hear_kept :
    (o : Output) (t : Loopback)
    → ((loopback_hear o t).self_id ≡ t.self_id)
      × ((loopback_hear o t).attached ≡ t.attached)
      × ((loopback_hear o t).listeners ≡ t.listeners)
unfolding loopback_hear
hear_kept o t = ground arith

events_for-cons :
    (self : Str) (o : Output) (os : List Output)
    → events_for self (o ∷ os) ≡ events_for self (o ∷ []) ++ events_for self os
unfolding events_for
events_for-cons self o os = ground arith

-- A single handler of an attached loopback gets the broadcasts and the direct events for its own
-- player, each once and in order, and no others.
pub loopback_hear_all-events_for :
    (h : ℕ) (os : List Output) (t : Loopback)
    → t.attached ≡ true
    → t.listeners ≡ h ∷ []
    → (loopback_hear_all os t).out ≡ t.out ++ heard_by h (events_for t.self_id os)
unfolding loopback_hear_all
loopback_hear_all-events_for h [] t a l = unfold events_for in sym (append-nil t.out)
loopback_hear_all-events_for h (o ∷ os) t a l =
    let k = hear_kept o t in
    loopback_hear_all-events_for h os (loopback_hear o t) (k.1 ∙ a) (k.2 ∙ l)
    ∙ rw (hear_one h o t a l, k.0, events_for-cons t.self_id o os, map-append)
        (append_assoc t.out _ _)

-- The commands that are sent while the channel is open, and the frames they become.
abbrev pub numbered : ℕ → List ClientCommand → List Envelope
numbered n [] = []
numbered n (c ∷ cs) = Envelope.cmd (n + 1) c none ∷ numbered (n + 1) cs

abbrev pub opened_only : List (Bool × ClientCommand) → List ClientCommand
opened_only [] = []
opened_only ((ready, c) ∷ cs) = if ready then c ∷ opened_only cs else opened_only cs

pub rtc_send_all : List (Bool × ClientCommand) → Rtc → Rtc
rtc_send_all [] t = t
rtc_send_all ((ready, c) ∷ cs) t = rtc_send_all cs (rtc_send ready c t)

-- Commands leave in order and numbered without gaps; one that meets a channel that is not open is
-- dropped and takes no number.
pub rtc_send_all-numbered :
    (cs : List (Bool × ClientCommand)) (t : Rtc)
    → (rtc_send_all cs t).sent ≡ t.sent ++ numbered t.seq (opened_only cs)
unfolding rtc_send_all rtc_send
rtc_send_all-numbered [] t = sym (append-nil t.sent)
rtc_send_all-numbered ((false, c) ∷ cs) t = rtc_send_all-numbered cs t
rtc_send_all-numbered ((true, c) ∷ cs) t = rtc_send_all-numbered cs _ ∙ append_assoc t.sent _ _
