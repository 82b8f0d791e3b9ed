-- ===== src/Signaling/Backoff.antt =====
-- frontend/p2p/signaling.ts: how long the client waits.
use fakeartist.Prelude.{
  ℕ, zero, suc, ◌+◌, ◌*◌, ◌≤◌, leb, subst, ◌≡◌, refl, ap, ap₂, sym, ◌∙◌, List, [], ◌∷◌, ◌++◌, true,
  false, if◌then◌else◌, arith, All,
}
use mathlib.Core.List.{append_assoc, append-nil}
use fakeartist.Signaling.{
  SignalOutput, status_changed, socket_opened, socket_closed, message_sent, timer_set,
  SignalingOptions, SignalingClient, SignalStatus, reconnecting, closed, attempt_status,
  set_signal_status, add_output, connect, on_socket_close, on_timer, delay_of, power_of_two,
}

-- The delays of the timers.
abbrev pub delays : List SignalOutput → List ℕ
delays [] = []
delays (timer_set d ∷ os) = d ∷ delays os
delays (_ ∷ os) = delays os

-- `n` attempts fail in a row: each socket closes before it opens, and the timer opens the next one.
unfoldable pub fail_times : ℕ → SignalingClient → SignalingClient
fail_times zero c = c
fail_times (suc n) c = fail_times n (on_timer (on_socket_close c))

-- `b` doubled `r` times.
abbrev pub doubled : ℕ → ℕ → ℕ
doubled b zero = b
doubled b (suc r) = doubled b r + doubled b r

abbrev pub capped : ℕ → ℕ → ℕ
capped top d = if leb d top then d else top

-- `n` delays, the first of them `d` and each of the others the double of the one before it, none of
-- them above `top`.
abbrev pub backoff_delays : ℕ → ℕ → ℕ → List ℕ
backoff_delays top d zero = []
backoff_delays top d (suc n) = capped top d ∷ backoff_delays top (d + d) n

times_power : (b r : ℕ) → b * power_of_two r ≡ doubled b r
unfolding power_of_two
times_power b zero = omega arith
times_power b (suc r) = omega (arith, times_power b r)

delay_of-capped :
    (opts : SignalingOptions) (r : ℕ)
    → delay_of opts r ≡ capped opts.backoff_max (doubled opts.backoff_base r)
unfolding delay_of
delay_of-capped opts r = rw (times_power opts.backoff_base r) refl

delays-append : (os ps : List SignalOutput) → delays (os ++ ps) ≡ delays os ++ delays ps
delays-append [] ps = refl
delays-append (timer_set d ∷ os) ps = ap (d ∷◌) (delays-append os ps)
delays-append (status_changed s ∷ os) ps = delays-append os ps
delays-append (socket_opened ∷ os) ps = delays-append os ps
delays-append (socket_closed ∷ os) ps = delays-append os ps
delays-append (message_sent e ∷ os) ps = delays-append os ps

set_signal_status-kept :
    (s : SignalStatus) (c : SignalingClient)
    → (delays (set_signal_status s c).out ≡ delays c.out)
      × ((set_signal_status s c).opts ≡ c.opts)
      × ((set_signal_status s c).is_closed ≡ c.is_closed)
      × ((set_signal_status s c).retry ≡ c.retry)
unfolding set_signal_status
set_signal_status-kept s c =
    ground (arith, delays-append c.out (status_changed s ∷ []), append-nil (delays c.out))

backoff_delays-bounded : (top d n : ℕ) → All (λ k. k ≤ top) (backoff_delays top d n)
backoff_delays-bounded top d zero = tt
backoff_delays-bounded top d (suc n) = (ground arith, backoff_delays-bounded top (d + d) n)

-- What `connect` leaves alone, and the delays, which it does not add to.
Same : SignalingClient → SignalingClient → Type 0
Same c d =
    (delays d.out ≡ delays c.out)
    × (d.opts ≡ c.opts)
    × (d.is_closed ≡ c.is_closed)
    × (d.retry ≡ c.retry)

connect-Same : (c : SignalingClient) → Same c (connect c)
unfolding connect add_output Same
connect-Same c =
    let s = set_signal_status-kept (attempt_status c.retry) c in
    let t = set_signal_status (attempt_status c.retry) c in
    (delays-append t.out (socket_opened ∷ []) ∙ append-nil (delays t.out) ∙ s.0, s.1, s.2, s.3)

-- What a lost socket leaves behind, for a client that was not closed and may reconnect.
record IsLost (c d : SignalingClient) : Type 0 where
  waits : delays d.out ≡ delays c.out ++ delay_of c.opts c.retry ∷ []
  opts : d.opts ≡ c.opts
  is_closed : d.is_closed ≡ false
  retry : d.retry ≡ c.retry + 1

on_socket_close-IsLost :
    (c : SignalingClient)
    → c.is_closed ≡ false
    → c.opts.reconnect ≡ true
    → IsLost c (on_socket_close c) × ((on_socket_close c).timers ≡ c.timers + 1)
unfolding on_socket_close add_output
on_socket_close-IsLost c h k =
    let s = set_signal_status-kept reconnecting c in
    (
      subst (IsLost c) (sym same) (record {
        waits =
            delays-append lost.out (timer_set (delay_of c.opts c.retry) ∷ [])
            ∙ ap (λ ds. ds ++ delay_of c.opts c.retry ∷ []) s.0;
        opts = s.1;
        is_closed = s.2 ∙ h;
        retry = refl;
      }),
      ap (λ (d : SignalingClient). d.timers) same,
    )
  where
    lost : SignalingClient
    lost = set_signal_status reconnecting c

    waiting : SignalingClient
    waiting = record lost {
      retry = c.retry + 1;
      timers = c.timers + 1;
      out = lost.out ++ timer_set (delay_of c.opts c.retry) ∷ [];
    }

    stopped : SignalingClient
    stopped = set_signal_status closed (record lost { retry = c.retry + 1 })

    same : on_socket_close c ≡ waiting
    same =
        ap (λ b. if b then c else if c.opts.reconnect then waiting else stopped) h
        ∙ ap (λ b. if b then waiting else stopped) k

timer_run :
    (d : SignalingClient) (n : ℕ)
    → d.timers ≡ suc n
    → on_timer d ≡ connect (record d { timers = n })
unfolding on_timer
timer_run d n e = rw e refl

attempt_failed :
    (c : SignalingClient)
    → c.is_closed ≡ false
    → c.opts.reconnect ≡ true
    → IsLost c (on_timer (on_socket_close c))
unfolding Same
attempt_failed c h k =
    let lost = on_socket_close c in
    let (l, t) = on_socket_close-IsLost c h k in
    let s = connect-Same (record lost { timers = c.timers }) in
    subst (IsLost c) (sym (timer_run lost c.timers (t ∙ omega arith))) (record {
      waits = s.0 ∙ l.waits;
      opts = s.1 ∙ l.opts;
      is_closed = s.2 ∙ l.is_closed;
      retry = s.3 ∙ l.retry;
    })

fail_times-all :
    (n : ℕ) (c : SignalingClient)
    → c.is_closed ≡ false
    → c.opts.reconnect ≡ true
    → delays (fail_times n c).out
      ≡ delays c.out ++ backoff_delays c.opts.backoff_max (doubled c.opts.backoff_base c.retry) n
unfolding fail_times
fail_times-all zero c h k = sym (append-nil (delays c.out))
fail_times-all (suc n) c h k =
    let d = attempt_failed c h k in
    let next : SignalingOptions → ℕ → List ℕ =
      λ o r. backoff_delays o.backoff_max (doubled o.backoff_base r) n in
    let later : (on_timer (on_socket_close c)).retry ≡ suc c.retry = omega (arith, d.retry) in
    fail_times-all n (on_timer (on_socket_close c)) d.is_closed
      (ap (λ (o : SignalingOptions). o.reconnect) d.opts ∙ k)
    ∙ ap₂ (λ ds es. ds ++ es)
        (d.waits ∙ ap (λ w. delays c.out ++ w ∷ []) (delay_of-capped c.opts c.retry))
        (ap₂ next d.opts later)
    ∙ append_assoc (delays c.out)
        (capped c.opts.backoff_max (doubled c.opts.backoff_base c.retry) ∷ [])
        (next c.opts (suc c.retry))

-- A client that is not closed and may reconnect waits, through any number of failed attempts in a
-- row, first the base delay doubled once for each earlier failure, then each time the double, and
-- never more than the maximum.
pub fail_times-delays :
    (n : ℕ) (c : SignalingClient)
    → c.is_closed ≡ false
    → c.opts.reconnect ≡ true
    → let waits = backoff_delays c.opts.backoff_max (doubled c.opts.backoff_base c.retry) n in
      (delays (fail_times n c).out ≡ delays c.out ++ waits)
      × All (λ d. d ≤ c.opts.backoff_max) waits
fail_times-delays n c h k = (
  fail_times-all n c h k,
  backoff_delays-bounded c.opts.backoff_max (doubled c.opts.backoff_base c.retry) n,
)
