-- ===== src/Signaling/Closing.antt =====
-- frontend/p2p/signaling.ts, `close`: a timer that was set before still runs.
use fakeartist.Prelude.{
  ℕ, suc, ◌+◌, false, ◌≡◌, refl, ◌∙◌, true, nat_eq, arith, Bool-cases, inl, inr,
}
use fakeartist.Signaling.{
  SignalingClient, SignalStatus, connecting, opened, closed, reconnecting, on_socket_close, connect,
  close_client, on_socket_open, on_timer, set_signal_status, status_number, send_signal, add_output,
  attempt_status,
}

same_status : (s t : SignalStatus) → nat_eq (status_number s) (status_number t) ≡ true → s ≡ t
unfolding status_number
same_status connecting connecting h = refl
same_status opened opened h = refl
same_status closed closed h = refl
same_status reconnecting reconnecting h = refl
same_status _ _ h = cc

set_signal_status-sets :
    (s : SignalStatus) (c : SignalingClient)
    → ((set_signal_status s c).status ≡ s)
      × ((set_signal_status s c).is_closed ≡ c.is_closed)
      × ((set_signal_status s c).has_socket ≡ c.has_socket)
unfolding set_signal_status
set_signal_status-sets s c = elim (Bool-cases (nat_eq (status_number c.status) (status_number s))) [
  | inl t ↦ rw t (same_status c.status s t, refl, refl)
  | inr t ↦ rw t (refl, refl, refl)
]

close_client-closed : (c : SignalingClient) → (close_client c).is_closed ≡ true
unfolding close_client add_output
close_client-closed c = grind (arith, set_signal_status-sets)

connect-socket :
    (c : SignalingClient) → ((connect c).has_socket ≡ true) × ((connect c).is_closed ≡ c.is_closed)
unfolding connect add_output
connect-socket c = (refl, (set_signal_status-sets (attempt_status c.retry) c).1)

on_socket_open-opened :
    (c : SignalingClient)
    → c.has_socket ≡ true
    → ((on_socket_open c).status ≡ opened)
      × ((on_socket_open c).has_socket ≡ true)
      × ((on_socket_open c).is_closed ≡ c.is_closed)
unfolding on_socket_open send_signal add_output
on_socket_open-opened c h = ground (arith, set_signal_status-sets opened (record c { retry = 0 }))

lost-timers :
    (c : SignalingClient)
    → c.is_closed ≡ false
    → c.opts.reconnect ≡ true
    → (on_socket_close c).timers ≡ c.timers + 1
unfolding on_socket_close add_output
lost-timers c h k = rw (h, k) refl

close_client-timers : (c : SignalingClient) → (close_client c).timers ≡ c.timers
unfolding close_client add_output set_signal_status
close_client-timers c = ground arith

timer_run :
    (d : SignalingClient) (n : ℕ)
    → d.timers ≡ suc n
    → ((on_timer d).has_socket ≡ true) × ((on_timer d).is_closed ≡ d.is_closed)
unfolding on_timer
timer_run d n e = rw e (connect-socket (record d { timers = n }))

-- When a client that is not closed, may reconnect and has no timer running loses its socket and
-- is then closed, its timer still runs, and after the timer and the opening of the new socket the
-- closed client has an open socket.
pub on_socket_open-close_client :
    (c : SignalingClient)
    → c.is_closed ≡ false
    → c.opts.reconnect ≡ true
    → c.timers ≡ 0
    → let d = on_socket_open (on_timer (close_client (on_socket_close c))) in
      (d.is_closed ≡ true) × (d.has_socket ≡ true) × (d.status ≡ opened)
on_socket_open-close_client c h k z =
    let lost = close_client (on_socket_close c) in
    let set : lost.timers ≡ 1 =
      close_client-timers (on_socket_close c) ∙ lost-timers c h k ∙ omega (arith, z) in
    let s = timer_run lost 0 set in
    let o = on_socket_open-opened (on_timer lost) s.0 in
    (o.2 ∙ s.1 ∙ close_client-closed (on_socket_close c), o.1, o.0)
