-- ===== src/PeerHub/Closing.antt =====
-- frontend/p2p/peerHub.ts, `onconnectionstatechange` and `closePeer`: a connection that is lost.
use fakeartist.Prelude.{
  List, [], ◌∷◌, true, not, none, Str, ◌≡◌, refl, keep_if, Bool-cases, Option-cases, inl, inr,
}
use fakeartist.Protocol.{Envelope}
use fakeartist.PeerHub.{
  PeerEntry, PeerHub, is_peer, find_peer, close_peer, send, ConnectionState, is_lost,
  on_connection_state,
}

find_peer-kept :
    (id : Str) (ps : List PeerEntry) → find_peer id (keep_if (λ q. not (is_peer id q)) ps) ≡ none
unfolding find_peer
find_peer-kept id [] = refl
find_peer-kept id (p ∷ ps) = elim (Bool-cases (is_peer id p)) [
  | inl t ↦ rw t (find_peer-kept id ps)
  | inr t ↦ rw (t, t) (find_peer-kept id ps)
]

close_peer-gone : (id : Str) (h : PeerHub) → find_peer id (close_peer id h).peers ≡ none
unfolding close_peer
close_peer-gone id h = elim (Option-cases (find_peer id h.peers)) [
  | inl n ↦ rw (close_peer, n) n
  | inr (p, e) ↦ rw (close_peer, e) (find_peer-kept id h.peers)
]

close_peer-absent : (id : Str) (h : PeerHub) → find_peer id h.peers ≡ none → close_peer id h ≡ h
unfolding close_peer
close_peer-absent id h n = rw (close_peer, n) refl

send-absent :
    (id : Str) (env : Envelope) (h : PeerHub) → find_peer id h.peers ≡ none → send id env h ≡ h
unfolding send
send-absent id env h n = rw (send, n) refl

on_connection_state-absent :
    (id : Str) (t : ConnectionState) (h : PeerHub)
    → find_peer id h.peers ≡ none
    → on_connection_state id t h ≡ h
unfolding on_connection_state
on_connection_state-absent id t h n = elim (Bool-cases (is_lost t)) [
  | inl l ↦ rw l (close_peer-absent id h n)
  | inr l ↦ rw l refl
]

-- When a connection is lost, what its state does next changes nothing: the listeners hear of the loss
-- once, and nothing is sent to the peer any more.
pub on_connection_state-lost :
    (id : Str) (s t : ConnectionState) (env : Envelope) (h : PeerHub)
    → is_lost s ≡ true
    → (let gone = on_connection_state id s h in
        (on_connection_state id t gone ≡ gone) × (send id env gone ≡ gone))
unfolding on_connection_state
on_connection_state-lost id s t env h l =
    let gone : find_peer id (on_connection_state id s h).peers ≡ none =
      rw l (close_peer-gone id h) in
    (
      on_connection_state-absent id t (on_connection_state id s h) gone,
      send-absent id env (on_connection_state id s h) gone,
    )
