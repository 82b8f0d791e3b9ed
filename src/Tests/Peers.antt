-- ===== src/Tests/Peers.antt =====
-- frontend/p2p/peerHub.ts and signaling.ts: small inputs.
use fakeartist.Prelude.{
  ◌≤◌, ◌≡◌, refl, [], ◌∷◌, ◌++◌, true, false, some, codes, All, arith, str_discrete, ℕ_discrete,
}
use fakeartist.PeerHub.{
  PeerHub, PeerEntry, find_peer, add_remote_ice, connect_to, new_hub, on_connection_state,
  disconnected, failed, send_offer, closed_connection, peer_closed,
}
use fakeartist.PeerHub.Candidates.{candidates_of, add_remote_ice-candidates}
use fakeartist.Signaling.{SignalingOptions, guest, new_client, delay_of}
use fakeartist.Signaling.{on_timer, close_client, on_socket_close, on_socket_open, opened}
use fakeartist.Signaling.Closing.{on_socket_open-close_client}
use fakeartist.Signaling.Backoff.{delays, fail_times, backoff_delays, fail_times-delays}
use fakeartist.Tests.Data.{ann, bob}

abbrev early : PeerEntry
early = record {
  peer_id = bob;
  channel = some false;
  pending_ice = codes "a" ∷ codes "b" ∷ [];
  remote_set = false;
}

-- A host that waits for bob's answer and has two of his candidates.
abbrev hub : PeerHub
hub = record { peers = early ∷ []; out = [] }

not_set :
    (p : PeerEntry) → find_peer bob hub.peers ≡ some p → p.remote_set ≡ true → p.pending_ice ≡ []
unfolding find_peer str_discrete ℕ_discrete
not_set p e t = ground arith

add_remote_ice-candidates_example :
    candidates_of bob (add_remote_ice bob (codes "c") hub) ≡ candidates_of bob hub ++ codes "c" ∷ []
add_remote_ice-candidates_example = add_remote_ice-candidates bob (codes "c") hub not_set

found : find_peer bob hub.peers ≡ some early
unfolding find_peer str_discrete ℕ_discrete
found = refl

abbrev options : SignalingOptions
options = record { role = guest; reconnect = true; backoff_base = 500; backoff_max = 8000 }

fail_times-delays_example :
    (delays (fail_times 6 (new_client options)).out
      ≡ delays (new_client options).out ++ backoff_delays 8000 500 6)
    × All (λ d. d ≤ 8000) (backoff_delays 8000 500 6)
unfolding new_client
fail_times-delays_example = fail_times-delays 6 (new_client options) refl refl

backoff_delays_lem : backoff_delays 8000 500 6 ≡ 500 ∷ 1000 ∷ 2000 ∷ 4000 ∷ 8000 ∷ 8000 ∷ []
unfolding delay_of
backoff_delays_lem = refl

on_socket_open-close_client_example :
    let d = on_socket_open (on_timer (close_client (on_socket_close (new_client options)))) in
    (d.is_closed ≡ true) × (d.has_socket ≡ true) × (d.status ≡ opened)
unfolding new_client
on_socket_open-close_client_example =
    on_socket_open-close_client (new_client options) refl refl refl

abbrev two_hub : PeerHub
two_hub = connect_to ann (codes "o") (connect_to bob (codes "o") new_hub)

on_connection_state_lem :
    (on_connection_state bob failed (on_connection_state bob disconnected two_hub)).out
    ≡ send_offer bob (codes "o")
      ∷ send_offer ann (codes "o")
      ∷ closed_connection bob
      ∷ peer_closed bob
      ∷ []
unfolding on_connection_state connect_to new_hub str_discrete ℕ_discrete
on_connection_state_lem = refl
