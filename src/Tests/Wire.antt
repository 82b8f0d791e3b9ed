-- ===== src/Tests/Wire.antt =====
-- frontend/p2p/hostBridge.ts, transport.ts and replica.ts: frames between a host and a guest.
use fakeartist.Prelude.{◌≡◌, refl, [], ◌∷◌, true, false, none, some, arith}
use fakeartist.Models.{drawing, GameState, Round}
use fakeartist.Protocol.{next_round, Envelope}
use fakeartist.Prelude.Sort.{sort_by}
use fakeartist.Replica.{
  Replica, new_replica, apply_stroke, place_stroke, deliver_next, buffer_stroke, deliver_stroke,
  drain_pending, drain_loop, request_sync_if_needed,
}
use fakeartist.Replica.CatchUp.{apply_sync}
use fakeartist.Replica.Order.{Advances, given, apply_strokes, apply_strokes-Advances, deliveries}
use fakeartist.Transport.{Loopback, Rtc, new_loopback, new_rtc, loopback_on_event}
use fakeartist.HostBridge.{serve_sync_req, frames_of_round}
use fakeartist.Transport.{without}
use fakeartist.HostBridge.Wiring.{
  Listeners, open_bridge, close_bridge, start_checkpoint, directs, broadcasts,
}
use fakeartist.HostBridge.Wiring.Closing.{run_changes, subscribed, unsubscribed}
use fakeartist.HostBridge.Sync.{apply_sync-frames_of_round}
use fakeartist.HostBridge.Secrecy.{ArePublic, serve_sync_req-leaks}
use fakeartist.HostBridge.{handle_peer_message}
use fakeartist.HostBridge.Authority.{handle_peer_message_not_host, handle_peer_message_renames}
use fakeartist.Engine.Flow.{advancing}
use fakeartist.Engine.Rejoin.{IsBack}
use fakeartist.Engine.State.{find_player}
use fakeartist.Protocol.{JoinGamePayload, join_game}
use fakeartist.Prelude.{◌≢◌, ap, get_or, codes, str_discrete, ℕ_discrete}
use fakeartist.Tests.Data.{plain_env, player_with, ann, bob, table, round_with, stroke_of}

abbrev two_strokes : Round
two_strokes = round_with (stroke_of ann ∷ stroke_of bob ∷ []) []

abbrev shown : GameState
shown = (table drawing (some two_strokes)).state

-- A guest that has seen no stroke of the round yet.
abbrev guest : Replica
guest = record (new_replica true) { expected_next = some (record { round = 0; idx = 0 }) }

-- Bob asks during the drawing, and learns that ann is the fake.
serve_sync_req-leaks_example :
    ¬ ArePublic (serve_sync_req bob 0 0 none (table drawing (some two_strokes)))
serve_sync_req-leaks_example =
    serve_sync_req-leaks bob 0 0 none (table drawing (some two_strokes)) two_strokes ann refl refl
      (λ h. cc, λ h. cc)

-- The second stroke comes first, and the first one twice.
apply_strokes-Advances_example :
    Advances guest
      (record { round = 0; idx = 0 })
      (apply_strokes ((stroke_of bob, 2) ∷ (stroke_of ann, 1) ∷ (stroke_of ann, 1) ∷ []) guest)
apply_strokes-Advances_example =
    apply_strokes-Advances ((stroke_of bob, 2) ∷ (stroke_of ann, 1) ∷ (stroke_of ann, 1) ∷ []) guest
      (record { round = 0; idx = 0 }) refl

apply_strokes_lem :
    deliveries
      (apply_strokes ((stroke_of bob, 2) ∷ (stroke_of ann, 1) ∷ (stroke_of ann, 1) ∷ []) guest).out
    ≡ 1 ∷ 2 ∷ []
unfolding apply_strokes apply_stroke place_stroke deliver_next buffer_stroke deliver_stroke
    drain_pending drain_loop request_sync_if_needed sort_by new_replica
apply_strokes_lem = refl

-- A guest that has seen the first stroke.
abbrev late_guest : Replica
late_guest = record guest { expected_next = some (record { round = 0; idx = 1 }) }

apply_sync-frames_of_round_example :
    let w = apply_sync shown (frames_of_round 0 1 (some two_strokes)) late_guest in
    (given w.out ≡ (stroke_of bob, 2) ∷ [])
    × (w.expected_next ≡ some (record { round = 0; idx = 2 }))
    × (w.sync_in_flight ≡ false)
unfolding new_replica
apply_sync-frames_of_round_example =
    apply_sync-frames_of_round shown two_strokes 1 late_guest refl refl (omega arith) refl refl

abbrev loopback : Loopback
loopback = loopback_on_event 7 (new_loopback ann)

abbrev channel : Rtc
channel = new_rtc true none false

bob_is_no_host : bob ≢ (table drawing (some two_strokes)).state.host_id
bob_is_no_host h = let e : 98 ≡ 97 = ap (λ s. get_or s 0 0) h in omega (arith, e)

handle_peer_message_not_host_example :
    handle_peer_message plain_env bob
      (some (Envelope.cmd 1 next_round (some ann)))
      none
      (table drawing (some two_strokes))
    ≡ (table drawing (some two_strokes), [])
handle_peer_message_not_host_example =
    handle_peer_message_not_host plain_env bob 1 next_round (some ann) none
      (table drawing (some two_strokes)) advancing bob_is_no_host

abbrev as_ann : JoinGamePayload
as_ann = record { id = ann; player_name = codes "nobody"; room_code = none }

ann_found : find_player ann (table drawing (some two_strokes)) ≡ some (player_with ann 1)
unfolding find_player str_discrete ℕ_discrete
ann_found = refl

-- Bob sends a message in which he is ann.
handle_peer_message_renames_example :
    IsBack as_ann
      (player_with ann 1)
      (table drawing (some two_strokes)).state
      (handle_peer_message plain_env bob
        (some (Envelope.cmd 1 (join_game as_ann) none))
        none
        (table drawing (some two_strokes))).0.state
handle_peer_message_renames_example =
    handle_peer_message_renames plain_env bob 1 as_ann none (table drawing (some two_strokes))
      (player_with ann 1) refl ann_found

-- A guest that waits for the first stroke and has the second and the fifth.
abbrev waiting : Replica
waiting = record guest {
  pending =
      record { stroke_index = 4; stroke = stroke_of bob }
      ∷ record { stroke_index = 1; stroke = stroke_of bob }
      ∷ [];
}

abbrev listening : Listeners
listening = record { on_broadcast = 1 ∷ 2 ∷ []; on_direct = []; on_message = 3 ∷ [] }

open_bridge_lem :
    (open_bridge 7 8 9 listening).1
    ≡ record { on_broadcast = 1 ∷ 2 ∷ 7 ∷ []; on_direct = 8 ∷ []; on_message = 3 ∷ 9 ∷ [] }
unfolding open_bridge
open_bridge_lem = refl

close_bridge-run_changes_lem :
    (close_bridge (open_bridge 7 8 9 listening).0 (
      run_changes
        (subscribed directs 5 ∷ unsubscribed broadcasts 1 ∷ [])
        (open_bridge 7 8 9 listening).1)).1
    ≡ record { on_broadcast = 2 ∷ []; on_direct = 5 ∷ []; on_message = 3 ∷ [] }
unfolding open_bridge close_bridge run_changes without
close_bridge-run_changes_lem = refl

start_checkpoint_lem :
    start_checkpoint 30000 4 (record { timer = none; unsub_broadcast = none }) listening ≡ (
      record { timer = some 5000; unsub_broadcast = some 4 },
      record listening { on_broadcast = 1 ∷ 2 ∷ 4 ∷ [] },
    )
unfolding start_checkpoint
start_checkpoint_lem = refl
