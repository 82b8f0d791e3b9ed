-- ===== src/Replica/CatchUp.antt =====
-- frontend/p2p/replica.ts, `applyFrame` and `requestSync`: a replica that has missed strokes.
use fakeartist.Prelude.{
  ℕ, ◌+◌, List, [], ◌∷◌, true, false, Option, none, some, ltb, nat_eq, if◌then◌else◌,
}
use fakeartist.Models.{GameState}
use fakeartist.Protocol.{Envelope, IndexedStrokeFrame}
use fakeartist.Replica.{
  Replica, Expected, sync_asked, notify, deliver_stroke, drain_pending, apply_state, round_of,
}

-- The loop over the strokes of a SYNC_RES, with the floor's index.
unfoldable pub deliver_frames : List IndexedStrokeFrame → ℕ → Replica → Replica × ℕ
unfolding deliver_stroke
deliver_frames [] idx v = (v, idx)
deliver_frames (f ∷ fs) idx v =
    let skipped = deliver_frames fs idx v in
    let sent = deliver_frames fs (f.stroke_index + 1) (deliver_stroke f.stroke f.stroke_index v) in
    if ltb f.stroke_index idx then skipped else sent

-- The floor and the buffer that `applyFrame` begins with.
unfoldable pub begin_sync : ℕ → Replica → Replica
begin_sync round v =
    let fresh = record v {
      expected_next = some (record { round = round; idx = 0 });
      pending = [];
    } in
    elim v.expected_next [ none ↦ fresh | some x ↦ if nat_eq x.round round then v else fresh ]

abbrev pub idx_of : Option Expected → ℕ
idx_of none = 0
idx_of (some x) = x.idx

-- Up to the first `drainPending`: the strokes are delivered and the floor is moved.
unfoldable pub deliver_sync : GameState → List IndexedStrokeFrame → Replica → Replica
deliver_sync s frames v =
    let round = round_of (some s) v.expected_next in
    let begun = begin_sync round v in
    let (sent, idx) = deliver_frames frames (idx_of begun.expected_next) begun in
    record sent { expected_next = some (record { round = round; idx = idx }) }

unfoldable pub apply_sync : GameState → List IndexedStrokeFrame → Replica → Replica
apply_sync s frames v =
    let applied = apply_state s (drain_pending (deliver_sync s frames v)) in
    drain_pending (record applied { sync_in_flight = false })

-- Frames of other kinds are ignored.
unfoldable pub apply_frame : Envelope → Replica → Replica
apply_frame (Envelope.sync_res s version frames) v = apply_sync s frames v
apply_frame _ v = v

unfoldable pub request_sync : Replica → Replica
unfolding notify
request_sync v =
    if v.has_hook
    then if v.sync_in_flight
      then v
      else notify (sync_asked (round_of v.state none) (idx_of v.expected_next))
          (record v { sync_in_flight = true })
    else v
