-- ===== src/HostBridge/Sync.antt =====
-- frontend/p2p/hostBridge.ts and replica.ts: a guest that has missed strokes catches up.
use fakeartist.Prelude.{
  ℕ, zero, suc, ◌+◌, ◌≤◌, ◌≡◌, refl, ap, sym, subst, ◌∙◌, List, [], ◌∷◌, ◌++◌, false, Option, some,
  ltb, drop, length, arith,
}
use mathlib.Core.List.{append-nil, append_assoc}
use fakeartist.Models.{Round, GameState, Stroke}
use fakeartist.Protocol.{IndexedStrokeFrame}
use fakeartist.HostBridge.{frames_from, frames_of_round}
use fakeartist.Replica.{Replica, Expected, deliver_stroke, drain_pending, apply_state, round_of}
use fakeartist.Replica.CatchUp.{deliver_frames, begin_sync, deliver_sync, apply_sync, idx_of}
use fakeartist.Replica.Order.{given, given-append, numbered}
use fakeartist.Replica.Drain.{drain_pending-empty, apply_state-floor}

not_below_self : (i : ℕ) → ltb i i ≡ false
not_below_self i = ground arith

given-deliver_stroke :
    (s : Stroke) (i : ℕ) (v : Replica)
    → given (deliver_stroke s i v).out ≡ given v.out ++ (s, i + 1) ∷ []
unfolding deliver_stroke
given-deliver_stroke s i v = given-append v.out _

deliver_frames-frames_from :
    (round i : ℕ) (ss : List Stroke) (v : Replica)
    → (given (deliver_frames (frames_from round i ss) i v).0.out ≡ given v.out ++ numbered i ss)
      × ((deliver_frames (frames_from round i ss) i v).1 ≡ i + length ss)
unfolding deliver_frames frames_from
deliver_frames-frames_from round i [] v = (sym (append-nil _), omega arith)
deliver_frames-frames_from round i (s ∷ ss) v =
    let later = deliver_frames-frames_from round (i + 1) ss (deliver_stroke s i v) in
    rw (not_below_self i) (
      later.0
          ∙ ap (λ os. os ++ numbered (i + 1) ss) (given-deliver_stroke s i v)
          ∙ append_assoc (given v.out) ((s, i + 1) ∷ []) (numbered (i + 1) ss),
      omega (arith, later.1),
    )

deliver_frames-pending :
    (fs : List IndexedStrokeFrame) (i : ℕ) (v : Replica)
    → (deliver_frames fs i v).0.pending ≡ v.pending
unfolding deliver_frames
deliver_frames-pending [] i v = refl
deliver_frames-pending (f ∷ fs) i v = ground (
  arith,
  deliver_frames-pending fs i v,
  deliver_frames-pending fs (f.stroke_index + 1) (deliver_stroke f.stroke f.stroke_index v),
)

length-drop : (n : ℕ) (ss : List Stroke) → n ≤ length ss → n + length (drop n ss) ≡ length ss
length-drop zero ss h = omega arith
length-drop (suc n) [] h = omega arith
length-drop (suc n) (s ∷ ss) h = omega (arith, length-drop n ss)

frames_of_round-now :
    (o : Option Round) (r : Round) (from : ℕ)
    → o ≡ some r
    → frames_of_round r.index from o ≡ frames_from r.index from (drop from r.strokes)
unfolding frames_of_round
frames_of_round-now o r from h = ground arith

begin_sync-same :
    (round : ℕ) (x : Expected) (v : Replica)
    → v.expected_next ≡ some x
    → x.round ≡ round
    → begin_sync round v ≡ v
unfolding begin_sync
begin_sync-same round x v e k = ground arith

round_of-now :
    (s : GameState) (r : Round) (x : Option Expected)
    → s.current_round ≡ some r
    → round_of (some s) x ≡ r.index
round_of-now s r x h = ground arith

deliver_sync-frames_of_round :
    (s : GameState) (r : Round) (from : ℕ) (v : Replica)
    → s.current_round ≡ some r
    → r.stroke_index ≡ length r.strokes
    → from ≤ length r.strokes
    → v.expected_next ≡ some (record { round = r.index; idx = from })
    → v.pending ≡ []
    → let w = deliver_sync s (frames_of_round r.index from s.current_round) v in
      (given w.out ≡ given v.out ++ numbered from (drop from r.strokes))
      × (w.expected_next ≡ some (record { round = r.index; idx = r.stroke_index }))
      × (w.pending ≡ [])
unfolding deliver_sync
deliver_sync-frames_of_round s r from v h c l e p =
    subst
      (λ (w : Replica).
        (given w.out ≡ given v.out ++ numbered from (drop from r.strokes))
        × (w.expected_next ≡ some (record { round = r.index; idx = r.stroke_index }))
        × (w.pending ≡ []))
      (sym same)
      (
        sent.0,
        ap (λ n. some (record { round = r.index; idx = n })) (sent.1 ∙ all),
        deliver_frames-pending frames from v ∙ p,
      )
  where
    frames : List IndexedStrokeFrame
    frames = frames_from r.index from (drop from r.strokes)

    rest : ℕ → List IndexedStrokeFrame → ℕ → Replica → Replica
    rest round fs i b = record (deliver_frames fs i b).0 {
      expected_next = some (record { round = round; idx = (deliver_frames fs i b).1 });
    }

    begun : begin_sync (round_of (some s) v.expected_next) v ≡ v
    begun =
        begin_sync-same (round_of (some s) v.expected_next) (record { round = r.index; idx = from })
          v e (sym (round_of-now s r v.expected_next h))

    same :
        deliver_sync s (frames_of_round r.index from s.current_round) v ≡ rest r.index frames from v
    same =
        ap
          (λ b.
            rest (round_of (some s) v.expected_next) (frames_of_round r.index from s.current_round)
              (idx_of b.expected_next) b)
          begun
        ∙ ap
            (λ i.
              rest (round_of (some s) v.expected_next)
                (frames_of_round r.index from s.current_round) i v)
            (ap idx_of e)
        ∙ ap (λ n. rest n (frames_of_round r.index from s.current_round) from v)
            (round_of-now s r v.expected_next h)
        ∙ ap (λ fs. rest r.index fs from v) (frames_of_round-now s.current_round r from h)

    sent :
        (given (deliver_frames frames from v).0.out
          ≡ given v.out ++ numbered from (drop from r.strokes))
        × ((deliver_frames frames from v).1 ≡ from + length (drop from r.strokes))
    sent = deliver_frames-frames_from r.index from (drop from r.strokes) v

    all : from + length (drop from r.strokes) ≡ r.stroke_index
    all = length-drop from r.strokes l ∙ sym c

-- A guest with an empty buffer that waits for stroke `from` of the host's round, at most the
-- number of its strokes, and gets the host's answer from memory: it is given the strokes of the
-- round from that one on, each with its number, in order and once, its floor moves to the host's
-- index, and no request is in flight.
pub apply_sync-frames_of_round :
    (s : GameState) (r : Round) (from : ℕ) (v : Replica)
    → s.current_round ≡ some r
    → r.stroke_index ≡ length r.strokes
    → from ≤ length r.strokes
    → v.expected_next ≡ some (record { round = r.index; idx = from })
    → v.pending ≡ []
    → let w = apply_sync s (frames_of_round r.index from s.current_round) v in
      (given w.out ≡ given v.out ++ numbered from (drop from r.strokes))
      × (w.expected_next ≡ some (record { round = r.index; idx = r.stroke_index }))
      × (w.sync_in_flight ≡ false)
unfolding apply_sync
apply_sync-frames_of_round s r from v h c l e p =
    let y : Expected = record { round = r.index; idx = r.stroke_index } in
    let m = deliver_sync s (frames_of_round r.index from s.current_round) v in
    let moved = deliver_sync-frames_of_round s r from v h c l e p in
    let d = drain_pending-empty m y moved.1 moved.2 in
    let a = apply_state-floor s r y (drain_pending m) h d.0 refl refl in
    let f =
      drain_pending-empty (record (apply_state s (drain_pending m)) { sync_in_flight = false }) y
        a.0 (a.1 ∙ d.1) in
    (ap given f.2 ∙ a.2 ∙ ap given d.2 ∙ moved.0, f.0, f.3)
