-- ===== src/Replica/Drain.antt =====
-- frontend/p2p/replica.ts: an empty buffer, and a state that the floor has reached.
use fakeartist.Prelude.{
  ◌+◌, ◌≡◌, ap, sym, subst, ◌∙◌, [], Bool, true, false, Option, none, some, keep_if, leb,
  if◌then◌else◌, arith,
}
use mathlib.Core.List.{append-nil}
use fakeartist.Models.{Round, GameState}
use fakeartist.Replica.{
  Replica, Expected, Pending, drain_pending, drain_to, apply_state, enter_round, notify_change,
  Drained, drain_loop, before_or_at, clears_role,
}
use fakeartist.Prelude.Sort.{sort_by}
use fakeartist.Replica.Order.{given, given-append}

drain_to-empty :
    (v : Replica) (x : Expected)
    → v.pending ≡ []
    → ((drain_to x v).expected_next ≡ some x)
      × ((drain_to x v).pending ≡ [])
      × ((drain_to x v).out ≡ v.out)
      × ((drain_to x v).sync_in_flight ≡ v.sync_in_flight)
unfolding drain_to sort_by drain_loop
drain_to-empty v x p =
    let d = ap (λ ps. drain_loop (sort_by before_or_at ps) x.idx v) p in
    (
      ap (λ (z : Drained). some (record x { idx = z.idx })) d,
      ap (λ (z : Drained). keep_if (λ (q : Pending). leb z.idx q.stroke_index) z.rest) d,
      ap (λ (z : Drained). z.replica.out) d,
      ap (λ (z : Drained). z.replica.sync_in_flight) d,
    )

-- With an empty buffer there is nothing to drain.
pub drain_pending-empty :
    (v : Replica) (x : Expected)
    → v.expected_next ≡ some x
    → v.pending ≡ []
    → ((drain_pending v).expected_next ≡ some x)
      × ((drain_pending v).pending ≡ [])
      × ((drain_pending v).out ≡ v.out)
      × ((drain_pending v).sync_in_flight ≡ v.sync_in_flight)
unfolding drain_pending
drain_pending-empty v x h p =
    subst
      (λ (w : Replica).
        (w.expected_next ≡ some x)
        × (w.pending ≡ [])
        × (w.out ≡ v.out)
        × (w.sync_in_flight ≡ v.sync_in_flight))
      (sym same) (drain_to-empty v x p)
  where
    same : drain_pending v ≡ drain_to x v
    same = ground arith

notify_change-rest :
    (w v : Replica) (x : Expected)
    → w.expected_next ≡ some x
    → w.pending ≡ v.pending
    → w.out ≡ v.out
    → ((notify_change w).expected_next ≡ some x)
      × ((notify_change w).pending ≡ v.pending)
      × (given (notify_change w).out ≡ given v.out)
unfolding notify_change
notify_change-rest w v x h p o = (h, p, given-append w.out _ ∙ append-nil _ ∙ ap given o)

enter_round-floor :
    (o : Option Round) (r : Round) (x : Expected) (v : Replica)
    → o ≡ some r
    → v.expected_next ≡ some x
    → x.round ≡ r.index
    → x.idx ≡ r.stroke_index
    → ((enter_round o v).expected_next ≡ some x)
      × ((enter_round o v).pending ≡ v.pending)
      × ((enter_round o v).out ≡ v.out)
unfolding enter_round
enter_round-floor o r x v q e k l = ground arith

pub apply_state-floor :
    (s : GameState) (r : Round) (x : Expected) (v : Replica)
    → s.current_round ≡ some r
    → v.expected_next ≡ some x
    → x.round ≡ r.index
    → x.idx ≡ r.stroke_index
    → ((apply_state s v).expected_next ≡ some x)
      × ((apply_state s v).pending ≡ v.pending)
      × (given (apply_state s v).out ≡ given v.out)
unfolding apply_state
apply_state-floor s r x v h e k l = notified (clears_role s.status)
  where
    seen : Replica
    seen = record v { state = some s; last_version = v.last_version + 1 }

    entered : Replica
    entered = enter_round s.current_round seen

    notified :
        (b : Bool)
        → let w = if b then record entered { my_role = none } else entered in
          ((notify_change w).expected_next ≡ some x)
          × ((notify_change w).pending ≡ v.pending)
          × (given (notify_change w).out ≡ given v.out)
    notified true =
        let f = enter_round-floor s.current_round r x seen h e k l in
        notify_change-rest (record entered { my_role = none }) v x f.0 f.1 f.2
    notified false =
        let f = enter_round-floor s.current_round r x seen h e k l in
        notify_change-rest entered v x f.0 f.1 f.2
