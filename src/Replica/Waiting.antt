-- ===== src/Replica/Waiting.antt =====
-- frontend/p2p/replica.ts: a replica whose request for strokes is in flight asks for nothing.
use fakeartist.Prelude.{
  ℕ, zero, suc, ◌+◌, List, [], ◌∷◌, Bool, true, false, Option, none, some, ◌≡◌, refl, sym, subst,
  arith, if◌then◌else◌, nat_eq, ltb,
}
use fakeartist.Prelude.Adds.{Adds, Adds-none, Adds-all, Adds-then}
use fakeartist.Prelude.Sort.{sort_by}
use fakeartist.Models.{GameState, Round, Stroke}
use fakeartist.Protocol.{ServerEvent}
use fakeartist.Replica.CatchUp.{request_sync}
use fakeartist.Replica.{
  Replica, ReplicaOutput, drawn, sync_asked, Expected, Pending, Drained, notify, notify_change,
  deliver_stroke, drain_loop, drain_to, drain_pending, before_or_at, enter_round, apply_state,
  clears_role, request_sync_if_needed, round_of, or_start, deliver_next, buffer_stroke,
  place_stroke, apply_stroke, apply,
}

-- It is no request.
abbrev pub IsNews : ReplicaOutput → Type 0
IsNews (sync_asked round from) = ⊥
IsNews _ = Unit

-- The request is in flight still, and the listeners heard news only.
pub record Waits (v w : Replica) : Type 0 where
  pub flight : w.sync_in_flight ≡ true
  pub news : Adds IsNews v.out w.out

pub stays_waiting :
    (v w : Replica)
    → v.sync_in_flight ≡ true
    → w.sync_in_flight ≡ v.sync_in_flight
    → w.out ≡ v.out
    → Waits v w
stays_waiting v w f e o = record {
  flight = cc;
  news = subst (λ os. Adds IsNews v.out os) (sym o) (Adds-none IsNews v.out);
}

Waits-then : (u v w : Replica) → Waits u v → Waits v w → Waits u w
Waits-then u v w a b = record {
  flight = b.flight;
  news = Adds-then u.out v.out w.out a.news b.news;
}

notify-Waits :
    (o : ReplicaOutput) (v : Replica) → IsNews o → v.sync_in_flight ≡ true → Waits v (notify o v)
unfolding notify
notify-Waits o v n f = record { flight = f; news = Adds-all IsNews v.out (o ∷ []) (n, tt) }

deliver_stroke-Waits :
    (s : Stroke) (n : ℕ) (v : Replica) → v.sync_in_flight ≡ true → Waits v (deliver_stroke s n v)
unfolding deliver_stroke notify
deliver_stroke-Waits s n v f = record {
  flight = f;
  news = Adds-all IsNews v.out (drawn s (n + 1) ∷ []) (tt, tt);
}

drain_loop-Waits :
    (ps : List Pending) (i : ℕ) (v : Replica)
    → v.sync_in_flight ≡ true
    → Waits v (drain_loop ps i v).replica
unfolding drain_loop
drain_loop-Waits [] i v f = stays_waiting v v f refl refl
drain_loop-Waits (p ∷ ps) i v f =
    let next = deliver_stroke p.stroke p.stroke_index v in
    let a = deliver_stroke-Waits p.stroke p.stroke_index v f in
    go (drain_loop ps (i + 1) next) (nat_eq p.stroke_index i)
      (Waits-then v next _ a (drain_loop-Waits ps (i + 1) next a.flight))
  where
    go :
        (d : Drained) (b : Bool)
        → Waits v d.replica
        → Waits v (if b then d else (record { rest = p ∷ ps; idx = i; replica = v })).replica
    go d true h = h
    go d false h = stays_waiting v v f refl refl

drain_pending-Waits : (v : Replica) → v.sync_in_flight ≡ true → Waits v (drain_pending v)
unfolding drain_pending drain_to
drain_pending-Waits v f = go v.expected_next
  where
    go :
        (x : Option Expected)
        → Waits v (elim x as (λ _. Replica) [ none ↦ v | some y ↦ drain_to y v ])
    go none = stays_waiting v v f refl refl
    go (some y) =
        let a = drain_loop-Waits (sort_by before_or_at v.pending) y.idx v f in
        record { flight = a.flight; news = a.news }

deliver_next-Waits :
    (s : Stroke) (n : ℕ) (x : Expected) (v : Replica)
    → v.sync_in_flight ≡ true
    → Waits v (deliver_next s n x v)
unfolding deliver_next
deliver_next-Waits s n x v f =
    let moved = record (deliver_stroke s n v) {
      expected_next = some (record x { idx = x.idx + 1 });
    } in
    let a = deliver_stroke-Waits s n v f in
    Waits-then v moved _ (record { flight = a.flight; news = a.news })
      (drain_pending-Waits moved a.flight)

buffer_stroke-Waits :
    (s : Stroke) (n : ℕ) (x : Expected) (v : Replica)
    → v.sync_in_flight ≡ true
    → Waits v (buffer_stroke s n x v)
unfolding buffer_stroke request_sync_if_needed
buffer_stroke-Waits s n x v f =
    stays_waiting v (buffer_stroke s n x v) f (ground (arith, f)) (ground (arith, f))

place_stroke-Waits :
    (s : Stroke) (n : ℕ) (x : Expected) (v : Replica)
    → v.sync_in_flight ≡ true
    → Waits v (place_stroke s n x v)
unfolding place_stroke
place_stroke-Waits s n x v f = go (ltb n x.idx) (nat_eq n x.idx)
  where
    go :
        (a b : Bool)
        → Waits v (if a then v else if b then deliver_next s n x v else buffer_stroke s n x v)
    go true b = stays_waiting v v f refl refl
    go false true = deliver_next-Waits s n x v f
    go false false = buffer_stroke-Waits s n x v f

apply_stroke-Waits :
    (s : Stroke) (next : ℕ) (v : Replica)
    → v.sync_in_flight ≡ true
    → Waits v (apply_stroke s next v)
unfolding apply_stroke
apply_stroke-Waits s next v f = go (nat_eq (round_of v.state v.expected_next) x.round) next
  where
    x : Expected
    x = or_start v.expected_next (round_of v.state v.expected_next)

    started : Replica
    started = record v { expected_next = some x }

    go :
        (b : Bool) (n : ℕ)
        → Waits v (
            if b
            then elim n as (λ _. Replica) [ zero ↦ started | suc m ↦ place_stroke s m x started ]
            else started)
    go true zero = stays_waiting v started f refl refl
    go true (suc m) =
        let a = place_stroke-Waits s m x started f in record { flight = a.flight; news = a.news }
    go false n = stays_waiting v started f refl refl

apply_state-Waits :
    (s : GameState) (v : Replica) → v.sync_in_flight ≡ true → Waits v (apply_state s v)
unfolding apply_state enter_round notify_change notify
apply_state-Waits s v f = go s.current_round (clears_role s.status)
  where
    seen : Replica
    seen = record v { state = some s; last_version = v.last_version + 1 }

    go :
        (r : Option Round) (b : Bool)
        → Waits v (
            notify_change
              (if b then record (enter_round r seen) { my_role = none } else enter_round r seen))
    go none true = record { flight = f; news = Adds-all IsNews v.out (_ ∷ []) (tt, tt) }
    go none false = record { flight = f; news = Adds-all IsNews v.out (_ ∷ []) (tt, tt) }
    go (some r) true = record { flight = f; news = Adds-all IsNews v.out (_ ∷ []) (tt, tt) }
    go (some r) false = record { flight = f; news = Adds-all IsNews v.out (_ ∷ []) (tt, tt) }

pub apply-Waits :
    (evt : ServerEvent) (v : Replica) → v.sync_in_flight ≡ true → Waits v (apply evt v)
unfolding apply notify_change notify
apply-Waits (ServerEvent.state_update s) v f = apply_state-Waits s v f
apply-Waits (ServerEvent.player_welcome id) v f = record {
  flight = f;
  news = Adds-all IsNews v.out (_ ∷ []) (tt, tt);
}
apply-Waits (ServerEvent.your_role p) v f = record {
  flight = f;
  news = Adds-all IsNews v.out (_ ∷ []) (tt, tt);
}
apply-Waits (ServerEvent.stroke_added s n) v f = apply_stroke-Waits s n v f
apply-Waits (ServerEvent.error m) v f = record {
  flight = f;
  news = Adds-all IsNews v.out (_ ∷ []) (tt, tt);
}

pub request_sync-Waits : (v : Replica) → v.sync_in_flight ≡ true → Waits v (request_sync v)
unfolding request_sync
request_sync-Waits v f = stays_waiting v (request_sync v) f (ground (arith, f)) (ground (arith, f))
