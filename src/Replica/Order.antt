-- ===== src/Replica/Order.antt =====
-- frontend/p2p/replica.ts, `applyStroke`: strokes reach the canvas in order, each once.
use fakeartist.Prelude.{
  ◌<◌, ℕ, zero, suc, ◌+◌, ◌≡◌, refl, ap, ap₂, sym, subst, ◌∙◌, List, [], ◌∷◌, ◌++◌, some, ltb,
  nat_eq, arith, Bool-cases, inl, inr,
}
use mathlib.Core.List.{append_assoc, append-nil}
use fakeartist.Prelude.Sort.{sort_by}
use fakeartist.Models.{Stroke}
use fakeartist.Replica.{
  Replica, Expected, Pending, ReplicaOutput, changed, drawn, failed, sync_asked, deliver_stroke,
  deliver_next, buffer_stroke, drain_loop, drain_to, drain_pending, request_sync_if_needed,
  before_or_at, place_stroke, apply_stroke, round_of,
}

-- The strokes that the listeners were given, by the number of strokes with each.
abbrev pub deliveries : List ReplicaOutput → List ℕ
deliveries [] = []
deliveries (drawn s n ∷ os) = n ∷ deliveries os
deliveries (changed s ∷ os) = deliveries os
deliveries (failed m ∷ os) = deliveries os
deliveries (sync_asked r i ∷ os) = deliveries os

-- The same with the strokes themselves.
abbrev pub given : List ReplicaOutput → List (Stroke × ℕ)
given [] = []
given (drawn s n ∷ os) = (s, n) ∷ given os
given (changed s ∷ os) = given os
given (failed m ∷ os) = given os
given (sync_asked r i ∷ os) = given os

-- Strokes, with the number of strokes up to each; the first of them has the index `i`.
abbrev pub numbered : ℕ → List Stroke → List (Stroke × ℕ)
numbered i [] = []
numbered i (s ∷ ss) = (s, i + 1) ∷ numbered (i + 1) ss

pub given-append : (os ps : List ReplicaOutput) → given (os ++ ps) ≡ given os ++ given ps
given-append [] ps = refl
given-append (drawn s n ∷ os) ps = ap ((s, n) ∷◌) (given-append os ps)
given-append (changed s ∷ os) ps = given-append os ps
given-append (failed m ∷ os) ps = given-append os ps
given-append (sync_asked r i ∷ os) ps = given-append os ps

-- The `k` strokes behind the first `idx`.
abbrev pub strokes_from : ℕ → ℕ → List ℕ
strokes_from idx zero = []
strokes_from idx (suc k) = (idx + 1) ∷ strokes_from (idx + 1) k

pub deliveries-append :
    (os ps : List ReplicaOutput) → deliveries (os ++ ps) ≡ deliveries os ++ deliveries ps
deliveries-append [] ps = refl
deliveries-append (drawn s n ∷ os) ps = ap (n ∷◌) (deliveries-append os ps)
deliveries-append (changed s ∷ os) ps = deliveries-append os ps
deliveries-append (failed m ∷ os) ps = deliveries-append os ps
deliveries-append (sync_asked r i ∷ os) ps = deliveries-append os ps

deliveries-deliver_stroke :
    (s : Stroke) (i : ℕ) (v : Replica)
    → deliveries (deliver_stroke s i v).out ≡ deliveries v.out ++ (i + 1) ∷ []
unfolding deliver_stroke
deliveries-deliver_stroke s i v = deliveries-append v.out _

-- Since `v` the next strokes after the first `idx` were delivered, `k` of them.
abbrev pub Delivers : Replica → ℕ → ℕ → List ReplicaOutput → Type 0
Delivers v idx k os = deliveries os ≡ deliveries v.out ++ strokes_from idx k

pub Delivers_next :
    (s : Stroke) (i idx k : ℕ) (v : Replica) (os : List ReplicaOutput)
    → i ≡ idx
    → Delivers (deliver_stroke s i v) (idx + 1) k os
    → Delivers v idx (suc k) os
Delivers_next s i idx k v os e h = h ∙ rw (deliveries-deliver_stroke, append_assoc, e)

drain_loop-Delivers :
    (ps : List Pending) (idx : ℕ) (v : Replica)
    → (k : ℕ) × ((drain_loop ps idx v).idx ≡ idx + k)
      × Delivers v idx k (drain_loop ps idx v).replica.out
unfolding drain_loop
drain_loop-Delivers [] idx v = (0, omega arith, sym (append-nil _))
drain_loop-Delivers (p ∷ ps) idx v = elim (Bool-cases (nat_eq p.stroke_index idx)) [
  | inl t ↦
      let (k, e, d) = drain_loop-Delivers ps (idx + 1) (deliver_stroke p.stroke p.stroke_index v) in
      (
        suc k,
        rw t (omega arith),
        rw t (
            Delivers_next p.stroke p.stroke_index idx k v
              (drain_loop ps (idx + 1) (deliver_stroke p.stroke p.stroke_index v)).replica.out
              (ground arith) d),
      )
  | inr t ↦ (0, rw t (omega arith), rw t (sym (append-nil _)))
]

-- The floor has moved from `x` by the strokes that were delivered.
pub record Advances (v : Replica) (x : Expected) (w : Replica) : Type 0 where
  pub steps : ℕ
  pub floor : w.expected_next ≡ some (record x { idx = x.idx + steps })
  pub sent : Delivers v x.idx steps w.out

Advances-of_eq : {v w u : Replica} {x : Expected} → w ≡ u → Advances v x u → Advances v x w
Advances-of_eq {v} {w} {u} {x} e a = subst (Advances v x) (sym e) a

drain_pending-Advances :
    (v : Replica) (x : Expected) → v.expected_next ≡ some x → Advances v x (drain_pending v)
drain_pending-Advances v x h =
    let (k, e, d) = drain_loop-Delivers (sort_by before_or_at v.pending) x.idx v in
    Advances-of_eq drained (record {
      steps = k;
      floor = unfold drain_to in ap (λ n. some (record x { idx = n })) e;
      sent = unfold drain_to in d;
    })
  where
    drained : drain_pending v ≡ drain_to x v
    drained = unfold drain_pending in ground arith

-- Nothing happens to the floor, and nothing is delivered.
rest-Advances :
    (v : Replica) (x : Expected) (w : Replica)
    → w.expected_next ≡ some x
    → deliveries w.out ≡ deliveries v.out
    → Advances v x w
rest-Advances v x w e d = record {
  steps = 0;
  floor = e ∙ ap (λ n. some (record x { idx = n })) (omega arith);
  sent = d ∙ sym (append-nil _);
}

request-rest :
    (round from : ℕ) (v : Replica)
    → ((request_sync_if_needed round from v).expected_next ≡ v.expected_next)
      × (deliveries (request_sync_if_needed round from v).out ≡ deliveries v.out)
unfolding request_sync_if_needed
request-rest round from v =
    ground
      (arith, deliveries-append v.out (sync_asked round from ∷ []), append-nil (deliveries v.out))

-- The floor moves by this stroke, and by those that waited behind it.
pub deliver_next-steps :
    (s : Stroke) (i : ℕ) (x : Expected) (v : Replica)
    → i ≡ x.idx
    → (a : Advances v x (deliver_next s i x v)) × (0 < a.steps)
unfolding deliver_next
deliver_next-steps s i x v e =
    let w : Replica = record (deliver_stroke s i v) {
      expected_next = some (record x { idx = x.idx + 1 });
    } in
    let a = drain_pending-Advances w _ refl in
    (
      record {
        steps = suc a.steps;
        floor = a.floor ∙ ap (λ n. some (record x { idx = n })) (omega arith);
        sent = Delivers_next s i x.idx a.steps v (drain_pending w).out e a.sent;
      },
      omega arith,
    )

deliver_next-Advances :
    (s : Stroke) (i : ℕ) (x : Expected) (v : Replica)
    → i ≡ x.idx
    → Advances v x (deliver_next s i x v)
deliver_next-Advances s i x v e = (deliver_next-steps s i x v e).0

buffer_stroke-Advances :
    (s : Stroke) (i : ℕ) (x : Expected) (v : Replica)
    → v.expected_next ≡ some x
    → Advances v x (buffer_stroke s i x v)
unfolding buffer_stroke
buffer_stroke-Advances s i x v h =
    let r = request-rest x.round x.idx _ in rest-Advances v x _ (r.0 ∙ h) r.1

place_stroke-Advances :
    (s : Stroke) (i : ℕ) (x : Expected) (v : Replica)
    → v.expected_next ≡ some x
    → Advances v x (place_stroke s i x v)
unfolding place_stroke
place_stroke-Advances s i x v h = elim (Bool-cases (ltb i x.idx)) [
  | inl t ↦ Advances-of_eq (rw t) (rest-Advances v x v h refl)
  | inr t ↦ elim (Bool-cases (nat_eq i x.idx)) [
    | inl q ↦ Advances-of_eq (rw (t, q)) (deliver_next-Advances s i x v (ground arith))
    | inr q ↦ Advances-of_eq (rw (t, q)) (buffer_stroke-Advances s i x v h)
  ]
]

-- A stroke event, at any index and whether new, repeated or early, moves the floor by the number of strokes that it makes the replica deliver: the ones that follow the floor, in order.
apply_stroke-Advances :
    (s : Stroke) (n : ℕ) (v : Replica) (x : Expected)
    → v.expected_next ≡ some x
    → Advances v x (apply_stroke s n v)
unfolding apply_stroke
apply_stroke-Advances s zero v x h =
    Advances-of_eq {u = v} (ground arith) (rest-Advances v x v h refl)
apply_stroke-Advances s (suc i) v x h =
    elim (Bool-cases (nat_eq (round_of v.state (some x)) x.round)) [
      | inl t ↦
          Advances-of_eq {u = place_stroke s i x v} (ground arith) (place_stroke-Advances s i x v h)
      | inr t ↦ Advances-of_eq {u = v} (ground arith) (rest-Advances v x v h refl)
    ]

add_suc-shift : (a b : ℕ) → a + suc b ≡ a + 1 + b
add_suc-shift a b = omega arith

suc-add : (a b : ℕ) → suc (a + b) ≡ suc a + b
suc-add a b = omega arith

strokes_from-add :
    (idx m n : ℕ) → strokes_from idx m ++ strokes_from (idx + m) n ≡ strokes_from idx (m + n)
strokes_from-add idx zero n = ap₂ strokes_from (omega arith) (omega arith)
strokes_from-add idx (suc m) n =
    ap ((idx + 1) ∷◌) (
      ap (λ k. strokes_from (idx + 1) m ++ strokes_from k n) (add_suc-shift idx m)
      ∙ strokes_from-add (idx + 1) m n)
    ∙ ap (strokes_from idx) (suc-add m n)

Advances-trans :
    (u v w : Replica) (x : Expected) (a : Advances u x v)
    → Advances v (record x { idx = x.idx + a.steps }) w
    → Advances u x w
Advances-trans u v w x a b = record {
  steps = a.steps + b.steps;
  floor = b.floor ∙ ap (λ n. some (record x { idx = n })) (omega arith);
  sent =
      b.sent
      ∙ ap (λ ds. ds ++ strokes_from (x.idx + a.steps) b.steps) a.sent
      ∙ append_assoc (deliveries u.out) (strokes_from x.idx a.steps)
          (strokes_from (x.idx + a.steps) b.steps)
      ∙ ap (deliveries u.out ++◌) (strokes_from-add x.idx a.steps b.steps);
}

-- The events STROKE_ADDED, in the order in which they arrive.
unfoldable pub apply_strokes : List (Stroke × ℕ) → Replica → Replica
apply_strokes [] v = v
apply_strokes ((s, n) ∷ es) v = apply_strokes es (apply_stroke s n v)

-- From a replica with a floor, however stroke events arrive, with repeats, gaps and swaps: the
-- listeners get consecutive strokes from the floor on, each once, and the floor moves by as many.
pub apply_strokes-Advances :
    (es : List (Stroke × ℕ)) (v : Replica) (x : Expected)
    → v.expected_next ≡ some x
    → Advances v x (apply_strokes es v)
unfolding apply_strokes
apply_strokes-Advances [] v x h = rest-Advances v x v h refl
apply_strokes-Advances ((s, n) ∷ es) v x h =
    let a = apply_stroke-Advances s n v x h in
    Advances-trans v (apply_stroke s n v) _ x a
      (apply_strokes-Advances es (apply_stroke s n v) _ a.floor)
