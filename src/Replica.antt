-- ===== src/Replica.antt =====
-- frontend/p2p/replica.ts, class `Replica`: the view of the game that the user interface reads. The
-- calls of listeners and of the sync hook go to the end of `out`, in their order.
pub mod Order
pub mod CatchUp
pub mod Progress
pub mod Drain
pub mod Waiting
use fakeartist.Prelude.{
  ℕ, zero, suc, ◌+◌, List, [], ◌∷◌, ◌++◌, Bool, true, false, not, ◌||◌, Option, none, some, Str,
  leb, ltb, nat_eq, keep_if, if◌then◌else◌,
}
use fakeartist.Prelude.Sort.{sort_by}
use fakeartist.Models.{GameStatus, lobby, writing, Round, GameState, RolePayload, Stroke}
use fakeartist.Protocol.{ℤ, pos, negsuc, ServerEvent, Envelope, IndexedStrokeFrame}

pub record ReplicaSnapshot : Type 0 where
  pub state : Option GameState
  pub my_id : Option Str
  pub my_role : Option RolePayload
  pub last_version : ℕ
  pub last_stroke_index : ℤ

-- The next stroke that the replica waits for.
pub record Expected : Type 0 where
  pub round : ℕ
  pub idx : ℕ

-- A stroke with its 0-based index.
pub record Pending : Type 0 where
  pub stroke_index : ℕ
  pub stroke : Stroke

pub data ReplicaOutput : Type 0 where
  changed : ReplicaSnapshot → ReplicaOutput
  drawn : Stroke → ℕ → ReplicaOutput
  failed : Str → ReplicaOutput
  sync_asked : ℕ → ℕ → ReplicaOutput

pub record Replica : Type 0 where
  pub state : Option GameState
  pub my_id : Option Str
  pub my_role : Option RolePayload
  pub last_version : ℕ
  pub last_stroke_index : ℤ
  pub expected_next : Option Expected
  pub pending : List Pending
  pub sync_in_flight : Bool
  -- whether a hook for sync requests is given
  pub has_hook : Bool
  pub out : List ReplicaOutput

unfoldable pub new_replica : Bool → Replica
new_replica hook = record {
  state = none;
  my_id = none;
  my_role = none;
  last_version = 0;
  last_stroke_index = negsuc 0;
  expected_next = none;
  pending = [];
  sync_in_flight = false;
  has_hook = hook;
  out = [];
}

abbrev pub snapshot : Replica → ReplicaSnapshot
snapshot v = record {
  state = v.state;
  my_id = v.my_id;
  my_role = v.my_role;
  last_version = v.last_version;
  last_stroke_index = v.last_stroke_index;
}

unfoldable pub notify : ReplicaOutput → Replica → Replica
notify o v = record v { out = v.out ++ o ∷ [] }

unfoldable pub notify_change : Replica → Replica
unfolding notify
notify_change v = notify (changed (snapshot v)) v

unfoldable pub deliver_stroke : Stroke → ℕ → Replica → Replica
unfolding notify
deliver_stroke stroke applied v =
    notify (drawn stroke (applied + 1)) (record v { last_stroke_index = pos applied })

abbrev pub before_or_at : Pending → Pending → Bool
before_or_at a b = leb a.stroke_index b.stroke_index

-- The loop of `drainPending` over the sorted entries; it returns the rest, the next index and the
-- replica that has delivered.
pub record Drained : Type 0 where
  pub rest : List Pending
  pub idx : ℕ
  pub replica : Replica

unfoldable pub drain_loop : List Pending → ℕ → Replica → Drained
unfolding deliver_stroke
drain_loop [] idx v = record { rest = []; idx = idx; replica = v }
drain_loop (p ∷ ps) idx v =
    let later = drain_loop ps (idx + 1) (deliver_stroke p.stroke p.stroke_index v) in
    if nat_eq p.stroke_index idx then later else (record { rest = p ∷ ps; idx = idx; replica = v })

unfoldable pub drain_to : Expected → Replica → Replica
drain_to x v =
    let d = drain_loop (sort_by before_or_at v.pending) x.idx v in
    record d.replica {
      expected_next = some (record x { idx = d.idx });
      pending = keep_if (λ (p : Pending). leb d.idx p.stroke_index) d.rest;
    }

unfoldable pub drain_pending : Replica → Replica
unfolding drain_to
drain_pending v = elim v.expected_next [ none ↦ v | some x ↦ drain_to x v ]

-- `r.stroke_index - 1`
unfoldable pub minus_one : ℕ → ℤ
minus_one zero = negsuc 0
minus_one (suc n) = pos n

unfoldable pub clears_role : GameStatus → Bool
clears_role lobby = true
clears_role writing = true
clears_role _ = false

-- The floor of the gap detection after a snapshot with this round.
unfoldable pub floor_at : Round → Option Expected → Option Expected
floor_at r none = some (record { round = r.index; idx = r.stroke_index })
floor_at r (some x) =
    if nat_eq x.round r.index
    then if ltb x.idx r.stroke_index then some (record x { idx = r.stroke_index }) else some x
    else some (record { round = r.index; idx = r.stroke_index })

-- Buffered strokes of another round go.
unfoldable pub pending_at : Round → Option Expected → List Pending → List Pending
pending_at r none ps = []
pending_at r (some x) ps = if nat_eq x.round r.index then ps else []

unfoldable pub enter_round : Option Round → Replica → Replica
unfolding minus_one floor_at pending_at
enter_round none v = record v { expected_next = none; pending = [] }
enter_round (some r) v = record v {
  last_stroke_index = minus_one r.stroke_index;
  expected_next = floor_at r v.expected_next;
  pending = pending_at r v.expected_next v.pending;
}

unfoldable pub apply_state : GameState → Replica → Replica
unfolding enter_round clears_role
apply_state s v =
    let seen = record v { state = some s; last_version = v.last_version + 1 } in
    let entered = enter_round s.current_round seen in
    notify_change (if clears_role s.status then record entered { my_role = none } else entered)

unfoldable pub request_sync_if_needed : ℕ → ℕ → Replica → Replica
unfolding notify
request_sync_if_needed round from v =
    if v.sync_in_flight
    then v
    else if v.has_hook
    then notify (sync_asked round from) (record v { sync_in_flight = true })
    else v

-- The round of the state, or of the floor, or 0.
abbrev pub round_of : Option GameState → Option Expected → ℕ
round_of none none = 0
round_of none (some x) = x.round
round_of (some s) x = elim s.current_round [
  | some r ↦ r.index
  | none ↦ elim x [ none ↦ 0 | some y ↦ y.round ]
]

-- The stroke that the floor waits for, and what was buffered behind it.
unfoldable pub deliver_next : Stroke → ℕ → Expected → Replica → Replica
deliver_next stroke applied x v = drain_pending (record (deliver_stroke stroke applied v) {
  expected_next = some (record x { idx = x.idx + 1 });
})

-- A stroke behind a gap.
unfoldable pub buffer_stroke : Stroke → ℕ → Expected → Replica → Replica
buffer_stroke stroke applied x v =
    request_sync_if_needed x.round x.idx
      (record v { pending = v.pending ++ record { stroke_index = applied; stroke = stroke } ∷ [] })

-- A stroke with its 0-based index, against the floor `x`.
unfoldable pub place_stroke : Stroke → ℕ → Expected → Replica → Replica
place_stroke stroke applied x v =
    if ltb applied x.idx
    then v
    else if nat_eq applied x.idx
    then deliver_next stroke applied x v
    else buffer_stroke stroke applied x v

abbrev pub or_start : Option Expected → ℕ → Expected
or_start none round = record { round = round; idx = 0 }
or_start (some x) round = x

-- `next` is the number of strokes with this one, so that the index -1 of a 0 is stale.
unfoldable pub apply_stroke : Stroke → ℕ → Replica → Replica
apply_stroke stroke next v =
    let round = round_of v.state v.expected_next in
    let x = or_start v.expected_next round in
    let started = record v { expected_next = some x } in
    if nat_eq round x.round
    then elim next [ zero ↦ started | suc applied ↦ place_stroke stroke applied x started ]
    else started

unfoldable pub apply : ServerEvent → Replica → Replica
unfolding notify_change notify
apply (ServerEvent.state_update s) v = apply_state s v
apply (ServerEvent.player_welcome id) v = notify_change (record v { my_id = some id })
apply (ServerEvent.your_role p) v = notify_change (record v { my_role = some p })
apply (ServerEvent.stroke_added stroke next) v = apply_stroke stroke next v
apply (ServerEvent.error message) v = notify (failed message) v
