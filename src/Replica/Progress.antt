-- ===== src/Replica/Progress.antt =====
-- frontend/p2p/replica.ts, `applyStroke`: the stroke that the replica waits for gets through.
use fakeartist.Prelude.{ℕ, ◌≢◌, List, [], ◌∷◌, All, ◌<◌, ◌≡◌, some}
use fakeartist.Replica.{Pending, Replica, Expected}
use fakeartist.Replica.Order.{Advances}

-- Each entry has a smaller index than all that come after it.
abbrev Rises : List Pending → Type 0
Rises [] = Unit
Rises (p ∷ ps) = All (λ (q : Pending). p.stroke_index < q.stroke_index) ps × Rises ps

-- No two entries have the same index.
abbrev pub Differ : List Pending → Type 0
Differ [] = Unit
Differ (p ∷ ps) = All (λ (q : Pending). q.stroke_index ≢ p.stroke_index) ps × Differ ps

-- All entries are above `i`.
abbrev pub Above : ℕ → List Pending → Type 0
Above i ps = All (λ (p : Pending). i < p.stroke_index) ps

-- The floor's index, and the buffer, of what is left.
pub record IsDrained (w : Replica) : Type 0 where
  pub floor : Expected
  pub waits : w.expected_next ≡ some floor
  pub above : Above floor.idx w.pending

-- The floor moves by at least one stroke, and past all that waited right behind it.
pub record Progresses (v : Replica) (x : Expected) (w : Replica) : Type 0 where
  pub advance : Advances v x w
  pub some_step : 0 < advance.steps
  pub drained : IsDrained w
