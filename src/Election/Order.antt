-- ===== src/Election/Order.antt =====
-- frontend/p2p/election.ts: the comparator orders the candidates, without ties between names.
use fakeartist.Prelude.{◌≡◌, true, false, arith}
use fakeartist.Prelude.Order.{lts_trans, lts_asym, lts_antisym}
use fakeartist.Protocol.{ℤ, pos, negsuc, ltz}
use fakeartist.Election.{ElectionCandidate, goes_after}

ltz_trans : (x y z : ℤ) → ltz x y ≡ false → ltz y z ≡ false → ltz x z ≡ false
unfolding ltz
ltz_trans (pos m) (pos n) (pos o) h k = ground arith
ltz_trans (pos m) (pos n) (negsuc o) h k = ground arith
ltz_trans (pos m) (negsuc n) (pos o) h k = ground arith
ltz_trans (pos m) (negsuc n) (negsuc o) h k = ground arith
ltz_trans (negsuc m) (pos n) (pos o) h k = ground arith
ltz_trans (negsuc m) (pos n) (negsuc o) h k = ground arith
ltz_trans (negsuc m) (negsuc n) (pos o) h k = ground arith
ltz_trans (negsuc m) (negsuc n) (negsuc o) h k = ground arith

ltz_asym : (x y : ℤ) → ltz x y ≡ true → ltz y x ≡ false
unfolding ltz
ltz_asym (pos m) (pos n) h = ground arith
ltz_asym (pos m) (negsuc n) h = ground arith
ltz_asym (negsuc m) (pos n) h = ground arith
ltz_asym (negsuc m) (negsuc n) h = ground arith

-- The comparator is consistent.
pub goes_after_trans :
    (a b c : ElectionCandidate)
    → goes_after a b ≡ false
    → goes_after b c ≡ false
    → goes_after a c ≡ false
unfolding goes_after
goes_after_trans a b c h k = grind (
  arith,
  ltz_trans a.last_stroke_index b.last_stroke_index c.last_stroke_index,
  ltz_trans b.last_stroke_index c.last_stroke_index a.last_stroke_index,
  ltz_trans c.last_stroke_index a.last_stroke_index b.last_stroke_index,
  ltz_asym a.last_stroke_index c.last_stroke_index,
  ltz_asym a.last_stroke_index b.last_stroke_index,
  ltz_asym b.last_stroke_index c.last_stroke_index,
  lts_trans c.player_id b.player_id a.player_id,
)

pub goes_after_total : (a b : ElectionCandidate) → goes_after a b ≡ true → goes_after b a ≡ false
unfolding goes_after
goes_after_total a b h = grind (
  arith,
  ltz_asym a.last_stroke_index b.last_stroke_index,
  ltz_asym b.last_stroke_index a.last_stroke_index,
  lts_asym b.player_id a.player_id,
)

pub goes_after_tie :
    (a b : ElectionCandidate)
    → goes_after a b ≡ false
    → goes_after b a ≡ false
    → a.player_id ≡ b.player_id
unfolding goes_after
goes_after_tie a b h k = grind (
  arith,
  ltz_asym a.last_stroke_index b.last_stroke_index,
  ltz_asym b.last_stroke_index a.last_stroke_index,
  lts_antisym b.player_id a.player_id,
)
