-- ===== src/Election/Winner.antt =====
-- frontend/p2p/election.ts: who wins the election.
use fakeartist.Prelude.{
  ◌≤◌, ◌≡◌, ◌≢◌, refl, sym, ap, subst, ◌∙◌, List, [], ◌∷◌, map, true, false, Option, none, some,
  Str, All, arith, lts, includes,
}
use fakeartist.Prelude.Sort.{
  sort_by, insert_by, All-sort_by, sort_by-All, sort_by-least, HeadIsLeast,
}
use fakeartist.Prelude.Members.{includes-all}
use fakeartist.Protocol.{ℤ, pos, negsuc, ltz}
use fakeartist.Election.{
  ElectionCandidate, LocalView, candidate_of, candidate, goes_after, goes_first, elect, first_id,
}
use fakeartist.Election.Order.{goes_after_trans, goes_after_total}

pub candidate-player_id : (view : LocalView) (pid : Str) → (candidate view pid).player_id ≡ pid
unfolding candidate candidate_of
candidate-player_id view pid = ground arith

-- `d` has the newer state; at equal states the later stroke; then the smaller name.
pub record IsFresher (c d : ElectionCandidate) : Type 0 where
  pub version : c.version ≤ d.version
  pub stroke : c.version ≡ d.version → ltz d.last_stroke_index c.last_stroke_index ≡ false
  pub name :
      c.version ≡ d.version
      → c.last_stroke_index ≡ d.last_stroke_index
      → lts c.player_id d.player_id ≡ false

ltz_self : (x : ℤ) → ltz x x ≡ false
unfolding ltz
ltz_self (pos m) = ground arith
ltz_self (negsuc m) = ground arith

goes_after-IsFresher : (d c : ElectionCandidate) → goes_after d c ≡ false → IsFresher c d
unfolding goes_after
goes_after-IsFresher d c h = record {
  version = ground arith;
  stroke = λ e. ground arith;
  name = λ e k. ground (arith, ltz_self c.last_stroke_index);
}

-- `w` is connected and nobody who is connected is fresher.
pub record IsElected (view : LocalView) (w : Str) : Type 0 where
  pub connected : includes view.connected w ≡ true
  pub best : All (λ p. IsFresher (candidate view p) (candidate view w)) view.connected

abbrev pub Elects : LocalView → Option Str → Type 0
Elects view none = ⊥
Elects view (some w) = IsElected view w

abbrev IsKnown : LocalView → ElectionCandidate → Type 0
IsKnown view c = (c ≡ candidate view c.player_id) × (includes view.connected c.player_id ≡ true)

known :
    (view : LocalView) (ps : List Str)
    → All (λ p. includes view.connected p ≡ true) ps
    → All (IsKnown view) (map (candidate view) ps)
known view [] a = tt
known view (p ∷ ps) a = (
  (
    ap (candidate view) (sym (candidate-player_id view p)),
    ap (includes view.connected) (candidate-player_id view p) ∙ a.0,
  ),
  known view ps a.1,
)

All-map :
    (view : LocalView) (P : ElectionCandidate → Type 0) (ps : List Str)
    → All P (map (candidate view) ps)
    → All (λ p. P (candidate view p)) ps
All-map view P [] a = tt
All-map view P (p ∷ ps) a = (a.0, All-map view P ps a.1)

All-Fresher :
    (view : LocalView) (w : Str) (ps : List Str)
    → All (λ p. goes_first (candidate view w) (candidate view p) ≡ true) ps
    → All (λ p. IsFresher (candidate view p) (candidate view w)) ps
All-Fresher view w [] a = tt
All-Fresher view w (p ∷ ps) a = (
  goes_after-IsFresher (candidate view w) (candidate view p) (ground (arith, a.0)),
  All-Fresher view w ps a.1,
)

goes_first_total : (a b : ElectionCandidate) → goes_first a b ≡ false → goes_first b a ≡ true
goes_first_total a b h = grind (arith, goes_after_total a b)

goes_first_trans :
    (a b c : ElectionCandidate)
    → goes_first a b ≡ true
    → goes_first b c ≡ true
    → goes_first a c ≡ true
goes_first_trans a b c h k = grind (arith, goes_after_trans a b c)

-- The winner goes first among the candidates.
abbrev pub GoesFirst : LocalView → Option Str → Type 0
GoesFirst view none = ⊥
GoesFirst view (some w) =
    (includes view.connected w ≡ true)
    × All (λ p. goes_first (candidate view w) (candidate view p) ≡ true) view.connected

insert_by-nonempty :
    (c : ElectionCandidate) (cs : List ElectionCandidate) → insert_by goes_first c cs ≢ []
unfolding insert_by
insert_by-nonempty c [] h = cc
insert_by-nonempty c (d ∷ cs) h = ground arith

sort_by-nonempty :
    (ps : List Str) (f : Str → ElectionCandidate) → ps ≢ [] → sort_by goes_first (map f ps) ≢ []
unfolding sort_by
sort_by-nonempty [] f n h = n refl
sort_by-nonempty (p ∷ ps) f n h = insert_by-nonempty (f p) (sort_by goes_first (map f ps)) h

first-GoesFirst :
    (view : LocalView) (cs : List ElectionCandidate)
    → cs ≢ []
    → All (IsKnown view) cs
    → ((P : ElectionCandidate → Type 0) → All P cs → All P (map (candidate view) view.connected))
    → HeadIsLeast goes_first cs
    → GoesFirst view (first_id cs)
first-GoesFirst view [] n k back h = absurd (n refl)
first-GoesFirst view (c ∷ cs) n k back h = (
  k.0.1,
  All-map view (λ z. goes_first (candidate view c.player_id) z ≡ true) view.connected
      (subst (λ d. All (λ z. goes_first d z ≡ true) (map (candidate view) view.connected)) k.0.0
        (back (λ z. goes_first c z ≡ true) h)),
)

pub elect-GoesFirst : (view : LocalView) → view.connected ≢ [] → GoesFirst view (elect view)
unfolding elect
elect-GoesFirst view n =
    first-GoesFirst view (sort_by goes_first cs)
      (sort_by-nonempty view.connected (candidate view) n)
      (All-sort_by goes_first (IsKnown view) cs
        (known view view.connected (includes-all view.connected)))
      (λ P a. sort_by-All goes_first P cs a)
      (sort_by-least goes_first goes_first_total goes_first_trans cs)
  where
    cs : List ElectionCandidate
    cs = map (candidate view) view.connected

-- Among at least one connected peer somebody is elected who is connected, and nobody connected
-- has a newer version, or at equal versions a later stroke, or at equal versions and strokes a
-- smaller name.
pub elect-Elects : (view : LocalView) → view.connected ≢ [] → Elects view (elect view)
elect-Elects view n = chosen (elect view) (elect-GoesFirst view n)
  where
    chosen : (o : Option Str) → GoesFirst view o → Elects view o
    chosen none h = h
    chosen (some w) h = record { connected = h.0; best = All-Fresher view w view.connected h.1 }
