-- ===== src/Engine/Tally/Scores.antt =====
-- frontend/p2p/engine.ts, `finalizeRound`: who gets how many points.
use fakeartist.Prelude.{
  ℕ, ◌+◌, List, [], ◌∷◌, map, Bool, true, false, Option, none, some, Str, ◌≡◌, refl, ap, sym, ◌∙◌,
  subst, arith, ◌==◌, Bool-cases, inl, inr, if◌then◌else◌, str_discrete,
}
use fakeartist.Models.{Player, Round}
use mathlib.Core.Path.{fun_ext}
use fakeartist.Prelude.{count, hit, ap₂}
use fakeartist.Engine.State.{is_id}
use fakeartist.Engine.Tally.{add_score}
use fakeartist.Engine.Round.{player_ids, score_artists, score_fake, round_scores}
use fakeartist.Engine.Invariant.{Fresh, Unique}
use fakeartist.Engine.Invariant.Ids.{player_ids-add_score}

abbrev pub gain : (Str → ℕ) → Player → Player
gain points p = record p { score = p.score + points p.id }

abbrev pub award : (Str → ℕ) → List Player → List Player
award points = map (gain points)

-- The rules of the game. A caught fake who guesses the word gets 2 points; one who does not leaves
-- a point to each artist; a fake who is not caught gets 1 point.
pub points : Bool → Bool → Round → Str → ℕ
points true true r id = if is_id r.fake_id id then 2 else 0
points true false r id = if is_id r.fake_id id then 0 else count id r.turn_order
points false _ r id = if is_id r.fake_id id then 1 else 0

gain_none : (f : Str → ℕ) (p : Player) → f p.id ≡ 0 → gain f p ≡ p
gain_none f p h = ground arith

gain-gain : (f g : Str → ℕ) (p : Player) → gain g (gain f p) ≡ gain (λ x. f x + g x) p
gain-gain f g p = ground arith

award_none : (f : Str → ℕ) (ps : List Player) → ((x : Str) → f x ≡ 0) → award f ps ≡ ps
award_none f [] h = refl
award_none f (p ∷ ps) h = ap₂ ◌∷◌ (gain_none f p (h p.id)) (award_none f ps h)

award-award : (f g : Str → ℕ) (ps : List Player) → award g (award f ps) ≡ award (λ x. f x + g x) ps
award-award f g [] = refl
award-award f g (p ∷ ps) = ap₂ ◌∷◌ (gain-gain f g p) (award-award f g ps)

award_ext : (f g : Str → ℕ) (ps : List Player) → ((x : Str) → f x ≡ g x) → award f ps ≡ award g ps
award_ext f g ps h = ap (λ k. award k ps) (fun_ext h)

-- `n` for one player.
abbrev only : Str → ℕ → Str → ℕ
only id n x = if x == id then n else 0

award_absent :
    (id : Str) (n : ℕ) (ps : List Player) → Fresh id (player_ids ps) → award (only id n) ps ≡ ps
award_absent id n [] f = refl
award_absent id n (p ∷ ps) f =
    ap₂ ◌∷◌ (gain_none (only id n) p (ground arith)) (award_absent id n ps f.1)

add_score-award :
    (id : Str) (n : ℕ) (ps : List Player)
    → Unique (player_ids ps)
    → add_score id n ps ≡ award (only id n) ps
unfolding add_score
add_score-award id n [] u = refl
add_score-award id n (p ∷ ps) u = elim (str_discrete p.id id) [
  | yes q ↦ ground (arith, award_absent id n ps (subst (λ z. Fresh z (player_ids ps)) q u.0))
  | no q ↦ ground (arith, add_score-award id n ps u.1)
]

-- A turn of the fake does not count, one of an artist does.
fake_counts :
    (fake : Option Str) (pid x : Str) (ids : List Str)
    → is_id fake pid ≡ true
    → (if is_id fake x then 0 else count x ids)
      ≡ (if is_id fake x then 0 else hit x pid + count x ids)
fake_counts none pid x ids t = cc
fake_counts (some f) pid x ids t = ground arith

artist_counts :
    (fake : Option Str) (pid x : Str) (ids : List Str)
    → is_id fake pid ≡ false
    → only pid 1 x + (if is_id fake x then 0 else count x ids)
      ≡ (if is_id fake x then 0 else hit x pid + count x ids)
artist_counts none pid x ids t = ground arith
artist_counts (some f) pid x ids t = ground arith

score_artists-award :
    (fake : Option Str) (ids : List Str) (ps : List Player)
    → Unique (player_ids ps)
    → score_artists fake ids ps ≡ award (λ x. if is_id fake x then 0 else count x ids) ps
unfolding score_artists count
score_artists-award fake [] ps u = sym (award_none _ ps (λ x. ground arith))
score_artists-award fake (pid ∷ ids) ps u = elim (Bool-cases (is_id fake pid)) [
  | inl t ↦
      rw t
        (score_artists-award fake ids ps u ∙ award_ext _ _ ps (λ x. fake_counts fake pid x ids t))
  | inr t ↦ rw t (
      score_artists-award fake ids (add_score pid 1 ps) (rw player_ids-add_score u)
      ∙ ap (award _) (add_score-award pid 1 ps u)
      ∙ award-award _ _ ps
      ∙ award_ext _ _ ps (λ x. artist_counts fake pid x ids t))
]

score_fake-award :
    (fake : Option Str) (n : ℕ) (ps : List Player)
    → Unique (player_ids ps)
    → score_fake fake n ps ≡ award (λ x. if is_id fake x then n else 0) ps
unfolding score_fake
score_fake-award none n ps u = sym (award_none _ ps (λ x. refl))
score_fake-award (some id) n ps u = add_score-award id n ps u

-- Where the players' ids are unique, the end of a round gives each player exactly the points of
-- the rules for every one of the outcomes, and changes nothing else of the players.
pub round_scores-award :
    (caught guessed : Bool) (r : Round) (ps : List Player)
    → Unique (player_ids ps)
    → round_scores caught guessed r ps ≡ award (points caught guessed r) ps
unfolding round_scores points
round_scores-award true true r ps u = score_fake-award r.fake_id 2 ps u
round_scores-award true false r ps u = score_artists-award r.fake_id r.turn_order ps u
round_scores-award false _ r ps u = score_fake-award r.fake_id 1 ps u
