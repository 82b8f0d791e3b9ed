-- ===== src/Engine/Invariant/Ids.antt =====
-- frontend/p2p/engine.ts: scores, names and flags change, the ids of the players do not.
use fakeartist.Prelude.{
  ℕ, ◌<◌, List, [], ◌∷◌, ◌++◌, Bool, true, false, Option, none, some, Str, ◌≡◌, ◌≢◌, refl, ap, sym,
  ◌∙◌, subst, Bool-cases, inl, inr, update_first,
}
use fakeartist.Models.{Player, Round, GameState}
use fakeartist.Engine.State.{is_id}
use fakeartist.Engine.Tally.{add_score}
use fakeartist.Engine.Round.{player_ids, score_artists, score_fake, round_scores}
use fakeartist.Engine.Invariant.{Fresh, Unique, IsValid}

pub player_ids-update_first :
    (p : Player → Bool) (f : Player → Player) (ps : List Player)
    → ((q : Player) → (f q).id ≡ q.id)
    → player_ids (update_first p f ps) ≡ player_ids ps
player_ids-update_first p f [] h = refl
player_ids-update_first p f (q ∷ ps) h = elim (Bool-cases (p q)) [
  | inl t ↦ rw t (ap (λ (x : Str). x ∷ player_ids ps) (h q))
  | inr t ↦ rw t (ap (q.id ∷◌) (player_ids-update_first p f ps h))
]

pub player_ids-add_score :
    (id : Str) (n : ℕ) (ps : List Player) → player_ids (add_score id n ps) ≡ player_ids ps
unfolding add_score
player_ids-add_score id n ps = player_ids-update_first _ _ ps (λ q. refl)

player_ids-score_artists :
    (fake : Option Str) (ids : List Str) (ps : List Player)
    → player_ids (score_artists fake ids ps) ≡ player_ids ps
unfolding score_artists
player_ids-score_artists fake [] ps = refl
player_ids-score_artists fake (pid ∷ ids) ps = elim (Bool-cases (is_id fake pid)) [
  | inl t ↦ rw t (player_ids-score_artists fake ids ps)
  | inr t ↦
      rw t (player_ids-score_artists fake ids (add_score pid 1 ps) ∙ player_ids-add_score pid 1 ps)
]

player_ids-score_fake :
    (fake : Option Str) (n : ℕ) (ps : List Player)
    → player_ids (score_fake fake n ps) ≡ player_ids ps
unfolding score_fake
player_ids-score_fake none n ps = refl
player_ids-score_fake (some id) n ps = player_ids-add_score id n ps

pub player_ids-round_scores :
    (caught guessed : Bool) (r : Round) (ps : List Player)
    → player_ids (round_scores caught guessed r ps) ≡ player_ids ps
unfolding round_scores
player_ids-round_scores true true r ps = player_ids-score_fake r.fake_id 2 ps
player_ids-round_scores true false r ps = player_ids-score_artists r.fake_id r.turn_order ps
player_ids-round_scores false _ r ps = player_ids-score_fake r.fake_id 1 ps

pub Unique-snoc : (x : Str) (xs : List Str) → Fresh x xs → Unique xs → Unique (xs ++ x ∷ [])
Unique-snoc x [] f u = (tt, tt)
Unique-snoc x (y ∷ ys) f u = (Fresh-snoc y ys (λ e. f.0 (sym e)) u.0, Unique-snoc x ys f.1 u.1)
  where
    Fresh-snoc : (z : Str) (zs : List Str) → x ≢ z → Fresh z zs → Fresh z (zs ++ x ∷ [])
    Fresh-snoc z [] ne g = (ne, tt)
    Fresh-snoc z (w ∷ ws) ne g = (g.0, Fresh-snoc z ws ne g.1)

-- Nothing but the players has changed.
pub with_players-IsValid :
    (s t : GameState)
    → IsValid s
    → Unique (player_ids t.players)
    → t.config ≡ s.config
    → t.status ≡ s.status
    → t.current_round ≡ s.current_round
    → IsValid t
with_players-IsValid s t v u c p r = record {
  ids = u;
  some_stroke = subst (λ z. 0 < z.strokes_per_artist) (sym c) v.some_stroke;
  some_player = subst (λ z. 0 < z.min_players) (sym c) v.some_player;
  phase = rw (c, p, r) v.phase;
}
