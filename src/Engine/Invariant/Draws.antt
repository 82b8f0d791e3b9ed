-- ===== src/Engine/Invariant/Draws.antt =====
-- frontend/p2p/engine.ts: a drawn round and the end of the game keep the state valid.
use fakeartist.Prelude.{
  ℕ, ◌+◌, ◌*◌, ◌≤◌, ◌<◌, List, [], ◌∷◌, some, Str, ◌≡◌, refl, ap, sym, subst, subst₂, arith, length,
  length-map, Option-cases, inl, inr,
}
use fakeartist.Models.{round_announce, drawing, game_over, GameState, WordCard}
use fakeartist.Prelude.{count}
use fakeartist.Engine.State.{
  Env, IsRandom, Engine, DrawResult, drawn, failed, PendingDraw, set_status,
}
use fakeartist.Engine.Random.{shuffle}
use fakeartist.Engine.Random.Shuffle.{length-shuffle, count-shuffle}
use fakeartist.Engine.Round.{
  player_ids, fresh_round, deal, prepare_round, finish_game, archive_current_round, finish_draw,
  open_round,
}
use fakeartist.Engine.Frame.{tell_roles-state, tell_host-state, request_draw-state}
use fakeartist.Engine.Dispatch.{
  start_first_round, handle_start_round, advance, handle_next_round, end_now, handle_end_game,
}
use fakeartist.Engine.Invariant.{Fresh, Unique, RoundOk, Phase, IsValid}
use fakeartist.Engine.Invariant.Ids.{with_players-IsValid}

Fresh-of_count : (x : Str) (xs : List Str) → count x xs ≡ 0 → Fresh x xs
unfolding count
Fresh-of_count x [] h = tt
Fresh-of_count x (y ∷ ys) h = ground (arith, Fresh-of_count x ys)

count_of_Fresh : (x : Str) (xs : List Str) → Fresh x xs → count x xs ≡ 0
unfolding count
count_of_Fresh x [] h = refl
count_of_Fresh x (y ∷ ys) h = ground (arith, count_of_Fresh x ys)

count_of_Unique : (x : Str) (xs : List Str) → Unique xs → count x xs ≤ 1
unfolding count
count_of_Unique x [] u = omega arith
count_of_Unique x (y ∷ ys) u = ground (arith, count_of_Fresh y ys u.0, count_of_Unique x ys u.1)

count_self : (y : Str) (ys : List Str) → count y (y ∷ ys) ≡ 1 + count y ys
unfolding count
count_self y ys = ground arith

count-tail : (x y : Str) (ys : List Str) → count x ys ≤ count x (y ∷ ys)
unfolding count
count-tail x y ys = omega arith

Unique-of_count : (xs : List Str) → ((x : Str) → count x xs ≤ 1) → Unique xs
Unique-of_count [] h = tt
Unique-of_count (y ∷ ys) h = (
  Fresh-of_count y ys (omega (arith, h y, count_self y ys)),
  Unique-of_count ys (λ x. omega (arith, h x, count-tail x y ys)),
)

module _ (env : Env) (fair : IsRandom env) where
  shuffle-Unique : (i : ℕ) (xs : List Str) → Unique xs → Unique (shuffle env i xs).0
  shuffle-Unique i xs u =
      Unique-of_count _ (λ x. omega (arith, count-shuffle env fair x i xs, count_of_Unique x xs u))

fresh_round-RoundOk :
    (index : ℕ) (card fake : Str) (order : List Str)
    → Unique order
    → 0 < length order
    → RoundOk (fresh_round index card fake order)
unfolding fresh_round
fresh_round-RoundOk index card fake order u n = record {
  strokes_counted = refl;
  votes_counted = refl;
  one_vote_each = tt;
  ballots = tt;
  one_turn_each = u;
  some_artist = n;
}

pos-mul : {a b : ℕ} → 0 < a → 0 < b → 0 < a * b
pos-mul h k = grind arith

-- A round that has just been opened over valid players.
opened-IsValid :
    (s t : GameState) (index : ℕ) (card fake : Str) (order : List Str)
    → IsValid s
    → t.players ≡ s.players
    → t.config ≡ s.config
    → t.status ≡ round_announce
    → t.current_round ≡ some (fresh_round index card fake order)
    → Unique order
    → 0 < length order
    → IsValid t
unfolding fresh_round
opened-IsValid s t index card fake order v p c a r u n = record {
  ids = subst (λ z. Unique (player_ids z)) (sym p) v.ids;
  some_stroke = subst (λ z. 0 < z.strokes_per_artist) (sym c) v.some_stroke;
  some_player = subst (λ z. 0 < z.min_players) (sym c) v.some_player;
  phase = rw (a, r) (fresh_round-RoundOk index card fake order u n, refl, refl);
}

finish_game-IsValid : (e : Engine) → IsValid e.state → IsValid (finish_game e).state
unfolding finish_game
finish_game-IsValid e v = record {
  ids = v.ids;
  some_stroke = v.some_stroke;
  some_player = v.some_player;
  phase = tt;
}

-- The archive alone may grow.
archive-kept :
    (e : Engine)
    → ((archive_current_round e).state.players ≡ e.state.players)
      × ((archive_current_round e).state.config ≡ e.state.config)
      × ((archive_current_round e).state.status ≡ e.state.status)
      × ((archive_current_round e).state.current_round ≡ e.state.current_round)
unfolding archive_current_round
archive-kept e = ground arith

archive-IsValid : (e : Engine) → IsValid e.state → IsValid (archive_current_round e).state
archive-IsValid e v =
    let k = archive-kept e in with_players-IsValid e.state _ v (rw k.0 v.ids) k.1 k.2 k.3

module _ (env : Env) (fair : IsRandom env) where
  deal-IsValid :
      (first : WordCard) (rest : List WordCard) (e : Engine)
      → IsValid e.state
      → e.state.config.min_players ≤ length e.state.players
      → IsValid (deal env first rest e).state
  unfolding deal open_round
  deal-IsValid first rest e v n = subst IsValid (sym (tell_roles-state _ _ _ _)) (
      opened-IsValid e.state _ _ _ _ (shuffle env (e.calls + 1) (player_ids e.state.players)).0 v
        refl refl refl refl (shuffle-Unique env fair _ _ v.ids)
        (rw (length-shuffle, length-map) (omega (arith, v.some_player))))

  prepare_round-IsValid : (e : Engine) → IsValid e.state → IsValid (prepare_round env e).1.state
  unfolding prepare_round
  prepare_round-IsValid e v = grind (arith, deal-IsValid, finish_game-IsValid)

  start_first_round-IsValid :
      (from : Str) (e : Engine) → IsValid e.state → IsValid (start_first_round env from e).state
  unfolding start_first_round
  start_first_round-IsValid from e v =
      ground (arith, prepare_round-IsValid e v, request_draw-state from e)

  begin-IsValid :
      (e : Engine)
      → IsValid e.state
      → e.state.status ≡ round_announce
      → IsValid (set_status drawing e).state
  unfolding set_status
  begin-IsValid e v h = elim (Option-cases e.state.current_round) [
    | inl k ↦ absurd (subst₂ (Phase e.state.config) h k v.phase)
    | inr (r, k) ↦
        let now : Phase e.state.config round_announce (some r) =
          subst₂ (Phase e.state.config) h k v.phase in
        let some_room : 0 < e.state.config.strokes_per_artist * length r.turn_order =
          pos-mul v.some_stroke now.0.some_artist in
        record {
          ids = v.ids;
          some_stroke = v.some_stroke;
          some_player = v.some_player;
          phase = subst (Phase e.state.config drawing) (sym k) (now.0, rw now.1 some_room, now.2);
        }
  ]

  pub start_round-IsValid :
      (from : Str) (e : Engine) → IsValid e.state → IsValid (handle_start_round env from e).state
  unfolding handle_start_round
  start_round-IsValid from e v = grind (arith, start_first_round-IsValid, begin-IsValid)

  advance-IsValid : (from : Str) (e : Engine) → IsValid e.state → IsValid (advance env from e).state
  unfolding advance
  advance-IsValid from e v =
      let a = archive_current_round e in
      let av = archive-IsValid e v in
      ground
        (arith, av, prepare_round-IsValid a av, request_draw-state from a, finish_game-IsValid a av)

  pub next_round-IsValid :
      (from : Str) (e : Engine) → IsValid e.state → IsValid (handle_next_round env from e).state
  unfolding handle_next_round
  next_round-IsValid from e v = grind (arith, advance-IsValid)

  -- The draw comes back at any time; the players were valid when it was asked for.
  pub finish_draw-IsValid :
      (req : PendingDraw) (res : DrawResult) (e : Engine)
      → Unique req.players
      → 0 < length req.players
      → IsValid e.state
      → IsValid (finish_draw env req res e).state
  unfolding finish_draw
  finish_draw-IsValid req (failed message) e u n v = v
  finish_draw-IsValid req (drawn res) e u n v =
      opened-IsValid e.state _ _ _ _ (shuffle env e.calls req.players).0 v
        (ap (λ s. s.players) (tell_host-state _ _ _)) (ap (λ s. s.config) (tell_host-state _ _ _))
        refl refl (shuffle-Unique env fair _ _ u) (rw length-shuffle n)

-- A game that is over has valid players, and nothing more is asked of it.
over-IsValid :
    (s t : GameState)
    → IsValid s
    → t.players ≡ s.players
    → t.config ≡ s.config
    → t.status ≡ game_over
    → IsValid t
over-IsValid s t v p c h = record {
  ids = subst (λ z. Unique (player_ids z)) (sym p) v.ids;
  some_stroke = subst (λ z. 0 < z.strokes_per_artist) (sym c) v.some_stroke;
  some_player = subst (λ z. 0 < z.min_players) (sym c) v.some_player;
  phase = rw h tt;
}

end_now-IsValid : (e : Engine) → IsValid e.state → IsValid (end_now e).state
unfolding end_now
end_now-IsValid e v =
    over-IsValid e.state _ v (ground (arith, archive-kept e)) (ground (arith, archive-kept e)) refl

pub end_game-IsValid :
    (from : Str) (e : Engine) → IsValid e.state → IsValid (handle_end_game from e).state
unfolding handle_end_game
end_game-IsValid from e v = grind (arith, end_now-IsValid)
