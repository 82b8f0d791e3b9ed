-- ===== src/Engine/Undone.antt =====
-- frontend/p2p/engine.ts, `handleNextRound`, `handleEndGame` and `prepareRoundServer`: an end of the
-- game that the answer to a draw undoes.
use fakeartist.Prelude.{
  List, [], ◌∷◌, ◌++◌, Bool, true, false, Option, none, some, Str, ◌≡◌, refl, sym, ◌∙◌, ap, subst,
  length, ltb, ◌==◌, map, nat_eq, some_is, Bool-cases, inl, inr, if◌then◌else◌, str_discrete,
}
use fakeartist.Models.{
  GameStatus, lobby, writing, drawing, voting, fake_guessing, round_summary, round_announce,
  game_over, Round, GameState,
}
use fakeartist.Protocol.{end_game, next_round}
use fakeartist.Engine.State.{
  Env, Engine, Output, PendingDraw, DrawResponse, drawn, draw_request, emit, set_status,
  broadcast_state, require_host,
}
use fakeartist.Engine.State.{set_round}
use fakeartist.Engine.Frame.{tell_host-state}
use fakeartist.Engine.Tally.{best_of}
use fakeartist.Engine.Round.{
  unused, player_ids, next_index, fresh_round, open_round, pool_entry, request_draw,
  archive_current_round, check_game_over, is_game_over, assign_winner, finish_game, prepare_round,
  take_draw, finish_draw, assignment_of, or_none,
}
use fakeartist.Engine.Dispatch.{dispatch, handle_end_game, handle_next_round, advance, end_now}

-- The draw that the host's NEXT_ROUND asks for.
abbrev pub draw_for : Engine → PendingDraw
draw_for e = record {
  from = e.state.host_id;
  players = player_ids e.state.players;
  round_index = next_index e.state.current_round;
}

-- An archive changes the past rounds only.
archived :
    (e : Engine)
    → (ps : List Round) × (archive_current_round e
        ≡ record e { state = record e.state { past_rounds = ps } })
unfolding archive_current_round
archived e = go e.state.current_round
  where
    Kept : Engine → Type 0
    Kept f = (ps : List Round) × (f ≡ record e { state = record e.state { past_rounds = ps } })

    go :
        (o : Option Round)
        → (ps : List Round) × ((elim o as (λ _. Engine) [
          | none ↦ e
          | some r ↦
              if some_is (λ (p : Round). nat_eq p.index r.index) e.state.past_rounds
              then e
              else (record e {
                state = record e.state { past_rounds = e.state.past_rounds ++ r ∷ [] };
              })
        ])
            ≡ record e { state = record e.state { past_rounds = ps } })
    go none = (e.state.past_rounds, refl)
    go (some r) =
        elim (Bool-cases (some_is (λ (p : Round). nat_eq p.index r.index) e.state.past_rounds)) [
          | inl t ↦ (e.state.past_rounds, rw t refl)
          | inr t ↦ (e.state.past_rounds ++ r ∷ [], rw t refl)
        ]

same_str : (s : Str) → (s == s) ≡ true
same_str s = go (str_discrete s s)
  where
    go : (d : Dec (s ≡ s)) → elim d as (λ _. Bool) [ yes _ ↦ true | no _ ↦ false ] ≡ true
    go (yes p) = refl
    go (no f) = absurd (f refl)

over_same :
    (e : Engine) (ps : List Round)
    → is_game_over (record e.state { past_rounds = ps }) ≡ is_game_over e.state
unfolding is_game_over
over_same e ps = refl

not_over : (a : Engine) → is_game_over a.state ≡ false → check_game_over a ≡ (false, a)
unfolding check_game_over
not_over a g = ap (λ b. if◌then◌else◌ {A = Bool × Engine} b (true, finish_game a) (false, a)) g

-- The request that goes to the drawer.
abbrev pub request_of : Engine → Output
request_of e = draw_request e.state.id (draw_for e) (map pool_entry (unused e.state.pool))

requested :
    (a : Engine)
    → ltb (length a.state.players) a.state.config.min_players ≡ false
    → request_draw a.state.host_id a ≡ emit (request_of a) a
unfolding request_draw
requested a m = ap (λ b. if b then a else emit (request_of a) a) m

-- What END_GAME of the host leaves.
record IsOver (x y : Engine) : Type 0 where
  over : y.state.status ≡ game_over
  winner : y.state.winner ≡ best_of none x.state.players

archive-players : (x : Engine) → (archive_current_round x).state.players ≡ x.state.players
archive-players x = ap (λ (f : Engine). f.state.players) (archived x).1

end_now-IsOver : (x : Engine) → IsOver x (end_now x)
unfolding end_now broadcast_state assign_winner set_status
end_now-IsOver x = record { over = refl; winner = ap (best_of none) (kept x.state.status) }
  where
    kept :
        (s : GameStatus)
        → (elim s as (λ _. Engine) [
          | round_summary ↦ archive_current_round x
          | _ ↦ x
        ]).state.players
          ≡ x.state.players
    kept round_summary = archive-players x
    kept lobby = refl
    kept writing = refl
    kept round_announce = refl
    kept drawing = refl
    kept voting = refl
    kept fake_guessing = refl
    kept game_over = refl

-- The engine `e` before NEXT_ROUND, after it, after END_GAME, and after the answer: the draw is asked
-- for, the game is over with a winner, and then there is a new round, and still the winner.
pub record IsUndone (res : DrawResponse) (e asked ended answered : Engine) : Type 0 where
  pub request : asked.out ≡ e.out ++ request_of e ∷ []
  pub over : ended.state.status ≡ game_over
  pub winner : ended.state.winner ≡ best_of none e.state.players
  pub round : Round
  pub back : answered.state.status ≡ round_announce
  pub current : answered.state.current_round ≡ some round
  pub next : round.index ≡ next_index e.state.current_round
  pub card : round.card_id ≡ some res.card_id
  pub still : answered.state.winner ≡ best_of none e.state.players

finish_draw-winner :
    (env : Env) (req : PendingDraw) (res : DrawResponse) (e : Engine)
    → (finish_draw env req (drawn res) e).state.winner ≡ e.state.winner
unfolding finish_draw take_draw open_round broadcast_state set_status
finish_draw-winner env req res e =
    ap (λ (s : GameState). s.winner)
      (tell_host-state req.from (assignment_of req.from (or_none res.assignments)) _)

module _ (env : Env) where
  -- `handleNextRound` behind the check for the end.
  continue : Str → Bool → Engine → Engine
  continue from over c =
      if over
      then broadcast_state c
      else if c.has_drawer
      then request_draw from c
      else broadcast_state (prepare_round env c).1

  advance-continue :
      (from : Str) (e : Engine)
      → advance env from e
        ≡ continue from
            (check_game_over (archive_current_round e)).0
            (check_game_over (archive_current_round e)).1
  unfolding advance continue
  advance-continue from e = refl

  -- NEXT_ROUND of the host of a game that is not over, with a drawer and enough players.
  asks :
      (e : Engine)
      → e.state.status ≡ round_summary
      → is_game_over e.state ≡ false
      → e.has_drawer ≡ true
      → ltb (length e.state.players) e.state.config.min_players ≡ false
      → (ps : List Round) × (dispatch env next_round e.state.host_id e
          ≡ emit (request_of e) (record e { state = record e.state { past_rounds = ps } }))
  unfolding dispatch handle_next_round require_host continue
  asks e s g d m =
      let (ps, q) = archived e in
      let a : Engine = record e { state = record e.state { past_rounds = ps } } in
      (
        ps,
        go (e.state.host_id == e.state.host_id) e.state.status (same_str e.state.host_id) s
            ∙ advance-continue e.state.host_id e
            ∙ ap (λ x. continue e.state.host_id (check_game_over x).0 (check_game_over x).1) q
            ∙ ap (λ (z : Bool × Engine). continue e.state.host_id z.0 z.1)
                (not_over a (over_same e ps ∙ g))
            ∙ ap
                (λ b.
                  if b
                  then request_draw e.state.host_id a
                  else broadcast_state (prepare_round env a).1)
                d
            ∙ requested a m,
      )
    where
      go :
          (b : Bool) (s : GameStatus)
          → b ≡ true
          → s ≡ round_summary
          → (if b
              then elim s as (λ _. Engine) [ round_summary ↦ advance env e.state.host_id e | _ ↦ e ]
              else e)
            ≡ advance env e.state.host_id e
      go b s h k = rw (h, k) refl

  ends : (x : Engine) → IsOver x (dispatch env end_game x.state.host_id x)
  unfolding dispatch handle_end_game require_host
  ends x = subst (IsOver x) (sym same) (end_now-IsOver x)
    where
      same : (if x.state.host_id == x.state.host_id then end_now x else x) ≡ end_now x
      same = ap (λ b. if b then end_now x else x) (same_str x.state.host_id)

  -- In the summary of a round of a game that is not over, with a drawer and enough players,
  -- NEXT_ROUND of the host asks for one draw; END_GAME of the host, while it is awaited, ends the
  -- game and names a winner; and the answer that comes later puts the game back into the
  -- announcement of a new round, the next one with the answer's card, with the winner still
  -- named.
  pub finish_draw-IsUndone :
      (res : DrawResponse) (e : Engine)
      → e.state.status ≡ round_summary
      → is_game_over e.state ≡ false
      → e.has_drawer ≡ true
      → ltb (length e.state.players) e.state.config.min_players ≡ false
      → let asked = dispatch env next_round e.state.host_id e in
        let ended = dispatch env end_game e.state.host_id asked in
        IsUndone res e asked ended (finish_draw env (draw_for e) (drawn res) ended)
  unfolding emit finish_draw take_draw open_round fresh_round set_status set_round broadcast_state
  finish_draw-IsUndone res e s g d m =
      let (ps, q) = asks e s g d m in
      let x : Engine =
        emit (request_of e) (record e { state = record e.state { past_rounds = ps } }) in
      let k = ends x in
      subst
        (λ (a : Engine).
          IsUndone res e a (dispatch env end_game e.state.host_id a)
            (finish_draw env (draw_for e) (drawn res) (dispatch env end_game e.state.host_id a)))
        (sym q)
        (record {
          request = refl;
          over = k.over;
          winner = k.winner;
          round = _;
          back = refl;
          current = refl;
          next = refl;
          card = refl;
          still =
              finish_draw-winner env (draw_for e) res (dispatch env end_game e.state.host_id x)
              ∙ k.winner;
        })
