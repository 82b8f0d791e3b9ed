-- ===== src/Engine/Round.antt =====
-- frontend/p2p/engine.ts: the life of a round, from the draw of a card to the archive.
use fakeartist.Prelude.{
  ℕ, ◌+◌, List, [], ◌∷◌, ◌++◌, Bool, true, false, not, Option, none, some, Str, codes, ◌==◌, length,
  ltb, leb, nat_eq, get_or, get_elem?, keep_if, some_is, update_first, map, is_empty, if◌then◌else◌,
}
use fakeartist.Models.{
  round_announce, round_summary, game_over, RoundOutcome, fake_won, artists_won, Player, WordCard,
  Round, GameState, RolePayload,
}
use fakeartist.Protocol.{ServerEvent}
use fakeartist.Engine.State.{
  Env, Engine, Assignment, DrawResult, DrawResponse, drawn, failed, PendingDraw, PoolEntry,
  draw_request, emit, emit_direct, emit_error, broadcast_state, set_status, set_round, is_id,
  or_empty,
}
use fakeartist.Engine.Random.{shuffle}
use fakeartist.Engine.Tally.{add_score, best_of}

unfoldable pub assign_winner : Engine → Engine
assign_winner e = record e { state = record e.state { winner = best_of none e.state.players } }

-- The pair of statements that ends the game.
unfoldable pub finish_game : Engine → Engine
unfolding set_status assign_winner
finish_game e = assign_winner (set_status game_over e)

unfoldable pub archive_current_round : Engine → Engine
archive_current_round e = elim e.state.current_round [
  | none ↦ e
  | some r ↦
      if some_is (λ (p : Round). nat_eq p.index r.index) e.state.past_rounds
      then e
      else (record e { state = record e.state { past_rounds = e.state.past_rounds ++ r ∷ [] } })
]

abbrev pub unused : List WordCard → List WordCard
unused = keep_if (λ c. not c.used)

abbrev pub player_ids : List Player → List Str
player_ids = map (λ p. p.id)

unfoldable pub next_index : Option Round → ℕ
next_index none = 0
next_index (some r) = r.index + 1

-- The first card with the id.
unfoldable pub use_card : Str → List WordCard → List WordCard
use_card id = update_first (λ c. c.id == id) (λ c. record c { used = true })

unfoldable pub fresh_round : ℕ → Str → Str → List Str → Round
fresh_round index card_id fake_id turn_order = record {
  index = index;
  card_id = some card_id;
  fake_id = some fake_id;
  turn_order = turn_order;
  stroke_index = 0;
  strokes = [];
  votes = some [];
  votes_cast = 0;
  fake_guess = none;
  outcome = none;
  revealed_word = none;
}

-- `prepareRound` sends the fake no word and every other player the word, an empty one too.
unfoldable pub tell_roles : Str → Str → List Str → Engine → Engine
unfolding emit_direct
tell_roles fake word [] e = e
tell_roles fake word (pid ∷ ids) e =
    let role : RolePayload = record {
      is_fake = pid == fake;
      word = if pid == fake then none else some word;
    } in
    tell_roles fake word ids (emit_direct pid (ServerEvent.your_role role) e)

unfoldable pub open_round : Round → Engine → Engine
unfolding set_status set_round
open_round r e = set_status round_announce (set_round r e)

module _ (env : Env) where
  -- The card at a random position of the unused ones, which begin with `first`.
  unfoldable pub deal : WordCard → List WordCard → Engine → Engine
  unfolding fresh_round open_round
  deal first rest e =
      let card = get_or (first ∷ rest) (env.random e.calls (length (first ∷ rest))) first in
      let word = or_empty card.word in
      let (order, i) = shuffle env (e.calls + 1) (player_ids e.state.players) in
      let fake = get_or order (env.random i (length order)) [] in
      let round = fresh_round (next_index e.state.current_round) card.id fake order in
      let dealt = record e {
        state = record e.state { pool = use_card card.id e.state.pool };
        private_round_word = some word;
        calls = i + 1;
      } in
      tell_roles fake word order (open_round round dealt)

  -- The result tells whether a round was prepared.
  unfoldable pub prepare_round : Engine → Bool × Engine
  unfolding finish_game
  prepare_round e =
      if ltb (length e.state.players) e.state.config.min_players
      then (false, e)
      else elim (unused e.state.pool) [
        | [] ↦ (false, finish_game e)
        | first ∷ rest ↦ (true, deal first rest e)
      ]

abbrev pub pool_entry : WordCard → PoolEntry
pool_entry c = record { id = c.id; word = or_empty c.word; author_id = c.author_id }

-- `prepareRoundServer` up to its `await`; the caller has checked that there is a drawer.
unfoldable pub request_draw : Str → Engine → Engine
unfolding emit
request_draw from e =
    if ltb (length e.state.players) e.state.config.min_players
    then e
    else emit
        (draw_request e.state.id
          (record {
            from = from;
            players = player_ids e.state.players;
            round_index = next_index e.state.current_round;
          })
          (map pool_entry (unused e.state.pool)))
        e

-- The last fake and the last word among the assignments.
unfoldable pub secrets_of : List (Str × Assignment) → Str × Str → Str × Str
secrets_of [] s = s
secrets_of ((pid, a) ∷ given) (fake, word) = secrets_of given (
    if a.is_fake then (pid, word) else elim a.word [
      | none ↦ (fake, word)
      | some w ↦ if is_empty w then (fake, word) else (fake, w)
    ])

unfoldable pub assignment_of : Str → List (Str × Assignment) → Option Assignment
assignment_of id [] = none
assignment_of id ((pid, a) ∷ given) = if pid == id then some a else assignment_of id given

abbrev pub or_none : Option (List (Str × Assignment)) → List (Str × Assignment)
or_none none = []
or_none (some l) = l

unfoldable pub tell_host : Str → Option Assignment → Engine → Engine
unfolding emit_direct
tell_host from none e = e
tell_host from (some a) e =
    emit_direct from (ServerEvent.your_role (record { is_fake = a.is_fake; word = a.word })) e

module _ (env : Env) where
  -- `prepareRoundServer` from its `await` up to the host's role, which the listeners hear before the
  -- round is there.
  unfoldable pub take_draw : PendingDraw → DrawResponse → Engine → Engine
  take_draw req res e =
      let given = or_none res.assignments in
      tell_host req.from (assignment_of req.from given) (record e {
        state = record e.state { pool = use_card res.card_id e.state.pool };
        calls = (shuffle env e.calls req.players).1;
      })

  -- `prepareRoundServer` from its `await` on, in the state that it finds then.
  unfoldable pub finish_draw : PendingDraw → DrawResult → Engine → Engine
  unfolding emit_error fresh_round open_round broadcast_state take_draw
  finish_draw req (failed message) e = emit_error req.from (codes "role draw failed: " ++ message) e
  finish_draw req (drawn res) e =
      let given = or_none res.assignments in
      let (fake, word) = secrets_of given ([], []) in
      let order = (shuffle env e.calls req.players).0 in
      let kept = record (take_draw req res e) {
        private_round_word = some word;
        private_round_commitment = some res.fake_id_commitment;
      } in
      broadcast_state (open_round (fresh_round req.round_index res.card_id fake order) kept)

-- One point for each player of the turn order but the fake.
unfoldable pub score_artists : Option Str → List Str → List Player → List Player
unfolding add_score
score_artists fake [] ps = ps
score_artists fake (pid ∷ ids) ps =
    score_artists fake ids (if is_id fake pid then ps else add_score pid 1 ps)

-- `findPlayer(undefined)` finds nobody.
unfoldable pub score_fake : Option Str → ℕ → List Player → List Player
unfolding add_score
score_fake none n ps = ps
score_fake (some id) n ps = add_score id n ps

unfoldable pub round_outcome : Bool → Bool → RoundOutcome
round_outcome true false = artists_won
round_outcome true true = fake_won
round_outcome false _ = fake_won

unfoldable pub round_scores : Bool → Bool → Round → List Player → List Player
unfolding score_artists score_fake
round_scores true true r ps = score_fake r.fake_id 2 ps
round_scores true false r ps = score_artists r.fake_id r.turn_order ps
round_scores false _ r ps = score_fake r.fake_id 1 ps

-- `winner` is the object of a player, so that its score moves too. It is there when an answer to a
-- draw has undone the end of the game.
unfoldable pub scored_winner : Bool → Bool → Round → Option Player → Option Player
unfolding round_scores
scored_winner caught guessed r none = none
scored_winner caught guessed r (some w) = get_elem? (round_scores caught guessed r (w ∷ [])) 0

unfoldable pub finalize_round : Round → Bool → Bool → Engine → Engine
unfolding round_outcome scored_winner
finalize_round r caught guessed e = record e {
  state = record e.state {
    status = round_summary;
    players = round_scores caught guessed r e.state.players;
    winner = scored_winner caught guessed r e.state.winner;
    current_round = some (record r {
      revealed_word = some (or_empty e.private_round_word);
      outcome = some (round_outcome caught guessed);
    });
  };
}

unfoldable pub is_game_over : GameState → Bool
is_game_over s =
    if some_is (λ (p : Player). leb s.config.target_score p.score) s.players
    then true
    else not (some_is (λ (c : WordCard). not c.used) s.pool)

unfoldable pub check_game_over : Engine → Bool × Engine
unfolding finish_game
check_game_over e = if is_game_over e.state then (true, finish_game e) else (false, e)
