-- ===== src/Sanitize.antt =====
-- frontend/p2p/sanitize.ts: what a broadcast shows of the state.
pub mod Secrecy
use fakeartist.Prelude.{ℕ, List, map, Option, none, some, length}
use fakeartist.Models.{
  GameStatus, round_summary, game_over, RoundOutcome, undecided, WordCard, Round, GameState,
}

unfoldable pub strip_word : WordCard → WordCard
strip_word c = record c { word = none }

-- The secrets of a round that is not over.
unfoldable pub strip_round : Round → Round
strip_round r = record r {
  card_id = none;
  fake_id = none;
  revealed_word = none;
  fake_guess = none;
  votes = none;
  outcome = some undecided;
}

unfoldable pub sanitize_round : GameStatus → Round → Round
unfolding strip_round
sanitize_round round_summary r = r
sanitize_round game_over r = r
sanitize_round _ r = strip_round r

unfoldable pub sanitize : GameState → GameState
unfolding strip_word sanitize_round
sanitize s =
    let pool = map strip_word s.pool in
    record s {
      pool = pool;
      pool_size = length pool;
      current_round = elim s.current_round [
        | none ↦ none
        | some r ↦ some (sanitize_round s.status r)
      ];
    }
