-- ===== src/Engine/Invariant/Run.antt =====
-- frontend/p2p/engine.ts: all that can happen to an engine, and what holds ever after.
use fakeartist.Prelude.{ℕ, ◌<◌, Bool, false, Str, ◌≡◌, refl, length, All, is_empty}
use fakeartist.Protocol.{
  ConfigPatch, ClientCommand, join_game, configure_game, submit_words, start_game, start_round,
  submit_stroke, cast_vote, submit_fake_guess, next_round, end_game,
}
use fakeartist.Engine.State.{Env, IsRandom, Engine, PendingDraw, DrawResult, new_engine}
use fakeartist.Engine.Round.{finish_draw}
use fakeartist.Engine.Dispatch.{dispatch}
use fakeartist.Engine.Secrecy.{IsDiscreet, IsFairAnswer, dispatch-Discreet, finish_draw-Discreet}
use fakeartist.Engine.Invariant.{Unique, IsValid}
use fakeartist.Engine.Invariant.Strokes.{stroke-IsValid}
use fakeartist.Engine.Invariant.Voting.{vote-IsValid, guess-IsValid}
use fakeartist.Engine.Invariant.Roster.{
  join-IsValid, configure-IsValid, words-IsValid, start_game-IsValid,
}
use fakeartist.Engine.Invariant.Draws.{
  start_round-IsValid, next_round-IsValid, finish_draw-IsValid, end_game-IsValid,
}

-- Every command of a named sender keeps the state valid.
dispatch-IsValid :
    (env : Env) (c : ClientCommand) (from : Str) (e : Engine)
    → IsRandom env
    → is_empty from ≡ false
    → IsValid e.state
    → IsValid (dispatch env c from e).state
unfolding dispatch
dispatch-IsValid env (join_game p) from e fair n v = join-IsValid env p from e n v
dispatch-IsValid env (configure_game p) from e fair n v = configure-IsValid p from e v
dispatch-IsValid env (submit_words words) from e fair n v = words-IsValid env words from e v
dispatch-IsValid env start_game from e fair n v = start_game-IsValid from e v
dispatch-IsValid env start_round from e fair n v = start_round-IsValid env fair from e v
dispatch-IsValid env (submit_stroke points) from e fair n v = stroke-IsValid points from e v
dispatch-IsValid env (cast_vote suspect) from e fair n v = vote-IsValid suspect from e v
dispatch-IsValid env (submit_fake_guess guess) from e fair n v = guess-IsValid env guess from e v
dispatch-IsValid env next_round from e fair n v = next_round-IsValid env fair from e v
dispatch-IsValid env end_game from e fair n v = end_game-IsValid from e v

-- One thing that happens: a command of a named sender, or the answer to a draw, at any moment.
pub data Step (env : Env) (e : Engine) : Engine → Type 0 where
  command :
      (c : ClientCommand) (from : Str) → is_empty from ≡ false → Step env e (dispatch env c from e)
  answer :
      (req : PendingDraw) (res : DrawResult)
      → Unique req.players
      → 0 < length req.players
      → IsFairAnswer res
      → Step env e (finish_draw env req res e)

pub data Reach (env : Env) (e : Engine) : Engine → Type 0 where
  here : Reach env e e
  next : {f g : Engine} → Reach env e f → Step env f g → Reach env e g

module _ (env : Env) (fair : IsRandom env) where
  Step-IsValid : {e f : Engine} → Step env e f → IsValid e.state → IsValid f.state
  Step-IsValid (command c from n) v = dispatch-IsValid env c from _ fair n v
  Step-IsValid (answer req res u n f) v = finish_draw-IsValid env fair req res _ u n v

  -- With random numbers in range, a state that is valid stays valid through every sequence of
  -- commands of named senders and of answers to draws that name different players, at least one.
  pub Reach-IsValid : {e f : Engine} → IsValid e.state → Reach env e f → IsValid f.state
  Reach-IsValid v here = v
  Reach-IsValid v (next r s) = Step-IsValid s (Reach-IsValid v r)

-- If all that was sent so far is discreet, it stays so through every sequence of commands of
-- named senders and of answers to draws that name different players, at least one, and assign no
-- word to a fake: states that are sent are public and go to all, strokes go to all, everything
-- else goes to one player, and no role tells the fake the word.
pub Reach-Discreet :
    {env : Env} {e f : Engine} → All IsDiscreet e.out → Reach env e f → All IsDiscreet f.out
Reach-Discreet h here = h
Reach-Discreet h (next r (command c from n)) = dispatch-Discreet _ c from _ (Reach-Discreet h r)
Reach-Discreet h (next r (answer req res u n f)) =
    finish_draw-Discreet _ req res _ f (Reach-Discreet h r)

-- A new engine with a sane configuration is valid and has sent nothing.
pub new_engine-IsValid :
    (room : Str) (c : ConfigPatch ℕ) (drawer : Bool)
    → 0 < (new_engine room c drawer).state.config.strokes_per_artist
    → 0 < (new_engine room c drawer).state.config.min_players
    → IsValid (new_engine room c drawer).state
unfolding new_engine
new_engine-IsValid room c drawer h k = record {
  ids = tt;
  some_stroke = h;
  some_player = k;
  phase = refl;
}
