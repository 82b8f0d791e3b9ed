-- ===== src/Engine/Rounds.antt =====
-- frontend/p2p/engine.ts: how many rounds a game can have.
use fakeartist.Prelude.{
  ℕ, ◌+◌, List, [], ◌∷◌, true, false, not, Str, ◌≡◌, ◌≢◌, refl, sym, ap, subst, ◌∙◌, ◌⊎◌, inl, inr,
  arith, length, some_is,
}
use fakeartist.Models.{
  GameStatus, lobby, writing, round_announce, round_summary, game_over, WordCard, GameState, Point,
}
use fakeartist.Protocol.{
  ClientCommand, join_game, configure_game, submit_words, start_game, start_round, submit_stroke,
  JoinGamePayload, ConfigPatch, ℤ, cast_vote, submit_fake_guess, next_round, end_game,
}
use fakeartist.Engine.State.{Env, IsRandom, Engine, broadcast_state, emit_broadcast, emit}
use fakeartist.Engine.Round.{
  unused, check_game_over, finish_game, archive_current_round, is_game_over, finalize_round,
}
use fakeartist.Engine.Flow.{
  stay, play, lead, PlayEdge, HostEdge, all_drawn, fake_caught, fake_missed, guess_made,
  words_asked, first_round, round_begun, another_round, ended, dispatch-Move,
}
use fakeartist.Engine.Invariant.{Unique}
use fakeartist.Engine.Roster.{
  handle_join, handle_configure, handle_submit_words, reconnect_player, enroll,
}
use fakeartist.Engine.Play.{handle_submit_stroke, handle_cast_vote, handle_fake_guess}
use fakeartist.Engine.Frame.{welcome-state}
use fakeartist.Engine.State.{emit_direct}
use fakeartist.Engine.Roster.{welcome, resend_role}
use fakeartist.Engine.Dispatch.{
  dispatch, advance, handle_next_round, handle_start_game, handle_start_round, handle_end_game,
  end_now,
}
use fakeartist.Engine.Cards.{card_ids, left, Deals}
use fakeartist.Engine.Steps.{Step, archive-pool, archive-drawer, next_round-Step}

-- Words are only taken, and the first round only begins, in the status `writing`.
abbrev pub IsPlaying : Engine → Type 0
IsPlaying e = (e.state.status ≢ lobby) × (e.state.status ≢ writing)

-- Whether a round begins after another.
unfoldable pub opens : GameStatus → GameStatus → ℕ
opens round_summary round_announce = 1
opens _ _ = 0

opens-Steady : (s t : GameStatus) → (s ≡ round_summary → t ≢ round_announce) → opens s t ≡ 0
unfolding opens
opens-Steady s t h = grind (arith, h)

module _ (env : Env) where
  -- A step by its three parts.
  by_parts :
      (e f : Engine)
      → f.state.pool ≡ e.state.pool
      → f.has_drawer ≡ e.has_drawer
      → (f.state.status ≡ e.state.status) ⊎ (f.state.status ≢ round_announce)
      → Step e f
  by_parts e f p d (inl s) =
      inl (record { pool = p; drawer = d; round = λ a b. grind (arith, a, b, s) })
  by_parts e f p d (inr n) = inl (record { pool = p; drawer = d; round = λ a. n })

  welcome-drawer : (id : Str) (e : Engine) → (welcome id e).has_drawer ≡ e.has_drawer
  unfolding welcome resend_role broadcast_state emit_broadcast emit_direct emit
  welcome-drawer id e = ground arith

  join-Step : (p : JoinGamePayload) (from : Str) (e : Engine) → Step e (handle_join env p from e)
  unfolding handle_join reconnect_player enroll
  join-Step p from e =
      by_parts e _ (grind (arith, welcome-state, welcome-drawer))
        (grind (arith, welcome-state, welcome-drawer))
        (grind (arith, welcome-state, welcome-drawer))

  configure-Step :
      (p : ConfigPatch ℤ) (from : Str) (e : Engine)
      → IsPlaying e
      → Step e (handle_configure p from e)
  unfolding handle_configure
  configure-Step p from e h = by_parts e _ (grind (arith, h)) (grind (arith, h)) (grind (arith, h))

  words-Step :
      (words : List Str) (from : Str) (e : Engine)
      → IsPlaying e
      → Step e (handle_submit_words env words from e)
  unfolding handle_submit_words
  words-Step words from e h = by_parts e _ (grind (arith, h)) (grind (arith, h)) (grind (arith, h))

  start_game-Step : (from : Str) (e : Engine) → IsPlaying e → Step e (handle_start_game from e)
  unfolding handle_start_game
  start_game-Step from e h = by_parts e _ (grind (arith, h)) (grind (arith, h)) (grind (arith, h))

  start_round-Step :
      (from : Str) (e : Engine) → IsPlaying e → Step e (handle_start_round env from e)
  unfolding handle_start_round
  start_round-Step from e h = by_parts e _ (grind (arith, h)) (grind (arith, h)) (grind (arith, h))

  stroke-Step :
      (points : List Point) (from : Str) (e : Engine) → Step e (handle_submit_stroke points from e)
  unfolding handle_submit_stroke
  stroke-Step points from e = by_parts e _ (grind arith) (grind arith) (grind arith)

  vote-Step : (suspect from : Str) (e : Engine) → Step e (handle_cast_vote suspect from e)
  unfolding handle_cast_vote
  vote-Step suspect from e = by_parts e _ (grind arith) (grind arith) (grind arith)

  guess-Step : (guess from : Str) (e : Engine) → Step e (handle_fake_guess env guess from e)
  unfolding handle_fake_guess finalize_round
  guess-Step guess from e = by_parts e _ (grind arith) (grind arith) (grind arith)

  end_game-Step : (from : Str) (e : Engine) → Step e (handle_end_game from e)
  unfolding handle_end_game end_now
  end_game-Step from e =
      by_parts e _ (grind (arith, archive-pool e)) (grind (arith, archive-drawer e)) (grind arith)

module _ (env : Env) (fair : IsRandom env) where
  dispatch-Step :
      (c : ClientCommand) (from : Str) (e : Engine)
      → IsPlaying e
      → e.has_drawer ≡ false
      → Unique (card_ids e.state.pool)
      → Step e (dispatch env c from e)
  unfolding dispatch
  dispatch-Step (join_game p) from e h n u = join-Step env p from e
  dispatch-Step (configure_game p) from e h n u = configure-Step env p from e h
  dispatch-Step (submit_words words) from e h n u = words-Step env words from e h
  dispatch-Step start_game from e h n u = start_game-Step env from e h
  dispatch-Step start_round from e h n u = start_round-Step env from e h
  dispatch-Step (submit_stroke points) from e h n u = stroke-Step env points from e
  dispatch-Step (cast_vote suspect) from e h n u = vote-Step env suspect from e
  dispatch-Step (submit_fake_guess guess) from e h n u = guess-Step env guess from e
  dispatch-Step next_round from e h n u = next_round-Step env fair from e n u
  dispatch-Step end_game from e h n u = end_game-Step env from e

  played : {s t : GameStatus} → PlayEdge s t → (t ≢ lobby) × (t ≢ writing)
  played (all_drawn a b) = ((λ k. grind (arith, b, k)), (λ k. grind (arith, b, k)))
  played (fake_caught a b) = ((λ k. grind (arith, b, k)), (λ k. grind (arith, b, k)))
  played (fake_missed a b) = ((λ k. grind (arith, b, k)), (λ k. grind (arith, b, k)))
  played (guess_made a b) = ((λ k. grind (arith, b, k)), (λ k. grind (arith, b, k)))

  led : {s t : GameStatus} → HostEdge s t → s ≢ lobby → (t ≢ lobby) × (t ≢ writing)
  led (words_asked a b) n = absurd (n a)
  led (first_round a b) n = ((λ k. grind (arith, b, k)), (λ k. grind (arith, b, k)))
  led (round_begun a b) n = ((λ k. grind (arith, b, k)), (λ k. grind (arith, b, k)))
  led (another_round a b) n = ((λ k. grind (arith, b, k)), (λ k. grind (arith, b, k)))
  led (ended b) n = ((λ k. grind (arith, b, k)), (λ k. grind (arith, b, k)))

  -- No command leads back to the lobby or to the writing of words.
  dispatch-IsPlaying :
      (c : ClientCommand) (from : Str) (e : Engine)
      → IsPlaying e
      → IsPlaying (dispatch env c from e)
  dispatch-IsPlaying c from e h = elim (dispatch-Move env c from e) [
    | stay s ↦ ((λ k. h.0 (sym s ∙ k)), (λ k. h.1 (sym s ∙ k)))
    | play p ↦ played p
    | lead a q ↦ led q h.0
  ]

  -- The commands that the engine gets, with their senders, and how many rounds begin by them.
  unfoldable pub play_all : List (Str × ClientCommand) → Engine → Engine
  play_all [] e = e
  play_all ((from, c) ∷ cs) e = play_all cs (dispatch env c from e)

  unfoldable pub rounds_of : List (Str × ClientCommand) → Engine → ℕ
  unfolding opens
  rounds_of [] e = 0
  rounds_of ((from, c) ∷ cs) e =
      let f = dispatch env c from e in opens e.state.status f.state.status + rounds_of cs f

  rounds_of-left :
      (cs : List (Str × ClientCommand)) (e : Engine)
      → IsPlaying e
      → e.has_drawer ≡ false
      → Unique (card_ids e.state.pool)
      → rounds_of cs e + left (play_all cs e) ≡ left e
  unfolding rounds_of play_all
  rounds_of-left [] e h n u = omega arith
  rounds_of-left ((from, c) ∷ cs) e h n u =
      let f = dispatch env c from e in
      let on = dispatch-IsPlaying c from e h in
      elim (dispatch-Step c from e h n u) [
        | inl k ↦
            let rest =
              rounds_of-left cs f on (k.drawer ∙ n)
                (subst (λ q. Unique (card_ids q)) (sym k.pool) u) in
            omega (
              arith,
              rest,
              opens-Steady e.state.status f.state.status k.round,
              ap (λ q. length (unused q)) k.pool,
            )
        | inr k ↦
            let rest = rounds_of-left cs f on (k.drawer ∙ n) (subst Unique (sym k.ids) u) in
            omega (arith, rest, k.left, opened_once e f k)
      ]
    where
      opened_once : (e f : Engine) → Deals e f → opens e.state.status f.state.status ≡ 1
      opened_once e f k = rw (k.before, k.after) refl

  unused_none :
      (cs : List WordCard)
      → length (unused cs) ≡ 0
      → some_is (λ (c : WordCard). not c.used) cs ≡ false
  unused_none [] h = refl
  unused_none (c ∷ cs) h = ground (arith, h, unused_none cs)

  is_over : (s : GameState) → length (unused s.pool) ≡ 0 → is_game_over s ≡ true
  unfolding is_game_over
  is_over s h = ground (arith, unused_none s.pool h)

  out_of_cards :
      (e : Engine)
      → left e ≡ 0
      → e.state.status ≡ round_summary
      → (dispatch env next_round e.state.host_id e).state.status ≡ game_over
  unfolding dispatch handle_next_round advance check_game_over finish_game broadcast_state
  out_of_cards e l s =
      let a = archive_current_round e in
      let over : is_game_over a.state ≡ true =
        is_over a.state (ap (λ q. length (unused q)) (archive-pool e) ∙ l) in
      ground (arith, s, over)

  -- What is left of the cards bounds the rounds to come, and without one the host's NEXT_ROUND ends the
  -- game.
  pub record Ends (cs : List (Str × ClientCommand)) (e : Engine) : Type 0 where
    pub spent : rounds_of cs e + left (play_all cs e) ≡ left e
    pub last :
        left (play_all cs e) ≡ 0
        → (play_all cs e).state.status ≡ round_summary
        → (dispatch env next_round (play_all cs e).state.host_id (play_all cs e)).state.status
          ≡ game_over

  -- With random numbers in range, without a drawer, past the lobby and the writing of words, and
  -- with different ids on the cards: through every sequence of commands the rounds that begin
  -- after another and the unused cards at the end are together the unused cards at the start, so
  -- that there are no more such rounds than cards; and if none is left in the summary of a round,
  -- the NEXT_ROUND of the host ends the game.
  pub play_all-Ends :
      (cs : List (Str × ClientCommand)) (e : Engine)
      → IsPlaying e
      → e.has_drawer ≡ false
      → Unique (card_ids e.state.pool)
      → Ends cs e
  play_all-Ends cs e h n u = record {
    spent = rounds_of-left cs e h n u;
    last = out_of_cards (play_all cs e);
  }
