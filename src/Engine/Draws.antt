-- ===== src/Engine/Draws.antt =====
-- frontend/p2p/engine.ts, `prepareRound` and `prepareRoundServer`: what a new round is like.
use fakeartist.Prelude.{
  ℕ, zero, suc, ◌+◌, ◌≤◌, ◌<◌, List, [], ◌∷◌, Bool, true, false, some, Str, ◌≡◌, refl, ap, sym, ◌∙◌,
  subst, ◌⊎◌, inl, inr, arith, length, includes, ltb, ◌≢◌, get_or, count, length-map,
}
use fakeartist.Models.{round_announce, Round, GameState, WordCard}
use fakeartist.Engine.State.{Env, IsRandom, Engine, emit_direct, emit, or_empty}
use fakeartist.Engine.Random.{shuffle}
use fakeartist.Engine.Random.Shuffle.{count-shuffle, length-shuffle}
use fakeartist.Engine.Round.{
  unused, player_ids, next_index, fresh_round, tell_roles, open_round, deal, prepare_round,
  finish_game,
}
use fakeartist.Engine.Frame.{tell_roles-state}

module _ {A : Type 0} where
  -- `a` stands in the list.
  abbrev pub In : A → List A → Type 0
  In a [] = ⊥
  In a (x ∷ xs) = (x ≡ a) ⊎ In a xs

  pub get_or-In : (xs : List A) (i : ℕ) (d : A) → i < length xs → In (get_or xs i d) xs
  get_or-In [] i d h = absurd (omega arith)
  get_or-In (x ∷ xs) zero d h = inl refl
  get_or-In (x ∷ xs) (suc i) d h = inr (get_or-In xs i d (omega arith))

In-includes : (x : Str) (xs : List Str) → In x xs → includes xs x ≡ true
In-includes x [] h = absurd h
In-includes x (y ∷ xs) (inl e) = ground (arith, e)
In-includes x (y ∷ xs) (inr h) = ground (arith, In-includes x xs h)

-- The round that a game has after its players were dealt in: one of the cards that were unused, its
-- word for the artists, the players in some order, and the fake among them.
pub record IsDealt (e f : Engine) : Type 0 where
  pub round : Round
  pub card : WordCard
  pub fake : Str
  pub announced : f.state.status ≡ round_announce
  pub current : f.state.current_round ≡ some round
  pub next : round.index ≡ next_index e.state.current_round
  pub unused_before : In card (unused e.state.pool)
  pub card_named : round.card_id ≡ some card.id
  pub word_kept : f.private_round_word ≡ some (or_empty card.word)
  pub fake_named : round.fake_id ≡ some fake
  pub fake_plays : includes round.turn_order fake ≡ true
  pub all_play : (x : Str) → count x round.turn_order ≡ count x (player_ids e.state.players)

tell_roles-word :
    (fake word : Str) (ids : List Str) (e : Engine)
    → (tell_roles fake word ids e).private_round_word ≡ e.private_round_word
unfolding tell_roles emit_direct emit
tell_roles-word fake word [] e = refl
tell_roles-word fake word (pid ∷ ids) e = tell_roles-word fake word ids _

-- Telling the roles does not change what was dealt.
told-IsDealt :
    (fake word : Str) (ids : List Str) (e f : Engine)
    → IsDealt e f
    → IsDealt e (tell_roles fake word ids f)
told-IsDealt fake word ids e f d = record {
  round = d.round;
  card = d.card;
  fake = d.fake;
  announced = ap (λ (s : GameState). s.status) (tell_roles-state fake word ids f) ∙ d.announced;
  current = ap (λ (s : GameState). s.current_round) (tell_roles-state fake word ids f) ∙ d.current;
  next = d.next;
  unused_before = d.unused_before;
  card_named = d.card_named;
  word_kept = tell_roles-word fake word ids f ∙ d.word_kept;
  fake_named = d.fake_named;
  fake_plays = d.fake_plays;
  all_play = d.all_play;
}

module _ (env : Env) (fair : IsRandom env) where
  deal-IsDealt :
      (first : WordCard) (rest : List WordCard) (e : Engine)
      → 0 < length e.state.players
      → unused e.state.pool ≡ first ∷ rest
      → IsDealt e (deal env first rest e)
  unfolding deal fresh_round open_round
  deal-IsDealt first rest e n u = told-IsDealt _ _ _ e _ (record {
    round = _;
    card = card;
    fake = _;
    announced = refl;
    current = refl;
    next = refl;
    unused_before = subst (In card) (sym u) (
        get_or-In (first ∷ rest) (env.random e.calls (length (first ∷ rest))) first
          (fair e.calls (length (first ∷ rest)) (omega arith)));
    card_named = refl;
    word_kept = refl;
    fake_named = refl;
    fake_plays =
        In-includes (get_or order (env.random i (length order)) []) order
          (get_or-In order (env.random i (length order)) [] (fair i (length order) some_player));
    all_play = λ x. count-shuffle env fair x (e.calls + 1) (player_ids e.state.players);
  })
    where
      card : WordCard
      card = get_or (first ∷ rest) (env.random e.calls (length (first ∷ rest))) first

      order : List Str
      order = (shuffle env (e.calls + 1) (player_ids e.state.players)).0

      i : ℕ
      i = (shuffle env (e.calls + 1) (player_ids e.state.players)).1

      some_player : 0 < length order
      some_player = omega (
        arith,
        n,
        length-shuffle env (e.calls + 1) (player_ids e.state.players),
        length-map e.state.players (λ p. p.id),
      )

  -- With random numbers in range, enough players, at least one of them required, and an unused
  -- card, a local round is prepared and is well dealt: the next index, one of the unused cards
  -- with its word, all players as often as before in the turn order, and a fake from that order.
  pub prepare_round-IsDealt :
      (e : Engine)
      → 0 < e.state.config.min_players
      → e.state.config.min_players ≤ length e.state.players
      → unused e.state.pool ≢ []
      → ((prepare_round env e).0 ≡ true) × IsDealt e (prepare_round env e).1
  unfolding prepare_round
  prepare_round-IsDealt e m n u = rw not_few (dealt (unused e.state.pool) refl)
    where
      not_few : ltb (length e.state.players) e.state.config.min_players ≡ false
      not_few = ground arith

      dealt :
          (us : List WordCard)
          → unused e.state.pool ≡ us
          → let z : Bool × Engine = elim us [
            | [] ↦ (false, finish_game e)
            | first ∷ rest ↦ (true, deal env first rest e)
          ] in
            (z.0 ≡ true) × IsDealt e z.1
      dealt [] q = absurd (u q)
      dealt (first ∷ rest) q = (refl, deal-IsDealt first rest e (omega arith) q)
