-- ===== src/Engine/Steps.antt =====
-- frontend/p2p/engine.ts, `handleNextRound`: a round that begins uses up a card.
use fakeartist.Prelude.{
  List, [], ◌∷◌, Bool, true, false, Str, ◌≡◌, refl, sym, ap, subst, ◌∙◌, ◌⊎◌, inl, inr, arith,
  length, ltb, Bool-cases,
}
use fakeartist.Models.{GameStatus, round_summary, WordCard}
use fakeartist.Engine.State.{
  Env, IsRandom, Engine, broadcast_state, emit_broadcast, emit, require_host,
}
use fakeartist.Engine.Round.{
  unused, deal, prepare_round, check_game_over, finish_game, archive_current_round, is_game_over,
}
use fakeartist.Engine.Flow.{deal-status, archive-status}
use fakeartist.Engine.Invariant.{Unique}
use fakeartist.Engine.Dispatch.{advance, handle_next_round}
use fakeartist.Engine.Cards.{card_ids, Steady, Deals, deal-left, deal-drawer}

-- No round begins, or one does and a card is used up.
abbrev pub Step : Engine → Engine → Type 0
Step e f = Steady e f ⊎ Deals e f

pub archive-pool : (e : Engine) → (archive_current_round e).state.pool ≡ e.state.pool
unfolding archive_current_round
archive-pool e = ground arith

pub archive-drawer : (e : Engine) → (archive_current_round e).has_drawer ≡ e.has_drawer
unfolding archive_current_round
archive-drawer e = ground arith

module _ (env : Env) (fair : IsRandom env) where
  prepare_round-Step :
      (e : Engine)
      → e.state.status ≡ round_summary
      → Unique (card_ids e.state.pool)
      → Step e (prepare_round env e).1
  unfolding prepare_round
  prepare_round-Step e s u =
      elim (Bool-cases (ltb (length e.state.players) e.state.config.min_players)) [
        | inl t ↦
            rw t (inl (record { pool = refl; drawer = refl; round = λ a b. grind (arith, s, b) }))
        | inr t ↦ rw t (dealt (unused e.state.pool) refl)
      ]
    where
      dealt :
          (cs : List WordCard)
          → unused e.state.pool ≡ cs
          → let p : Bool × Engine = elim cs [
            | [] ↦ (false, finish_game e)
            | first ∷ rest ↦ (true, deal env first rest e)
          ] in
            Step e p.1
      dealt [] h = inl (record { pool = refl; drawer = refl; round = λ a b. cc })
      dealt (first ∷ rest) h =
          let d = deal-left env fair first rest e u h in
          inr (record {
            ids = d.0;
            left = d.1;
            drawer = deal-drawer env fair first rest e;
            before = s;
            after = deal-status env first rest e;
          })

  -- What a step from an engine is from another with the same cards.
  Step-from :
      (a e f : Engine)
      → a.state.pool ≡ e.state.pool
      → a.has_drawer ≡ e.has_drawer
      → a.state.status ≡ e.state.status
      → Step a f
      → Step e f
  Step-from a e f p d s (inl k) =
      inl (record { pool = k.pool ∙ p; drawer = k.drawer ∙ d; round = λ b. k.round (s ∙ b) })
  Step-from a e f p d s (inr k) = inr (record {
    ids = k.ids ∙ ap card_ids p;
    left = k.left ∙ ap (λ cs. length (unused cs)) p;
    drawer = k.drawer ∙ d;
    before = sym s ∙ k.before;
    after = k.after;
  })

  sent-Step : (e f : Engine) → Step e f → Step e (broadcast_state f)
  unfolding broadcast_state emit_broadcast emit
  sent-Step e f (inl k) = inl (record { pool = k.pool; drawer = k.drawer; round = k.round })
  sent-Step e f (inr k) =
      inr (record {
        ids = k.ids;
        left = k.left;
        drawer = k.drawer;
        before = k.before;
        after = k.after;
      })

  -- Without a drawer the game ends, or a round is prepared.
  advance_cases :
      (from : Str) (e : Engine)
      → e.has_drawer ≡ false
      → (advance env from e ≡ broadcast_state (finish_game (archive_current_round e)))
        ⊎ (advance env from e ≡ broadcast_state (prepare_round env (archive_current_round e)).1)
  unfolding advance check_game_over
  advance_cases from e n = elim (Bool-cases (is_game_over (archive_current_round e).state)) [
    | inl t ↦ inl (ground (arith, t))
    | inr t ↦ inr (ground (arith, t, archive-drawer e, n))
  ]

  advance-Step :
      (from : Str) (e : Engine)
      → e.has_drawer ≡ false
      → e.state.status ≡ round_summary
      → Unique (card_ids e.state.pool)
      → Step e (advance env from e)
  unfolding finish_game
  advance-Step from e n s u =
      let a = archive_current_round e in
      elim (advance_cases from e n) [
        | inl t ↦ subst (Step e) (sym t) (sent-Step e (finish_game a) (over e))
        | inr t ↦ subst (Step e) (sym t) (
            sent-Step e (prepare_round env a).1 (
              Step-from a e (prepare_round env a).1 (archive-pool e) (archive-drawer e)
                (archive-status e)
                (prepare_round-Step a (archive-status e ∙ s)
                  (subst (λ cs. Unique (card_ids cs)) (sym (archive-pool e)) u))))
      ]
    where
      over : (e : Engine) → Step e (finish_game (archive_current_round e))
      over e = inl (record {
        pool = archive-pool e;
        drawer = archive-drawer e;
        round = λ b c. grind (arith, c);
      })

  pub next_round-Step :
      (from : Str) (e : Engine)
      → e.has_drawer ≡ false
      → Unique (card_ids e.state.pool)
      → Step e (handle_next_round env from e)
  unfolding handle_next_round
  next_round-Step from e n u = elim (Bool-cases (require_host from e)) [
    | inl t ↦ rw t (in_status e.state.status refl)
    | inr t ↦ rw t (inl (record { pool = refl; drawer = refl; round = λ a b. grind (arith, a, b) }))
  ]
    where
      in_status :
          (s : GameStatus)
          → e.state.status ≡ s
          → let f : Engine = elim s [ round_summary ↦ advance env from e | _ ↦ e ] in Step e f
      in_status round_summary h = advance-Step from e n h u
      in_status _ h =
          inl (record { pool = refl; drawer = refl; round = λ a b. grind (arith, a, b) })
