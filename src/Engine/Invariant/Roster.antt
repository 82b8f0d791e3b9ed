-- ===== src/Engine/Invariant/Roster.antt =====
-- frontend/p2p/engine.ts: joining, configuring, words and the start keep the state valid.
use fakeartist.Prelude.{
  ℕ, suc, ◌<◌, List, [], ◌∷◌, ◌++◌, false, Option, none, some, Str, ◌≡◌, refl, ap, sym, ◌∙◌, subst,
  arith, ◌==◌, find_if, is_empty,
}
use fakeartist.Models.{lobby, Player}
use fakeartist.Protocol.{ℤ, pos, ConfigPatch, JoinGamePayload}
use fakeartist.Engine.State.{Env, Engine, emit_error}
use fakeartist.Engine.Round.{player_ids}
use fakeartist.Engine.Roster.{
  find_wanted, reconnect_player, choose_id, enroll, handle_join, configure, if_positive,
  handle_configure, apply_config, accept_words, handle_submit_words,
}
use fakeartist.Engine.Dispatch.{handle_start_game}
use fakeartist.Engine.Invariant.{Fresh, Unique, Phase, IsValid}
use fakeartist.Engine.Invariant.Ids.{player_ids-update_first, Unique-snoc, with_players-IsValid}
use fakeartist.Engine.Frame.{welcome-state, add_cards-kept}

Fresh-of_find :
    (id : Str) (ps : List Player) → find_if (λ p. p.id == id) ps ≡ none → Fresh id (player_ids ps)
Fresh-of_find id [] h = tt
Fresh-of_find id (p ∷ ps) h = ground (arith, Fresh-of_find id ps)

player_ids-append :
    (ps : List Player) (p : Player) → player_ids (ps ++ p ∷ []) ≡ player_ids ps ++ p.id ∷ []
player_ids-append [] p = refl
player_ids-append (q ∷ ps) p = ap (q.id ∷◌) (player_ids-append ps p)

reconnect-IsValid :
    (id name : Str) (e : Engine) → IsValid e.state → IsValid (reconnect_player id name e).state
unfolding reconnect_player
reconnect-IsValid id name e v =
    with_players-IsValid e.state _ v
      (subst Unique (sym (player_ids-update_first _ _ e.state.players (λ q. refl))) v.ids) refl refl
      refl

choose_id-given :
    (env : Env) (wanted : Str) (i : ℕ)
    → is_empty wanted ≡ false
    → choose_id env wanted i ≡ (wanted, i)
unfolding choose_id
choose_id-given env wanted i h = rw h

enroll-IsValid :
    (env : Env) (wanted name : Str) (e : Engine)
    → is_empty wanted ≡ false
    → find_wanted wanted e.state.players ≡ none
    → IsValid e.state
    → IsValid (enroll env wanted name e).state
unfolding enroll find_wanted
enroll-IsValid env wanted name e n f v =
    let fresh : Fresh wanted (player_ids e.state.players) =
      Fresh-of_find wanted e.state.players (rw n at f) in
    with_players-IsValid e.state _ v
      (rw (player_ids-append, choose_id-given env wanted e.calls n)
        (Unique-snoc wanted _ fresh v.ids))
      refl refl refl

pub join-IsValid :
    (env : Env) (p : JoinGamePayload) (from : Str) (e : Engine)
    → is_empty from ≡ false
    → IsValid e.state
    → IsValid (handle_join env p from e).state
unfolding handle_join emit_error
join-IsValid env p from e n v = grind (arith, welcome-state, reconnect-IsValid, enroll-IsValid)

if_positive-pos : (n : Option ℤ) (old : ℕ) → 0 < old → 0 < if_positive n old
unfolding if_positive
if_positive-pos (some (pos (suc n))) old h = omega arith
if_positive-pos _ old h = h

apply_config-IsValid :
    (p : ConfigPatch ℤ) (e : Engine)
    → IsValid e.state
    → e.state.status ≡ lobby
    → IsValid (apply_config p e).state
unfolding apply_config configure
apply_config-IsValid p e v h =
    let none_yet : e.state.current_round ≡ none =
      subst (λ z. Phase e.state.config z e.state.current_round) h v.phase in
    record {
      ids = v.ids;
      some_stroke = if_positive-pos p.strokes_per_artist _ v.some_stroke;
      some_player = if_positive-pos p.min_players _ v.some_player;
      phase = rw h none_yet;
    }

pub configure-IsValid :
    (p : ConfigPatch ℤ) (from : Str) (e : Engine)
    → IsValid e.state
    → IsValid (handle_configure p from e).state
unfolding handle_configure
configure-IsValid p from e v = grind (arith, apply_config-IsValid)

accept_words-IsValid :
    (env : Env) (words : List Str) (p : Player) (e : Engine)
    → IsValid e.state
    → IsValid (accept_words env words p e).state
unfolding accept_words
accept_words-IsValid env words p e v =
    let kept = add_cards-kept env p.id words e in
    with_players-IsValid e.state _ v
      (subst Unique (sym (player_ids-update_first _ _ _ (λ q. refl) ∙ ap player_ids kept.2)) v.ids)
      kept.3 kept.0 kept.1

pub words-IsValid :
    (env : Env) (words : List Str) (from : Str) (e : Engine)
    → IsValid e.state
    → IsValid (handle_submit_words env words from e).state
unfolding handle_submit_words
words-IsValid env words from e v = grind (arith, accept_words-IsValid)

pub start_game-IsValid :
    (from : Str) (e : Engine) → IsValid e.state → IsValid (handle_start_game from e).state
unfolding handle_start_game
start_game-IsValid from e v = grind arith
