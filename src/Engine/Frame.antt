-- ===== src/Engine/Frame.antt =====
-- frontend/p2p/engine.ts: the parts of the state that a step leaves alone.
use fakeartist.Prelude.{List, [], ◌∷◌, Option, none, some, Str, ◌≡◌, refl, arith}
use fakeartist.Models.{GameState}
use fakeartist.Engine.State.{Env, Assignment, Engine, broadcast_state}
use fakeartist.Engine.Roster.{resend_role, welcome, add_card, add_cards}
use fakeartist.Engine.Round.{tell_roles, tell_host, request_draw}

-- Status, round, players, configuration and archive are the same.
abbrev pub KeepsTable : GameState → GameState → Type 0
KeepsTable s t =
    (t.status ≡ s.status)
    × (t.current_round ≡ s.current_round)
    × (t.players ≡ s.players)
    × (t.config ≡ s.config)
    × (t.past_rounds ≡ s.past_rounds)

pub resend_role-state : (id : Str) (e : Engine) → (resend_role id e).state ≡ e.state
unfolding resend_role
resend_role-state id e = ground arith

pub tell_roles-state :
    (fake word : Str) (ids : List Str) (e : Engine) → (tell_roles fake word ids e).state ≡ e.state
unfolding tell_roles
tell_roles-state fake word [] e = refl
tell_roles-state fake word (pid ∷ ids) e = tell_roles-state fake word ids _

pub welcome-state : (id : Str) (e : Engine) → (welcome id e).state ≡ e.state
unfolding welcome broadcast_state
welcome-state id e = resend_role-state id _

pub request_draw-state : (from : Str) (e : Engine) → (request_draw from e).state ≡ e.state
unfolding request_draw
request_draw-state from e = ground arith

pub tell_host-state :
    (from : Str) (a : Option Assignment) (e : Engine) → (tell_host from a e).state ≡ e.state
unfolding tell_host
tell_host-state from none e = refl
tell_host-state from (some a) e = refl

module _ (env : Env) where
  add_card-kept :
      (author raw : Str) (e : Engine) → KeepsTable e.state (add_card env author raw e).state
  unfolding add_card
  add_card-kept author raw e = ground arith

  -- Words go to the pool alone.
  pub add_cards-kept :
      (author : Str) (words : List Str) (e : Engine)
      → KeepsTable e.state (add_cards env author words e).state
  unfolding add_cards
  add_cards-kept author [] e = (refl, refl, refl, refl, refl)
  add_cards-kept author (raw ∷ words) e =
      ground
        (arith, add_card-kept author raw e, add_cards-kept author words (add_card env author raw e))
