-- ===== src/Engine/Cards.antt =====
-- frontend/p2p/engine.ts, `prepareRound`: every round that is prepared uses up a card, so that a game
-- has at most as many rounds as cards.
use fakeartist.Prelude.{
  ℕ, suc, List, [], ◌∷◌, true, false, not, Str, ◌≡◌, ◌≢◌, refl, sym, ap, subst, ◌∙◌, inl, inr,
  arith, ◌==◌, length, map, get_or, Bool-cases, if◌then◌else◌,
}
use fakeartist.Models.{round_announce, round_summary, WordCard, GameState}
use fakeartist.Engine.State.{Env, IsRandom, Engine, emit_direct, emit}
use fakeartist.Engine.Round.{unused, use_card, open_round, tell_roles, deal}
use fakeartist.Engine.Frame.{tell_roles-state}
use fakeartist.Engine.Draws.{In, get_or-In}
use fakeartist.Engine.Invariant.{Fresh, Unique}

abbrev pub card_ids : List WordCard → List Str
card_ids = map (λ c. c.id)

-- The cards that are left.
abbrev pub left : Engine → ℕ
left e = length (unused e.state.pool)

card_ids-use_card : (id : Str) (cs : List WordCard) → card_ids (use_card id cs) ≡ card_ids cs
unfolding use_card
card_ids-use_card id [] = refl
card_ids-use_card id (c ∷ cs) = elim (Bool-cases (c.id == id)) [
  | inl h ↦ rw h refl
  | inr h ↦ rw h (ap (λ (ids : List Str). c.id ∷ ids) (card_ids-use_card id cs))
]

-- An id that is fresh is no unused card's.
Fresh-id_differs :
    (id : Str) (c : WordCard) (cs : List WordCard)
    → Fresh id (card_ids cs)
    → In c (unused cs)
    → id ≢ c.id
Fresh-id_differs id c [] f i = absurd i
Fresh-id_differs id c (d ∷ ds) f i = elim (Bool-cases (not d.used)) [
  | inl h ↦
      in_head (Fresh-id_differs id c ds f.1)
        (subst (λ b. In c (if b then d ∷ unused ds else unused ds)) h i)
  | inr h ↦
      Fresh-id_differs id c ds f.1 (subst (λ b. In c (if b then d ∷ unused ds else unused ds)) h i)
]
  where
    in_head : (In c (unused ds) → id ≢ c.id) → In c (d ∷ unused ds) → id ≢ c.id
    in_head next (inl e) = λ k. f.0 (ap (λ (x : WordCard). x.id) e ∙ sym k)
    in_head next (inr j) = next j

same_id : (x y : Str) → x ≡ y → (x == y) ≡ true
same_id x y h = ground (arith, h)

other_id : (x y : Str) → x ≢ y → (x == y) ≡ false
other_id x y h = ground (arith, h)

length-use_card :
    (c : WordCard) (cs : List WordCard)
    → Unique (card_ids cs)
    → In c (unused cs)
    → suc (length (unused (use_card c.id cs))) ≡ length (unused cs)
unfolding use_card
length-use_card c [] u i = absurd i
length-use_card c (d ∷ ds) u i = elim (Bool-cases (not d.used)) [
  | inl h ↦
      in_head h (length-use_card c ds u.1)
        (subst (λ b. In c (if b then d ∷ unused ds else unused ds)) h i)
  | inr h ↦
      let j : In c (unused ds) = subst (λ b. In c (if b then d ∷ unused ds else unused ds)) h i in
      grind (
        arith,
        h,
        other_id d.id c.id (Fresh-id_differs d.id c ds u.0 j),
        length-use_card c ds u.1 j,
      )
]
  where
    in_head :
        not d.used ≡ true
        → (In c (unused ds) → suc (length (unused (use_card c.id ds))) ≡ length (unused ds))
        → In c (d ∷ unused ds)
        → suc (length (unused (use_card c.id (d ∷ ds)))) ≡ length (unused (d ∷ ds))
    in_head h next (inl e) = grind (arith, h, same_id d.id c.id (ap (λ (x : WordCard). x.id) e))
    in_head h next (inr j) =
        grind (arith, h, other_id d.id c.id (Fresh-id_differs d.id c ds u.0 j), next j)

-- A step of the game in which no round begins, and one in which one does.
pub record Steady (e f : Engine) : Type 0 where
  pub pool : f.state.pool ≡ e.state.pool
  pub drawer : f.has_drawer ≡ e.has_drawer
  pub round : (e.state.status ≡ round_summary) → f.state.status ≢ round_announce

pub record Deals (e f : Engine) : Type 0 where
  pub ids : card_ids f.state.pool ≡ card_ids e.state.pool
  pub left : suc (left f) ≡ left e
  pub drawer : f.has_drawer ≡ e.has_drawer
  pub before : e.state.status ≡ round_summary
  pub after : f.state.status ≡ round_announce

tell_roles-drawer :
    (fake word : Str) (ids : List Str) (e : Engine)
    → (tell_roles fake word ids e).has_drawer ≡ e.has_drawer
unfolding tell_roles emit_direct emit
tell_roles-drawer fake word [] e = refl
tell_roles-drawer fake word (pid ∷ ids) e = tell_roles-drawer fake word ids _

module _ (env : Env) (fair : IsRandom env) where
  deal-pool :
      (first : WordCard) (rest : List WordCard) (e : Engine)
      → (deal env first rest e).state.pool
        ≡ use_card
            (get_or (first ∷ rest) (env.random e.calls (length (first ∷ rest))) first).id
            e.state.pool
  unfolding deal open_round
  deal-pool first rest e = ap (λ (s : GameState). s.pool) (tell_roles-state _ _ _ _)

  pub deal-drawer :
      (first : WordCard) (rest : List WordCard) (e : Engine)
      → (deal env first rest e).has_drawer ≡ e.has_drawer
  unfolding deal open_round
  deal-drawer first rest e = tell_roles-drawer _ _ _ _

  pub deal-left :
      (first : WordCard) (rest : List WordCard) (e : Engine)
      → Unique (card_ids e.state.pool)
      → unused e.state.pool ≡ first ∷ rest
      → (card_ids (deal env first rest e).state.pool ≡ card_ids e.state.pool)
        × (suc (left (deal env first rest e)) ≡ left e)
  deal-left first rest e u h =
      let card = get_or (first ∷ rest) (env.random e.calls (length (first ∷ rest))) first in
      let taken : In card (unused e.state.pool) = subst (In card) (sym h) (
        get_or-In (first ∷ rest) (env.random e.calls (length (first ∷ rest))) first
          (fair e.calls (length (first ∷ rest)) (omega arith))) in
      (
        ap card_ids (deal-pool first rest e) ∙ card_ids-use_card card.id e.state.pool,
        ap (λ cs. suc (length (unused cs))) (deal-pool first rest e)
            ∙ length-use_card card e.state.pool u taken,
      )
