-- ===== src/Election/Agreement.antt =====
-- frontend/p2p/election.ts: when the guests choose the same host, and when they do not.
use fakeartist.Prelude.{
  ◌<◌, ◌≡◌, ◌≢◌, sym, ap, subst, ◌∙◌, List, [], ◌∷◌, true, false, Option, none, some, Str, All,
  arith, includes, str_discrete, lt→ltb,
}
use fakeartist.Election.{LocalView, candidate_of, candidate, goes_after, goes_first, elect}
use fakeartist.Election.Order.{goes_after_tie}
use fakeartist.Election.Winner.{GoesFirst, elect-GoesFirst, candidate-player_id}

All-member : (P : Str → Type 0) (xs : List Str) (p : Str) → All P xs → includes xs p ≡ true → P p
All-member P [] p a h = cc
All-member P (x ∷ xs) p a h = elim (str_discrete x p) [
  | yes e ↦ subst P e a.0
  | no n ↦ All-member P xs p a.1 (grind (arith, h, n))
]

both_first :
    (v w : LocalView) (a b : Option Str)
    → ((p : Str) → includes v.connected p ≡ includes w.connected p)
    → ((p : Str) → candidate v p ≡ candidate w p)
    → GoesFirst v a
    → GoesFirst w b
    → a ≡ b
both_first v w none b m c h k = absurd h
both_first v w (some x) none m c h k = absurd k
both_first v w (some x) (some y) m c h k =
    let xy =
      All-member (λ p. goes_first (candidate v x) (candidate v p) ≡ true) v.connected y h.1
        (m y ∙ k.0) in
    let yx =
      All-member (λ p. goes_first (candidate w y) (candidate w p) ≡ true) w.connected x k.1
        (sym (m x) ∙ h.0) in
    let back = subst (λ z. goes_first (candidate w y) z ≡ true) (sym (c x)) yx in
    let same =
      goes_after_tie (candidate v x) (candidate v y) (ground (arith, xy))
        (subst (λ z. goes_after z (candidate v x) ≡ false) (sym (c y)) (ground (arith, back))) in
    ap some (sym (candidate-player_id v x) ∙ same ∙ candidate-player_id v y)

-- Two views with the same connected peers, at least one in each, and the same knowledge of every
-- peer elect the same host, in whatever order and however often they list the peers.
pub elect-agrees :
    (v w : LocalView)
    → v.connected ≢ []
    → w.connected ≢ []
    → ((p : Str) → includes v.connected p ≡ includes w.connected p)
    → ((p : Str) → candidate v p ≡ candidate w p)
    → elect v ≡ elect w
elect-agrees v w h k m c =
    both_first v w (elect v) (elect w) m c (elect-GoesFirst v h) (elect-GoesFirst w k)

other_is_stale :
    (view : LocalView) (w : Str)
    → view.peers w ≡ none
    → 0 < view.self_version
    → goes_first (candidate view w) (candidate view view.self_id) ≡ true
    → w ≡ view.self_id
unfolding candidate candidate_of goes_after
other_is_stale view w n v h = ground (arith, lt→ltb 0 view.self_version v)

-- A connected guest that has seen a state and knows nothing of its peers elects itself.
pub elect_self :
    (view : LocalView)
    → includes view.connected view.self_id ≡ true
    → ((p : Str) → view.peers p ≡ none)
    → 0 < view.self_version
    → elect view ≡ some view.self_id
elect_self view h n v =
    chosen (elect view)
      (elect-GoesFirst view (λ e. grind (arith, ap (λ ps. includes ps view.self_id) e, h)))
  where
    chosen : (o : Option Str) → GoesFirst view o → o ≡ some view.self_id
    chosen none k = absurd k
    chosen (some w) k = ap some (
        other_is_stale view w (n w) v (
          All-member (λ p. goes_first (candidate view w) (candidate view p) ≡ true) view.connected
            view.self_id k.1 h))
