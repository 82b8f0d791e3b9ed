-- ===== src/Canvas/Turn.antt =====
-- frontend/components/DrawCanvas.jsx: whose turn it is, for the canvas and for the engine.
use fakeartist.Prelude.{
  ℕ, ◌%◌, List, [], ◌∷◌, Bool, true, false, Option, none, some, Str, codes, ◌≡◌, ◌≢◌, refl, sym, ap,
  ◌∙◌, arith, ◌==◌, length, get_or,
}
use fakeartist.Models.{GameState, Round, Player, Point, drawing}
use fakeartist.Sanitize.{sanitize, sanitize_round}
use fakeartist.Engine.State.{Engine, find_player, emit_error}
use fakeartist.Engine.Play.{current_turn_player_id, two_points, add_stroke, handle_submit_stroke}

abbrev pub order_of : Option Round → List Str
order_of none = []
order_of (some r) = r.turn_order

abbrev pub index_or_zero : Option Round → ℕ
index_or_zero none = 0
index_or_zero (some r) = r.stroke_index

-- `currentTurnPlayerId`; `none` is null.
unfoldable pub turn_at : List Str → ℕ → Option Str
turn_at [] i = none
turn_at (p ∷ ps) i = some (get_or (p ∷ ps) (i % length (p ∷ ps)) [])

unfoldable pub current_turn : GameState → Option Str
unfolding turn_at
current_turn s = turn_at (order_of s.current_round) (index_or_zero s.current_round)

-- `===` of two ids that may be null.
unfoldable pub same_player : Option Str → Option Str → Bool
same_player none none = true
same_player (some a) (some b) = a == b
same_player _ _ = false

unfoldable pub is_my_turn : GameState → Option Str → Bool
unfolding current_turn same_player
is_my_turn s my_id = same_player (current_turn s) my_id

turn_at-engine :
    (r : Round)
    → r.turn_order ≢ []
    → turn_at r.turn_order r.stroke_index ≡ some (current_turn_player_id r)
unfolding turn_at current_turn_player_id
turn_at-engine r h = some_order r.turn_order refl
  where
    some_order :
        (ps : List Str)
        → r.turn_order ≡ ps
        → turn_at r.turn_order r.stroke_index
          ≡ some (get_or r.turn_order (r.stroke_index % length r.turn_order) [])
    some_order [] e = absurd (h e)
    some_order (p ∷ ps) e = rw e refl

-- The view of a guest has the turns of the engine.
current_turn-sanitize :
    (s : GameState) (r : Round)
    → s.current_round ≡ some r
    → current_turn (sanitize s) ≡ turn_at r.turn_order r.stroke_index
unfolding current_turn sanitize sanitize_round
current_turn-sanitize s r h = grind (arith, h)

-- What the engine does with a stroke, as the canvas says whose turn it is.
pub record Agrees (id : Str) (points : List Point) (p : Player) (r : Round) (e : Engine)
    : Type 0 where
  pub mine :
      is_my_turn (sanitize e.state) (some id) ≡ true
      → handle_submit_stroke points id e ≡ add_stroke p points r e
  pub not_mine :
      is_my_turn (sanitize e.state) (some id) ≡ false
      → handle_submit_stroke points id e ≡ emit_error id (codes "Not your turn") e

turn_of_engine :
    (id : Str) (r : Round) (e : Engine)
    → e.state.current_round ≡ some r
    → r.turn_order ≢ []
    → is_my_turn (sanitize e.state) (some id) ≡ (current_turn_player_id r == id)
unfolding is_my_turn same_player
turn_of_engine id r e h n =
    ap (λ t. same_player t (some id)) (current_turn-sanitize e.state r h ∙ turn_at-engine r n)

flipped : (a b : Str) → (a == b) ≡ (b == a)
flipped a b = grind arith

-- While a round with a turn order is drawn, the engine adds a stroke of at least two points of
-- one of its players if the canvas, over the sanitized state, says that it is that player's turn,
-- and otherwise answers that it is not.
pub handle_submit_stroke-is_my_turn :
    (id : Str) (points : List Point) (p : Player) (r : Round) (e : Engine)
    → e.state.status ≡ drawing
    → e.state.current_round ≡ some r
    → r.turn_order ≢ []
    → find_player id e ≡ some p
    → two_points points ≡ true
    → Agrees id points p r e
unfolding handle_submit_stroke
handle_submit_stroke-is_my_turn id points p r e s h n f t =
    let turn = turn_of_engine id r e h n ∙ flipped (current_turn_player_id r) id in
    record {
      mine = λ k. ground (arith, s, h, f, t, sym turn ∙ k);
      not_mine = λ k. ground (arith, s, h, sym turn ∙ k);
    }
