-- ===== src/Engine/Invariant/Strokes.antt =====
-- frontend/p2p/engine.ts, `handleSubmitStroke`: it keeps the state valid.
use fakeartist.Prelude.{
  ◌+◌, ◌*◌, List, [], ◌∷◌, ◌++◌, some, Str, ◌≡◌, sym, subst, subst₂, arith, length, length-append,
  leb, Bool-cases, inl, inr,
}
use fakeartist.Models.{drawing, Player, Round, GameState, Point, Stroke}
use fakeartist.Engine.State.{Engine, emit_error}
use fakeartist.Engine.Play.{add_stroke, total_strokes_needed, handle_submit_stroke}
use fakeartist.Engine.Invariant.{RoundOk, Phase, IsValid}

-- The same round, with the strokes and the index of another that counts them as well.
abbrev grown : Round → Stroke → Round
grown r s = record r { strokes = r.strokes ++ s ∷ []; stroke_index = r.stroke_index + 1 }

grown-RoundOk : (r : Round) (s : Stroke) → RoundOk r → RoundOk (grown r s)
grown-RoundOk r s k = record {
  strokes_counted = omega (arith, length-append r.strokes (s ∷ []), k.strokes_counted);
  votes_counted = k.votes_counted;
  one_vote_each = k.one_vote_each;
  ballots = k.ballots;
  one_turn_each = k.one_turn_each;
  some_artist = k.some_artist;
}

at_drawing :
    (s : GameState) (r : Round)
    → IsValid s
    → s.status ≡ drawing
    → s.current_round ≡ some r
    → Phase s.config drawing (some r)
at_drawing s r v p q = subst₂ (Phase s.config) p q v.phase

add_stroke-IsValid :
    (p : Player) (points : List Point) (r : Round) (e : Engine)
    → IsValid e.state
    → e.state.status ≡ drawing
    → e.state.current_round ≡ some r
    → IsValid (add_stroke p points r e).state
unfolding add_stroke total_strokes_needed
add_stroke-IsValid p points r e v h k =
    let now : Phase e.state.config drawing (some r) = at_drawing e.state r v h k in
    let s : Stroke = record { player_id = p.id; color = p.color; points = points } in
    elim (Bool-cases
      (leb (e.state.config.strokes_per_artist * length r.turn_order) (r.stroke_index + 1))) [
        | inl t ↦ rw t (record {
          ids = v.ids;
          some_stroke = v.some_stroke;
          some_player = v.some_player;
          phase = (grown-RoundOk r s now.0, ground arith, ground arith);
        })
        | inr t ↦ rw t (record {
          ids = v.ids;
          some_stroke = v.some_stroke;
          some_player = v.some_player;
          phase =
              subst (λ z. Phase e.state.config z (some (grown r s))) (sym h)
                (grown-RoundOk r s now.0, ground arith, now.2);
        })
      ]

pub stroke-IsValid :
    (points : List Point) (from : Str) (e : Engine)
    → IsValid e.state
    → IsValid (handle_submit_stroke points from e).state
unfolding handle_submit_stroke emit_error
stroke-IsValid points from e v = grind (arith, add_stroke-IsValid)
