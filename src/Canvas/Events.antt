-- ===== src/Canvas/Events.antt =====
-- frontend/components/DrawCanvas.jsx: the events of the canvas, and what is to hold after them.
use fakeartist.Prelude.{
  ℕ, ◌+◌, ◌<◌, ◌≤◌, List, [], ◌∷◌, Bool, true, ◌≡◌, arith, length, All, inl, inr, Bool-cases,
}
use fakeartist.Canvas.{
  Numbers, Mode, idle, draw, nav, Spot, Canvas, Frame, PointerEvent, is_pointer, set_pointer,
  has_pointer, drop_pointer, rendered, pointer_down, pointer_move, finish_pointer, on_wheel,
  reset_view,
}

pub data CanvasEvent (A : Type 0) : Type 0 where
  pressed : Frame A → Bool → PointerEvent A → CanvasEvent A
  moved : Frame A → PointerEvent A → CanvasEvent A
  lifted : Bool → ℕ → CanvasEvent A
  wheeled : Frame A → A → Spot A → CanvasEvent A
  resetted : CanvasEvent A
  painted : CanvasEvent A

-- How many pointers are down in a mode.
abbrev pub Fits : Mode → ℕ → Type 0
Fits idle n = Unit
Fits draw n = n ≡ 1
Fits nav n = 0 < n

module _ {A : Type 0} where
  pub length-set_pointer :
      (id : ℕ) (s : Spot A) (ps : List (ℕ × Spot A))
      → (0 < length (set_pointer id s ps)) × (length (set_pointer id s ps) ≤ length ps + 1)
  unfolding set_pointer
  length-set_pointer id s [] = (omega arith, omega arith)
  length-set_pointer id s (p ∷ ps) = elim (Bool-cases (is_pointer id p)) [
    | inl e ↦ rw e (omega arith, omega arith)
    | inr e ↦ rw e (omega arith, omega (arith, (length-set_pointer id s ps).1))
  ]

  pub length-set_known :
      (id : ℕ) (s : Spot A) (ps : List (ℕ × Spot A))
      → has_pointer id ps ≡ true
      → length (set_pointer id s ps) ≡ length ps
  unfolding set_pointer has_pointer
  length-set_known id s [] h = cc
  length-set_known id s (p ∷ ps) h = ground (arith, length-set_known id s ps)

  length-keep : (id : ℕ) (ps : List (ℕ × Spot A)) → length (drop_pointer id ps) ≤ length ps
  unfolding drop_pointer
  length-keep id [] = omega arith
  length-keep id (p ∷ ps) = ground (arith, length-keep id ps)

  pub length-drop_pointer :
      (id : ℕ) (ps : List (ℕ × Spot A))
      → has_pointer id ps ≡ true
      → length (drop_pointer id ps) < length ps
  unfolding drop_pointer has_pointer
  length-drop_pointer id [] h = cc
  length-drop_pointer id (p ∷ ps) h = ground (arith, length-drop_pointer id ps, length-keep id ps)

module _ {A : Type 0} (N : Numbers A) where
  unfoldable pub canvas_step : CanvasEvent A → Canvas A → Canvas A
  canvas_step (pressed f my_turn e) c = pointer_down N f my_turn e c
  canvas_step (moved f e) c = pointer_move N f e c
  canvas_step (lifted my_turn id) c = finish_pointer N my_turn id c
  canvas_step (wheeled f d s) c = on_wheel N f d s c
  canvas_step resetted c = reset_view N c
  canvas_step painted c = rendered c

  unfoldable pub canvas_run : List (CanvasEvent A) → Canvas A → Canvas A
  unfolding canvas_step
  canvas_run [] c = c
  canvas_run (x ∷ xs) c = canvas_run xs (canvas_step x c)

  abbrev pub InScale : A → Type 0
  InScale s = (N.at_most N.min_scale s ≡ true) × (N.at_most s N.max_scale ≡ true)

  abbrev pub InUnit : Spot A → Type 0
  InUnit p =
      (N.at_most N.n0 p.x ≡ true)
      × (N.at_most p.x N.n1 ≡ true)
      × (N.at_most N.n0 p.y ≡ true)
      × (N.at_most p.y N.n1 ≡ true)

  -- What may be sent as a stroke.
  abbrev pub IsStroke : List (Spot A) → Type 0
  IsStroke ps = (2 ≤ length ps) × All InUnit ps

  pub record IsSound (c : Canvas A) : Type 0 where
    pub fits : Fits c.mode (length c.pointers)
    pub scale : InScale c.view.scale
    pub ref_scale : InScale c.view_ref.scale
    pub strokes : All IsStroke c.submitted
