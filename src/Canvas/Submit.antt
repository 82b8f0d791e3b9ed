-- ===== src/Canvas/Submit.antt =====
-- frontend/components/DrawCanvas.jsx: a second finger ends the drawing.
use fakeartist.Prelude.{
  ℕ, List, [], ◌∷◌, Bool, false, Option, ◌≡◌, ◌≢◌, refl, sym, ap, ◌∙◌, arith, nat_eq, All, inl, inr,
  Bool-cases, if◌then◌else◌,
}
use fakeartist.Canvas.{
  Numbers, Mode, idle, draw, nav, Spot, NavStart, Canvas, Frame, PointerEvent, set_pointer,
  has_pointer, drop_pointer, set_view, rendered, pointer_down, begin_with, begin_nav, navigate,
  move_with, pointer_move, finish_with, finish_pointer, on_wheel, reset_view,
}
use fakeartist.Canvas.Events.{
  CanvasEvent, pressed, moved, lifted, wheeled, resetted, painted, canvas_step, canvas_run,
}

-- No finger comes down.
module _ {A : Type 0} where
  abbrev pub IsNoPress : CanvasEvent A → Type 0
  IsNoPress (pressed f t e) = ⊥
  IsNoPress _ = Unit

module _ {A : Type 0} (N : Numbers A) where
  -- Nothing is being drawn, and as much was submitted as before.
  record Rests (c d : Canvas A) : Type 0 where
    pub mode : d.mode ≢ draw
    pub submitted : d.submitted ≡ c.submitted

  navigate-Rests :
      (f : Frame A) (a b : Spot A) (n : Option (NavStart A)) (c : Canvas A)
      → ((navigate N f a b n c).mode ≡ c.mode) × ((navigate N f a b n c).submitted ≡ c.submitted)
  unfolding navigate set_view
  navigate-Rests f a b n c = (ground arith, ground arith)

  move_with-Rests :
      (f : Frame A) (s : Spot A) (m : Mode) (ps : List (ℕ × Spot A)) (c : Canvas A)
      → m ≢ draw
      → ((move_with N f s m ps c).mode ≡ c.mode)
        × ((move_with N f s m ps c).submitted ≡ c.submitted)
  unfolding move_with
  move_with-Rests f s idle ps c h = (refl, refl)
  move_with-Rests f s draw ps c h = absurd (h refl)
  move_with-Rests f s nav [] c h = (refl, refl)
  move_with-Rests f s nav (p ∷ []) c h = (refl, refl)
  move_with-Rests f s nav (p ∷ q ∷ ps) c h = navigate-Rests f p.1 q.1 c.nav_start c

  finish_with-Rests :
      (t : Bool) (m : Mode) (ps : List (ℕ × Spot A)) (c : Canvas A)
      → m ≡ c.mode
      → m ≢ draw
      → Rests c (finish_with N t m ps c)
  unfolding finish_with
  finish_with-Rests t idle ps c e h = record { mode = λ k. h (e ∙ k); submitted = refl }
  finish_with-Rests t draw ps c e h = absurd (h refl)
  finish_with-Rests t nav [] c e h = record { mode = λ k. cc; submitted = refl }
  finish_with-Rests t nav (p ∷ []) c e h = record { mode = λ k. cc; submitted = refl }
  finish_with-Rests t nav (p ∷ q ∷ ps) c e h = record { mode = λ k. h (e ∙ k); submitted = refl }

  canvas_step-Rests :
      (x : CanvasEvent A) (c : Canvas A) → IsNoPress x → c.mode ≢ draw → Rests c (canvas_step N x c)
  unfolding canvas_step pointer_move finish_pointer on_wheel reset_view rendered set_view
  canvas_step-Rests (pressed f t e) c q h = absurd q
  canvas_step-Rests (moved f e) c q h = elim (Bool-cases (has_pointer e.id c.pointers)) [
    | inl k ↦ rw k (
        let r =
          move_with-Rests f e.client c.mode (set_pointer e.id e.client c.pointers)
            (record c { pointers = set_pointer e.id e.client c.pointers }) h in
        record { mode = λ d. h (sym r.0 ∙ d); submitted = r.1 })
    | inr k ↦ rw k (record { mode = h; submitted = refl })
  ]
  canvas_step-Rests (lifted t id) c q h = elim (Bool-cases (has_pointer id c.pointers)) [
    | inl k ↦ rw k (
        let r =
          finish_with-Rests t c.mode (drop_pointer id c.pointers)
            (record c { pointers = drop_pointer id c.pointers }) refl h in
        record { mode = r.mode; submitted = r.submitted })
    | inr k ↦ rw k (record { mode = h; submitted = refl })
  ]
  canvas_step-Rests (wheeled f d s) c q h = record { mode = h; submitted = refl }
  canvas_step-Rests resetted c q h = record { mode = h; submitted = refl }
  canvas_step-Rests painted c q h = record { mode = h; submitted = refl }

  rests :
      (xs : List (CanvasEvent A)) (c : Canvas A)
      → All IsNoPress xs
      → c.mode ≢ draw
      → (canvas_run N xs c).submitted ≡ c.submitted
  unfolding canvas_run
  rests [] c q h = refl
  rests (x ∷ xs) c q h =
      let r = canvas_step-Rests x c q.0 h in rests xs (canvas_step N x c) q.1 r.mode ∙ r.submitted

  second_press :
      (f : Frame A) (t : Bool) (e : PointerEvent A) (p : ℕ × Spot A) (c : Canvas A)
      → c.pointers ≡ p ∷ []
      → nat_eq p.0 e.id ≡ false
      → pointer_down N f t e c
        ≡ begin_nav N p.1 e.client (record c { pointers = p ∷ (e.id, e.client) ∷ [] })
  unfolding pointer_down set_pointer begin_with
  second_press f t e p c h k =
      ap
        (λ ps.
          begin_with N f t e.client (set_pointer e.id e.client ps)
            (record c { pointers = set_pointer e.id e.client ps }))
        h
      ∙ ap
          (λ (b : Bool).
            let ps = if b then (e.id, e.client) ∷ [] else p ∷ (e.id, e.client) ∷ [] in
            begin_with N f t e.client ps (record c { pointers = ps }))
          k

  -- When a second finger comes down while one is down, no stroke is sent by it, or by any moves,
  -- lifts, wheel turns, resets and paintings after it, until another finger comes down.
  pub canvas_run-cancels :
      (f : Frame A) (t : Bool) (e : PointerEvent A) (p : ℕ × Spot A) (xs : List (CanvasEvent A))
      (c : Canvas A)
      → c.pointers ≡ p ∷ []
      → nat_eq p.0 e.id ≡ false
      → All IsNoPress xs
      → (canvas_run N (pressed f t e ∷ xs) c).submitted ≡ c.submitted
  unfolding canvas_run canvas_step begin_nav
  canvas_run-cancels f t e p xs c h k q =
      let e2 = second_press f t e p c h k in
      rests xs (pointer_down N f t e c) q (λ d. grind (arith, e2, d))
      ∙ ap (λ (d : Canvas A). d.submitted) e2
