-- ===== src/Canvas/Sound.antt =====
-- frontend/components/DrawCanvas.jsx: what holds of the canvas after any sequence of events.
use fakeartist.Prelude.{
  ℕ, ◌+◌, ◌<◌, ◌≤◌, List, [], ◌∷◌, Bool, true, false, ◌&&◌, Option, none, some, ◌≡◌, refl, sym,
  subst, arith, leb, length, length-map, All, All-append, inl, inr, Bool-cases,
}
use fakeartist.Canvas.{
  Numbers, IsOrdered, Mode, idle, draw, nav, Spot, View, NavStart, Canvas, Frame, PointerEvent,
  set_pointer, has_pointer, drop_pointer, set_view, rendered, last_spot, clamp_scale, clamp_spot,
  is_far, is_zero, mid, client_to_world, first_view, new_canvas, anchored, begin_draw, begin_nav,
  begin_with, pointer_down, draw_to, navigate, move_with, pointer_move, end_stroke, finish_with,
  finish_pointer, on_wheel, reset_view,
}
use fakeartist.Canvas.Events.{
  CanvasEvent, pressed, moved, lifted, wheeled, resetted, painted, Fits, length-set_pointer,
  length-set_known, length-drop_pointer, canvas_step, canvas_run, InScale, IsStroke, IsSound,
}
use fakeartist.Canvas.Clamp.{clamp_scale-InScale, clamped-InUnit, first-InScale}

module _ {A : Type 0} (N : Numbers A) (o : IsOrdered N) where
  -- The handlers by the pointers that are down.
  begin_with-IsSound :
      (f : Frame A) (t : Bool) (s : Spot A) (c : Canvas A) (ps : List (ℕ × Spot A))
      → 0 < length ps
      → length ps ≤ length c.pointers + 1
      → IsSound N c
      → IsSound N (begin_with N f t s ps (record c { pointers = ps }))
  unfolding begin_with begin_draw begin_nav
  begin_with-IsSound f t s c [] l u k = absurd (omega (arith, l))
  begin_with-IsSound f true s c (p ∷ []) l u k = record {
    fits = refl;
    scale = k.scale;
    ref_scale = k.ref_scale;
    strokes = k.strokes;
  }
  begin_with-IsSound f false s c (p ∷ []) l u k = record {
    fits = tt;
    scale = k.scale;
    ref_scale = k.ref_scale;
    strokes = k.strokes;
  }
  begin_with-IsSound f t s c (p ∷ q ∷ []) l u k = record {
    fits = omega arith;
    scale = k.scale;
    ref_scale = k.ref_scale;
    strokes = k.strokes;
  }
  begin_with-IsSound f t s c (p ∷ q ∷ r ∷ ps) l u k = record {
    fits = crowded c.mode k.fits;
    scale = k.scale;
    ref_scale = k.ref_scale;
    strokes = k.strokes;
  }
    where
      crowded : (m : Mode) → Fits m (length c.pointers) → Fits m (length (p ∷ q ∷ r ∷ ps))
      crowded idle h = tt
      crowded draw h = absurd (omega (arith, u, h))
      crowded nav h = omega arith

  pointer_down-IsSound :
      (f : Frame A) (t : Bool) (e : PointerEvent A) (c : Canvas A)
      → IsSound N c
      → IsSound N (pointer_down N f t e c)
  unfolding pointer_down
  pointer_down-IsSound f t e c k =
      let l = length-set_pointer e.id e.client c.pointers in
      begin_with-IsSound f t e.client c (set_pointer e.id e.client c.pointers) l.0 l.1 k

  -- A new view with its scale between the bounds.
  seen_by : (v : View A) (c : Canvas A) → InScale N v.scale → IsSound N c → IsSound N (set_view v c)
  unfolding set_view
  seen_by v c h k = record {
    fits = k.fits;
    scale = h;
    ref_scale = k.ref_scale;
    strokes = k.strokes;
  }

  anchored-InScale :
      (f : Frame A) (v : View A) (s : A) (from to : Spot A)
      → InScale N (anchored N f v (clamp_scale N s) from to).scale
  unfolding anchored
  anchored-InScale f v s from to = clamp_scale-InScale N o s

  navigate-IsSound :
      (f : Frame A) (a b : Spot A) (n : Option (NavStart A)) (c : Canvas A)
      → IsSound N c
      → IsSound N (navigate N f a b n c)
  unfolding navigate
  navigate-IsSound f a b none c k = k
  navigate-IsSound f a b (some start) c k = elim (Bool-cases (is_zero N start.distance)) [
    | inl e ↦ rw e k
    | inr e ↦ rw e (seen_by _ c (anchored-InScale f start.transform _ start.middle (mid N a b)) k)
  ]

  draw_to-IsSound :
      (f : Frame A) (s : Spot A) (c : Canvas A) → IsSound N c → IsSound N (draw_to N f s c)
  unfolding draw_to
  draw_to-IsSound f s c k =
      elim (Bool-cases (is_far N (last_spot c.local_stroke) (client_to_world N f c.view_ref s))) [
        | inl e ↦ rw e (record {
          fits = k.fits;
          scale = k.scale;
          ref_scale = k.ref_scale;
          strokes = k.strokes;
        })
        | inr e ↦ rw e k
      ]

  move_with-IsSound :
      (f : Frame A) (s : Spot A) (m : Mode) (ps : List (ℕ × Spot A)) (c : Canvas A)
      → IsSound N c
      → IsSound N (move_with N f s m ps c)
  unfolding move_with
  move_with-IsSound f s idle ps c k = k
  move_with-IsSound f s draw [] c k = k
  move_with-IsSound f s draw (p ∷ []) c k = draw_to-IsSound f s c k
  move_with-IsSound f s draw (p ∷ q ∷ ps) c k = k
  move_with-IsSound f s nav [] c k = k
  move_with-IsSound f s nav (p ∷ []) c k = k
  move_with-IsSound f s nav (p ∷ q ∷ ps) c k = navigate-IsSound f p.1 q.1 c.nav_start c k

  pointer_move-IsSound :
      (f : Frame A) (e : PointerEvent A) (c : Canvas A)
      → IsSound N c
      → IsSound N (pointer_move N f e c)
  unfolding pointer_move
  pointer_move-IsSound f e c k = elim (Bool-cases (has_pointer e.id c.pointers)) [
    | inl h ↦ rw h (
        move_with-IsSound f e.client c.mode (set_pointer e.id e.client c.pointers)
          (record c { pointers = set_pointer e.id e.client c.pointers })
          (record {
            fits = subst (Fits c.mode) (sym (length-set_known e.id e.client c.pointers h)) k.fits;
            scale = k.scale;
            ref_scale = k.ref_scale;
            strokes = k.strokes;
          }))
    | inr h ↦ rw h k
  ]

  end_stroke-IsSound :
      (t : Bool) (c : Canvas A)
      → InScale N c.view.scale
      → InScale N c.view_ref.scale
      → All (IsStroke N) c.submitted
      → IsSound N (end_stroke N t c)
  unfolding end_stroke
  end_stroke-IsSound t c v r s = elim (Bool-cases (leb 2 (length c.local_stroke) && t)) [
    | inl e ↦ rw e (record {
      fits = tt;
      scale = v;
      ref_scale = r;
      strokes = All-append (IsStroke N) c.submitted _ s (
        (
          ground (arith, e, length-map c.local_stroke (clamp_spot N)),
          clamped-InUnit N o c.local_stroke,
        ),
        tt,
      );
    })
    | inr e ↦ rw e (record { fits = tt; scale = v; ref_scale = r; strokes = s })
  ]

  finish_with-IsSound :
      (t : Bool) (m : Mode) (ps : List (ℕ × Spot A)) (c : Canvas A)
      → m ≡ c.mode
      → length ps < length c.pointers
      → IsSound N c
      → IsSound N (finish_with N t m ps (record c { pointers = ps }))
  unfolding finish_with
  finish_with-IsSound t idle ps c e l k = record {
    fits = subst (λ m. Fits m (length ps)) e tt;
    scale = k.scale;
    ref_scale = k.ref_scale;
    strokes = k.strokes;
  }
  finish_with-IsSound t draw [] c e l k = end_stroke-IsSound t _ k.scale k.ref_scale k.strokes
  finish_with-IsSound t draw (p ∷ ps) c e l k =
      absurd (omega (arith, l, subst (λ m. Fits m (length c.pointers)) (sym e) k.fits))
  finish_with-IsSound t nav [] c e l k = record {
    fits = tt;
    scale = k.scale;
    ref_scale = k.ref_scale;
    strokes = k.strokes;
  }
  finish_with-IsSound t nav (p ∷ []) c e l k = record {
    fits = omega arith;
    scale = k.scale;
    ref_scale = k.ref_scale;
    strokes = k.strokes;
  }
  finish_with-IsSound t nav (p ∷ q ∷ ps) c e l k = record {
    fits = subst (λ m. Fits m (length (p ∷ q ∷ ps))) e (omega arith);
    scale = k.scale;
    ref_scale = k.ref_scale;
    strokes = k.strokes;
  }

  finish_pointer-IsSound :
      (t : Bool) (id : ℕ) (c : Canvas A) → IsSound N c → IsSound N (finish_pointer N t id c)
  unfolding finish_pointer
  finish_pointer-IsSound t id c k = elim (Bool-cases (has_pointer id c.pointers)) [
    | inl h ↦ rw h (
        finish_with-IsSound t c.mode (drop_pointer id c.pointers) c refl
          (length-drop_pointer id c.pointers h) k)
    | inr h ↦ rw h k
  ]

  canvas_step-IsSound :
      (x : CanvasEvent A) (c : Canvas A) → IsSound N c → IsSound N (canvas_step N x c)
  unfolding canvas_step on_wheel reset_view rendered
  canvas_step-IsSound (pressed f t e) c k = pointer_down-IsSound f t e c k
  canvas_step-IsSound (moved f e) c k = pointer_move-IsSound f e c k
  canvas_step-IsSound (lifted t id) c k = finish_pointer-IsSound t id c k
  canvas_step-IsSound (wheeled f d s) c k = seen_by _ c (anchored-InScale f c.view_ref _ s s) k
  canvas_step-IsSound resetted c k = seen_by (first_view N) c (first-InScale N o) k
  canvas_step-IsSound painted c k = record {
    fits = k.fits;
    scale = k.scale;
    ref_scale = k.scale;
    strokes = k.strokes;
  }

  run-IsSound :
      (xs : List (CanvasEvent A)) (c : Canvas A) → IsSound N c → IsSound N (canvas_run N xs c)
  unfolding canvas_run
  run-IsSound [] c k = k
  run-IsSound (x ∷ xs) c k = run-IsSound xs (canvas_step N x c) (canvas_step-IsSound x c k)

  -- Over ordered numbers, after every sequence of presses, moves, lifts, wheel turns, resets and
  -- paintings on a new canvas: exactly one pointer is down in the mode draw and at least one in
  -- the mode nav, both views have a scale between the bounds, and every stroke that was sent has
  -- at least two points, all of them between 0 and 1.
  pub canvas_run-IsSound : (xs : List (CanvasEvent A)) → IsSound N (canvas_run N xs (new_canvas N))
  unfolding new_canvas
  canvas_run-IsSound xs = run-IsSound xs (new_canvas N) (record {
    fits = tt;
    scale = (first-InScale N o);
    ref_scale = (first-InScale N o);
    strokes = tt;
  })
