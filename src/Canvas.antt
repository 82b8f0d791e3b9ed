-- ===== src/Canvas.antt =====
-- frontend/components/DrawCanvas.jsx: the pointers on the drawing canvas and its view. Painting is
-- left out. The arithmetic of the numbers, `A`, is a parameter.
pub mod Events
pub mod Clamp
pub mod Sound
pub mod Submit
pub mod Turn
use fakeartist.Prelude.{
  ℕ, zero, suc, List, [], ◌∷◌, ◌++◌, map, Bool, true, false, not, ◌&&◌, ◌||◌, Option, none, some,
  ◌≡◌, nat_eq, leb, length, some_is, keep_if, if◌then◌else◌,
}

-- What the code computes with; `at_most a b` is `a <= b`, and `wheel_factor d` is
-- `Math.exp(-d * 0.001)`. The constants are 0, 1, 2, the two scales and 0.002.
pub record Numbers (A : Type 0) : Type 0 where
  pub add : A → A → A
  pub sub : A → A → A
  pub mul : A → A → A
  pub div : A → A → A
  pub hypot : A → A → A
  pub at_most : A → A → Bool
  pub wheel_factor : A → A
  pub n0 : A
  pub n1 : A
  pub n2 : A
  pub min_scale : A
  pub max_scale : A
  pub near : A

-- The order of numbers other than NaN, and where the constants lie.
pub record IsOrdered {A : Type 0} (N : Numbers A) : Type 0 where
  pub total : (a b : A) → N.at_most a b ≡ false → N.at_most b a ≡ true
  pub unit : N.at_most N.n0 N.n1 ≡ true
  pub above_min : N.at_most N.min_scale N.n1 ≡ true
  pub below_max : N.at_most N.n1 N.max_scale ≡ true
  pub scales : N.at_most N.min_scale N.max_scale ≡ true

pub data Mode : Type 0 where
  idle draw nav : Mode

-- A point of the page or of the world.
pub record Spot (A : Type 0) : Type 0 where
  pub x : A
  pub y : A

pub record View (A : Type 0) : Type 0 where
  pub scale : A
  pub tx : A
  pub ty : A

pub record NavStart (A : Type 0) : Type 0 where
  pub distance : A
  pub middle : Spot A
  pub transform : View A

-- The refs of the component. `view` is the state of React, and `view_ref` holds it as of the last
-- effect. `pointers` is a Map, in the order of insertion.
pub record Canvas (A : Type 0) : Type 0 where
  pub pointers : List (ℕ × Spot A)
  pub mode : Mode
  pub local_stroke : List (Spot A)
  pub nav_start : Option (NavStart A)
  pub view : View A
  pub view_ref : View A
  -- the strokes that were submitted
  pub submitted : List (List (Spot A))

-- The top left corner of the canvas on the page, and its size.
pub record Frame (A : Type 0) : Type 0 where
  pub left : A
  pub top : A
  pub css_w : A
  pub css_h : A

-- A pointer event.
pub record PointerEvent (A : Type 0) : Type 0 where
  pub id : ℕ
  pub client : Spot A

module _ {A : Type 0} where
  abbrev pub is_pointer : ℕ → ℕ × Spot A → Bool
  is_pointer id p = nat_eq p.0 id

  -- `Map.prototype.set`
  unfoldable pub set_pointer : ℕ → Spot A → List (ℕ × Spot A) → List (ℕ × Spot A)
  set_pointer id s [] = (id, s) ∷ []
  set_pointer id s (p ∷ ps) = if is_pointer id p then (id, s) ∷ ps else p ∷ set_pointer id s ps

  unfoldable pub has_pointer : ℕ → List (ℕ × Spot A) → Bool
  has_pointer id ps = some_is (is_pointer id) ps

  unfoldable pub drop_pointer : ℕ → List (ℕ × Spot A) → List (ℕ × Spot A)
  drop_pointer id ps = keep_if (λ p. not (is_pointer id p)) ps

  unfoldable pub set_view : View A → Canvas A → Canvas A
  set_view v c = record c { view = v }

  -- The effect after a rendering.
  unfoldable pub rendered : Canvas A → Canvas A
  rendered c = record c { view_ref = c.view }

  abbrev pub last_spot : List (Spot A) → Option (Spot A)
  last_spot [] = none
  last_spot (p ∷ []) = some p
  last_spot (p ∷ q ∷ ps) = last_spot (q ∷ ps)

module _ {A : Type 0} (N : Numbers A) where
  -- `Math.max` and `Math.min`
  abbrev pub max_of : A → A → A
  max_of a b = if N.at_most a b then b else a

  abbrev pub min_of : A → A → A
  min_of a b = if N.at_most a b then a else b

  unfoldable pub clamp_scale : A → A
  clamp_scale s = max_of N.min_scale (min_of N.max_scale s)

  unfoldable pub clamp01 : A → A
  clamp01 v = max_of N.n0 (min_of N.n1 v)

  unfoldable pub dist : Spot A → Spot A → A
  dist a b = N.hypot (N.sub a.x b.x) (N.sub a.y b.y)

  unfoldable pub mid : Spot A → Spot A → Spot A
  mid a b = record { x = N.div (N.add a.x b.x) N.n2; y = N.div (N.add a.y b.y) N.n2 }

  unfoldable pub first_view : View A
  first_view = record { scale = N.n1; tx = N.n0; ty = N.n0 }

  unfoldable pub new_canvas : Canvas A
  unfolding first_view
  new_canvas = record {
    pointers = [];
    mode = idle;
    local_stroke = [];
    nav_start = none;
    view = first_view;
    view_ref = first_view;
    submitted = [];
  }

  unfoldable pub client_to_world : Frame A → View A → Spot A → Spot A
  client_to_world f v s = record {
    x = N.div (N.div (N.sub (N.sub s.x f.left) v.tx) v.scale) f.css_w;
    y = N.div (N.div (N.sub (N.sub s.y f.top) v.ty) v.scale) f.css_h;
  }

  -- The view in which the point of the canvas under `from`, seen by `v`, is under `to`.
  unfoldable pub anchored : Frame A → View A → A → Spot A → Spot A → View A
  anchored f v scale from to = record {
    scale = scale;
    tx = N.sub (N.sub to.x f.left) (N.mul (N.div (N.sub (N.sub from.x f.left) v.tx) v.scale) scale);
    ty = N.sub (N.sub to.y f.top) (N.mul (N.div (N.sub (N.sub from.y f.top) v.ty) v.scale) scale);
  }

  unfoldable pub begin_draw : Frame A → Bool → Spot A → Canvas A → Canvas A
  unfolding client_to_world
  begin_draw f my_turn s c =
      if my_turn
      then (record c { mode = draw; local_stroke = client_to_world f c.view_ref s ∷ [] })
      else (record c { mode = idle })

  unfoldable pub begin_nav : Spot A → Spot A → Canvas A → Canvas A
  unfolding dist mid
  begin_nav a b c = record c {
    mode = nav;
    local_stroke = [];
    nav_start = some (record { distance = dist a b; middle = mid a b; transform = c.view_ref });
  }

  -- What `handlePointerDown` does with the pointers that are down, the new one included.
  unfoldable pub begin_with : Frame A → Bool → Spot A → List (ℕ × Spot A) → Canvas A → Canvas A
  unfolding begin_draw begin_nav
  begin_with f my_turn s (p ∷ []) c = begin_draw f my_turn s c
  begin_with f my_turn s (p ∷ q ∷ []) c = begin_nav p.1 q.1 c
  begin_with f my_turn s _ c = c

  unfoldable pub pointer_down : Frame A → Bool → PointerEvent A → Canvas A → Canvas A
  unfolding set_pointer begin_with
  pointer_down f my_turn e c =
      let ps = set_pointer e.id e.client c.pointers in
      begin_with f my_turn e.client ps (record c { pointers = ps })

  -- A point that is near the last one is left out.
  unfoldable pub is_far : Option (Spot A) → Spot A → Bool
  is_far none w = true
  is_far (some l) w = not (N.at_most (N.hypot (N.sub l.x w.x) (N.sub l.y w.y)) N.near)

  unfoldable pub draw_to : Frame A → Spot A → Canvas A → Canvas A
  unfolding client_to_world is_far
  draw_to f s c =
      let w = client_to_world f c.view_ref s in
      if is_far (last_spot c.local_stroke) w
      then (record c { local_stroke = c.local_stroke ++ w ∷ [] })
      else c

  -- `start.dist === 0`
  unfoldable pub is_zero : A → Bool
  is_zero a = N.at_most a N.n0 && N.at_most N.n0 a

  unfoldable pub navigate : Frame A → Spot A → Spot A → Option (NavStart A) → Canvas A → Canvas A
  unfolding dist mid is_zero clamp_scale anchored set_view
  navigate f a b none c = c
  navigate f a b (some start) c =
      let scale = clamp_scale (N.mul start.transform.scale (N.div (dist a b) start.distance)) in
      if is_zero start.distance
      then c
      else set_view (anchored f start.transform scale start.middle (mid a b)) c

  -- What `handlePointerMove` does in a mode, with the pointers that are down.
  unfoldable pub move_with : Frame A → Spot A → Mode → List (ℕ × Spot A) → Canvas A → Canvas A
  unfolding draw_to navigate
  move_with f s draw (p ∷ []) c = draw_to f s c
  move_with f s nav (p ∷ q ∷ ps) c = navigate f p.1 q.1 c.nav_start c
  move_with f s _ _ c = c

  unfoldable pub pointer_move : Frame A → PointerEvent A → Canvas A → Canvas A
  unfolding has_pointer set_pointer move_with
  pointer_move f e c =
      let ps = set_pointer e.id e.client c.pointers in
      if has_pointer e.id c.pointers
      then move_with f e.client c.mode ps (record c { pointers = ps })
      else c

  unfoldable pub clamp_spot : Spot A → Spot A
  unfolding clamp01
  clamp_spot p = record { x = clamp01 p.x; y = clamp01 p.y }

  -- The end of a stroke; a stroke of one point is not sent.
  unfoldable pub end_stroke : Bool → Canvas A → Canvas A
  unfolding clamp_spot
  end_stroke my_turn c =
      let sent = record c { submitted = c.submitted ++ map clamp_spot c.local_stroke ∷ [] } in
      record (if leb 2 (length c.local_stroke) && my_turn then sent else c) {
        local_stroke = [];
        mode = idle;
      }

  unfoldable pub finish_with : Bool → Mode → List (ℕ × Spot A) → Canvas A → Canvas A
  unfolding end_stroke
  finish_with my_turn draw [] c = end_stroke my_turn c
  finish_with my_turn nav [] c = record c { mode = idle; nav_start = none }
  finish_with my_turn nav (p ∷ []) c = record c { mode = nav; nav_start = none }
  finish_with my_turn _ _ c = c

  unfoldable pub finish_pointer : Bool → ℕ → Canvas A → Canvas A
  unfolding has_pointer drop_pointer finish_with
  finish_pointer my_turn id c =
      let ps = drop_pointer id c.pointers in
      if has_pointer id c.pointers
      then finish_with my_turn c.mode ps (record c { pointers = ps })
      else c

  unfoldable pub on_wheel : Frame A → A → Spot A → Canvas A → Canvas A
  unfolding clamp_scale anchored set_view
  on_wheel f delta s c =
      let scale = clamp_scale (N.mul c.view_ref.scale (N.wheel_factor delta)) in
      set_view (anchored f c.view_ref scale s s) c

  unfoldable pub reset_view : Canvas A → Canvas A
  unfolding first_view set_view
  reset_view c = set_view first_view c
