-- ===== src/Tests/Pages.antt =====
-- frontend/components/DrawCanvas.jsx and frontend/p2p/crypto.ts: a run of the canvas, in tenths as
-- numbers, and a commitment under a digest of one byte.
use fakeartist.Prelude.{
  ℕ, ◌+◌, ◌-◌, ◌*◌, ◌/◌, ◌≡◌, refl, List, [], ◌∷◌, true, leb, none, some, arith, length, ◌%◌, ◌++◌,
  ◌↔◌, All,
}
use fakeartist.Canvas.{
  Numbers, IsOrdered, draw, Canvas, Frame, PointerEvent, new_canvas, pointer_down, pointer_move,
  finish_pointer, on_wheel, rendered, end_stroke,
}
use fakeartist.Canvas.Events.{
  CanvasEvent, pressed, moved, lifted, wheeled, painted, IsSound, canvas_run, canvas_step,
}
use fakeartist.Canvas.Sound.{canvas_run-IsSound}
use fakeartist.Crypto.{verify_commitment, bytes_to_hex}
use fakeartist.Crypto.Hex.{IsByte, verify_commitment_iff}
use fakeartist.Canvas.Turn.{Agrees, handle_submit_stroke-is_my_turn}
use fakeartist.Models.{drawing}
use fakeartist.Engine.State.{Engine, find_player}
use fakeartist.Prelude.{str_discrete, ℕ_discrete}
use fakeartist.Tests.Data.{ann, bob, line, table, round_with, stroke_of, player_with}
use fakeartist.Canvas.Submit.{canvas_run-cancels}

abbrev tenths : Numbers ℕ
tenths = record {
  add = λ a b. a + b;
  sub = λ a b. a - b;
  mul = λ a b. a * b / 10;
  div = λ a b. a * 10 / b;
  hypot = λ a b. a + b;
  at_most = leb;
  wheel_factor = λ d. 20;
  n0 = 0;
  n1 = 10;
  n2 = 20;
  min_scale = 5;
  max_scale = 80;
  near = 0;
}

tenths-IsOrdered : IsOrdered tenths
tenths-IsOrdered = record {
  total = λ a b h. ground arith;
  unit = refl;
  above_min = refl;
  below_max = refl;
  scales = refl;
}

abbrev page : Frame ℕ
page = record { left = 0; top = 0; css_w = 100; css_h = 100 }

abbrev finger : ℕ → ℕ → ℕ → PointerEvent ℕ
finger id x y = record { id = id; client = record { x = x; y = y } }

abbrev gesture : List (CanvasEvent ℕ)
gesture =
    wheeled page 1 (record { x = 5; y = 5 })
    ∷ painted
    ∷ pressed page true (finger 1 900 40)
    ∷ moved page (finger 1 20 20)
    ∷ lifted true 1
    ∷ []

-- One stroke of two points is sent.
one_stroke : length (canvas_run tenths gesture (new_canvas tenths)).submitted ≡ 1
unfolding canvas_run canvas_step new_canvas pointer_down pointer_move finish_pointer on_wheel
    rendered end_stroke
one_stroke = refl

canvas_run-IsSound_example : IsSound tenths (canvas_run tenths gesture (new_canvas tenths))
canvas_run-IsSound_example = canvas_run-IsSound tenths tenths-IsOrdered gesture

abbrev canvas_in_use : Canvas ℕ
canvas_in_use = record {
  pointers = (1, record { x = 20; y = 20 }) ∷ [];
  mode = draw;
  local_stroke = record { x = 2; y = 2 } ∷ record { x = 3; y = 3 } ∷ [];
  nav_start = none;
  view = record { scale = 10; tx = 0; ty = 0 };
  view_ref = record { scale = 10; tx = 0; ty = 0 };
  submitted = [];
}

canvas_run-cancels_example :
    (canvas_run tenths
      (pressed page true (finger 2 50 50) ∷ lifted true 1 ∷ lifted true 2 ∷ [])
      canvas_in_use).submitted
    ≡ []
canvas_run-cancels_example =
    canvas_run-cancels tenths page true (finger 2 50 50) (1, record { x = 20; y = 20 })
      (lifted true 1 ∷ lifted true 2 ∷ []) canvas_in_use refl refl (tt, (tt, tt))

-- The last byte of the input is the digest here.
abbrev last_byte : List ℕ → List ℕ
last_byte [] = 0 ∷ []
last_byte (b ∷ bs) = b % 256 ∷ []

last_byte-IsByte : (bs : List ℕ) → All IsByte (last_byte bs)
last_byte-IsByte [] = (omega arith, tt)
last_byte-IsByte (b ∷ bs) = (omega arith, tt)

verify_commitment_iff_example :
    (verify_commitment (λ s. s) last_byte ann (bytes_to_hex (7 ∷ 255 ∷ [])) (bytes_to_hex (97 ∷ []))
      ≡ true)
    ↔ (97 ∷ [] ≡ last_byte (ann ++ 7 ∷ 255 ∷ []))
verify_commitment_iff_example =
    verify_commitment_iff (λ s. s) last_byte last_byte-IsByte ann (7 ∷ 255 ∷ []) (97 ∷ [])
      (omega arith, (omega arith, tt)) (omega arith, tt)

abbrev strokes_to_come : Engine
strokes_to_come = table drawing (some (round_with (stroke_of ann ∷ []) []))

handle_submit_stroke-is_my_turn_example :
    Agrees bob line (player_with bob 3) (round_with (stroke_of ann ∷ []) []) strokes_to_come
unfolding find_player str_discrete ℕ_discrete
handle_submit_stroke-is_my_turn_example =
    handle_submit_stroke-is_my_turn bob line (player_with bob 3)
      (round_with (stroke_of ann ∷ []) []) strokes_to_come refl refl (λ e. cc) refl refl
