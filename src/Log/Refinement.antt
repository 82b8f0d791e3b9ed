-- ===== src/Log/Refinement.antt =====
-- frontend/p2p/log.ts: the stores of one room are a shelf, a place for each stroke of each round and
-- one for the state, and the operations are updates of that.
use fakeartist.Prelude.{
  ℕ, ◌+◌, ◌*◌, ◌-◌, ◌≡◌, ◌≢◌, refl, sym, ap, ap₂, subst, ◌∙◌, List, [], ◌∷◌, ◌++◌, Bool, true,
  false, not, ◌&&◌, Option, none, some, Str, str_discrete, lts, decimal, nat_eq, leb, keep_if,
  arith, All, inl, inr, Bool-cases, if◌then◌else◌,
}
use fakeartist.Models.{GameState, Stroke}
use fakeartist.Prelude.Order.{lts-append}
use fakeartist.Log.{
  IndexedStroke, LogState, Database, put, get, in_range, prefix_of, stroke_key, append_stroke,
  put_state, get_state, clear_room, number_from,
}
use fakeartist.Log.Ranges.{decimal-Starts, number_from-decimal}
use fakeartist.Log.Clearing.{get-delete, below_end-append, above_start, prefix-room}

-- What a room holds, whatever the order of the entries.
pub record Shelf : Type 0 where
  pub strokes : ℕ → ℕ → Option IndexedStroke
  pub state : Option LogState

pub data LogOp : Type 0 where
  appending : ℕ → ℕ → ℕ → Stroke → LogOp
  putting : ℕ → GameState → LogOp
  clearing : LogOp

unfoldable pub log_step : Str → LogOp → Database → Database
log_step room (appending now round i s) db = append_stroke room now round i s db
log_step room (putting version s) db = put_state room version s db
log_step room clearing db = clear_room room db

unfoldable pub log_run : Str → List LogOp → Database → Database
unfolding log_step
log_run room [] db = db
log_run room (op ∷ ops) db = log_run room ops (log_step room op db)

-- A stroke with the time of its writing.
abbrev stamped : ℕ → Stroke → IndexedStroke
stamped now s = record { player_id = s.player_id; color = s.color; points = s.points; ts = now }

-- The operations on a shelf.
unfoldable pub shelf_step : LogOp → Shelf → Shelf
shelf_step (appending now round i s) h = record h {
  strokes = λ r j. if nat_eq r round && nat_eq j i then some (stamped now s) else h.strokes r j;
}
shelf_step (putting version s) h = record h {
  state = some (record { version = version; state = s });
}
shelf_step clearing h = record { strokes = λ r j. none; state = none }

unfoldable pub shelf_run : List LogOp → Shelf → Shelf
unfolding shelf_step
shelf_run [] h = h
shelf_run (op ∷ ops) h = shelf_run ops (shelf_step op h)

unfoldable pub shelf : Str → Database → Shelf
shelf room db = record {
  strokes = λ r j. get (stroke_key room r j) db.log;
  state = get_state room db;
}

module _ {A : Type 0} where
  get-put_same : (k : Str) (a : A) (es : List (Str × A)) → get k (put k a es) ≡ some a
  unfolding get put
  get-put_same k a [] = ground arith
  get-put_same k a (e ∷ es) = grind (arith, get-put_same k a es)

  get-put_other : (k l : Str) (a : A) (es : List (Str × A)) → k ≢ l → get l (put k a es) ≡ get l es
  unfolding get put
  get-put_other k l a [] n = grind (arith, n)
  get-put_other k l a (e ∷ es) n = grind (arith, n, get-put_other k l a es)

  get-removed :
      (k : Str) (p : Str × A → Bool) (es : List (Str × A))
      → ((a : A) → p (k, a) ≡ false)
      → get k (keep_if p es) ≡ none
  unfolding get
  get-removed k p [] h = refl
  get-removed k p (e ∷ es) h = elim (str_discrete e.0 k) [
    | yes y ↦
        let gone : p e ≡ false = subst (λ l. p (l, e.1) ≡ false) (sym y) (h e.1) in
        rw gone (get-removed k p es h)
    | no n ↦ grind (arith, n, get-removed k p es h)
  ]

-- A code unit of a decimal digit.
abbrev IsDigit : ℕ → Type 0
IsDigit c = (leb 48 c && leb c 57) ≡ true

digits_of : (s : Str) (acc n : ℕ) → number_from acc s ≡ some n → All IsDigit s
unfolding number_from
digits_of [] acc n h = tt
digits_of (c ∷ s) acc n h = elim (Bool-cases (leb 48 c && leb c 57)) [
  | inl d ↦ (d, digits_of s (acc * 10 + (c - 48)) n (grind (arith, h, d)))
  | inr d ↦ absurd (grind (arith, h, d))
]

cancel_left : (p s t : Str) → p ++ s ≡ p ++ t → s ≡ t
cancel_left [] s t e = e
cancel_left (c ∷ p) s t e = cancel_left p s t (grind (arith, e))

-- The slash ends the digits.
split_at_slash :
    (u v s t : Str) → All IsDigit u → All IsDigit v → u ++ 47 ∷ s ≡ v ++ 47 ∷ t → (u ≡ v) × (s ≡ t)
split_at_slash [] [] s t a b e = (refl, grind (arith, e))
split_at_slash [] (d ∷ v) s t a b e = absurd (grind (arith, e, b.0))
split_at_slash (c ∷ u) [] s t a b e = absurd (grind (arith, e, a.0))
split_at_slash (c ∷ u) (d ∷ v) s t a b e =
    let rest = split_at_slash u v s t a.1 b.1 (grind (arith, e)) in
    (ap₂ (λ x y. x ∷ y) (grind (arith, e)) rest.0, rest.1)

decimal-injective : (m n : ℕ) → decimal m ≡ decimal n → m ≡ n
decimal-injective m n e =
    let same = sym (number_from-decimal m) ∙ ap (number_from 0) e ∙ number_from-decimal n in
    grind (arith, same)

stroke_key-injective :
    (room : Str) (r i q j : ℕ) → stroke_key room r i ≡ stroke_key room q j → (r ≡ q) × (i ≡ j)
unfolding stroke_key
stroke_key-injective room r i q j e =
    let parts =
      cancel_left (room ++ 47 ∷ []) (decimal r ++ 47 ∷ decimal i) (decimal q ++ 47 ∷ decimal j)
        (sym (prefix-room room r (decimal i)) ∙ e ∙ prefix-room room q (decimal j)) in
    let halves =
      split_at_slash (decimal r) (decimal q) (decimal i) (decimal j)
        (digits_of (decimal r) 0 r (number_from-decimal r))
        (digits_of (decimal q) 0 q (number_from-decimal q)) parts in
    (decimal-injective r q halves.0, decimal-injective i j halves.1)

-- All keys of a room are in its range.
key_of_room :
    (room : Str) (r i : ℕ) (v : IndexedStroke)
    → in_range (room ++ 47 ∷ []) ((room ++ 47 ∷ []) ++ 0xffff ∷ []) (stroke_key room r i, v) ≡ true
unfolding in_range stroke_key
key_of_room room r i v =
    let p = room ++ 47 ∷ [] in
    let low : lts (prefix_of room r ++ decimal i) p ≡ false =
      ap (λ s. lts s p) (prefix-room room r (decimal i))
      ∙ above_start p (decimal r ++ 47 ∷ decimal i) in
    let high : lts (p ++ 0xffff ∷ []) (prefix_of room r ++ decimal i) ≡ false =
      ap (lts (p ++ 0xffff ∷ [])) (prefix-room room r (decimal i))
      ∙ lts-append p (0xffff ∷ []) (decimal r ++ 47 ∷ decimal i)
      ∙ below_end-append (decimal r) (47 ∷ decimal i) (decimal-Starts r) in
    grind (arith, low, high)

appended-stroke :
    (room : Str) (now round i : ℕ) (s : Stroke) (db : Database) (r j : ℕ)
    → get (stroke_key room r j) (append_stroke room now round i s db).log ≡ (
        if nat_eq r round && nat_eq j i
        then some (stamped now s)
        else get (stroke_key room r j) db.log)
unfolding append_stroke
appended-stroke room now round i s db r j = elim (Bool-cases (nat_eq r round && nat_eq j i)) [
  | inl e ↦
      let same : stroke_key room r j ≡ stroke_key room round i =
        ap₂ (stroke_key room) (ground (arith, e)) (ground (arith, e)) in
      rw e (
        subst
          (λ k. get k (put (stroke_key room round i) (stamped now s) db.log) ≡ some (stamped now s))
          (sym same) (get-put_same (stroke_key room round i) (stamped now s) db.log))
  | inr e ↦ rw e (
      get-put_other (stroke_key room round i) (stroke_key room r j) (stamped now s) db.log
        (λ k. let x = stroke_key-injective room round i r j k in ground (arith, e, x.0, x.1)))
]

log_step-shelf :
    (room : Str) (op : LogOp) (db : Database)
    → shelf room (log_step room op db) ≡ shelf_step op (shelf room db)
unfolding shelf log_step shelf_step get_state put_state clear_room append_stroke
log_step-shelf room (appending now round i s) db = λ k. record {
  strokes = λ r j. appended-stroke room now round i s db r j k;
  state = get room db.state;
}
log_step-shelf room (putting version s) db = λ k. record {
  strokes = λ r j. get (stroke_key room r j) db.log;
  state = get-put_same room (record { version = version; state = s }) db.state k;
}
log_step-shelf room clearing db = λ k. record {
  strokes = λ r j.
      get-removed (stroke_key room r j)
        (λ (e : Str × IndexedStroke).
          not (in_range (room ++ 47 ∷ []) ((room ++ 47 ∷ []) ++ 0xffff ∷ []) e))
        db.log (λ v. ap not (key_of_room room r j v)) k;
  state = get-delete room db.state k;
}

-- Through every sequence of strokes appended, states put and clearings of a room, its stores hold
-- what a shelf holds that has a place for each index of each round and one for the state: an
-- append fills the place of its stroke alone, a put the place of the state, and clearing empties
-- all.
pub log_run-shelf :
    (room : Str) (ops : List LogOp) (db : Database)
    → shelf room (log_run room ops db) ≡ shelf_run ops (shelf room db)
unfolding log_run shelf_run
log_run-shelf room [] db = refl
log_run-shelf room (op ∷ ops) db =
    log_run-shelf room ops (log_step room op db) ∙ ap (shelf_run ops) (log_step-shelf room op db)
