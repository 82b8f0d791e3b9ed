-- ===== src/Log/Ranges.antt =====
-- frontend/p2p/log.ts: which strokes a read by key range finds.
use fakeartist.Prelude.{
  ℕ, zero, suc, ◌/◌, ◌%◌, ◌≤◌, ◌<◌, ◌≡◌, refl, ap, sym, subst, ◌∙◌, ◌⊎◌, inl, inr, List, [], ◌∷◌,
  ◌++◌, Bool, true, false, Option, none, some, Str, ◌==◌, lts, decimal, digits_from, digit, length,
  drop, leb, keep_if, if◌then◌else◌, arith, Bool-cases,
}
use fakeartist.Prelude.Order.{lts-append}
use fakeartist.Prelude.Sort.{sort_by, insert_by}
use fakeartist.Models.{Stroke}
use fakeartist.Log.{
  IndexedStroke, Database, put, in_range, prefix_of, stroke_key, append_stroke, number_from,
  to_stroke, read_entry, read_entries, by_index, get_strokes_from,
}

drop-append : (p s : Str) → drop (length p) (p ++ s) ≡ s
drop-append [] s = refl
drop-append (c ∷ p) s = drop-append p s

number_from-digits_from :
    (f n : ℕ) (acc : Str) → n < f → number_from 0 (digits_from f 10 n acc) ≡ number_from n acc
unfolding number_from digits_from digit
number_from-digits_from zero n acc h = absurd (omega arith)
number_from-digits_from (suc f) n acc h =
    grind (arith, number_from-digits_from f (n / 10) (digit (n % 10) ∷ acc))

pub number_from-decimal : (n : ℕ) → number_from 0 (decimal n) ≡ some n
unfolding number_from decimal
number_from-decimal n = number_from-digits_from (suc n) n [] (omega arith)

-- The number begins with a digit.
abbrev pub Starts : Str → Type 0
Starts [] = ⊥
Starts (c ∷ s) = (48 ≤ c) × (c < 58)

digits_from-Starts : (f n : ℕ) (acc : Str) → n < f → Starts (digits_from f 10 n acc)
unfolding digits_from digit
digits_from-Starts zero n acc h = absurd (omega arith)
digits_from-Starts (suc f) n acc h =
    ground (arith, digits_from-Starts f (n / 10) (digit (n % 10) ∷ acc))

pub decimal-Starts : (n : ℕ) → Starts (decimal n)
unfolding decimal
decimal-Starts n = digits_from-Starts (suc n) n [] (omega arith)

pub below_end : (s : Str) → Starts s → lts (0xffff ∷ []) s ≡ false
unfolding lts
below_end [] h = absurd h
below_end (c ∷ s) h = ground arith

above_zero : (s : Str) → Starts s → lts s (decimal 0) ≡ false
unfolding lts decimal digits_from digit
above_zero [] h = absurd h
above_zero (c ∷ s) h = ground arith

module _ {A : Type 0} where
  abbrev pub Has : A → List A → Type 0
  Has a [] = ⊥
  Has a (x ∷ xs) = (x ≡ a) ⊎ Has a xs

  Has-append : (a : A) (xs ys : List A) → Has a xs ⊎ Has a ys → Has a (xs ++ ys)
  Has-append a [] ys (inl h) = absurd h
  Has-append a [] ys (inr h) = h
  Has-append a (x ∷ xs) ys (inl (inl e)) = inl e
  Has-append a (x ∷ xs) ys (inl (inr h)) = inr (Has-append a xs ys (inl h))
  Has-append a (x ∷ xs) ys (inr h) = inr (Has-append a xs ys (inr h))

  Has-insert_by :
      (le : A → A → Bool) (a x : A) (ys : List A) → (x ≡ a) ⊎ Has a ys → Has a (insert_by le x ys)
  unfolding insert_by
  Has-insert_by le a x [] h = h
  Has-insert_by le a x (y ∷ ys) h = elim (Bool-cases (le x y)) [
    | inl t ↦ rw t h
    | inr t ↦ rw t (elim h [
      | inl e ↦ inr (Has-insert_by le a x ys (inl e))
      | inr k ↦ elim k [ inl e ↦ inl e | inr m ↦ inr (Has-insert_by le a x ys (inr m)) ]
    ])
  ]

  Has-sort_by : (le : A → A → Bool) (a : A) (xs : List A) → Has a xs → Has a (sort_by le xs)
  unfolding sort_by
  Has-sort_by le a [] h = h
  Has-sort_by le a (x ∷ xs) (inl e) = Has-insert_by le a x (sort_by le xs) (inl e)
  Has-sort_by le a (x ∷ xs) (inr h) =
      Has-insert_by le a x (sort_by le xs) (inr (Has-sort_by le a xs h))

  Has-keep_if : (p : A → Bool) (a : A) (xs : List A) → p a ≡ true → Has a xs → Has a (keep_if p xs)
  Has-keep_if p a [] t h = h
  Has-keep_if p a (x ∷ xs) t (inl e) = rw (ap p e ∙ t) (inl e)
  Has-keep_if p a (x ∷ xs) t (inr h) = elim (Bool-cases (p x)) [
    | inl q ↦ rw q (inr (Has-keep_if p a xs t h))
    | inr q ↦ rw q (Has-keep_if p a xs t h)
  ]

module _ {A : Type 0} where
  Has-put : (k : Str) (a : A) (es : List (Str × A)) → Has (k, a) (put k a es)
  unfolding put
  Has-put k a [] = inl refl
  Has-put k a (e ∷ es) = elim (Bool-cases (e.0 == k)) [
    | inl t ↦ rw t (inl refl)
    | inr t ↦ rw t (inr (Has-put k a es))
  ]

  -- A write outside the range does not change what the range holds.
  keep_if-put :
      (lower upper k : Str) (a : A) (es : List (Str × A))
      → in_range lower upper (k, a) ≡ false
      → keep_if (in_range lower upper) (put k a es) ≡ keep_if (in_range lower upper) es
  unfolding put in_range
  keep_if-put lower upper k a [] h = ground (arith, h)
  keep_if-put lower upper k a (e ∷ es) h = grind (arith, h, keep_if-put lower upper k a es)

Has-read_entries :
    (n from : ℕ) (e : Str × IndexedStroke) (q : ℕ × Stroke) (es : List (Str × IndexedStroke))
    → Has q (read_entry n from e)
    → Has e es
    → Has q (read_entries n from es)
unfolding read_entries
Has-read_entries n from e q [] r h = absurd h
Has-read_entries n from e q (x ∷ es) r (inl y) =
    Has-append q (read_entry n from x) (read_entries n from es)
      (inl (subst (λ z. Has q (read_entry n from z)) (sym y) r))
Has-read_entries n from e q (x ∷ es) r (inr h) =
    Has-append q (read_entry n from x) (read_entries n from es)
      (inr (Has-read_entries n from e q es r h))

-- The entry of a stroke, when the range of the read has its key.
entry_read :
    (room : Str) (round from i : ℕ) (v : IndexedStroke)
    → from ≤ i
    → Has {A = ℕ × Stroke}
        (i, to_stroke v)
        (read_entry (length (prefix_of room round)) from (stroke_key room round i, v))
unfolding read_entry stroke_key
entry_read room round from i v h =
    read (number_from 0 (drop (length (prefix_of room round)) (prefix_of room round ++ decimal i)))
      (ap (number_from 0) (drop-append (prefix_of room round) (decimal i)) ∙ number_from-decimal i)
  where
    read :
        (o : Option ℕ)
        → o ≡ some i
        → Has {A = ℕ × Stroke}
            (i, to_stroke v)
            (elim o [ none ↦ [] | some j ↦ if leb from j then (j, to_stroke v) ∷ [] else [] ])
    read none e = cc
    read (some j) e = grind (arith, e, h)

key_in_range :
    (room : Str) (round from i : ℕ) (v : IndexedStroke)
    → lts (decimal i) (decimal from) ≡ false
    → in_range
        (prefix_of room round ++ decimal from)
        (prefix_of room round ++ 0xffff ∷ [])
        (stroke_key room round i, v)
      ≡ true
unfolding in_range stroke_key
key_in_range room round from i v h =
    rw (lts-append (prefix_of room round) (decimal i) (decimal from)) (
      rw (lts-append (prefix_of room round) (0xffff ∷ []) (decimal i))
        (ground (arith, h, below_end (decimal i) (decimal-Starts i))))

key_out_of_range :
    (room : Str) (round from i : ℕ) (v : IndexedStroke)
    → lts (decimal i) (decimal from) ≡ true
    → in_range
        (prefix_of room round ++ decimal from)
        (prefix_of room round ++ 0xffff ∷ [])
        (stroke_key room round i, v)
      ≡ false
unfolding in_range stroke_key
key_out_of_range room round from i v h =
    rw (lts-append (prefix_of room round) (decimal i) (decimal from)) (ground (arith, h))

-- Reading from an index up to the appended stroke's finds the stroke, if its decimal index does
-- not sort before that index as a string.
pub get_strokes_from-finds :
    (room : Str) (now round from i : ℕ) (s : Stroke) (db : Database)
    → from ≤ i
    → lts (decimal i) (decimal from) ≡ false
    → Has (i, s) (get_strokes_from room round from (append_stroke room now round i s db))
unfolding get_strokes_from append_stroke to_stroke
get_strokes_from-finds room now round from i s db h k =
    Has-sort_by by_index (i, s) _
      (Has-read_entries (length (prefix_of room round)) from (stroke_key room round i, v) (i, s) _
        (entry_read room round from i v h)
        (Has-keep_if _ (stroke_key room round i, v) _ (key_in_range room round from i v k)
          (Has-put (stroke_key room round i) v db.log)))
  where
    v : IndexedStroke
    v = record { player_id = s.player_id; color = s.color; points = s.points; ts = now }

-- Reading a round from index 0 finds a stroke that was just appended, with its index, whatever
-- the log held.
pub get_strokes_from-all :
    (room : Str) (now round i : ℕ) (s : Stroke) (db : Database)
    → Has (i, s) (get_strokes_from room round 0 (append_stroke room now round i s db))
get_strokes_from-all room now round i s db =
    get_strokes_from-finds room now round 0 i s db (omega arith)
      (above_zero (decimal i) (decimal-Starts i))

-- If the decimal index of an appended stroke sorts as a string before the index that is read
-- from, then the read returns what it would have returned without the stroke, also where the
-- number is greater.
pub get_strokes_from-loses :
    (room : Str) (now round from i : ℕ) (s : Stroke) (db : Database)
    → lts (decimal i) (decimal from) ≡ true
    → get_strokes_from room round from (append_stroke room now round i s db)
      ≡ get_strokes_from room round from db
unfolding get_strokes_from append_stroke
get_strokes_from-loses room now round from i s db h =
    ap (λ es. sort_by by_index (read_entries (length (prefix_of room round)) from es))
      (keep_if-put (prefix_of room round ++ decimal from) (prefix_of room round ++ 0xffff ∷ [])
        (stroke_key room round i) v db.log (key_out_of_range room round from i v h))
  where
    v : IndexedStroke
    v = record { player_id = s.player_id; color = s.color; points = s.points; ts = now }
