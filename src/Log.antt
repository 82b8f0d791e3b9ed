-- ===== src/Log.antt =====
-- frontend/p2p/log.ts, class `StrokeLog`: the log of strokes, the state and the meta record of one
-- room in IndexedDB. The stores of the database are lists of keys and values.
pub mod Ranges
pub mod Meta
pub mod Clearing
pub mod Refinement
use fakeartist.Prelude.{
  ℕ, zero, suc, ◌+◌, ◌-◌, ◌*◌, List, [], ◌∷◌, ◌++◌, map, Bool, true, false, not, ◌&&◌, Option, none,
  some, Str, ◌==◌, lts, decimal, length, drop, leb, keep_if, if◌then◌else◌,
}
use fakeartist.Prelude.Sort.{sort_by}
use fakeartist.Models.{Round, GameState, Stroke, Point}
use fakeartist.Protocol.{ℤ, pos, negsuc, ltz, max_z}

pub record IndexedStroke : Type 0 where
  pub player_id : Str
  pub color : Str
  pub points : List Point
  pub ts : ℕ

pub record LogMeta : Type 0 where
  pub last_round_index : ℤ
  pub last_stroke_index : ℤ
  pub last_state_version : ℕ

pub record LogState : Type 0 where
  pub version : ℕ
  pub state : GameState

-- The three object stores.
pub record Database : Type 0 where
  pub log : List (Str × IndexedStroke)
  pub meta : List (Str × LogMeta)
  pub state : List (Str × LogState)

unfoldable pub empty_database : Database
empty_database = record { log = []; meta = []; state = [] }

module _ {ℓ} {A : Type ℓ} where
  unfoldable pub put : Str → A → List (Str × A) → List (Str × A)
  put k a [] = (k, a) ∷ []
  put k a (e ∷ es) = if e.0 == k then (k, a) ∷ es else e ∷ put k a es

  unfoldable pub get : Str → List (Str × A) → Option A
  get k [] = none
  get k (e ∷ es) = if e.0 == k then some e.1 else get k es

  unfoldable pub delete : Str → List (Str × A) → List (Str × A)
  delete k = keep_if (λ (e : Str × A). not (e.0 == k))

  -- `IDBKeyRange.bound(lower, upper)`, both ends included.
  unfoldable pub in_range : Str → Str → Str × A → Bool
  in_range lower upper e = not (lts e.0 lower) && not (lts upper e.0)

  abbrev pub or_value : Option A → A → A
  or_value none a = a
  or_value (some b) a = b

-- `room/round/`; 47 is the slash.
unfoldable pub prefix_of : Str → ℕ → Str
prefix_of room round = room ++ 47 ∷ decimal round ++ 47 ∷ []

unfoldable pub stroke_key : Str → ℕ → ℕ → Str
unfolding prefix_of
stroke_key room round i = prefix_of room round ++ decimal i

-- The record of a room without one.
abbrev pub no_meta : ℤ → LogMeta
no_meta round = record {
  last_round_index = round;
  last_stroke_index = negsuc 0;
  last_state_version = 0;
}

unfoldable pub meta_with_stroke : ℕ → ℕ → LogMeta → LogMeta
unfolding max_z
meta_with_stroke round i m = record m {
  last_round_index = max_z m.last_round_index (pos round);
  last_stroke_index =
      if ltz m.last_round_index (pos round) then pos i else max_z m.last_stroke_index (pos i);
}

unfoldable pub append_stroke : Str → ℕ → ℕ → ℕ → Stroke → Database → Database
unfolding put get stroke_key meta_with_stroke
append_stroke room now round i s db = record db {
  log =
      put (stroke_key room round i)
        (record { player_id = s.player_id; color = s.color; points = s.points; ts = now }) db.log;
  meta =
      put room (meta_with_stroke round i (or_value (get room db.meta) (no_meta (pos round))))
        db.meta;
}

-- The value of the digits, after `acc`; `none` is NaN. All keys that a log holds end in digits.
unfoldable pub number_from : ℕ → Str → Option ℕ
number_from acc [] = some acc
number_from acc (c ∷ s) =
    let rest = number_from (acc * 10 + (c - 48)) s in if leb 48 c && leb c 57 then rest else none

unfoldable pub to_stroke : IndexedStroke → Stroke
to_stroke v = record { player_id = v.player_id; color = v.color; points = v.points }

-- The cursor's step on an entry of the range.
unfoldable pub read_entry : ℕ → ℕ → Str × IndexedStroke → List (ℕ × Stroke)
unfolding number_from to_stroke
read_entry n from e = elim (number_from 0 (drop n e.0)) [
  | none ↦ []
  | some i ↦ if leb from i then (i, to_stroke e.1) ∷ [] else []
]

unfoldable pub read_entries : ℕ → ℕ → List (Str × IndexedStroke) → List (ℕ × Stroke)
unfolding read_entry
read_entries n from [] = []
read_entries n from (e ∷ es) = read_entry n from e ++ read_entries n from es

abbrev pub by_index : ℕ × Stroke → ℕ × Stroke → Bool
by_index a b = leb a.0 b.0

-- The entries of the range, read and sorted by their numbers.
unfoldable pub get_strokes_from : Str → ℕ → ℕ → Database → List (ℕ × Stroke)
unfolding in_range read_entries prefix_of
get_strokes_from room round from db =
    let prefix = prefix_of room round in
    sort_by by_index (
      read_entries (length prefix) from
        (keep_if (in_range (prefix ++ decimal from) (prefix ++ 0xffff ∷ [])) db.log))

unfoldable pub get_meta : Str → Database → Option LogMeta
unfolding get
get_meta room db = get room db.meta

abbrev pub round_or : Option Round → ℤ → ℤ
round_or none z = z
round_or (some r) z = pos r.index

unfoldable pub meta_with_state : ℕ → GameState → LogMeta → LogMeta
meta_with_state version s m = record m {
  last_round_index = round_or s.current_round m.last_round_index;
  last_state_version = if leb m.last_state_version version then version else m.last_state_version;
}

unfoldable pub put_state : Str → ℕ → GameState → Database → Database
unfolding put get meta_with_state
put_state room version s db = record db {
  state = put room (record { version = version; state = s }) db.state;
  meta =
      put room
        (meta_with_state version s
          (or_value (get room db.meta) (no_meta (round_or s.current_round (negsuc 0)))))
        db.meta;
}

unfoldable pub get_state : Str → Database → Option LogState
unfolding get
get_state room db = get room db.state

unfoldable pub clear_room : Str → Database → Database
unfolding in_range delete
clear_room room db =
    let prefix = room ++ 47 ∷ [] in
    record {
      log =
          keep_if (λ (e : Str × IndexedStroke). not (in_range prefix (prefix ++ 0xffff ∷ []) e))
            db.log;
      meta = delete room db.meta;
      state = delete room db.state;
    }
