-- ===== src/Log/Clearing.antt =====
-- frontend/p2p/log.ts, `clearRoom`: nothing of the room is left.
use fakeartist.Prelude.{
  ℕ, ◌≡◌, refl, ap, sym, ◌∙◌, List, [], ◌∷◌, ◌++◌, Bool, true, false, not, none, Str, lts, decimal,
  length, keep_if, arith,
}
use mathlib.Core.List.{append_assoc}
use fakeartist.Prelude.Order.{lts-append, lts_trans}
use fakeartist.Prelude.Sort.{sort_by}
use fakeartist.Log.{
  IndexedStroke, Database, get, delete, in_range, prefix_of, read_entries, by_index,
  get_strokes_from, get_state, get_meta, clear_room,
}
use fakeartist.Log.Ranges.{Starts, decimal-Starts}

module _ {A : Type 0} where
  pub get-delete : (k : Str) (es : List (Str × A)) → get k (delete k es) ≡ none
  unfolding get delete
  get-delete k [] = refl
  get-delete k (e ∷ es) = grind (arith, get-delete k es)

  -- Nothing is in the smaller range once the greater one is removed.
  keep-remove :
      (p q : Str × A → Bool) (es : List (Str × A))
      → ((e : Str × A) → p e ≡ true → q e ≡ true)
      → keep_if p (keep_if (λ e. not (q e)) es) ≡ []
  keep-remove p q [] h = refl
  keep-remove p q (e ∷ es) h = grind (arith, h e, keep-remove p q es h)

pub below_end-append : (s t : Str) → Starts s → lts (0xffff ∷ []) (s ++ t) ≡ false
unfolding lts
below_end-append [] t h = absurd h
below_end-append (c ∷ s) t h = ground arith

pub above_start : (p s : Str) → lts (p ++ s) p ≡ false
unfolding lts
above_start [] s = refl
above_start (c ∷ p) s = ground (arith, above_start p s)

-- The keys of a round begin with the room.
pub prefix-room :
    (room : Str) (round : ℕ) (s : Str)
    → prefix_of room round ++ s ≡ (room ++ 47 ∷ []) ++ (decimal round ++ 47 ∷ s)
unfolding prefix_of
prefix-room room round s =
    append_assoc (room ++ (47 ∷ decimal round)) (47 ∷ []) s
    ∙ append_assoc room (47 ∷ decimal round) (47 ∷ s)
    ∙ sym (append_assoc room (47 ∷ []) (decimal round ++ 47 ∷ s))

-- A round's range is within the room's.
round_in_room :
    (room : Str) (round from : ℕ) (e : Str × IndexedStroke)
    → in_range (prefix_of room round ++ decimal from) (prefix_of room round ++ 0xffff ∷ []) e ≡ true
    → in_range (room ++ 47 ∷ []) ((room ++ 47 ∷ []) ++ 0xffff ∷ []) e ≡ true
unfolding in_range
round_in_room room round from e h =
    let p = room ++ 47 ∷ [] in
    let low : lts (prefix_of room round ++ decimal from) p ≡ false =
      ap (λ s. lts s p) (prefix-room room round (decimal from))
      ∙ above_start p (decimal round ++ 47 ∷ decimal from) in
    let high : lts (p ++ 0xffff ∷ []) (prefix_of room round ++ 0xffff ∷ []) ≡ false =
      ap (lts (p ++ 0xffff ∷ [])) (prefix-room room round (0xffff ∷ []))
      ∙ lts-append p (0xffff ∷ []) (decimal round ++ 47 ∷ 0xffff ∷ [])
      ∙ below_end-append (decimal round) (47 ∷ 0xffff ∷ []) (decimal-Starts round) in
    grind (
      arith,
      h,
      lts_trans e.0 (prefix_of room round ++ decimal from) p,
      lts_trans (p ++ 0xffff ∷ []) (prefix_of room round ++ 0xffff ∷ []) e.0,
      low,
      high,
    )

-- After a room is cleared, no read of any round from any index finds a stroke of it, and its
-- state and its meta record are gone.
pub clear_room-Cleared :
    (room : Str) (round from : ℕ) (db : Database)
    → (get_strokes_from room round from (clear_room room db) ≡ [])
      × (get_state room (clear_room room db) ≡ none)
      × (get_meta room (clear_room room db) ≡ none)
unfolding get_strokes_from get_state get_meta clear_room read_entries sort_by
clear_room-Cleared room round from db = (
  ap (λ es. sort_by by_index (read_entries (length (prefix_of room round)) from es))
      (keep-remove
        (in_range (prefix_of room round ++ decimal from) (prefix_of room round ++ 0xffff ∷ []))
        (in_range (room ++ 47 ∷ []) ((room ++ 47 ∷ []) ++ 0xffff ∷ [])) db.log
        (round_in_room room round from)),
  get-delete room db.state,
  get-delete room db.meta,
)
