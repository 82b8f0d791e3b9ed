-- ===== src/Log/Meta.antt =====
-- frontend/p2p/log.ts: the meta record.
use fakeartist.Prelude.{ℕ, ◌≡◌, ◌≢◌, refl, ap, ◌∙◌, List, [], ◌∷◌, some, Str, arith}
use fakeartist.Models.{Round, GameState, Stroke}
use fakeartist.Protocol.{pos, negsuc, ltz, max_z}
use fakeartist.Log.{
  Database, LogMeta, put, get, append_stroke, put_state, get_meta, get_state, meta_with_stroke,
  meta_with_state, or_value, no_meta, round_or,
}

module _ {A : Type 0} where
  get-put : (k : Str) (a : A) (es : List (Str × A)) → get k (put k a es) ≡ some a
  unfolding get put
  get-put k a [] = ground arith
  get-put k a (e ∷ es) = grind (arith, get-put k a es)

  get-put_other : (j k : Str) (a : A) (es : List (Str × A)) → j ≢ k → get j (put k a es) ≡ get j es
  unfolding get put
  get-put_other j k a [] n = grind (arith, n)
  get-put_other j k a (e ∷ es) n = grind (arith, n, get-put_other j k a es)

-- A state that is put is read back with its version, and the state and the meta record of another
-- room are what they were.
pub put_state-Kept :
    (room other : Str) (version : ℕ) (s : GameState) (db : Database)
    → other ≢ room
    → (get_state room (put_state room version s db)
        ≡ some (record { version = version; state = s }))
      × (get_state other (put_state room version s db) ≡ get_state other db)
      × (get_meta other (put_state room version s db) ≡ get_meta other db)
unfolding get_state get_meta put_state
put_state-Kept room other version s db n = (
  get-put room _ db.state,
  get-put_other other room _ db.state n,
  get-put_other other room _ db.meta n,
)

-- The record after a write of a state.
put_state-meta :
    (room : Str) (version : ℕ) (s : GameState) (m : LogMeta) (db : Database)
    → get_meta room db ≡ some m
    → get_meta room (put_state room version s db) ≡ some (meta_with_state version s m)
unfolding get_meta put_state
put_state-meta room version s m db h =
    get-put room _ db.meta
    ∙ ap
        (λ o.
          some (
            meta_with_state version s (or_value o (no_meta (round_or s.current_round (negsuc 0))))))
        h

append_stroke-meta :
    (room : Str) (now round i : ℕ) (stroke : Stroke) (m : LogMeta) (db : Database)
    → get_meta room db ≡ some m
    → get_meta room (append_stroke room now round i stroke db) ≡ some (meta_with_stroke round i m)
unfolding get_meta append_stroke
append_stroke-meta room now round i stroke m db h =
    get-put room _ db.meta
    ∙ ap (λ o. some (meta_with_stroke round i (or_value o (no_meta (pos round))))) h

meta_with_state-round :
    (version : ℕ) (s : GameState) (r : Round) (m : LogMeta)
    → s.current_round ≡ some r
    → (meta_with_state version s m).last_round_index ≡ pos r.index
unfolding meta_with_state
meta_with_state-round version s r m k = ap (λ o. round_or o m.last_round_index) k

meta_with_state-stroke :
    (version : ℕ) (s : GameState) (m : LogMeta)
    → (meta_with_state version s m).last_stroke_index ≡ m.last_stroke_index
unfolding meta_with_state
meta_with_state-stroke version s m = refl

meta_with_stroke-same :
    (round i : ℕ) (m : LogMeta)
    → m.last_round_index ≡ pos round
    → ((meta_with_stroke round i m).last_round_index ≡ pos round)
      × ((meta_with_stroke round i m).last_stroke_index ≡ max_z m.last_stroke_index (pos i))
unfolding meta_with_stroke max_z ltz
meta_with_stroke-same round i m e = rw e (ground arith)

-- When the state of a round is put before the first stroke of that round is appended, the meta
-- record keeps the greater of the last stroke index of the round before and the new one: the
-- index is not reset.
pub append_stroke-put_state :
    (room : Str) (now i version : ℕ) (s : GameState) (r : Round) (stroke : Stroke) (m : LogMeta)
    (db : Database)
    → get_meta room db ≡ some m
    → s.current_round ≡ some r
    → (k : LogMeta) × (get_meta room
          (append_stroke room now r.index i stroke (put_state room version s db))
        ≡ some k)
      × (k.last_round_index ≡ pos r.index)
      × (k.last_stroke_index ≡ max_z m.last_stroke_index (pos i))
append_stroke-put_state room now i version s r stroke m db h k = (
  meta_with_stroke r.index i (meta_with_state version s m),
  append_stroke-meta room now r.index i stroke (meta_with_state version s m)
      (put_state room version s db) (put_state-meta room version s m db h),
  same.0,
  same.1 ∙ ap (λ z. max_z z (pos i)) (meta_with_state-stroke version s m),
)
  where
    same :
        ((meta_with_stroke r.index i (meta_with_state version s m)).last_round_index ≡ pos r.index)
        × ((meta_with_stroke r.index i (meta_with_state version s m)).last_stroke_index
            ≡ max_z (meta_with_state version s m).last_stroke_index (pos i))
    same =
        meta_with_stroke-same r.index i (meta_with_state version s m)
          (meta_with_state-round version s r m k)
