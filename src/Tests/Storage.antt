-- ===== src/Tests/Storage.antt =====
-- frontend/p2p/election.ts, log.ts and checkpoint.ts: small inputs.
use fakeartist.Log.Refinement.{
  LogOp, appending, putting, clearing, log_run, shelf, shelf_run, log_run-shelf,
}
use fakeartist.Prelude.{
  ℕ, ◌≡◌, ◌≢◌, refl, ap, get_or, List, [], ◌∷◌, none, some, Str, codes, arith, includes, lts,
  decimal, str_discrete, ℕ_discrete,
}
use fakeartist.Models.{drawing, GameState}
use fakeartist.Protocol.{pos, max_z, ServerEvent}
use fakeartist.Election.{LocalView, elect, candidate}
use fakeartist.Election.Winner.{Elects, elect-Elects}
use fakeartist.Election.Agreement.{elect-agrees, elect_self}
use fakeartist.Log.{
  Database, LogMeta, empty_database, append_stroke, get_strokes_from, put_state, get_meta,
}
use fakeartist.Log.Ranges.{get_strokes_from-loses}
use fakeartist.Log.Meta.{append_stroke-put_state}
use fakeartist.Checkpoint.{Checkpoint, new_checkpoint, observe, finish_flush}
use fakeartist.Checkpoint.Flushing.{IsPrompt, begun, after, seen, posted, Runs-IsPrompt}
use fakeartist.Tests.Data.{ann, bob, table, round_with, stroke_of}

-- A guest that knows nothing of its peers.
abbrev view_of : Str → ℕ → LocalView
view_of self version = record {
  self_id = self;
  self_version = version;
  self_last_stroke_index = pos 3;
  connected = ann ∷ bob ∷ [];
  peers = λ p. none;
}

elect-Elects_example : Elects (view_of ann 4) (elect (view_of ann 4))
elect-Elects_example = elect-Elects (view_of ann 4) (λ h. cc)

-- The order in which a guest lists its peers does not matter.
abbrev other_order : LocalView
other_order = record (view_of ann 4) { connected = bob ∷ ann ∷ ann ∷ [] }

same_members : (p : Str) → includes (ann ∷ bob ∷ []) p ≡ includes (bob ∷ ann ∷ ann ∷ []) p
same_members p = ground arith

same_candidates : (p : Str) → candidate (view_of ann 4) p ≡ candidate other_order p
unfolding candidate
same_candidates p = refl

elect-agrees_example : elect (view_of ann 4) ≡ elect other_order
elect-agrees_example =
    elect-agrees (view_of ann 4) other_order (λ h. cc) (λ h. cc) same_members same_candidates

-- Bob chooses himself; so does ann, from her own view.
elect_self_example : elect (view_of bob 4) ≡ some bob
unfolding str_discrete ℕ_discrete
elect_self_example = elect_self (view_of bob 4) refl (λ p. refl) (omega arith)

elect_self_lem : elect (view_of ann 4) ≡ some ann
unfolding str_discrete ℕ_discrete
elect_self_lem = elect_self (view_of ann 4) refl (λ p. refl) (omega arith)

-- A guest that lacks the strokes from 2 on does not get stroke 10.
get_strokes_from-loses_example :
    get_strokes_from
      (codes "r")
      0
      2
      (append_stroke (codes "r") 0 0 10 (stroke_of ann) empty_database)
    ≡ get_strokes_from (codes "r") 0 2 empty_database
unfolding lts decimal
get_strokes_from-loses_example =
    get_strokes_from-loses (codes "r") 0 0 2 10 (stroke_of ann) empty_database refl

abbrev shown : GameState
shown = (table drawing (some (record (round_with [] []) { index = 1 }))).state

-- What the log holds after seven strokes of round 0.
abbrev after_round_0 : Database
after_round_0 = record empty_database {
  meta =
      (
        codes "r",
        record { last_round_index = pos 0; last_stroke_index = pos 7; last_state_version = 9 },
      )
      ∷ [];
}

append_stroke-put_state_example :
    (k : LogMeta) × (get_meta (codes "r") (
        append_stroke
          (codes "r")
          0
          1
          0
          (stroke_of ann)
          (put_state (codes "r") 10 shown after_round_0))
      ≡ some k)
    × (k.last_round_index ≡ pos 1)
    × (k.last_stroke_index ≡ max_z (pos 7) (pos 0))
unfolding get_meta str_discrete ℕ_discrete
append_stroke-put_state_example =
    append_stroke-put_state (codes "r") 0 0 10 shown (record (round_with [] []) { index = 1 })
      (stroke_of ann)
      (record { last_round_index = pos 0; last_stroke_index = pos 7; last_state_version = 9 })
      after_round_0 refl refl

other_room : codes "s" ≢ codes "r"
other_room h = let e : 115 ≡ 114 = ap (λ s. get_or s 0 0) h in omega (arith, e)

-- One stroke, with a threshold of one, and the post returns.
abbrev saved : Checkpoint
saved = finish_flush none 5 (table drawing none) (
    observe none (ServerEvent.stroke_added (stroke_of ann) 1) (table drawing none)
      (new_checkpoint 1 30000))

Runs-IsPrompt_example : IsPrompt 0 saved
unfolding new_checkpoint observe
Runs-IsPrompt_example = Runs-IsPrompt 1 30000 (omega arith) (
    after
      (after begun (seen none (ServerEvent.stroke_added (stroke_of ann) 1) (table drawing none)))
      (posted none 5 (table drawing none) refl))

abbrev few_ops : List LogOp
few_ops =
    appending 1 0 0 (stroke_of ann)
    ∷ putting 3 (table drawing none).state
    ∷ clearing
    ∷ appending 2 1 0 (stroke_of bob)
    ∷ []

log_run-shelf_example :
    shelf (codes "r") (log_run (codes "r") few_ops (record { log = []; meta = []; state = [] }))
    ≡ shelf_run few_ops (shelf (codes "r") (record { log = []; meta = []; state = [] }))
log_run-shelf_example =
    log_run-shelf (codes "r") few_ops (record { log = []; meta = []; state = [] })
