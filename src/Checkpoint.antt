-- ===== src/Checkpoint.antt =====
-- frontend/p2p/checkpoint.ts, class `CheckpointDispatcher`: the host posts snapshots to the server. A
-- flush has two parts, before and after its post; the posts go to the end of `out`.
pub mod Flushing
use fakeartist.Prelude.{
  ℕ, zero, suc, ◌+◌, ◌-◌, ◌*◌, List, [], ◌∷◌, ◌++◌, map, Bool, true, false, not, ◌||◌, Option, none,
  some, Str, nat_eq, leb, ltb, length, drop, if◌then◌else◌,
}
use fakeartist.Models.{
  GameStatus, lobby, writing, round_announce, drawing, voting, fake_guessing, round_summary,
  game_over, Round, GameState, Stroke,
}
use fakeartist.Protocol.{ServerEvent, IndexedStrokeFrame}
use fakeartist.Sanitize.{sanitize}
use fakeartist.Engine.State.{Engine}

-- What is posted, less the host's name.
pub record Body : Type 0 where
  pub version : ℕ
  pub state : GameState
  pub log_tail_from_index : ℕ
  pub log_tail : List IndexedStrokeFrame

pub record Checkpoint : Type 0 where
  pub stroke_threshold : ℕ
  pub time_ms : ℕ
  pub strokes_since_flush : ℕ
  pub last_status : Option GameStatus
  pub last_flush_at : ℕ
  -- `none` is the -1 of the beginning
  pub last_flushed_version : Option ℕ
  pub flushing : Bool
  pub pending : Bool
  -- the version whose flush is under way
  pub in_flight : ℕ
  pub out : List Body

unfoldable pub new_checkpoint : ℕ → ℕ → Checkpoint
new_checkpoint threshold time = record {
  stroke_threshold = threshold;
  time_ms = time;
  strokes_since_flush = 0;
  last_status = none;
  last_flush_at = 0;
  last_flushed_version = none;
  flushing = false;
  pending = false;
  in_flight = 0;
  out = [];
}

-- `all.slice(-64)`
unfoldable pub tail_of : List (ℕ × Stroke) → List (ℕ × Stroke)
tail_of all = drop (length all - 64) all

unfoldable pub first_index : List IndexedStrokeFrame → ℕ
first_index [] = 0
first_index (f ∷ fs) = f.stroke_index

-- `all` is what the log holds of the current round, where there is a log.
unfoldable pub log_tail_of : Option (List (ℕ × Stroke)) → Option Round → List IndexedStrokeFrame
unfolding tail_of
log_tail_of none r = []
log_tail_of (some all) none = []
log_tail_of (some all) (some r) =
    map (λ (q : ℕ × Stroke). record { round_index = r.index; stroke_index = q.0; stroke = q.1 })
      (tail_of all)

unfoldable pub body_of : Option (List (ℕ × Stroke)) → Engine → Body
unfolding log_tail_of first_index
body_of log e =
    let state = sanitize e.state in
    let tail = log_tail_of log state.current_round in
    record {
      version = e.version;
      state = state;
      log_tail_from_index = first_index tail;
      log_tail = tail;
    }

unfoldable pub flush : Option (List (ℕ × Stroke)) → Engine → Checkpoint → Checkpoint
unfolding body_of
flush log e c =
    if c.flushing
    then record c { pending = true }
    else record c { flushing = true; in_flight = e.version; out = c.out ++ body_of log e ∷ [] }

unfoldable pub flush_again : Option (List (ℕ × Stroke)) → Engine → Checkpoint → Checkpoint
unfolding flush
flush_again log e c = if c.pending then flush log e (record c { pending = false }) else c

-- The post has returned, at the time `now`: whatever its result was, the version counts as flushed.
unfoldable pub finish_flush : Option (List (ℕ × Stroke)) → ℕ → Engine → Checkpoint → Checkpoint
unfolding flush_again
finish_flush log now e c = flush_again log e (record c {
  last_flushed_version = some c.in_flight;
  last_flush_at = now;
  strokes_since_flush = 0;
  flushing = false;
})

-- `maybeFlushByTime`
unfoldable pub flush_by_time : Option (List (ℕ × Stroke)) → ℕ → Engine → Checkpoint → Checkpoint
unfolding flush
flush_by_time log now e c =
    let is_flushed : Bool = elim c.last_flushed_version [
      | none ↦ false
      | some v ↦ nat_eq e.version v
    ] in
    if c.flushing || is_flushed || ltb (now - c.last_flush_at) c.time_ms then c else flush log e c

unfoldable pub status_code : GameStatus → ℕ
status_code lobby = 0
status_code writing = 1
status_code round_announce = 2
status_code drawing = 3
status_code voting = 4
status_code fake_guessing = 5
status_code round_summary = 6
status_code game_over = 7

-- `lastStatus !== null && status !== lastStatus`
unfoldable pub is_new_status : Option GameStatus → GameStatus → Bool
unfolding status_code
is_new_status none s = false
is_new_status (some t) s = not (nat_eq (status_code s) (status_code t))

unfoldable pub observe : Option (List (ℕ × Stroke)) → ServerEvent → Engine → Checkpoint → Checkpoint
unfolding flush is_new_status
observe log (ServerEvent.stroke_added stroke n) e c =
    let counted = record c { strokes_since_flush = c.strokes_since_flush + 1 } in
    if leb c.stroke_threshold counted.strokes_since_flush then flush log e counted else counted
observe log (ServerEvent.state_update s) e c =
    let flushed = if is_new_status c.last_status s.status then flush log e c else c in
    record flushed { last_status = some s.status }
observe log _ e c = c

-- The server's answer to one attempt; `stale` is the code 409.
pub data Answer : Type 0 where
  accepted stale refused unreachable : Answer

unfoldable pub is_final : Answer → Bool
is_final accepted = true
is_final stale = true
is_final _ = false

unfoldable pub next_delay : ℕ → ℕ
next_delay delay = if leb (delay * 2) 4000 then delay * 2 else 4000

-- The delays that are waited, with at most `n` attempts left. `answer` gives the answers in turn.
unfoldable pub post_attempts : ℕ → ℕ → ℕ → (ℕ → Answer) → List ℕ
unfolding is_final next_delay
post_attempts zero attempt delay answer = []
post_attempts (suc n) attempt delay answer =
    let later = post_attempts n (attempt + 1) (next_delay delay) answer in
    if is_final (answer attempt) then [] else delay ∷ later

unfoldable pub post_with_backoff : (ℕ → Answer) → List ℕ
unfolding post_attempts
post_with_backoff = post_attempts 5 0 250
