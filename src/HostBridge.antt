-- ===== src/HostBridge.antt =====
-- frontend/p2p/hostBridge.ts, class `HostBridge`: the engine of the host and the remote peers. The
-- calls of the peer hub and of the stroke log go to a list of effects.
pub mod Sync
pub mod Wiring
pub mod Secrecy
pub mod Authority
use fakeartist.Prelude.{
  ℕ, zero, suc, ◌+◌, ◌-◌, List, [], ◌∷◌, ◌++◌, map, Bool, true, false, Option, none, some, Str,
  nat_eq, drop, if◌then◌else◌,
}
use fakeartist.Models.{Round, GameState, Stroke}
use fakeartist.Protocol.{ClientCommand, ServerEvent, IndexedStrokeFrame, Envelope}
use fakeartist.Engine.State.{Env, Engine, Output, broadcast, direct, draw_request}
use fakeartist.Engine.Dispatch.{dispatch}
use fakeartist.Transport.{event_to_env}

pub data Effect : Type 0 where
  to_all : Envelope → Effect
  to_peer : Str → Envelope → Effect
  append_stroke : ℕ → ℕ → Stroke → Effect
  put_state : ℕ → GameState → Effect

-- `r ? r.index : 0`
abbrev pub index_of : Option Round → ℕ
index_of none = 0
index_of (some r) = r.index

-- The writes to the log. `n - 1` is the 0-based index: the engine counts from 1 in this event.
unfoldable pub log_effects : Bool → ServerEvent → Engine → List Effect
log_effects false evt e = []
log_effects true (ServerEvent.stroke_added stroke n) e = elim e.state.current_round [
  | none ↦ []
  | some r ↦ append_stroke r.index (n - 1) stroke ∷ []
]
log_effects true (ServerEvent.state_update s) e = put_state e.version s ∷ []
log_effects true _ e = []

abbrev pub env_of : ServerEvent → Engine → Option Envelope
env_of evt e = event_to_env evt (some e.version) (some (index_of e.state.current_round))

unfoldable pub relay_broadcast : Bool → ServerEvent → Engine → List Effect
unfolding log_effects
relay_broadcast has_log evt e = elim (env_of evt e) [
  | none ↦ []
  | some env ↦ log_effects has_log evt e ++ to_all env ∷ []
]

unfoldable pub relay_direct : Str → ServerEvent → Engine → List Effect
relay_direct player_id evt e = elim (env_of evt e) [
  | none ↦ []
  | some env ↦ to_peer player_id env ∷ []
]

-- What the bridge does with one output of the engine.
unfoldable pub relay : Bool → Output → Engine → List Effect
unfolding relay_broadcast relay_direct
relay has_log (broadcast evt) e = relay_broadcast has_log evt e
relay has_log (direct pid evt) e = relay_direct pid evt e
relay has_log (draw_request room req pool) e = []

-- The frames of the strokes from index `i` on.
unfoldable pub frames_from : ℕ → ℕ → List Stroke → List IndexedStrokeFrame
frames_from round i [] = []
frames_from round i (s ∷ ss) =
    record { round_index = round; stroke_index = i; stroke = s } ∷ frames_from round (i + 1) ss

-- The strokes that the log returned, with their indices.
unfoldable pub frames_of_log : ℕ → List (ℕ × Stroke) → List IndexedStrokeFrame
frames_of_log round =
    map (λ (s : ℕ × Stroke). record { round_index = round; stroke_index = s.0; stroke = s.1 })

-- Without a log only the round in memory is served.
unfoldable pub frames_of_round : ℕ → ℕ → Option Round → List IndexedStrokeFrame
unfolding frames_from
frames_of_round round from none = []
frames_of_round round from (some r) =
    if nat_eq r.index round then frames_from round from (drop from r.strokes) else []

-- `log` is what `getStrokesFrom` returned, where there is a log.
unfoldable pub serve_sync_req : Str → ℕ → ℕ → Option (List (ℕ × Stroke)) → Engine → List Effect
unfolding frames_of_log frames_of_round
serve_sync_req peer round from log e =
    let frames : List IndexedStrokeFrame = elim log [
      | some got ↦ frames_of_log round got
      | none ↦ frames_of_round round from e.state.current_round
    ] in
    to_peer peer (Envelope.sync_res e.state e.version frames) ∷ []

-- A message of a peer; `none` is no JSON. The sender of a command is the peer, whatever it says.
unfoldable pub handle_peer_message :
    Env → Str → Option Envelope → Option (List (ℕ × Stroke)) → Engine → Engine × List Effect
unfolding serve_sync_req
handle_peer_message env peer (some (Envelope.cmd seq c from)) log e = (dispatch env c peer e, [])
handle_peer_message env peer (some (Envelope.sync_req round from)) log e =
    (e, serve_sync_req peer round from log e)
handle_peer_message env peer _ log e = (e, [])
