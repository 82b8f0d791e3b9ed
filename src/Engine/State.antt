-- ===== src/Engine/State.antt =====
-- frontend/p2p/engine.ts: the fields of class `Engine`, what it is given, and how it emits. Every
-- event goes to the end of `out`, in the order in which the listeners would be called.
use fakeartist.Prelude.{
  ℕ, ◌+◌, ◌<◌, Bool, List, [], ◌∷◌, ◌++◌, Option, none, some, Str, ◌==◌, find_if,
}
use fakeartist.Models.{GameStatus, GameConfig, Player, Round, GameState, new_game_state}
use fakeartist.Protocol.{ConfigPatch, ServerEvent}
use fakeartist.Sanitize.{sanitize}

-- What the engine takes from its surroundings: `Math.floor(rng() * n)` at the i-th call of `rng`,
-- `Date.now().toString(36)` at that moment, and the Unicode tables behind `toLowerCase`.
pub record Env : Type 0 where
  pub random : ℕ → ℕ → ℕ
  pub now36 : ℕ → Str
  pub to_lower_case : Str → Str

-- `rng` returns a number in [0, 1).
abbrev pub IsRandom : Env → Type 0
IsRandom env = (i n : ℕ) → 0 < n → env.random i n < n

-- One unused card, as the draw endpoint of the server gets it.
pub record PoolEntry : Type 0 where
  pub id : Str
  pub word : Str
  pub author_id : Str

pub record Assignment : Type 0 where
  pub is_fake : Bool
  pub word : Option Str

pub record DrawResponse : Type 0 where
  pub card_id : Str
  pub fake_id_commitment : Str
  pub assignments : Option (List (Str × Assignment))

pub data DrawResult : Type 0 where
  drawn : DrawResponse → DrawResult
  failed : Str → DrawResult

-- A call of `drawer.draw` that is awaited: what `prepareRoundServer` holds across the wait.
pub record PendingDraw : Type 0 where
  pub from : Str
  pub players : List Str
  pub round_index : ℕ

pub data Output : Type 0 where
  broadcast : ServerEvent → Output
  direct : Str → ServerEvent → Output
  draw_request : Str → PendingDraw → List PoolEntry → Output

pub record Engine : Type 0 where
  pub state : GameState
  pub version : ℕ
  pub private_round_word : Option Str
  pub private_round_commitment : Option Str
  pub has_drawer : Bool
  -- calls of `rng` so far
  pub calls : ℕ
  pub out : List Output

abbrev pub assigned : Option ℕ → ℕ → ℕ
assigned none old = old
assigned (some n) old = n

-- `Object.assign(this.state.config, opts.config)`
unfoldable pub assign_config : ConfigPatch ℕ → GameConfig → GameConfig
assign_config p c = record {
  words_per_player = assigned p.words_per_player c.words_per_player;
  target_score = assigned p.target_score c.target_score;
  strokes_per_artist = assigned p.strokes_per_artist c.strokes_per_artist;
  min_players = assigned p.min_players c.min_players;
  turn_duration = assigned p.turn_duration c.turn_duration;
}

-- The constructor; the last argument tells whether a role drawer is given.
unfoldable pub new_engine : Str → ConfigPatch ℕ → Bool → Engine
unfolding new_game_state assign_config
new_engine room config drawer =
    let state = new_game_state room in
    record {
      state = record state { config = assign_config config state.config };
      version = 0;
      private_round_word = none;
      private_round_commitment = none;
      has_drawer = drawer;
      calls = 0;
      out = [];
    }

unfoldable pub emit : Output → Engine → Engine
emit o e = record e { out = e.out ++ o ∷ [] }

unfoldable pub emit_broadcast : ServerEvent → Engine → Engine
unfolding emit
emit_broadcast evt e = emit (broadcast evt) e

unfoldable pub emit_direct : Str → ServerEvent → Engine → Engine
unfolding emit
emit_direct player_id evt e = emit (direct player_id evt) e

unfoldable pub emit_error : Str → Str → Engine → Engine
unfolding emit_direct
emit_error player_id message e = emit_direct player_id (ServerEvent.error message) e

unfoldable pub broadcast_state : Engine → Engine
unfolding emit_broadcast
broadcast_state e =
    let next = record e { version = e.version + 1 } in
    emit_broadcast (ServerEvent.state_update (sanitize next.state)) next

unfoldable pub set_status : GameStatus → Engine → Engine
set_status s e = record e { state = record e.state { status = s } }

unfoldable pub set_round : Round → Engine → Engine
set_round r e = record e { state = record e.state { current_round = some r } }

unfoldable pub set_players : List Player → Engine → Engine
set_players ps e = record e { state = record e.state { players = ps } }

unfoldable pub require_host : Str → Engine → Bool
require_host player_id e = player_id == e.state.host_id

unfoldable pub find_player : Str → Engine → Option Player
find_player id e = find_if (λ p. p.id == id) e.state.players

-- A field that holds this id.
abbrev pub is_id : Option Str → Str → Bool
is_id none s = Bool.false
is_id (some x) s = s == x

-- `o || ""`
abbrev pub or_empty : Option Str → Str
or_empty none = []
or_empty (some s) = s
