-- ===== src/Protocol.antt =====
-- frontend/p2p/protocol.ts: commands, events and the frames of the data channel.
use fakeartist.Prelude.{ℕ, Bool, true, false, ltb, if◌then◌else◌, List, Option, Str}
use fakeartist.Models.{GameState, Stroke, RolePayload, Point}

-- A number of a configuration message: `pos n`, or `negsuc n` for -(n + 1). Fractions do not occur.
pub data ℤ : Type 0 where
  pos : ℕ → ℤ
  negsuc : ℕ → ℤ

-- `a < b` of numbers.
unfoldable pub ltz : ℤ → ℤ → Bool
ltz (pos m) (pos n) = ltb m n
ltz (pos m) (negsuc n) = false
ltz (negsuc m) (pos n) = true
ltz (negsuc m) (negsuc n) = ltb n m

-- `Math.max`
unfoldable pub max_z : ℤ → ℤ → ℤ
unfolding ltz
max_z x y = if ltz x y then y else x

-- `Partial<GameConfig>`, over numbers `N`
pub record ConfigPatch (N : Type 0) : Type 0 where
  pub words_per_player : Option N
  pub target_score : Option N
  pub strokes_per_artist : Option N
  pub min_players : Option N
  pub turn_duration : Option N

-- `id` is empty where the message has none: the code tests only its truth value. The engine
-- does not read `room_code`.
pub record JoinGamePayload : Type 0 where
  pub id : Str
  pub player_name : Str
  pub room_code : Option Str

-- A missing list of points is the empty one: the code treats both alike.
pub data ClientCommand : Type 0 where
  join_game : JoinGamePayload → ClientCommand
  configure_game : ConfigPatch ℤ → ClientCommand
  submit_words : List Str → ClientCommand
  start_game : ClientCommand
  start_round : ClientCommand
  submit_stroke : List Point → ClientCommand
  cast_vote : Str → ClientCommand
  submit_fake_guess : Str → ClientCommand
  next_round : ClientCommand
  end_game : ClientCommand

pub data ServerEvent : Type 0 where
  state_update : GameState → ServerEvent
  player_welcome : Str → ServerEvent
  your_role : RolePayload → ServerEvent
  stroke_added : Stroke → ℕ → ServerEvent
  error : Str → ServerEvent

pub record IndexedStrokeFrame : Type 0 where
  pub round_index : ℕ
  pub stroke_index : ℕ
  pub stroke : Stroke

-- The frames have the events' names, behind `Envelope`.
pub data Envelope : Type 0 where
  cmd : ℕ → ClientCommand → Option Str → Envelope
  state_update : ℕ → GameState → Envelope
  stroke_added : ℕ → ℕ → Stroke → Envelope
  your_role : ℕ → RolePayload → Envelope
  player_welcome : Str → Envelope
  sync_req : ℕ → ℕ → Envelope
  sync_res : GameState → ℕ → List IndexedStrokeFrame → Envelope
  error : Str → Envelope

-- The fallback frame on the signaling socket.
pub record RelayFrame : Type 0 where
  pub to : Str
  pub envelope : Envelope
