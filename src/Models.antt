-- ===== src/Models.antt =====
-- frontend/p2p/models.ts: the game's state. Text is a list of UTF-16 code units. A coordinate is an
-- IEEE double, kept as its bit pattern: the code only passes it on. `undefined` is `none`.
use fakeartist.Prelude.{ℕ, Bool, List, [], ◌∷◌, Option, none, Str, codes}

pub data GameStatus : Type 0 where
  lobby writing round_announce drawing voting fake_guessing round_summary game_over : GameStatus

-- `undecided` is the empty string.
pub data RoundOutcome : Type 0 where
  undecided fake_won artists_won : RoundOutcome

pub record GameConfig : Type 0 where
  pub words_per_player : ℕ
  pub target_score : ℕ
  pub strokes_per_artist : ℕ
  pub min_players : ℕ
  pub turn_duration : ℕ

pub record Player : Type 0 where
  pub id : Str
  pub name : Str
  pub color : Str
  pub is_admin : Bool
  pub connected : Bool
  pub has_submitted : Bool
  pub score : ℕ

pub record WordCard : Type 0 where
  pub id : Str
  pub word : Option Str
  pub author_id : Str
  pub used : Bool

pub record Point : Type 0 where
  pub x : ℕ
  pub y : ℕ

pub record Stroke : Type 0 where
  pub player_id : Str
  pub color : Str
  pub points : List Point

-- `Record<string, string>`, in the order of insertion.
abbrev pub Votes : Type 0
Votes = List (Str × Str)

pub record Round : Type 0 where
  pub index : ℕ
  pub card_id : Option Str
  pub fake_id : Option Str
  pub turn_order : List Str
  pub stroke_index : ℕ
  pub strokes : List Stroke
  pub votes : Option Votes
  pub votes_cast : ℕ
  pub fake_guess : Option Str
  pub outcome : Option RoundOutcome
  pub revealed_word : Option Str

pub record GameState : Type 0 where
  pub id : Str
  pub host_id : Str
  pub status : GameStatus
  pub players : List Player
  pub pool : List WordCard
  pub pool_size : ℕ
  pub current_round : Option Round
  pub past_rounds : List Round
  pub config : GameConfig
  pub winner : Option Player

abbrev pub color_palette : List Str
color_palette =
    codes "#E53935"
    ∷ codes "#1E88E5"
    ∷ codes "#43A047"
    ∷ codes "#FB8C00"
    ∷ codes "#8E24AA"
    ∷ codes "#00ACC1"
    ∷ codes "#FDD835"
    ∷ codes "#6D4C41"
    ∷ codes "#EC407A"
    ∷ codes "#212121"
    ∷ []

unfoldable pub new_game_state : Str → GameState
new_game_state id = record {
  id = id;
  host_id = [];
  status = lobby;
  players = [];
  pool = [];
  pool_size = 0;
  current_round = none;
  past_rounds = [];
  config = record {
    words_per_player = 3;
    target_score = 5;
    strokes_per_artist = 2;
    min_players = 4;
    turn_duration = 0;
  };
  winner = none;
}

pub record RolePayload : Type 0 where
  pub is_fake : Bool
  pub word : Option Str
