-- ===== src/Tests/Data.antt =====
-- The inputs of the tests: a game of two players in room "r" of frontend/p2p/engine.ts.
use fakeartist.Prelude.{
  ℕ, zero, suc, ◌+◌, ◌≤◌, ◌<◌, List, [], ◌∷◌, Bool, true, false, Option, none, some, Str, codes,
}
use fakeartist.Models.{GameStatus, WordCard, Player, Round, Point, Stroke, Votes}
use fakeartist.Protocol.{
  ConfigPatch, ClientCommand, join_game, submit_words, start_game, start_round,
}
use fakeartist.Engine.State.{Env, IsRandom, Engine, PendingDraw, DrawResponse, new_engine}
use fakeartist.Engine.Dispatch.{dispatch}

-- Every random number is 0.
abbrev pub plain_env : Env
plain_env = record { random = λ i n. 0; now36 = λ i. codes "k"; to_lower_case = λ s. s }

pub plain_env-IsRandom : IsRandom plain_env
plain_env-IsRandom i n h = h

abbrev pub ann : Str
ann = codes "ann"

abbrev pub bob : Str
bob = codes "bob"

abbrev pub two_players : ConfigPatch ℕ
two_players = record {
  words_per_player = some 1;
  target_score = none;
  strokes_per_artist = some 1;
  min_players = some 2;
  turn_duration = none;
}

abbrev pub empty_engine : Engine
empty_engine = new_engine (codes "r") two_players false

abbrev pub join : Str → ClientCommand
join id = join_game (record { id = id; player_name = id; room_code = none })

abbrev pub after : ClientCommand → Str → Engine → Engine
after c from e = dispatch plain_env c from e

abbrev pub with_ann : Engine
with_ann = after (join ann) ann empty_engine

abbrev pub with_both : Engine
with_both = after (join bob) bob with_ann

abbrev pub in_writing : Engine
in_writing = after start_game ann with_both

abbrev pub with_words : Engine
with_words =
    after (submit_words (codes "sun" ∷ [])) bob
      (after (submit_words (codes "cat" ∷ [])) ann in_writing)

abbrev pub announced : Engine
announced = after start_round ann with_words

abbrev pub in_drawing : Engine
in_drawing = after start_round ann announced

abbrev pub line : List Point
line = record { x = 1; y = 2 } ∷ record { x = 3; y = 4 } ∷ []

abbrev pub stroke_of : Str → Stroke
stroke_of id = record { player_id = id; color = codes "#000000"; points = line }

abbrev pub pending_draw : PendingDraw
pending_draw = record { from = ann; players = ann ∷ bob ∷ []; round_index = 0 }

abbrev pub draw_response : DrawResponse
draw_response = record {
  card_id = codes "c";
  fake_id_commitment = codes "00";
  assignments = some (
      (ann, record { is_fake = true; word = none })
      ∷ (bob, record { is_fake = false; word = some (codes "sun") })
      ∷ []);
}

-- A round in which ann is the fake.
abbrev pub round_with : List Stroke → Votes → Round
round_with strokes votes = record {
  index = 0;
  card_id = some (codes "c");
  fake_id = some ann;
  turn_order = ann ∷ bob ∷ [];
  stroke_index = fakeartist.Prelude.length strokes;
  strokes = strokes;
  votes = some votes;
  votes_cast = fakeartist.Prelude.length votes;
  fake_guess = none;
  outcome = none;
  revealed_word = none;
}

abbrev pub player_with : Str → ℕ → Player
player_with id score = record {
  id = id;
  name = id;
  color = codes "#000000";
  is_admin = false;
  connected = true;
  has_submitted = true;
  score = score;
}

abbrev pub sun_card : WordCard
sun_card = record { id = codes "c"; word = some (codes "sun"); author_id = bob; used = false }

-- A game that ann hosts, with one card that is not used.
abbrev pub table : GameStatus → Option Round → Engine
table status round = record empty_engine {
  state = record empty_engine.state {
    host_id = ann;
    status = status;
    players = player_with ann 1 ∷ player_with bob 3 ∷ [];
    pool = sun_card ∷ [];
    pool_size = 1;
    current_round = round;
  };
}
