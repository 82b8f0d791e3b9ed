-- ===== src/Engine/Roster.antt =====
-- frontend/p2p/engine.ts: who plays, the configuration, and the pool of words.
use fakeartist.Prelude.{
  ℕ, suc, List, [], ◌∷◌, ◌++◌, Bool, true, false, ◌&&◌, Option, none, some, Str, codes, ◌==◌,
  length, nat_eq, find_if, update_first, includes, is_empty, trim, if◌then◌else◌,
}
use fakeartist.Models.{
  GameStatus, lobby, writing, round_announce, drawing, voting, fake_guessing, GameConfig, Player,
  WordCard, RolePayload,
}
use fakeartist.Protocol.{ℤ, pos, ConfigPatch, JoinGamePayload, ServerEvent}
use fakeartist.Engine.State.{
  Env, Engine, emit_direct, emit_error, broadcast_state, set_players, require_host, find_player,
  is_id, or_empty,
}
use fakeartist.Engine.Random.{fresh_id, pick_color}

-- The statuses in which a returning player is told the role again.
unfoldable pub is_active : GameStatus → Bool
is_active round_announce = true
is_active drawing = true
is_active voting = true
is_active fake_guessing = true
is_active _ = false

-- The statuses in which a new player may join.
unfoldable pub may_join : GameStatus → Bool
may_join lobby = true
may_join writing = true
may_join _ = false

-- The fake does not get the word; `""` is not sent either.
unfoldable pub role_of : Bool → Option Str → RolePayload
role_of true word = record { is_fake = true; word = none }
role_of false word = record {
  is_fake = false;
  word = if is_empty (or_empty word) then none else word;
}

unfoldable pub resend_role : Str → Engine → Engine
unfolding is_active emit_direct
resend_role id e = elim e.state.current_round [
  | none ↦ e
  | some r ↦
      if is_active e.state.status && includes r.turn_order id
      then emit_direct id
          (ServerEvent.your_role (role_of (is_id r.fake_id id) e.private_round_word)) e
      else e
]

-- The end of `handleJoin`, for an old player and a new one.
unfoldable pub welcome : Str → Engine → Engine
unfolding resend_role
welcome id e = resend_role id (broadcast_state (emit_direct id (ServerEvent.player_welcome id) e))

unfoldable pub reconnect : Str → Player → Player
reconnect name p = record p { connected = true; name = if is_empty name then p.name else name }

-- `winner` is the object of the player, so that it changes too.
unfoldable pub reconnect_player : Str → Str → Engine → Engine
unfolding reconnect
reconnect_player id name e = record e {
  state = record e.state {
    players = update_first (λ p. p.id == id) (reconnect name) e.state.players;
    winner = elim e.state.winner [
      | none ↦ none
      | some w ↦ some (if w.id == id then reconnect name w else w)
    ];
  };
}

unfoldable pub new_player : Str → Str → Str → Bool → Player
new_player id name color first = record {
  id = id;
  name = name;
  color = color;
  is_admin = first;
  connected = true;
  has_submitted = false;
  score = 0;
}

-- The first player is the host.
unfoldable pub add_player : Player → Engine → Engine
add_player p e = record e {
  state = record e.state {
    players = e.state.players ++ p ∷ [];
    host_id = if p.is_admin then p.id else e.state.host_id;
  };
}

unfoldable pub find_wanted : Str → List Player → Option Player
find_wanted id ps = if is_empty id then none else find_if (λ p. p.id == id) ps

module _ (env : Env) where
  unfoldable pub choose_id : Str → ℕ → Str × ℕ
  choose_id wanted i = if is_empty wanted then fresh_id env (codes "player") i else (wanted, i)

  unfoldable pub enroll : Str → Str → Engine → Engine
  unfolding new_player add_player
  enroll wanted name e =
      let (id, i) = choose_id wanted e.calls in
      let (color, j) = pick_color env e.state.players i in
      let first = nat_eq (length e.state.players) 0 in
      add_player (new_player id name color first) (record e { calls = j })

  unfoldable pub handle_join : JoinGamePayload → Str → Engine → Engine
  unfolding may_join emit_error
  handle_join p from e =
      let wanted = if is_empty p.id then from else p.id in
      elim (find_wanted wanted e.state.players) [
        | some old ↦ welcome old.id (reconnect_player old.id p.player_name e)
        | none ↦
            if may_join e.state.status
            then welcome (choose_id wanted e.calls).0 (enroll wanted p.player_name e)
            else emit_error from (codes "Game already in progress") e
      ]

-- `p.x && p.x > 0`
unfoldable pub if_positive : Option ℤ → ℕ → ℕ
if_positive (some (pos (suc n))) old = suc n
if_positive _ old = old

-- `p.x !== undefined && p.x >= 0`
unfoldable pub if_natural : Option ℤ → ℕ → ℕ
if_natural (some (pos n)) old = n
if_natural _ old = old

unfoldable pub configure : ConfigPatch ℤ → GameConfig → GameConfig
unfolding if_positive if_natural
configure p c = record {
  words_per_player = if_positive p.words_per_player c.words_per_player;
  target_score = if_positive p.target_score c.target_score;
  strokes_per_artist = if_positive p.strokes_per_artist c.strokes_per_artist;
  min_players = if_positive p.min_players c.min_players;
  turn_duration = if_natural p.turn_duration c.turn_duration;
}

unfoldable pub apply_config : ConfigPatch ℤ → Engine → Engine
unfolding broadcast_state
apply_config p e =
    broadcast_state (record e { state = record e.state { config = configure p e.state.config } })

unfoldable pub handle_configure : ConfigPatch ℤ → Str → Engine → Engine
unfolding require_host
handle_configure p from e =
    if require_host from e then elim e.state.status [ lobby ↦ apply_config p e | _ ↦ e ] else e

module _ (env : Env) where
  -- One card for a word that is not blank.
  unfoldable pub add_card : Str → Str → Engine → Engine
  add_card author raw e =
      let w = trim raw in
      let (id, i) = fresh_id env (codes "card") e.calls in
      let card : WordCard = record { id = id; word = some w; author_id = author; used = false } in
      if is_empty w
      then e
      else (record e { state = record e.state { pool = e.state.pool ++ card ∷ [] }; calls = i })

  unfoldable pub add_cards : Str → List Str → Engine → Engine
  add_cards author [] e = e
  add_cards author (raw ∷ words) e = add_cards author words (add_card author raw e)

  -- The words of a player who has sent none yet.
  unfoldable pub accept_words : List Str → Player → Engine → Engine
  unfolding set_players broadcast_state
  accept_words words p e =
      let filled = add_cards p.id words e in
      broadcast_state (
        set_players
          (update_first (λ (q : Player). q.id == p.id)
            (λ (q : Player). record q { has_submitted = true }) filled.state.players)
          filled)

  unfoldable pub handle_submit_words : List Str → Str → Engine → Engine
  handle_submit_words words from e = elim e.state.status [
    | writing ↦ elim (find_player from e) [
      | none ↦ e
      | some p ↦ if p.has_submitted then e else accept_words words p e
    ]
    | _ ↦ e
  ]
