-- ===== src/Session/Creation.antt =====
-- frontend/components/P2pGameProvider.jsx, `handleCreate`: the host of a new room.
use fakeartist.Prelude.{
  [], ◌∷◌, false, Option, none, some, Str, ◌≡◌, refl, sym, ap, subst, ◌∙◌, map, arith, is_empty,
}
use fakeartist.Models.{GameState, GameConfig, Player, lobby, new_game_state}
use fakeartist.Protocol.{JoinGamePayload, ConfigPatch, ℤ}
use fakeartist.Engine.State.{Env, Engine, new_engine, assign_config}
use fakeartist.Engine.Roster.{
  choose_id, handle_join, handle_configure, enroll, apply_config, configure, find_wanted, may_join,
}
use fakeartist.Engine.Frame.{welcome-state}
use fakeartist.Engine.Dispatch.{dispatch}
use fakeartist.Log.{Database}
use fakeartist.Transport.{new_loopback, loopback_on_event}
use fakeartist.Session.{World, Refs}
use fakeartist.Session.Host.{
  Host, host_dispatch, host_send, host_parts, host_joins, send_config, send_pending, wire_host,
  seeded_engine, host_payload,
}
use fakeartist.Session.Switch.{Admission, new_refs, no_seed, create_room}
use fakeartist.Session.Frame.{Stays, settle-Stays}

-- What a configuration that waits makes of the one of the game.
unfoldable pub configured : Option (ConfigPatch ℤ) → GameConfig → GameConfig
configured none c = c
configured (some p) c = configure p c

-- One player in the lobby, who is the host.
pub record IsAlone (id : Str) (s : GameState) : Type 0 where
  pub host_id : s.host_id ≡ id
  pub status : s.status ≡ lobby
  pub players : map (λ (p : Player). p.id) s.players ≡ id ∷ []

joined-state :
    (env : Env) (p : JoinGamePayload) (from : Str) (e : Engine)
    → is_empty p.id ≡ false
    → e.state.players ≡ []
    → e.state.status ≡ lobby
    → (handle_join env p from e).state ≡ (enroll env p.id p.player_name e).state
unfolding handle_join find_wanted may_join
joined-state env p from e n h l = grind (arith, n, h, l, welcome-state)

enroll-IsAlone :
    (env : Env) (id name : Str) (e : Engine)
    → is_empty id ≡ false
    → e.state.players ≡ []
    → e.state.status ≡ lobby
    → IsAlone id (enroll env id name e).state
unfolding enroll choose_id
enroll-IsAlone env id name e n h l = record {
  host_id = ground (arith, n, h);
  status = l;
  players = grind (arith, n, h);
}

-- A game with one player and a configuration.
pub record IsReady (id : Str) (c : GameConfig) (s : GameState) : Type 0 where
  pub alone : IsAlone id s
  pub config : s.config ≡ c

taken :
    (p : ConfigPatch ℤ) (id : Str) (e : Engine)
    → IsAlone id e.state
    → handle_configure p id e ≡ apply_config p e
unfolding handle_configure
taken p id e k = ground (arith, k.host_id, k.status)

configure-IsReady :
    (p : ConfigPatch ℤ) (id : Str) (c : GameConfig) (e : Engine)
    → IsReady id c e.state
    → IsReady id (configure p c) (handle_configure p id e).state
unfolding apply_config
configure-IsReady p id c e k =
    subst (λ (f : Engine). IsReady id (configure p c) f.state) (sym (taken p id e k.alone))
      (record {
        alone = record {
          host_id = k.alone.host_id;
          status = k.alone.status;
          players = k.alone.players;
        };
        config = ap (configure p) k.config;
      })

-- The host of a room, with its loopback, and nothing that waits.
pub record IsCreated (id : Str) (c : GameConfig) (h : Host) : Type 0 where
  pub ready : IsReady id c h.engine.state
  pub self_id : h.loopback.self_id ≡ id
  pub nothing_waits : h.refs.pending_config ≡ none

send_config-IsCreated :
    (w : World) (o : Option (ConfigPatch ℤ)) (id : Str) (c : GameConfig) (h : Host)
    → h.refs.pending_config ≡ o
    → h.loopback.self_id ≡ id
    → IsReady id c h.engine.state
    → IsCreated id (configured o c) (send_config o w h)
unfolding configured send_config host_send host_dispatch dispatch
send_config-IsCreated w none id c h waits self k = record {
  ready = k;
  self_id = self;
  nothing_waits = waits;
}
send_config-IsCreated w (some p) id c h waits self k =
    let s = settle-Stays w (handle_configure p h.loopback.self_id h.engine) h in
    record {
      ready =
          subst (λ (e : Engine). IsReady id (configure p c) e.state) (sym s.engine)
            (subst (λ i. IsReady id (configure p c) (handle_configure p i h.engine).state)
              (sym self) (configure-IsReady p id c h.engine k));
      self_id = s.self_id ∙ self;
      nothing_waits = refl;
    }

module _ (w : World) (db : Database) (a : Admission) (config : Option (ConfigPatch ℤ))
    (named : is_empty a.player_id ≡ false) where
  parts : Host
  parts = host_parts (new_refs a a.player_id config) no_seed db []

  payload : JoinGamePayload
  payload = host_payload w a.player_id

  joins :
      Stays
        (record parts { engine = handle_join w.env payload a.player_id parts.engine })
        (host_joins w parts)
  unfolding parts payload host_joins host_parts new_refs dispatch host_send host_dispatch
      new_loopback loopback_on_event
  joins = settle-Stays w (handle_join w.env payload a.player_id parts.engine) parts

  joined-IsReady :
      IsReady a.player_id (new_game_state a.room_id).config (host_joins w parts).engine.state
  unfolding parts payload host_parts new_refs seeded_engine new_engine new_game_state assign_config
      enroll
  joined-IsReady =
      subst (IsReady a.player_id (new_game_state a.room_id).config)
        (sym (
          ap (λ (e : Engine). e.state) joins.engine
          ∙ joined-state w.env payload a.player_id parts.engine named refl refl))
        (record {
          alone = enroll-IsAlone w.env a.player_id payload.player_name parts.engine named refl refl;
          config = refl;
        })

  -- The creator of a room, with an id that is not empty, is its host and its only player, in the
  -- lobby; the configuration that was given before the room was there is applied, and none waits
  -- any more.
  pub create_room-IsCreated :
      IsCreated a.player_id
        (configured config (new_game_state a.room_id).config)
        (create_room w db a config)
  unfolding create_room wire_host parts send_pending host_parts new_refs new_loopback
      loopback_on_event
  create_room-IsCreated =
      let joined = host_joins w parts in
      subst
        (λ o.
          IsCreated a.player_id (configured o (new_game_state a.room_id).config)
            (send_pending w joined))
        (ap (λ (r : Refs). r.pending_config) joins.refs)
        (send_config-IsCreated w joined.refs.pending_config a.player_id
          (new_game_state a.room_id).config joined refl joins.self_id joined-IsReady)
