-- ===== src/Session/Succession.antt =====
-- frontend/components/P2pGameProvider.jsx: what a host can do that was made, promoted, or came back
-- to a room without a host.
use fakeartist.Prelude.{
  ℕ, List, [], ◌∷◌, ◌++◌, Bool, true, false, Option, none, some, Str, ◌≡◌, ◌≢◌, refl, sym, ap,
  subst, ◌∙◌, ◌==◌, Bool-cases, inl, inr, arith, nat_eq, length, if◌then◌else◌,
}
use fakeartist.Models.{GameState, Player}
use fakeartist.Protocol.{ClientCommand, JoinGamePayload, ConfigPatch, configure_game, join_game, ℤ}
use fakeartist.Engine.State.{Env, Engine}
use fakeartist.Engine.Roster.{
  choose_id, handle_join, handle_configure, reconnect_player, enroll, apply_config,
}
use fakeartist.Engine.Frame.{welcome-state}
use fakeartist.Engine.Dispatch.{dispatch}
use fakeartist.Engine.Flow.{IsHostCommand, dispatch_not_host}
use fakeartist.Log.{Database}
use fakeartist.Transport.{new_loopback, loopback_on_event}
use fakeartist.PeerHub.{close_hub, connect_to}
use fakeartist.Session.{World, SessionOutput, Refs, torn_down}
use fakeartist.Session.Guest.{Guest}
use fakeartist.Session.Host.{
  Host, Seed, host_dispatch, host_send, host_parts, host_joins, send_config, send_pending,
  offer_all, wire_host, seeded_engine, settle, host_hub, host_payload,
}
use fakeartist.Session.Switch.{promote}
use fakeartist.Session.Frame.{settle-Stays, settle_self}

-- What neither a JOIN nor a configuration changes in a game with players.
pub record Keeps (s t : GameState) : Type 0 where
  pub host_id : t.host_id ≡ s.host_id
  pub status : t.status ≡ s.status
  pub round : t.current_round ≡ s.current_round

keeps : (s : GameState) → Keeps s s
keeps s = record { host_id = refl; status = refl; round = refl }

Keeps-then : (s t u : GameState) → Keeps s t → Keeps t u → Keeps s u
Keeps-then s t u a b = record {
  host_id = b.host_id ∙ a.host_id;
  status = b.status ∙ a.status;
  round = b.round ∙ a.round;
}

not_first : (ps : List Player) → ps ≢ [] → nat_eq (length ps) 0 ≡ false
not_first [] h = absurd (h refl)
not_first (p ∷ ps) h = ground arith

enroll-Keeps :
    (env : Env) (wanted name : Str) (e : Engine)
    → e.state.players ≢ []
    → Keeps e.state (enroll env wanted name e).state
unfolding enroll
enroll-Keeps env wanted name e h = record {
  host_id =
      ap (λ b. if b then (choose_id env wanted e.calls).0 else e.state.host_id)
        (not_first e.state.players h);
  status = refl;
  round = refl;
}

handle_join-Keeps :
    (env : Env) (p : JoinGamePayload) (from : Str) (e : Engine)
    → e.state.players ≢ []
    → Keeps e.state (handle_join env p from e).state
unfolding handle_join reconnect_player
handle_join-Keeps env p from e h = record {
  host_id = grind (arith, welcome-state, enroll-Keeps);
  status = grind (arith, welcome-state, enroll-Keeps);
  round = grind (arith, welcome-state, enroll-Keeps);
}

handle_configure-Keeps :
    (p : ConfigPatch ℤ) (from : Str) (e : Engine) → Keeps e.state (handle_configure p from e).state
unfolding handle_configure apply_config
handle_configure-Keeps p from e = record {
  host_id = ground arith;
  status = ground arith;
  round = ground arith;
}

-- What a host that is wired keeps of what it is seeded with.
pub record Follows (h k : Host) : Type 0 where
  pub state : Keeps h.engine.state k.engine.state
  pub self_id : k.loopback.self_id ≡ h.loopback.self_id

Follows-then : (h k l : Host) → Follows h k → Follows k l → Follows h l
Follows-then h k l a b = record {
  state = Keeps-then h.engine.state k.engine.state l.engine.state a.state b.state;
  self_id = b.self_id ∙ a.self_id;
}

sent-Follows :
    (w : World) (c : ClientCommand) (h : Host)
    → Keeps h.engine.state (dispatch w.env c h.loopback.self_id h.engine).state
    → Follows h (host_send w c h)
unfolding host_send host_dispatch
sent-Follows w c h k =
    let s = settle-Stays w (dispatch w.env c h.loopback.self_id h.engine) h in
    record {
      state = subst (λ (e : Engine). Keeps h.engine.state e.state) (sym s.engine) k;
      self_id = s.self_id;
    }

host_joins-Follows :
    (w : World) (h : Host) → h.engine.state.players ≢ [] → Follows h (host_joins w h)
unfolding host_joins dispatch
host_joins-Follows w h n =
    sent-Follows w (join_game (host_payload w h.refs.player_id)) h
      (handle_join-Keeps w.env (host_payload w h.refs.player_id) h.loopback.self_id h.engine n)

send_config-Follows :
    (w : World) (o : Option (ConfigPatch ℤ)) (h : Host) → Follows h (send_config o w h)
unfolding dispatch send_config
send_config-Follows w none h = record { state = keeps h.engine.state; self_id = refl }
send_config-Follows w (some p) h =
    let s =
      sent-Follows w (configure_game p) h (handle_configure-Keeps p h.loopback.self_id h.engine) in
    record { state = s.state; self_id = s.self_id }

send_pending-Follows : (w : World) (h : Host) → Follows h (send_pending w h)
unfolding send_pending
send_pending-Follows w h = send_config-Follows w h.refs.pending_config h

offer_all-Follows : (w : World) (ids : List Str) (h : Host) → Follows h (offer_all w ids h)
unfolding offer_all
offer_all-Follows w [] h = record { state = keeps h.engine.state; self_id = refl }
offer_all-Follows w (id ∷ ids) h = elim (Bool-cases (id == h.refs.player_id)) [
  | inl e ↦ rw e (offer_all-Follows w ids h)
  | inr e ↦ rw e (
      let next = host_hub (connect_to id (w.offer id)) h in
      let f = offer_all-Follows w ids next in record { state = f.state; self_id = f.self_id })
]

wire_host-Follows :
    (w : World) (refs : Refs) (seed : Seed) (db : Database) (keep : Bool) (out : List SessionOutput)
    → (seeded_engine refs.room_id seed).state.players ≢ []
    → Follows (host_parts refs seed db out) (wire_host w refs seed db keep out)
unfolding wire_host host_parts
wire_host-Follows w refs seed db keep out n =
    let parts = host_parts refs seed db out in
    let joined = host_joins w parts in
    let ready = send_pending w joined in
    let a = host_joins-Follows w parts n in
    let b = Follows-then parts joined ready a (send_pending-Follows w joined) in
    ending keep ready b (offer_all-Follows w ready.refs.connected ready)
  where
    ending :
        (b : Bool) (ready : Host)
        → Follows (host_parts refs seed db out) ready
        → Follows ready (offer_all w ready.refs.connected ready)
        → Follows
            (host_parts refs seed db out)
            (if b then offer_all w ready.refs.connected ready else ready)
    ending true ready b c = Follows-then (host_parts refs seed db out) ready _ b c
    ending false ready b c = b

-- A promoted host goes on with the state that it has seen.
pub record Succeeds (s : GameState) (id : Str) (h : Host) : Type 0 where
  pub state : Keeps s h.engine.state
  pub self_id : h.loopback.self_id ≡ id

seeded-state :
    (room : Str) (s : GameState) (n : ℕ) (o : Option GameState)
    → o ≡ some s
    → (seeded_engine room (record { state = o; version = n })).state ≡ s
unfolding seeded_engine
seeded-state room s n none h = cc
seeded-state room s n (some t) h = ground (arith, h)

pub promote-Succeeds :
    (w : World) (db : Database) (g : Guest) (s : GameState)
    → g.replica.state ≡ some s
    → s.players ≢ []
    → Succeeds s g.refs.player_id (promote w db g)
unfolding promote host_parts new_loopback loopback_on_event
promote-Succeeds w db g s h n =
    let e = seeded-state g.refs.room_id s g.replica.last_version g.replica.state h in
    let f =
      wire_host-Follows w g.refs
        (record { state = g.replica.state; version = g.replica.last_version }) db true
        (g.out ++ torn_down (close_hub g.peer_hub) ∷ [])
        (subst (λ (t : GameState). t.players ≢ []) (sym e) n) in
    record {
      state = subst (λ t. Keeps t (promote w db g).engine.state) e f.state;
      self_id = f.self_id;
    }

-- A guest that is promoted while the state that it has seen has players and names another host
-- cannot configure, start, go on or end the game with its own commands: nothing changes and
-- nothing is sent.
pub promote_not_host :
    (w : World) (db : Database) (g : Guest) (s : GameState) {c : ClientCommand}
    → g.replica.state ≡ some s
    → s.players ≢ []
    → s.host_id ≢ g.refs.player_id
    → IsHostCommand c
    → host_send w c (promote w db g) ≡ promote w db g
unfolding host_send host_dispatch
promote_not_host w db g s h n other k =
    let q = promote-Succeeds w db g s h n in
    let p = promote w db g in
    ap (λ e. settle w e p)
      (dispatch_not_host w.env p.loopback.self_id p.engine k
        (λ e. other (sym (sym q.self_id ∙ e ∙ q.state.host_id))))
    ∙ settle_self w p
