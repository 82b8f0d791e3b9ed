-- ===== src/Engine/Rejoin.antt =====
-- frontend/p2p/engine.ts, `handleJoin`: a player who comes back takes the old seat.
use fakeartist.Prelude.{
  ℕ, List, [], ◌∷◌, map, Bool, true, false, some, Str, ◌≡◌, refl, sym, subst, arith, ◌==◌, is_empty,
  find_if, update_first, if◌then◌else◌,
}
use fakeartist.Models.{Player, GameState}
use fakeartist.Protocol.{JoinGamePayload}
use fakeartist.Engine.State.{Env, Engine, find_player}
use fakeartist.Engine.Roster.{reconnect, reconnect_player, find_wanted, handle_join}
use fakeartist.Engine.Frame.{welcome-state}

-- What of a player a return does not change.
pub record Seat : Type 0 where
  pub id : Str
  pub color : Str
  pub is_admin : Bool
  pub has_submitted : Bool
  pub score : ℕ

abbrev pub seat : Player → Seat
seat p = record {
  id = p.id;
  color = p.color;
  is_admin = p.is_admin;
  has_submitted = p.has_submitted;
  score = p.score;
}

reconnect-seat : (name : Str) (p : Player) → seat (reconnect name p) ≡ seat p
unfolding reconnect
reconnect-seat name p = refl

seats-reconnect :
    (id name : Str) (ps : List Player)
    → map seat (update_first (λ p. p.id == id) (reconnect name) ps) ≡ map seat ps
seats-reconnect id name [] = refl
seats-reconnect id name (p ∷ ps) = grind (arith, reconnect-seat name p, seats-reconnect id name ps)

find-reconnect :
    (id name : Str) (ps : List Player) (old : Player)
    → find_if (λ p. p.id == id) ps ≡ some old
    → find_if (λ p. p.id == id) (update_first (λ p. p.id == id) (reconnect name) ps)
      ≡ some (reconnect name old)
unfolding reconnect
find-reconnect id name [] old h = cc
find-reconnect id name (p ∷ ps) old h = grind (arith, h, find-reconnect id name ps old)

found-id :
    (id : Str) (ps : List Player) (old : Player)
    → find_if (λ p. p.id == id) ps ≡ some old
    → old.id ≡ id
found-id id [] old h = cc
found-id id (p ∷ ps) old h = grind (arith, h, found-id id ps old)

-- The state after a player with this id was found.
rejoined :
    (env : Env) (p : JoinGamePayload) (from : Str) (e : Engine) (old : Player)
    → is_empty p.id ≡ false
    → find_player p.id e ≡ some old
    → (handle_join env p from e).state ≡ (reconnect_player old.id p.player_name e).state
unfolding handle_join find_wanted find_player
rejoined env p from e old n h =
    grind (arith, welcome-state old.id (reconnect_player old.id p.player_name e))

-- What a return keeps, and that the player is there.
pub record IsBack (p : JoinGamePayload) (old : Player) (s t : GameState) : Type 0 where
  pub seats : map seat t.players ≡ map seat s.players
  pub back :
      find_if (λ (q : Player). q.id == p.id) t.players
      ≡ some (record old {
        connected = true;
        name = if is_empty p.player_name then old.name else p.player_name;
      })
  pub host : t.host_id ≡ s.host_id
  pub status : t.status ≡ s.status
  pub round : t.current_round ≡ s.current_round

reconnect_player-IsBack :
    (p : JoinGamePayload) (e : Engine) (old : Player)
    → find_player p.id e ≡ some old
    → IsBack p old e.state (reconnect_player old.id p.player_name e).state
unfolding reconnect_player find_player reconnect
reconnect_player-IsBack p e old h =
    let same = found-id p.id e.state.players old h in
    record {
      seats = seats-reconnect old.id p.player_name e.state.players;
      back =
          subst
            (λ i.
              find_if (λ (q : Player). q.id == p.id)
                (update_first (λ q. q.id == i) (reconnect p.player_name) e.state.players)
              ≡ some (reconnect p.player_name old))
            (sym same) (find-reconnect p.id p.player_name e.state.players old h);
      host = refl;
      status = refl;
      round = refl;
    }

-- A JOIN_GAME with the id of a player of the game marks that player connected and takes over the
-- name in it unless that is empty; ids, colours, scores and flags of all players, the host, the
-- status and the round stay.
pub handle_join-IsBack :
    (env : Env) (p : JoinGamePayload) (from : Str) (e : Engine) (old : Player)
    → is_empty p.id ≡ false
    → find_player p.id e ≡ some old
    → IsBack p old e.state (handle_join env p from e).state
handle_join-IsBack env p from e old n h =
    subst (IsBack p old e.state) (sym (rejoined env p from e old n h))
      (reconnect_player-IsBack p e old h)
