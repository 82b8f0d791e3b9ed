-- ===== src/HostBridge/Authority.antt =====
-- frontend/p2p/hostBridge.ts, `handlePeerMessage`: who a peer can speak for.
use fakeartist.Prelude.{ℕ, List, [], false, Option, none, some, Str, ◌≡◌, ◌≢◌, ap, is_empty}
use fakeartist.Models.{Player, Stroke}
use fakeartist.Protocol.{ClientCommand, JoinGamePayload, join_game, Envelope}
use fakeartist.Engine.State.{Env, Engine, find_player}
use fakeartist.Engine.Dispatch.{dispatch}
use fakeartist.Engine.Flow.{IsHostCommand, dispatch_not_host}
use fakeartist.Engine.Rejoin.{IsBack, handle_join-IsBack}
use fakeartist.HostBridge.{handle_peer_message}

-- A peer that is not the host cannot configure, start, go on or end the game through the bridge,
-- whoever its message claims to be: nothing changes and nothing is sent.
pub handle_peer_message_not_host :
    (env : Env) (peer : Str) (seq : ℕ) (c : ClientCommand) (claimed : Option Str)
    (log : Option (List (ℕ × Stroke))) (e : Engine)
    → IsHostCommand c
    → peer ≢ e.state.host_id
    → handle_peer_message env peer (some (Envelope.cmd seq c claimed)) log e ≡ (e, [])
unfolding handle_peer_message
handle_peer_message_not_host env peer seq c claimed log e h n =
    ap (λ f. (f, [])) (dispatch_not_host env peer e h n)

-- A JOIN_GAME that names a player of the game is taken for that player's return, with the name in
-- it, from whatever peer it comes.
pub handle_peer_message_renames :
    (env : Env) (peer : Str) (seq : ℕ) (p : JoinGamePayload) (log : Option (List (ℕ × Stroke)))
    (e : Engine) (old : Player)
    → is_empty p.id ≡ false
    → find_player p.id e ≡ some old
    → IsBack p old e.state
        (handle_peer_message env peer (some (Envelope.cmd seq (join_game p) none)) log e).0.state
unfolding handle_peer_message dispatch
handle_peer_message_renames env peer seq p log e old n h = handle_join-IsBack env p peer e old n h
