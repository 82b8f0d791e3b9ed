-- ===== src/Session/Relaying.antt =====
-- frontend/components/P2pGameProvider.jsx: guests that reach the host by the server only.
use fakeartist.Prelude.{
  ℕ, List, [], ◌∷◌, ◌++◌, map, Bool, true, false, Option, none, some, Str, ◌≡◌, ◌≢◌, refl, sym, ap,
  ◌∙◌, All, All_weaken, includes, arith, append-nil, if◌then◌else◌,
}
use fakeartist.Models.{Round}
use fakeartist.Sanitize.Secrecy.{IsOpen}
use fakeartist.Protocol.{ClientCommand, ServerEvent, Envelope}
use fakeartist.Transport.{event_to_env}
use fakeartist.Engine.State.{Env, Engine, Output, broadcast, direct, draw_request}
use fakeartist.Engine.Secrecy.{IsDiscreet}
use fakeartist.Engine.Invariant.Run.{Reach, Reach-Discreet}
use fakeartist.Engine.Flow.{IsHostCommand, dispatch_not_host}
use fakeartist.Signaling.{OutboundEnvelope}
use fakeartist.HostBridge.{
  Effect, to_all, to_peer, relay, relay_broadcast, relay_direct, index_of, log_effects,
  serve_sync_req,
}
use fakeartist.HostBridge.Secrecy.{IsPublicFrame}
use fakeartist.Session.{World, SessionOutput, signal, add_id}
use fakeartist.Session.Host.{
  Host, mirror, mirrored, mirrored_direct, relay_frames, host_on_relay, host_dispatch, settle,
  relay_sync,
}
use fakeartist.Session.Frame.{settle_self}

-- What the server has to carry of an effect of the bridge, for the guests `peers`: a frame for all
-- goes to each of them, and a frame for one peer goes there if it is one of them.
unfoldable pub carried : List Str → Effect → List SessionOutput
carried peers (to_all env) = map (λ pid. signal (OutboundEnvelope.relayed pid env)) peers
carried peers (to_peer pid env) =
    if includes peers pid then signal (OutboundEnvelope.relayed pid env) ∷ [] else []
carried peers _ = []

unfoldable pub carried_all : List Str → List Effect → List SessionOutput
unfolding carried
carried_all peers [] = []
carried_all peers (x ∷ xs) = carried peers x ++ carried_all peers xs

carried_log :
    (peers : List Str) (has_log : Bool) (evt : ServerEvent) (e : Engine) (xs : List Effect)
    → carried_all peers (log_effects has_log evt e ++ xs) ≡ carried_all peers xs
unfolding carried_all log_effects
carried_log peers false evt e xs = refl
carried_log peers true (ServerEvent.stroke_added stroke n) e xs = ground arith
carried_log peers true (ServerEvent.state_update s) e xs = refl
carried_log peers true (ServerEvent.player_welcome id) e xs = refl
carried_log peers true (ServerEvent.your_role p) e xs = refl
carried_log peers true (ServerEvent.error message) e xs = refl

-- For every discreet output of the engine, what goes to
-- guests behind the server is what the bridge sends over the channels: a frame for all peers to
-- each of those guests, a frame for one peer to that peer if it is one of them.
pub mirror-relay :
    (peers : List Str) (has_log : Bool) (o : Output) (e : Engine)
    → IsDiscreet o
    → mirror peers o e ≡ carried_all peers (relay has_log o e)
unfolding mirror mirrored mirrored_direct relay_frames relay relay_broadcast relay_direct
    event_to_env carried_all
mirror-relay peers has_log (broadcast (ServerEvent.state_update s)) e k = sym (
    carried_log peers has_log (ServerEvent.state_update s) e
      (to_all (Envelope.state_update e.version s) ∷ [])
    ∙ append-nil _)
mirror-relay peers has_log (broadcast (ServerEvent.stroke_added stroke n)) e k = sym (
    carried_log peers has_log (ServerEvent.stroke_added stroke n) e
      (to_all (Envelope.stroke_added (index_of e.state.current_round) n stroke) ∷ [])
    ∙ append-nil _)
mirror-relay peers has_log (broadcast (ServerEvent.player_welcome id)) e k = absurd k
mirror-relay peers has_log (broadcast (ServerEvent.your_role p)) e k = absurd k
mirror-relay peers has_log (broadcast (ServerEvent.error message)) e k = absurd k
mirror-relay peers has_log (direct pid (ServerEvent.state_update s)) e k = absurd k
mirror-relay peers has_log (direct pid (ServerEvent.stroke_added stroke n)) e k = absurd k
mirror-relay peers has_log (direct pid (ServerEvent.player_welcome id)) e k = sym (append-nil _)
mirror-relay peers has_log (direct pid (ServerEvent.your_role p)) e k = sym (append-nil _)
mirror-relay peers has_log (direct pid (ServerEvent.error message)) e k = sym (append-nil _)
mirror-relay peers has_log (draw_request room req pool) e k = refl

-- If all that was sent so far is discreet, then after every sequence of commands of named senders
-- and of answers to draws as the server documents them, for each thing that the engine has sent,
-- and at any state of the engine, what goes to guests behind the server is what the bridge sends
-- over the channels: a frame for all peers to each of those guests, a frame for one peer to that
-- peer if it is one of them.
pub Reach-mirror :
    {env : Env} {e f : Engine} (peers : List Str) (has_log : Bool) (g : Engine)
    → All IsDiscreet e.out
    → Reach env e f
    → All (λ o. mirror peers o g ≡ carried_all peers (relay has_log o g)) f.out
Reach-mirror {f = f} peers has_log g h r =
    All_weaken f.out (λ o. mirror-relay peers has_log o g) (Reach-Discreet h r)

-- A guest behind the server that is not the host cannot configure, start, go on or end the game,
-- whoever its message claims to be: all that changes is that it is known as a guest behind the
-- server.
pub host_on_relay_not_host :
    (w : World) (from : Str) (seq : ℕ) {c : ClientCommand} (claimed : Option Str) (h : Host)
    → IsHostCommand c
    → from ≢ h.engine.state.host_id
    → host_on_relay w from (some (Envelope.cmd seq c claimed)) h
      ≡ record h { relay_peers = add_id from h.relay_peers }
unfolding host_on_relay host_dispatch
host_on_relay_not_host w from seq claimed h k n =
    let known = record h { relay_peers = add_id from h.relay_peers } in
    ap (λ e. settle w e known) (dispatch_not_host w.env from h.engine k n) ∙ settle_self w known

-- A frame that the server carries may be seen by its receiver.
abbrev pub IsPublicOutput : SessionOutput → Type 0
IsPublicOutput (signal (OutboundEnvelope.relayed to env)) = IsPublicFrame env
IsPublicOutput _ = Unit

-- While a round with a fake is open, the answer that the server carries to a guest is not public.
pub relay_sync-leaks :
    (from : Str) (round idx : ℕ) (e : Engine) (r : Round) (fake : Str)
    → e.state.current_round ≡ some r
    → r.fake_id ≡ some fake
    → IsOpen e.state.status
    → ¬ All IsPublicOutput (relay_sync from round idx e)
unfolding relay_sync
relay_sync-leaks from round idx e r fake h k o public = let hidden = public.0.secrets r h o in cc

-- A guest behind the server is answered as the bridge answers a guest with a channel, without a log.
pub relay_sync-serve_sync_req :
    (peers : List Str) (from : Str) (round idx : ℕ) (e : Engine)
    → includes peers from ≡ true
    → relay_sync from round idx e ≡ carried_all peers (serve_sync_req from round idx none e)
unfolding relay_sync serve_sync_req carried_all carried
relay_sync-serve_sync_req peers from round idx e h = rw h refl
