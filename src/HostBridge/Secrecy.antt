-- ===== src/HostBridge/Secrecy.antt =====
-- frontend/p2p/hostBridge.ts: what the bridge puts on the wire, against what a player may see.
use fakeartist.Prelude.{ℕ, ◌≡◌, List, Option, some, Str, All}
use fakeartist.Models.{Round, Stroke}
use fakeartist.Sanitize.Secrecy.{IsPublic, IsOpen}
use fakeartist.Protocol.{Envelope}
use fakeartist.Engine.State.{Engine, Output, broadcast, direct, draw_request}
use fakeartist.Engine.Secrecy.{IsFairRole}
use fakeartist.Engine.Told.{IsRoleIn}
use fakeartist.HostBridge.{Effect, to_all, to_peer, serve_sync_req}

-- A frame that its receiver may see.
abbrev pub IsPublicFrame : Envelope → Type 0
IsPublicFrame (Envelope.state_update version s) = IsPublic s
IsPublicFrame (Envelope.sync_res s version frames) = IsPublic s
IsPublicFrame (Envelope.your_role round p) = IsFairRole p
IsPublicFrame _ = Unit

-- The log is the host's own: only frames count. A role is for one player.
abbrev pub IsPublicEffect : Effect → Type 0
IsPublicEffect (to_all (Envelope.your_role round p)) = ⊥
IsPublicEffect (to_all frame) = IsPublicFrame frame
IsPublicEffect (to_peer peer frame) = IsPublicFrame frame
IsPublicEffect _ = Unit

abbrev pub ArePublic : List Effect → Type 0
ArePublic es = All IsPublicEffect es

-- What becomes of an output in the round `r`: what is broadcast goes to all and is public; a role goes
-- to the peer that it was told to and is that peer's role in the round, and what else is told to a
-- player goes to that peer.
abbrev pub IsMeant : Option Round → Output → Effect → Type 0
IsMeant r (broadcast evt) (to_all frame) = IsPublicEffect (to_all frame)
IsMeant r (broadcast evt) (to_peer peer frame) = ⊥
IsMeant r (direct pid evt) (to_all frame) = ⊥
IsMeant r (direct pid evt) (to_peer peer (Envelope.your_role round p)) =
    (peer ≡ pid) × IsRoleIn r peer p
IsMeant r (direct pid evt) (to_peer peer frame) = (peer ≡ pid) × IsPublicFrame frame
IsMeant r (draw_request room req pool) (to_all frame) = ⊥
IsMeant r (draw_request room req pool) (to_peer peer frame) = ⊥
IsMeant r _ _ = Unit

-- While a round with a fake is open, the answer to a SYNC_REQ of any peer, with or without a log,
-- is not public: the state in it is not sanitized.
pub serve_sync_req-leaks :
    (peer : Str) (round from : ℕ) (log : Option (List (ℕ × Stroke))) (e : Engine) (r : Round)
    (fake : Str)
    → e.state.current_round ≡ some r
    → r.fake_id ≡ some fake
    → IsOpen e.state.status
    → ¬ ArePublic (serve_sync_req peer round from log e)
unfolding serve_sync_req
serve_sync_req-leaks peer round from log e r fake h k o public =
    let hidden = public.0.secrets r h o in cc
