-- ===== src/HostBridge/Wiring.antt =====
-- frontend/p2p/hostBridge.ts, constructor and `close`, with the subscriptions of engine.ts and
-- peerHub.ts that they use, and frontend/p2p/checkpoint.ts, `start` and `close`. A handler is a
-- number; a function that ends a subscription is what it ends.
pub mod Closing
use fakeartist.Prelude.{
  ℕ, List, [], ◌∷◌, ◌++◌, Bool, true, false, Option, none, some, leb, if◌then◌else◌,
}
use fakeartist.Transport.{without}

pub data Topic : Type 0 where
  broadcasts directs peer_messages : Topic

-- `broadcastListeners` and `directListeners` of the engine, and `onMessage` of the hub.
pub record Listeners : Type 0 where
  pub on_broadcast : List ℕ
  pub on_direct : List ℕ
  pub on_message : List ℕ

unfoldable pub subscribe : Topic → ℕ → Listeners → Listeners
subscribe broadcasts h l = record l { on_broadcast = l.on_broadcast ++ h ∷ [] }
subscribe directs h l = record l { on_direct = l.on_direct ++ h ∷ [] }
subscribe peer_messages h l = record l { on_message = l.on_message ++ h ∷ [] }

unfoldable pub unsubscribe : Topic → ℕ → Listeners → Listeners
unsubscribe broadcasts h l = record l { on_broadcast = without h l.on_broadcast }
unsubscribe directs h l = record l { on_direct = without h l.on_direct }
unsubscribe peer_messages h l = record l { on_message = without h l.on_message }

pub record Bridge : Type 0 where
  pub unsub : List (Topic × ℕ)

-- The handlers are those for broadcasts, for direct events and for messages of peers.
unfoldable pub open_bridge : ℕ → ℕ → ℕ → Listeners → Bridge × Listeners
unfolding subscribe
open_bridge b d m l =
    let wired = subscribe peer_messages m (subscribe directs d (subscribe broadcasts b l)) in
    (record { unsub = (broadcasts, b) ∷ (directs, d) ∷ (peer_messages, m) ∷ [] }, wired)

unfoldable pub end_all : List (Topic × ℕ) → Listeners → Listeners
unfolding unsubscribe
end_all [] l = l
end_all ((t, h) ∷ us) l = end_all us (unsubscribe t h l)

unfoldable pub close_bridge : Bridge → Listeners → Bridge × Listeners
unfolding end_all
close_bridge bridge l = (record { unsub = [] }, end_all bridge.unsub l)

-- The timer's interval while it runs, and the subscription.
pub record CheckpointWires : Type 0 where
  pub timer : Option ℕ
  pub unsub_broadcast : Option ℕ

-- `observer` is the new handler, which a dispatcher that was started before does not register.
unfoldable pub start_checkpoint : ℕ → ℕ → CheckpointWires → Listeners → CheckpointWires × Listeners
unfolding subscribe
start_checkpoint time_ms observer c l = elim c.unsub_broadcast [
  | some h ↦ (c, l)
  | none ↦
      let interval = if leb time_ms 5000 then time_ms else 5000 in
      (
        record { timer = some interval; unsub_broadcast = some observer },
        subscribe broadcasts observer l,
      )
]

unfoldable pub close_checkpoint : CheckpointWires → Listeners → CheckpointWires × Listeners
unfolding unsubscribe
close_checkpoint c l = (
  record { timer = none; unsub_broadcast = none },
  elim c.unsub_broadcast [ none ↦ l | some h ↦ unsubscribe broadcasts h l ],
)
