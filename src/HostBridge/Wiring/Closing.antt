-- ===== src/HostBridge/Wiring/Closing.antt =====
-- frontend/p2p/hostBridge.ts and checkpoint.ts: what is left of a bridge or a dispatcher that is closed.
use fakeartist.Prelude.{ℕ, List, [], ◌∷◌, ◌++◌, none, ◌≡◌, ◌≢◌, refl, ◌∙◌, ap, arith, All}
use fakeartist.Transport.{without}
use fakeartist.HostBridge.Wiring.{
  Topic, broadcasts, directs, peer_messages, Listeners, subscribe, unsubscribe, open_bridge,
  close_bridge, start_checkpoint, close_checkpoint, CheckpointWires,
}

without-snoc : (h k : ℕ) (xs : List ℕ) → k ≢ h → without h (xs ++ k ∷ []) ≡ without h xs ++ k ∷ []
unfolding without
without-snoc h k [] n = ground (arith, n)
without-snoc h k (x ∷ xs) n = ground (arith, without-snoc h k xs n)

without-without : (h k : ℕ) (xs : List ℕ) → without h (without k xs) ≡ without k (without h xs)
unfolding without
without-without h k [] = refl
without-without h k (x ∷ xs) = ground (arith, without-without h k xs)

without_fresh : (h : ℕ) (xs : List ℕ) → All (λ x. x ≢ h) xs → without h (xs ++ h ∷ []) ≡ xs
unfolding without
without_fresh h [] a = ground arith
without_fresh h (x ∷ xs) a = ground (arith, a.0, without_fresh h xs a.1)

-- What others do with the same emitters.
pub data Change : Type 0 where
  subscribed unsubscribed : Topic → ℕ → Change

unfoldable pub run_changes : List Change → Listeners → Listeners
unfolding subscribe unsubscribe
run_changes [] l = l
run_changes (subscribed t h ∷ cs) l = run_changes cs (subscribe t h l)
run_changes (unsubscribed t h ∷ cs) l = run_changes cs (unsubscribe t h l)

module _ (b d m : ℕ) where
  abbrev pub own : Topic → ℕ
  own broadcasts = b
  own directs = d
  own peer_messages = m

  -- A new handler is not one of the bridge's.
  abbrev pub IsOther : Change → Type 0
  IsOther (subscribed t h) = h ≢ own t
  IsOther (unsubscribed t h) = Unit

  abbrev pub Unknown : Listeners → Type 0
  Unknown l =
      All (λ x. x ≢ b) l.on_broadcast × All (λ x. x ≢ d) l.on_direct × All (λ x. x ≢ m) l.on_message

  unfoldable left : Listeners → Listeners
  left l = record {
    on_broadcast = without b l.on_broadcast;
    on_direct = without d l.on_direct;
    on_message = without m l.on_message;
  }

  left-subscribe :
      (t : Topic) (h : ℕ) (l : Listeners)
      → h ≢ own t
      → left (subscribe t h l) ≡ subscribe t h (left l)
  unfolding left subscribe
  left-subscribe broadcasts h l n = rw (without-snoc b h l.on_broadcast n) refl
  left-subscribe directs h l n = rw (without-snoc d h l.on_direct n) refl
  left-subscribe peer_messages h l n = rw (without-snoc m h l.on_message n) refl

  left-unsubscribe :
      (t : Topic) (h : ℕ) (l : Listeners) → left (unsubscribe t h l) ≡ unsubscribe t h (left l)
  unfolding left unsubscribe
  left-unsubscribe broadcasts h l = rw (without-without b h l.on_broadcast) refl
  left-unsubscribe directs h l = rw (without-without d h l.on_direct) refl
  left-unsubscribe peer_messages h l = rw (without-without m h l.on_message) refl

  left-run_changes :
      (cs : List Change) (l : Listeners)
      → All IsOther cs
      → left (run_changes cs l) ≡ run_changes cs (left l)
  unfolding run_changes
  left-run_changes [] l a = refl
  left-run_changes (subscribed t h ∷ cs) l a =
      left-run_changes cs (subscribe t h l) a.1 ∙ ap (run_changes cs) (left-subscribe t h l a.0)
  left-run_changes (unsubscribed t h ∷ cs) l a =
      left-run_changes cs (unsubscribe t h l) a.1 ∙ ap (run_changes cs) (left-unsubscribe t h l)

  -- A bridge with new handlers that is opened and closed leaves no trace: after any subscriptions of
  -- other handlers and any ends of subscriptions in between, the listeners are those that the same
  -- changes give without the bridge, in the same order.
  pub close_bridge-run_changes :
      (cs : List Change) (l : Listeners)
      → Unknown l
      → All IsOther cs
      → (let (bridge, wired) = open_bridge b d m l in
          (close_bridge bridge (run_changes cs wired)).1 ≡ run_changes cs l)
  unfolding open_bridge close_bridge subscribe left
  close_bridge-run_changes cs l u a =
      left-run_changes cs _ a
      ∙ rw
          (
            without_fresh b l.on_broadcast u.0,
            without_fresh d l.on_direct u.1,
            without_fresh m l.on_message u.2,
          )
          refl

-- A dispatcher with a new observer that is started, once or more, and then closed leaves nothing.
pub close_checkpoint-start_checkpoint :
    (time_ms observer other : ℕ) (l : Listeners)
    → All (λ x. x ≢ observer) l.on_broadcast
    → (let idle : CheckpointWires = record { timer = none; unsub_broadcast = none } in
        let (c, wired) = start_checkpoint time_ms observer idle l in
        let (again, same) = start_checkpoint time_ms other c wired in
        close_checkpoint again same ≡ (idle, l))
unfolding start_checkpoint close_checkpoint subscribe unsubscribe
close_checkpoint-start_checkpoint time_ms observer other l a =
    rw (without_fresh observer l.on_broadcast a) refl
