-- ===== src/Session/Frame.antt =====
-- frontend/components/P2pGameProvider.jsx: what the handlers of a session leave alone.
use fakeartist.Prelude.{
  ℕ, zero, suc, ◌+◌, List, [], ◌∷◌, ◌++◌, true, false, Option, none, some, Str, ◌≡◌, refl, sym, ap,
  subst, ◌∙◌, length, drop, arith, if◌then◌else◌,
}
use fakeartist.Protocol.{ClientCommand, Envelope}
use fakeartist.Engine.State.{Engine, Output}
use fakeartist.Transport.{Call, handled, framed, loopback_hear, is_for}
use fakeartist.Replica.{Replica, ReplicaOutput, changed, drawn, failed, sync_asked}
use fakeartist.HostBridge.{Effect, to_all, to_peer, append_stroke, put_state}
use fakeartist.Session.{World}
use fakeartist.Session.Guest.{
  Guest, react, react_all, with_replica, hear_call, hear_calls, guest_send,
}
use fakeartist.Session.Host.{
  Host, host_replica, host_calls, perform, perform_all, host_hear, host_hear_all, settle,
}

pub drop-length {ℓ} : {A : Type ℓ} (xs : List A) → drop (length xs) xs ≡ []
drop-length [] = refl
drop-length (x ∷ xs) = drop-length xs

pub drop-length-append {ℓ} : {A : Type ℓ} (xs ys : List A) → drop (length xs) (xs ++ ys) ≡ ys
drop-length-append [] ys = refl
drop-length-append (x ∷ xs) ys = drop-length-append xs ys

-- What the listeners of the engine leave alone at the host.
pub record Stays (h k : Host) : Type 0 where
  pub engine : k.engine ≡ h.engine
  pub refs : k.refs ≡ h.refs
  pub self_id : k.loopback.self_id ≡ h.loopback.self_id

stays : (h : Host) → Stays h h
stays h = record { engine = refl; refs = refl; self_id = refl }

Stays-then : (h k l : Host) → Stays h k → Stays k l → Stays h l
Stays-then h k l s t = record {
  engine = t.engine ∙ s.engine;
  refs = t.refs ∙ s.refs;
  self_id = t.self_id ∙ s.self_id;
}

host_calls-Stays : (cs : List Call) (h : Host) → Stays h (host_calls cs h)
unfolding host_calls
host_calls-Stays [] h = stays h
host_calls-Stays (handled n evt ∷ cs) h =
    Stays-then h _ _ (record { engine = refl; refs = refl; self_id = refl })
      (host_calls-Stays cs (host_replica (fakeartist.Replica.apply evt) h))
host_calls-Stays (framed env ∷ cs) h = host_calls-Stays cs h

perform-Stays : (w : World) (x : Effect) (h : Host) → Stays h (perform w x h)
unfolding perform
perform-Stays w (to_all env) h = record { engine = refl; refs = refl; self_id = refl }
perform-Stays w (to_peer peer env) h = record { engine = refl; refs = refl; self_id = refl }
perform-Stays w (append_stroke round i s) h = record { engine = refl; refs = refl; self_id = refl }
perform-Stays w (put_state version s) h = record { engine = refl; refs = refl; self_id = refl }

perform_all-Stays : (w : World) (xs : List Effect) (h : Host) → Stays h (perform_all w xs h)
unfolding perform_all
perform_all-Stays w [] h = stays h
perform_all-Stays w (x ∷ xs) h =
    Stays-then h _ _ (perform-Stays w x h) (perform_all-Stays w xs (perform w x h))

-- The loopback's owner is the same after it has heard an output.
loopback_hear-self_id :
    (o : Output) (t : fakeartist.Transport.Loopback) → (loopback_hear o t).self_id ≡ t.self_id
unfolding loopback_hear
loopback_hear-self_id o t = heard t.attached (is_for t.self_id o)
  where
    heard :
        (b : fakeartist.Prelude.Bool) (m : Option fakeartist.Protocol.ServerEvent)
        → (if b
            then elim m [
              | none ↦ t
              | some evt ↦ record t { out = t.out ++ fakeartist.Transport.fan_out t.listeners evt }
            ]
            else t).self_id
          ≡ t.self_id
    heard false m = refl
    heard true none = refl
    heard true (some evt) = refl

host_hear-Stays : (w : World) (o : Output) (h : Host) → Stays h (host_hear w o h)
unfolding host_hear
host_hear-Stays w o h =
    let t = loopback_hear o h.loopback in
    let placed = record h { loopback = t } in
    let told = host_calls (drop (length h.loopback.out) t.out) placed in
    let a : Stays h placed = record {
      engine = refl;
      refs = refl;
      self_id = loopback_hear-self_id o h.loopback;
    } in
    let b = host_calls-Stays (drop (length h.loopback.out) t.out) placed in
    let c = perform_all-Stays w (fakeartist.HostBridge.relay true o told.engine) told in
    let d = Stays-then h told _ (Stays-then h placed told a b) c in
    record { engine = d.engine; refs = d.refs; self_id = d.self_id }

host_hear_all-Stays : (w : World) (os : List Output) (h : Host) → Stays h (host_hear_all w os h)
unfolding host_hear_all
host_hear_all-Stays w [] h = stays h
host_hear_all-Stays w (o ∷ os) h =
    Stays-then h _ _ (host_hear-Stays w o h) (host_hear_all-Stays w os (host_hear w o h))

-- After a call of the engine the host has the engine that the call returned.
pub settle-Stays :
    (w : World) (e : Engine) (h : Host) → Stays (record h { engine = e }) (settle w e h)
unfolding settle
settle-Stays w e h =
    host_hear_all-Stays w (drop (length h.engine.out) e.out) (record h { engine = e })

-- An engine that has done nothing tells nothing.
pub settle_self : (w : World) (h : Host) → settle w h.engine h ≡ h
unfolding settle host_hear_all
settle_self w h = ap (λ os. host_hear_all w os h) (drop-length h.engine.out)

pub react_all-refs : (os : List ReplicaOutput) (g : Guest) → (react_all os g).refs ≡ g.refs
unfolding react_all react
react_all-refs [] g = refl
react_all-refs (changed s ∷ os) g = react_all-refs os _
react_all-refs (drawn s n ∷ os) g = react_all-refs os _
react_all-refs (failed m ∷ os) g = react_all-refs os _
react_all-refs (sync_asked r i ∷ os) g = react_all-refs os _

pub with_replica-refs : (f : Replica → Replica) (g : Guest) → (with_replica f g).refs ≡ g.refs
unfolding with_replica
with_replica-refs f g =
    react_all-refs (drop (length g.replica.out) (f g.replica).out)
      (record g { replica = f g.replica })

pub hear_calls-refs : (cs : List Call) (g : Guest) → (hear_calls cs g).refs ≡ g.refs
unfolding hear_calls hear_call
hear_calls-refs [] g = refl
hear_calls-refs (handled n evt ∷ cs) g =
    hear_calls-refs cs (with_replica (fakeartist.Replica.apply evt) g)
    ∙ with_replica-refs (fakeartist.Replica.apply evt) g
hear_calls-refs (framed env ∷ cs) g =
    hear_calls-refs cs (with_replica (fakeartist.Replica.CatchUp.apply_frame env) g)
    ∙ with_replica-refs (fakeartist.Replica.CatchUp.apply_frame env) g

pub guest_send-refs : (cmd : ClientCommand) (g : Guest) → (guest_send cmd g).refs ≡ g.refs
unfolding guest_send
guest_send-refs cmd g = ground arith
