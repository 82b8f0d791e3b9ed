-- ===== src/PeerHub/Candidates.antt =====
-- frontend/p2p/peerHub.ts: candidates wait for the remote description and are kept in order.
use fakeartist.Prelude.{
  ◌≡◌, refl, ap, sym, ap₂, ◌∙◌, List, [], ◌∷◌, ◌++◌, Bool, true, false, Option, none, some, Str,
  ◌==◌, update_first, if◌then◌else◌, arith, Bool-cases, inl, inr,
}
use mathlib.Core.List.{append_assoc, append-nil}
use fakeartist.PeerHub.{
  HubOutput, send_offer, send_answer, send_ice, set_remote, add_candidate, sent_to,
  closed_connection, peer_opened, peer_closed, PeerEntry, PeerHub, is_peer, find_peer, update_peer,
  tell, ensure_peer, new_entry, drain_ice, drained, set_remote_description, add_remote_ice,
  take_ice, is_ready, add_remote_answer,
}

-- The candidates of a peer, in the order in which the browser has got them.
abbrev pub given_to : Str → List HubOutput → List Str
given_to id [] = []
given_to id (add_candidate pid c ∷ os) = if pid == id then c ∷ given_to id os else given_to id os
given_to id (_ ∷ os) = given_to id os

-- The candidates that wait.
abbrev pub waiting : Option PeerEntry → List Str
waiting none = []
waiting (some p) = p.pending_ice

-- All candidates of a peer that came so far: those the browser has, and then those that wait.
abbrev pub candidates_of : Str → PeerHub → List Str
candidates_of id h = given_to id h.out ++ waiting (find_peer id h.peers)

given_to-append :
    (id : Str) (os ps : List HubOutput) → given_to id (os ++ ps) ≡ given_to id os ++ given_to id ps
given_to-append id [] ps = refl
given_to-append id (add_candidate pid c ∷ os) ps = ground (arith, given_to-append id os ps)
given_to-append id (send_offer a b ∷ os) ps = given_to-append id os ps
given_to-append id (send_answer a b ∷ os) ps = given_to-append id os ps
given_to-append id (send_ice a b ∷ os) ps = given_to-append id os ps
given_to-append id (set_remote a b ∷ os) ps = given_to-append id os ps
given_to-append id (sent_to a b ∷ os) ps = given_to-append id os ps
given_to-append id (closed_connection a ∷ os) ps = given_to-append id os ps
given_to-append id (peer_opened a ∷ os) ps = given_to-append id os ps
given_to-append id (peer_closed a ∷ os) ps = given_to-append id os ps

given_to-drained : (id : Str) (cs : List Str) → given_to id (drained id cs) ≡ cs
unfolding drained
given_to-drained id [] = refl
given_to-drained id (c ∷ cs) = ground (arith, given_to-drained id cs)

find_peer-update :
    (id : Str) (f : PeerEntry → PeerEntry) (p : PeerEntry) (ps : List PeerEntry)
    → ((q : PeerEntry) → (f q).peer_id ≡ q.peer_id)
    → find_peer id ps ≡ some p
    → find_peer id (update_first (is_peer id) f ps) ≡ some (f p)
unfolding find_peer is_peer
find_peer-update id f p [] k h = cc
find_peer-update id f p (q ∷ ps) k h = grind (arith, k q, find_peer-update id f p ps k)

find_peer-append :
    (id : Str) (p : PeerEntry) (ps : List PeerEntry)
    → p.peer_id ≡ id
    → find_peer id ps ≡ none
    → find_peer id (ps ++ p ∷ []) ≡ some p
unfolding find_peer is_peer
find_peer-append id p [] e h = ground (arith, e)
find_peer-append id p (q ∷ ps) e h = grind (arith, e, h, find_peer-append id p ps e)

-- What `ensurePeer` returns: the entry that was there, or a new one.
abbrev pub ensured : Str → Bool → Option PeerEntry → PeerEntry
ensured id b none = new_entry id b
ensured id b (some p) = p

find_peer-ensure :
    (id : Str) (b : Bool) (h : PeerHub)
    → (find_peer id (ensure_peer id b h).peers ≡ some (ensured id b (find_peer id h.peers)))
      × ((ensure_peer id b h).out ≡ h.out)
unfolding ensure_peer
find_peer-ensure id b h = there (find_peer id h.peers) refl
  where
    there :
        (o : Option PeerEntry)
        → find_peer id h.peers ≡ o
        → let g : PeerHub = elim o [
          | some p ↦ h
          | none ↦ record h { peers = h.peers ++ new_entry id b ∷ [] }
        ] in
          (find_peer id g.peers ≡ some (ensured id b o)) × (g.out ≡ h.out)
    there none e = (find_peer-append id (new_entry id b) h.peers refl e, refl)
    there (some p) e = (e, refl)

waiting-ensured : (id : Str) (o : Option PeerEntry) → (ensured id false o).pending_ice ≡ waiting o
unfolding new_entry
waiting-ensured id none = refl
waiting-ensured id (some p) = refl

update_peer-find :
    (id : Str) (f : PeerEntry → PeerEntry) (p : PeerEntry) (h : PeerHub)
    → ((q : PeerEntry) → (f q).peer_id ≡ q.peer_id)
    → find_peer id h.peers ≡ some p
    → (find_peer id (update_peer id f h).peers ≡ some (f p)) × ((update_peer id f h).out ≡ h.out)
unfolding update_peer
update_peer-find id f p h k e = (find_peer-update id f p h.peers k e, refl)

given_one :
    (id c : Str) (os : List HubOutput)
    → given_to id (os ++ add_candidate id c ∷ []) ≡ given_to id os ++ c ∷ []
given_one id c os =
    given_to-append id os (add_candidate id c ∷ []) ∙ ap (given_to id os ++◌) (ground arith)

take_ice-candidates :
    (id c : Str) (p : PeerEntry) (h : PeerHub)
    → find_peer id h.peers ≡ some p
    → (p.remote_set ≡ true → p.pending_ice ≡ [])
    → candidates_of id (take_ice id c p.remote_set h) ≡ candidates_of id h ++ c ∷ []
take_ice-candidates id c p h e d = elim (Bool-cases p.remote_set) [
  | inl t ↦ rw t (unfold take_ice in given t)
  | inr t ↦ rw t (unfold take_ice in kept)
]
  where
    given :
        p.remote_set ≡ true
        → given_to id (h.out ++ add_candidate id c ∷ []) ++ waiting (find_peer id h.peers)
          ≡ (given_to id h.out ++ waiting (find_peer id h.peers)) ++ c ∷ []
    given t =
        let w : waiting (find_peer id h.peers) ≡ [] = ap waiting e ∙ d t in
        rw w (
          append-nil (given_to id (h.out ++ add_candidate id c ∷ []))
          ∙ given_one id c h.out
          ∙ ap (λ s. s ++ c ∷ []) (sym (append-nil (given_to id h.out))))

    later : PeerHub
    later = update_peer id (λ q. record q { pending_ice = q.pending_ice ++ c ∷ [] }) h

    kept :
        given_to id later.out ++ waiting (find_peer id later.peers)
        ≡ (given_to id h.out ++ waiting (find_peer id h.peers)) ++ c ∷ []
    kept =
        let u =
          update_peer-find id (λ q. record q { pending_ice = q.pending_ice ++ c ∷ [] }) p h
            (λ q. refl) e in
        ap₂ (λ os o. given_to id os ++ waiting o) u.1 u.0
        ∙ sym (append_assoc (given_to id h.out) p.pending_ice (c ∷ []))
        ∙ ap (λ o. (given_to id h.out ++ waiting o) ++ c ∷ []) (sym e)

-- If no candidate waits for a peer whose remote description is set, a candidate that comes is
-- behind all earlier ones of that peer, whether it waits or goes to the browser: none is lost and
-- the order is kept.
pub add_remote_ice-candidates :
    (id c : Str) (h : PeerHub)
    → ((p : PeerEntry) → find_peer id h.peers ≡ some p → p.remote_set ≡ true → p.pending_ice ≡ [])
    → candidates_of id (add_remote_ice id c h) ≡ candidates_of id h ++ c ∷ []
unfolding add_remote_ice is_ready new_entry
add_remote_ice-candidates id c h d =
    ap (λ o. candidates_of id (take_ice id c (is_ready o) there)) e.0
    ∙ take_ice-candidates id c q there e.0 (clean (find_peer id h.peers) refl)
    ∙ ap (λ s. s ++ c ∷ [])
        (ap₂ (λ os ws. given_to id os ++ ws) e.1
          (ap waiting e.0 ∙ waiting-ensured id (find_peer id h.peers)))
  where
    there : PeerHub
    there = ensure_peer id false h

    q : PeerEntry
    q = ensured id false (find_peer id h.peers)

    e : (find_peer id there.peers ≡ some q) × (there.out ≡ h.out)
    e = find_peer-ensure id false h

    clean :
        (o : Option PeerEntry)
        → find_peer id h.peers ≡ o
        → (ensured id false o).remote_set ≡ true
        → (ensured id false o).pending_ice ≡ []
    clean none k t = refl
    clean (some p) k t = d p k t

drain_ice-find :
    (id : Str) (p : PeerEntry) (h : PeerHub)
    → find_peer id h.peers ≡ some p
    → (find_peer id (drain_ice id h).peers ≡ some (record p { pending_ice = [] }))
      × ((drain_ice id h).out ≡ h.out ++ drained id p.pending_ice)
unfolding drain_ice tell
drain_ice-find id p h e =
    let u =
      update_peer-find id (λ q. record q { pending_ice = [] }) p (tell (drained id p.pending_ice) h)
        (λ q. refl) e in
    (ap (λ (g : PeerHub). find_peer id g.peers) same ∙ u.0, ap (λ (g : PeerHub). g.out) same ∙ u.1)
  where
    same :
        drain_ice id h
        ≡ update_peer id (λ q. record q { pending_ice = [] }) (tell (drained id p.pending_ice) h)
    same =
        ap
          (λ (o : Option PeerEntry). elim o as (λ x. PeerHub) [
            | none ↦ h
            | some q ↦
                update_peer id (λ z. record z { pending_ice = [] })
                  (tell (drained id q.pending_ice) h)
          ])
          e

-- The answer of a known peer gives the browser all waiting candidates in their order, and none
-- waits from then on.
pub add_remote_answer-candidates :
    (id sdp : Str) (h : PeerHub) (p : PeerEntry)
    → find_peer id h.peers ≡ some p
    → let g = add_remote_answer id sdp h in
      (given_to id g.out ≡ given_to id h.out ++ p.pending_ice)
      × (waiting (find_peer id g.peers) ≡ [])
      × (is_ready (find_peer id g.peers) ≡ true)
unfolding add_remote_answer set_remote_description tell is_ready
add_remote_answer-candidates id sdp h p e = (
  ap (λ (g : PeerHub). given_to id g.out) same
      ∙ ap (given_to id) d.1
      ∙ given_to-append id (h.out ++ set_remote id sdp ∷ []) (drained id p.pending_ice)
      ∙ ap₂ ◌++◌
          (given_to-append id h.out (set_remote id sdp ∷ []) ∙ append-nil (given_to id h.out))
          (given_to-drained id p.pending_ice),
  ap (λ (g : PeerHub). waiting (find_peer id g.peers)) same ∙ ap waiting d.0,
  ap (λ (g : PeerHub). is_ready (find_peer id g.peers)) same ∙ ap is_ready d.0,
)
  where
    ready : PeerHub
    ready = update_peer id (λ q. record q { remote_set = true }) (tell (set_remote id sdp ∷ []) h)

    same : add_remote_answer id sdp h ≡ drain_ice id ready
    same =
        ap
          (λ (o : Option PeerEntry). elim o as (λ x. PeerHub) [
            | none ↦ h
            | some q ↦ drain_ice id ready
          ])
          e

    d :
        (find_peer id (drain_ice id ready).peers
          ≡ some (record p { remote_set = true; pending_ice = [] }))
        × ((drain_ice id ready).out ≡ (h.out ++ set_remote id sdp ∷ []) ++ drained id p.pending_ice)
    d =
        drain_ice-find id (record p { remote_set = true }) ready
          (update_peer-find id (λ q. record q { remote_set = true }) p
            (tell (set_remote id sdp ∷ []) h) (λ q. refl) e).0
