-- ===== src/Session/Lost.antt =====
-- frontend/components/P2pGameProvider.jsx, `promoteSelfToHost`: the new host does not know the fake.
use fakeartist.Prelude.{
  List, [], ◌∷◌, false, Option, none, some, Str, ◌≡◌, ◌≢◌, refl, sym, subst, ◌∙◌, arith, ◌⊎◌, inl,
  inr, Bool-cases, includes, ◌&&◌,
}
use fakeartist.Models.{GameStatus, GameState, Round, voting, fake_guessing}
use fakeartist.Protocol.{cast_vote}
use fakeartist.Sanitize.Secrecy.{IsPublic, IsOpen}
use fakeartist.Engine.State.{Engine, set_status, set_round, broadcast_state}
use fakeartist.Engine.Round.{finalize_round}
use fakeartist.Engine.Play.{handle_cast_vote, record_vote, close_voting, with_vote}
use fakeartist.Engine.Tally.{tally_votes}
use fakeartist.Engine.Dispatch.{dispatch}
use fakeartist.Log.{Database}
use fakeartist.Session.{World}
use fakeartist.Session.Guest.{Guest}
use fakeartist.Session.Host.{Host, host_dispatch}
use fakeartist.Session.Switch.{promote}
use fakeartist.Session.Frame.{settle-Stays}
use fakeartist.Session.Succession.{promote-Succeeds}

vote_status : (s : GameStatus) → (s ≡ voting) ⊎ (s ≢ voting)
vote_status voting = inl refl
vote_status _ = inr (λ e. cc)

still-IsOpen : (s : GameState) → s.status ≡ voting → IsOpen s.status
still-IsOpen s v = ((λ e. grind (arith, v, e)), (λ e. grind (arith, v, e)))

-- No round has a fake, and no fake is asked.
pub record IsFakeless (s : GameState) : Type 0 where
  pub round : (r : Round) → s.current_round ≡ some r → r.fake_id ≡ none
  pub status : s.status ≢ fake_guessing

-- Without a fake nobody is caught, whatever the votes.
uncaught : (r : Round) → r.fake_id ≡ none → (tally_votes r).caught ≡ false
unfolding tally_votes
uncaught r h = grind (arith, h)

record_vote-IsFakeless :
    (suspect from : Str) (r : Round) (e : Engine)
    → r.fake_id ≡ none
    → IsFakeless e.state
    → IsFakeless (record_vote suspect from r e).state
unfolding record_vote close_voting with_vote set_round set_status broadcast_state finalize_round
record_vote-IsFakeless suspect from r e h k = record {
  round = λ q c. grind (arith, h, k.round, uncaught);
  status = grind (arith, h, k.status, uncaught);
}

-- A vote does nothing, or is counted in the round.
handle_cast_vote-cases :
    (suspect from : Str) (e : Engine)
    → (handle_cast_vote suspect from e ≡ e)
      ⊎ ((r : Round) × (e.state.current_round ≡ some r)
          × (handle_cast_vote suspect from e ≡ record_vote suspect from r e))
unfolding handle_cast_vote
handle_cast_vote-cases suspect from e = in_round e.state.current_round refl
  where
    in_round :
        (o : Option Round)
        → e.state.current_round ≡ o
        → (handle_cast_vote suspect from e ≡ e)
          ⊎ ((r : Round) × (e.state.current_round ≡ some r)
              × (handle_cast_vote suspect from e ≡ record_vote suspect from r e))
    in_round none h = inl (ground (arith, h))
    in_round (some r) h =
        elim (Bool-cases (includes r.turn_order from && includes r.turn_order suspect)) [
          | inl b ↦ elim (vote_status e.state.status) [
            | inl v ↦ inr (r, h, ground (arith, h, b, v))
            | inr v ↦ inl (ground (arith, v))
          ]
          | inr b ↦ inl (ground (arith, h, b))
        ]

handle_cast_vote-IsFakeless :
    (suspect from : Str) (e : Engine)
    → IsFakeless e.state
    → IsFakeless (handle_cast_vote suspect from e).state
handle_cast_vote-IsFakeless suspect from e k = elim (handle_cast_vote-cases suspect from e) [
  | inl h ↦ subst (λ (f : Engine). IsFakeless f.state) (sym h) k
  | inr (r, c, h) ↦
      subst (λ (f : Engine). IsFakeless f.state) (sym h)
        (record_vote-IsFakeless suspect from r e (k.round r c) k)
]

-- The votes that reach the host, with their senders.
unfoldable pub take_votes : World → List (Str × Str) → Host → Host
unfolding host_dispatch
take_votes w [] h = h
take_votes w ((from, suspect) ∷ vs) h = take_votes w vs (host_dispatch w (cast_vote suspect) from h)

take_votes-IsFakeless :
    (w : World) (vs : List (Str × Str)) (h : Host)
    → IsFakeless h.engine.state
    → IsFakeless (take_votes w vs h).engine.state
unfolding take_votes dispatch
take_votes-IsFakeless w [] h k = k
take_votes-IsFakeless w ((from, suspect) ∷ vs) h k =
    take_votes-IsFakeless w vs (host_dispatch w (cast_vote suspect) from h) (
      subst (λ (e : Engine). IsFakeless e.state)
        (sym (settle-Stays w (handle_cast_vote suspect from h.engine) h).engine)
        (handle_cast_vote-IsFakeless suspect from h.engine k))

-- After a guest is promoted in voting, from a public state with players, no sequence of votes
-- ever makes the fake guess: nobody is caught.
pub take_votes_promoted :
    (w : World) (db : Database) (g : Guest) (s : GameState) (vs : List (Str × Str))
    → g.replica.state ≡ some s
    → s.players ≢ []
    → s.status ≡ voting
    → IsPublic s
    → (take_votes w vs (promote w db g)).engine.state.status ≢ fake_guessing
take_votes_promoted w db g s vs h n v public =
    let q = (promote-Succeeds w db g s h n).state in
    (take_votes-IsFakeless w vs (promote w db g) (record {
      round = λ r c. (public.secrets r (sym q.round ∙ c) (still-IsOpen s v)).1;
      status = λ e. grind (arith, q.status, v, e);
    })).status
