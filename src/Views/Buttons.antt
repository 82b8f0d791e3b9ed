-- ===== src/Views/Buttons.antt =====
-- frontend/components against frontend/p2p/engine.ts: the buttons and what the engine answers.
use fakeartist.Prelude.{
  List, [], ◌∷◌, Bool, true, false, not, ◌&&◌, Option, none, some, Str, ◌==◌, ◌≡◌, ◌≢◌, ◌↔◌, refl,
  All, Bool-cases, leb, subst, inl, inr, some_is, is_empty, keep_if, includes, ltb, length,
  str_discrete, sym, if◌then◌else◌,
}
use fakeartist.Prelude.Members.{eq_comm, passed, refused, includes-all, All-keep_if}
use fakeartist.Models.{Votes, GameStatus, Player, Round, GameState, lobby, writing, voting}
use fakeartist.Protocol.{start_game}
use fakeartist.Sanitize.{sanitize, sanitize_round, strip_round}
use fakeartist.Engine.State.{Env, Engine, require_host, emit_error, set_status, broadcast_state}
use fakeartist.Engine.Play.{
  handle_cast_vote, record_vote, close_voting, with_vote, set_vote, or_no_votes,
}
use fakeartist.Engine.State.{set_round, emit_broadcast, emit}
use fakeartist.Prelude.{arith, subst}
use fakeartist.Engine.Round.{finalize_round}
use fakeartist.Engine.Tally.{tally_votes}
use fakeartist.Engine.Dispatch.{dispatch, handle_start_game}
use fakeartist.Views.{vote_of, lobby_is_admin, can_start, choices}

abbrev enough : Engine → Bool
enough e = not (ltb (length e.state.players) e.state.config.min_players)

-- What START_GAME does to the status in the lobby.
start_game-status :
    (e : Engine) (me : Str)
    → e.state.status ≡ lobby
    → (handle_start_game me e).state.status
      ≡ (if (me == e.state.host_id) && enough e then writing else lobby)
unfolding handle_start_game require_host emit_error set_status broadcast_state
start_game-status e me h = elim (Bool-cases (me == e.state.host_id)) [
  | inl t ↦ elim (Bool-cases (ltb (length e.state.players) e.state.config.min_players)) [
    | inl s ↦ rw (h, t, s) h
    | inr s ↦ rw (h, t, s) refl
  ]
  | inr t ↦ rw (h, t) refl
]

eq-not_empty : (s t : Str) → (s == t) ≡ true → s ≢ [] → is_empty t ≡ false
eq-not_empty s [] h n = absurd (n (passed (str_discrete s []) h))
eq-not_empty s (c ∷ t) h n = refl

nobody : (a b : Bool) → ((a && false) && b) ≡ false
nobody true b = refl
nobody false b = refl

can_start-enough :
    (e : Engine) (me : Str)
    → me ≢ []
    → can_start (sanitize e.state) (some me) ≡ ((me == e.state.host_id) && enough e)
unfolding can_start lobby_is_admin sanitize
can_start-enough e me n = elim (Bool-cases (me == e.state.host_id)) [
  | inl t ↦ rw (t, eq-not_empty me e.state.host_id t n, sym (eq_comm me e.state.host_id), t) refl
  | inr t ↦
      rw (t, sym (eq_comm me e.state.host_id), t)
        (nobody (not (is_empty e.state.host_id)) (enough e))
]

status_iff : (b : Bool) → (b ≡ true) ↔ ((if b then writing else lobby) ≡ writing)
status_iff true = (λ h. refl, λ h. refl)
status_iff false = (λ h. cc, λ h. cc)

-- In the lobby, the start button is enabled for exactly the player whose START_GAME the engine
-- obeys, if that player has an id.
pub can_start_iff :
    (env : Env) (e : Engine) (me : Str)
    → e.state.status ≡ lobby
    → me ≢ []
    → (can_start (sanitize e.state) (some me) ≡ true)
      ↔ ((dispatch env start_game me e).state.status ≡ writing)
unfolding dispatch
can_start_iff env e me h n =
    rw (can_start-enough e me n, start_game-status e me h)
      (status_iff ((me == e.state.host_id) && enough e))

counted :
    (e : Engine) (me c : Str) (r : Round)
    → e.state.status ≡ voting
    → e.state.current_round ≡ some r
    → includes r.turn_order me ≡ true
    → includes r.turn_order c ≡ true
    → handle_cast_vote c me e ≡ record_vote c me r e
unfolding handle_cast_vote
counted e me c r h q m n = go e.state.status e.state.current_round h q
  where
    go :
        (s : GameStatus) (o : Option Round)
        → s ≡ voting
        → o ≡ some r
        → elim s as (λ _. Engine) [
          | voting ↦ elim o as (λ _. Engine) [
            | none ↦ e
            | some r ↦
                if includes r.turn_order me && includes r.turn_order c
                then record_vote c me r e
                else e
          ]
          | _ ↦ e
        ]
          ≡ record_vote c me r e
    go s o h q = rw (h, q, m, n) refl

abbrev is_offered : List Player → Str → Str → Bool
is_offered ps me pid = not (pid == me) && some_is (λ (p : Player). p.id == pid) ps

choices-voting :
    (s : GameState) (me : Str) (r : Round)
    → s.status ≡ voting
    → s.current_round ≡ some r
    → choices (sanitize s) (some me) ≡ keep_if (is_offered s.players me) r.turn_order
unfolding choices sanitize sanitize_round strip_round
choices-voting s me r h q = rw (q, h) refl

is_offered-others : (ps : List Player) (me c : Str) → is_offered ps me c ≡ true → c ≢ me
is_offered-others ps me c h = refused (str_discrete c me) (some_is (λ (p : Player). p.id == c) ps) h

vote_of-set_vote : (me c : Str) (vs : Votes) → vote_of (some (set_vote me c vs)) me ≡ some c
unfolding vote_of set_vote
vote_of-set_vote me c [] = ground arith
vote_of-set_vote me c ((v, s) ∷ vs) = elim (Bool-cases (v == me)) [
  | inl t ↦ rw t (rw t refl)
  | inr t ↦ rw t (rw t (vote_of-set_vote me c vs))
]

-- The engine's round has this vote of this player.
pub record Holds (me c : Str) (e : Engine) : Type 0 where
  pub round : Round
  pub current : e.state.current_round ≡ some round
  pub vote : vote_of round.votes me ≡ some c

record_vote-Holds : (me c : Str) (r : Round) (e : Engine) → Holds me c (record_vote c me r e)
unfolding record_vote close_voting finalize_round with_vote set_round set_status broadcast_state
    emit_broadcast emit
record_vote-Holds me c r e =
    let vote = vote_of-set_vote me c (or_no_votes r.votes) in
    let voted = with_vote me c r in
    elim (Bool-cases (leb (length voted.turn_order) voted.votes_cast)) [
      | inl t ↦ elim (Bool-cases (tally_votes voted).caught) [
        | inl k ↦ rw (t, k) (record { round = voted; current = refl; vote = vote })
        | inr k ↦ rw (t, k) (record { round = _; current = refl; vote = vote })
      ]
      | inr t ↦ rw t (record { round = voted; current = refl; vote = vote })
    ]

-- In voting, the page of a participant offers only other players, and after each of these votes
-- the engine has a current round in which the vote of the participant is the one it gave. The
-- same goes for a vote of the participant for itself, which the page does not offer.
pub choices-Holds :
    (e : Engine) (me : Str) (r : Round)
    → e.state.status ≡ voting
    → e.state.current_round ≡ some r
    → includes r.turn_order me ≡ true
    → All
        (λ c. (c ≢ me) × Holds me c (handle_cast_vote c me e))
        (choices (sanitize e.state) (some me))
      × Holds me me (handle_cast_vote me me e)
choices-Holds e me r h q m = (
  rw (choices-voting e.state me r h q) (
      All-keep_if _ (is_offered e.state.players me) r.turn_order
        (each r.turn_order (includes-all r.turn_order))),
  held me m,
)
  where
    held : (c : Str) → includes r.turn_order c ≡ true → Holds me c (handle_cast_vote c me e)
    held c n = subst (Holds me c) (sym (counted e me c r h q m n)) (record_vote-Holds me c r e)

    each :
        (cs : List Str)
        → All (λ c. includes r.turn_order c ≡ true) cs
        → All
            (λ c.
              is_offered e.state.players me c ≡ true
              → (c ≢ me) × Holds me c (handle_cast_vote c me e))
            cs
    each [] a = tt
    each (c ∷ cs) a = (λ o. (is_offered-others e.state.players me c o, held c a.0), each cs a.1)
