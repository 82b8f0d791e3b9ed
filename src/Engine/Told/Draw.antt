-- ===== src/Engine/Told/Draw.antt =====
-- frontend/p2p/engine.ts, `prepareRoundServer`: the role that the answer to a draw makes known, and
-- every step of the engine.
use fakeartist.Prelude.{
  ℕ, List, [], ◌∷◌, Bool, true, false, ◌||◌, none, some, Str, ◌≡◌, refl, sym, ◌∙◌, ap, arith, All,
  map, ◌==◌, Bool-cases, inl, inr, length, subst, str_discrete, if◌then◌else◌, includes, is_empty,
  drop,
}
use fakeartist.Prelude.Members.{passed}
use fakeartist.Models.{Round}
use fakeartist.Engine.State.{
  Env, Engine, Assignment, DrawResponse, drawn, failed, PendingDraw, emit_direct, emit,
}
use fakeartist.Engine.Round.{
  secrets_of, assignment_of, or_none, tell_host, take_draw, finish_draw, fresh_round, use_card,
}
use fakeartist.Engine.Random.{shuffle}
use fakeartist.Engine.Secrecy.{IsDiscreet}
use fakeartist.Engine.Invariant.Run.{Step, command, answer, Reach, Reach-Discreet, next}
use fakeartist.Engine.Told.{IsTold, IsRoleIn, New, New-snoc, nothing-New, Told}
use fakeartist.Engine.Told.Calls.{dispatch-Told}

-- The server's documented answer: one of those who are assigned a role is the fake, and has no word.
pub record IsOneFake (given : List (Str × Assignment)) : Type 0 where
  pub fake : Str
  pub listed : includes (map (λ (a : Str × Assignment). a.0) given) fake ≡ true
  pub roles :
      All
        (λ (a : Str × Assignment).
          (a.1.is_fake ≡ (a.0 == fake)) × ((a.0 == fake) ≡ true → a.1.word ≡ none))
        given

abbrev RolesFor : Str → List (Str × Assignment) → Type 0
RolesFor fake given =
    All
      (λ (a : Str × Assignment).
        (a.1.is_fake ≡ (a.0 == fake)) × ((a.0 == fake) ≡ true → a.1.word ≡ none))
      given

or_true : (a b : Bool) → b ≡ true → (a || b) ≡ true
or_true true b h = refl
or_true false b h = h

either : (a b : Bool) → a ≡ true → (a || b) ≡ true
either true b h = refl
either false b h = cc

-- What `secrets_of` has after one assignment.
abbrev after_one : Str → Assignment → Str × Str → Str × Str
after_one pid a (fake, word) = if a.is_fake then (pid, word) else elim a.word [
  | none ↦ (fake, word)
  | some w ↦ if is_empty w then (fake, word) else (fake, w)
]

after_one-fake :
    (pid : Str) (a : Assignment) (s : Str × Str)
    → (after_one pid a s).0 ≡ (if a.is_fake then pid else s.0)
after_one-fake pid a s = ground arith

-- The last player who is named the fake is the fake.
named :
    (fake : Str) (given : List (Str × Assignment)) (s : Str × Str)
    → RolesFor fake given
    → (includes (map (λ (a : Str × Assignment). a.0) given) fake || s.0 == fake) ≡ true
    → (secrets_of given s).0 ≡ fake
unfolding secrets_of
named fake [] s r h = passed (str_discrete s.0 fake) h
named fake ((pid, a) ∷ given) s r h = named fake given (after_one pid a s) r.1 still
  where
    rest : Bool
    rest = includes (map (λ (a : Str × Assignment). a.0) given) fake

    chosen :
        (b : Bool)
        → ((b || rest) || s.0 == fake) ≡ true
        → (pid == fake) ≡ b
        → (rest || (if b then pid else s.0) == fake) ≡ true
    chosen true k q = or_true rest (pid == fake) q
    chosen false k q = k

    still : (rest || (after_one pid a s).0 == fake) ≡ true
    still =
        subst (λ x. (rest || x == fake) ≡ true)
          (sym (after_one-fake pid a s ∙ ap (λ b. if b then pid else s.0) r.0.0))
          (chosen (pid == fake) h refl)

role_in :
    (fake pid id : Str) (a : Assignment) (r : Round)
    → (a.is_fake ≡ (pid == fake)) × ((pid == fake) ≡ true → a.word ≡ none)
    → (pid == id) ≡ true
    → r.fake_id ≡ some fake
    → IsRoleIn (some r) id (record { is_fake = a.is_fake; word = a.word })
role_in fake pid id a r k t f = rw f (
    subst (λ x. (a.is_fake ≡ (x == fake)) × ((x == fake) ≡ true → a.word ≡ none))
      (passed (str_discrete pid id) t) k)

tell_host-New :
    (n : ℕ) (fake from : Str) (given : List (Str × Assignment)) (r : Round) (e : Engine)
    → RolesFor fake given
    → r.fake_id ≡ some fake
    → New (IsTold (some r)) n e.out
    → New (IsTold (some r)) n (tell_host from (assignment_of from given) e).out
unfolding tell_host assignment_of emit_direct emit
tell_host-New n fake from [] r e roles f h = h
tell_host-New n fake from ((pid, a) ∷ given) r e roles f h = elim (Bool-cases (pid == from)) [
  | inl t ↦
      rw (t, assignment_of)
        (New-snoc (IsTold (some r)) n e.out _ (role_in fake pid from a r roles.0 t f) h)
  | inr t ↦ rw (t, assignment_of) (tell_host-New n fake from given r e roles.1 f h)
]

finish_draw-Told :
    (env : Env) (req : PendingDraw) (res : DrawResponse) (e : Engine)
    → IsOneFake (or_none res.assignments)
    → Told (length e.out) (finish_draw env req (drawn res) e)
unfolding finish_draw take_draw fresh_round
finish_draw-Told env req res e k =
    let given = or_none res.assignments in
    let f : (secrets_of given ([], [])).0 ≡ k.fake =
      named k.fake given ([], []) k.roles (either _ _ k.listed) in
    let order = (shuffle env e.calls req.players).0 in
    let r = fresh_round req.round_index res.card_id (secrets_of given ([], [])).0 order in
    let marked : Engine = record e {
      state = record e.state { pool = use_card res.card_id e.state.pool };
      calls = (shuffle env e.calls req.players).1;
    } in
    New-snoc (IsTold (some r)) (length e.out) (take_draw env req res e).out _ tt (
      tell_host-New (length e.out) k.fake req.from given r marked k.roles (ap some f)
        (nothing-New (IsTold (some r)) e.out))

failed-Told :
    (env : Env) (req : PendingDraw) (message : Str) (e : Engine)
    → Told (length e.out) (finish_draw env req (failed message) e)
unfolding finish_draw
failed-Told env req message e =
    New-snoc (IsTold e.state.current_round) (length e.out) e.out _ tt
      (nothing-New (IsTold e.state.current_round) e.out)

-- The answer, where the step is one, has one fake.
abbrev pub IsServed : {env : Env} {e f : Engine} → Step env e f → Type 0
IsServed (command c from n) = Unit
IsServed (answer req (failed message) u n f) = Unit
IsServed (answer req (drawn res) u n f) = IsOneFake (or_none res.assignments)

pub Step-Told : {env : Env} {e f : Engine} (s : Step env e f) → IsServed s → Told (length e.out) f
Step-Told (command c from n) k = dispatch-Told _ c from _
Step-Told (answer req (failed message) u n f) k = failed-Told _ req message _
Step-Told (answer req (drawn res) u n f) k = finish_draw-Told _ req res _ k

-- What has been sent so far is discreet, and the roles that were told since the first `n` outputs are
-- those of the round.
pub record KeepsSecrets (n : ℕ) (e : Engine) : Type 0 where
  pub discreet : All IsDiscreet e.out
  pub told : All (IsTold e.state.current_round) (drop n e.out)

-- If all that was sent so far is discreet, then after every sequence of commands of named senders
-- and of answers to draws as the server documents them, and one more step, of a command or of an
-- answer with one fake among those who are assigned a role: every state that was sent is public
-- and went to all, every stroke went to all and everything else to one player, and each role that
-- the last step told went to a player of whom it says rightly whether that player is the fake of
-- the round that the step leaves, and has no word if it is.
pub Reach-KeepsSecrets :
    {env : Env} {e f g : Engine}
    → All IsDiscreet e.out
    → Reach env e f
    → (s : Step env f g) → IsServed s
    → KeepsSecrets (length f.out) g
unfolding New
Reach-KeepsSecrets h r s k = record {
  discreet = Reach-Discreet h (next r s);
  told = (Step-Told s k).1;
}
