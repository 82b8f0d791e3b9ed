-- ===== src/Engine/Tally/Plurality.antt =====
-- frontend/p2p/engine.ts, `tallyVotes`: the fake is caught by a strict plurality.
use fakeartist.Prelude.{
  ℕ, ◌+◌, ◌<◌, List, [], ◌∷◌, Bool, true, false, some, Str, ◌≡◌, ◌≢◌, refl, ap, sym, ◌∙◌, subst,
  arith, ◌==◌, if◌then◌else◌, str_discrete,
}
use fakeartist.Models.{Round}
use mathlib.Core.Path.{fun_ext}
use fakeartist.Prelude.{hit, count, ◌↔◌}
use fakeartist.Engine.State.{is_id}
use fakeartist.Engine.Tally.{
  Counts, count_vote, count_votes, Lead, lead_step, lead_of, suspects, tally_votes,
}
use fakeartist.Engine.Tally.Leads.{Leads, plus, Leads-lead_step}

-- `counts.get(x) || 0`
get_count : Str → Counts → ℕ
get_count x [] = 0
get_count x ((t, n) ∷ m) = if t == x then n else get_count x m

Absent : Str → Counts → Type 0
Absent x [] = Unit
Absent x ((t, n) ∷ m) = (t ≢ x) × Absent x m

-- Each key stands once, with a positive count.
IsCounts : Counts → Type 0
IsCounts [] = Unit
IsCounts ((t, n) ∷ m) = (0 < n) × Absent t m × IsCounts m

get_count-count_vote :
    (x s : Str) (m : Counts) → get_count x (count_vote s m) ≡ get_count x m + hit x s
unfolding get_count count_vote
get_count-count_vote x s [] = ground arith
get_count-count_vote x s ((t, n) ∷ m) = ground (arith, get_count-count_vote x s m)

get_count-count_votes :
    (x : Str) (ss : List Str) (m : Counts)
    → get_count x (count_votes ss m) ≡ get_count x m + count x ss
unfolding count_votes count
get_count-count_votes x [] m = omega arith
get_count-count_votes x (s ∷ ss) m =
    omega (arith, get_count-count_votes x ss (count_vote s m), get_count-count_vote x s m)

Absent-count_vote : (x s : Str) (m : Counts) → s ≢ x → Absent x m → Absent x (count_vote s m)
unfolding Absent count_vote
Absent-count_vote x s [] h a = (h, tt)
Absent-count_vote x s ((t, n) ∷ m) h a = ground (arith, Absent-count_vote x s m)

IsCounts-count_vote : (s : Str) (m : Counts) → IsCounts m → IsCounts (count_vote s m)
unfolding IsCounts count_vote Absent
IsCounts-count_vote s [] c = (omega arith, tt, tt)
IsCounts-count_vote s ((t, n) ∷ m) c =
    ground (arith, Absent-count_vote t s m, IsCounts-count_vote s m)

IsCounts-count_votes : (ss : List Str) (m : Counts) → IsCounts m → IsCounts (count_votes ss m)
unfolding count_votes
IsCounts-count_votes [] m c = c
IsCounts-count_votes (s ∷ ss) m c = IsCounts-count_votes ss _ (IsCounts-count_vote s m c)

get_count_of_Absent : (x : Str) (m : Counts) → Absent x m → get_count x m ≡ 0
unfolding Absent get_count
get_count_of_Absent x [] a = refl
get_count_of_Absent x ((t, n) ∷ m) a = ground (arith, get_count_of_Absent x m a.1)

-- The first count, moved to what has been seen.
plus-get_count :
    (g : Str → ℕ) (t x : Str) (n : ℕ) (m : Counts)
    → Absent t m
    → plus g t n x + get_count x m ≡ g x + get_count x ((t, n) ∷ m)
unfolding get_count
plus-get_count g t x n m a = elim (str_discrete t x) [
  | yes q ↦ ground (arith, get_count_of_Absent t m a, ap (λ y. get_count y m) q)
  | no q ↦ ground arith
]

fresh_before :
    (g : Str → ℕ) (t x : Str) (n : ℕ) (m : Counts)
    → Absent t m
    → (0 < get_count x ((t, n) ∷ m) → g x ≡ 0)
    → 0 < get_count x m
    → plus g t n x ≡ 0
unfolding get_count
fresh_before g t x n m a z h = elim (str_discrete t x) [
  | yes q ↦ absurd (omega (arith, get_count_of_Absent t m a, ap (λ y. get_count y m) q))
  | no q ↦ ground arith
]

get_count_self : (t : Str) (n : ℕ) (m : Counts) → get_count t ((t, n) ∷ m) ≡ n
unfolding get_count
get_count_self t n m = ground arith

Leads-lead_of :
    (g : Str → ℕ) (m : Counts) (l : Lead)
    → Leads g l
    → IsCounts m
    → ((x : Str) → 0 < get_count x m → g x ≡ 0)
    → Leads (λ x. g x + get_count x m) (lead_of m l)
unfolding lead_of IsCounts
Leads-lead_of g [] l k c z = subst (λ f. Leads f l) (fun_ext (nothing g)) k
  where
    nothing : (f : Str → ℕ) (x : Str) → f x ≡ f x + get_count x []
    nothing f x = unfold get_count in omega arith
Leads-lead_of g ((t, n) ∷ m) l k c z =
    let new : g t ≡ 0 = z t (rw get_count_self c.0) in
    subst (λ f. Leads f (lead_of m (lead_step t n l))) (fun_ext (λ x. plus-get_count g t x n m c.1))
      (Leads-lead_of (plus g t n) m (lead_step t n l) (Leads-lead_step g l t n k c.0 new) c.2
        (λ x. fresh_before g t x n m c.1 (z x)))

abbrev no_lead : Lead
no_lead = record { max = 0; winner_id = []; tied = false }

no_lead-Leads : Leads (λ _. 0) no_lead
no_lead-Leads = record {
  upper = λ x. omega arith;
  one = λ _ h. absurd (omega arith);
  two = λ e. cc;
}

lead : List Str → Lead
lead ss = lead_of (count_votes ss []) no_lead

counted : (x : Str) (ss : List Str) → 0 + get_count x (count_votes ss []) ≡ count x ss
unfolding get_count
counted x ss = omega (arith, get_count-count_votes x ss [])

lead-Leads : (ss : List Str) → Leads (λ x. count x ss) (lead ss)
unfolding lead IsCounts
lead-Leads ss =
    subst (λ f. Leads f (lead_of (count_votes ss []) no_lead)) (fun_ext (λ x. counted x ss))
      (Leads-lead_of (λ _. 0) (count_votes ss []) no_lead no_lead-Leads
        (IsCounts-count_votes ss [] tt) (λ x _. refl))

count_some : (s : Str) (ss : List Str) → 0 < count s (s ∷ ss)
unfolding count
count_some s ss = ground arith

lead-max : (ss : List Str) → ss ≢ [] → 0 < (lead ss).max
lead-max [] h = absurd (h refl)
lead-max (s ∷ ss) h = omega (arith, (lead-Leads (s ∷ ss)).upper s, count_some s ss)

-- Strictly more votes than anybody else.
abbrev pub HasPlurality : Str → List Str → Type 0
HasPlurality x ss = (y : Str) → y ≢ x → count y ss < count x ss

tally_votes-caught :
    (r : Round)
    → (tally_votes r).caught ≡ (
        if (lead (suspects r.votes)).tied
        then false
        else is_id r.fake_id (lead (suspects r.votes)).winner_id)
unfolding tally_votes lead
tally_votes-caught r = ground arith

module _ (ss : List Str) (fake : Str) (h : HasPlurality fake ss) where
  at_top : (a : Str) → count a ss ≡ (lead ss).max → a ≡ fake
  at_top a e = elim (str_discrete a fake) [
    | yes q ↦ q
    | no q ↦ absurd (omega (arith, h a q, (lead-Leads ss).upper fake))
  ]

  not_tied : (b : Bool) → (lead ss).tied ≡ b → b ≡ false
  not_tied false e = refl
  not_tied true e =
      let (a, b, ne, ga, gb, m) = (lead-Leads ss).two e in
      absurd (ne (at_top a ga ∙ sym (at_top b gb)))

  winner_is_fake : ss ≢ [] → (lead ss).winner_id ≡ fake
  winner_is_fake n = at_top _ ((lead-Leads ss).one (not_tied (lead ss).tied refl) (lead-max ss n)).0

wins :
    (ss : List Str) (fake : Str)
    → ss ≢ []
    → (lead ss).tied ≡ false
    → (lead ss).winner_id ≡ fake
    → HasPlurality fake ss
wins ss fake n t w y ne =
    let top = (lead-Leads ss).one t (lead-max ss n) in
    let less = top.1 y (λ q. ne (q ∙ w)) in omega (arith, less, top.0, ap (λ x. count x ss) w)

-- In a round with a fake and at least one vote, the tally says that the fake is caught exactly
-- when strictly more votes name the fake than any other player.
pub tally_votes-HasPlurality :
    (r : Round) (fake : Str)
    → r.fake_id ≡ some fake
    → suspects r.votes ≢ []
    → ((tally_votes r).caught ≡ true) ↔ HasPlurality fake (suspects r.votes)
tally_votes-HasPlurality r fake e n =
    let ss = suspects r.votes in
    (
      λ c. let d = sym (tally_votes-caught r) ∙ c in wins ss fake n (ground arith) (ground arith),
      λ h.
          tally_votes-caught r
          ∙ ground (arith, not_tied ss fake h (lead ss).tied refl, winner_is_fake ss fake h n),
    )
