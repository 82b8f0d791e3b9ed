-- ===== src/Engine/Tally/Leads.antt =====
-- frontend/p2p/engine.ts, `tallyVotes`: what the loop over the counts keeps.
use fakeartist.Prelude.{
  ℕ, ◌+◌, ◌≤◌, ◌<◌, Bool, true, false, Str, ◌≡◌, ◌≢◌, refl, ap, sym, ◌∙◌, subst, arith, ◌==◌,
  if◌then◌else◌, str_discrete,
}
use fakeartist.Prelude.{dec_lt, ℕ_discrete, lt→ltb}
use fakeartist.Engine.Tally.{Lead, lead_step}

-- What the loop knows when it has seen the counts `g`.
pub record Leads (g : Str → ℕ) (l : Lead) : Type 0 where
  pub upper : (x : Str) → g x ≤ l.max
  pub one :
      l.tied ≡ false
      → 0 < l.max
      → (g l.winner_id ≡ l.max) × ((x : Str) → x ≢ l.winner_id → g x < l.max)
  pub two :
      l.tied ≡ true → (a : Str) × (b : Str) × (a ≢ b) × (g a ≡ l.max) × (g b ≡ l.max) × (0 < l.max)

abbrev pub plus : (Str → ℕ) → Str → ℕ → Str → ℕ
plus g id n x = g x + (if id == x then n else 0)

plus_self : (g : Str → ℕ) (id : Str) (n : ℕ) → plus g id n id ≡ g id + n
plus_self g id n = ground arith

plus_other : (g : Str → ℕ) (id x : Str) (n : ℕ) → id ≢ x → plus g id n x ≡ g x
plus_other g id x n h = ground arith

module _ (g : Str → ℕ) (l : Lead) (id : Str) (n : ℕ) (k : Leads g l) (p : 0 < n)
    (z : g id ≡ 0) where
  plus_bound : (x : Str) (b : ℕ) → g x ≤ b → n ≤ b → plus g id n x ≤ b
  plus_bound x b h m = elim (str_discrete id x) [
    | yes q ↦ ground (arith, ap g q)
    | no q ↦ rw (plus_other g id x n q) h
  ]

  Leads-above : l.max < n → Leads (plus g id n) (record { max = n; winner_id = id; tied = false })
  Leads-above h = record {
    upper = λ x. ground (arith, k.upper x);
    one = λ _ _. (ground arith, λ x ne. ground (arith, k.upper x));
    two = λ e. cc;
  }

  -- The winner so far is another one than `id`.
  other_winner : l.tied ≡ false → 0 < l.max → id ≢ l.winner_id
  other_winner u m e = omega (arith, (k.one u m).0, ap g e)

  second :
      n ≡ l.max
      → (b : Bool) → l.tied ≡ b
      → (a : Str) × (b : Str) × (a ≢ b)
        × (plus g id n a ≡ l.max)
        × (plus g id n b ≡ l.max)
        × (0 < l.max)
  second h true e =
      let (a, b, ne, ga, gb, m) = k.two e in
      (
        a,
        b,
        ne,
        plus_other g id a n (λ q. omega (arith, ap g q)) ∙ ga,
        plus_other g id b n (λ q. omega (arith, ap g q)) ∙ gb,
        m,
      )
  second h false e =
      let m : 0 < l.max = omega arith in
      let ne = other_winner e m in
      (
        l.winner_id,
        id,
        λ q. ne (sym q),
        plus_other g id l.winner_id n ne ∙ (k.one e m).0,
        ground arith,
        m,
      )

  Leads-level : n ≡ l.max → Leads (plus g id n) (record l { tied = true })
  Leads-level h = record {
    upper = λ x. plus_bound x l.max (k.upper x) (omega arith);
    one = λ e _. cc;
    two = λ _. second h l.tied refl;
  }

  below : n < l.max → (x : Str) → g x < l.max → plus g id n x < l.max
  below h x b = elim (str_discrete id x) [
    | yes q ↦ ground (arith, ap g q)
    | no q ↦ rw (plus_other g id x n q) b
  ]

  Leads-below : n < l.max → Leads (plus g id n) l
  Leads-below h = record {
    upper = λ x. plus_bound x l.max (k.upper x) (omega arith);
    one = λ e m. (
      plus_other g id l.winner_id n (other_winner e m) ∙ (k.one e m).0,
      λ x ne. below h x ((k.one e m).1 x ne),
    );
    two = λ e.
        let (a, b, ne, ga, gb, m) = k.two e in
        (
          a,
          b,
          ne,
          plus_other g id a n (λ q. omega (arith, ap g q)) ∙ ga,
          plus_other g id b n (λ q. omega (arith, ap g q)) ∙ gb,
          m,
        );
  }

  pub Leads-lead_step : Leads (plus g id n) (lead_step id n l)
  unfolding lead_step
  Leads-lead_step = elim (dec_lt l.max n) [
    | yes h ↦ rw (lt→ltb l.max n h) (Leads-above h)
    | no h ↦ elim (ℕ_discrete n l.max) [
      | yes q ↦ subst (Leads (plus g id n)) (sym (level q)) (Leads-level q)
      | no q ↦ subst (Leads (plus g id n)) (sym (lower h q)) (Leads-below (omega arith))
    ]
  ]
    where
      level : n ≡ l.max → lead_step id n l ≡ record l { tied = true }
      level q = ground arith

      lower : ¬ (l.max < n) → n ≢ l.max → lead_step id n l ≡ l
      lower h q = ground arith
