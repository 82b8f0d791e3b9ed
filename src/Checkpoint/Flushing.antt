-- ===== src/Checkpoint/Flushing.antt =====
-- frontend/p2p/checkpoint.ts: when a snapshot is due, and what it shows.
use fakeartist.Prelude.{
  ℕ, ◌+◌, ◌≤◌, ◌<◌, ◌≡◌, refl, ◌∙◌, subst, List, [], ◌∷◌, Bool, true, false, Option, some, leb,
  length, All, All-append, arith, if◌then◌else◌, Bool-cases, inl, inr,
}
use fakeartist.Models.{Stroke}
use fakeartist.Protocol.{ServerEvent}
use fakeartist.Sanitize.Secrecy.{IsPublic, sanitize-IsPublic}
use fakeartist.Engine.State.{Engine}
use fakeartist.Checkpoint.{
  Body, Checkpoint, Answer, new_checkpoint, body_of, flush, flush_again, finish_flush,
  flush_by_time, observe, next_delay, post_attempts, post_with_backoff, is_new_status,
}

-- After `n` strokes since the last post returned: they are counted, between flushes they are fewer
-- than the threshold and no flush is asked for, and every snapshot is public.
pub record IsPrompt (n : ℕ) (c : Checkpoint) : Type 0 where
  pub counted : c.strokes_since_flush ≡ n
  pub some_threshold : 0 < c.stroke_threshold
  pub few : c.flushing ≡ false → n < c.stroke_threshold
  pub not_asked : c.flushing ≡ false → c.pending ≡ false
  pub public : All (λ (b : Body). IsPublic b.state) c.out

-- What happens to the dispatcher. The log is read without an error.
pub data Happens : Checkpoint → Checkpoint → Type 0 where
  seen :
      {c : Checkpoint} (log : Option (List (ℕ × Stroke))) (evt : ServerEvent) (e : Engine)
      → Happens c (observe log evt e c)
  posted :
      {c : Checkpoint} (log : Option (List (ℕ × Stroke))) (now : ℕ) (e : Engine)
      → c.flushing ≡ true
      → Happens c (finish_flush log now e c)
  ticked :
      {c : Checkpoint} (log : Option (List (ℕ × Stroke))) (now : ℕ) (e : Engine)
      → Happens c (flush_by_time log now e c)

-- The parts of the invariant that hold also while a flush is being started.
pub record IsSafe (c : Checkpoint) : Type 0 where
  pub some_threshold : 0 < c.stroke_threshold
  pub not_asked : c.flushing ≡ false → c.pending ≡ false
  pub public : All (λ (b : Body). IsPublic b.state) c.out

IsPrompt-IsSafe : {n : ℕ} {c : Checkpoint} → IsPrompt n c → IsSafe c
IsPrompt-IsSafe p = record {
  some_threshold = p.some_threshold;
  not_asked = p.not_asked;
  public = p.public;
}

flush-IsPrompt :
    (log : Option (List (ℕ × Stroke))) (e : Engine) (c : Checkpoint) (n : ℕ)
    → c.strokes_since_flush ≡ n
    → IsSafe c
    → IsPrompt n (flush log e c)
unfolding flush body_of
flush-IsPrompt log e c n q s = elim (Bool-cases c.flushing) [
  | inl t ↦ rw t (record {
    counted = q;
    some_threshold = s.some_threshold;
    few = λ h. cc;
    not_asked = λ h. cc;
    public = s.public;
  })
  | inr t ↦ rw t (record {
    counted = q;
    some_threshold = s.some_threshold;
    few = λ h. cc;
    not_asked = λ h. cc;
    public =
        All-append (λ (b : Body). IsPublic b.state) c.out _ s.public
          (sanitize-IsPublic e.state, tt);
  })
]

if_due :
    (due : Bool) (log : Option (List (ℕ × Stroke))) (e : Engine) (c : Checkpoint) (n : ℕ)
    → c.strokes_since_flush ≡ n
    → IsSafe c
    → (due ≡ false → IsPrompt n c)
    → IsPrompt n (if due then flush log e c else c)
if_due true log e c n q s p = flush-IsPrompt log e c n q s
if_due false log e c n q s p = p refl

-- How many strokes an event brings.
abbrev pub strokes_in : ServerEvent → ℕ
strokes_in (ServerEvent.stroke_added stroke i) = 1
strokes_in _ = 0

no_stroke : (n : ℕ) (c : Checkpoint) → IsPrompt n c → IsPrompt (n + 0) c
no_stroke n c p = subst (λ m. IsPrompt m c) (omega arith) p

observe-IsPrompt :
    (log : Option (List (ℕ × Stroke))) (evt : ServerEvent) (e : Engine) (c : Checkpoint) (n : ℕ)
    → IsPrompt n c
    → IsPrompt (n + strokes_in evt) (observe log evt e c)
unfolding observe
observe-IsPrompt log (ServerEvent.stroke_added stroke i) e c n p =
    if_due (leb c.stroke_threshold (c.strokes_since_flush + 1)) log e
      (record c { strokes_since_flush = c.strokes_since_flush + 1 }) (n + 1)
      (omega (arith, p.counted))
      (record { some_threshold = p.some_threshold; not_asked = p.not_asked; public = p.public })
      (λ h. record {
        counted = omega (arith, p.counted);
        some_threshold = p.some_threshold;
        few = λ f. ground (arith, h, p.counted);
        not_asked = p.not_asked;
        public = p.public;
      })
observe-IsPrompt log (ServerEvent.state_update s) e c n p =
    let same : n ≡ n + 0 = omega arith in
    let k =
      if_due (is_new_status c.last_status s.status) log e c (n + 0) (p.counted ∙ same)
        (IsPrompt-IsSafe p) (λ h. subst (λ m. IsPrompt m c) same p) in
    record {
      counted = k.counted;
      some_threshold = k.some_threshold;
      few = k.few;
      not_asked = k.not_asked;
      public = k.public;
    }
observe-IsPrompt log (ServerEvent.player_welcome id) e c n p = no_stroke n c p
observe-IsPrompt log (ServerEvent.your_role r) e c n p = no_stroke n c p
observe-IsPrompt log (ServerEvent.error message) e c n p = no_stroke n c p

finish_flush-IsPrompt :
    (log : Option (List (ℕ × Stroke))) (now : ℕ) (e : Engine) (c : Checkpoint) (n : ℕ)
    → IsPrompt n c
    → IsPrompt 0 (finish_flush log now e c)
unfolding finish_flush flush_again
finish_flush-IsPrompt log now e c n p = elim (Bool-cases c.pending) [
  | inl t ↦ rw t (
      flush-IsPrompt log e
        (record c {
          last_flushed_version = some c.in_flight;
          last_flush_at = now;
          strokes_since_flush = 0;
          flushing = false;
          pending = false;
        })
        0 refl
        (record { some_threshold = p.some_threshold; not_asked = λ h. refl; public = p.public }))
  | inr t ↦ rw t (record {
    counted = refl;
    some_threshold = p.some_threshold;
    few = λ h. p.some_threshold;
    not_asked = λ h. refl;
    public = p.public;
  })
]

ticked-IsPrompt :
    (log : Option (List (ℕ × Stroke))) (now : ℕ) (e : Engine) (c : Checkpoint) (n : ℕ)
    → IsPrompt n c
    → IsPrompt n (flush_by_time log now e c)
unfolding flush_by_time
ticked-IsPrompt log now e c n p = kept _
  where
    kept : (b : Bool) → IsPrompt n (if b then c else flush log e c)
    kept true = p
    kept false = flush-IsPrompt log e c n p.counted (IsPrompt-IsSafe p)

-- The strokes since the last post returned, after what happens with `n` before it.
abbrev pub after_it : {c d : Checkpoint} → Happens c d → ℕ → ℕ
after_it (seen log evt e) n = n + strokes_in evt
after_it (posted log now e f) n = 0
after_it (ticked log now e) n = n

Happens-IsPrompt :
    {c d : Checkpoint} (s : Happens c d) (n : ℕ) → IsPrompt n c → IsPrompt (after_it s n) d
Happens-IsPrompt (seen log evt e) n p = observe-IsPrompt log evt e _ n p
Happens-IsPrompt (posted log now e f) n p = finish_flush-IsPrompt log now e _ n p
Happens-IsPrompt (ticked log now e) n p = ticked-IsPrompt log now e _ n p

pub data Runs (c : Checkpoint) : Checkpoint → Type 0 where
  begun : Runs c c
  after : {d f : Checkpoint} → Runs c d → Happens d f → Runs c f

-- The strokes that were announced since the last post returned, or since the beginning.
abbrev pub strokes_since : {c d : Checkpoint} → Runs c d → ℕ
strokes_since begun = 0
strokes_since (after r s) = after_it s (strokes_since r)

-- From a new dispatcher with a positive threshold, through every sequence of events, ticks and
-- posts that return, with reads of the log that succeed: while no post is under way, fewer
-- strokes than the threshold have been announced since the last post returned, whatever its
-- result was, and no flush is asked for; and every posted state is public.
pub Runs-IsPrompt :
    (threshold time : ℕ) {c : Checkpoint}
    → 0 < threshold
    → (r : Runs (new_checkpoint threshold time) c) → IsPrompt (strokes_since r) c
unfolding new_checkpoint
Runs-IsPrompt threshold time h begun = record {
  counted = refl;
  some_threshold = h;
  few = λ f. h;
  not_asked = λ f. refl;
  public = tt;
}
Runs-IsPrompt threshold time h (after r s) =
    Happens-IsPrompt s (strokes_since r) (Runs-IsPrompt threshold time h r)

-- The sum of what is waited.
pub total : List ℕ → ℕ
total [] = 0
total (d ∷ ds) = d + total ds

-- Whatever the server answers, a post is retried with at most five delays, which together are at
-- most 7750 ms.
pub post_with_backoff-total :
    (answer : ℕ → Answer)
    → (length (post_with_backoff answer) ≤ 5) × (total (post_with_backoff answer) ≤ 7750)
unfolding post_with_backoff post_attempts next_delay total
post_with_backoff-total answer = ground arith
