-- ===== src/Sanitize/Secrecy.antt =====
-- frontend/p2p/sanitize.ts: nothing secret passes, and all else does.
use fakeartist.Prelude.{◌≡◌, refl, ◌≢◌, List, [], ◌∷◌, map, Option, none, some, arith, All}
use fakeartist.Models.{GameStatus, round_summary, game_over, WordCard, Round, GameState}
use fakeartist.Sanitize.{strip_word, sanitize_round, sanitize}

-- The round is still secret.
abbrev pub IsOpen : GameStatus → Type 0
IsOpen s = (s ≢ round_summary) × (s ≢ game_over)

abbrev pub HidesWord : WordCard → Type 0
HidesWord c = c.word ≡ none

abbrev pub HidesRound : Round → Type 0
HidesRound r =
    (r.card_id ≡ none)
    × (r.fake_id ≡ none)
    × (r.revealed_word ≡ none)
    × (r.fake_guess ≡ none)
    × (r.votes ≡ none)

-- A state that may be shown to every player.
pub record IsPublic (s : GameState) : Type 0 where
  pub words : All HidesWord s.pool
  pub secrets : (r : Round) → s.current_round ≡ some r → IsOpen s.status → HidesRound r

map-strip_word-hides : (cs : List WordCard) → All HidesWord (map strip_word cs)
unfolding strip_word
map-strip_word-hides [] = tt
map-strip_word-hides (c ∷ cs) = (refl, map-strip_word-hides cs)

sanitize_round-hides : (s : GameStatus) (r : Round) → IsOpen s → HidesRound (sanitize_round s r)
unfolding sanitize_round
sanitize_round-hides round_summary r (h, k) = absurd (h refl)
sanitize_round-hides game_over r (h, k) = absurd (k refl)
sanitize_round-hides _ r h = (refl, refl, refl, refl, refl)

-- A sanitized state shows no word of the pool, and unless the round is over it shows no card,
-- fake, word, guess or vote of the round.
pub sanitize-IsPublic : (s : GameState) → IsPublic (sanitize s)
unfolding sanitize
sanitize-IsPublic s = record {
  words = map-strip_word-hides s.pool;
  secrets = λ r e h. go s.current_round r e h;
}
  where
    go :
        (o : Option Round) (r : Round)
        → (elim o [ none ↦ none | some q ↦ some (sanitize_round s.status q) ]) ≡ some r
        → IsOpen s.status
        → HidesRound r
    go none r e h = cc
    go (some q) r e h = ground (arith, sanitize_round-hides s.status q)
