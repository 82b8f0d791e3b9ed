-- ===== src/EngineHttp.antt =====
-- frontend/p2p/engineHttp.ts: the drawer that asks the server, and the check of what it reveals. An
-- answer of the server is an input.
use fakeartist.Prelude.{ℕ, List, ◌++◌, Bool, Str, codes, decimal, if◌then◌else◌}
use fakeartist.Engine.State.{PoolEntry, PendingDraw, DrawResponse, DrawResult, drawn, failed}
use fakeartist.Crypto.{verify_commitment}

-- An answer over HTTP, with its text, and with what its JSON holds.
pub record Response (B : Type 0) : Type 0 where
  pub ok : Bool
  pub status : ℕ
  pub text : Str
  pub body : B

-- What is posted for a draw.
pub record DrawBody : Type 0 where
  pub player_id : Str
  pub round_index : ℕ
  pub connected_players : List Str
  pub pool : List PoolEntry

pub record RevealResponse : Type 0 where
  pub fake_id : Str
  pub word : Str
  pub nonce : Str

-- A result or the message of the error that is thrown.
pub data Fetched (B : Type 0) : Type 0 where
  fetched : B → Fetched B
  thrown : Str → Fetched B

unfoldable pub draw_path : Str → Str → Str
draw_path base room = base ++ codes "/api/rooms/" ++ room ++ codes "/roles"

unfoldable pub draw_body : Str → PendingDraw → List PoolEntry → DrawBody
draw_body player req pool = record {
  player_id = player;
  round_index = req.round_index;
  connected_players = req.players;
  pool = pool;
}

unfoldable pub reveal_path : Str → Str → ℕ → Str
reveal_path base room round =
    base ++ codes "/api/rooms/" ++ room ++ codes "/reveal/" ++ decimal round

unfoldable pub http_error : Str → ℕ → Str → Str
http_error what status text = what ++ codes " " ++ decimal status ++ codes ": " ++ text

-- `draw`, behind its request.
unfoldable pub draw_answer : Response DrawResponse → DrawResult
unfolding http_error
draw_answer res =
    if res.ok then drawn res.body else failed (http_error (codes "roles") res.status res.text)

unfoldable pub reveal_answer : Response RevealResponse → Fetched RevealResponse
unfolding http_error
reveal_answer res =
    if res.ok then fetched res.body else thrown (http_error (codes "reveal") res.status res.text)

module _ (utf8 : Str → List ℕ) (sha256 : List ℕ → List ℕ) where
  -- `verifyReveal`: an error of the request is passed on.
  unfoldable pub verify_reveal : Fetched RevealResponse → Str → Fetched (Bool × RevealResponse)
  unfolding verify_commitment
  verify_reveal (thrown message) expected = thrown message
  verify_reveal (fetched r) expected =
      fetched (verify_commitment utf8 sha256 r.fake_id r.nonce expected, r)
