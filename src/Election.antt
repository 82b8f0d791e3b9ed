-- ===== src/Election.antt =====
-- frontend/p2p/election.ts: the guests choose a new host.
pub mod Winner
pub mod Order
pub mod Agreement
use fakeartist.Prelude.{
  ℕ, ◌<◌, List, [], ◌∷◌, map, Bool, true, false, not, Option, none, some, Str, ◌==◌, nat_eq, ltb,
  if◌then◌else◌, lts,
}
use fakeartist.Prelude.Sort.{sort_by}
use fakeartist.Protocol.{ℤ, pos, ltz}

-- `-1` is the index of a replica that has seen no stroke.
pub record ElectionCandidate : Type 0 where
  pub player_id : Str
  pub version : ℕ
  pub last_stroke_index : ℤ

-- What is known of a peer.
pub record PeerFloor : Type 0 where
  pub version : ℕ
  pub last_stroke_index : ℤ

pub record LocalView : Type 0 where
  pub self_id : Str
  pub self_version : ℕ
  pub self_last_stroke_index : ℤ
  pub connected : List Str
  pub peers : Str → Option PeerFloor

-- What the candidate of a peer holds: nothing is known of most.
unfoldable pub candidate_of : Option PeerFloor → Str → ElectionCandidate
candidate_of none pid = record { player_id = pid; version = 0; last_stroke_index = pos 0 }
candidate_of (some p) pid = record {
  player_id = pid;
  version = p.version;
  last_stroke_index = p.last_stroke_index;
}

unfoldable pub candidate : LocalView → Str → ElectionCandidate
unfolding candidate_of
candidate view pid =
    if pid == view.self_id
    then record {
      player_id = pid;
      version = view.self_version;
      last_stroke_index = view.self_last_stroke_index;
    }
    else candidate_of (view.peers pid) pid

-- The comparator gives a positive number: `b` goes before `a`.
unfoldable pub goes_after : ElectionCandidate → ElectionCandidate → Bool
unfolding ltz lts
goes_after a b =
    if ltb a.version b.version
    then true
    else if ltb b.version a.version
    then false
    else if ltz a.last_stroke_index b.last_stroke_index
    then true
    else if ltz b.last_stroke_index a.last_stroke_index
    then false
    else lts b.player_id a.player_id

abbrev pub goes_first : ElectionCandidate → ElectionCandidate → Bool
goes_first a b = not (goes_after a b)

abbrev pub first_id : List ElectionCandidate → Option Str
first_id [] = none
first_id (c ∷ cs) = some c.player_id

unfoldable pub elect : LocalView → Option Str
unfolding candidate goes_after
elect view = first_id (sort_by goes_first (map (candidate view) view.connected))
