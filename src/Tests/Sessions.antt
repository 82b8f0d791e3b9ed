-- ===== src/Tests/Sessions.antt =====
-- frontend/components/P2pGameProvider.jsx: sessions of ann, who hosts, and of bob, her guest.
use fakeartist.Prelude.{
  ◌≡◌, ◌≢◌, refl, ap, List, [], ◌∷◌, true, false, none, some, arith, codes, get_or, str_discrete,
  ℕ_discrete,
}
use fakeartist.Models.{drawing, voting, fake_guessing, GameState, new_game_state}
use fakeartist.Protocol.{next_round, Envelope, ConfigPatch, pos, ℤ}
use fakeartist.Sanitize.{sanitize}
use fakeartist.Sanitize.Secrecy.{sanitize-IsPublic}
use fakeartist.Engine.Flow.{advancing}
use fakeartist.Replica.{Replica}
use fakeartist.Transport.{Relay, opened}
use fakeartist.Log.{empty_database}
use fakeartist.HostBridge.{relay}
use fakeartist.Session.{World, Refs, peer_left, peer_joined, grace_delay}
use fakeartist.Session.Guest.{
  Guest, guest_on_signal, guest_peer_left, on_host_channel_close, over_relay, on_peer_open,
  on_relay,
}
use fakeartist.Session.Host.{Host, mirror, host_send}
use fakeartist.Session.Switch.{Admission, promote, create_room}
use fakeartist.Session.Failover.{
  Claims, GuestEvent, signalled, channel_closed, peer_opened, channel_said, guest_run, guest_step,
  host_loss-Claims,
}
use fakeartist.Session.Mute.{IsMute}
use fakeartist.Session.Resync.{on_peer_open-on_relay}
use fakeartist.Session.Relaying.{carried_all, Reach-mirror}
use fakeartist.Session.Succession.{promote_not_host}
use fakeartist.Session.Lost.{take_votes, take_votes_promoted}
use fakeartist.Session.Creation.{IsCreated, configured, create_room-IsCreated}
use fakeartist.Prelude.{All}
use fakeartist.Protocol.{submit_stroke}
use fakeartist.Tests.Game.{empty_engine-out, in_drawing-Reach}
use fakeartist.Tests.Data.{
  after, line, in_drawing, plain_env, ann, bob, table, round_with, stroke_of,
}

abbrev world : World
world = record {
  env = plain_env;
  offer = λ id. codes "offer";
  answer = λ id sdp. codes "answer";
  stored_name = [];
  now = 0;
}

abbrev bobs_refs : Refs
bobs_refs = record {
  room_id = codes "r";
  player_id = bob;
  host_id = ann;
  connected = ann ∷ bob ∷ [];
  failover_timer = none;
  pending_config = none;
}

-- What bob has seen of a vote in which ann is the fake.
abbrev seen : GameState
seen = sanitize (table voting (some (round_with (stroke_of ann ∷ stroke_of bob ∷ []) []))).state

abbrev bobs_replica : Replica
bobs_replica = record {
  state = some seen;
  my_id = some bob;
  my_role = none;
  last_version = 7;
  last_stroke_index = pos 1;
  expected_next = some (record { round = 0; idx = 2 });
  pending = [];
  sync_in_flight = false;
  has_hook = true;
  out = [];
}

abbrev bobs_relay : Relay
bobs_relay = record { status = opened; listeners = 0 ∷ []; seq = 1; sent = []; out = [] }

abbrev bobs_session : Guest
bobs_session = record {
  refs = bobs_refs;
  replica = bobs_replica;
  peer_hub = record { peers = []; out = [] };
  transport = over_relay bobs_relay;
  has_host_dc = false;
  channel_open = false;
  ice_armed = false;
  out = [];
}

-- The channel goes down, and carl comes.
abbrev quiet : List GuestEvent
quiet = channel_closed ∷ signalled 3 (peer_joined (codes "carl")) ∷ []

host_loss-Claims_example :
    Claims (grace_delay 42) (guest_run world (signalled 42 (peer_left ann) ∷ quiet) bobs_session)
unfolding sanitize guest_run guest_step guest_on_signal guest_peer_left on_host_channel_close
    str_discrete ℕ_discrete
host_loss-Claims_example =
    host_loss-Claims world 42 quiet bobs_session (omega arith) refl
      (tt, ((λ e. grind (arith, ap (λ s. get_or s 0 0) e)), tt)) (omega arith)

-- bob waits for stroke 2, and stroke 4 comes by the server.
abbrev behind : Guest
behind = on_relay (some (Envelope.stroke_added 0 5 (stroke_of ann))) bobs_session

-- The channel opens, and stroke 5 comes over it.
abbrev later : List GuestEvent
later =
    peer_opened ann
    ∷ channel_said (some (Envelope.stroke_added 0 6 (stroke_of bob)))
    ∷ signalled 3 (peer_joined (codes "carl"))
    ∷ []

on_peer_open-on_relay_example :
    ((on_peer_open world ann behind).out ≡ []) × IsMute bobs_session (guest_run world later behind)
unfolding sanitize
on_peer_open-on_relay_example =
    on_peer_open-on_relay world 0 4 (stroke_of ann) bobs_relay (record { round = 0; idx = 2 }) later
      bobs_session
      (record {
        transport = refl;
        listener = refl;
        no_channel = refl;
        floor = refl;
        round = refl;
        hook = refl;
        no_flight = refl;
      })
      (omega arith) (tt, (tt, (tt, tt)))

Reach-mirror_example :
    let e = after (submit_stroke line) ann in_drawing in
    All (λ o. mirror (bob ∷ []) o e ≡ carried_all (bob ∷ []) (relay true o e)) e.out
Reach-mirror_example =
    Reach-mirror (bob ∷ []) true (after (submit_stroke line) ann in_drawing) empty_engine-out
      in_drawing-Reach

abbrev anns_session : Host
anns_session = record {
  refs = record bobs_refs { player_id = ann };
  engine = table drawing (some (round_with (stroke_of ann ∷ []) []));
  replica = record bobs_replica { has_hook = false };
  loopback = record {
    status = opened;
    self_id = ann;
    listeners = 0 ∷ [];
    attached = true;
    out = [];
  };
  peer_hub = record { peers = []; out = [] };
  database = record { log = []; meta = []; state = [] };
  relay_peers = [];
  out = [];
}

promote_not_host_example :
    host_send world next_round (promote world empty_database bobs_session)
    ≡ promote world empty_database bobs_session
unfolding sanitize
promote_not_host_example =
    promote_not_host world empty_database bobs_session seen refl (λ e. cc)
      (λ e. grind (arith, ap (λ s. get_or s 0 0) e)) advancing

take_votes_promoted_example :
    (take_votes world
      ((bob, ann) ∷ (ann, bob) ∷ [])
      (promote world empty_database bobs_session)).engine.state.status
    ≢ fake_guessing
unfolding sanitize
take_votes_promoted_example =
    take_votes_promoted world empty_database bobs_session seen ((bob, ann) ∷ (ann, bob) ∷ []) refl
      (λ e. cc) refl
      (sanitize-IsPublic
        (table voting (some (round_with (stroke_of ann ∷ stroke_of bob ∷ []) []))).state)

abbrev two_words : ConfigPatch ℤ
two_words = record {
  words_per_player = some (pos 2);
  target_score = none;
  strokes_per_artist = none;
  min_players = none;
  turn_duration = none;
}

abbrev admission : Admission
admission = record { room_id = codes "r"; player_id = ann }

create_room-IsCreated_example :
    IsCreated ann
      (configured (some two_words) (new_game_state (codes "r")).config)
      (create_room world empty_database admission (some two_words))
create_room-IsCreated_example =
    create_room-IsCreated world empty_database admission (some two_words) refl
