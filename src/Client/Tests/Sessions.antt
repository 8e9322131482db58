-- ===== src/Client/Tests/Sessions.antt =====
-- The theorems on the loop of a client, on a few rounds, and on the choice of a probe.
use anylan.Base.{
  ◌≡◌, ◌+◌, ◌*◌, ◌%◌, ◌^◌, refl, true, false, [], ◌∷◌, ◌++◌, none, some, arith, length, ok, err,
}
use anylan.Base.Bytes.{Bytes, text}
use anylan.Base.Int.{pos}
use anylan.Base.Dictionary.{lookup}
use anylan.Protocol.{
  buffer, eof, read_message, write_message, valid, Reader, type_join_room, max_control_size,
}
use anylan.Protocol.Json.{Codec, write_json, read_json}
use anylan.Protocol.Messages.{JoinAccept, JoinReject, JoinRoom, PeerInfo}
use anylan.Relay.Mac.{hex}
use anylan.Client.Config.{Config}
use anylan.Client.Status.{Status, new_idle_status, new_status, joined}
use anylan.Client.Status.Next.{PeerProbe, next_latency_probe}
use anylan.Client.Session.{Round, accepted, received, other_error, going, stopped, run_loop, second}
use anylan.Client.Session.Backoff.{delay, waits, run_loop-Retries}
use anylan.Client.Session.Tracked.{EndsTracked, IsTracked, run_loop-EndsTracked}
use anylan.Client.Session.Handshake.{rejected, other_version, ended_by, Asks, join_rejected}
use anylan.Client.SetUp.{Network, set_up, early_device, nonce_hex}
use anylan.Control.Handler.{Services, Stream, turned_away, enter}
use anylan.Relay.Manager.{World, new_manager, returns}
use anylan.Relay.Address.{v4}

abbrev config : Config
config = record {
  server = text "s";
  room = text "r";
  display_name = [];
  device_name = text "t";
  insecure_skip_verify = false;
  prioritize_virtual_adapter = true;
}

abbrev pub idle : Status
idle = new_idle_status config 3

abbrev bob : PeerInfo
bob = record {
  id = text "b";
  display_name = text "bob";
  ipv4 = text "10.0.0.3";
  mac = text "m";
  features = text "peer_latency" ∷ [];
}

abbrev accept : JoinAccept
accept = record {
  version = pos 1;
  room = text "r";
  peer_id = text "a";
  ipv4 = text "10.0.0.2";
  cidr = text "10.0.0.2/24";
  mac = text "n";
  mtu = pos 1300;
  room_created_at = 1;
  peers = bob ∷ [];
  features = [];
}

-- A session that joined, received a frame, and lost its connection.
abbrev lost : Round
lost = record {
  events = accepted accept 10 ∷ received 60 ∷ [];
  ended = some (other_error (text "timeout"));
  cancelled_in_session = false;
  cancelled_in_wait = false;
  connecting_at = 9;
  ended_at = 20;
}

run_loop-Retries_example :
    (t : Status) × (run_loop (lost ∷ lost ∷ []) idle
      ≡ (waits 0 (length (lost ∷ lost ∷ [])), going t (delay (length (lost ∷ lost ∷ [])) * second)))
    × (t.reconnects % 2 ^ 64 ≡ (idle.reconnects + length (lost ∷ lost ∷ [])) % 2 ^ 64)
run_loop-Retries_example =
    run_loop-Retries (lost ∷ lost ∷ []) idle ((refl, refl, refl), ((refl, refl, refl), tt))

idle-IsTracked : IsTracked idle
unfolding new_idle_status new_status lookup
idle-IsTracked id = refl

run_loop-EndsTracked_example : EndsTracked (run_loop (lost ∷ []) idle).1
run_loop-EndsTracked_example = run_loop-EndsTracked (lost ∷ []) idle idle-IsTracked

abbrev same_text : Bytes → Bytes
same_text s = s

abbrev rejects : Codec JoinReject
rejects = record { marshal = λ r. some r.reason; unmarshal = λ b. some (record { reason = b }) }

abbrev accepts : Codec JoinAccept
accepts = record { marshal = λ a. none; unmarshal = λ b. none }

abbrev old : JoinRoom
old = record {
  version = pos 2;
  room = text "r";
  display_name = [];
  mac = [];
  nonce = [];
  features = [];
}

abbrev reason : Bytes
reason = text "unsupported protocol version"

abbrev handler : Services
handler = record {
  trim_space = same_text;
  parse_mac = λ s. none;
  error_text = λ e. [];
  addr_string = λ a. [];
  prefix_string = λ p. [];
  joins = record { marshal = λ v. some (9 ∷ []); unmarshal = λ p. some old };
  accepts = accepts;
  rejects = rejects;
  peer_lists = record { marshal = λ v. none; unmarshal = λ p. none };
}

abbrev network : Network
network = record {
  dial = none;
  should_advertise_mac = false;
  open_device = λ name. err [];
  advertise_mac = λ device. err [];
  open_stream = none;
  rand = λ k. some (7 ∷ []);
  rand_text = [];
  configure = λ name mac cidr mtu prioritize. none;
  accept_stream = none;
  parse_mac = λ s. err [];
  parse_ipv4 = λ s. none;
  error_text = λ e. [];
  json_text = [];
  joins = handler.joins;
  rejects = rejects;
  accepts = accepts;
}

abbrev nobody : World
nobody = new_manager (record { addr = v4 10 0 0 0; bits = 8 })

abbrev request : Reader
request = record { pending = 1 ∷ 0 ∷ 0 ∷ 0 ∷ 1 ∷ 9 ∷ []; ending = eof }

request_read :
    read_json handler.joins request type_join_room max_control_size
    ≡ ok (old, record { pending = []; ending = eof })
unfolding read_json read_message valid
request_read = refl

asks : Asks network {W = Bytes} config []
unfolding early_device nonce_hex write_json write_message valid
asks = record {
  early = none;
  mac = [];
  nonce = hex (7 ∷ []);
  dialled = refl;
  found = refl;
  opened = refl;
  drawn = refl;
  written = refl;
}

join_rejected_example :
    (out : Stream Bytes) × (enter handler 1 request
        (record { written = []; finished = false })
        (λ k. none)
        9
        nobody
      ≡ returns (turned_away out, nobody))
    × (out.finished ≡ true)
    × (let arriving : Reader = record { pending = out.written ++ []; ending = eof } in
        let (status, res) = (set_up network {W = Bytes} config [] arriving 9 idle).1 in
        (status ≡ idle)
        × (res ≡ err (rejected reason))
        × (u : Status) × (run_loop (record lost { ended = ended_by res } ∷ lost ∷ []) status
            ≡ ([], stopped (rejected reason) u))
        × (u.state ≡ text "stopped")
        × (u.last_error ≡ text "join rejected: " ++ reason)
        × (u.peers ≡ []))
join_rejected_example =
    join_rejected handler 1 request old (record { pending = []; ending = eof }) (λ k. none) nobody
      network {C = Bytes} config [] reason reason [] eof 9 idle lost (lost ∷ []) request_read
      (other_version (λ e. absurd (ground (arith, e)))) (λ v p e. ground (arith, e)) refl refl
      (omega arith) asks refl

-- Connected, with one peer that answers probes.
abbrev pub connected : Status
connected = joined accept 10 idle

abbrev pub sixteen : Bytes
sixteen = 1 ∷ 2 ∷ 3 ∷ 4 ∷ 5 ∷ 6 ∷ 7 ∷ 8 ∷ 9 ∷ 10 ∷ 11 ∷ 12 ∷ 13 ∷ 14 ∷ 15 ∷ 16 ∷ []

abbrev pub sent_probe : PeerProbe
sent_probe = record {
  peer_id = text "b";
  id = text "0102030405060708090a0b0c0d0e0f10";
  sent_at = 50;
}

abbrev probed : Status
probed = (next_latency_probe (λ n. some sixteen) 50 connected).1
