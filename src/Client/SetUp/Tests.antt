-- ===== src/Client/SetUp/Tests.antt =====
-- The set-up of a session, in a network that answers with an accept.
use anylan.Base.{◌≡◌, refl, false, [], ◌∷◌, none, some, ok}
use anylan.Base.Bytes.{Bytes, text}
use anylan.Base.Int.{pos}
use anylan.Protocol.{buffer, eof, read_message, write_message, valid}
use anylan.Protocol.Json.{write_json}
use anylan.Protocol.Messages.{JoinAccept}
use anylan.Client.Config.{Config}
use anylan.Client.Status.{new_status}
use anylan.Client.SetUp.{
  Network, set_up, ethernet_loops, early_device, open_tap, nonce_hex, start_device, session_device,
  choose_loops, read_answer,
}
use anylan.Client.Session.{check_response}
use anylan.Tap.{device_layer}
use anylan.Client.SetUp.Outcomes.{SetUp}

abbrev cfg : Config
cfg = record {
  server = text "host";
  room = text "lan";
  display_name = text "ann";
  device_name = [];
  insecure_skip_verify = false;
  prioritize_virtual_adapter = false;
}

abbrev accept : JoinAccept
accept = record {
  version = pos 1;
  room = text "lan";
  peer_id = text "a";
  ipv4 = text "10.0.0.2";
  cidr = text "10.0.0.2/24";
  mac = text "06:07:07:07:07:07";
  mtu = pos 1300;
  room_created_at = 5;
  peers = [];
  features = [];
}

abbrev network : Network
network = record {
  dial = none;
  should_advertise_mac = false;
  open_device = λ name. ok (record { name = text "anylan0"; layer = 1 });
  advertise_mac = λ device. ok [];
  open_stream = none;
  rand = λ k. some (7 ∷ []);
  rand_text = [];
  configure = λ name mac cidr mtu prioritize. none;
  accept_stream = none;
  parse_mac = λ s. ok [];
  parse_ipv4 = λ s. none;
  error_text = λ e. [];
  json_text = [];
  joins = record { marshal = λ v. some (9 ∷ []); unmarshal = λ p. none };
  rejects = record { marshal = λ v. none; unmarshal = λ p. none };
  accepts = record { marshal = λ v. none; unmarshal = λ p. some accept };
}

abbrev answer : Bytes
answer = 2 ∷ 0 ∷ 0 ∷ 0 ∷ 1 ∷ 8 ∷ []

-- The loops of an Ethernet device start.
started :
    (set_up network {W = Bytes} cfg []
      (record { pending = answer; ending = eof })
      9
      (new_status cfg 8)).1.1
    ≡ ok ethernet_loops
unfolding set_up early_device nonce_hex write_json write_message valid read_answer read_message
    start_device session_device open_tap choose_loops check_response device_layer
started = refl
