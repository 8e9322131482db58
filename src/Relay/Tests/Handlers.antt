-- ===== src/Relay/Tests/Handlers.antt =====
-- The theorems on the handler's sessions, for peers of a room of two.
use anylan.Base.{◌≡◌, refl, true, false, [], ◌∷◌, none, some, length, map, ◌==◌}
use mathlib.Core.List.{Perm}
use anylan.Relay.Peer.{Peer}
use anylan.Control.Handler.Listed.{list_of}
use anylan.Base.Bytes.{Bytes, text, bytes_eq}
use anylan.Base.Int.{pos}
use anylan.Base.Dictionary.{lookup, values}
use anylan.Protocol.{buffer, type_ping}
use anylan.Protocol.Json.{Codec}
use anylan.Protocol.Messages.{JoinRoom, PeerInfo}
use anylan.Relay.Room.{Room, is_current}
use anylan.Relay.Manager.{World}
use anylan.Relay.Manager.Invariant.{WorldFits, IsLive}
use anylan.Relay.Manager.Leaving.{IsHandle}
use anylan.Relay.Manager.Tidy.{IsTidy}
use anylan.Relay.Snapshots.{RoomSnapshot}
use anylan.Relay.Snapshots.Listing.{Shows}
use anylan.Control.Handler.{Services, Greeted, greet, clean_up}
use anylan.Control.Handler.Greeting.{greet_total, Ends, accepted}
use anylan.Control.Handler.Leaving.{clean_up_total, Informed}
use anylan.Control.Streams.{control_turn}
use anylan.Control.Streams.Turns.{Turned, control_turn_total}
use anylan.Relay.Tests.{base, ann, bob, home, home_found, fits, with_bob}
use anylan.Relay.Tests.Views.{tidy}

abbrev pub no_codec : {A : Type 0} → Codec A
no_codec = record { marshal = λ v. none; unmarshal = λ p. none }

abbrev asked : JoinRoom
asked = record {
  version = pos 1;
  room = text "lan";
  display_name = text "cat";
  mac = [];
  nonce = [];
  features = [];
}

abbrev pub services : Services
services = record {
  trim_space = λ s. s;
  parse_mac = λ s. none;
  error_text = λ e. text "error";
  addr_string = λ a. [];
  prefix_string = λ p. [];
  joins = record { marshal = λ v. none; unmarshal = λ p. some asked };
  accepts = record { marshal = λ a. some a.peer_id; unmarshal = λ p. none };
  rejects = record { marshal = λ r. some r.reason; unmarshal = λ p. none };
  peer_lists = record { marshal = λ l. some (text "peers"); unmarshal = λ p. none };
}

abbrev request : Bytes
request = 1 ∷ 0 ∷ 0 ∷ 0 ∷ 1 ∷ 7 ∷ []

ann-IsLive : IsLive with_bob ann
unfolding lookup bytes_eq
ann-IsLive = (fits.room 0 home home_found).live ann.id ann refl

ann-IsHandle : IsHandle with_bob ann
ann-IsHandle = record { cell = ann-IsLive.cell; found = ann-IsLive.found; same = ann-IsLive.same }

ann_here : is_current home ann ≡ true
unfolding is_current lookup bytes_eq
ann_here = refl

clean_up_total_example :
    (w' : World) × (r' : Room) × (clean_up services ann with_bob ≡ some w')
    × WorldFits base w'
    × IsTidy w'
    × (w'.room_at ann.room ≡ some r')
    × (is_current r' ann ≡ false)
    × (r'.closed ≡ (length r'.peers == 0))
    × Informed services with_bob r' w'
clean_up_total_example =
    clean_up_total services base with_bob home ann fits tidy ann-IsHandle home_found ann_here

greet_total_example :
    (g : Greeted Bytes Bytes) × (snap : RoomSnapshot) × (greet services
        (pos 0)
        (text "lan")
        bob
        []
        (some [])
        with_bob
      ≡ some g)
    × WorldFits base g.world
    × IsTidy g.world
    × Shows services.addr_string services.prefix_string home snap
    × Perm
        (map (λ (i : PeerInfo). i.id) (list_of snap).peers)
        (map (λ (q : Peer). q.id) (values home.peers))
    × (g.control ≡ (accepted services (pos 0) (text "lan") bob [] home snap).0)
    × Ends services (pos 0) (text "lan") bob [] with_bob home snap (some []) g
greet_total_example =
    greet_total services (pos 0) (text "lan") bob [] base with_bob home (some []) fits tidy
      home_found

control_turn_total_example :
    Turned {W = Bytes} base with_bob ann home fits tidy home_found
      (control_turn no_codec no_codec ann type_ping [] [] with_bob)
control_turn_total_example =
    control_turn_total base with_bob ann home fits tidy home_found no_codec no_codec type_ping [] []
