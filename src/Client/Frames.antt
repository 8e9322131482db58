-- ===== src/Client/Frames.antt =====
-- internal/client/client.go:1046-1122: the Ethernet frames that a client with a TUN device makes up
-- and takes apart. An IPv4 address is its four bytes; `none` is a panic.
use anylan.Base.{
  ℕ, zero, suc, ◌+◌, ◌*◌, ◌/◌, ◌≤◌, ◌≡◌, ◌∙◌, ap, refl, Bool, true, false, ◌||◌, ◌&&◌, [], ◌∷◌,
  ◌++◌, Option, none, some, arith, length, take, drop, get_or, leb, ◌==◌, if◌then◌else◌,
  length-drop, length-take,
}
use anylan.Base.Bytes.{Bytes, bytes_eq}
use anylan.Base.Binary.{put_uint16}
use anylan.Base.Slices.{◌>>=◌, slice}

-- `copy` into a slice of `n` bytes that is zero.
abbrev pub padded : ℕ → Bytes → Bytes
padded n xs = take n (xs ++ 0 ∷ 0 ∷ 0 ∷ 0 ∷ 0 ∷ 0 ∷ 0 ∷ 0 ∷ [])

unfoldable pub ethernet_frame_from_ipv4 : Bytes → Bytes → Bytes → Bytes
ethernet_frame_from_ipv4 packet dst src = padded 6 dst ++ padded 6 src ++ 0x08 ∷ 0x00 ∷ packet

abbrev at : Bytes → ℕ → ℕ
at frame i = get_or frame i 0

unfoldable pub is_ipv4_packet : Bytes → Bool
is_ipv4_packet packet = leb 20 (length packet) && at packet 0 / 16 == 4

unfoldable pub is_ipv4_ethernet_frame : Bytes → Bool
unfolding is_ipv4_packet
is_ipv4_ethernet_frame frame =
    leb 34 (length frame)
    && at frame 12 == 0x08
    && at frame 13 == 0x00
    && is_ipv4_packet (drop 14 frame)

unfoldable pub ipv4_src : Bytes → Option Bytes
ipv4_src packet = slice packet 12 16

unfoldable pub ipv4_dst : Bytes → Option Bytes
ipv4_dst packet = slice packet 16 20

-- net.IP.IsMulticast of four bytes.
abbrev is_multicast_ipv4 : Bytes → Bool
is_multicast_ipv4 ip = at ip 0 / 16 == 14

abbrev ipv4_broadcast : Bytes
ipv4_broadcast = 255 ∷ 255 ∷ 255 ∷ 255 ∷ []

abbrev is_broadcast_of : Option Bytes → Bytes → Bool
is_broadcast_of none dst = false
is_broadcast_of (some room) dst = bytes_eq dst room

unfoldable pub should_deliver_ipv4_to_tun : Bytes → Bytes → Option Bytes → Option Bool
unfolding ipv4_dst
should_deliver_ipv4_to_tun packet own_ip room_broadcast = do
  dst ← ipv4_dst packet
  some (
      if bytes_eq dst own_ip || bytes_eq dst ipv4_broadcast || is_multicast_ipv4 dst
      then true
      else is_broadcast_of room_broadcast dst)

unfoldable pub broadcast_mac : Bytes
broadcast_mac = 0xff ∷ 0xff ∷ 0xff ∷ 0xff ∷ 0xff ∷ 0xff ∷ []

-- The reads behind the test of the length are in range.
unfoldable pub is_arp_request_for_ipv4 : Bytes → Bytes → Bool
is_arp_request_for_ipv4 frame own_ip =
    leb 42 (length frame)
    && at frame 12 == 0x08
    && at frame 13 == 0x06
    && at frame 14 * 256 + at frame 15 == 1
    && at frame 16 * 256 + at frame 17 == 0x0800
    && at frame 18 == 6
    && at frame 19 == 4
    && at frame 20 * 256 + at frame 21 == 1
    && bytes_eq (take 4 (drop 38 frame)) own_ip

unfoldable pub arp_reply : Bytes → Bytes → Bytes → Option Bytes
arp_reply request own_mac own_ip = do
  dst ← slice request 6 12
  kinds ← slice request 14 22
  sender_mac ← slice request 22 28
  sender_ip ← slice request 28 32
  some (
      dst
      ++ padded 6 own_mac
      ++ 0x08 ∷ 0x06 ∷ take 6 kinds
      ++ put_uint16 2
      ++ padded 6 own_mac
      ++ padded 4 own_ip
      ++ sender_mac
      ++ sender_ip)

-- Six bytes, by name.
pub record Six (xs : Bytes) : Type 0 where
  pub a : ℕ
  pub b : ℕ
  pub c : ℕ
  pub d : ℕ
  pub e : ℕ
  pub f : ℕ
  pub is : xs ≡ a ∷ b ∷ c ∷ d ∷ e ∷ f ∷ []

pub six : (xs : Bytes) → length xs ≡ 6 → Six xs
six (a ∷ b ∷ c ∷ d ∷ e ∷ f ∷ []) h = record { a = a; b = b; c = c; d = d; e = e; f = f; is = refl }
six [] h = absurd (omega (arith, h))
six (a ∷ []) h = absurd (omega (arith, h))
six (a ∷ b ∷ []) h = absurd (omega (arith, h))
six (a ∷ b ∷ c ∷ []) h = absurd (omega (arith, h))
six (a ∷ b ∷ c ∷ d ∷ []) h = absurd (omega (arith, h))
six (a ∷ b ∷ c ∷ d ∷ e ∷ []) h = absurd (omega (arith, h))
six (a ∷ b ∷ c ∷ d ∷ e ∷ f ∷ g ∷ xs) h = absurd (omega (arith, h))

four : (xs : Bytes) → length xs ≡ 4 → (a b c d : ℕ) × (xs ≡ a ∷ b ∷ c ∷ d ∷ [])
four (a ∷ b ∷ c ∷ d ∷ []) h = (a, b, c, d, refl)
four [] h = absurd (omega (arith, h))
four (a ∷ []) h = absurd (omega (arith, h))
four (a ∷ b ∷ []) h = absurd (omega (arith, h))
four (a ∷ b ∷ c ∷ []) h = absurd (omega (arith, h))
four (a ∷ b ∷ c ∷ d ∷ e ∷ xs) h = absurd (omega (arith, h))

-- A frame that is made of an IPv4 packet is taken for one, and its packet is the one it was made
-- of.
pub is_ipv4_ethernet_frame-ethernet_frame_from_ipv4 :
    (packet dst src : Bytes)
    → is_ipv4_packet packet ≡ true
    → length dst ≡ 6
    → length src ≡ 6
    → (is_ipv4_ethernet_frame (ethernet_frame_from_ipv4 packet dst src) ≡ true)
      × (drop 14 (ethernet_frame_from_ipv4 packet dst src) ≡ packet)
unfolding is_ipv4_ethernet_frame ethernet_frame_from_ipv4 is_ipv4_packet
is_ipv4_ethernet_frame-ethernet_frame_from_ipv4 packet dst src v d s =
    let x = six dst d in let y = six src s in rw (x.is, y.is) (ground (arith, v), refl)

take-take : (m n : ℕ) (xs : Bytes) → m ≤ n → take m (take n xs) ≡ take m xs
take-take zero n xs h = refl
take-take (suc m) zero xs h = absurd (omega (arith, h))
take-take (suc m) (suc n) [] h = refl
take-take (suc m) (suc n) (x ∷ xs) h = ap (λ ys. x ∷ ys) (take-take m n xs (omega (arith, h)))

-- Each part of the request that a reply repeats has its whole length.
part_length :
    (request : Bytes) (i n : ℕ)
    → 42 ≤ length request
    → i + n ≤ 42
    → length (take n (drop i request)) ≡ n
part_length request i n h g =
    omega (arith, length-take n (drop i request), length-drop i request, h, g)

-- The reply of its six parts.
abbrev joined : Bytes → Bytes → Bytes → Bytes → Bytes → Bytes → Bytes
joined dst kinds own_mac own_ip mac ip =
    dst
    ++ padded 6 own_mac
    ++ 0x08 ∷ 0x06 ∷ kinds
    ++ put_uint16 2
    ++ padded 6 own_mac
    ++ padded 4 own_ip
    ++ mac
    ++ ip

joined_parts :
    (dst kinds own_mac own_ip mac ip : Bytes)
    → Six dst
    → Six kinds
    → Six own_mac
    → Six mac
    → (a b c d : ℕ) × (own_ip ≡ a ∷ b ∷ c ∷ d ∷ [])
    → (a b c d : ℕ) × (ip ≡ a ∷ b ∷ c ∷ d ∷ [])
    → let reply = joined dst kinds own_mac own_ip mac ip in
      (length reply ≡ 42)
      × (take 6 reply ≡ dst)
      × (take 6 (drop 6 reply) ≡ own_mac)
      × (take 2 (drop 12 reply) ≡ 0x08 ∷ 0x06 ∷ [])
      × (take 6 (drop 14 reply) ≡ kinds)
      × (get_or reply 20 0 * 256 + get_or reply 21 0 ≡ 2)
      × (take 6 (drop 22 reply) ≡ own_mac)
      × (take 4 (drop 28 reply) ≡ own_ip)
      × (take 6 (drop 32 reply) ≡ mac)
      × (take 4 (drop 38 reply) ≡ ip)
joined_parts dst kinds own_mac own_ip mac ip x y z w (a, b, c, d, v) (e, f, g, h, u) =
    rw (x.is, y.is, z.is, w.is, v, u) (refl, refl, refl, refl, refl, refl, refl, refl, refl, refl)

-- The opcode of a reply is not that of a request.
not_request :
    (reply own_ip : Bytes)
    → get_or reply 20 0 * 256 + get_or reply 21 0 ≡ 2
    → is_arp_request_for_ipv4 reply own_ip ≡ false
unfolding is_arp_request_for_ipv4
not_request reply own_ip h = ground (arith, h)

-- The reply to a request for an address is made with no panic. It is sent to the sender of the
-- request, it is 42 bytes with the EtherType of ARP, the request's kinds of addresses and the
-- opcode of a reply, and it names the client's addresses as
-- those of its sender; it is not taken for a request.
pub arp_reply-is_arp_request_for_ipv4 :
    (request own_mac own_ip : Bytes)
    → is_arp_request_for_ipv4 request own_ip ≡ true
    → length own_mac ≡ 6
    → length own_ip ≡ 4
    → (reply : Bytes) × (arp_reply request own_mac own_ip ≡ some reply)
      × (length reply ≡ 42)
      × (take 6 reply ≡ take 6 (drop 6 request))
      × (take 6 (drop 6 reply) ≡ own_mac)
      × (take 2 (drop 12 reply) ≡ 0x08 ∷ 0x06 ∷ [])
      × (take 6 (drop 14 reply) ≡ take 6 (drop 14 request))
      × (get_or reply 20 0 * 256 + get_or reply 21 0 ≡ 2)
      × (take 6 (drop 22 reply) ≡ own_mac)
      × (take 4 (drop 28 reply) ≡ own_ip)
      × (take 6 (drop 32 reply) ≡ take 6 (drop 22 request))
      × (take 4 (drop 38 reply) ≡ take 4 (drop 28 request))
      × (is_arp_request_for_ipv4 reply own_ip ≡ false)
unfolding is_arp_request_for_ipv4 arp_reply
arp_reply-is_arp_request_for_ipv4 request own_mac own_ip h m n =
    let long : 42 ≤ length request = ground (arith, h) in
    let dst = take 6 (drop 6 request) in
    let kinds = take 6 (take 8 (drop 14 request)) in
    let mac = take 6 (drop 22 request) in
    let ip = take 4 (drop 28 request) in
    let kinds_length : length kinds ≡ 6 = omega (
      arith,
      length-take 6 (take 8 (drop 14 request)),
      part_length request 14 8 long (omega arith),
    ) in
    let p =
      joined_parts dst kinds own_mac own_ip mac ip
        (six dst (part_length request 6 6 long (omega arith))) (six kinds kinds_length)
        (six own_mac m) (six mac (part_length request 22 6 long (omega arith))) (four own_ip n)
        (four ip (part_length request 28 4 long (omega arith))) in
    (
      joined dst kinds own_mac own_ip mac ip,
      ground (arith, long),
      p.0,
      p.1,
      p.2,
      p.3,
      p.4 ∙ take-take 6 8 (drop 14 request) (omega arith),
      p.5,
      p.6,
      p.7,
      p.8,
      p.9,
      not_request (joined dst kinds own_mac own_ip mac ip) own_ip p.5,
    )
