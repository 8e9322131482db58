-- ===== src/Capture/Frames/Total.antt =====
-- The record of a frame never panics, and what it says of the Ethernet header.
use anylan.Base.{
  ℕ, ◌+◌, ◌*◌, ◌≤◌, ◌<◌, ◌≡◌, refl, Bool, true, false, ◌||◌, ◌&&◌, Option, none, some, arith,
  length, ltb, leb, drop, take, get_or, le→leb, ◌==◌, Bool-cases, ltb→lt, ◌⊎◌, Option-cases, inl,
  inr, not,
}
use mathlib.Core.Path.{subst}
use anylan.Base.Bytes.{Bytes, text}
use anylan.Capture.{Event}
use anylan.Capture.Frames.{
  parse_ports, parse_icmpv4, parse_icmpv6, parse_arp, parse_ipv4, parse_ipv6, parse_payload,
  parse_typed, addressed, parse_frame, typed, addressed,
}

-- The result is an event, not a panic, which agrees with the given one on the Ethernet header.
abbrev Kept : Event → Option Event → Type 0
Kept e none = true ≡ false
Kept e (some f) =
    (f.valid ≡ e.valid)
    × (f.size ≡ e.size)
    × (f.vlan ≡ e.vlan)
    × (f.src_mac ≡ e.src_mac)
    × (f.dst_mac ≡ e.dst_mac)

parse_ports-Kept : (e : Event) (payload prefix : Bytes) → Kept e (parse_ports e payload prefix)
unfolding parse_ports
parse_ports-Kept e payload prefix = ground arith

parse_icmpv4-Kept : (e : Event) (payload : Bytes) → Kept e (parse_icmpv4 e payload)
unfolding parse_icmpv4
parse_icmpv4-Kept e payload = ground arith

parse_icmpv6-Kept : (e : Event) (payload : Bytes) → Kept e (parse_icmpv6 e payload)
unfolding parse_icmpv6
parse_icmpv6-Kept e payload = ground arith

-- The EtherType is that of a VLAN tag, of a customer or of a provider.
abbrev pub is_tagged : Bytes → Bool
is_tagged frame =
    let kind = get_or frame 12 0 * 256 + get_or frame 13 0 in
    leb 14 (length frame) && (kind == 0x8100 || kind == 0x88a8)

module _ (ip_string : Bytes → Bytes) where
  parse_arp-Kept : (e : Event) (payload : Bytes) → Kept e (parse_arp ip_string e payload)
  unfolding parse_arp
  parse_arp-Kept e payload = ground arith

  parse_ipv4-Kept : (e : Event) (payload : Bytes) → Kept e (parse_ipv4 ip_string e payload)
  unfolding parse_ipv4 parse_icmpv4 parse_ports
  parse_ipv4-Kept e payload = ground arith

  parse_ipv6-Kept : (e : Event) (payload : Bytes) → Kept e (parse_ipv6 ip_string e payload)
  unfolding parse_ipv6 parse_icmpv6 parse_ports
  parse_ipv6-Kept e payload = ground arith

  parse_payload-Kept :
      (e : Event) (ether_type : ℕ) (payload : Bytes)
      → Kept e (parse_payload ip_string e ether_type payload)
  unfolding parse_payload
  parse_payload-Kept e ether_type payload =
      ground (arith, parse_arp-Kept e payload, parse_ipv4-Kept e payload, parse_ipv6-Kept e payload)

  typed-Kept :
      (e : Event) (ether_type : ℕ) (r : Option Event) → Kept (typed e ether_type) r → Kept e r
  unfolding typed
  typed-Kept e ether_type none h = h
  typed-Kept e ether_type (some f) h = h

  parse_typed-Kept :
      (e : Event) (ether_type : ℕ) (frame : Bytes) (at : ℕ)
      → at ≤ length frame
      → Kept e (parse_typed ip_string e ether_type frame at)
  unfolding parse_typed
  parse_typed-Kept e ether_type frame at h =
      typed-Kept e ether_type (parse_typed ip_string e ether_type frame at) (
        rw (le→leb at (length frame) h)
          (parse_payload-Kept (typed e ether_type) ether_type (drop at frame)))

  -- The result is an event of the frame, and says whether its Ethernet header is whole.
  abbrev Described : Bytes → Option Event → Type 0
  Described frame none = true ≡ false
  Described frame (some e) =
      (e.size ≡ length frame)
      × (e.vlan ≡ is_tagged frame)
      × (e.valid ≡ (leb 14 (length frame) && (leb 18 (length frame) || not e.vlan)))

  Kept-Described :
      (frame : Bytes) (e : Event) (r : Option Event)
      → Kept e r
      → Described frame (some e)
      → Described frame r
  Kept-Described frame e none k d = k
  Kept-Described frame e (some f) k d = ground (arith, k, d)

  typed-Described :
      (frame dst src : Bytes) (b : Bool) (kind at : ℕ)
      → is_tagged frame ≡ b
      → at ≤ length frame
      → 14 ≤ length frame
      → (b ≡ false) ⊎ (18 ≤ length frame)
      → Described frame (
          parse_typed ip_string
            (record (addressed (length frame) dst src) { vlan = b })
            kind
            frame
            at)
  unfolding addressed
  typed-Described frame dst src b kind at t h g v =
      let e : Event = record (addressed (length frame) dst src) { vlan = b } in
      Kept-Described frame e (parse_typed ip_string e kind frame at)
        (parse_typed-Kept e kind frame at h) (refl, ground (arith, t), ground (arith, t))

  short-Described :
      (frame dst src reason : Bytes)
      → is_tagged frame ≡ true
      → 14 ≤ length frame
      → length frame < 18
      → Described frame (
          some (record (addressed (length frame) dst src) {
            vlan = true;
            valid = false;
            reason = reason;
          }))
  unfolding addressed
  short-Described frame dst src reason t h g = (refl, ground (arith, t), ground arith)

  parse_frame-Described : (frame : Bytes) → Described frame (parse_frame ip_string frame)
  unfolding parse_frame addressed
  parse_frame-Described frame =
      let dst = take 6 (drop 0 frame) in
      let src = take 6 (drop 6 frame) in
      let kind = get_or frame 12 0 * 256 + get_or frame 13 0 in
      let inner = get_or frame 16 0 * 256 + get_or frame 17 0 in
      elim (Bool-cases (ltb (length frame) 14)) [
        | inl h ↦ rw h (refl, ground (arith, h), ground arith)
        | inr h ↦
            let p : (ltb 13 (length frame) ≡ true)
                × (leb 6 (length frame) ≡ true)
                × (leb 12 (length frame) ≡ true) =
              ground (arith, h) in
            let long : 14 ≤ length frame = ground (arith, h) in
            elim (Bool-cases (kind == 0x8100 || kind == 0x88a8)) [
              | inr g ↦
                  rw (h, p.1, p.2, p.0, g)
                    (typed-Described frame dst src false kind 14 (ground (arith, g)) long long
                      (inl refl))
              | inl g ↦ elim (Bool-cases (ltb (length frame) 18)) [
                | inl s ↦
                    rw (h, p.1, p.2, p.0, g, s)
                      (short-Described frame dst src (text "vlan frame too short")
                        (ground (arith, long, g)) long (ltb→lt (length frame) 18 s))
                | inr s ↦
                    let tag : 18 ≤ length frame = ground (arith, s) in
                    let q : ltb 17 (length frame) ≡ true = ground (arith, s) in
                    rw (h, p.1, p.2, p.0, g, s, q)
                      (typed-Described frame dst src true inner 18 (ground (arith, long, g)) tag
                        long (inr tag))
              ]
            ]
      ]

  -- The record of any frame is an event and not a panic, and it is valid exactly when the frame has
  -- its whole Ethernet header: 14 bytes, or 18 with a VLAN tag, which is told by its EtherType
  -- 0x8100 or 0x88a8; the record says whether there is one.
  pub parse_frame_total :
      (frame : Bytes)
      → (e : Event) × (parse_frame ip_string frame ≡ some e)
        × (e.size ≡ length frame)
        × (e.vlan ≡ is_tagged frame)
        × (e.valid ≡ (leb 14 (length frame) && (leb 18 (length frame) || not (is_tagged frame))))
  parse_frame_total frame = elim (Option-cases (parse_frame ip_string frame)) [
    | inl n ↦ absurd (ground (arith, subst (Described frame) n (parse_frame-Described frame)))
    | inr (e, r) ↦
        let d = subst (Described frame) r (parse_frame-Described frame) in
        (e, r, d.0, d.1, ground (arith, d.1, d.2))
  ]
