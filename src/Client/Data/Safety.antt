-- ===== src/Client/Data/Safety.antt =====
-- What comes from the server cannot make a client with a TUN device panic.
use anylan.Base.{
  ℕ, ◌≡◌, ◌≢◌, refl, Bool, true, false, Option, none, some, arith, drop, Bool-cases, Option-cases,
  inl, inr, ◌==◌,
}
use anylan.Base.Bytes.{Bytes, text}
use anylan.Protocol.{Error, Writer, MessageType, write_message, type_ethernet_frame}
use anylan.Capture.{Metadata, is_enabled}
use anylan.Client.Frames.{
  is_ipv4_ethernet_frame, is_ipv4_packet, ipv4_dst, should_deliver_ipv4_to_tun,
  is_arp_request_for_ipv4, arp_reply,
}
use anylan.Client.Data.{Link, write_ethernet_as_ip, delivered, replied, capture}
use anylan.Capture.Ring.{record_frame-is_enabled}
use anylan.Client.Loops.{Turn, goes_on, ends, panics}

arp_reply_total :
    (frame own_mac own_ip : Bytes)
    → is_arp_request_for_ipv4 frame own_ip ≡ true
    → arp_reply frame own_mac own_ip ≢ none
unfolding is_arp_request_for_ipv4 arp_reply
arp_reply_total frame own_mac own_ip h e = ground (arith, h, e)

should_deliver_total :
    (frame own_ip : Bytes) (room_broadcast : Option Bytes)
    → is_ipv4_ethernet_frame frame ≡ true
    → should_deliver_ipv4_to_tun (drop 14 frame) own_ip room_broadcast ≢ none
unfolding is_ipv4_ethernet_frame is_ipv4_packet should_deliver_ipv4_to_tun ipv4_dst
should_deliver_total frame own_ip room_broadcast h e = ground (arith, h, e)

abbrev pub is_panic : {S : Type 0} → Turn S → Bool
is_panic (goes_on s) = false
is_panic (ends e s) = false
is_panic panics = true

module _ {W D : Type 0} ⦃stream : Writer W⦄ ⦃device : Writer D⦄ (ip_string : Bytes → Bytes)
    (meta : Metadata) where
  delivered_safe :
      (frame : Bytes) (now : ℕ) (l : Link W D) (p : D × Option Error)
      → is_enabled l.captures ≡ false
      → is_panic (delivered ip_string meta frame now l p) ≡ false
  unfolding delivered capture
  delivered_safe frame now l (d, some e) off = refl
  delivered_safe frame now l (d, none) off = ground (
    arith,
    record_frame-is_enabled ip_string l.captures frame now (record meta { direction = text "rx" })
        off,
  )

  replied_safe :
      (l : Link W D) (p : W × Option Error) → is_panic (replied ip_string meta l p) ≡ false
  unfolding replied
  replied_safe l (w, some e) = refl
  replied_safe l (w, none) = refl

  -- Whatever message comes from the server, a turn of a TUN client with no capture running goes on
  -- or ends with an error, and does not panic.
  pub write_ethernet_as_ip_safe :
      (own_mac own_ip : Bytes) (room_broadcast : Option Bytes) (typ : MessageType) (payload : Bytes)
      (now : ℕ) (l : Link W D)
      → is_enabled l.captures ≡ false
      → is_panic
          (write_ethernet_as_ip ip_string meta own_mac own_ip room_broadcast typ payload now l)
        ≡ false
  unfolding write_ethernet_as_ip
  write_ethernet_as_ip_safe own_mac own_ip room_broadcast typ payload now l off =
      elim (Bool-cases (typ == type_ethernet_frame)) [
        | inr other ↦ ground (arith, other)
        | inl frame ↦ elim (Bool-cases (is_arp_request_for_ipv4 payload own_ip)) [
          | inl arp ↦ elim (Option-cases (arp_reply payload own_mac own_ip)) [
            | inl n ↦ absurd (arp_reply_total payload own_mac own_ip arp n)
            | inr (reply, e) ↦ ground (
              arith,
              frame,
              arp,
              e,
              replied_safe l (write_message l.stream type_ethernet_frame reply),
            )
          ]
          | inr no_arp ↦ elim (Bool-cases (is_ipv4_ethernet_frame payload)) [
            | inr other ↦ ground (arith, frame, no_arp, other)
            | inl ipv4 ↦
                elim (Option-cases
                  (should_deliver_ipv4_to_tun (drop 14 payload) own_ip room_broadcast)) [
                    | inl n ↦ absurd (should_deliver_total payload own_ip room_broadcast ipv4 n)
                    | inr (false, e) ↦ ground (arith, frame, no_arp, ipv4, e)
                    | inr (true, e) ↦ ground (
                      arith,
                      frame,
                      no_arp,
                      ipv4,
                      e,
                      delivered_safe payload now l (device.write l.device (drop 14 payload)) off,
                    )
                  ]
          ]
        ]
      ]
