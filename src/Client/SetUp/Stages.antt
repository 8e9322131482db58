-- ===== src/Client/SetUp/Stages.antt =====
-- What each stage of the set-up of a session comes to: the device, the answer and the start.
use anylan.Base.{
  ◌≡◌, ◌≢◌, ◌⊎◌, inl, inr, refl, sym, true, false, ◌==◌, [], ◌++◌, Option, none, some, arith,
  Result, ok, err, Bool-cases, Option-cases, Result-cases,
}
use mathlib.Core.Path.{subst}
use anylan.Base.Bytes.{Bytes, text}
use anylan.Base.Formatting.{decimal}
use anylan.Protocol.{
  Error, Reader, MessageType, read_message, type_join_accept, type_join_reject, max_control_size,
}
use anylan.Protocol.Messages.{JoinAccept, JoinReject}
use anylan.Tap.{layer_ip, device_layer}
use anylan.Client.Config.{Config}
use anylan.Client.Session.{SessionError, fatal_error, other_error, check_response}
use anylan.Client.SetUp.{
  Network, Device, Start, ip_loops, ethernet_loops, early_device, open_tap, read_answer,
  session_device, choose_loops, start_device,
}

-- The device that is opened first, where the system asks for its address.
pub data Early (n : Network) (cfg : Config)
    : Result SessionError (Option Device × Bytes) → Type 0 where
  later : n.should_advertise_mac ≡ false → Early n cfg (ok (none, []))
  unopened :
      (x : Bytes)
      → n.should_advertise_mac ≡ true
      → n.open_device cfg.device_name ≡ err x
      → Early n cfg (err (fatal_error (text "open TAP device: " ++ x)))
  no_address :
      (d : Device) (x : Bytes)
      → n.should_advertise_mac ≡ true
      → n.open_device cfg.device_name ≡ ok d
      → n.advertise_mac d ≡ err x
      → Early n cfg (err (fatal_error (text "read TAP MAC address: " ++ x)))
  opened :
      (d : Device) (mac : Bytes)
      → n.should_advertise_mac ≡ true
      → n.open_device cfg.device_name ≡ ok d
      → n.advertise_mac d ≡ ok mac
      → Early n cfg (ok (some d, mac))

-- What the first message of the control stream comes to.
pub data Answer (n : Network) (r : Reader) : Result SessionError JoinAccept → Type 0 where
  no_message :
      (x : Error)
      → read_message r max_control_size ≡ err x
      → Answer n r (err (other_error (n.error_text x)))
  refusal :
      (p : Bytes) (rest : Reader) (j : JoinReject)
      → read_message r max_control_size ≡ ok (type_join_reject, p, rest)
      → n.rejects.unmarshal p ≡ some j
      → Answer n r (err (fatal_error (text "join rejected: " ++ j.reason)))
  bad_refusal :
      (p : Bytes) (rest : Reader)
      → read_message r max_control_size ≡ ok (type_join_reject, p, rest)
      → n.rejects.unmarshal p ≡ none
      → Answer n r (err (fatal_error (text "decode join reject: " ++ n.json_text)))
  other_type :
      (typ : MessageType) (p : Bytes) (rest : Reader)
      → read_message r max_control_size ≡ ok (typ, p, rest)
      → typ ≢ type_join_reject
      → typ ≢ type_join_accept
      → Answer n r (err (fatal_error (text "unexpected join response type " ++ decimal typ)))
  bad_accept :
      (p : Bytes) (rest : Reader)
      → read_message r max_control_size ≡ ok (type_join_accept, p, rest)
      → n.accepts.unmarshal p ≡ none
      → Answer n r (err (fatal_error (text "decode join accept: " ++ n.json_text)))
  accepts :
      (p : Bytes) (rest : Reader) (accept : JoinAccept)
      → read_message r max_control_size ≡ ok (type_join_accept, p, rest)
      → n.accepts.unmarshal p ≡ some accept
      → Answer n r (ok accept)

-- The goroutines that start for a device, which are those of IP packets or of Ethernet frames.
abbrev pub Loops : Network → Device → JoinAccept → Start → Type 0
Loops n d accept loops =
    ((device_layer d.layer ≡ layer_ip)
      × (mac : Bytes) × (ip : Bytes) × (n.parse_mac accept.mac ≡ ok mac)
      × (n.parse_ipv4 accept.ipv4 ≡ some ip)
      × (loops ≡ ip_loops mac ip))
    ⊎ ((device_layer d.layer ≢ layer_ip) × (loops ≡ ethernet_loops))

-- A start after an accept: the device is the early one, or opened now; it was configured with what
-- the accept assigns, and the data stream was accepted.
pub data Started (n : Network) (cfg : Config) (early : Option Device) (accept : JoinAccept)
    : Result SessionError Start → Type 0 where
  not_started : (e : SessionError) → Started n cfg early accept (err e)
  started :
      (d : Device) (loops : Start)
      → (early ≡ some d) ⊎ ((early ≡ none) × (n.open_device cfg.device_name ≡ ok d))
      → n.configure d.name accept.mac accept.cidr accept.mtu cfg.prioritize_virtual_adapter ≡ none
      → n.accept_stream ≡ none
      → Loops n d accept loops
      → Started n cfg early accept (ok loops)

module _ (n : Network) (cfg : Config) where
  pub early_device-Early : Early n cfg (early_device n cfg)
  unfolding early_device open_tap
  early_device-Early = elim (Bool-cases n.should_advertise_mac) [
    | inr quiet ↦ subst (Early n cfg) (sym (ground (arith, quiet))) (later quiet)
    | inl asked ↦ elim (Result-cases (n.open_device cfg.device_name)) [
      | inr (x, e) ↦ subst (Early n cfg) (sym (ground (arith, asked, e))) (unopened x asked e)
      | inl (d, e) ↦ elim (Result-cases (n.advertise_mac d)) [
        | inr (x, f) ↦
            subst (Early n cfg) (sym (ground (arith, asked, e, f))) (no_address d x asked e f)
        | inl (mac, f) ↦
            subst (Early n cfg) (sym (ground (arith, asked, e, f))) (opened d mac asked e f)
      ]
    ]
  ]

  pub read_answer-Answer : (r : Reader) → Answer n r (read_answer n r)
  unfolding read_answer check_response
  read_answer-Answer r = elim (Result-cases (read_message r max_control_size)) [
    | inr (x, e) ↦ subst (Answer n r) (sym (ground (arith, e))) (no_message x e)
    | inl ((typ, p, rest), e) ↦ elim (Bool-cases (typ == type_join_reject)) [
      | inl t ↦
          let f : read_message r max_control_size ≡ ok (type_join_reject, p, rest) =
            ground (arith, e, t) in
          elim (Option-cases (n.rejects.unmarshal p)) [
            | inl u ↦ subst (Answer n r) (sym (ground (arith, f, u))) (bad_refusal p rest f u)
            | inr (j, u) ↦ subst (Answer n r) (sym (ground (arith, f, u))) (refusal p rest j f u)
          ]
      | inr t ↦ elim (Bool-cases (typ == type_join_accept)) [
        | inr a ↦ subst (Answer n r) (sym (ground (arith, e, t, a))) (
            other_type typ p rest e (λ x. absurd (ground (arith, x, t)))
              (λ x. absurd (ground (arith, x, a))))
        | inl a ↦
            let f : read_message r max_control_size ≡ ok (type_join_accept, p, rest) =
              ground (arith, e, a) in
            elim (Option-cases (n.accepts.unmarshal p)) [
              | inl u ↦ subst (Answer n r) (sym (ground (arith, f, u))) (bad_accept p rest f u)
              | inr (accept, u) ↦
                  subst (Answer n r) (sym (ground (arith, f, u))) (accepts p rest accept f u)
            ]
      ]
    ]
  ]

  choose_loops_cases :
      (d : Device) (accept : JoinAccept)
      → ((e : SessionError) × (choose_loops n d accept ≡ err e))
        ⊎ ((loops : Start) × (choose_loops n d accept ≡ ok loops) × Loops n d accept loops)
  unfolding choose_loops
  choose_loops_cases d accept = elim (Bool-cases (device_layer d.layer == layer_ip)) [
    | inr other ↦
        inr (
          ethernet_loops,
          ground (arith, other),
          inr (λ x. absurd (ground (arith, x, other)), refl),
        )
    | inl packets ↦ elim (Result-cases (n.parse_mac accept.mac)) [
      | inr (x, m) ↦
          inl (fatal_error (text "parse assigned MAC: " ++ x), ground (arith, packets, m))
      | inl (mac, m) ↦ elim (Option-cases (n.parse_ipv4 accept.ipv4)) [
        | inl i ↦ inl (
          fatal_error (text "parse assigned IPv4: " ++ accept.ipv4),
          ground (arith, packets, m, i),
        )
        | inr (ip, i) ↦ inr (
          ip_loops mac ip,
          ground (arith, packets, m, i),
          inl (ground (arith, packets), mac, ip, m, i, refl),
        )
      ]
    ]
  ]

  session_device_cases :
      (early : Option Device)
      → ((e : SessionError) × (session_device n cfg early ≡ err e))
        ⊎ ((d : Device) × (session_device n cfg early ≡ ok d)
            × ((early ≡ some d) ⊎ ((early ≡ none) × (n.open_device cfg.device_name ≡ ok d))))
  unfolding session_device open_tap
  session_device_cases (some d) = inr (d, refl, inl refl)
  session_device_cases none = elim (Result-cases (n.open_device cfg.device_name)) [
    | inl (d, e) ↦ inr (d, ground (arith, e), inr (refl, e))
    | inr (x, e) ↦ inl (fatal_error (text "open TAP device: " ++ x), ground (arith, e))
  ]

  pub start_device-Started :
      (early : Option Device) (accept : JoinAccept)
      → Started n cfg early accept (start_device n cfg early accept)
  unfolding start_device
  start_device-Started early accept =
      let P = Started n cfg early accept in
      elim (session_device_cases early) [
        | inl (e, h) ↦ subst P (sym (ground (arith, h))) (not_started e)
        | inr (d, h, whence) ↦
            elim (Option-cases (
              n.configure d.name accept.mac accept.cidr accept.mtu
                cfg.prioritize_virtual_adapter)) [
                  | inr (x, g) ↦
                      subst P (sym (ground (arith, h, g)))
                        (not_started (fatal_error (text "configure TAP device: " ++ x)))
                  | inl g ↦ elim (Option-cases n.accept_stream) [
                    | inr (x, a) ↦
                        subst P (sym (ground (arith, h, g, a))) (not_started (other_error x))
                    | inl a ↦ elim (choose_loops_cases d accept) [
                      | inl (e, l) ↦ subst P (sym (ground (arith, h, g, a, l))) (not_started e)
                      | inr (loops, l, which) ↦
                          subst P (sym (ground (arith, h, g, a, l)))
                            (started d loops whence g a which)
                    ]
                  ]
                ]
      ]
