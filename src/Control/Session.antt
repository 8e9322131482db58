-- ===== src/Control/Session.antt =====
-- internal/control/handler.go:52-90: what makes the handler refuse a request to join, in order.
use anylan.Base.{
  ◌≡◌, Bool, true, false, not, Option, none, some, if◌then◌else◌, Result, ok, err, Bool-cases,
  Option-cases, inl, inr, ◌⊎◌, [], ◌∷◌, refl, sym,
}
use anylan.Base.Bytes.{Bytes, text}
use anylan.Base.Int.{ℤ, pos, int_eq, int_eq_iff}
use anylan.Protocol.Messages.{JoinRoom}
use anylan.Relay.Room.{JoinOptions}
use anylan.Control.{filter_supported_features}

abbrev pub version : ℤ
version = pos 1

abbrev pub is_empty : Bytes → Bool
is_empty [] = true
is_empty (b ∷ s) = false

module _ (trim_space : Bytes → Bytes) (parse_mac : Bytes → Option Bytes) where
  -- The address that the request asks for, if any.
  unfoldable pub requested_mac : JoinRoom → Result Bytes (Option Bytes)
  requested_mac join =
      if is_empty (trim_space join.mac) then ok none else elim (parse_mac join.mac) [
        | none ↦ err (text "invalid mac address")
        | some mac ↦ ok (some mac)
      ]

  -- The room and the options that are passed to `Manager.Join`, or the reason of the rejection.
  unfoldable pub check_join : JoinRoom → Result Bytes (Bytes × JoinOptions)
  unfolding requested_mac filter_supported_features
  check_join join =
      let room = trim_space join.room in
      if not (int_eq join.version version)
      then err (text "unsupported protocol version")
      else if is_empty room
      then err (text "room is required")
      else elim (requested_mac join) [
        | err reason ↦ err reason
        | ok mac ↦ ok (
          room,
          record {
            display_name = join.display_name;
            requested_mac = mac;
            features = filter_supported_features join.features;
          },
        )
      ]

  -- The outcomes of the checks: a reason, or what is passed on.
  abbrev pub Checked : JoinRoom → Type 0
  Checked join =
      ((reason : Bytes) × (check_join join ≡ err reason)
        × ((int_eq join.version version ≡ false)
            ⊎ (is_empty (trim_space join.room) ≡ true)
            ⊎ ((parse_mac join.mac ≡ none) × (is_empty (trim_space join.mac) ≡ false))))
      ⊎ ((opt : JoinOptions) × (check_join join ≡ ok (trim_space join.room, opt))
          × (join.version ≡ version)
          × (is_empty (trim_space join.room) ≡ false)
          × (opt.features ≡ filter_supported_features join.features)
          × ((opt.requested_mac ≡ none) ⊎ (opt.requested_mac ≡ parse_mac join.mac)))

  -- A request that is passed on has the version of the protocol and the name of a room, and an
  -- address only if it parsed; nothing else makes the handler refuse a request.
  pub check_join_cases : (join : JoinRoom) → Checked join
  unfolding check_join requested_mac
  check_join_cases join = elim (Bool-cases (int_eq join.version version)) [
    | inr old ↦ inl (text "unsupported protocol version", rw old refl, inl old)
    | inl same ↦ elim (Bool-cases (is_empty (trim_space join.room))) [
      | inl empty ↦ inl (text "room is required", rw (same, empty) refl, inr (inl empty))
      | inr named ↦
          let opt : Option Bytes → JoinOptions = λ mac. record {
            display_name = join.display_name;
            requested_mac = mac;
            features = filter_supported_features join.features;
          } in
          let agrees = (int_eq_iff join.version version).0 same in
          elim (Bool-cases (is_empty (trim_space join.mac))) [
            | inl any ↦ inr (opt none, rw (same, named, any) refl, agrees, named, refl, inl refl)
            | inr asked ↦ elim (Option-cases (parse_mac join.mac)) [
              | inl bad ↦ inl (
                text "invalid mac address",
                rw (same, named, asked, bad) refl,
                inr (inr (bad, asked)),
              )
              | inr (mac, good) ↦ inr (
                opt (some mac),
                rw (same, named, asked, good) refl,
                agrees,
                named,
                refl,
                inr (sym good),
              )
            ]
          ]
    ]
  ]
