-- ===== src/Tap/Linux/Listing.antt =====
-- ListDevices on Linux: every interface once, after the default device.
use anylan.Base.{
  ◌≡◌, ◌∙◌, refl, false, ◌||◌, List, [], ◌∷◌, map, arith, ok, inl, inr, Bool-cases, none,
  if◌then◌else◌,
}
use anylan.Base.Bytes.{Bytes, bytes_eq, bytes_eq_iff}
use anylan.Tap.{DeviceInfo}
use anylan.Tap.Linux.{
  Files, default_device, default_device_name, interface_device, is_seen, list_new, list_devices,
}

abbrev pub names_of : List DeviceInfo → List Bytes
names_of ds = map (λ (d : DeviceInfo). d.name) ds

-- No name stands twice.
abbrev pub IsApart : List Bytes → Type 0
IsApart [] = Unit {0}
IsApart (n ∷ names) = (is_seen n names ≡ false) × IsApart names

module _ (f : Files) where
  -- A name is listed when it is among the interfaces and was not seen before.
  list_new-is_seen :
      (n : Bytes) (seen names : List Bytes)
      → is_seen n (names_of (list_new f seen names))
        ≡ (if is_seen n seen then false else is_seen n names)
  unfolding is_seen list_new interface_device
  list_new-is_seen n seen [] = ground arith
  list_new-is_seen n seen (m ∷ names) =
      ground (
        arith,
        list_new-is_seen n seen names,
        list_new-is_seen n (m ∷ seen) names,
        bytes_eq_iff m n,
      )

  list_new-IsApart : (seen names : List Bytes) → IsApart (names_of (list_new f seen names))
  unfolding is_seen list_new interface_device
  list_new-IsApart seen [] = tt
  list_new-IsApart seen (m ∷ names) = elim (Bool-cases (is_seen m seen)) [
    | inl old ↦ rw old (list_new-IsApart seen names)
    | inr new ↦ rw new (
      list_new-is_seen m (m ∷ seen) names ∙ ground (arith, bytes_eq_iff m m),
      list_new-IsApart (m ∷ seen) names,
    )
  ]

  -- With the interfaces of the system, ListDevices gives no error, lists no name twice, and lists
  -- exactly the default name and those of the interfaces.
  pub list_devices-IsApart :
      (names : List Bytes)
      → (ds : List DeviceInfo) × (list_devices f (ok names) ≡ (ds, none))
        × IsApart (names_of ds)
        × ((n : Bytes)
            → is_seen n (names_of ds) ≡ (bytes_eq default_device_name n || is_seen n names))
  unfolding list_devices default_device is_seen
  list_devices-IsApart names = (
    default_device ∷ list_new f (default_device_name ∷ []) names,
    refl,
    (
      list_new-is_seen default_device_name (default_device_name ∷ []) names
          ∙ ground (arith, bytes_eq_iff default_device_name default_device_name),
      list_new-IsApart (default_device_name ∷ []) names,
    ),
    λ n. ground (arith, list_new-is_seen n (default_device_name ∷ []) names),
  )
