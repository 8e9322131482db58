-- ===== src/Relay/Error.antt =====
-- The package's errors: its error variables, a failed read of crypto/rand, and the error of
-- `ipv4ToUint32`.
pub data Error : Type 0 where
  room_full room_closed pool_full mac_in_use mac_invalid invalid_frame source_mac_invalid : Error
  rand_failure not_ipv4 : Error
