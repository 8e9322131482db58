-- ===== src/Relay.antt =====
-- internal/relay/room.go: rooms of peers that share a subnet, and the manager that owns the rooms.
-- The types and operations stand in the children; a child below one of them proves its laws.
pub mod Error
pub mod Address
pub mod Mac
pub mod Peer
pub mod Room
pub mod Manager
pub mod Snapshots
pub mod Notifications
mod Tests
