-- ===== src/Relay/Tests/Peers.antt =====
-- The theorems on one peer, on a new one.
use anylan.Base.{ℕ, ◌≤◌, ◌+◌, ◌*◌, List, [], ◌∷◌, arith}
use anylan.Relay.Peer.{new_state, max_peer_frames, max_peer_bytes}
use anylan.Relay.Peer.Rate.{passed_frames, passed_bytes, passed_in-Burst}

abbrev calls : List (ℕ × ℕ)
calls = (100, 60) ∷ (200, 1400) ∷ []

passed_in-Burst_example :
    (new_state.window_frames + passed_frames new_state calls ≤ 2 * max_peer_frames)
    × (new_state.window_bytes + passed_bytes new_state calls ≤ 2 * max_peer_bytes)
unfolding new_state
passed_in-Burst_example =
    passed_in-Burst calls 1 new_state
      (record { frames_limited = omega arith; bytes_limited = omega arith }) (omega arith)
      ((omega arith, omega arith), ((omega arith, omega arith), tt))
