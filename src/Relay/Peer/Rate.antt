-- ===== src/Relay/Peer/Rate.antt =====
-- The limit on the frames of a peer: at most 5000 frames and 20 MiB in a window of one second.
use anylan.Base.{
  ℕ, ◌+◌, ◌-◌, ◌≤◌, ◌<◌, ◌≡◌, true, false, ◌⊎◌, inl, inr, List, [], ◌∷◌, arith, if◌then◌else◌, ◌*◌,
  ◌≢◌, sym, ◌∙◌, All,
}
use anylan.Relay.Peer.{
  PeerState, allow_frame, max_peer_frames, max_peer_bytes, frame_rate_window, open_window,
}

pub record IsLimited (s : PeerState) : Type 0 where
  pub frames_limited : s.window_frames ≤ max_peer_frames
  pub bytes_limited : s.window_bytes ≤ max_peer_bytes

-- How many of the calls `(now, size)` answer `true`, and how many bytes those have.
unfoldable pub passed_frames : PeerState → List (ℕ × ℕ) → ℕ
passed_frames s [] = 0
passed_frames s ((now, size) ∷ calls) =
    let (s', passed) = allow_frame now size s in (if passed then 1 else 0) + passed_frames s' calls

unfoldable pub passed_bytes : PeerState → List (ℕ × ℕ) → ℕ
passed_bytes s [] = 0
passed_bytes s ((now, size) ∷ calls) =
    let (s', passed) = allow_frame now size s in
    (if passed then size else 0) + passed_bytes s' calls

-- A call answers `true` exactly when the frame fits the window that it falls in, counts the frame
-- then, and keeps the counts within the limits.
allow_frame_lem :
    (now size : ℕ) (s : PeerState)
    → IsLimited s
    → let w = open_window now s in
      IsLimited (allow_frame now size s).0
      × (((w.window_frames < max_peer_frames)
            × (w.window_bytes + size ≤ max_peer_bytes)
            × (allow_frame now size s ≡ (
              record w {
                window_frames = w.window_frames + 1;
                window_bytes = w.window_bytes + size;
              },
              true,
            )))
          ⊎ (((max_peer_frames ≤ w.window_frames) ⊎ (max_peer_bytes < w.window_bytes + size))
              × (allow_frame now size s ≡ (w, false))))
unfolding allow_frame
allow_frame_lem now size s v = ground arith

-- Every call falls in the window that the state has open.
abbrev pub InWindow : PeerState → List (ℕ × ℕ) → Type 0
InWindow s = All (λ (c : ℕ × ℕ). c.0 - s.window_start < frame_rate_window)

-- A call inside the open window counts itself and opens no other window.
allow_frame_inside :
    (now size : ℕ) (s : PeerState)
    → IsLimited s
    → s.window_start ≢ 0
    → now - s.window_start < frame_rate_window
    → let (t, passed) = allow_frame now size s in
      IsLimited t
      × (t.window_start ≡ s.window_start)
      × (t.window_frames ≡ s.window_frames + (if passed then 1 else 0))
      × (t.window_bytes ≡ s.window_bytes + (if passed then size else 0))
unfolding allow_frame
allow_frame_inside now size s v h w = ground arith

-- The frames that pass in one window fit its two limits together with those counted before.
pub passed-InWindow :
    (calls : List (ℕ × ℕ)) (s : PeerState)
    → IsLimited s
    → s.window_start ≢ 0
    → InWindow s calls
    → (s.window_frames + passed_frames s calls ≤ max_peer_frames)
      × (s.window_bytes + passed_bytes s calls ≤ max_peer_bytes)
unfolding passed_frames passed_bytes
passed-InWindow [] s v h w = ground arith
passed-InWindow ((now, size) ∷ calls) s v h w =
    let (l, e, f, b) = allow_frame_inside now size s v h w.0 in
    let t = (allow_frame now size s).0 in
    let ih = passed-InWindow calls t l (λ z. h (sym e ∙ z)) (rw e w.1) in omega (arith, f, b, ih)

-- A call starts a window of its own, or is counted in the open one.
allow_frame_restart :
    (now size : ℕ) (s : PeerState)
    → IsLimited s
    → let (t, passed) = allow_frame now size s in
      IsLimited t
      × (((t.window_start ≡ now)
            × (t.window_frames ≡ (if passed then 1 else 0))
            × (t.window_bytes ≡ (if passed then size else 0)))
          ⊎ ((t.window_start ≡ s.window_start)
              × (t.window_frames ≡ s.window_frames + (if passed then 1 else 0))
              × (t.window_bytes ≡ s.window_bytes + (if passed then size else 0))))
unfolding allow_frame
allow_frame_restart now size s v = ground arith

-- All calls fall in less than a second that starts at `from`.
abbrev pub Burst : ℕ → List (ℕ × ℕ) → Type 0
Burst from = All (λ (c : ℕ × ℕ). (from ≤ c.0) × (c.0 < from + frame_rate_window))

Burst-InWindow :
    (calls : List (ℕ × ℕ)) (from : ℕ) (s : PeerState)
    → from ≤ s.window_start
    → Burst from calls
    → InWindow s calls
Burst-InWindow [] from s h b = tt
Burst-InWindow (c ∷ calls) from s h b = (omega arith, Burst-InWindow calls from s h b.1)

-- Whatever the calls before, in any stretch shorter than a second at most two windows are used:
-- what the open one has left, and a new one.
pub passed_in-Burst :
    (calls : List (ℕ × ℕ)) (from : ℕ) (s : PeerState)
    → IsLimited s
    → 0 < from
    → Burst from calls
    → (s.window_frames + passed_frames s calls ≤ 2 * max_peer_frames)
      × (s.window_bytes + passed_bytes s calls ≤ 2 * max_peer_bytes)
unfolding passed_frames passed_bytes
passed_in-Burst [] from s v h b = ground arith
passed_in-Burst ((now, size) ∷ calls) from s v h b =
    let t = (allow_frame now size s).0 in
    let (l, restart) = allow_frame_restart now size s v in
    elim restart [
      | inl (e, f, g) ↦
          let inside = Burst-InWindow calls from t (omega arith) b.1 in
          omega (arith, f, g, passed-InWindow calls t l (λ z. omega arith) inside)
      | inr (e, f, g) ↦ omega (arith, f, g, passed_in-Burst calls from t l h b.1)
    ]
