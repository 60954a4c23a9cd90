-- ===== src/Streams/Schedule.antt =====
-- The watchdog seen abstractly: how one stream may move in a second.
pub mod Cells
pub mod Loop
pub mod Refinement
pub mod Timeline
pub mod Silence
use demo_colombia.Base.{ℕ, suc, ◌+◌, ◌≤◌, ◌<◌, ◌≡◌, refl, ap, ◌∙◌, true, some, none, is_some}
use demo_colombia.Base.Int.{ℤ}
use demo_colombia.Pipeline.{Pipeline, StreamSourceInfo, idle, waiting, add_stream}
use demo_colombia.Streams.{new_stream}

-- One second of a stream, before its frame counter is reset.
pub data WatchStep (t : StreamSourceInfo) : StreamSourceInfo → Type 0 where
  -- a stream without a bin is left alone
  unwatched : t.source_bin ≡ none → WatchStep t t
  -- frames came
  alive :
      is_some t.source_bin ≡ true
      → 0 < t.frame_count
      → WatchStep t (record t { no_frame_count = 0 })
  -- another silent second
  silent :
      is_some t.source_bin ≡ true
      → t.frame_count ≡ 0
      → t.no_frame_count < 20
      → WatchStep t (record t { no_frame_count = t.no_frame_count + 1 })
  -- silent for more than twenty seconds: the source is deleted
  deleted :
      is_some t.source_bin ≡ true
      → t.frame_count ≡ 0
      → t.reset ≡ idle
      → 20 ≤ t.no_frame_count
      → WatchStep t (record t { no_frame_count = t.no_frame_count + 1; reset = waiting })
  -- deleted, and not yet due
  waits :
      is_some t.source_bin ≡ true
      → t.frame_count ≡ 0
      → t.reset ≡ waiting
      → 20 ≤ t.no_frame_count
      → t.no_frame_count < 29
      → WatchStep t (record t { no_frame_count = t.no_frame_count + 1 })
  -- silent for thirty seconds: due to be added again
  due :
      is_some t.source_bin ≡ true
      → t.frame_count ≡ 0
      → t.reset ≡ waiting
      → 29 ≤ t.no_frame_count
      → WatchStep t (record t { no_frame_count = t.no_frame_count + 1; reset = add_stream })
  -- added again, as a fresh stream
  readded :
      (b : ℕ)
      → is_some t.source_bin ≡ true
      → t.frame_count ≡ 0
      → t.reset ≡ add_stream
      → 20 ≤ t.no_frame_count
      → WatchStep t (new_stream t.uri t.camera_id t.pad_index t.description (some b))
  -- the new bin could not be made: the stream is left without one
  lost :
      is_some t.source_bin ≡ true
      → t.frame_count ≡ 0
      → t.reset ≡ add_stream
      → 20 ≤ t.no_frame_count
      → WatchStep t (record t { no_frame_count = t.no_frame_count + 1; source_bin = none })

-- One second of a stream: a step, then the frame counter is reset.
abbrev pub Second : StreamSourceInfo → StreamSourceInfo → Type 0
Second t t' = (u : StreamSourceInfo) × WatchStep t u × (t' ≡ record u { frame_count = 0 })

-- No second changes which cell a stream is for.
pub Second-pad_index : (t t' : StreamSourceInfo) → Second t t' → t'.pad_index ≡ t.pad_index
Second-pad_index t t' (u, st, e) = ap (λ s. s.pad_index) e ∙ same st
  where
    same : {v : StreamSourceInfo} → WatchStep t v → v.pad_index ≡ t.pad_index
    same (unwatched _) = refl
    same (alive _ _) = refl
    same (silent _ _ _) = refl
    same (deleted _ _ _ _) = refl
    same (waits _ _ _ _ _) = refl
    same (due _ _ _ _) = refl
    same (readded _ _ _ _ _) = refl
    same (lost _ _ _ _) = refl
