-- ===== src/Streams/Invariant.antt =====
-- What holds of the pipeline's streams between two calls of `check_performance`.
pub mod Writes
pub mod Preservation
pub mod Rounds
use demo_colombia.Base.{ℕ, ◌≤◌, ◌<◌, ◌^◌, ◌≡◌, none, some, List, length, Option}
use demo_colombia.Base.Int.{ℤ, pos}
use demo_colombia.Text.{Bytes}
use demo_colombia.Gst.{Ptr, Value, Settings}
use demo_colombia.Source.{nvurisrcbin_properties}
use demo_colombia.Pipeline.{
  Pipeline, StreamSourceInfo, StreamResetStates, idle, waiting, add_stream,
}
use demo_colombia.Streams.{stream_at}
use demo_colombia.Streams.Sources.{InArray}

-- The reset states that occur, each with the seconds of silence that it can have counted. A stream
-- whose re-adding failed has no bin and keeps its count.
abbrev pub Stage : StreamResetStates → Ptr → ℕ → Type 0
Stage idle bin n = n ≤ 20
Stage waiting bin n = n ≤ 29
Stage add_stream none n = n ≤ 31
Stage add_stream (some b) n = n ≤ 30
Stage _ bin n = ⊥

pub record IsWatched (size : ℕ) (s : StreamSourceInfo) : Type 0 where
  pub stage : Stage s.reset s.source_bin s.no_frame_count
  pub in_array : InArray size s.pad_index

-- The settings have all that an `nvurisrcbin` needs.
abbrev pub HasSettings : Settings → Type 0
HasSettings c = (j : ℤ) → (ps : List (Bytes × Value)) × (nvurisrcbin_properties c j ≡ some ps)

-- `count` sources are counted, and their cells are filled.
pub record IsSound (count size : ℕ) (configs : Settings) (p : Pipeline) : Type 0 where
  pub counted : p.num_sources ≡ count
  pub sized : length p.streams ≡ size
  pub configured : p.configs ≡ configs
  pub filled : (i : ℕ) → i < count → (s : StreamSourceInfo) × (stream_at p i ≡ some s)
  pub watched : (i : ℕ) (s : StreamSourceInfo) → stream_at p i ≡ some s → IsWatched size s
