-- ===== src/Service/Loop.antt =====
-- What holds between two events of the main loop, what a schedule of events must satisfy, and which
-- reports its buffers bring.
pub mod Tick
pub mod Buffers
pub mod Serving
pub mod Fed
pub mod Steps
pub mod Events
pub mod Delivery
pub mod FedEvents
pub mod Lively
pub mod Drained
pub mod Missing
use demo_colombia.Base.{
  Bool, ℕ, ◌+◌, ◌^◌, ◌≤◌, ◌<◌, ◌≡◌, Option, none, some, List, [], ◌∷◌, ◌++◌, length, map,
}
use demo_colombia.Base.Int.{ℤ}
use demo_colombia.Gst.{Settings}
use demo_colombia.Text.{Bytes}
use demo_colombia.Service.{mqtt_broker}
use demo_colombia.Pipeline.{Pipeline, StreamSourceInfo}
use demo_colombia.Streams.{stream_at}
use demo_colombia.Streams.Invariant.{IsSound}
use demo_colombia.Streams.Schedule.Loop.{IsOwn}
use demo_colombia.ObjInfo.{ObjInfo}
use demo_colombia.Messages.Queued.{message_of}
use demo_colombia.Probe.{AppCtx, FrameMeta, BatchMeta, last_tensor}
use demo_colombia.Probe.Invariant.{Holds}
use demo_colombia.Probe.Frames.{AllSound}
use demo_colombia.Probe.Reports.{batch_reports}
use demo_colombia.Service.Bus.{BusMessage, error}
use demo_colombia.Service.Main.{Event, tick, bus_message, buffer, serves, Service}

-- The settings that the broker's thread reads for each message are there.
abbrev pub CanPublish : Settings → Type 0
CanPublish c =
    ((topic : Bytes) × (c.as_text (mqtt_broker "topic") ≡ some topic))
    × ((qos : ℤ) × (c.as_int (mqtt_broker "qos") ≡ some qos))
    × ((retained : Bool) × (c.as_bool (mqtt_broker "retained") ≡ some retained))

-- No counted stream has more than `k` frames since the last tick.
abbrev pub IsLow : ℕ → ℕ → Pipeline → Type 0
IsLow count k p =
    (i : ℕ) (s : StreamSourceInfo) → i < count → stream_at p i ≡ some s → s.frame_count ≤ k

-- The streams are as the watchdog needs them, the queue shows `pending`, and what the broker took and
-- what is pending are the messages of the reports `all`.
pub record IsServing (widen : ℕ → ℕ) (base : ℕ → Option (List ℕ)) (count size : ℕ) (c : Settings)
    (k : ℕ) (all : List (ObjInfo (Option (List ℕ)))) (s : Service) : Type 0 where
  pub pending : List (ObjInfo (Option (List ℕ)))
  pub sound : IsSound count size c s.probed.pipeline
  pub own : IsOwn s.probed.pipeline
  pub low : IsLow count k s.probed.pipeline
  pub holds : Holds base s.probed.pipeline pending s.probed
  pub delivered : s.sent ++ map (message_of widen) pending ≡ map (message_of widen) all

-- A state in which the loop runs, or does not.
abbrev pub IsAfter :
    (ℕ → ℕ)
    → (ℕ → Option (List ℕ))
    → ℕ
    → ℕ
    → Settings
    → ℕ
    → List (ObjInfo (Option (List ℕ)))
    → Bool
    → Service
    → Type 0
IsAfter widen base count size c k all on s =
    IsServing widen base count size c k all s × (s.running ≡ on)

-- The frames are of counted streams.
abbrev pub AreCounted : ℕ → List (Option FrameMeta) → Type 0
AreCounted count [] = Unit
AreCounted count (none ∷ fs) = AreCounted count fs
AreCounted count (some f ∷ fs) = (f.pad_index < count) × AreCounted count fs

-- Each batch is of counted streams, names embeddings inside its last tensor, and leaves fewer than
-- 2^31 frames since the last tick, where `k` were seen before.
abbrev pub IsPaced : ℕ → ℕ → List Event → Type 0
IsPaced count k [] = Unit
IsPaced count k (tick ∷ es) = IsPaced count 0 es
IsPaced count k (bus_message m ∷ es) = IsPaced count k es
IsPaced count k (buffer now none ∷ es) = IsPaced count k es
IsPaced count k (buffer now (some b) ∷ es) =
    (k + length b.frames < 2 ^ 31)
    × AreCounted count b.frames
    × AllSound (last_tensor b.user_metas none) b.frames
    × IsPaced count (k + length b.frames) es
IsPaced count k (serves ∷ es) = IsPaced count k es

-- The reports of the buffers that pass before an error on the bus ends the loop.
abbrev pub reports_of : AppCtx → ℤ → List Event → List (ObjInfo (Option (List ℕ)))
reports_of ctx interval [] = []
reports_of ctx interval (bus_message error ∷ es) = []
reports_of ctx interval (bus_message m ∷ es) = reports_of ctx interval es
reports_of ctx interval (tick ∷ es) = reports_of ctx interval es
reports_of ctx interval (serves ∷ es) = reports_of ctx interval es
reports_of ctx interval (buffer now none ∷ es) = reports_of ctx interval es
reports_of ctx interval (buffer now (some b) ∷ es) =
    batch_reports ctx now (last_tensor b.user_metas none) interval b.frames
    ++ reports_of ctx interval es
