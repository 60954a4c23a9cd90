-- ===== src/Examples/Looping.antt =====
-- The theorems on the main loop with frames between ticks, and with an object in the queue.
use demo_colombia.Base.{
  true, ◌≡◌, sym, ◌+◌, is_some, ℕ, zero, suc, ◌<◌, refl, ap, inl, none, some, List, [], ◌∷◌, arith,
}
use demo_colombia.Base.Int.{pos}
use demo_colombia.Gst.{Settings, throws}
use demo_colombia.Gst.Ensures.{Returns}
use demo_colombia.Pipeline.{StreamSourceInfo}
use demo_colombia.ObjInfo.{ObjInfo, destroy}
use demo_colombia.ObjInfo.Queue.{DrainsTo, destroy_all}
use demo_colombia.Probe.{last_tensor}
use demo_colombia.Service.Bus.{error}
use demo_colombia.Probe.Frames.{frames_of}
use demo_colombia.Service.Main.{serve_queue, Event, tick, bus_message, buffer, Service, main_loop}
use demo_colombia.Service.Loop.{CanPublish, IsServing, IsPaced}
use demo_colombia.Service.Loop.Fed.{IsFed, AreLively}
use demo_colombia.Service.Loop.Lively.{AreFrequent, FedSomehow, main_loop-FedSomehow}
use demo_colombia.Service.Loop.Drained.{rounds, IsDrained, main_loop-IsDrained}
use demo_colombia.Service.Loop.Missing.{serve_queue-throws}
use demo_colombia.Examples.{ones-CanPublish, willing, ones, ones-HasSettings}
use demo_colombia.Examples.Objects.{seen, empty}
use demo_colombia.Examples.Probing.{context, batch, before, before-IsSound}
use demo_colombia.Examples.Whole.{
  takes_all, serving, serving-IsServing, some_injective, before-IsOwn,
}

abbrev lively_events : List Event
lively_events = buffer 77 (some batch) ∷ tick ∷ buffer 78 none ∷ bus_message error ∷ []

lively-IsPaced : IsPaced 1 0 lively_events
unfolding last_tensor
lively-IsPaced = (omega arith, (omega arith, tt), (((tt, (omega arith, tt)), tt), tt), tt)

before-AreLively : AreLively 1 before.pipeline
before-AreLively zero t lt e = (
  ap (λ u. is_some u.source_bin) (some_injective (sym e)),
  ap (λ u. u.no_frame_count) (some_injective (sym e)),
)
before-AreLively (suc i) t lt e = absurd (omega arith)

before-IsFed : IsFed 1 before.pipeline (λ i. 0) before.pipeline
before-IsFed zero t lt e =
    ap (λ (u : StreamSourceInfo). some (record u { frame_count = 0 })) (some_injective e)
before-IsFed (suc i) t lt e = absurd (omega arith)

frequent : AreFrequent 1 (λ i. 0) lively_events
frequent = (some_frames, tt)
  where
    some_frames : (i : ℕ) → i < 1 → 0 < 0 + frames_of i batch.frames
    some_frames zero lt = omega arith
    some_frames (suc i) lt = absurd (omega arith)

main_loop-FedSomehow_example :
    Returns
      (FedSomehow
        (λ n. n)
        takes_all
        (λ q. none)
        1
        2
        ones
        ones-HasSettings
        context
        (refl, refl, refl, tt)
        (pos 1)
        refl
        refl
        ones-CanPublish
        (some 4)
        willing
        before.pipeline
        before-AreLively)
      (main_loop (λ n. n) takes_all context (some 4) lively_events serving willing []).0
main_loop-FedSomehow_example =
    main_loop-FedSomehow (λ n. n) takes_all (λ q. none) 1 2 ones ones-HasSettings context
      (refl, refl, refl, tt) (pos 1) refl refl ones-CanPublish (some 4) willing before.pipeline
      before-AreLively lively_events 0 [] (λ i. 0) serving [] lively-IsPaced frequent
      (serving-IsServing, refl) before-IsFed

abbrev object : ObjInfo ℕ
object = seen 0

abbrev loaded : Service
loaded = record serving { probed = record before { obj_list = some (object ∷ []) } }

loaded-DrainsTo : DrainsTo (λ q. none) (object ∷ []) empty
unfolding destroy_all destroy
loaded-DrainsTo = (empty, refl, λ q. refl)

abbrev loaded-IsServing : IsServing (λ n. n) (λ q. none) 1 2 ones 0 (seen none ∷ []) loaded
loaded-IsServing = record {
  pending = seen none ∷ [];
  sound = before-IsSound;
  own = before-IsOwn;
  low = serving-IsServing.low;
  holds = record {
    queue = object ∷ [];
    there = refl;
    shows = (refl, inl refl, tt);
    heap_sound = λ p lt. refl;
    drains = loaded-DrainsTo;
    same = refl;
  };
  delivered = refl;
}

main_loop-IsDrained_example :
    Returns
      (IsDrained
        (λ n. n)
        takes_all
        (λ m n. refl)
        (λ q. none)
        1
        2
        ones
        0
        (seen none ∷ [])
        willing
        context
        ones-CanPublish
        (some 4))
      (main_loop (λ n. n) takes_all context (some 4) (rounds 1) loaded willing []).0
main_loop-IsDrained_example =
    main_loop-IsDrained (λ n. n) takes_all (λ m n. refl) (λ q. none) 1 2 ones 0 (seen none ∷ [])
      willing context ones-CanPublish (some 4) 1 loaded [] (loaded-IsServing, omega arith, refl)

-- The settings without any text, so without a topic.
abbrev no_topic : Settings
no_topic = record ones { as_text = λ k. none }

serve_queue-throws_example :
    (CanPublish no_topic
      → Returns
          (λ s'.
            IsServing (λ n. n) (λ q. none) 1 2 ones 0 (seen none ∷ []) s' × (s'.running ≡ true))
          (serve_queue (λ n. n) takes_all no_topic loaded.probed.obj_list loaded willing []).0)
    × (¬ CanPublish no_topic
        → serve_queue (λ n. n) takes_all no_topic loaded.probed.obj_list loaded willing []
          ≡ (throws, []))
serve_queue-throws_example =
    serve_queue-throws (λ n. n) takes_all (λ q. none) 1 2 ones 0 (seen none ∷ []) willing no_topic
      loaded [] loaded-IsServing (λ e. cc)
