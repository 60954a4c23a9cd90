-- ===== src/Examples/Building.antt =====
-- The theorems on the start, the elements, the callbacks and the messages.
use demo_colombia.Base.{zero, suc, ℕ, ◌≡◌, refl, inr, some, none, true, [], ◌∷◌, arith}
use demo_colombia.Gst.Ensures.{Ensures, Returns}
use demo_colombia.Pipeline.{Pipeline, idle}
use demo_colombia.Streams.{stream_at}
use demo_colombia.Source.Callbacks.{pad_added_handler, on_pad_added, cb_newpad1, cb_newpad}
use demo_colombia.Source.Ghosts.{KeepsReferences, callbacks-KeepReferences}
use demo_colombia.Elements.Configure.{create_pipeline_elements}
use demo_colombia.Elements.Presence.{ArePresent, create_pipeline_elements-ArePresent}
use demo_colombia.ObjInfo.{ObjInfo, Heap, construct, move_construct}
use demo_colombia.Messages.{JsonObject, set_mqtt_message}
use demo_colombia.Messages.Contents.{read_object, told_of, set_mqtt_message-construct}
use demo_colombia.Service.{add_sources}
use demo_colombia.Service.Startup.{IsStarted, add_sources-IsStarted}
use demo_colombia.Examples.{
  StreamSourceInfo, willing, ones, ones-HasSettings, camera, one_camera, entry,
}
use demo_colombia.Examples.Objects.{seen, floats, empty}

abbrev pub fresh : Pipeline
fresh = record (one_camera (camera 0 idle)) { num_sources = 0; streams = none ∷ none ∷ [] }

pub nothing_there : (i : ℕ) {s : StreamSourceInfo} → stream_at fresh i ≡ some s → ⊥
nothing_there zero e = cc
nothing_there (suc zero) e = cc
nothing_there (suc (suc i)) e = cc

fresh-IsStarted : IsStarted 2 ones 0 fresh
fresh-IsStarted = record {
  sized = refl;
  configured = refl;
  counted = omega arith;
  watched = λ i s e. absurd (nothing_there i e);
}

add_sources-IsStarted_example :
    Returns (IsStarted 2 ones 1) (add_sources true (entry ∷ []) fresh willing []).0
add_sources-IsStarted_example =
    add_sources-IsStarted 2 ones ones-HasSettings willing true (entry ∷ []) 0 fresh []
      (
        record {
          uri = (_, refl);
          camera_id = (_, refl);
          pad_index = (_, refl, (0, refl, omega arith));
          description = (_, refl);
        },
        tt,
      )
      fresh-IsStarted

create_pipeline_elements-ArePresent_example :
    Ensures (λ r. r.1 ≡ true → ArePresent r.0) (create_pipeline_elements fresh willing []).0
create_pipeline_elements-ArePresent_example = create_pipeline_elements-ArePresent fresh willing []

set_mqtt_message-construct_example :
    (x : ObjInfo ℕ) × (h : Heap) × (payload : JsonObject) × (construct (seen (some floats)) empty
      ≡ some (x, h))
    × (set_mqtt_message (λ n. n) (move_construct x).0 h ≡ some payload)
    × (read_object payload ≡ told_of (λ n. n) (seen (some floats)))
set_mqtt_message-construct_example =
    set_mqtt_message-construct (λ n. n) (seen (some floats)) empty (inr (floats, refl, omega arith))
      (omega arith)

callbacks-KeepReferences_example :
    KeepsReferences 5 [] (cb_newpad (some 2) (some 3) willing []).1
    × KeepsReferences 5 [] (cb_newpad1 (some 2) (some 3) willing []).1
    × KeepsReferences 5 [] (on_pad_added (some 1) (some 2) (some 3) willing []).1
    × KeepsReferences 5 [] (pad_added_handler (some 2) (some 3) willing []).1
callbacks-KeepReferences_example = callbacks-KeepReferences (some 1) (some 2) (some 3) 5 willing []
