-- ===== src/Examples.antt =====
-- Test data: an environment, settings and streams at which the theorems are applied.
pub mod Watchdog
pub mod Workers
pub mod Objects
pub mod Storing
pub mod Pooling
pub mod Linking
pub mod Probing
pub mod Building
pub mod Whole
pub mod Looping
pub mod Naming
pub mod Alerts
use demo_colombia.Service.Loop.{CanPublish}
use demo_colombia.Base.{false, ℕ, Bool, true, none, some, List, [], ◌∷◌, ◌≡◌, refl}
use demo_colombia.Base.Int.{ℤ, pos}
use demo_colombia.Text.{Bytes, codes}
use demo_colombia.Gst.{Env, Settings, StateChangeReturn, success}
use demo_colombia.Source.{nvurisrcbin_properties}
use demo_colombia.Pipeline.{Pipeline, StreamSourceInfo, StreamResetStates, idle}
use demo_colombia.Streams.Invariant.{HasSettings}
use demo_colombia.Probe.{SourceEntry}

-- Every call succeeds, with the object 5 where an object is asked for.
abbrev pub willing : Env
willing = record {
  pointer = λ h c. some 5;
  accepts = λ h c. true;
  changes = λ h c. success;
  names = λ h c. codes "now";
}

-- Every setting is 1.
abbrev pub ones : Settings
ones = record {
  as_int = λ k. some (pos 1);
  as_unsigned = λ k. some 1;
  as_text = λ k. some (codes "1");
  as_bool = λ k. some true;
}

pub ones-CanPublish : CanPublish ones
ones-CanPublish = ((_, refl), (_, refl), (_, refl))

pub ones-HasSettings : HasSettings ones
unfolding nvurisrcbin_properties
ones-HasSettings j = (_, refl)

-- A stream with a bin that has been silent.
abbrev pub camera : ℕ → StreamResetStates → StreamSourceInfo
camera seconds reset = record {
  uri = codes "rtsp://camera";
  camera_id = codes "c1";
  pad_index = pos 0;
  description = codes "door";
  frame_count = 0;
  no_frame_count = seconds;
  source_bin = some 7;
  reset = reset;
}

-- A pipeline with that stream and room for another.
abbrev pub one_camera : StreamSourceInfo → Pipeline
one_camera s = record {
  config_file = codes "config.yaml";
  configs = ones;
  element = λ m. some 3;
  is_infer_server = false;
  show_sink = false;
  num_sources = 1;
  streams = some s ∷ none ∷ [];
}

-- The entry of that camera in the sources file.
abbrev pub entry : SourceEntry
entry = record {
  uri = some (codes "rtsp://camera");
  camera_id = some (codes "c1");
  pad_index = some (pos 0);
  description = some (codes "door");
}
