-- ===== src/Source/Callbacks.antt =====
-- perception/src/Pipeline.cpp: the callbacks that complete a source bin when a pad or a child appears.
use demo_colombia.Base.{
  Bool, true, false, Option, none, List, [], ◌∷◌, ◌&&◌, ◌||◌, ◌==◌, not, if◌then◌else◌, is_some,
}
use demo_colombia.Text.{Bytes, codes}
use demo_colombia.Gst.{
  undefined_behaviour, Ptr, M, Settings, Value, pure, ◌>>=◌, ◌>>◌, ask, ask_flag, ask_name, tell,
  or_throw, object_set, signal_connect, bin_get_by_name, get_static_pad, ghost_pad_set_target,
  pad_is_linked, pad_link, link_pads, pad_get_name, pad_get_current_caps, pad_query_caps,
  caps_get_structure, caps_get_features, structure_get_name, features_contains, caps_unref,
  object_unref, on_child_added,
}
use demo_colombia.Source.{collect, int_setting, unsigned_setting}

abbrev pub starts_with : Bytes → Bytes → Bool
starts_with [] s = true
starts_with (a ∷ p) [] = false
starts_with (a ∷ p) (b ∷ s) = a == b && starts_with p s

abbrev occurs_in : Bytes → Bytes → Bool
occurs_in p [] = starts_with p []
occurs_in p (b ∷ s) = starts_with p (b ∷ s) || occurs_in p s

-- `g_strrstr(s, p) == s`: the last occurrence is at the start.
abbrev pub occurs_only_first : Bytes → Bytes → Bool
occurs_only_first p [] = starts_with p []
occurs_only_first p (b ∷ s) = starts_with p (b ∷ s) && not (occurs_in p s)

-- The ghost pad of the bin gets its target; a failure is printed.
unfoldable pub set_ghost_target : Ptr → Ptr → M (Unit {0})
set_ghost_target source_bin target = do
  bin_ghost_pad ← ask (get_static_pad source_bin (codes "src"))
  ask_flag (ghost_pad_set_target bin_ghost_pad target)
  tell (object_unref bin_ghost_pad)

-- Without a structure its name is NULL, at which `strncmp` is undefined.
unfoldable pub cb_newpad : Ptr → Ptr → M (Unit {0})
unfolding set_ghost_target
cb_newpad decoder_src_pad source_bin = do
  current ← ask (pad_get_current_caps decoder_src_pad)
  caps ← (if is_some current then pure current else ask (pad_query_caps decoder_src_pad))
  structure ← ask (caps_get_structure caps)
  name ← ask_name (structure_get_name structure)
  features ← ask (caps_get_features caps)
  if is_some structure
      then if starts_with (codes "video") name
        then (do
          nvmm ← ask_flag (features_contains features (codes "memory:NVMM"))
          if nvmm then set_ghost_target source_bin decoder_src_pad else pure tt)
        else pure tt
      else undefined_behaviour

-- The target is asked for between the ghost pad and its use.
unfoldable pub target_caps : Ptr → M (Unit {0})
target_caps source_bin = do
  bin_ghost_pad ← ask (get_static_pad source_bin (codes "src"))
  caps ← ask (bin_get_by_name source_bin (codes "capsfilter"))
  caps_pad ← ask (get_static_pad caps (codes "src"))
  ask_flag (ghost_pad_set_target bin_ghost_pad caps_pad)
  tell (object_unref bin_ghost_pad)

unfoldable pub cb_newpad1 : Ptr → Ptr → M (Unit {0})
unfolding target_caps
cb_newpad1 new_pad source_bin = do
  queue ← ask (bin_get_by_name source_bin (codes "queue"))
  if is_some queue
      then (do
        sink_pad ← ask (get_static_pad queue (codes "sink"))
        taken ← ask_flag (pad_is_linked sink_pad)
        if taken then tell (object_unref sink_pad) else (do
          linked ← ask_flag (pad_link new_pad sink_pad)
          if linked then target_caps source_bin else pure tt
          tell (object_unref sink_pad)))
      else pure tt

-- The end of the two callbacks of `rtspsrc`; whether the target was set, or was linked before.
unfoldable pub target_videorate : Ptr → Ptr → M Bool
target_videorate source_bin videorate = do
  bin_ghost_pad ← ask (get_static_pad source_bin (codes "src"))
  sink_pad1 ← ask (get_static_pad videorate (codes "src"))
  taken ← ask_flag (pad_is_linked sink_pad1)
  if taken then pure false else (do
    ask_flag (ghost_pad_set_target bin_ghost_pad sink_pad1)
    tell (object_unref bin_ghost_pad)
    pure true)

unfoldable pub on_pad_added : Ptr → Ptr → Ptr → M (Unit {0})
unfolding target_videorate
on_pad_added element pad source_bin = do
  queue ← ask (bin_get_by_name source_bin (codes "rtph264depay"))
  if is_some queue
      then (do
        videorate ← ask (bin_get_by_name source_bin (codes "videorate"))
        if is_some videorate
            then (do
              sink_pad ← ask (get_static_pad queue (codes "sink"))
              taken ← ask_flag (pad_is_linked sink_pad)
              if taken then pure tt else (do
                name ← ask_name (pad_get_name pad)
                tell (link_pads element name queue (codes "sink"))
                target_videorate source_bin videorate
                pure tt))
            else pure tt)
      else pure tt

-- The code after the label `exit`.
unfoldable pub leave_handler : Ptr → Ptr → M (Unit {0})
leave_handler new_pad_caps sink_pad = do
  if is_some new_pad_caps then tell (caps_unref new_pad_caps) else pure tt
  tell (object_unref sink_pad)

-- A new pad of the right type is linked.
unfoldable pub link_new_pad : Ptr → Ptr → Ptr → Ptr → M (Unit {0})
unfolding target_videorate leave_handler
link_new_pad new_pad source_bin videorate sink_pad = do
  new_pad_caps ← ask (pad_get_current_caps new_pad)
  new_pad_struct ← ask (caps_get_structure new_pad_caps)
  new_pad_type ← ask_name (structure_get_name new_pad_struct)
  if starts_with (codes "application/x-rtp") new_pad_type
      then (do
        ask_flag (pad_link new_pad sink_pad)
        targeted ← target_videorate source_bin videorate
        if targeted then leave_handler new_pad_caps sink_pad else pure tt)
      else leave_handler new_pad_caps sink_pad

unfoldable pub pad_added_handler : Ptr → Ptr → M (Unit {0})
unfolding link_new_pad
pad_added_handler new_pad source_bin = do
  depay ← ask (bin_get_by_name source_bin (codes "rtph264depay"))
  if is_some depay
      then (do
        videorate ← ask (bin_get_by_name source_bin (codes "videorate"))
        if is_some videorate
            then (do
              sink_pad ← ask (get_static_pad depay (codes "sink"))
              taken ← ask_flag (pad_is_linked sink_pad)
              if taken
                  then leave_handler none sink_pad
                  else link_new_pad new_pad source_bin videorate sink_pad)
            else pure tt)
      else pure tt

-- The properties of the source inside a `uridecodebin`.
unfoldable pub source_properties : Settings → Option (List (Bytes × Value))
unfolding collect
source_properties s =
    let get = int_setting s (codes "uridecodebin") in
    let get_unsigned = unsigned_setting s (codes "uridecodebin") in
    collect (
      get (codes "drop-on-latency")
      ∷ get (codes "latency")
      ∷ get (codes "buffer-mode")
      ∷ get (codes "ntp-sync")
      ∷ get (codes "ntp-time-source")
      ∷ get (codes "is-live")
      ∷ get (codes "do-retransmission")
      ∷ get (codes "do-rtcp")
      ∷ get (codes "do-rtsp-keep-alive")
      ∷ get (codes "probation")
      ∷ get (codes "retry")
      ∷ get_unsigned (codes "timeout")
      ∷ get_unsigned (codes "udp-buffer-size")
      ∷ get (codes "udp-reconnect")
      ∷ get (codes "protocols")
      ∷ get_unsigned (codes "tcp-timeout")
      ∷ get_unsigned (codes "teardown-timeout")
      ∷ [])

-- The callback follows nested decodebins, and sets the properties of sources.
unfoldable pub decodebin_child_added : Ptr → Bytes → Ptr → Settings → M (Unit {0})
unfolding source_properties
decodebin_child_added object name source_bin settings = do
  if occurs_only_first (codes "decodebin") name
      then tell (signal_connect object (codes "child-added") on_child_added source_bin)
      else pure tt
  if occurs_only_first (codes "source") name
      then (do
        properties ← or_throw (source_properties settings)
        tell (object_set object properties))
      else pure tt
