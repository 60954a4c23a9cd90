-- ===== src/Source.antt =====
-- perception/src/Pipeline.cpp: the source bins, `create_source_bin` and `create_rtspsrc_bin`, with the
-- callbacks that complete them when a pad or a child appears.
pub mod Callbacks
pub mod Outcomes
pub mod Ghosts
pub mod Names
use demo_colombia.Base.{
  ℕ, Bool, true, false, Option, none, some, List, [], ◌∷◌, ◌++◌, ◌||◌, not, if◌then◌else◌, is_some,
}
use demo_colombia.Base.Int.{ℤ, pos}
use demo_colombia.Text.{Bytes, codes, decimal_padded, snprintf}
use demo_colombia.Gst.{
  Ptr, M, Settings, Value, int, unsigned, text, pure, throw, ◌>>=◌, ◌>>◌, ask, ask_flag, tell,
  or_throw, bin_new, factory_make, object_set, signal_connect, bin_add, link_many,
  ghost_pad_new_no_target, add_pad, object_unref, on_newpad, on_pad_added_handler, on_child_added,
}

-- `g_snprintf(bin_name, 15, "source-bin-%02d", index)`
unfoldable pub source_bin_name : ℤ → Bytes
unfolding decimal_padded snprintf
source_bin_name i = snprintf 15 (codes "source-bin-" ++ decimal_padded 2 i)

-- `g_snprintf(bin_name, 15, "rtspsrc-bin-%02d", index)`
unfoldable pub rtspsrc_bin_name : ℤ → Bytes
unfolding decimal_padded snprintf
rtspsrc_bin_name i = snprintf 15 (codes "rtspsrc-bin-" ++ decimal_padded 2 i)

-- `settings[section][key].as<int>()`, as the value of the property `key`.
abbrev pub int_setting : Settings → Bytes → Bytes → Option (Bytes × Value)
int_setting s section key = elim (s.as_int (section ∷ key ∷ [])) [
  | none ↦ none
  | some i ↦ some (key, int i)
]

abbrev pub unsigned_setting : Settings → Bytes → Bytes → Option (Bytes × Value)
unsigned_setting s section key = elim (s.as_unsigned (section ∷ key ∷ [])) [
  | none ↦ none
  | some n ↦ some (key, unsigned n)
]

-- All the values, or none if one of them is missing.
unfoldable pub collect {ℓ} : {A : Type ℓ} → List (Option A) → Option (List A)
collect [] = some []
collect (none ∷ os) = none
collect (some a ∷ os) = elim (collect os) [ none ↦ none | some rest ↦ some (a ∷ rest) ]

-- The properties of an `nvurisrcbin`.
unfoldable pub nvurisrcbin_properties : Settings → ℤ → Option (List (Bytes × Value))
unfolding collect
nvurisrcbin_properties s index =
    let get = int_setting s (codes "nvurisrcbin") in
    collect (
      get (codes "async-handling")
      ∷ get (codes "dec-skip-frames")
      ∷ get (codes "cudadec-memtype")
      ∷ get (codes "num-extra-surfaces")
      ∷ get (codes "gpu-id")
      ∷ get (codes "drop-frame-interval")
      ∷ get (codes "select-rtp-protocol")
      ∷ get (codes "rtsp-reconnect-interval")
      ∷ get (codes "rtsp-reconnect-attempts")
      ∷ get (codes "low-latency-mode")
      ∷ some (codes "source-id", int index)
      ∷ get (codes "latency")
      ∷ get (codes "drop-on-latency")
      ∷ unsigned_setting s (codes "nvurisrcbin") (codes "udp-buffer-size")
      ∷ get (codes "type")
      ∷ [])

-- The element that reads the stream, with its properties if it is an `nvurisrcbin`.
unfoldable pub make_uri_decode_bin : ℤ → Bool → Settings → M Ptr
make_uri_decode_bin index use_nvurisrcbin settings =
    if use_nvurisrcbin
    then (do
      uri_decode_bin ← ask (factory_make (codes "nvurisrcbin") (some (codes "uri-decode-bin")))
      properties ← or_throw (nvurisrcbin_properties settings index)
      tell (object_set uri_decode_bin properties)
      pure uri_decode_bin)
    else ask (factory_make (codes "uridecodebin") (some (codes "uri-decode-bin")))

-- What follows once the bin and its element are there.
unfoldable pub fill_source_bin : Ptr → Ptr → Bytes → M Ptr
fill_source_bin bin uri_decode_bin uri = do
  tell (object_set uri_decode_bin ((codes "uri", text uri) ∷ []))
  tell (signal_connect uri_decode_bin (codes "pad-added") on_newpad bin)
  tell (signal_connect uri_decode_bin (codes "child-added") on_child_added bin)
  tell (bin_add bin (uri_decode_bin ∷ []))
  ghost_pad ← ask (ghost_pad_new_no_target (codes "src"))
  added ← ask_flag (add_pad bin ghost_pad)
  pure (if added then bin else none)

unfoldable pub complete_source_bin : Ptr → Bytes → Ptr → M Ptr
unfolding fill_source_bin
complete_source_bin bin uri uri_decode_bin =
    if not (is_some bin) || not (is_some uri_decode_bin)
    then pure none
    else fill_source_bin bin uri_decode_bin uri

unfoldable pub create_source_bin : ℤ → Bytes → Bool → Settings → M Ptr
unfolding make_uri_decode_bin complete_source_bin
create_source_bin index uri use_nvurisrcbin settings = do
  bin ← ask (bin_new (source_bin_name index))
  uri_decode_bin ← make_uri_decode_bin index use_nvurisrcbin settings
  complete_source_bin bin uri uri_decode_bin

-- `gst_element_factory_make(name, name)`
abbrev make : Bytes → M Ptr
make n = ask (factory_make n (some n))

-- What follows once the elements are there.
unfoldable pub fill_rtspsrc_bin : Ptr → Ptr → List Ptr → Bytes → M Ptr
fill_rtspsrc_bin bin rtspsrc chain location = do
  tell (bin_add bin (rtspsrc ∷ chain))
  linked ← ask_flag (link_many chain)
  if linked
      then (do
        tell (object_set rtspsrc ((codes "location", text location) ∷ []))
        tell (object_set rtspsrc ((codes "latency", int (pos 100)) ∷ []))
        tell (object_set rtspsrc ((codes "is-live", int (pos 1)) ∷ []))
        tell (signal_connect rtspsrc (codes "pad-added") on_pad_added_handler bin)
        ghost_pad ← ask (ghost_pad_new_no_target (codes "src"))
        added ← ask_flag (add_pad bin ghost_pad)
        pure (if added then bin else none))
      else (do tell (object_unref bin); pure none)

abbrev pub all_there : List Ptr → Bool
all_there [] = true
all_there (none ∷ ps) = false
all_there (some p ∷ ps) = all_there ps

unfoldable pub create_rtspsrc_bin : ℤ → Bytes → M Ptr
unfolding fill_rtspsrc_bin
create_rtspsrc_bin index location = do
  bin ← ask (bin_new (rtspsrc_bin_name index))
  rtspsrc ← make (codes "rtspsrc")
  queue ← make (codes "queue")
  depay ← make (codes "rtph264depay")
  parse ← make (codes "h264parse")
  avdec ← make (codes "avdec_h264")
  videoscale ← make (codes "videoscale")
  videorate ← make (codes "videorate")
  videoconvert ← make (codes "videoconvert")
  capsfilter ← ask (factory_make (codes "capsfilter") (some (codes "capsfilter")))
  let chain : List Ptr = depay ∷ parse ∷ avdec ∷ videoscale ∷ videorate ∷ []
  if all_there (bin ∷ rtspsrc ∷ queue ∷ videoconvert ∷ capsfilter ∷ chain)
      then fill_rtspsrc_bin bin rtspsrc chain location
      else pure none
