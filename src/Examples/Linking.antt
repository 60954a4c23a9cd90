-- ===== src/Examples/Linking.antt =====
-- The theorems on pads and source bins where every call succeeds.
use demo_colombia.Base.{◌≡◌, ◌+◌, some, []}
use demo_colombia.Base.Int.{pos}
use demo_colombia.Gst.References.{acquired, released, is_to}
use demo_colombia.Pads.{connect_src_sink_pads}
use demo_colombia.Pads.Balance.{connect_src_sink_pads_references, kept, requested_src_pad}
use demo_colombia.Examples.{willing}

connect_src_sink_pads_references_example :
    let (o, h) = connect_src_sink_pads (some 1) (some 2) (pos 0) willing [] in
    acquired 5 h + 0
    ≡ released 5 h + 0 + kept o (is_to 5 (requested_src_pad (some 1) (pos 0) willing []))
connect_src_sink_pads_references_example =
    connect_src_sink_pads_references (some 1) (some 2) (pos 0) 5 willing []
