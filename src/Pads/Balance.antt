-- ===== src/Pads/Balance.antt =====
-- What the two connecting routines report, and the references that they give back.
use demo_colombia.Base.{ℕ, ◌+◌, ◌≡◌, Bool, true, arith, if◌then◌else◌}
use demo_colombia.Base.Int.{ℤ, pos, negsuc, is_negative}
use demo_colombia.Text.{codes}
use demo_colombia.Gst.{Ptr, Env, History, Outcome, returns, request_pad_simple}
use demo_colombia.Gst.Ensures.{Returns}
use demo_colombia.Gst.References.{IsBalanced, acquired, released, is_to}
use demo_colombia.Pads.{connect_src_sink_pads, connect_muxer_src_pads, src_pad_name}

-- On every branch `connect_muxer_src_pads` gives back each pad reference that it was given, as often
-- as it was given, whatever GStreamer answers.
pub connect_muxer_src_pads-IsBalanced :
    (muxer src : Ptr) (i : ℤ) (p : ℕ) (env : Env) (h : History)
    → IsBalanced p h (connect_muxer_src_pads muxer src i env h).1
unfolding connect_muxer_src_pads
connect_muxer_src_pads-IsBalanced muxer src i p env h = ground arith

-- The pad that `connect_src_sink_pads` requests.
abbrev pub requested_src_pad : Ptr → ℤ → Env → History → Ptr
requested_src_pad src i env h =
    env.pointer h
      (request_pad_simple src (if is_negative i then codes "src_%u" else src_pad_name i))

-- The references to an object that stay with the caller, who is told no pad: all that the routine was
-- given of the requested pad, if it reports failure.
abbrev pub kept : Outcome Bool → ℕ → ℕ
kept (returns true) n = 0
kept _ n = n

-- `connect_src_sink_pads` gives back every pad reference where it succeeds. Where it fails it keeps
-- one reference to the pad that it requested, if it was given one, and nothing else.
pub connect_src_sink_pads_references :
    (src sink : Ptr) (i : ℤ) (p : ℕ) (env : Env) (h : History)
    → let (o, h') = connect_src_sink_pads src sink i env h in
      acquired p h' + released p h
      ≡ released p h' + acquired p h + kept o (is_to p (requested_src_pad src i env h))
unfolding connect_src_sink_pads
connect_src_sink_pads_references src sink (pos i) p env h = ground arith
connect_src_sink_pads_references src sink (negsuc i) p env h = ground arith

-- `connect_muxer_src_pads` always reports.
pub connect_muxer_src_pads-Returns :
    (muxer src : Ptr) (i : ℤ) (env : Env) (h : History)
    → Returns (λ _. Unit {0}) (connect_muxer_src_pads muxer src i env h).0
unfolding connect_muxer_src_pads
connect_muxer_src_pads-Returns muxer src i env h = ground arith
