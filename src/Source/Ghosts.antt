-- ===== src/Source/Ghosts.antt =====
-- References to pads in the callbacks of source bins.
use demo_colombia.Base.{ℕ, ◌+◌, ◌≤◌, ◌∷◌, arith}
use demo_colombia.Text.{codes}
use demo_colombia.Gst.{
  flag, pad_is_linked, get_static_pad, object, bin_get_by_name, Ptr, Env, History,
}
use demo_colombia.Gst.References.{acquired, released, is_to}
use demo_colombia.Source.Callbacks.{
  cb_newpad, cb_newpad1, on_pad_added, link_new_pad, pad_added_handler,
}

-- Between two histories a routine gave back at most as many references to the pad as it was given.
abbrev pub KeepsReferences : ℕ → History → History → Type 0
KeepsReferences p before after =
    released p after + acquired p before ≤ acquired p after + released p before

cb_newpad_keeps :
    (pad bin : Ptr) (p : ℕ) (env : Env) (h : History)
    → KeepsReferences p h (cb_newpad pad bin env h).1
unfolding cb_newpad
cb_newpad_keeps pad bin p env h = ground arith

cb_newpad1_keeps :
    (pad bin : Ptr) (p : ℕ) (env : Env) (h : History)
    → KeepsReferences p h (cb_newpad1 pad bin env h).1
unfolding cb_newpad1
cb_newpad1_keeps pad bin p env h = ground arith

on_pad_added_keeps :
    (element pad bin : Ptr) (p : ℕ) (env : Env) (h : History)
    → KeepsReferences p h (on_pad_added element pad bin env h).1
unfolding on_pad_added
on_pad_added_keeps element pad bin p env h = ground arith

-- The handler's own reference to the depayloader's pad is given back here.
link_new_pad_keeps :
    (pad bin videorate sink : Ptr) (p : ℕ) (env : Env) (h : History)
    → released p (link_new_pad pad bin videorate sink env h).1 + acquired p h
      ≤ acquired p (link_new_pad pad bin videorate sink env h).1 + released p h + is_to p sink
unfolding link_new_pad
link_new_pad_keeps pad bin videorate sink p env h = ground arith

pad_added_handler_keeps :
    (pad bin : Ptr) (p : ℕ) (env : Env) (h : History)
    → KeepsReferences p h (pad_added_handler pad bin env h).1
unfolding pad_added_handler
pad_added_handler_keeps pad bin p env h =
    let depay_of = bin_get_by_name bin (codes "rtph264depay") in
    let depay = env.pointer h depay_of in
    let h₁ : History = (depay_of, object depay) ∷ h in
    let rate_of = bin_get_by_name bin (codes "videorate") in
    let videorate = env.pointer h₁ rate_of in
    let h₂ : History = (rate_of, object videorate) ∷ h₁ in
    let sink_of = get_static_pad depay (codes "sink") in
    let sink = env.pointer h₂ sink_of in
    let h₃ : History = (sink_of, object sink) ∷ h₂ in
    let h₄ : History = (pad_is_linked sink, flag (env.accepts h₃ (pad_is_linked sink))) ∷ h₃ in
    let keeps = link_new_pad_keeps pad bin videorate sink p env h₄ in ground (arith, keeps)

-- Whatever GStreamer answers, no callback that completes a source bin gives back a reference to a pad
-- more often than it was given one, so it never releases a pad that another part still holds.
pub callbacks-KeepReferences :
    (element pad bin : Ptr) (p : ℕ) (env : Env) (h : History)
    → KeepsReferences p h (cb_newpad pad bin env h).1
      × KeepsReferences p h (cb_newpad1 pad bin env h).1
      × KeepsReferences p h (on_pad_added element pad bin env h).1
      × KeepsReferences p h (pad_added_handler pad bin env h).1
callbacks-KeepReferences element pad bin p env h = (
  cb_newpad_keeps pad bin p env h,
  cb_newpad1_keeps pad bin p env h,
  on_pad_added_keeps element pad bin p env h,
  pad_added_handler_keeps pad bin p env h,
)
