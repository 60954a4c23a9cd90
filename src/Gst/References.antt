-- ===== src/Gst/References.antt =====
-- Reference counts in a history. `gst_element_get_static_pad` and
-- `gst_element_request_pad_simple` give the caller a reference, which `gst_object_unref` gives back.
use demo_colombia.Base.{ℕ, ◌+◌, ◌≡◌, [], ◌∷◌, none, some, ◌==◌, if◌then◌else◌}
use demo_colombia.Gst.{
  Ptr, Call, Reply, History, get_static_pad, request_pad_simple, object_unref, object,
}

-- 1 if the pointer is to the object.
abbrev pub is_to : ℕ → Ptr → ℕ
is_to p none = 0
is_to p (some q) = if p == q then 1 else 0

abbrev pub acquired_by : ℕ → Call → Reply → ℕ
acquired_by p (get_static_pad e n) (object q) = is_to p q
acquired_by p (request_pad_simple e n) (object q) = is_to p q
acquired_by p _ _ = 0

abbrev pub released_by : ℕ → Call → ℕ
released_by p (object_unref q) = is_to p q
released_by p _ = 0

-- References to an object's pads that the program was given.
abbrev pub acquired : ℕ → History → ℕ
acquired p [] = 0
acquired p ((c, r) ∷ h) = acquired_by p c r + acquired p h

-- References that the program gave back.
abbrev pub released : ℕ → History → ℕ
released p [] = 0
released p ((c, r) ∷ h) = released_by p c + released p h

-- Between two histories a routine gave back as many references to the object as it was given.
abbrev pub IsBalanced : ℕ → History → History → Type 0
IsBalanced p before after =
    acquired p after + released p before ≡ released p after + acquired p before
