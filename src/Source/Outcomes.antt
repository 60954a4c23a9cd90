-- ===== src/Source/Outcomes.antt =====
-- When the source bins are made: what the routines return, and that they do return.
use demo_colombia.Base.{◌≡◌, Bool, true, false, List, ◌∷◌, some, arith}
use demo_colombia.Base.Int.{ℤ}
use demo_colombia.Text.{Bytes}
use demo_colombia.Gst.{Ptr, Env, History, Settings, Value, or_throw, bin_new, object}
use demo_colombia.Gst.Ensures.{Returns, >>=-Returns}
use demo_colombia.Source.{
  create_source_bin, nvurisrcbin_properties, complete_source_bin, source_bin_name,
  make_uri_decode_bin,
}

-- An `nvurisrcbin` is not asked for, or its settings are complete.
abbrev pub IsConfigured : Bool → Settings → ℤ → Type 0
IsConfigured true s i = (ps : List (Bytes × Value)) × (nvurisrcbin_properties s i ≡ some ps)
IsConfigured false s i = Unit

make_uri_decode_bin-Returns :
    (i : ℤ) (nvurisrcbin : Bool) (s : Settings) (env : Env) (h : History)
    → IsConfigured nvurisrcbin s i
    → Returns (λ _. Unit {0}) (make_uri_decode_bin i nvurisrcbin s env h).0
unfolding make_uri_decode_bin
make_uri_decode_bin-Returns i true s env h (ps, e) = rw (e, or_throw) tt
make_uri_decode_bin-Returns i false s env h c = tt

complete_source_bin-Returns :
    (bin : Ptr) (uri : Bytes) (uri_decode_bin : Ptr) (env : Env) (h : History)
    → Returns (λ _. Unit {0}) (complete_source_bin bin uri uri_decode_bin env h).0
unfolding complete_source_bin
complete_source_bin-Returns bin uri uri_decode_bin env h = ground arith

-- With its settings complete, `create_source_bin` returns, whatever GStreamer answers.
pub create_source_bin-Returns :
    (i : ℤ) (uri : Bytes) (nvurisrcbin : Bool) (s : Settings) (env : Env) (h : History)
    → IsConfigured nvurisrcbin s i
    → Returns (λ _. Unit {0}) (create_source_bin i uri nvurisrcbin s env h).0
unfolding create_source_bin
create_source_bin-Returns i uri nvurisrcbin s env h c =
    let bin = env.pointer h (bin_new (source_bin_name i)) in
    let h₁ : History = (bin_new (source_bin_name i), object bin) ∷ h in
    >>=-Returns (λ _. Unit {0}) (λ _. Unit {0}) (complete_source_bin bin uri) env
      (make_uri_decode_bin i nvurisrcbin s) h₁
      (make_uri_decode_bin-Returns i nvurisrcbin s env h₁ c)
      (λ p h' _. complete_source_bin-Returns bin uri p env h')
