-- ===== src/Service/Counted.antt =====
-- Where GStreamer makes the bins of the sources and links them to the muxer, the loop over the sources
-- file counts every source.
use demo_colombia.Base.{
  suc, ◌+◌, ◌≡◌, refl, ap, ◌∙◌, Bool, true, false, none, some, is_some, List, [], ◌∷◌, length,
  if◌then◌else◌, arith,
}
use demo_colombia.Base.Int.{ℤ, pos}
use demo_colombia.Text.{Bytes}
use demo_colombia.Base.{Option-cases, Bool-cases, inl, inr}
use demo_colombia.Base.Int.{is_negative}
use demo_colombia.Source.{nvurisrcbin_properties}
use demo_colombia.Gst.{
  M, or_throw, ◌>>=◌, Ptr, Env, History, Settings, bin_new, factory_make, add_pad,
  request_pad_simple, pad_link, pure,
}
use demo_colombia.Gst.Ensures.{Ensures, >>=-Ensures, Ensures-any, Ensures-map}
use demo_colombia.Pads.{connect_muxer_src_pads}
use demo_colombia.Source.{
  create_source_bin, make_uri_decode_bin, complete_source_bin, source_bin_name,
}
use demo_colombia.Pipeline.{Pipeline, StreamSourceInfo, streammux}
use demo_colombia.Streams.{
  add_source, place_source, attach_source, start_source, put_stream, new_stream,
}
use demo_colombia.Probe.{SourceEntry}
use demo_colombia.Service.{add_entry, add_sources}

-- GStreamer makes bins and elements, adds ghost pads, and gives and links pads.
pub record Connects (env : Env) : Type 0 where
  pub bins : (h : History) (n : Bytes) → is_some (env.pointer h (bin_new n)) ≡ true
  pub elements :
      (h : History) (f : Bytes) (n : Bytes)
      → is_some (env.pointer h (factory_make f (some n))) ≡ true
  pub ghosts : (h : History) (b g : Ptr) → env.accepts h (add_pad b g) ≡ true
  pub pads :
      (h : History) (e : Ptr) (n : Bytes) → is_some (env.pointer h (request_pad_simple e n)) ≡ true
  pub links : (h : History) (a b : Ptr) → env.accepts h (pad_link a b) ≡ true

module _ (env : Env) (w : Connects env) where
  make_uri_decode_bin-there :
      (i : ℤ) (nvurisrcbin : Bool) (c : Settings) (h : History)
      → Ensures (λ b. is_some b ≡ true) (make_uri_decode_bin i nvurisrcbin c env h).0
  unfolding make_uri_decode_bin
  make_uri_decode_bin-there i true c h = elim (Option-cases (nvurisrcbin_properties c i)) [
    | inl e ↦ rw e tt
    | inr (ps, e) ↦ rw e (w.elements h _ _)
  ]
  make_uri_decode_bin-there i false c h = w.elements h _ _

  complete_source_bin-there :
      (bin : Ptr) (uri : Bytes) (b : Ptr) (h : History)
      → is_some bin ≡ true
      → is_some b ≡ true
      → Ensures (λ r. is_some r ≡ true) (complete_source_bin bin uri b env h).0
  unfolding complete_source_bin
  complete_source_bin-there none uri b h e f = absurd (ground arith)
  complete_source_bin-there (some bin) uri none h e f = absurd (ground arith)
  complete_source_bin-there (some bin) uri (some b) h e f = rw w.ghosts refl

  connect_muxer_src_pads-links :
      (muxer src : Ptr) (i : ℤ) (h : History)
      → Ensures (λ c. c ≡ true) (connect_muxer_src_pads muxer src i env h).0
  unfolding connect_muxer_src_pads
  connect_muxer_src_pads-links muxer src i h = elim (Bool-cases (is_negative i)) [
    | inl e ↦ rw (e, w.pads, w.links) refl
    | inr e ↦ rw (e, w.pads, w.links) refl
  ]

  create_source_bin-there :
      (i : ℤ) (uri : Bytes) (nvurisrcbin : Bool) (c : Settings) (h : History)
      → Ensures (λ b. is_some b ≡ true) (create_source_bin i uri nvurisrcbin c env h).0
  unfolding create_source_bin
  create_source_bin-there i uri nvurisrcbin c h =
      >>=-Ensures (λ b. is_some b ≡ true) (λ b. is_some b ≡ true)
        (complete_source_bin (env.pointer h (bin_new (source_bin_name i))) uri) env
        (make_uri_decode_bin i nvurisrcbin c) _ (make_uri_decode_bin-there i nvurisrcbin c _)
        (λ b h' e. complete_source_bin-there _ uri b h' (w.bins h (source_bin_name i)) e)

  -- The source was counted.
  abbrev Counts : Pipeline → Pipeline → Type 0
  Counts p p' = p'.num_sources ≡ p.num_sources + 1

  attach_source-Counts :
      (p : Pipeline) (b : Ptr) (i : ℤ) (h : History)
      → Ensures (Counts p) (attach_source p b i false env h).0
  unfolding attach_source
  attach_source-Counts p b i h =
      >>=-Ensures (λ c. c ≡ true) (Counts p)
        (λ connected. if connected then start_source p b false else pure p) env
        (connect_muxer_src_pads (p.element streammux) b i) _
        (connect_muxer_src_pads-links (p.element streammux) b i _) linked
    where
      linked :
          (c : Bool) (h' : History)
          → c ≡ true
          → Ensures (Counts p) ((if c then start_source p b false else pure p) env h').0
      linked c h' e = rw e refl

  put_stream-num_sources :
      (p : Pipeline) (i : ℤ) (s : StreamSourceInfo) (h : History)
      → Ensures (λ q. q.num_sources ≡ p.num_sources) (put_stream p i s env h).0
  unfolding put_stream
  put_stream-num_sources p i s h = ground arith

  place_source-Counts :
      (p : Pipeline) (uri camera_id : Bytes) (i : ℤ) (description : Bytes) (b : Ptr) (h : History)
      → is_some b ≡ true
      → Ensures (Counts p) (place_source p uri camera_id i description false b env h).0
  unfolding place_source
  place_source-Counts p uri camera_id i description none h e = absurd (ground arith)
  place_source-Counts p uri camera_id i description (some b) h e =
      >>=-Ensures (λ q. q.num_sources ≡ p.num_sources) (Counts p)
        (λ q. attach_source q (some b) i false) env
        (put_stream p i (new_stream uri camera_id i description (some b))) h
        (put_stream-num_sources p i (new_stream uri camera_id i description (some b)) h)
        (λ q h' same.
          Ensures-map (Counts q) (Counts p) (attach_source q (some b) i false env h').0
            (λ q' r. r ∙ ap (λ n. n + 1) same) (attach_source-Counts q (some b) i h'))

  add_source-Counts :
      (p : Pipeline) (uri camera_id : Bytes) (i : ℤ) (description : Bytes) (nvurisrcbin : Bool)
      (h : History)
      → Ensures (Counts p) (add_source p uri camera_id i description nvurisrcbin false env h).0
  unfolding add_source
  add_source-Counts p uri camera_id i description nvurisrcbin h =
      >>=-Ensures (λ b. is_some b ≡ true) (Counts p)
        (place_source p uri camera_id i description false) env
        (create_source_bin (pos p.num_sources) uri nvurisrcbin p.configs) h
        (create_source_bin-there (pos p.num_sources) uri nvurisrcbin p.configs h)
        (place_source-Counts p uri camera_id i description)

  add_entry-Counts :
      (nvurisrcbin : Bool) (s : SourceEntry) (p : Pipeline) (h : History)
      → Ensures (Counts p) (add_entry nvurisrcbin s p env h).0
  unfolding add_entry
  add_entry-Counts nvurisrcbin s p h =
      >>=-Ensures any (Counts p) with_uri env (or_throw s.uri) h (Ensures-any _) (λ uri h₁ _.
        >>=-Ensures any (Counts p) (with_camera uri) env (or_throw s.camera_id) h₁ (Ensures-any _)
          (λ camera_id h₂ _.
            >>=-Ensures any (Counts p) (with_pad uri camera_id) env (or_throw s.pad_index) h₂
              (Ensures-any _)
              (λ i h₃ _.
                >>=-Ensures any (Counts p) (added uri camera_id i) env (or_throw s.description) h₃
                  (Ensures-any _)
                  (λ description h₄ _.
                    add_source-Counts p uri camera_id i description nvurisrcbin h₄))))
    where
      any : {A : Type 0} → A → Type 0
      any a = Unit {0}

      added : Bytes → Bytes → ℤ → Bytes → M Pipeline
      added uri camera_id i d = add_source p uri camera_id i d nvurisrcbin false

      with_pad : Bytes → Bytes → ℤ → M Pipeline
      with_pad uri camera_id i = or_throw s.description >>= added uri camera_id i

      with_camera : Bytes → Bytes → M Pipeline
      with_camera uri camera_id = or_throw s.pad_index >>= with_pad uri camera_id

      with_uri : Bytes → M Pipeline
      with_uri uri = or_throw s.camera_id >>= with_camera uri

  -- Where GStreamer makes the bins and links them, every source of the file is counted.
  pub add_sources-counts :
      (nvurisrcbin : Bool) (ss : List SourceEntry) (p : Pipeline) (h : History)
      → Ensures
          (λ p'. p'.num_sources ≡ p.num_sources + length ss)
          (add_sources nvurisrcbin ss p env h).0
  unfolding add_sources
  add_sources-counts nvurisrcbin [] p h = omega arith
  add_sources-counts nvurisrcbin (s ∷ ss) p h =
      >>=-Ensures (Counts p) (λ p'. p'.num_sources ≡ p.num_sources + suc (length ss))
        (add_sources nvurisrcbin ss) env (add_entry nvurisrcbin s p) h
        (add_entry-Counts nvurisrcbin s p h)
        (λ q h' e.
          Ensures-map (λ p'. p'.num_sources ≡ q.num_sources + length ss)
            (λ p'. p'.num_sources ≡ p.num_sources + suc (length ss))
            (add_sources nvurisrcbin ss q env h').0 (λ p' f. omega (arith, e, f))
            (add_sources-counts nvurisrcbin ss q h'))
