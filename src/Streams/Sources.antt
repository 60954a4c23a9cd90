-- ===== src/Streams/Sources.antt =====
-- What `add_source` and `delete_source` do to the pipeline's state.
use demo_colombia.Base.{
  ℕ, ◌+◌, ◌<◌, ◌≡◌, refl, subst, ◌⊎◌, inl, inr, Bool, true, false, none, some, [], ◌∷◌, arith,
  if◌then◌else◌, length, Bool-cases, ltb, lt→ltb,
}
use demo_colombia.Base.Int.{ℤ, pos, negsuc}
use demo_colombia.Text.{Bytes}
use demo_colombia.Gst.{Ptr, Env, History, pure, bin_add, done}
use demo_colombia.Gst.Ensures.{
  Ensures, Returns, >>=-Ensures, >>=-Returns, Ensures-any, Ensures-of_Returns, Returns-map,
  Returns-of_Ensures,
}
use demo_colombia.Pads.{connect_muxer_src_pads}
use demo_colombia.Pads.Balance.{connect_muxer_src_pads-Returns}
use demo_colombia.Source.{create_source_bin}
use demo_colombia.Source.Outcomes.{IsConfigured, create_source_bin-Returns}
use demo_colombia.Pipeline.{Pipeline, StreamSourceInfo, pipeline, streammux}
use demo_colombia.Streams.{
  start_source, attach_source, put_stream, add_source, place_source, delete_source, new_stream,
  write_stream,
}

-- The pad index is a cell of the array.
abbrev pub InArray : ℕ → ℤ → Type 0
InArray size i = (k : ℕ) × (i ≡ pos k) × (k < size)

-- The sources that are counted once a source is started.
abbrev pub counted : Bool → ℕ → ℕ
counted readding n = if readding then n else n + 1

start_source_lem :
    (p : Pipeline) (b : Ptr) (readding : Bool) (env : Env) (h : History)
    → Returns
        (λ p'. p' ≡ record p { num_sources = counted readding p.num_sources })
        (start_source p b readding env h).0
unfolding start_source
start_source_lem p b true env h = ground arith
start_source_lem p b false env h = refl

-- The source is counted, or its link to the muxer failed.
abbrev pub Attached : Pipeline → Bool → Pipeline → Type 0
Attached p readding p' = (p' ≡ p) ⊎ (p' ≡ record p { num_sources = counted readding p.num_sources })

attach_source-Attached :
    (p : Pipeline) (b : Ptr) (i : ℤ) (readding : Bool) (env : Env) (h : History)
    → Returns (Attached p readding) (attach_source p b i readding env h).0
unfolding attach_source
attach_source-Attached p b i readding env h =
    >>=-Returns (λ _. Unit {0}) (Attached p readding)
      (λ connected. if connected then start_source p b readding else pure p) env
      (connect_muxer_src_pads (p.element streammux) b i)
      ((bin_add (p.element pipeline) (b ∷ []), done) ∷ h)
      (connect_muxer_src_pads-Returns (p.element streammux) b i env _) after
  where
    after :
        (c : Bool) (h' : History)
        → Unit {0}
        → Returns (Attached p readding) ((if c then start_source p b readding else pure p) env h').0
    after true h' _ =
        Returns-map (λ q. q ≡ record p { num_sources = counted readding p.num_sources })
          (Attached p readding) (start_source p b readding env h').0 (λ q e. inr e)
          (start_source_lem p b readding env h')
    after false h' _ = inl refl

-- How `add_source` may leave the pipeline: as it was, or with a new stream in the cell of its pad
-- index, whose source is counted or failed to link.
abbrev pub Added : Pipeline → (ℤ → Ptr → StreamSourceInfo) → ℤ → Bool → Pipeline → Type 0
Added p stream i readding p' =
    (p' ≡ p)
    ⊎ ((k : ℕ) × (b : ℕ) × (i ≡ pos k)
        × (k < length p.streams)
        × Attached (write_stream p k (stream i (some b))) readding p')

put_stream_lem :
    (p : Pipeline) (i : ℤ) (s : StreamSourceInfo) (env : Env) (h : History)
    → Ensures
        (λ p'. (k : ℕ) × (i ≡ pos k) × (k < length p.streams) × (p' ≡ write_stream p k s))
        (put_stream p i s env h).0
unfolding put_stream
put_stream_lem p (pos k) s env h = elim (Bool-cases (ltb k (length p.streams))) [
  | inl inside ↦ rw inside (k, refl, ground arith, refl)
  | inr outside ↦ rw outside tt
]
put_stream_lem p (negsuc k) s env h = tt

module _ (p : Pipeline) (uri camera_id : Bytes) (i : ℤ) (description : Bytes)
    (readding : Bool) where
  abbrev pub AddedHere : Pipeline → Type 0
  AddedHere = Added p (λ j b. new_stream uri camera_id j description b) i readding

  attached :
      (b : ℕ) (env : Env) (q : Pipeline) (h : History)
      → (k : ℕ) × (i ≡ pos k)
        × (k < length p.streams)
        × (q ≡ write_stream p k (new_stream uri camera_id i description (some b)))
      → Ensures AddedHere (attach_source q (some b) i readding env h).0
  attached b env q h (k, e, lt, w) = Ensures-of_Returns AddedHere _ (
      Returns-map _ AddedHere _ (λ p' a. inr (k, b, e, lt, subst (λ x. Attached x readding p') w a))
        (attach_source-Attached q (some b) i readding env h))

  place_source-Added :
      (b : Ptr) (env : Env) (h : History)
      → Ensures AddedHere (place_source p uri camera_id i description readding b env h).0
  unfolding place_source
  place_source-Added none env h = inl refl
  place_source-Added (some b) env h =
      >>=-Ensures _ AddedHere (λ q. attach_source q (some b) i readding) env
        (put_stream p i (new_stream uri camera_id i description (some b))) h
        (put_stream_lem p i _ env h) (attached b env)

  -- Whatever GStreamer answers, `add_source` leaves the pipeline as it was, or fills the one cell of
  -- its pad index with a fresh stream; `num_sources` then grows by one if the source was linked and is
  -- not being re-added, and never otherwise.
  pub add_source-Added :
      (nvurisrcbin : Bool) (env : Env) (h : History)
      → Ensures AddedHere (add_source p uri camera_id i description nvurisrcbin readding env h).0
  unfolding add_source
  add_source-Added nvurisrcbin env h =
      >>=-Ensures (λ _. Unit {0}) AddedHere (place_source p uri camera_id i description readding)
        env
        (create_source_bin (if readding then i else pos p.num_sources) uri nvurisrcbin p.configs) h
        (Ensures-any
          (create_source_bin (if readding then i else pos p.num_sources) uri nvurisrcbin p.configs
            env h).0)
        (λ b h' _. place_source-Added b env h')

module _ (p : Pipeline) (uri camera_id : Bytes) (i : ℤ) (description : Bytes)
    (readding : Bool) where
  attach_source-Returns :
      (b : Ptr) (env : Env) (q : Pipeline) (h : History)
      → Unit {0}
      → Returns (λ _. Unit {0}) (attach_source q b i readding env h).0
  attach_source-Returns b env q h _ =
      Returns-map (Attached q readding) _ (attach_source q b i readding env h).0 (λ a _. tt)
        (attach_source-Attached q b i readding env h)

  put_stream-Returns :
      (s : StreamSourceInfo) (env : Env) (h : History)
      → InArray (length p.streams) i
      → Returns (λ _. Unit {0}) (put_stream p i s env h).0
  unfolding put_stream
  put_stream-Returns s env h (k, e, lt) = rw e (rw (lt→ltb k (length p.streams) lt) tt)

  place_source-Returns :
      (b : Ptr) (env : Env) (h : History)
      → InArray (length p.streams) i
      → Returns (λ _. Unit {0}) (place_source p uri camera_id i description readding b env h).0
  unfolding place_source
  place_source-Returns none env h a = tt
  place_source-Returns (some b) env h a =
      >>=-Returns _ (λ _. Unit {0}) (λ q. attach_source q (some b) i readding) env
        (put_stream p i (new_stream uri camera_id i description (some b))) h
        (put_stream-Returns _ env h a) (attach_source-Returns (some b) env)

  -- With its settings complete and its pad index inside the array, `add_source` returns, and leaves
  -- the pipeline as `AddedHere` says.
  pub add_source-Returns :
      (nvurisrcbin : Bool) (env : Env) (h : History)
      → InArray (length p.streams) i
      → IsConfigured nvurisrcbin p.configs (if readding then i else pos p.num_sources)
      → Returns
          (AddedHere p uri camera_id i description readding)
          (add_source p uri camera_id i description nvurisrcbin readding env h).0
  unfolding add_source
  add_source-Returns nvurisrcbin env h a c =
      let j = if readding then i else pos p.num_sources in
      Returns-of_Ensures (AddedHere p uri camera_id i description readding)
        (add_source p uri camera_id i description nvurisrcbin readding env h).0
        (add_source-Added p uri camera_id i description readding nvurisrcbin env h)
        (>>=-Returns (λ _. Unit {0}) (λ _. Unit {0})
          (place_source p uri camera_id i description readding) env
          (create_source_bin j uri nvurisrcbin p.configs) h
          (create_source_bin-Returns j uri nvurisrcbin p.configs env h c)
          (λ b h' _. place_source-Returns b env h' a))

-- `delete_source` returns, whatever GStreamer answers.
pub delete_source-Returns :
    (p : Pipeline) (s : StreamSourceInfo) (env : Env) (h : History)
    → Returns (λ _. Unit {0}) (delete_source p s env h).0
unfolding delete_source
delete_source-Returns p s env h = ground arith
