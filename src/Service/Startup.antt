-- ===== src/Service/Startup.antt =====
-- What the start leaves in the pipeline.
use demo_colombia.Base.{
  ℕ, suc, ◌+◌, ◌≤◌, ◌≡◌, sym, subst, ◌∙◌, inl, inr, Bool, true, false, some, List, [], ◌∷◌, length,
  length-set, arith,
}
use demo_colombia.Base.Int.{ℤ, pos}
use demo_colombia.Text.{Bytes}
use demo_colombia.Gst.{Env, History, Settings}
use demo_colombia.Gst.Ensures.{Returns, >>=-Returns, Returns-map}
use demo_colombia.Pipeline.{Pipeline, StreamSourceInfo}
use demo_colombia.Streams.{stream_at, write_stream, new_stream, add_source}
use demo_colombia.Streams.Invariant.Writes.{stream_at-write_cases}
use demo_colombia.Source.Outcomes.{IsConfigured}
use demo_colombia.Streams.Sources.{InArray, AddedHere, add_source-Returns}
use demo_colombia.Streams.Invariant.{HasSettings, IsWatched}
use demo_colombia.Probe.{SourceEntry}
use demo_colombia.Service.{add_entry, add_sources}

-- An entry has all its keys, and its pad index is a cell of the array.
pub record IsEntry (size : ℕ) (s : SourceEntry) : Type 0 where
  pub uri : (t : Bytes) × (s.uri ≡ some t)
  pub camera_id : (t : Bytes) × (s.camera_id ≡ some t)
  pub pad_index : (i : ℤ) × (s.pad_index ≡ some i) × InArray size i
  pub description : (t : Bytes) × (s.description ≡ some t)

abbrev pub AreEntries : ℕ → List SourceEntry → Type 0
AreEntries size [] = Unit
AreEntries size (s ∷ ss) = IsEntry size s × AreEntries size ss

-- The array keeps its size and the settings theirs, at most `n` sources are counted, and each stream
-- is as the watchdog needs it.
pub record IsStarted (size : ℕ) (c : Settings) (n : ℕ) (p : Pipeline) : Type 0 where
  pub sized : length p.streams ≡ size
  pub configured : p.configs ≡ c
  pub counted : p.num_sources ≤ n
  pub watched : (i : ℕ) (s : StreamSourceInfo) → stream_at p i ≡ some s → IsWatched size s

module _ (size : ℕ) (c : Settings) (ok : HasSettings c) (env : Env) where
  new_stream-IsWatched :
      (uri camera_id description : Bytes) (i : ℤ) (b : ℕ)
      → InArray size i
      → IsWatched size (new_stream uri camera_id i description (some b))
  new_stream-IsWatched uri camera_id description i b a = record {
    stage = omega arith;
    in_array = a;
  }

  write-IsStarted :
      (n k : ℕ) (p : Pipeline) (s : StreamSourceInfo)
      → IsWatched size s
      → IsStarted size c n p
      → IsStarted size c n (write_stream p k s)
  write-IsStarted n k p s w v = record {
    sized = length-set p.streams k (some s) ∙ v.sized;
    configured = v.configured;
    counted = v.counted;
    watched = λ i t e. elim (stream_at-write_cases p k i s t e) [
      | inl new ↦ subst (IsWatched size) (sym new) w
      | inr old ↦ v.watched i t old
    ];
  }

  more-IsStarted : (n : ℕ) (p : Pipeline) → IsStarted size c n p → IsStarted size c (n + 1) p
  more-IsStarted n p v = record {
    sized = v.sized;
    configured = v.configured;
    counted = omega (arith, v.counted);
    watched = v.watched;
  }

  counted-IsStarted :
      (n : ℕ) (p : Pipeline)
      → IsStarted size c n p
      → IsStarted size c (n + 1) (record p { num_sources = p.num_sources + 1 })
  counted-IsStarted n p v = record {
    sized = v.sized;
    configured = v.configured;
    counted = omega (arith, v.counted);
    watched = v.watched;
  }

  settled : (nvurisrcbin : Bool) (i : ℤ) → IsConfigured nvurisrcbin c i
  settled true i = ok i
  settled false i = tt

  AddedHere-IsStarted :
      (n : ℕ) (p p' : Pipeline) (uri camera_id description : Bytes) (i : ℤ)
      → InArray size i
      → IsStarted size c n p
      → AddedHere p uri camera_id i description false p'
      → IsStarted size c (n + 1) p'
  AddedHere-IsStarted n p p' uri camera_id description i a v (inl e) =
      subst (IsStarted size c (n + 1)) (sym e) (more-IsStarted n p v)
  AddedHere-IsStarted n p p' uri camera_id description i a v (inr (k, b, at, lt, inl e)) =
      subst (IsStarted size c (n + 1)) (sym e) (
        more-IsStarted n (write_stream p k (new_stream uri camera_id i description (some b))) (
          write-IsStarted n k p (new_stream uri camera_id i description (some b))
            (new_stream-IsWatched uri camera_id description i b a) v))
  AddedHere-IsStarted n p p' uri camera_id description i a v (inr (k, b, at, lt, inr e)) =
      subst (IsStarted size c (n + 1)) (sym e) (
        counted-IsStarted n (write_stream p k (new_stream uri camera_id i description (some b))) (
          write-IsStarted n k p (new_stream uri camera_id i description (some b))
            (new_stream-IsWatched uri camera_id description i b a) v))

  add_entry-IsStarted :
      (nvurisrcbin : Bool) (s : SourceEntry) (n : ℕ) (p : Pipeline) (h : History)
      → IsEntry size s
      → IsStarted size c n p
      → Returns (IsStarted size c (n + 1)) (add_entry nvurisrcbin s p env h).0
  unfolding add_entry
  add_entry-IsStarted nvurisrcbin s n p h w v =
      let (uri, eu) = w.uri in
      let (camera_id, ec) = w.camera_id in
      let (i, ei, a) = w.pad_index in
      let (description, ed) = w.description in
      rw (eu, ec, ei, ed)
        (Returns-map (AddedHere p uri camera_id i description false) (IsStarted size c (n + 1))
          (add_source p uri camera_id i description nvurisrcbin false env h).0
          (λ p' r. AddedHere-IsStarted n p p' uri camera_id description i a v r)
          (add_source-Returns p uri camera_id i description false nvurisrcbin env h
            (subst (λ k. InArray k i) (sym v.sized) a)
            (subst (λ d. IsConfigured nvurisrcbin d (pos p.num_sources)) (sym v.configured)
              (settled nvurisrcbin (pos p.num_sources)))))

  -- Whatever GStreamer answers: if every entry of the sources file has its keys and a pad index inside
  -- the array, and the settings are complete, the start returns. It counts at most one source for each
  -- entry, and leaves every stream in a stage that the watchdog knows.
  pub add_sources-IsStarted :
      (nvurisrcbin : Bool) (ss : List SourceEntry) (n : ℕ) (p : Pipeline) (h : History)
      → AreEntries size ss
      → IsStarted size c n p
      → Returns (IsStarted size c (n + length ss)) (add_sources nvurisrcbin ss p env h).0
  unfolding add_sources
  add_sources-IsStarted nvurisrcbin [] n p h w v = subst (λ k. IsStarted size c k p) (omega arith) v
  add_sources-IsStarted nvurisrcbin (s ∷ ss) n p h (w, ws) v =
      >>=-Returns (IsStarted size c (n + 1)) (IsStarted size c (n + suc (length ss)))
        (add_sources nvurisrcbin ss) env (add_entry nvurisrcbin s p) h
        (add_entry-IsStarted nvurisrcbin s n p h w v)
        (λ p' h' v'.
          Returns-map (IsStarted size c (n + 1 + length ss))
            (IsStarted size c (n + suc (length ss))) (add_sources nvurisrcbin ss p' env h').0
            (λ q r. subst (λ k. IsStarted size c k q) (omega arith) r)
            (add_sources-IsStarted nvurisrcbin ss (n + 1) p' h' ws v'))
