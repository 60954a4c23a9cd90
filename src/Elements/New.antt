-- ===== src/Elements/New.antt =====
-- What the constructor of `Pipeline` leaves in the object.
use demo_colombia.Base.{
  ℕ, ◌<◌, ◌≡◌, refl, ◌∙◌, inl, inr, Bool, true, false, Bool-cases, Option, none, some, length, ltb,
  lt→ltb, if◌then◌else◌,
}
use demo_colombia.Text.{Bytes}
use demo_colombia.Gst.{M, Env, History, Settings, pure, throw, ◌>>=◌, ◌>>◌, parse_gie_type}
use demo_colombia.Gst.Ensures.{Ensures, >>=-Ensures, Ensures-any, Ensures-both}
use demo_colombia.Pipeline.{Pipeline}
use demo_colombia.Elements.{per_branch, tcp_sink, udp_branch}
use demo_colombia.Elements.Configure.{create_pipeline_elements}
use demo_colombia.Elements.Link.{link_pipeline_elements}
use demo_colombia.Elements.Construct.{
  create_pipeline_object, empty_cells, new_pipeline, create_rtsp_server,
}
use demo_colombia.Elements.Presence.{ArePresent, create_pipeline_elements-ArePresent}
use demo_colombia.Elements.Rest.{SameRest, create_pipeline_elements-SameRest}

module _ (env : Env) where
  -- A fresh object: no source is counted, and no cell of the array has a value.
  abbrev pub Fresh : Settings → ℕ → Pipeline → Type 0
  Fresh c max p = (p.configs ≡ c) × (p.num_sources ≡ 0) × (p.streams ≡ empty_cells max)

  abbrev pub IsNew : Settings → ℕ → Pipeline → Type 0
  IsNew c max p = ArePresent p × Fresh c max p

  Fresh-SameRest :
      (c : Settings) (max : ℕ) (p q : Pipeline) → Fresh c max p → SameRest p q → Fresh c max q
  Fresh-SameRest c max p q (a, b, d) v = (v.configs ∙ a, v.num_sources ∙ b, v.streams ∙ d)

  create_pipeline_object-Fresh :
      (c : Settings) (max : ℕ) (p : Pipeline) (h : History)
      → Fresh c max p
      → Ensures (λ r. Fresh c max r.0) (create_pipeline_object p env h).0
  unfolding create_pipeline_object
  create_pipeline_object-Fresh c max p h v = v

  -- What follows once the object for the pipeline is there.
  abbrev pub finish : Pipeline × Bool → M Pipeline
  finish (p₁, made) = do
    (p₂, created) ← (if made then create_pipeline_elements p₁ else throw)
    linked ← (if created then link_pipeline_elements p₂ else throw)
    if linked then pure p₂ else throw

  linked-IsNew :
      (c : Settings) (max : ℕ) (p : Pipeline) (created : Bool) (h : History)
      → Fresh c max p
      → (created ≡ true → ArePresent p)
      → Ensures
          (IsNew c max)
          (((if created then link_pipeline_elements p else throw) >>= λ linked.
              if linked then pure p else throw)
            env h).0
  linked-IsNew c max p false h v a = tt
  linked-IsNew c max p true h v a =
      >>=-Ensures (λ _. Unit {0}) (IsNew c max) (λ linked. if linked then pure p else throw) env
        (link_pipeline_elements p) h (Ensures-any _) (ends (a refl))
    where
      ends :
          ArePresent p
          → (linked : Bool) (h' : History) → Unit {0}
          → Ensures (IsNew c max) ((if linked then pure p else throw) env h').0
      ends w true h' u = (w, v)
      ends w false h' u = tt

  -- Two facts of one outcome.
  both-Ensures :
      {A : Type 0} (P Q : A → Type 0) (m : M A) (h : History)
      → Ensures P (m env h).0
      → Ensures Q (m env h).0
      → Ensures (λ a. P a × Q a) (m env h).0
  both-Ensures P Q m h = Ensures-both P Q (m env h).0

  finish-IsNew :
      (c : Settings) (max : ℕ) (r : Pipeline × Bool) (h : History)
      → Fresh c max r.0
      → Ensures (IsNew c max) (finish r env h).0
  finish-IsNew c max (p, false) h v = tt
  finish-IsNew c max (p, true) h v =
      >>=-Ensures (λ r. SameRest p r.0 × (r.1 ≡ true → ArePresent r.0)) (IsNew c max)
        (λ r. (if r.1 then link_pipeline_elements r.0 else throw) >>= λ linked.
          if linked then pure r.0 else throw)
        env (create_pipeline_elements p) h
        (both-Ensures (λ r. SameRest p r.0) (λ r. r.1 ≡ true → ArePresent r.0)
          (create_pipeline_elements p) h (create_pipeline_elements-SameRest env p h)
          (create_pipeline_elements-ArePresent p env h))
        (λ r h' w. linked-IsNew c max r.0 r.1 h' (Fresh-SameRest c max p r.0 v w.0) w.1)

  -- The constructor, once its settings are there.
  abbrev pub construct_with : Settings → ℕ → Bytes → Bool → Bool → M Pipeline
  construct_with c max config_file infer_server show_sink = do
    per_branch c (λ u. create_rtsp_server c tcp_sink >> pure u)
        (λ u. create_rtsp_server c udp_branch >> pure u) tt
    let p : Pipeline = record {
      config_file = config_file;
      configs = c;
      element = λ m. none;
      is_infer_server = infer_server;
      show_sink = show_sink;
      num_sources = 0;
      streams = empty_cells max;
    }
    r ← create_pipeline_object p
    finish r

  construct_with-IsNew :
      (c : Settings) (max : ℕ) (config_file : Bytes) (infer_server show_sink : Bool) (h : History)
      → Ensures (IsNew c max) (construct_with c max config_file infer_server show_sink env h).0
  construct_with-IsNew c max config_file infer_server show_sink h =
      let p : Pipeline = record {
        config_file = config_file;
        configs = c;
        element = λ m. none;
        is_infer_server = infer_server;
        show_sink = show_sink;
        num_sources = 0;
        streams = empty_cells max;
      } in
      >>=-Ensures (λ _. Unit {0}) (IsNew c max) (λ _. create_pipeline_object p >>= finish) env
        (per_branch c (λ u. create_rtsp_server c tcp_sink >> pure u)
          (λ u. create_rtsp_server c udp_branch >> pure u) tt)
        h (Ensures-any _)
        (λ _ h' _.
          >>=-Ensures (λ r. Fresh c max r.0) (IsNew c max) finish env (create_pipeline_object p) h'
            (create_pipeline_object-Fresh c max p h' (refl, refl, refl))
            (λ r h'' v. finish-IsNew c max r h'' v))

  module _ (load : Bytes → Option Settings) (no_settings : Settings) (max : ℕ) (config_file : Bytes)
      (c : Settings) (found : load config_file ≡ some c) (named_file : 0 < length config_file) where
    -- Whatever the libraries answer: if the file holds settings, the constructor's pipeline has these,
    -- has all elements that they ask for, counts no source and has an array without values.
    pub new_pipeline-IsNew :
        (show_sink : Bool) (h : History)
        → Ensures (IsNew c max) (new_pipeline load no_settings max config_file show_sink env h).0
    unfolding new_pipeline
    new_pipeline-IsNew show_sink h = elim (Bool-cases (ltb (length config_file) 4096)) [
      | inr long ↦ rw long tt
      | inl fits ↦ elim (Bool-cases (env.accepts h (parse_gie_type config_file))) [
        | inr bad ↦ rw (fits, bad) tt
        | inl parsed ↦
            rw (fits, parsed, lt→ltb 0 (length config_file) named_file, found)
              (construct_with-IsNew c max config_file _ show_sink _)
      ]
    ]
