-- ===== src/Elements/Safety.antt =====
-- The constructor of `Pipeline` and the start of the pipeline may throw, and are never undefined, where
-- the launch lines and the name of the configuration file fit into their buffers.
use demo_colombia.Source.{all_there}
use demo_colombia.Elements.Rest.{SameRest, create_elements-SameRest}
use demo_colombia.Base.{
  subst, sym, String, ◌<◌, Bool, true, false, List, [], ◌∷◌, length, lt→ltb, if◌then◌else◌, arith,
}
use demo_colombia.Text.{Bytes}
use demo_colombia.Gst.{M, Env, Settings, Ptr, pure, ◌>>=◌, ◌>>◌}
use demo_colombia.Gst.Safety.{>>=-Defined, Defined-of_Ensures}
use demo_colombia.Pipeline.{Pipeline, Member}
use demo_colombia.Elements.{
  pos, int, pgie, nvvidconv, tiler, preprocess, object_set, nvosd, tracker, nvanalytics,
  capsfilter0, tell, streammux, codes, nvds_parse, ask_flag, common_elements, udp_back, udp_front,
  tcp_back, rtsp_sink, sink, tcp_front, enable, named, tcp_sink, udp_branch, Making, enabled,
  per_branch, make_elements, is_h264, make_branch, create_elements,
}
use demo_colombia.Elements.Configure.{
  queue_members, main_members, parses, set_config_file, members, udp_members, tcp_members,
  check_branch, required, check_elements, configure_tcp, configure_udp, set_caps, set_bitrate,
  configure_sinks, configure_elements, create_pipeline_elements,
}
use demo_colombia.Gst.Safety.{IsSafe, >>=-IsSafe, if-IsSafe}

module _ (env : Env) where
  enabled-IsSafe : (c : Settings) (path : List Bytes) → IsSafe env (enabled c path)
  unfolding enabled
  enabled-IsSafe c path h = ground arith

  pub per_branch-IsSafe :
      {A : Type 0} (c : Settings) (tcp udp : A → M A)
      → ((a : A) → IsSafe env (tcp a))
      → ((a : A) → IsSafe env (udp a))
      → (a : A) → IsSafe env (per_branch c tcp udp a)
  per_branch-IsSafe {A} c tcp udp s t a =
      >>=-IsSafe env (enabled c (rtsp_sink enable)) (λ any. if any then first else pure a)
        (enabled-IsSafe c (rtsp_sink enable))
        (λ any. if-IsSafe env any first (pure a) first-IsSafe (λ h. tt))
    where
      second : A → M A
      second b = enabled c (udp_branch enable) >>= λ wanted. if wanted then udp b else pure b

      second-IsSafe : (b : A) → IsSafe env (second b)
      second-IsSafe b =
          >>=-IsSafe env (enabled c (udp_branch enable))
            (λ wanted. if wanted then udp b else pure b) (enabled-IsSafe c (udp_branch enable))
            (λ wanted. if-IsSafe env wanted (udp b) (pure b) (t b) (λ h. tt))

      from_tcp : Bool → M A
      from_tcp wanted = if wanted then tcp a else pure a

      first : M A
      first = enabled c (tcp_sink enable) >>= λ wanted. from_tcp wanted >>= second

      first-IsSafe : IsSafe env first
      first-IsSafe =
          >>=-IsSafe env (enabled c (tcp_sink enable)) (λ wanted. from_tcp wanted >>= second)
            (enabled-IsSafe c (tcp_sink enable))
            (λ wanted.
              >>=-IsSafe env (from_tcp wanted) second
                (if-IsSafe env wanted (tcp a) (pure a) (s a) (λ h. tt)) second-IsSafe)

  make_elements-IsSafe : (ms : List Making) (p : Pipeline) → IsSafe env (make_elements ms p)
  unfolding make_elements
  make_elements-IsSafe [] p h = tt
  make_elements-IsSafe ((m, factory, name) ∷ ms) p h = make_elements-IsSafe ms _ _

  is_h264-IsSafe : (c : Settings) (branch : List Bytes → List Bytes) → IsSafe env (is_h264 c branch)
  unfolding is_h264
  is_h264-IsSafe c branch h = ground arith

  make_branch-IsSafe :
      (c : Settings) (branch : List Bytes → List Bytes) (front : List Making)
      (back : Bool → List Making) (p : Pipeline)
      → IsSafe env (make_branch c branch front back p)
  unfolding make_branch
  make_branch-IsSafe c branch front back p =
      >>=-IsSafe env (make_elements front p)
        (λ q. is_h264 c branch >>= λ h264. make_elements (back h264) q)
        (make_elements-IsSafe front p)
        (λ q.
          >>=-IsSafe env (is_h264 c branch) (λ h264. make_elements (back h264) q)
            (is_h264-IsSafe c branch) (λ h264. make_elements-IsSafe (back h264) q))

  abbrev last_element : Pipeline → List Making
  last_element p =
      (if p.show_sink
        then named sink "nveglglessink" "nvvideo-renderer"
        else named sink "fakesink" "nvvideo-renderer")
      ∷ []

  create_elements-IsSafe : (p : Pipeline) → IsSafe env (create_elements p)
  unfolding create_elements
  create_elements-IsSafe p =
      let tcp = make_branch p.configs tcp_sink tcp_front tcp_back in
      let udp = make_branch p.configs udp_branch udp_front udp_back in
      >>=-IsSafe env (make_elements (common_elements p.is_infer_server) p)
        (λ q. per_branch p.configs tcp udp q >>= make_elements (last_element p))
        (make_elements-IsSafe (common_elements p.is_infer_server) p)
        (λ q.
          >>=-IsSafe env (per_branch p.configs tcp udp q) (make_elements (last_element p))
            (per_branch-IsSafe p.configs tcp udp
              (make_branch-IsSafe p.configs tcp_sink tcp_front tcp_back)
              (make_branch-IsSafe p.configs udp_branch udp_front udp_back) q)
            (make_elements-IsSafe (last_element p)))

  pub required-IsSafe : (m k : M Bool) → IsSafe env m → IsSafe env k → IsSafe env (required m k)
  required-IsSafe m k s t =
      >>=-IsSafe env m (λ ok. if ok then k else pure false) s
        (λ ok. if-IsSafe env ok k (pure false) t (λ h. tt))

  pub check_branch-IsSafe :
      (m : M Bool) → IsSafe env m → (ok : Bool) → IsSafe env (check_branch m ok)
  check_branch-IsSafe m s ok = if-IsSafe env ok m (pure false) s (λ h. tt)

  abbrev members_there : Pipeline → List Member → M Bool
  members_there p ms = pure (all_there (members p ms))

  check_elements-IsSafe : (p : Pipeline) → IsSafe env (check_elements p)
  unfolding check_elements
  check_elements-IsSafe p =
      let tcp = check_branch (members_there p tcp_members) in
      let udp = check_branch (members_there p udp_members) in
      let rest = per_branch p.configs tcp udp true in
      if-IsSafe env (all_there (members p main_members))
        (if all_there (members p queue_members) then rest else pure false) (pure false)
        (if-IsSafe env (all_there (members p queue_members)) rest (pure false)
          (per_branch-IsSafe p.configs tcp udp
            (check_branch-IsSafe (members_there p tcp_members) (λ h. tt))
            (check_branch-IsSafe (members_there p udp_members) (λ h. tt)) true)
          (λ h. tt))
        (λ h. tt)

  configure_tcp-IsSafe : (p : Pipeline) (ok : Bool) → IsSafe env (configure_tcp p ok)
  unfolding configure_tcp set_caps set_bitrate
  configure_tcp-IsSafe p ok h = ground arith

  configure_udp-IsSafe : (p : Pipeline) (ok : Bool) → IsSafe env (configure_udp p ok)
  unfolding configure_udp set_caps set_bitrate
  configure_udp-IsSafe p ok h = ground arith

  configure_sinks-IsSafe : (p : Pipeline) → IsSafe env (configure_sinks p)
  unfolding configure_sinks
  configure_sinks-IsSafe p =
      let egl = ask_flag (nvds_parse (codes "egl-sink") (p.element sink) p.config_file) in
      required-IsSafe (if p.show_sink then egl else pure true)
        (per_branch p.configs (configure_tcp p) (configure_udp p) true)
        (if-IsSafe env p.show_sink egl (pure true) (λ h. tt) (λ h. tt))
        (per_branch-IsSafe p.configs (configure_tcp p) (configure_udp p) (configure_tcp-IsSafe p)
          (configure_udp-IsSafe p) true)

  set_config_file-IsSafe :
      (p : Pipeline) (m : Member) (section : String) → IsSafe env (set_config_file p m section)
  set_config_file-IsSafe p m section h = ground arith

  set_caps-IsSafe : (e : Ptr) (format : String) → IsSafe env (set_caps e format)
  unfolding set_caps
  set_caps-IsSafe e format h = tt

  parse-IsSafe :
      (p : Pipeline) (group : String) (m : Member) (k : M Bool)
      → IsSafe env k
      → IsSafe env (required (parses p group m) k)
  parse-IsSafe p group m k t = required-IsSafe (parses p group m) k (λ h. tt) t

  -- The steps of `configure_elements`, from the last on.
  abbrev from_osd : Pipeline → M Bool
  from_osd p =
      tell (object_set (p.element nvvidconv) ((codes "nvbuf-memory-type", int (pos 3)) ∷ []))
      >> (set_caps (p.element capsfilter0) "RGBA"
          >> required (parses p "osd" nvosd) (configure_sinks p))

  abbrev from_analytics : Pipeline → M Bool
  from_analytics p =
      set_config_file p nvanalytics "nvanalytics" >> required (parses p "tiler" tiler) (from_osd p)

  abbrev from_preprocess : Pipeline → M Bool
  from_preprocess p =
      set_config_file p preprocess "preprocess"
      >> required (parses p "primary-gie" pgie)
          (required (parses p "tracker" tracker) (from_analytics p))

  from_osd-IsSafe : (p : Pipeline) → IsSafe env (from_osd p)
  from_osd-IsSafe p h =
      >>=-IsSafe env (set_caps (p.element capsfilter0) "RGBA")
        (λ _. required (parses p "osd" nvosd) (configure_sinks p))
        (set_caps-IsSafe (p.element capsfilter0) "RGBA")
        (λ _. parse-IsSafe p "osd" nvosd (configure_sinks p) (configure_sinks-IsSafe p)) _

  from_analytics-IsSafe : (p : Pipeline) → IsSafe env (from_analytics p)
  from_analytics-IsSafe p =
      >>=-IsSafe env (set_config_file p nvanalytics "nvanalytics")
        (λ _. required (parses p "tiler" tiler) (from_osd p))
        (set_config_file-IsSafe p nvanalytics "nvanalytics")
        (λ _. parse-IsSafe p "tiler" tiler (from_osd p) (from_osd-IsSafe p))

  from_preprocess-IsSafe : (p : Pipeline) → IsSafe env (from_preprocess p)
  from_preprocess-IsSafe p =
      let tracked = required (parses p "tracker" tracker) (from_analytics p) in
      >>=-IsSafe env (set_config_file p preprocess "preprocess")
        (λ _. required (parses p "primary-gie" pgie) tracked)
        (set_config_file-IsSafe p preprocess "preprocess")
        (λ _.
          parse-IsSafe p "primary-gie" pgie tracked
            (parse-IsSafe p "tracker" tracker (from_analytics p) (from_analytics-IsSafe p)))

  configure_elements-IsSafe :
      (p : Pipeline) → length p.config_file < 4096 → IsSafe env (configure_elements p)
  unfolding configure_elements
  configure_elements-IsSafe p short h =
      rw (lt→ltb (length p.config_file) 4096 short)
        (parse-IsSafe p "streammux" streammux (from_preprocess p) (from_preprocess-IsSafe p) h)

  pub create_pipeline_elements-IsSafe :
      (p : Pipeline) → length p.config_file < 4096 → IsSafe env (create_pipeline_elements p)
  unfolding create_pipeline_elements
  create_pipeline_elements-IsSafe p short h =
      >>=-Defined (SameRest p) (λ _. Unit {0})
        (λ q. required (check_elements q) (configure_elements q) >>= λ ok. pure (q, ok)) env
        (create_elements p) h
        (Defined-of_Ensures (SameRest p) (create_elements p env h).0
          (create_elements-SameRest env p h) (create_elements-IsSafe p h))
        (λ q h' v.
          >>=-IsSafe env (required (check_elements q) (configure_elements q)) (λ ok. pure (q, ok))
            (required-IsSafe (check_elements q) (configure_elements q) (check_elements-IsSafe q) (
              configure_elements-IsSafe q (subst (λ f. length f < 4096) (sym v.config_file) short)))
            (λ ok h''. tt) h')
