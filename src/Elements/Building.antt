-- ===== src/Elements/Building.antt =====
-- The constructor of `Pipeline` and `run` may throw, and are never undefined, where the launch lines
-- and the name of the configuration file fit into their buffers.
use demo_colombia.Base.{lt→ltb, Option, ℕ, ◌<◌, List, [], ◌∷◌, length, Bool, true, arith}
use demo_colombia.Base.Int.{pos, ℤ, negsuc}
use demo_colombia.Text.{Bytes}
use demo_colombia.Gst.Safety.{or_throw-IsSafe}
use demo_colombia.Elements.Safety.{create_pipeline_elements-IsSafe}
use demo_colombia.Elements.New.{finish, construct_with}
use demo_colombia.Elements.{tcp_sink, udp_branch}
use demo_colombia.Elements.Construct.{empty_cells, create_pipeline_object, new_pipeline}
use demo_colombia.Elements.Configure.{create_pipeline_elements}
use demo_colombia.Base.{Option, none, ltb, lt→ltb, if◌then◌else◌}
use demo_colombia.Base.Int.{pos}
use demo_colombia.Text.{codes}
use demo_colombia.Gst.Safety.{if-IsSafe}
use demo_colombia.Gst.{
  throw, undefined_behaviour, ask, ask_name, or_throw, int, text, object_unref, parse_gie_type,
  rtsp_media_factory_new, rtsp_media_factory_set, rtsp_mount_points_add_factory, rtsp_server_attach,
  rtsp_server_get_mount_points, rtsp_server_new, rtsp_server_set_service,
}
use demo_colombia.Gst.{
  M, Env, History, Settings, Ptr, pure, ◌>>=◌, ◌>>◌, tell, ask_flag, bin_add, link_many,
  sprintf_launch,
}
use demo_colombia.Gst.Safety.{IsSafe, >>=-IsSafe}
use demo_colombia.Pads.{connect_src_sink_pads}
use demo_colombia.Pipeline.{Pipeline, Member, pipeline, sink, sinktee, queue6, queue7, queue8}
use demo_colombia.Elements.{
  object_unref, rtsp_mount_points_add_factory, int, text, rtsp_media_factory_set, or_throw,
  rtsp_media_factory_new, rtsp_server_get_mount_points, rtsp_server_new, rtsp_server_set_service,
  codes, ask_name, ask, per_branch,
}
use demo_colombia.Elements.Configure.{required, check_branch, members, tcp_members, udp_members}
use demo_colombia.Elements.Link.{chain, add_elements, link_branch, link_pipeline_elements}
use demo_colombia.Elements.Construct.{new_pipeline, run, create_rtsp_server, launch_line}
use demo_colombia.Elements.Safety.{per_branch-IsSafe, required-IsSafe, check_branch-IsSafe}

module _ (env : Env) where
  -- The launch lines that `sprintf` writes fit into 1024 bytes.
  abbrev pub AreShortLines : Type 0
  AreShortLines =
      (h : History) (format : Bytes) (port : ℕ) (name : Bytes)
      → length (env.names h (sprintf_launch format port name)) < 1024

  add_elements-IsSafe : (p : Pipeline) → IsSafe env (add_elements p)
  unfolding add_elements
  add_elements-IsSafe p h =
      per_branch-IsSafe env p.configs (λ u. added (queue8 ∷ tcp_members) >> pure u)
        (λ u. added (queue7 ∷ udp_members) >> pure u) (λ u h'. tt) (λ u h'. tt) tt _
    where
      added : List Member → M (Unit {0})
      added ms = tell (bin_add (p.element pipeline) (members p ms))

  connect_src_sink_pads-IsSafe :
      (src to : Ptr) (i : ℤ) → IsSafe env (connect_src_sink_pads src to i)
  unfolding connect_src_sink_pads
  connect_src_sink_pads-IsSafe src to i h = ground arith

  link_branch-IsSafe :
      (p : Pipeline) (queue : Member) (rest : List Member) → IsSafe env (link_branch p queue rest)
  unfolding link_branch
  link_branch-IsSafe p queue rest =
      required-IsSafe env (ask_flag (link_many (members p (queue ∷ rest))))
        (connect_src_sink_pads (p.element sinktee) (p.element queue) (negsuc 0)) (λ h. tt)
        (connect_src_sink_pads-IsSafe (p.element sinktee) (p.element queue) (negsuc 0))

  link_pipeline_elements-IsSafe : (p : Pipeline) → IsSafe env (link_pipeline_elements p)
  unfolding link_pipeline_elements
  link_pipeline_elements-IsSafe p =
      let tcp = check_branch (link_branch p queue8 tcp_members) in
      let udp = check_branch (link_branch p queue7 udp_members) in
      let first = link_branch p queue6 (sink ∷ []) in
      let rest = required first (per_branch p.configs tcp udp true) in
      let main_chain = ask_flag (link_many (members p chain)) in
      >>=-IsSafe env (add_elements p) (λ _. required main_chain rest) (add_elements-IsSafe p)
        (λ _.
          required-IsSafe env main_chain rest (λ h. tt)
            (required-IsSafe env first (per_branch p.configs tcp udp true)
              (link_branch-IsSafe p queue6 (sink ∷ []))
              (per_branch-IsSafe env p.configs tcp udp
                (check_branch-IsSafe env (link_branch p queue8 tcp_members)
                  (link_branch-IsSafe p queue8 tcp_members))
                (check_branch-IsSafe env (link_branch p queue7 udp_members)
                  (link_branch-IsSafe p queue7 udp_members))
                true)))

  pub run-IsSafe : (p : Pipeline) → IsSafe env (run p)
  unfolding run
  run-IsSafe p h = ground arith

  module _ (short : AreShortLines) where
    launch_line-IsSafe :
        (c : Settings) (branch : List Bytes → List Bytes) → IsSafe env (launch_line c branch)
    unfolding launch_line
    launch_line-IsSafe c branch =
        let format = c.as_text (branch (codes "rtsp-server" ∷ codes "pipeline" ∷ [])) in
        let port = c.as_unsigned (branch (codes "rtsp-server" ∷ codes "sink-port" ∷ [])) in
        let encoding = c.as_text (branch (codes "rtsp-server" ∷ codes "encoding-name" ∷ [])) in
        >>=-IsSafe env (or_throw format) (with_format port encoding) (or_throw-IsSafe env format)
          (λ f.
            >>=-IsSafe env (or_throw port) (with_port encoding f) (or_throw-IsSafe env port) (λ n.
              >>=-IsSafe env (or_throw encoding) (printed f n) (or_throw-IsSafe env encoding)
                (printed-IsSafe f n)))
      where
        printed : Bytes → ℕ → Bytes → M Bytes
        printed f n e = do
          line ← ask_name (sprintf_launch f n e)
          if ltb (length line) 1024 then pure line else undefined_behaviour

        printed-IsSafe : (f : Bytes) (n : ℕ) (e : Bytes) → IsSafe env (printed f n e)
        printed-IsSafe f n e h =
            rw (lt→ltb (length (env.names h (sprintf_launch f n e))) 1024 (short h f n e)) tt

        with_port : Option Bytes → Bytes → ℕ → M Bytes
        with_port encoding f n = or_throw encoding >>= printed f n

        with_format : Option ℕ → Option Bytes → Bytes → M Bytes
        with_format port encoding f = or_throw port >>= with_port encoding f

    -- What follows once the launch line is there.
    abbrev serve_line : Settings → (List Bytes → List Bytes) → Ptr → Ptr → Bytes → M Bool
    serve_line c branch server mounts line = do
      factory ← ask rtsp_media_factory_new
      tell (rtsp_media_factory_set factory (codes "launch") (text line))
      tell (rtsp_media_factory_set factory (codes "buffer-size") (int (pos 165888000)))
      tell (rtsp_media_factory_set factory (codes "shared") (int (pos 0)))
      tell (rtsp_media_factory_set factory (codes "transport-mode") (text (codes "PLAY")))
      rtcp ← or_throw (c.as_int (branch (codes "rtsp-server" ∷ codes "enable-rtcp" ∷ [])))
      tell (rtsp_media_factory_set factory (codes "enable-rtcp") (int rtcp))
      mountpoint ← or_throw (c.as_text (branch (codes "rtsp-server" ∷ codes "mountpoint" ∷ [])))
      tell (rtsp_mount_points_add_factory mounts mountpoint factory)
      tell (object_unref mounts)
      tell (rtsp_server_attach server)
      pure true

    serve_line-IsSafe :
        (c : Settings) (branch : List Bytes → List Bytes) (server mounts : Ptr) (line : Bytes)
        → IsSafe env (serve_line c branch server mounts line)
    serve_line-IsSafe c branch server mounts line h = ground arith

    -- What follows once the port of the server is read.
    abbrev with_service : Settings → (List Bytes → List Bytes) → Ptr → Bytes → M Bool
    with_service c branch server service = do
      tell (rtsp_server_set_service server service)
      mounts ← ask (rtsp_server_get_mount_points server)
      line ← launch_line c branch
      serve_line c branch server mounts line

    with_service-IsSafe :
        (c : Settings) (branch : List Bytes → List Bytes) (server : Ptr) (service : Bytes)
        → IsSafe env (with_service c branch server service)
    with_service-IsSafe c branch server service h =
        >>=-IsSafe env (launch_line c branch) (serve_line c branch server _)
          (launch_line-IsSafe c branch) (serve_line-IsSafe c branch server _) _

    create_rtsp_server-IsSafe :
        (c : Settings) (branch : List Bytes → List Bytes) → IsSafe env (create_rtsp_server c branch)
    unfolding create_rtsp_server
    create_rtsp_server-IsSafe c branch h =
        let service = c.as_text (branch (codes "rtsp-server" ∷ codes "rtsp-port" ∷ [])) in
        let server = env.pointer h rtsp_server_new in
        >>=-IsSafe env (or_throw service) (with_service c branch server)
          (or_throw-IsSafe env service) (with_service-IsSafe c branch server) _

    finish-IsSafe :
        (p : Pipeline) (made : Bool)
        → length p.config_file < 4096
        → IsSafe env (finish env (p, made))
    finish-IsSafe p made few =
        >>=-IsSafe env (if made then create_pipeline_elements p else throw) linking
          (if-IsSafe env made (create_pipeline_elements p) throw
            (create_pipeline_elements-IsSafe env p few) (λ h. tt))
          linking-IsSafe
      where
        linking : Pipeline × Bool → M Pipeline
        linking r = (if r.1 then link_pipeline_elements r.0 else throw) >>= λ linked.
            if linked then pure r.0 else throw

        linking-IsSafe : (r : Pipeline × Bool) → IsSafe env (linking r)
        linking-IsSafe (q, created) =
            >>=-IsSafe env (if created then link_pipeline_elements q else throw)
              (λ linked. if linked then pure q else throw)
              (if-IsSafe env created (link_pipeline_elements q) throw
                (link_pipeline_elements-IsSafe q) (λ h. tt))
              (λ linked. if-IsSafe env linked (pure q) throw (λ h. tt) (λ h. tt))

    served-IsSafe :
        (c : Settings) (branch : List Bytes → List Bytes) (u : Unit {0})
        → IsSafe env (create_rtsp_server c branch >> pure u)
    served-IsSafe c branch u =
        >>=-IsSafe env (create_rtsp_server c branch) (λ _. pure u)
          (create_rtsp_server-IsSafe c branch) (λ _ h. tt)

    construct_with-IsSafe :
        (c : Settings) (max : ℕ) (config_file : Bytes) (infer_server show_sink : Bool)
        → length config_file < 4096
        → IsSafe env (construct_with env c max config_file infer_server show_sink)
    unfolding create_pipeline_object
    construct_with-IsSafe c max config_file infer_server show_sink few =
        let p : Pipeline = record {
          config_file = config_file;
          configs = c;
          element = λ m. none;
          is_infer_server = infer_server;
          show_sink = show_sink;
          num_sources = 0;
          streams = empty_cells max;
        } in
        let tcp : Unit {0} → M (Unit {0}) = λ u. create_rtsp_server c tcp_sink >> pure u in
        let udp : Unit {0} → M (Unit {0}) = λ u. create_rtsp_server c udp_branch >> pure u in
        >>=-IsSafe env (per_branch c tcp udp tt) (λ _. create_pipeline_object p >>= finish env)
          (per_branch-IsSafe env c tcp udp (served-IsSafe c tcp_sink) (served-IsSafe c udp_branch)
            tt)
          (λ _ h. finish-IsSafe _ _ few _)

    -- Where the name of the configuration file fits into its buffer too, the constructor's behaviour
    -- is never undefined, whatever the libraries answer and whatever the settings lack.
    pub new_pipeline-IsSafe :
        (load : Bytes → Option Settings) (no_settings : Settings) (max : ℕ) (config_file : Bytes)
        (show_sink : Bool)
        → length config_file < 4096
        → IsSafe env (new_pipeline load no_settings max config_file show_sink)
    unfolding new_pipeline
    new_pipeline-IsSafe load no_settings max config_file show_sink few h =
        let named =
          if ltb 0 (length config_file) then or_throw (load config_file) else pure no_settings in
        let parsed = env.accepts h (parse_gie_type config_file) in
        rw (lt→ltb (length config_file) 4096 few) (
          >>=-IsSafe env (if parsed then named else throw)
            (λ c. construct_with env c max config_file _ show_sink)
            (if-IsSafe env parsed named throw
              (if-IsSafe env (ltb 0 (length config_file)) (or_throw (load config_file))
                (pure no_settings) (or_throw-IsSafe env (load config_file)) (λ h'. tt))
              (λ h'. tt))
            (λ c. construct_with-IsSafe c max config_file _ show_sink few) _)
