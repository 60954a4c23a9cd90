-- ===== src/Elements/Link.antt =====
-- perception/src/Pipeline.cpp: `link_pipeline_elements`.
use demo_colombia.Base.{Bool, true, List, [], ◌∷◌}
use demo_colombia.Base.Int.{negsuc}
use demo_colombia.Gst.{M, pure, ◌>>◌, ask_flag, tell, bin_add, link_many}
use demo_colombia.Pads.{connect_src_sink_pads}
use demo_colombia.Pipeline.{
  tcp_nvvidconv_postosd, tcp_caps, tcp_encoder, tcp_rtppay, tcp_server_sink, nvvidconv_postosd,
  udp_caps, encoder, rtppay, udp_sink, Pipeline, Member, pipeline, streammux, preprocess, nvvidconv,
  capsfilter0, pgie, tracker, nvanalytics, tiler, nvosd, sinktee, sink, queue0, queue1, queue2,
  queue3, queue4, queue5, queue6, queue7, queue8,
}
use demo_colombia.Elements.{per_branch}
use demo_colombia.Elements.Configure.{required, members, check_branch}

-- `gst_bin_add_many(pipeline_, …)`
abbrev add_to_pipeline : Pipeline → List Member → M (Unit {0})
add_to_pipeline p ms = tell (bin_add (p.element pipeline) (members p ms))

abbrev pub chain : List Member
chain =
    streammux ∷ queue0 ∷ nvvidconv ∷ capsfilter0 ∷ pgie ∷ queue1 ∷ tracker ∷ queue2 ∷ nvanalytics
    ∷ queue3 ∷ tiler ∷ queue4 ∷ nvosd ∷ queue5 ∷ sinktee ∷ []

abbrev pub tcp_chain : List Member
tcp_chain = tcp_nvvidconv_postosd ∷ tcp_caps ∷ tcp_encoder ∷ tcp_rtppay ∷ tcp_server_sink ∷ []

abbrev pub udp_chain : List Member
udp_chain = nvvidconv_postosd ∷ udp_caps ∷ encoder ∷ rtppay ∷ udp_sink ∷ []

unfoldable pub add_elements : Pipeline → M (Unit {0})
add_elements p = do
  add_to_pipeline p (queue0 ∷ queue1 ∷ queue2 ∷ queue3 ∷ queue4 ∷ queue5 ∷ queue6 ∷ [])
  add_to_pipeline p (streammux ∷ preprocess ∷ pgie ∷ tracker ∷ nvanalytics ∷ [])
  add_to_pipeline p (tiler ∷ nvvidconv ∷ capsfilter0 ∷ nvosd ∷ sinktee ∷ sink ∷ [])
  per_branch p.configs (λ u. add_to_pipeline p (queue8 ∷ tcp_chain) >> pure u)
      (λ u. add_to_pipeline p (queue7 ∷ udp_chain) >> pure u) tt

-- A branch is linked, and its queue to the tee; the pad index is left out.
unfoldable pub link_branch : Pipeline → Member → List Member → M Bool
link_branch p queue rest =
    required (ask_flag (link_many (members p (queue ∷ rest))))
      (connect_src_sink_pads (p.element sinktee) (p.element queue) (negsuc 0))

unfoldable pub link_pipeline_elements : Pipeline → M Bool
unfolding link_branch
link_pipeline_elements p =
    add_elements p
    >> required (ask_flag (link_many (members p chain))) (
        required (link_branch p queue6 (sink ∷ [])) (
          per_branch p.configs (check_branch (link_branch p queue8 tcp_chain))
            (check_branch (link_branch p queue7 udp_chain)) true))
