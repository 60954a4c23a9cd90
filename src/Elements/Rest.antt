-- ===== src/Elements/Rest.antt =====
-- What the making of the elements leaves alone.
use demo_colombia.Base.{◌≡◌, refl, ◌∙◌, Bool, true, false, List, [], ◌∷◌, if◌then◌else◌}
use demo_colombia.Text.{Bytes}
use demo_colombia.Gst.{M, Env, History, Settings, pure, ◌>>=◌}
use demo_colombia.Gst.Ensures.{Ensures, >>=-Ensures, Ensures-any}
use demo_colombia.Pipeline.{Pipeline, sink}
use demo_colombia.Elements.{
  Making, make_elements, make_branch, is_h264, enabled, create_elements, per_branch, rtsp_sink,
  tcp_sink, udp_branch, enable, named, common_elements, tcp_front, tcp_back, udp_front, udp_back,
}
use demo_colombia.Elements.Configure.{
  required, check_elements, configure_elements, create_pipeline_elements,
}

-- Nothing but the pointers to elements differs.
pub record SameRest (p q : Pipeline) : Type 0 where
  pub config_file : q.config_file ≡ p.config_file
  pub configs : q.configs ≡ p.configs
  pub num_sources : q.num_sources ≡ p.num_sources
  pub streams : q.streams ≡ p.streams

abbrev SameRest-refl : (p : Pipeline) → SameRest p p
SameRest-refl p = record { config_file = refl; configs = refl; num_sources = refl; streams = refl }

SameRest-trans : (p q r : Pipeline) → SameRest p q → SameRest q r → SameRest p r
SameRest-trans p q r a b = record {
  config_file = b.config_file ∙ a.config_file;
  configs = b.configs ∙ a.configs;
  num_sources = b.num_sources ∙ a.num_sources;
  streams = b.streams ∙ a.streams;
}

module _ (env : Env) where
  -- What both branches keep is kept.
  per_branch-Ensures :
      {A : Type 0} (P : A → Type 0) (c : Settings) (tcp udp : A → M A)
      → ((a : A) (h : History) → P a → Ensures P (tcp a env h).0)
      → ((a : A) (h : History) → P a → Ensures P (udp a env h).0)
      → (a : A) (h : History) → P a
      → Ensures P (per_branch c tcp udp a env h).0
  per_branch-Ensures {A} P c tcp udp ft fu a h x =
      >>=-Ensures (λ _. Unit {0}) P (λ any. if any then first else pure a) env
        (enabled c (rtsp_sink enable)) h (Ensures-any _) after_any
    where
      second : A → M A
      second b = enabled c (udp_branch enable) >>= λ wanted. if wanted then udp b else pure b

      after_second :
          (b : A)
          → P b
          → (wanted : Bool) (h' : History) → Unit {0}
          → Ensures P ((if wanted then udp b else pure b) env h').0
      after_second b y true h' u = fu b h' y
      after_second b y false h' u = y

      second-Ensures : (b : A) (h' : History) → P b → Ensures P (second b env h').0
      second-Ensures b h' y =
          >>=-Ensures (λ _. Unit {0}) P (λ wanted. if wanted then udp b else pure b) env
            (enabled c (udp_branch enable)) h' (Ensures-any _) (after_second b y)

      wanted_tcp : Bool → M A
      wanted_tcp wanted = if wanted then tcp a else pure a

      first : M A
      first = enabled c (tcp_sink enable) >>= λ wanted. wanted_tcp wanted >>= second

      after_tcp : (wanted : Bool) (h' : History) → Unit {0} → Ensures P (wanted_tcp wanted env h').0
      after_tcp true h' u = ft a h' x
      after_tcp false h' u = x

      after_any :
          (any : Bool) (h' : History)
          → Unit {0}
          → Ensures P ((if any then first else pure a) env h').0
      after_any false h' u = x
      after_any true h' u =
          >>=-Ensures (λ _. Unit {0}) P (λ wanted. wanted_tcp wanted >>= second) env
            (enabled c (tcp_sink enable)) h' (Ensures-any _)
            (λ wanted h'' _.
              >>=-Ensures P P second env (wanted_tcp wanted) h'' (after_tcp wanted h'' tt)
                second-Ensures)

  make_elements-SameRest :
      (ms : List Making) (p q : Pipeline) (h : History)
      → SameRest p q
      → Ensures (SameRest p) (make_elements ms q env h).0
  unfolding make_elements
  make_elements-SameRest [] p q h v = v
  make_elements-SameRest ((m, factory, name) ∷ ms) p q h v =
      make_elements-SameRest ms p _ _ (record {
        config_file = v.config_file;
        configs = v.configs;
        num_sources = v.num_sources;
        streams = v.streams;
      })

  make_branch-SameRest :
      (c : Settings) (branch : List Bytes → List Bytes) (front : List Making)
      (back : Bool → List Making) (p q : Pipeline) (h : History)
      → SameRest p q
      → Ensures (SameRest p) (make_branch c branch front back q env h).0
  unfolding make_branch
  make_branch-SameRest c branch front back p q h v =
      >>=-Ensures (SameRest p) (SameRest p)
        (λ r. is_h264 c branch >>= λ h264. make_elements (back h264) r) env (make_elements front q)
        h (make_elements-SameRest front p q h v)
        (λ r h' v'.
          >>=-Ensures (λ _. Unit {0}) (SameRest p) (λ h264. make_elements (back h264) r) env
            (is_h264 c branch) h' (Ensures-any _)
            (λ h264 h'' _. make_elements-SameRest (back h264) p r h'' v'))

  abbrev with_branches : Pipeline → Pipeline → M Pipeline
  with_branches p =
      per_branch p.configs (make_branch p.configs tcp_sink tcp_front tcp_back)
        (make_branch p.configs udp_branch udp_front udp_back)

  abbrev sink_element : Pipeline → List Making
  sink_element p =
      (if p.show_sink
        then named sink "nveglglessink" "nvvideo-renderer"
        else named sink "fakesink" "nvvideo-renderer")
      ∷ []

  pub create_elements-SameRest :
      (p : Pipeline) (h : History) → Ensures (SameRest p) (create_elements p env h).0
  unfolding create_elements
  create_elements-SameRest p h =
      >>=-Ensures (SameRest p) (SameRest p)
        (λ q. with_branches p q >>= make_elements (sink_element p)) env
        (make_elements (common_elements p.is_infer_server) p) h
        (make_elements-SameRest (common_elements p.is_infer_server) p p h (SameRest-refl p))
        (λ q h' v.
          >>=-Ensures (SameRest p) (SameRest p) (make_elements (sink_element p)) env
            (with_branches p q) h'
            (per_branch-Ensures (SameRest p) p.configs
              (make_branch p.configs tcp_sink tcp_front tcp_back)
              (make_branch p.configs udp_branch udp_front udp_back)
              (make_branch-SameRest p.configs tcp_sink tcp_front tcp_back p)
              (make_branch-SameRest p.configs udp_branch udp_front udp_back p) q h' v)
            (λ r h'' w. make_elements-SameRest (sink_element p) p r h'' w))

  pub create_pipeline_elements-SameRest :
      (p : Pipeline) (h : History)
      → Ensures (λ r. SameRest p r.0) (create_pipeline_elements p env h).0
  unfolding create_pipeline_elements
  create_pipeline_elements-SameRest p h =
      >>=-Ensures (SameRest p) (λ r. SameRest p r.0)
        (λ p'. required (check_elements p') (configure_elements p') >>= λ ok. pure (p', ok)) env
        (create_elements p) h (create_elements-SameRest p h)
        (λ p' h' v.
          >>=-Ensures (λ _. Unit {0}) (λ r. SameRest p r.0) (λ ok. pure (p', ok)) env
            (required (check_elements p') (configure_elements p')) h' (Ensures-any _)
            (λ ok h'' _. v))
