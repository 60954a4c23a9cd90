-- ===== src/Examples/Whole.antt =====
-- The theorems on the main loop and on the program up to its end, at one camera and a few events.
use demo_colombia.Base.{
  ◌≤◌, ◌<◌, ap, ℕ, zero, suc, ◌≡◌, refl, true, false, none, some, List, [], ◌∷◌, arith,
}
use demo_colombia.Base.Int.{pos}
use demo_colombia.Text.{codes}
use demo_colombia.Gst.Ensures.{Returns}
use demo_colombia.Streams.{
  stream_at, add_source, place_source, put_stream, attach_source, start_source,
}
use demo_colombia.Probe.{last_tensor}
use demo_colombia.Frames.{prepare_output_directory, create_from, source_dir}
use demo_colombia.Service.{
  pool_size, prepare_saving, connect_redis, redis_options, connect_broker, add_sources, add_entry,
  start_service, watch_bus, install_probe,
}
use demo_colombia.Elements.{enabled, create_elements, make_elements, make_branch, is_h264}
use demo_colombia.Elements.Configure.{
  create_pipeline_elements, check_elements, configure_elements, set_caps, set_bitrate,
  configure_tcp, configure_udp, configure_sinks,
}
use demo_colombia.Elements.Link.{link_pipeline_elements, add_elements, link_branch}
use demo_colombia.Elements.Construct.{
  new_pipeline, create_rtsp_server, launch_line, create_pipeline_object, run,
}
use demo_colombia.Pads.{connect_src_sink_pads, src_pad_name, connect_muxer_src_pads, sink_pad_name}
use demo_colombia.Source.{
  create_source_bin, make_uri_decode_bin, complete_source_bin, fill_source_bin, source_bin_name,
  nvurisrcbin_properties,
}
use demo_colombia.Streams.Schedule.Loop.{IsOwn}
use demo_colombia.Messages.{JsonObject}
use demo_colombia.Broker.{MosqErr, success}
use demo_colombia.Service.Bus.{error, warning}
use demo_colombia.Service.Main.{
  serve_events, prepare, build, World, Options, Event, tick, bus_message, buffer, serves, Service,
  start, main_loop,
}
use demo_colombia.Service.Loop.{IsServing, IsPaced, reports_of}
use demo_colombia.Service.Loop.Delivery.{Delivers, main_loop-Delivers}
use demo_colombia.Service.Startup.{AreEntries}
use demo_colombia.Service.Whole.{serve_events-Served}
use demo_colombia.Examples.{
  ones-CanPublish, StreamSourceInfo, willing, ones, ones-HasSettings, entry,
}
use demo_colombia.Examples.Probing.{context, batch, before, before-Holds, before-IsSound}

abbrev pub takes_all : JsonObject → ℕ → MosqErr
takes_all m n = success

abbrev pub serving : Service
serving = record {
  probed = before;
  client = record { publishes = 0; reconnects = 0 };
  running = true;
  sent = [];
}

-- A tick, a batch, a round of the broker's thread, an error, and a tick that comes too late.
abbrev events : List Event
events =
    tick ∷ buffer 77 (some batch) ∷ bus_message warning ∷ serves ∷ bus_message error ∷ tick ∷ []

pub before-IsOwn : IsOwn before.pipeline
before-IsOwn zero t e = cc
before-IsOwn (suc zero) t e = cc
before-IsOwn (suc (suc j)) t e = cc

pub some_injective : {a b : StreamSourceInfo} → some a ≡ some b → a ≡ b
some_injective h = cc

pub serving-IsServing : IsServing (λ n. n) (λ q. none) 1 2 ones 0 [] serving
serving-IsServing = record {
  pending = [];
  sound = before-IsSound;
  own = before-IsOwn;
  low = quiet;
  holds = before-Holds;
  delivered = refl;
}
  where
    quiet :
        (i : ℕ) (s : StreamSourceInfo)
        → i < 1
        → stream_at before.pipeline i ≡ some s
        → s.frame_count ≤ 0
    quiet zero s lt e = omega (arith, ap (λ u. u.frame_count) (some_injective e))
    quiet (suc i) s lt e = absurd (omega arith)

paced : IsPaced 1 0 events
unfolding last_tensor
paced = (omega arith, (omega arith, tt), (((tt, (omega arith, tt)), tt), tt), tt)

main_loop-Delivers_example :
    Returns
      (Delivers
        (λ n. n)
        takes_all
        (λ q. none)
        1
        2
        ones
        ones-HasSettings
        context
        (refl, refl, refl, tt)
        (pos 1)
        refl
        refl
        ones-CanPublish
        (some 4)
        willing
        (reports_of context (pos 1) events))
      (main_loop (λ n. n) takes_all context (some 4) events serving willing []).0
main_loop-Delivers_example =
    main_loop-Delivers (λ n. n) takes_all (λ q. none) 1 2 ones ones-HasSettings context
      (refl, refl, refl, tt) (pos 1) refl refl ones-CanPublish (some 4) willing events 0 [] serving
      [] paced (serving-IsServing, refl)

abbrev world : World
world = record {
  load = λ f. some ones;
  load_sources = λ f. some (entry ∷ []);
  no_settings = ones;
  hardware_concurrency = 8;
  max_source_bins = 2;
}

abbrev options : Options
options = record {
  help = false;
  n_threads = 7;
  streams = codes "sources.yml";
  use_nvurisrcbin = false;
  save_frames = true;
  show_sink = false;
}

started :
    Returns
      (λ a. a.pipeline.num_sources ≡ 1)
      (start world options (codes "config.yml") willing []).0
unfolding start prepare pool_size prepare_saving prepare_output_directory create_from source_dir
    connect_redis redis_options connect_broker build new_pipeline enabled create_rtsp_server
    launch_line create_pipeline_object create_pipeline_elements create_elements make_elements
    make_branch is_h264 check_elements configure_elements set_caps set_bitrate configure_tcp
    configure_udp configure_sinks link_pipeline_elements add_elements link_branch
    connect_src_sink_pads src_pad_name add_sources add_entry add_source create_source_bin
    place_source put_stream attach_source connect_muxer_src_pads sink_pad_name start_source
    start_service watch_bus install_probe run make_uri_decode_bin complete_source_bin
    fill_source_bin source_bin_name nvurisrcbin_properties
started = refl

whole : AreEntries 2 (entry ∷ [])
whole = (
  record {
    uri = (_, refl);
    camera_id = (_, refl);
    pad_index = (_, refl, (0, refl, omega arith));
    description = (_, refl);
  },
  tt,
)

serve_events-Served_example :
    Returns
      (λ r.
        (k : ℕ) × IsServing (λ n. n) (λ q. none) 1 2 ones k (reports_of r.0.ctx (pos 1) events) r.1)
      (serve_events (λ n. n) takes_all world options (codes "config.yml") events willing []).0
serve_events-Served_example =
    serve_events-Served (λ n. n) takes_all world options (codes "config.yml") ones (entry ∷ [])
      (pos 1) refl refl (omega arith) ones-HasSettings whole (refl, tt) refl refl ones-CanPublish
      willing events [] paced started
