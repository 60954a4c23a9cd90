-- ===== src/Lib.antt =====
-- A verification of the perception service, a DeepStream program that reads camera streams, detects
-- and tracks objects, and sends them to an MQTT broker and their frames to Redis, and of the backend
-- that makes alerts of its messages.
--
-- The parts and their files:
-- Base, with Base/Lists and Base/Int: lists, tests and integers that the parts share.
-- Text: the decimal texts that the program formats (%d, %u, %02d, %07d, std::to_string, g_snprintf).
-- Gst: the calls of GStreamer and other libraries. A routine is a function of an environment, which
--   answers every call from the whole history of calls, and of that history. It returns a value,
--   throws, or is undefined behaviour. No behaviour of a library is assumed. Gst/Ensures, Gst/Safety
--   and Gst/Traces are the rules for sequences of routines.
-- Pads: connect_src_sink_pads and connect_muxer_src_pads (perception/src/Pipeline.cpp).
-- Source: create_source_bin and create_rtspsrc_bin, and in Source/Callbacks the callbacks that
--   complete their bins (perception/src/Pipeline.cpp).
-- Pipeline: StreamSourceInfo and the members of class Pipeline (perception/include/Pipeline.hpp).
-- Elements: the elements of the pipeline, their properties and links, the RTSP servers and the
--   constructor of class Pipeline (perception/src/Pipeline.cpp). Elements/Safety and Elements/Building
--   follow the constructor through its exceptions.
-- Streams: add_source and delete_source (perception/src/Pipeline.cpp), and in Streams/Watchdog the
--   timer callback check_performance (perception/src/perception.cpp). Streams/Schedule is the abstract
--   watchdog that the callback refines, and Streams/Schedule/Silence its ticks over a silent stream.
-- Broker: send_mqtt_message (perception/src/perception.cpp), with the broker's answers as a parameter.
-- Worker: send2MQTTBrokerTask as steps of the thread, of the probe that pushes objects and of main.
-- ObjInfo: the class ObjInfo with its heap array of embeddings (perception/include/ObjInfo.hpp), and
--   the queue of objects.
-- Frames: prepareOutputDirectory, saveFrameTask and send2redisTask (perception/src/perception.cpp).
--   Frames/Pool is the thread pool with the tasks for Redis, as any order of the tasks.
-- Metadata: the sources file, AppCtx_t and the metadata of a batch, as the probe reads them.
-- Probe: nvanalytics_src_pad_buffer_probe (perception/src/perception.cpp), over the metadata of a
--   batch. Probe/Posts and Probe/Stored follow its frames into the pool and to Redis.
-- Messages: set_mqtt_message and set_mqtt_frame_message (perception/src/perception.cpp).
-- Service: main (perception/src/perception.cpp): the arguments, the thread pool, Redis, the MQTT
--   client, the sources, the callbacks and threads. Service/Bus is bus_call; Service/Main is main
--   itself with the main loop and the shutdown, the flags of perception/include/args_parameters.hpp,
--   and StreamCheckerTask. Service/Startup, Service/Filled, Service/Counted and Service/Ready tell
--   what the start leaves, Service/Connecting and Service/Safety follow it through its exceptions;
--   Service/Loop and its modules tell what the main loop keeps; Service/Whole goes from the files to
--   the end of the main loop.
-- Backend: the service that reads the messages of the objects and tells who comes and goes
--   (backend/main.py, backend/gestor_alertas.py), as interleaved steps of its two threads.
--   Backend/Alternation is the order of its alerts, Backend/Round and Backend/Known a round of
--   check_no_change, Backend/Heard a message from the perception service to the alert.
-- Examples: the theorems applied at concrete data.
--
-- main adds the sources before the threads start. Then four parties act on a shared state: the timer
-- calls check_performance, the bus calls bus_call, the streaming thread calls the probe, which counts
-- frames in the array that check_performance reads and fills the queue, and the broker's thread
-- empties the queue. The main loop of Service/Main takes the order of their steps as an argument, a
-- list of events; each event is one step, so a data race between the timer and the streaming thread,
-- which share the frame counters without a lock, is outside the model. The signal callbacks of
-- Source/Callbacks change no state of the program and are not events. The tasks that the probe posts
-- are run after it, whole and one after another: they share nothing but Redis. Worker has the finer
-- steps of the broker's thread: waiting, waking and finishing, with the settings for the messages
-- taken to be there; Service/Main reads them. check_performance calls add_source and delete_source.
-- The broker hands the messages of the objects to the backend, whose person is the object_id of a
-- message.
--
-- Bounds and fuel: a decimal is printed with one more unit of fuel than its value, which exceeds its
-- number of digits. send_mqtt_message tries five times, as its loop does. The loops over sources are
-- recursion on the number of rounds left. Counters of type int are naturals whose increment past
-- 2147483647 is undefined behaviour; between two ticks fewer than 2^31 frames may pass.
--
-- Not modelled: pixels, and with them whether a task still finds the image that it was posted with;
-- inference and JPEG encoding, which libraries do; printing; the parsing of flags; the vendored
-- base64.hpp, and custom-parser, a copy of the DeepStream-Yolo plugin; the deployment files; what
-- Twilio does with an alert. A library call is taken to return. Whether the join of the broker's
-- thread returns is an argument of main; what the probe and that thread do between the quit of the
-- main loop and the join, and the destructors at the return of main, are left out. A format from the
-- settings is taken to convert the arguments that it is given, and the floats of a rectangle to be in
-- the range of int. The sources file, which main reads twice, is taken to hold the same both times.
-- Memory that the program allocates besides the embeddings, such as the text of a message, is not
-- counted.
pub mod Backend
pub mod Base
pub mod Text
pub mod Gst
pub mod Pads
pub mod Source
pub mod Pipeline
pub mod Elements
pub mod Streams
pub mod Broker
pub mod Worker
pub mod ObjInfo
pub mod Frames
pub mod Messages
pub mod Metadata
pub mod Probe
pub mod Service
pub mod Examples
