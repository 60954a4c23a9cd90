-- ===== src/Service/Bus.antt =====
-- perception/src/perception.cpp: `bus_call`, which the main loop calls with every message on the bus.
use demo_colombia.Base.{Bool, true, if◌then◌else◌}
use demo_colombia.Gst.{
  Ptr, M, pure, ◌>>=◌, ◌>>◌, ask_flag, tell, main_loop_quit, message_parse_warning,
  message_parse_error, message_is_stream_eos, message_parse_stream_eos, free_debug, free_error,
}

-- The types of messages that it tells apart.
pub data BusMessage : Type 0 where
  warning error element other_message : BusMessage

-- The debug text and the error that a parser gave are freed.
unfoldable pub free_details : M (Unit {0})
free_details = do tell free_debug; tell free_error

-- What the `switch` does; an error ends the main loop.
unfoldable pub react : BusMessage → Ptr → M (Unit {0})
unfolding free_details
react warning loop = do tell message_parse_warning; free_details
react error loop = do tell message_parse_error; free_details; tell (main_loop_quit loop)
react element loop = do
  is_eos ← ask_flag message_is_stream_eos
  if is_eos then tell message_parse_stream_eos else pure tt
react other_message loop = pure tt

-- The callback always stays installed.
unfoldable pub bus_call : BusMessage → Ptr → M Bool
unfolding react
bus_call message loop = do react message loop; pure true
