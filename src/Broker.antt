-- ===== src/Broker.antt =====
-- perception/src/perception.cpp: `send_mqtt_message`, which publishes one message and tries again
-- where that may help. What `mosquitto_publish` answers is a parameter: the code of its n-th call.
-- Its quality of service and flag, read from the settings, are in `publish_settings` of Service/Main.
pub mod Retries
use demo_colombia.Base.{ℕ, zero, suc, ◌+◌, Bool, true, false}

-- The result codes of libmosquitto that the `switch` names, and the others.
pub data MosqErr : Type 0 where
  success inval nomem no_conn protocol payload_size : MosqErr
  malformed_utf8 qos_not_supported oversize_packet other : MosqErr

-- The client: how often `mosquitto_publish` and `mosquitto_reconnect` were called.
pub record Client : Type 0 where
  pub publishes : ℕ
  pub reconnects : ℕ

abbrev pub after_publish : Client → Client
after_publish c = record c { publishes = c.publishes + 1 }

abbrev pub after_reconnect : Client → Client
after_reconnect c = record c { reconnects = c.reconnects + 1 }

-- What the `switch` decides.
pub data Verdict : Type 0 where
  sent gives_up retries reconnects_and_retries : Verdict

unfoldable pub verdict : MosqErr → Verdict
verdict success = sent
verdict inval = gives_up
verdict nomem = retries
verdict no_conn = reconnects_and_retries
verdict protocol = retries
verdict payload_size = gives_up
verdict malformed_utf8 = gives_up
verdict qos_not_supported = gives_up
verdict oversize_packet = gives_up
verdict other = retries

-- The `while` loop with the tries that are left.
unfoldable pub send_tries : (ℕ → MosqErr) → ℕ → Client → Bool × Client
send_tries answers zero c = (false, c)
send_tries answers (suc tries) c = elim (verdict (answers c.publishes)) [
  | sent ↦ (true, after_publish c)
  | gives_up ↦ (false, after_publish c)
  | retries ↦ send_tries answers tries (after_publish c)
  | reconnects_and_retries ↦ send_tries answers tries (after_reconnect (after_publish c))
]

abbrev pub max_tries : ℕ
max_tries = 5

unfoldable pub send_mqtt_message : (ℕ → MosqErr) → Client → Bool × Client
unfolding send_tries
send_mqtt_message answers c = send_tries answers max_tries c
