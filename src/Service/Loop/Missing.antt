-- ===== src/Service/Loop/Missing.antt =====
-- A round of the broker's thread where a setting for the messages is missing.
use demo_colombia.Base.{
  Option-cases, sym, ℕ, ◌≡◌, refl, ap, subst, ◌∙◌, Option, some, List, [], ◌∷◌, inl, inr,
}
use demo_colombia.Gst.{M, Env, History, Settings, throws, ◌>>◌}
use demo_colombia.Gst.Ensures.{Returns}
use demo_colombia.ObjInfo.{ObjInfo}
use demo_colombia.ObjInfo.View.{Shows}
use demo_colombia.Messages.{JsonObject}
use demo_colombia.Messages.Queued.{message_of, set_mqtt_message-view}
use demo_colombia.Broker.{MosqErr}
use demo_colombia.Service.{mqtt_broker}
use demo_colombia.Service.Main.{Service, publish_settings, serve_front, serve_queue}
use demo_colombia.Service.Loop.{IsServing, CanPublish}
use demo_colombia.Service.Loop.Serving.{serve_queue-some, serve_queue-IsServing}

module _ (widen : ℕ → ℕ) (answers : JsonObject → ℕ → MosqErr) (base : ℕ → Option (List ℕ))
    (count size : ℕ) (c : Settings) (k : ℕ) (all : List (ObjInfo (Option (List ℕ)))) (env : Env)
    (settings : Settings) where
  publish_settings-throws :
      (m : M Service) (h : History)
      → ¬ CanPublish settings
      → (publish_settings settings >> m) env h ≡ (throws, h)
  unfolding publish_settings
  publish_settings-throws m h unset = elim (Option-cases (settings.as_text (mqtt_broker "topic"))) [
    | inl e ↦ rw e refl
    | inr topic ↦ elim (Option-cases (settings.as_int (mqtt_broker "qos"))) [
      | inl e ↦ rw (topic.1, e) refl
      | inr qos ↦ elim (Option-cases (settings.as_bool (mqtt_broker "retained"))) [
        | inl e ↦ rw (topic.1, qos.1, e) refl
        | inr retained ↦ absurd (unset (topic, qos, retained))
      ]
    ]
  ]

  serve_objects-throws :
      (s : Service) (q : List (ObjInfo ℕ)) (rs : List (ObjInfo (Option (List ℕ)))) (h : History)
      → Shows s.probed.heap q rs
      → ¬ (rs ≡ [])
      → ¬ CanPublish settings
      → serve_queue widen answers settings (some q) s env h ≡ (throws, h)
  serve_objects-throws s q [] h shows waiting unset = absurd (waiting refl)
  serve_objects-throws s [] (r ∷ rs) h shows waiting unset = absurd shows
  serve_objects-throws s (x ∷ q) (r ∷ rs) h shows waiting unset =
      ap (λ m. m env h)
        (serve_queue-some widen answers settings s x q (message_of widen r)
          (set_mqtt_message-view widen x s.probed.heap r shows.0 shows.1))
      ∙ publish_settings-throws (serve_front widen answers x q (message_of widen r) s) h unset

  -- In a sound state with a report to send, a round of the broker's thread leaves a sound state if the
  -- settings for the messages are all there, and throws if one is missing.
  pub serve_queue-throws :
      (s : Service) (h : History) (v : IsServing widen base count size c k all s)
      → ¬ (v.pending ≡ [])
      → (CanPublish settings
          → Returns
              (λ s'. IsServing widen base count size c k all s' × (s'.running ≡ s.running))
              (serve_queue widen answers settings s.probed.obj_list s env h).0)
        × (¬ CanPublish settings
            → serve_queue widen answers settings s.probed.obj_list s env h ≡ (throws, h))
  serve_queue-throws s h v waiting = (
    λ there. serve_queue-IsServing widen answers base count size c k all env settings there s h v,
    λ unset.
        subst (λ o. serve_queue widen answers settings o s env h ≡ (throws, h)) (sym v.holds.there)
          (serve_objects-throws s v.holds.queue v.pending h v.holds.shows waiting unset),
  )
