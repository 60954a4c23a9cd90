-- ===== src/Service/Loop/Steps.antt =====
-- The main loop, one event at a time.
use demo_colombia.Base.{if◌then◌else◌, ℕ, ◌≡◌, refl, sym, ap, subst, true, false, List, [], ◌∷◌}
use demo_colombia.Gst.{M, ◌>>=◌, Ptr, Env, History, pure}
use demo_colombia.Gst.Ensures.{Returns, >>=-Returns}
use demo_colombia.Messages.{JsonObject}
use demo_colombia.Broker.{MosqErr}
use demo_colombia.Probe.{AppCtx}
use demo_colombia.Service.Main.{Event, Service, handle, main_loop}

module _ (widen : ℕ → ℕ) (answers : JsonObject → ℕ → MosqErr) (ctx : AppCtx) (loop : Ptr)
    (env : Env) where
  abbrev pub loop_from : List Event → Service → M Service
  loop_from = main_loop widen answers ctx loop

  main_loop_step :
      (e : Event) (es : List Event) (s : Service)
      → s.running ≡ true
      → loop_from (e ∷ es) s ≡ (handle widen answers ctx loop e s >>= loop_from es)
  unfolding main_loop
  main_loop_step e es s on =
      ap (λ b. if b then handle widen answers ctx loop e s >>= loop_from es else pure s) on

  pub main_loop_nil : (s : Service) → loop_from [] s ≡ pure s
  unfolding main_loop
  main_loop_nil s = refl

  pub main_loop_ended :
      (es : List Event) (s : Service) → s.running ≡ false → loop_from es s ≡ pure s
  unfolding main_loop
  main_loop_ended [] s off = refl
  main_loop_ended (e ∷ es) s off =
      ap (λ b. if b then handle widen answers ctx loop e s >>= loop_from es else pure s) off

  pub main_loop-event :
      (P Q : Service → Type 0) (e : Event) (es : List Event) (s : Service) (h : History)
      → s.running ≡ true
      → Returns P (handle widen answers ctx loop e s env h).0
      → ((s' : Service) (h' : History) → P s' → Returns Q (loop_from es s' env h').0)
      → Returns Q (loop_from (e ∷ es) s env h).0
  main_loop-event P Q e es s h on r k =
      subst (λ m. Returns Q (m env h).0) (sym (main_loop_step e es s on))
        (>>=-Returns P Q (loop_from es) env (handle widen answers ctx loop e s) h r k)
