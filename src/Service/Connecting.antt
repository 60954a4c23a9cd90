-- ===== src/Service/Connecting.antt =====
-- The steps of the start of the program that prepare the directories and connect the services, followed
-- through their exceptions.
use demo_colombia.Base.{zero, suc, ℕ, Bool, false, [], ◌∷◌, length, arith, if◌then◌else◌}
use demo_colombia.Text.{Bytes, codes}
use demo_colombia.Gst.{
  start_checker_thread, timeout_add, start_broker_thread, remove_all, M, Ptr, Env, Settings, pure,
  ◌>>=◌, ◌>>◌, or_throw, tell, attempt, create_directories, redis_new,
}
use demo_colombia.Gst.Safety.{IsSafe, >>=-IsSafe, or_throw-IsSafe, if-IsSafe, try_or-IsSafe}
use demo_colombia.Frames.{prepare_output_directory, create_from, source_dir}
use demo_colombia.Pipeline.{Pipeline}
use demo_colombia.Elements.Construct.{run}
use demo_colombia.Elements.Building.{run-IsSafe}
use demo_colombia.Probe.{AppCtx}
use demo_colombia.Service.{
  prepare_saving, connect_redis, redis_options, connect_broker, watch_bus, install_probe,
  start_service,
}

module _ (env : Env) where
  create_from-IsSafe : (dir : Bytes) (rounds i : ℕ) → IsSafe env (create_from dir rounds i)
  unfolding create_from
  create_from-IsSafe dir zero i = λ h. tt
  create_from-IsSafe dir (suc rounds) i =
      >>=-IsSafe env (attempt (create_directories (source_dir dir i)))
        (λ _. create_from dir rounds (suc i)) (λ h. ground arith)
        (λ _. create_from-IsSafe dir rounds (suc i))

  prepare_output_directory-IsSafe :
      (dir : Bytes) (n : ℕ) → IsSafe env (prepare_output_directory dir n)
  unfolding prepare_output_directory
  prepare_output_directory-IsSafe dir n =
      try_or-IsSafe env (attempt (remove_all dir) >> create_from dir n 0) false (
        >>=-IsSafe env (attempt (remove_all dir)) (λ _. create_from dir n 0) (λ h. ground arith)
          (λ _. create_from-IsSafe dir n 0))

  pub prepare_saving-IsSafe : (ctx : AppCtx) → IsSafe env (prepare_saving ctx)
  unfolding prepare_saving
  prepare_saving-IsSafe ctx =
      if-IsSafe env ctx.save_frames (dir >>= made) (pure ctx)
        (>>=-IsSafe env dir made (or_throw-IsSafe env _) (λ d.
          >>=-IsSafe env (prepare_output_directory d (length ctx.sources)) result
            (prepare_output_directory-IsSafe d (length ctx.sources)) (λ prepared h. tt)))
        (λ h. tt)
    where
      dir : M Bytes
      dir = or_throw (ctx.settings.as_text (codes "output-directory" ∷ []))

      result : Bool → M AppCtx
      result prepared = pure (if prepared then ctx else record ctx { save_frames = false })

      made : Bytes → M AppCtx
      made d = prepare_output_directory d (length ctx.sources) >>= result

  redis_options-IsSafe : (c : Settings) → IsSafe env (redis_options c)
  unfolding redis_options
  redis_options-IsSafe c h = ground arith

  pub connect_redis-IsSafe : (c : Settings) → IsSafe env (connect_redis c)
  unfolding connect_redis
  connect_redis-IsSafe c =
      let ttl = or_throw (c.as_int (codes "redis" ∷ codes "ttl_sec" ∷ [])) in
      >>=-IsSafe env (redis_options c) (λ options. attempt (redis_new options) >> ttl)
        (redis_options-IsSafe c)
        (λ options.
          >>=-IsSafe env (attempt (redis_new options)) (λ _. ttl) (λ h. ground arith)
            (λ _. or_throw-IsSafe env (c.as_int (codes "redis" ∷ codes "ttl_sec" ∷ []))))

  pub connect_broker-IsSafe : (c : Settings) → IsSafe env (connect_broker c)
  unfolding connect_broker
  connect_broker-IsSafe c h = ground arith

  install_probe-IsSafe : (p : Pipeline) → IsSafe env (install_probe p)
  unfolding install_probe
  install_probe-IsSafe p h = ground arith

  pub start_service-IsSafe : (p : Pipeline) (loop : Ptr) → IsSafe env (start_service p loop)
  unfolding start_service watch_bus
  start_service-IsSafe p loop h =
      >>=-IsSafe env (install_probe p) rest (install_probe-IsSafe p) (λ _ h'. run-IsSafe env p _) _
    where
      rest : Unit {0} → M (Unit {0})
      rest _ =
          tell start_broker_thread
          >> (tell (timeout_add 1000) >> (tell start_checker_thread >> run p))
