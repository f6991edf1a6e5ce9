-- ===== src/Startup/Main/Laws.antt =====
-- About main: the steps that are taken before a failure, and those before the manager runs.
use node_readiness_controlle.Prelude.{
  String, Bool, true, false, subst, if◌then◌else◌, List, [], ◌∷◌, ◌++◌, ◌≡◌, ◌↔◌, ◌⊎◌, inl, inr,
  refl, ap, ◌∙◌, sym,
}
use node_readiness_controlle.Platform.{Error, Result, ok, err}
use node_readiness_controlle.Startup.Registration.{rule_controller, node_controller}
use node_readiness_controlle.Startup.Info.{get_version_string}
use node_readiness_controlle.Startup.Main.{
  Flags, manager_options, Startup, default_flags, returned, exit_1, run_steps, main_steps, main,
}

step_result : (r : Result (Unit {0})) → (r ≡ ok tt) ⊎ ((e : Error) × (r ≡ err e))
step_result (ok u) = inl refl
step_result (err e) = inr (e, refl)

module _ {W : Type 0} where
  -- Every step of the list succeeds, each on the world that the ones before it left, and the last
  -- world is what all of them leave.
  abbrev pub AllSucceed : W → List (W → Result (Unit {0}) × W) → W → Type 0
  AllSucceed w [] v = w ≡ v
  AllSucceed w (f ∷ rest) v = ((f w).0 ≡ ok tt) × AllSucceed (f w).1 rest v

  -- A step that succeeds, with the world that it leaves.
  module _ (f : W → Result (Unit {0}) × W) (rest : List (W → Result (Unit {0}) × W)) where
    taken :
        (w v : W)
        → AllSucceed w (f ∷ rest) v
        → (w' : W) × (f w ≡ (ok tt, w')) × AllSucceed w' rest v
    taken w v h = ((f w).1, ap (λ r. (r, (f w).1)) h.0, h.1)

    take : (w w' v : W) → f w ≡ (ok tt, w') → AllSucceed w' rest v → AllSucceed w (f ∷ rest) v
    take w w' v e h = (ap (λ o. o.0) e, subst (λ x. AllSucceed x rest v) (sym (ap (λ o. o.1) e)) h)

  after_step :
      (f : W → Result (Unit {0}) × W) (rest : List (W → Result (Unit {0}) × W)) (w : W)
      → (f w).0 ≡ ok tt
      → run_steps (f ∷ rest) w ≡ run_steps rest (f w).1
  unfolding run_steps
  after_step f rest w e = rw e refl

  pub run_steps_all :
      (steps : List (W → Result (Unit {0}) × W)) (w v : W)
      → AllSucceed w steps v
      → run_steps steps w ≡ (returned, v)
  unfolding run_steps
  run_steps_all [] w v e = ap (λ x. (returned, x)) e
  run_steps_all (f ∷ rest) w v h = after_step f rest w h.0 ∙ run_steps_all rest (f w).1 v h.1

  failed_step :
      (f : W → Result (Unit {0}) × W) (rest : List (W → Result (Unit {0}) × W)) (w v : W)
      (e : Error)
      → f w ≡ (err e, v)
      → run_steps (f ∷ rest) w ≡ (exit_1, v)
  unfolding run_steps
  failed_step f rest w v e q = rw (ap (λ o. o.0) q) (ap (λ o. (exit_1, o.1)) q)

  pub run_steps_stop :
      (before : List (W → Result (Unit {0}) × W)) (f : W → Result (Unit {0}) × W)
      (rest : List (W → Result (Unit {0}) × W)) (w u v : W) (e : Error)
      → AllSucceed w before u
      → f u ≡ (err e, v)
      → run_steps (before ++ f ∷ rest) w ≡ (exit_1, v)
  run_steps_stop [] f rest w u v e h q = failed_step f rest w v e (ap f h ∙ q)
  run_steps_stop (g ∷ before) f rest w u v e h q =
      after_step g (before ++ f ∷ rest) w h.0 ∙ run_steps_stop before f rest (g w).1 u v e h.1 q

  pub run_steps-returned :
      (steps : List (W → Result (Unit {0}) × W)) (w v : W)
      → run_steps steps w ≡ (returned, v)
      → AllSucceed w steps v
  unfolding run_steps
  run_steps-returned [] w v h = ap (λ o. o.1) h
  run_steps-returned (f ∷ rest) w v h = elim (step_result (f w).0) [
    | inl fine ↦ (fine, run_steps-returned rest (f w).1 v (sym (after_step f rest w fine) ∙ h))
    | inr (e, failed) ↦ absurd (
        cc (
          ap (λ o. o.0) (failed_step f rest w (f w).1 e (ap (λ r. (r, (f w).1)) failed)),
          ap (λ o. o.0) h,
        ))
  ]

  module _ (s : Startup W) (version git_commit : String) (w : W) where
    -- The world in which the steps of main begin.
    abbrev pub logged : W
    logged =
        s.log_version (get_version_string version git_commit []) (s.parse_flags default_flags w).1

    -- The end of the start: the webhook where it is asked for, the checks and the manager's run.
    abbrev pub IsRun : Bool → W → W → Type 0
    IsRun enable_webhook w4 v =
        (w5 : W) × (if enable_webhook
          then s.complete_webhook "NodeReadinessRule" w4 ≡ (ok tt, w5)
          else w4 ≡ w5)
        × (w6 : W) × (s.add_healthz_check "healthz" w5 ≡ (ok tt, w6))
        × (w7 : W) × (s.add_readyz_check "readyz" w6 ≡ (ok tt, w7))
        × (s.start w7 ≡ (ok tt, v))

    -- What has to succeed, from the flags that were parsed, each on the world before it.
    abbrev pub IsStarted : Flags → W → Type 0
    IsStarted flags v =
        (w1 : W) × (s.new_manager
            (record {
              metrics_address = flags.metrics_bind_address;
              probe_address = flags.health_probe_bind_address;
              leader_election = flags.leader_elect;
              leader_election_id = "ba65f13e.readiness.node.x-k8s.io";
            })
            logged
          ≡ (ok tt, w1))
        × (w2 : W) × (s.new_clientset w1 ≡ (ok tt, w2))
        × (w3 : W) × (s.complete_controller rule_controller w2 ≡ (ok tt, w3))
        × (w4 : W) × (s.complete_controller node_controller w3 ≡ (ok tt, w4))
        × IsRun flags.enable_webhook w4 v

    -- The steps from one on.
    abbrev ready_steps : List (W → Result (Unit {0}) × W)
    ready_steps = s.add_readyz_check "readyz" ∷ s.start ∷ []

    abbrev last_steps : List (W → Result (Unit {0}) × W)
    last_steps = s.add_healthz_check "healthz" ∷ ready_steps

    abbrev webhook_steps : Bool → List (W → Result (Unit {0}) × W)
    webhook_steps b = (if b then s.complete_webhook "NodeReadinessRule" ∷ [] else []) ++ last_steps

    abbrev node_steps : Bool → List (W → Result (Unit {0}) × W)
    node_steps b = s.complete_controller node_controller ∷ webhook_steps b

    abbrev rule_steps : Bool → List (W → Result (Unit {0}) × W)
    rule_steps b = s.complete_controller rule_controller ∷ node_steps b

    ends_to :
        (w5 v : W)
        → AllSucceed w5 last_steps v
        → (w6 : W) × (s.add_healthz_check "healthz" w5 ≡ (ok tt, w6))
          × (w7 : W) × (s.add_readyz_check "readyz" w6 ≡ (ok tt, w7))
          × (s.start w7 ≡ (ok tt, v))
    ends_to w5 v h =
        let (w6, first, h6) = taken (s.add_healthz_check "healthz") ready_steps w5 v h in
        let (w7, second, h7) = taken (s.add_readyz_check "readyz") (s.start ∷ []) w6 v h6 in
        let (w8, third, h8) = taken s.start [] w7 v h7 in
        (w6, first, w7, second, third ∙ ap (λ x. (ok tt, x)) h8)

    ends_from :
        (w5 w6 w7 v : W)
        → s.add_healthz_check "healthz" w5 ≡ (ok tt, w6)
        → s.add_readyz_check "readyz" w6 ≡ (ok tt, w7)
        → s.start w7 ≡ (ok tt, v)
        → AllSucceed w5 last_steps v
    ends_from w5 w6 w7 v first second third =
        take (s.add_healthz_check "healthz") ready_steps w5 w6 v first (
          take (s.add_readyz_check "readyz") (s.start ∷ []) w6 w7 v second
            (take s.start [] w7 v v third refl))

    IsRun-iff : (b : Bool) (w4 v : W) → AllSucceed w4 (webhook_steps b) v ↔ IsRun b w4 v
    IsRun-iff true w4 v = (
      λ h.
          let (w5, hook, rest) = taken (s.complete_webhook "NodeReadinessRule") last_steps w4 v h in
          let (w6, first, w7, second, third) = ends_to w5 v rest in
          (w5, hook, w6, first, w7, second, third),
      λ (w5, hook, w6, first, w7, second, third).
          take (s.complete_webhook "NodeReadinessRule") last_steps w4 w5 v hook
            (ends_from w5 w6 w7 v first second third),
    )
    IsRun-iff false w4 v = (
      λ h.
          let (w6, first, w7, second, third) = ends_to w4 v h in
          (w4, refl, w6, first, w7, second, third),
      λ (w5, same, w6, first, w7, second, third).
          subst (λ x. AllSucceed x last_steps v) (sym same)
            (ends_from w5 w6 w7 v first second third),
    )

    steps_iff :
        (flags : Flags) (v : W) → AllSucceed logged (main_steps s flags) v ↔ IsStarted flags v
    unfolding main_steps
    steps_iff flags v = (
      λ h.
          let (w1, manager, h1) =
            taken (s.new_manager (manager_options flags))
              (s.new_clientset ∷ rule_steps flags.enable_webhook) logged v h in
          let (w2, clientset, h2) =
            taken s.new_clientset (rule_steps flags.enable_webhook) w1 v h1 in
          let (w3, rules, h3) =
            taken (s.complete_controller rule_controller) (node_steps flags.enable_webhook) w2 v
              h2 in
          let (w4, nodes, h4) =
            taken (s.complete_controller node_controller) (webhook_steps flags.enable_webhook) w3 v
              h3 in
          (
            w1,
            manager,
            w2,
            clientset,
            w3,
            rules,
            w4,
            nodes,
            (IsRun-iff flags.enable_webhook w4 v).0 h4,
          ),
      λ (w1, manager, w2, clientset, w3, rules, w4, nodes, run).
          take (s.new_manager (manager_options flags))
            (s.new_clientset ∷ rule_steps flags.enable_webhook) logged w1 v manager
            (take s.new_clientset (rule_steps flags.enable_webhook) w1 w2 v clientset (
              take (s.complete_controller rule_controller) (node_steps flags.enable_webhook) w2 w3 v
                rules
                (take (s.complete_controller node_controller) (webhook_steps flags.enable_webhook)
                  w3 w4 v nodes ((IsRun-iff flags.enable_webhook w4 v).1 run)))),
    )

    -- The process ends main by returning exactly when these calls succeed in this order, each on
    -- the world that the one before it left: the manager with the options of the parsed flags,
    -- the clientset, the rule controller, the node controller, the webhook for NodeReadinessRule
    -- where the flag asks for it, the check healthz, the check readyz, and the run of the
    -- manager.
    pub main-returned_iff :
        (v : W)
        → (main s version git_commit w ≡ (returned, v))
          ↔ IsStarted (s.parse_flags default_flags w).0 v
    unfolding main
    main-returned_iff v =
        let (to, from) = steps_iff (s.parse_flags default_flags w).0 v in
        (λ h. to (run_steps-returned _ logged v h), λ h. run_steps_all _ logged v (from h))

    -- If the steps before one succeed and that one fails, the process exits with 1 on the world
    -- that this step left: no later step is taken.
    main_stops :
        (before : List (W → Result (Unit {0}) × W)) (f : W → Result (Unit {0}) × W)
        (rest : List (W → Result (Unit {0}) × W)) (u v : W) (e : Error)
        → main_steps s (s.parse_flags default_flags w).0 ≡ before ++ f ∷ rest
        → AllSucceed logged before u
        → f u ≡ (err e, v)
        → main s version git_commit w ≡ (exit_1, v)
    unfolding main
    main_stops before f rest u v e split h q =
        ap (λ steps. run_steps steps logged) split ∙ run_steps_stop before f rest logged u v e h q
