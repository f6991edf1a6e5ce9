-- ===== src/Startup/Main.antt =====
-- cmd/main.go: the flags, and the steps of init and main up to the start of the manager.
pub mod Laws
use node_readiness_controlle.Prelude.{String, Bool, true, false, List, [], ◌∷◌, ◌++◌, if◌then◌else◌}
use node_readiness_controlle.Platform.{Result, ok, err}
use node_readiness_controlle.Startup.Info.{get_version_string}
use node_readiness_controlle.Startup.Registration.{
  GroupVersion, group_version, object_types, ControllerSpec, rule_controller, node_controller,
  webhook_object_kind,
}

pub record Flags : Type 0 where
  pub metrics_bind_address : String
  pub health_probe_bind_address : String
  pub leader_elect : Bool
  pub enable_webhook : Bool

-- The values that the flags are declared with.
abbrev pub default_flags : Flags
default_flags = record {
  metrics_bind_address = "0";
  health_probe_bind_address = ":8081";
  leader_elect = false;
  enable_webhook = false;
}

pub record ManagerOptions : Type 0 where
  pub metrics_address : String
  pub probe_address : String
  pub leader_election : Bool
  pub leader_election_id : String

abbrev pub manager_options : Flags → ManagerOptions
manager_options flags = record {
  metrics_address = flags.metrics_bind_address;
  probe_address = flags.health_probe_bind_address;
  leader_election = flags.leader_elect;
  leader_election_id = "ba65f13e.readiness.node.x-k8s.io";
}

-- The libraries that main calls, over the state `W` of the process and the world.
pub record Startup (W : Type 0) : Type 0 where
  -- `clientgoscheme.AddToScheme`, `scheme.AddKnownTypes` and `metav1.AddToGroupVersion`
  pub add_client_go_types : W → Result (Unit {0}) × W
  pub add_known_types : GroupVersion → List String → W → W
  pub add_to_group_version : GroupVersion → W → W
  -- `flag.Parse` over the declared values, and the log
  pub parse_flags : Flags → W → Flags × W
  pub log_version : String → W → W
  -- `ctrl.NewManager` on `ctrl.GetConfigOrDie`, `kubernetes.NewForConfig` and `Complete` of the
  -- builders
  pub new_manager : ManagerOptions → W → Result (Unit {0}) × W
  pub new_clientset : W → Result (Unit {0}) × W
  pub complete_controller : ControllerSpec → W → Result (Unit {0}) × W
  pub complete_webhook : String → W → Result (Unit {0}) × W
  -- `mgr.AddHealthzCheck`, `mgr.AddReadyzCheck` and `mgr.Start`
  pub add_healthz_check : String → W → Result (Unit {0}) × W
  pub add_readyz_check : String → W → Result (Unit {0}) × W
  pub start : W → Result (Unit {0}) × W

-- How the process ends: main returns, a step fails and it exits with 1, or `init` panics.
pub data Outcome : Type 0 where
  returned : Outcome
  exit_1 : Outcome
  panicked : Outcome

module _ {W : Type 0} where
  -- `if err := f(); err != nil { os.Exit(1) }` for each step in turn.
  unfoldable pub run_steps : List (W → Result (Unit {0}) × W) → W → Outcome × W
  run_steps [] w = (returned, w)
  run_steps (f ∷ rest) w = elim (f w).0 [
    | ok u ↦ run_steps rest (f w).1
    | err e ↦ (exit_1, (f w).1)
  ]

  module _ (s : Startup W) where
    -- `addKnownTypes`
    unfoldable pub add_known_types : W → Result (Unit {0}) × W
    add_known_types w = (
      ok tt,
      s.add_to_group_version group_version (s.add_known_types group_version object_types w),
    )

    -- What main does behind the flags, in its order.
    unfoldable pub main_steps : Flags → List (W → Result (Unit {0}) × W)
    main_steps flags =
        s.new_manager (manager_options flags)
          ∷ s.new_clientset
          ∷ s.complete_controller rule_controller
          ∷ s.complete_controller node_controller
          ∷ (if flags.enable_webhook then s.complete_webhook webhook_object_kind ∷ [] else [])
        ++ (s.add_healthz_check "healthz" ∷ s.add_readyz_check "readyz" ∷ s.start ∷ [])

    -- `main`, with the version variables of the build.
    unfoldable pub main : String → String → W → Outcome × W
    main version git_commit w =
        let (flags, parsed) = s.parse_flags default_flags w in
        run_steps (main_steps flags)
          (s.log_version (get_version_string version git_commit []) parsed)

    -- `init` and then main: `utilruntime.Must` panics on an error.
    unfoldable pub run_process : String → String → W → Outcome × W
    run_process version git_commit w =
        elim (run_steps (s.add_client_go_types ∷ add_known_types ∷ []) w).0 [
          | returned ↦
              main version git_commit (run_steps (s.add_client_go_types ∷ add_known_types ∷ []) w).1
          | exit_1 ↦ (panicked, (run_steps (s.add_client_go_types ∷ add_known_types ∷ []) w).1)
          | panicked ↦ (panicked, (run_steps (s.add_client_go_types ∷ add_known_types ∷ []) w).1)
        ]
