-- ===== src/Tests/Startups.antt =====
-- The theorems on main, with the libraries as a log of calls.
use node_readiness_controlle.Prelude.{List, String, [], true, ◌↔◌, ◌∷◌, ◌≡◌}
use node_readiness_controlle.Platform.{Result, ok}
use node_readiness_controlle.Startup.Main.{Startup, default_flags, main, returned}
use node_readiness_controlle.Startup.Main.Laws.{IsStarted, logged, main-returned_iff}

-- The steps as a log of their names.
abbrev logs : String → List String → Result (Unit {0}) × List String
logs name w = (ok tt, name ∷ w)

abbrev machine : Startup (List String)
machine = record {
  add_client_go_types = logs "client-go";
  add_known_types = λ version types w. version.group ∷ w;
  add_to_group_version = λ version w. w;
  parse_flags = λ flags w. (record flags { enable_webhook = true }, w);
  log_version = λ text w. text ∷ w;
  new_manager = λ options. logs "manager";
  new_clientset = logs "clientset";
  complete_controller = λ spec. logs spec.controller_name;
  complete_webhook = λ kind. logs "webhook";
  add_healthz_check = logs;
  add_readyz_check = logs;
  start = logs "start";
}

-- The log of a run without a failure, the last step first.
abbrev all_logged : List String
all_logged =
    "start"
    ∷ "readyz"
    ∷ "healthz"
    ∷ "webhook"
    ∷ "node"
    ∷ "nodereadiness-controller"
    ∷ "clientset"
    ∷ "manager"
    ∷ logged machine "v1" "abc" []

main-returned_iff_example :
    (main machine "v1" "abc" [] ≡ (returned, all_logged))
    ↔ IsStarted machine "v1" "abc" [] (record default_flags { enable_webhook = true }) all_logged
main-returned_iff_example = main-returned_iff machine "v1" "abc" [] all_logged
