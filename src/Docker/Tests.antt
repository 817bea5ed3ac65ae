-- ===== src/Docker/Tests.antt =====
-- Calls of the Docker client to an engine that makes containers and does not start them.
use agentic_paasd.Prelude.{none, some, [], ◌∷◌, codes, All, if◌then◌else◌, ◌==◌}
use agentic_paasd.Runtime.{got, failure}
use agentic_paasd.Docker.{Engine, Sdk}
use agentic_paasd.Docker.Launch.{container_config, container_host, container_name, run_container}
use agentic_paasd.Docker.Client.{Op, perform_all}
use agentic_paasd.Docker.Confined.{Confined, perform_all-Confined}
use agentic_paasd.Docker.Started.{Settled, run_container_settles}

abbrev idle_engine : Engine
idle_engine = record {
  act = λ n c. some (codes "no space left");
  text = λ n c. got (codes "c1");
  networks = λ n. got [];
  containers = λ n. got [];
  inspects = λ n id. failure (codes "No such container");
  names = λ n c. got [];
}

run_container_settles_example :
    let made =
      Sdk.container_create
        (container_config
          (codes "t")
          (codes "s")
          (codes "nginx")
          (if 80 == 0 then 8000 else 80)
          []
          [])
        (container_host (codes "t") none)
        (container_name (codes "t") (codes "s")) in
    let (r, log') =
      run_container idle_engine (codes "t") (codes "s") (codes "nginx") 80 [] [] none [] in
    Settled (idle_engine.text 0 made) r made [] log'
run_container_settles_example =
    run_container_settles idle_engine (codes "t") (codes "s") (codes "nginx") 80 [] [] none []

perform_all-Confined_example : All Confined (
    perform_all idle_engine
      (Op.op_ensure_network (codes "ah-tenant-t")
        ∷ Op.op_run (codes "t") (codes "s") (codes "nginx") 80 [] [] none
        ∷ [])
      [])
perform_all-Confined_example =
    perform_all-Confined idle_engine
      (Op.op_ensure_network (codes "ah-tenant-t")
        ∷ Op.op_run (codes "t") (codes "s") (codes "nginx") 80 [] [] none
        ∷ [])
      [] tt
