-- ===== src/Docker/Client.antt =====
-- The other methods of internal/docker/client.go, and all of them as operations.
use agentic_paasd.Prelude.{
  ℕ, Bool, true, false, ◌||◌, Option, none, some, List, [], ◌∷◌, ◌++◌, Text, codes, is_empty, same,
  any, find, keep, map, length, ltb, if◌then◌else◌,
}
use agentic_paasd.Runtime.{Answer, got, failure, ContainerInfo, Limits, DatabaseConfig}
use agentic_paasd.Databases.Rows.{decimal}
use agentic_paasd.Builds.Validate.{lower}
use agentic_paasd.Docker.{
  Engine, Sdk, Listed, Inspected, Do, ◌>>=◌, pure, fail, call, or_fail, check_none,
}
use agentic_paasd.Docker.Launch.{ensure_network, run_container, run_database}

abbrev text_or_empty : Option Text → Text
text_or_empty none = []
text_or_empty (some t) = t

unfoldable pub info_of : Inspected → ContainerInfo
info_of i = record {
  created_at = i.created;
  status = map lower i.status;
  exit_code = i.exit_code;
  health_status = text_or_empty i.health;
}

abbrev pub is_label : Text → Text × Text → Bool
is_label k (l, v) = same l k

abbrev pub matches : Option (Text × Text) → Text → Bool
matches none value = false
matches (some (l, v)) value = is_empty value || same v value

-- v, ok := ctr.Labels[label]; ok && (value == "" || v == value)
unfoldable pub has_label : Text → Text → Listed → Bool
has_label label value c = matches (find (is_label label) c.labels) value

abbrev pub id_of : Listed → Text
id_of c = c.id

module _ (e : Engine) where
  abbrev act : Sdk → Do (Option Text)
  act c = call c (λ i. e.act i c)

  unfoldable pub stop_container : Text → Do (Unit {0})
  stop_container id = do r ← act (Sdk.container_stop id 10); check_none [] r

  unfoldable pub start_container : Text → Do (Unit {0})
  start_container id = do r ← act (Sdk.container_start id); check_none [] r

  unfoldable pub remove_container : Text → Do (Unit {0})
  remove_container id = do r ← act (Sdk.container_remove id true); check_none [] r

  unfoldable pub connect_network : Text → Text → Do (Unit {0})
  connect_network net id = do r ← act (Sdk.network_connect net id); check_none [] r

  -- The reader stands for the logs; a tail of 0 or less is all of them.
  unfoldable pub logs_container : Text → Bool → ℕ → Do Text
  logs_container id follow tail = do
    let c = Sdk.container_logs id follow (if ltb 0 tail then decimal tail else codes "all")
    r ← call c (λ i. e.text i c)
    or_fail [] r

  unfoldable pub inspect_container : Text → Do ContainerInfo
  inspect_container id = do
    r ← call (Sdk.container_inspect id) (λ i. e.inspects i id)
    found ← or_fail (codes "inspect container: ") r
    pure (info_of found)

  -- What the reader of the pull says is thrown away.
  unfoldable pub pull_image : Text → Do (Unit {0})
  pull_image img = do
    r ← call (Sdk.image_pull img) (λ i. e.text i (Sdk.image_pull img))
    _ ← or_fail (codes "pull image " ++ (img ++ codes ": ")) r
    pure tt

  unfoldable pub list_containers_by_label : Text → Text → Do (List Text)
  list_containers_by_label label value = do
    r ← call (Sdk.container_list true) e.containers
    cs ← or_fail (codes "list containers: ") r
    pure (map id_of (keep (has_label label value) cs))

  abbrev labels_or_nil : Answer Inspected → List (Text × Text)
  labels_or_nil (got i) = i.labels
  labels_or_nil (failure m) = []

  unfoldable pub get_container_labels : Text → Do (List (Text × Text))
  get_container_labels id = do
    r ← call (Sdk.container_inspect id) (λ i. e.inspects i id)
    pure (labels_or_nil r)

  abbrev name_or_empty : Answer Inspected → Text
  name_or_empty (got i) = i.name
  name_or_empty (failure m) = []

  unfoldable pub get_container_name : Text → Do Text
  get_container_name id = do
    r ← call (Sdk.container_inspect id) (λ i. e.inspects i id)
    pure (name_or_empty r)

  unfoldable pub verify_gvisor_runtime : Do (Unit {0})
  verify_gvisor_runtime = do
    r ← call Sdk.info (λ i. e.names i Sdk.info)
    runtimes ← or_fail (codes "docker info: ") r
    (if any (same (codes "runsc")) runtimes
        then pure tt
        else fail (codes "gVisor runtime (runsc) not found in Docker daemon"))

  unfoldable pub create_volume : Text → Do (Unit {0})
  create_volume name = do
    r ← act (Sdk.volume_create name)
    check_none (codes "create volume " ++ (name ++ codes ": ")) r

  unfoldable pub remove_volume : Text → Do (Unit {0})
  remove_volume name = do r ← act (Sdk.volume_remove name true); check_none [] r

  unfoldable pub remove_volume_safe : Text → Do (Unit {0})
  remove_volume_safe name = do r ← act (Sdk.volume_remove name false); check_none [] r

  -- An error of the inspection, the container's absence too, is returned.
  unfoldable pub stop_and_remove_by_name : Text → Do (Unit {0})
  stop_and_remove_by_name name = do
    r ← call (Sdk.container_inspect name) (λ i. e.inspects i name)
    found ← or_fail [] r
    _ ← act (Sdk.container_stop found.id 10)
    removed ← act (Sdk.container_remove found.id true)
    check_none [] removed

  unfoldable pub prune_dangling_images : Do ℕ
  prune_dangling_images = do
    r ← call Sdk.images_prune (λ i. e.names i Sdk.images_prune)
    deleted ← or_fail (codes "prune images: ") r
    pure (length deleted)

  unfoldable pub list_volumes : Text → Do (List Text)
  list_volumes prefix = do
    r ← call (Sdk.volume_list prefix) (λ i. e.names i (Sdk.volume_list prefix))
    or_fail (codes "list volumes: ") r

-- The methods of the interface Client.
pub data Op : Type 0 where
  op_ensure_network op_stop op_start op_remove op_inspect op_pull op_labels op_name : Text → Op
  op_connect_network op_list_by_label : Text → Text → Op
  op_run : Text → Text → Text → ℕ → List (Text × Text) → List (Text × Text) → Option Limits → Op
  op_logs : Text → Bool → ℕ → Op
  op_verify op_prune : Op
  op_create_volume op_remove_volume op_remove_volume_safe op_stop_by_name op_volumes : Text → Op
  op_database : DatabaseConfig → Op

-- A method of the client, its value left out.
abbrev pub forget : {A : Type 0} → Do A → Do (Unit {0})
forget m = m >>= λ _. pure tt

unfoldable pub perform : Engine → Op → Do (Unit {0})
perform e (op_ensure_network n) = forget (ensure_network e n)
perform e (op_stop id) = forget (stop_container e id)
perform e (op_start id) = forget (start_container e id)
perform e (op_remove id) = forget (remove_container e id)
perform e (op_inspect id) = forget (inspect_container e id)
perform e (op_pull img) = forget (pull_image e img)
perform e (op_labels id) = forget (get_container_labels e id)
perform e (op_name id) = forget (get_container_name e id)
perform e (op_connect_network n id) = forget (connect_network e n id)
perform e (op_list_by_label l v) = forget (list_containers_by_label e l v)
perform e (op_run t s img p env extra lim) = forget (run_container e t s img p env extra lim)
perform e (op_logs id f n) = forget (logs_container e id f n)
perform e op_verify = forget (verify_gvisor_runtime e)
perform e op_prune = forget (prune_dangling_images e)
perform e (op_create_volume n) = forget (create_volume e n)
perform e (op_remove_volume n) = forget (remove_volume e n)
perform e (op_remove_volume_safe n) = forget (remove_volume_safe e n)
perform e (op_stop_by_name n) = forget (stop_and_remove_by_name e n)
perform e (op_volumes p) = forget (list_volumes e p)
perform e (op_database cfg) = forget (run_database e cfg)

unfoldable pub perform_all : Engine → List Op → List Sdk → List Sdk
perform_all e [] log = log
perform_all e (o ∷ os) log = perform_all e os (perform e o log).1
