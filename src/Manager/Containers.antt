-- ===== src/Manager/Containers.antt =====
-- The operations of app2/JailManager_.py on the rows of the containers: the manager's state, and
-- `start_jail`, `update_exit_code`, `exists`, `status_jail` and `list`; and `mark_all_exited` of
-- server.py.
pub mod Status
use Prim.Native.String.{String}
use dockermock.Prelude.{
  ℕ, ◌+◌, Bool, true, false, ◌&&◌, ◌||◌, not, Option, none, some, List, [], ◌∷◌, ◌++◌,
  if◌then◌else◌, ◌==◌, nat_eq, string_eq, is_some, Result, ok, raise, attribute_error, broken_pipe,
}
use dockermock.Prelude.Text.{Text, text_beq}
use dockermock.Prelude.Utf8.{Bytes, encode}
use dockermock.Network.Allocator.{SubnetAllocator}
use dockermock.Manager.Store.{Container, Tables, Store, commit, fetchone, fetchall, update_where}

-- The manager's end of the socket pair: not set, closed by the worker, or open with the bytes
-- sent on it so far (`send` takes a short text whole).
pub data Worker : Type 0 where
  unset closed : Worker
  connected : Bytes → Worker

pub record JailManager : Type 0 where
  pub store : Store
  pub subnetallocator : SubnetAllocator
  pub worker : Worker

abbrev pub set_worker : Worker → JailManager → JailManager
set_worker worker m = record {
  store = m.store;
  subnetallocator = m.subnetallocator;
  worker = worker;
}

abbrev pub with_store : Store → JailManager → JailManager
with_store store m = record {
  store = store;
  subnetallocator = m.subnetallocator;
  worker = m.worker;
}

abbrev pub with_containers : List Container → Tables → Tables
with_containers rows t = record {
  containers = rows;
  networks = t.networks;
  allocated_subnets = t.allocated_subnets;
  container_networks = t.container_networks;
  volumes = t.volumes;
  volume_containers = t.volume_containers;
  container_seq = t.container_seq;
  network_seq = t.network_seq;
  volume_seq = t.volume_seq;
}

-- Execute a statement on the containers.
abbrev pub on_containers : (List Container → List Container) → Store → Store
on_containers f s = record {
  current = with_containers (f s.current.containers) s.current;
  committed = s.committed;
}

abbrev pub set_status : String → Container → Container
set_status status c = record {
  id = c.id;
  name = c.name;
  image_id = c.image_id;
  status = status;
  config_json = c.config_json;
  gid = c.gid;
}

abbrev pub has_name : Text → Container → Bool
has_name name c = text_beq c.name name

abbrev pub has_id : ℕ → Container → Bool
has_id i c = c.id == i

abbrev pub has_status : String → Container → Bool
has_status status c = c.status == status

abbrev pub find_container : Text → JailManager → Option Container
find_container name m = fetchone (has_name name) m.store.current.containers

-- The exit code is not recorded.
unfoldable pub update_exit_code : Text → ℕ → JailManager → String × JailManager
update_exit_code name exit_code m =
    let s = commit (on_containers (update_where (has_name name) (set_status "exited")) m.store) in
    ("exited", with_store s m)

-- self.worker.send((name+'\n').encode())
abbrev pub send : Text → Worker → Result Worker
send line unset = raise attribute_error
send line closed = raise broken_pipe
send line (connected sent) = ok (connected (sent ++ encode line))

abbrev pub set_running : ℕ → Store → Store
set_running i s = commit (on_containers (update_where (has_id i) (set_status "running")) s)

-- After the guards of `start_jail`.
abbrev pub launch : Container → Result Worker → JailManager → Result String × JailManager
launch row (raise e) m = (raise e, m)
launch row (ok worker) m =
    (ok "running", with_store (set_running row.id m.store) (set_worker worker m))

abbrev pub is_active : Container → Bool
is_active row = row.status == "started" || row.status == "running"

unfoldable pub start_jail : Text → JailManager → Result String × JailManager
start_jail name m = elim (find_container name m) [
  | none ↦ (ok "NOJAIL", m)
  | some row ↦
      if is_active row
      then (ok row.status, m)
      else launch row (send (name ++ b'\n' ∷ []) m.worker) m
]

unfoldable pub exists : Text → JailManager → Bool
exists name m = is_some (find_container name m)

unfoldable pub status_jail : Text → JailManager → String
status_jail name m = elim (find_container name m) [ none ↦ "DOESNOTEXIST" | some row ↦ row.status ]

-- JailManager.list
unfoldable pub list_containers : Bool → JailManager → List Container
list_containers running m =
    if running
    then fetchall (has_status "running") m.store.current.containers
    else m.store.current.containers

-- mark_all_exited
unfoldable pub mark_all_exited : JailManager → JailManager
mark_all_exited m =
    with_store
      (commit (on_containers (update_where (has_status "running") (set_status "exited")) m.store)) m
