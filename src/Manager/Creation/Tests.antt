-- ===== src/Manager/Creation/Tests.antt =====
-- Runs of `create_container` on a small database, and its theorems there.
use mathlib.Core.List.{Memᴰ}
use dockermock.Prelude.{
  ◌≡◌, refl, true, false, Bool, none, some, [], ◌∷◌, ok, arith, raise, name_error,
}
use dockermock.Prelude.Text.{codes, text_beq}
use dockermock.System.Effect.{◌>>=◌, pure}
use dockermock.System.Datasets.{Driver, zfs, get_dataset, clone_dataset}
use dockermock.Ip.{ip_network, hosts, next, range}
use dockermock.Manager.Store.{Tables, Store, fetchone, fetchall, insert_unique}
use dockermock.Manager.Networks.{link, get_free_ip_for_network, allocate_ip, is_used, first_free}
use dockermock.Manager.Networks.Distinct.{
  IsAddressed, IsAddressedIn, IsNumbered, IsDistinct, HasDistinctAddresses,
}
use dockermock.Manager.Volumes.{link_container_volumes}
use dockermock.Manager.Options.{
  CreateRequest, ImageJson, create_container_json, handle_container_mounts, create_anamous_volumes,
  create_path,
}
use dockermock.Manager.Options.Anonymous.{create_container_json-anonymous}
use dockermock.Manager.Checks.{
  validate_container_options, split_image, link_networks, create_dataset, free_rows, insert_links,
}
use dockermock.Manager.Creation.{
  Surroundings, created_container, failed_to_create, reads, execute, insert_container,
  add_container, committed_as, rolled_back, create_container,
}
use dockermock.Manager.Creation.Outcome.{Outcome, create_container-Outcome}
use dockermock.Manager.Creation.Addressed.{create_container-IsAddressed}

-- The network `a`, 10.0.0.0/24, with one container.
abbrev tables : Tables
tables = record {
  containers = [];
  networks =
      record { id = 1; name = codes "a"; driver = "bridge"; subnet = 167772160; prefix = 24 } ∷ [];
  allocated_subnets = [];
  container_networks = link 1 1 (some 167772162) ∷ [];
  volumes = [];
  volume_containers = [];
  container_seq = 1;
  network_seq = 1;
  volume_seq = 0;
}

abbrev store : Store
store = record { current = tables; committed = tables }

abbrev image_json : ImageJson
image_json = record {
  command = some (codes "sh" ∷ []);
  entrypoint = none;
  path = some (codes "/bin" ∷ codes "/usr/bin" ∷ []);
  env = none;
  user = none;
  working_dir = none;
  volumes = some [];
}

-- A storage with a dataset for each image, where a clone is made or not.
abbrev storage : Bool → Driver
storage clones = zfs (record {
  get = λ name. some (record { name = name; snapshots = codes "base" ∷ []; mountpoint = none });
  clone = λ snapshot target. ok tt;
  get_cloned = λ target. elim clones [
    | true ↦ some (record { name = target; snapshots = []; mountpoint = none })
    | false ↦ none
  ];
  set_mountpoint = λ target mountpoint. ok tt;
  umount = λ name. ok tt;
  delete = λ name. ok tt;
})

abbrev surroundings : Bool → Surroundings
surroundings clones = record {
  images =
      record {
        id = 5;
        name = codes "base";
        tag = codes "14";
        json_data = image_json;
        gid = codes "0a";
      }
      ∷ [];
  uuid4 = λ m. codes "1b4e28ba";
  is_uuid = λ s. text_beq s (codes "1b4e28ba");
  gid = codes "0b";
  dumps = λ config. codes "{}";
  makedirs = λ name. ok tt;
  driver = storage clones;
}

abbrev web : CreateRequest
web = record {
  name = codes "web";
  image = some (codes "base:14");
  networks = codes "a" ∷ [];
  mounts = some [];
  env = [];
  command = [];
  entrypoint = [];
  ports = codes "[]";
  user = none;
  working_dir = none;
  restart = none;
  rm = false;
}

-- The next address of `a` is 10.0.0.3.
create_runs :
    ((create_container (surroundings true) web store).0 ≡ ok (created_container 2))
    × ((create_container (surroundings true) web store).1.committed.container_networks
        ≡ link 1 1 (some 167772162) ∷ link 1 2 (some 167772163) ∷ [])
    × ((create_container (surroundings false) web store).0 ≡ ok failed_to_create)
unfolding create_container reads execute ◌>>=◌ pure insert_container add_container committed_as
    rolled_back validate_container_options split_image link_networks create_dataset free_rows
    insert_links link_container_volumes create_container_json handle_container_mounts
    create_anamous_volumes get_free_ip_for_network allocate_ip ip_network hosts next range is_used
    first_free fetchone fetchall insert_unique get_dataset clone_dataset
create_runs = (refl, refl, refl)

path_run :
    create_path (codes "/bin" ∷ codes "/sbin" ∷ []) (codes "/opt:$PATH") ≡ codes "/opt:/bin:/sbin"
unfolding create_path
path_run = refl

create_container-Outcome_example :
    Outcome web store (create_container (surroundings false) web store)
create_container-Outcome_example = create_container-Outcome (surroundings false) web store

store-IsAddressed : IsAddressed store
unfolding IsAddressed IsAddressedIn HasDistinctAddresses IsNumbered IsDistinct
store-IsAddressed = omega arith

create_container-IsAddressed_example :
    IsAddressed (create_container (surroundings true) web store).1
create_container-IsAddressed_example =
    create_container-IsAddressed (surroundings true) web store store-IsAddressed

-- An image that declares the volume /data.
abbrev data_json : ImageJson
data_json = record {
  command = none;
  entrypoint = none;
  path = none;
  env = none;
  user = none;
  working_dir = none;
  volumes = some ((codes "/data", false) ∷ []);
}

create_container_json-anonymous_example :
    create_container_json (surroundings true).uuid4 (surroundings true).is_uuid data_json web none
    ≡ raise name_error
create_container_json-anonymous_example =
    create_container_json-anonymous (surroundings true).uuid4 (surroundings true).is_uuid data_json
      web none ((codes "/data", false) ∷ []) [] (codes "/data") false refl refl (Memᴰ.head refl)
      refl tt
