-- ===== src/Manager/Volumes/Tests.antt =====
-- Linking the volumes of a container, and its theorem there.
use mathlib.Core.List.{Memᴰ}
use dockermock.Prelude.{
  ◌≡◌, refl, false, List, [], ◌∷◌, ok, raise, os_error, integrity_error, Result, nat_eq, string_eq,
}
use dockermock.Prelude.Text.{codes, Text}
use dockermock.Manager.Store.{Tables, fetchone, insert_unique}
use dockermock.Manager.Volumes.{Mount, link_container_volumes, link_volume}
use dockermock.Manager.Volumes.Mounted.{IsLinked, link_container_volumes-IsLinked}

abbrev makes : Text → Result (Unit {0})
makes name = ok tt

abbrev refuses : Text → Result (Unit {0})
refuses name = raise (os_error 28)

abbrev data_mount : Mount
data_mount = record {
  type = "volume";
  source = codes "data";
  target = codes "/data";
  readonly = false;
}

abbrev bind_mount : Mount
bind_mount = record {
  type = "bind";
  source = codes "/home";
  target = codes "/home";
  readonly = false;
}

abbrev mounts : List Mount
mounts = bind_mount ∷ data_mount ∷ []

abbrev no_rows : Tables
no_rows = record {
  containers = [];
  networks = [];
  allocated_subnets = [];
  container_networks = [];
  volumes = [];
  volume_containers = [];
  container_seq = 0;
  network_seq = 0;
  volume_seq = 0;
}

-- A volume that is mounted twice is linked once, and the second link is refused.
link_runs :
    ((link_container_volumes makes mounts 4 no_rows).0 ≡ ok tt)
    × ((link_container_volumes makes mounts 4 no_rows).1.volume_containers
        ≡ record { volume_id = 1; container_id = 4 } ∷ [])
    × ((link_container_volumes makes (data_mount ∷ mounts) 4 no_rows).0 ≡ raise integrity_error)
    × (link_container_volumes refuses mounts 4 no_rows ≡ (raise (os_error 28), no_rows))
unfolding link_container_volumes link_volume fetchone insert_unique
link_runs = (refl, refl, refl, refl)

link_container_volumes-IsLinked_example :
    IsLinked (codes "data") 4 (link_container_volumes makes mounts 4 no_rows).1
link_container_volumes-IsLinked_example =
    link_container_volumes-IsLinked makes mounts data_mount 4 no_rows link_runs.0
      (Memᴰ.tail (Memᴰ.head refl)) refl
