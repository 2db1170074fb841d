-- ===== src/Manager/Volumes.antt =====
-- The volumes of app2/JailManager_.py: `create_volume`, `get_volumes` and `link_container_volumes`; and
-- the lists of networks and the removal of a container. Making a directory and asking the kernel
-- for a jail are outcomes that the caller gives.
pub mod Linking
pub mod Mounted
mod Tests
use Prim.Native.String.{String}
use dockermock.Prelude.{
  ℕ, suc, Bool, true, false, ◌&&◌, not, Option, none, some, List, [], ◌∷◌, ◌++◌, if◌then◌else◌,
  ◌==◌, nat_eq, string_eq, is_some, Result, ok, raise, unbound_local_error, type_error,
}
use dockermock.Prelude.Text.{Text, text_beq, codes}
use dockermock.Manager.Store.{
  Container, Network, Volume, VolumeContainer, Tables, Store, commit, rollback, fetchone, fetchall,
  insert_unique,
}
use dockermock.Manager.Containers.{JailManager, with_store, find_container}
use dockermock.Manager.Networks.{with_current}

abbrev pub volume_named : Text → Volume → Bool
volume_named name v = text_beq v.name name

-- UNIQUE(name)
abbrev pub same_volume_name : Volume → Volume → Bool
same_volume_name a b = text_beq b.name a.name

-- UNIQUE(volume_id, container_id)
abbrev pub same_volume_link : VolumeContainer → VolumeContainer → Bool
same_volume_link a b = a.volume_id == b.volume_id && a.container_id == b.container_id

abbrev pub with_volumes : List Volume → ℕ → Tables → Tables
with_volumes rows seq t = record {
  containers = t.containers;
  networks = t.networks;
  allocated_subnets = t.allocated_subnets;
  container_networks = t.container_networks;
  volumes = rows;
  volume_containers = t.volume_containers;
  container_seq = t.container_seq;
  network_seq = t.network_seq;
  volume_seq = seq;
}

abbrev pub with_volume_links : List VolumeContainer → Tables → Tables
with_volume_links rows t = record {
  containers = t.containers;
  networks = t.networks;
  allocated_subnets = t.allocated_subnets;
  container_networks = t.container_networks;
  volumes = t.volumes;
  volume_containers = rows;
  container_seq = t.container_seq;
  network_seq = t.network_seq;
  volume_seq = t.volume_seq;
}

abbrev pub new_volume : Text → String → Text → Tables → Volume
new_volume name driver path t = record {
  id = suc t.volume_seq;
  name = name;
  driver = driver;
  path = path;
}

-- os.path.join(VOLUME_MOUNT_ROOT, name), for a name that does not begin with a slash
abbrev pub volume_path : Text → Text
volume_path name = codes "/jails/volumes/" ++ name

-- What follows the INSERT of `create_volume`. An error of `makedirs` leaves the row in the open
-- transaction.
abbrev pub made : Result (Unit {0}) → Text → ℕ → JailManager → Option (ℕ × Text) × JailManager
made (raise e) name i m = (none, m)
made (ok t) name i m = (some (i, name), with_store (commit m.store) m)

abbrev pub add_volume_row :
    Result (List Volume) → Result (Unit {0}) → Text → JailManager → Option (ℕ × Text) × JailManager
add_volume_row (raise e) makedirs name m = (none, m)
add_volume_row (ok rows) makedirs name m =
    let i = suc m.store.current.volume_seq in
    made makedirs name i (with_store (with_current (with_volumes rows i m.store.current) m.store) m)

-- None stands for every answer with an error message.
unfoldable pub create_volume :
    Result (Unit {0}) → Text → JailManager → Option (ℕ × Text) × JailManager
create_volume makedirs name m =
    if is_some (fetchone (volume_named name) m.store.current.volumes)
    then (none, m)
    else add_volume_row
        (insert_unique same_volume_name
          (new_volume name "nullfs" (volume_path name) m.store.current) m.store.current.volumes)
        makedirs name m

abbrev pub get_volumes : JailManager → List Volume
get_volumes m = m.store.current.volumes

abbrev pub get_networks : JailManager → List Network
get_networks m = m.store.current.networks

pub record Mount : Type 0 where
  pub type : String
  pub source : Text
  pub target : Text
  pub readonly : Bool

-- INSERT OR IGNORE INTO volumes
abbrev pub insert_or_ignore : Result (List Volume) → Tables → Tables
insert_or_ignore (raise e) t = t
insert_or_ignore (ok rows) t = with_volumes rows (suc t.volume_seq) t

-- The statements of one round of `link_container_volumes`, after the INSERT OR IGNORE: an
-- IntegrityError is not caught.
abbrev pub volume_linked : Result (List VolumeContainer) → Tables → Result Tables × Tables
volume_linked (raise e) t = (raise e, t)
volume_linked (ok rows) t = (ok (with_volume_links rows t), with_volume_links rows t)

abbrev pub link_row : Option Volume → ℕ → Tables → Result Tables × Tables
link_row none cid t = (raise type_error, t)
link_row (some v) cid t =
    volume_linked
      (insert_unique same_volume_link (record { volume_id = v.id; container_id = cid })
        t.volume_containers)
      t

-- An OSError of `makedirs` is not caught; `later` are the statements after it.
abbrev pub after_makedirs :
    Result (Unit {0}) → Tables → Result Tables × Tables → Result Tables × Tables
after_makedirs (raise e) t later = (raise e, t)
after_makedirs (ok made) t later = later

-- `makedirs` is what making the directory of the volume with this name answers.
unfoldable pub link_volume : (Text → Result (Unit {0})) → Text → ℕ → Tables → Result Tables × Tables
link_volume makedirs source cid t =
    let t' =
      insert_or_ignore
        (insert_unique same_volume_name (new_volume source "local" source t) t.volumes) t in
    after_makedirs (makedirs source) t (link_row (fetchone (volume_named source) t'.volumes) cid t')

-- What follows a round: `later` is the rest of the loop after it.
abbrev pub after_link :
    Result Tables → Tables → Result (Unit {0}) × Tables → Result (Unit {0}) × Tables
after_link (raise e) t later = (raise e, t)
after_link (ok linked) t later = later

-- The tables as the connection sees them, and whether the loop has ended.
unfoldable pub link_container_volumes :
    (Text → Result (Unit {0})) → List Mount → ℕ → Tables → Result (Unit {0}) × Tables
link_container_volumes makedirs [] cid t = (ok tt, t)
link_container_volumes makedirs (mount ∷ mounts) cid t =
    let rest : Result (Unit {0}) × Tables = link_container_volumes makedirs mounts cid t in
    let (linked, t') = link_volume makedirs mount.source cid t in
    let later : Result (Unit {0}) × Tables = link_container_volumes makedirs mounts cid t' in
    if not (mount.type == "volume") then rest else after_link linked t' later

-- The guards of `remove_container`; what follows reads `res` before it is assigned.
unfoldable pub remove_container : Bool → Text → JailManager → Result (Option String)
remove_container has_jail name m = elim (find_container name m) [
  | none ↦ ok (some "not found")
  | some cont ↦
      if cont.status == "running" && has_jail
      then ok (some "Container is running. Stop and retry")
      else raise unbound_local_error
]
