-- ===== src/System/Datasets.antt =====
-- app2/zfs/dataset.py and app2/ufs/dataset.py: the datasets of images and containers. libzfs, pathlib
-- and shutil are parameters: what they answer. What is printed is left out.
use Prim.Native.String.{String}
use dockermock.Prelude.{
  Bool, true, false, not, Option, none, some, List, [], ◌∷◌, if◌then◌else◌, type_error,
  attribute_error, Result, ok, raise, ◌>>◌,
}
use dockermock.Prelude.Text.{Text, text_beq}

pub record Dataset : Type 0 where
  pub name : Text
  pub snapshots : List Text
  pub mountpoint : Option Text

-- libzfs: the dataset of a name, none for a ZFSException, before a clone and after it.
pub record Libzfs : Type 0 where
  pub get : Text → Option Dataset
  pub clone : Text → Text → Result (Unit {0})
  pub get_cloned : Text → Option Dataset
  pub set_mountpoint : Text → Text → Result (Unit {0})
  pub umount : Text → Result (Unit {0})
  pub delete : Text → Result (Unit {0})

-- pathlib, os and shutil
pub record Files : Type 0 where
  pub exists : Text → Bool
  pub is_mount : Text → Bool
  pub mkdir : Text → Result (Unit {0})
  pub chown : Text → Result (Unit {0})
  pub unmount : Text → Result (Unit {0})
  pub rmtree : Text → Result (Unit {0})

-- config["storage"]["driver"]
pub data Driver : Type 0 where
  zfs : Libzfs → Driver
  ufs : Files → Driver

-- The loop of `get_dataset_snapshot`.
pub get_dataset_snapshot : Text → List Text → Option Text
get_dataset_snapshot snapshot_name [] = none
get_dataset_snapshot snapshot_name (snapshot ∷ snapshots) =
    if text_beq snapshot snapshot_name
    then some snapshot
    else get_dataset_snapshot snapshot_name snapshots

-- try: ...; return 0, except Exception: return -1
abbrev pub succeeded : Result (Unit {0}) → Bool
succeeded (raise e) = false
succeeded (ok t) = true

-- `ds.update_properties` of the clone: an attribute of None where it is not found.
abbrev pub mount_clone : Libzfs → Text → Text → Option Dataset → Result (Unit {0})
mount_clone lib target mountpoint none = raise attribute_error
mount_clone lib target mountpoint (some ds) = lib.set_mountpoint target mountpoint

-- zfs: whether it returns 0.
abbrev pub clone_snapshot : Libzfs → Option Text → Text → Text → Bool
clone_snapshot lib none target mountpoint = false
clone_snapshot lib (some snapshot) target mountpoint =
    succeeded
      (lib.clone snapshot target >> mount_clone lib target mountpoint (lib.get_cloned target))

-- zfs: the dataset; ufs: `Path.exists` takes no path.
unfoldable pub get_dataset : Driver → Text → Result (Option Dataset)
get_dataset (zfs lib) dataset_name = ok (lib.get dataset_name)
get_dataset (ufs files) dataset_name = raise type_error

-- Whether `clone_dataset` returns 0, or None, and so has not failed.
unfoldable pub clone_dataset : Driver → Dataset → Text → Text → Text → Result Bool
unfolding get_dataset_snapshot
clone_dataset (zfs lib) dataset snapshot_name target mountpoint =
    ok (clone_snapshot lib (get_dataset_snapshot snapshot_name dataset.snapshots) target mountpoint)
clone_dataset (ufs files) dataset snapshot_name target mountpoint =
    files.mkdir mountpoint >> files.chown mountpoint >> ok true

abbrev pub deleted : Result (Unit {0}) → Option String
deleted (raise e) = some "Failed to destroy dataset"
deleted (ok t) = none

-- `if ds.mountpoint: ds.umount(force=True)`
abbrev pub umount_if : Libzfs → Text → Option Text → Result (Unit {0})
umount_if lib ds_path none = ok tt
umount_if lib ds_path (some []) = ok tt
umount_if lib ds_path (some (c ∷ mountpoint)) = lib.umount ds_path

abbrev pub delete_found : Libzfs → Text → Option Dataset → Result (Option String)
delete_found lib ds_path none = ok (some "Dataset doesn't exist")
delete_found lib ds_path (some ds) =
    umount_if lib ds_path ds.mountpoint >> ok (deleted (lib.delete ds_path))

-- The error, if there is one.
unfoldable pub delete_dataset : Driver → Text → Result (Option String)
delete_dataset (zfs lib) ds_path = delete_found lib ds_path (lib.get ds_path)
delete_dataset (ufs files) ds_path =
    if not (files.exists ds_path)
    then ok (some "Dataset doesn't exist")
    else ((if files.is_mount ds_path then files.unmount ds_path else ok tt)
        >> ok (deleted (files.rmtree ds_path)))
