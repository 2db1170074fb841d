-- ===== src/System/Mounts.antt =====
-- app2/helpers.py: mounting devfs and tmpfs in a jail's root, and unmounting them, on a file system
-- of directories and mount points. What `mkdir`, `nmount` and `unmount` answer is a parameter.
pub mod Rounds
use dockermock.Prelude.{
  ℕ, Bool, true, false, ◌&&◌, not, Option, none, some, List, [], ◌∷◌, ◌++◌, if◌then◌else◌, Result,
  ok, raise, name_error,
}
use dockermock.Prelude.Text.{Text, codes, text_beq}
use dockermock.Worker.Jails.Config.{path_join}

pub record Fs : Type 0 where
  pub dirs : List Text
  pub mounts : List Text

-- The codes that the helpers return, negated: CENOERR, CERROR, ...
abbrev pub cenoerr : ℕ
cenoerr = 0

abbrev pub cerror : ℕ
cerror = 1

abbrev pub cenojail : ℕ
cenojail = 1

abbrev pub cenopath : ℕ
cenopath = 3

abbrev pub cemntpot : ℕ
cemntpot = 6

abbrev pub cemntdev : ℕ
cemntdev = 7

abbrev pub ceumnterr : ℕ
ceumnterr = 8

unfoldable pub is_in : Text → List Text → Bool
is_in path [] = false
is_in path (p ∷ paths) = if text_beq p path then true else is_in path paths

-- The last mount on a path goes.
unfoldable pub without : Text → List Text → List Text
without path [] = []
without path (p ∷ paths) = if text_beq p path then paths else p ∷ without path paths

-- What `os.mkdir` has answered; an OSError is not caught.
abbrev pub dir_made : Result (Unit {0}) → Text → Fs → Result (Unit {0}) × Fs
dir_made (raise e) path fs = (raise e, fs)
dir_made (ok made) path fs = (ok tt, record { dirs = path ∷ fs.dirs; mounts = fs.mounts })

-- if not os.path.exists(dev_path): os.mkdir(dev_path)
abbrev pub with_dir : (Text → Result (Unit {0})) → Text → Fs → Result (Unit {0}) × Fs
with_dir mkdir path fs = if is_in path fs.dirs then (ok tt, fs) else dir_made (mkdir path) path fs

abbrev pub with_mount : Text → Fs → Fs
with_mount path fs = record { dirs = fs.dirs; mounts = path ∷ fs.mounts }

-- From the directory on: `mounted` is that `nmount` returns 0.
unfoldable pub mount_at : Bool → Text → Fs → ℕ × Fs
mount_at mounted dev_path fs =
    if is_in dev_path fs.mounts
    then (cemntpot, fs)
    else if mounted
    then (cenoerr, with_mount dev_path fs)
    else (cemntdev, fs)

abbrev pub mount_in : Bool → Text → Result (Unit {0}) × Fs → Result ℕ × Fs
mount_in mounted dev_path (raise e, fs) = (raise e, fs)
mount_in mounted dev_path (ok made, fs) =
    let (code, fs') = mount_at mounted dev_path fs in (ok code, fs')

-- `mount_jail_defvs` with "dev", `mount_jail_tmpfs` with "tmp". CINVALD is not defined.
unfoldable pub mount_jail : (Text → Result (Unit {0})) → Bool → Text → Text → Fs → Result ℕ × Fs
mount_jail mkdir mounted dir [] fs = (raise name_error, fs)
mount_jail mkdir mounted dir (c ∷ path) fs =
    let dev_path = path_join (c ∷ path) dir in
    if is_in (c ∷ path) fs.dirs
    then mount_in mounted dev_path (with_dir mkdir dev_path fs)
    else (ok cenopath, fs)

abbrev pub mount_jail_defvs : (Text → Result (Unit {0})) → Bool → Text → Fs → Result ℕ × Fs
mount_jail_defvs mkdir mounted path fs = mount_jail mkdir mounted (codes "dev") path fs

abbrev pub mount_jail_tmpfs : (Text → Result (Unit {0})) → Bool → Text → Fs → Result ℕ × Fs
mount_jail_tmpfs mkdir mounted path fs = mount_jail mkdir mounted (codes "tmp") path fs

-- `unmount_jail_mounts`: an OSError is caught. The kernel refuses a path that is no mount point.
unfoldable pub unmount_jail_mounts : Bool → Text → Fs → ℕ × Fs
unmount_jail_mounts unmounted path fs =
    if unmounted && is_in path fs.mounts
    then (cenoerr, record { dirs = fs.dirs; mounts = without path fs.mounts })
    else (ceumnterr, fs)

abbrev pub unmount_jail_defvs : Bool → Text → Fs → ℕ × Fs
unmount_jail_defvs unmounted path fs =
    unmount_jail_mounts unmounted (path_join path (codes "dev")) fs

abbrev pub unmount_jail_tmpfs : Bool → Text → Fs → ℕ × Fs
unmount_jail_tmpfs unmounted path fs =
    unmount_jail_mounts unmounted (path_join path (codes "tmp")) fs
