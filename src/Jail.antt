-- ===== src/Jail.antt =====
-- app2/Jail_.py: one jail, from the creation of its interfaces and mounts to their removal. The
-- kernel's answers are a parameter, and so is what `os.path.realpath` makes of a path.
pub mod Destroy
pub mod Tracking
pub mod Creation
pub mod Endings
pub mod Removal
pub mod Lifetime
pub mod Child
mod Tests
use Prim.Native.String.{String}
use dockermock.Prelude.{
  ℕ, Bool, true, false, not, ◌||◌, Option, none, some, List, [], ◌∷◌, ◌++◌, if◌then◌else◌, ◌==◌,
  nat_eq, string_eq, drop, Exc, exception, os_error, Result, ok, raise,
}
use dockermock.Prelude.Text.{Text, codes}
use dockermock.Prelude.Utf8.{Bytes}
use dockermock.Worker.Calls.{Net}
use dockermock.Worker.Jails.Config.{JailParams, path_join}
use dockermock.System.Rctl.{Limit, Rule, convert_to_rctl_rules}
use dockermock.System.Mounts.{
  Fs, cenoerr, cerror, mount_jail_defvs, mount_jail_tmpfs, unmount_jail_defvs, unmount_jail_tmpfs,
  unmount_jail_mounts,
}
use dockermock.System.Effect.{
  M, ◌>>=◌, ◌>>◌, pure, throw, raise_when, when, catch_os, catch_all, for_each,
}
use dockermock.System.Kernel.{Log, Kernel, SysCall, Answer, Sys, invoke}
use dockermock.System.Links.{
  start_jail_from_json, create_epair, attach_vnet_ifaces, deattach_vnet_ifaces, destroy_if,
  remove_jail_from_name, mount_host_to_jail,
}
use dockermock.System.Limits.{rctl_add_rule}
use dockermock.System.Interfaces.{bridge_if}

pub record UserMount : Type 0 where
  pub type : String
  pub source : Text
  pub target : Text
  pub readonly : Bool

-- What the jail is made of: the two dicts of JSON, in the fields that are read.
pub record JailConfig : Type 0 where
  pub name : Text
  pub params : JailParams
  pub root : Text
  pub networks : List Net
  pub fs_mounts : List String
  pub mounts : List UserMount
  pub limits : Option (List Limit)

-- The fields that change: `jid` is None before the jail is created, and some none where the id is
-- below 0.
pub record JailFields : Type 0 where
  pub jid : Option (Option ℕ)
  pub epair : List Text
  pub devfs_mounted : Bool

pub record JailState : Type 0 where
  pub jail : JailFields
  pub sys : Sys

abbrev pub J : Type 0 → Type 0
J A = M JailState A

abbrev pub new_jail : JailFields
new_jail = record { jid = none; epair = []; devfs_mounted = false }

-- A function that does not touch the object.
unfoldable pub lift : {A : Type 0} → M Sys A → J A
lift m st = let (r, s) = m st.sys in (r, record { jail = st.jail; sys = s })

unfoldable pub get : J JailFields
get st = (ok st.jail, st)

unfoldable pub put : JailFields → J (Unit {0})
put jail st = (ok tt, record { jail = jail; sys = st.sys })

-- epair[:-1] + 'b'
abbrev pub base_of : Text → Text
base_of [] = []
base_of (c ∷ []) = []
base_of (c ∷ d ∷ s) = c ∷ base_of (d ∷ s)

abbrev pub host_side : Text → Text
host_side epair = base_of epair ++ b'b' ∷ []

-- os.path.join: an absolute path starts anew.
abbrev pub join : Text → Text → Text
join a [] = path_join a []
join a (c ∷ b) = if c == b'/' then c ∷ b else path_join a (c ∷ b)

-- os.path.join(jail_root, m['source'][1:])
abbrev pub mount_dest : Text → UserMount → Text
mount_dest jail_root m = join jail_root (drop 1 m.source)

-- A code that is not CENOERR is logged.
abbrev pub logged : M Sys ℕ → M Sys (Unit {0})
logged m = m >> pure tt

abbrev pub set_devfs : Bool → J (Unit {0})
set_devfs mounted = do
  self ← get
  put (record { jid = self.jid; epair = self.epair; devfs_mounted = mounted })

abbrev pub set_jid : Option ℕ → J (Unit {0})
set_jid jid = do
  self ← get
  put (record { jid = some jid; epair = self.epair; devfs_mounted = self.devfs_mounted })

-- `not self.jid`: None or 0.
abbrev pub lacks_jid : Option (Option ℕ) → Bool
lacks_jid none = true
lacks_jid (some none) = false
lacks_jid (some (some jid)) = jid == 0

unfoldable pub mount_target : (Text → Text) → UserMount → Text
mount_target realpath m =
    if m.type == "volume" then join (codes "/jails/volumes") m.target else realpath m.target

abbrev pub add_epair : Text → J (Unit {0})
add_epair epair = do
  self ← get
  put (record {
    jid = self.jid;
    epair = self.epair ++ epair ∷ [];
    devfs_mounted = self.devfs_mounted;
  })

module _ (kernel : Kernel) where
  -- What os.mkdir answers.
  abbrev pub made_dir : Log → Text → Result (Unit {0})
  made_dir log path =
      let r = kernel log (SysCall.mkdir path) in
      if r.res == 0 then ok tt else raise (os_error r.errno)

  -- The answer of nmount, or of unmount, is whether it returns 0.
  unfoldable pub mount_fs :
      String → ((Text → Result (Unit {0})) → Bool → Text → Fs → Result ℕ × Fs) → Text → M Sys ℕ
  mount_fs fstype mount path s =
      let r = kernel s.log (SysCall.nmount fstype path [] false) in
      let (code, fs') = mount (made_dir s.log) (r.res == 0) path s.fs in
      (code, record { sockets = s.sockets; log = s.log; fs = fs' })

  unfoldable pub mount_devfs : JailConfig → J (Unit {0})
  mount_devfs c = do
    self ← get
    when (not self.devfs_mounted)
        (lift (logged (mount_fs "devfs" mount_jail_defvs c.root)) >> set_devfs true)

  unfoldable pub mount_tmpfs : JailConfig → J (Unit {0})
  mount_tmpfs c = lift (logged (mount_fs "tmpfs" mount_jail_tmpfs c.root))

  abbrev pub mount_one : JailConfig → String → J (Unit {0})
  mount_one c fs =
      if fs == "devfs" then mount_devfs c else if fs == "tmpfs" then mount_tmpfs c else pure tt

  unfoldable pub handle_fs_mounts : JailConfig → J (Unit {0})
  handle_fs_mounts c = for_each (mount_one c) c.fs_mounts

  abbrev pub bridge_epair : Net → Text → M Sys ℕ
  bridge_epair network epair =
      catch_os (bridge_if kernel network.name (host_side epair) true false >> pure cenoerr)
        λ e. pure cerror

  abbrev pub epair_up : Net → Option Text → J ℕ
  epair_up network none = pure cerror
  epair_up network (some []) = pure cerror
  epair_up network (some (c ∷ epair)) =
      add_epair (c ∷ epair) >> lift (bridge_epair network (c ∷ epair))

  unfoldable pub create_epair_up : Net → J ℕ
  create_epair_up network = lift (create_epair kernel none false) >>= epair_up network

  -- One round of the loop over the networks.
  abbrev pub connect : Net → J (Unit {0})
  connect network =
      when (network.driver == "bridge")
        (create_epair_up network >>= λ res. raise_when (not (res == cenoerr)) exception)

  unfoldable pub attach_inteface_up : JailConfig → J (Unit {0})
  attach_inteface_up c = do
    self ← get
    when (not (lacks_jid self.jid))
        (lift (for_each (λ epair. logged (attach_vnet_ifaces kernel c.name epair)) self.epair))

  abbrev pub connect_all : JailConfig → List Net → J (Unit {0})
  connect_all c [] = pure tt
  connect_all c (network ∷ networks) =
      when (not (network.driver == "host")) (for_each connect (network ∷ networks))
      >> attach_inteface_up c

  -- A test on a path: the kernel's 1 is true.
  abbrev pub test_path : SysCall → M Sys Bool
  test_path call = do r ← invoke kernel call; pure (r.res == 1)

  -- A call that raises OSError where it fails.
  abbrev pub must : SysCall → M Sys (Unit {0})
  must call = do r ← invoke kernel call; raise_when (not (r.res == 0)) (os_error r.errno)

  -- The file or the directory that is mounted on.
  abbrev pub make_file : Text → Text → Bool → M Sys (Unit {0})
  make_file target dest true = must (SysCall.touch dest)
  make_file target dest false = must (SysCall.makedirs target) >> must (SysCall.makedirs dest)

  abbrev pub make_as : Text → Text → Bool → M Sys (Unit {0})
  make_as target dest true = must (SysCall.makedirs dest)
  make_as target dest false = test_path (SysCall.path_isfile target) >>= make_file target dest

  unfoldable pub prepare : Text → Text → M Sys (Unit {0})
  prepare target dest = do
    exists ← test_path (SysCall.path_exists dest)
    when (not exists) (test_path (SysCall.path_isdir target) >>= make_as target dest)

  unfoldable pub handle_mount : (Text → Text) → JailConfig → UserMount → M Sys (Unit {0})
  handle_mount realpath c m = do
    prepare (mount_target realpath m) (mount_dest c.root m)
    logged (mount_host_to_jail kernel (mount_dest c.root m) (mount_target realpath m) m.readonly)

  unfoldable pub handle_mounts : (Text → Text) → JailConfig → M Sys (Unit {0})
  handle_mounts realpath c = for_each (handle_mount realpath c) c.mounts

  -- An exception of rctl_add_rule is caught.
  abbrev pub add_rule : Rule → M Sys (Unit {0})
  add_rule rule = catch_all (rctl_add_rule kernel rule >> pure tt) (pure tt)

  abbrev pub apply_rules : JailConfig → Option (List Limit) → M Sys (Unit {0})
  apply_rules c none = pure tt
  apply_rules c (some limits) =
      for_each add_rule (convert_to_rctl_rules limits (codes "name:" ++ c.name))

  unfoldable pub apply_limits : JailConfig → M Sys (Unit {0})
  apply_limits c = apply_rules c c.limits

  unfoldable pub create_jail : (Text → Option Bytes) → (Text → Text) → JailConfig → J (Unit {0})
  create_jail inet_aton realpath c = do
    jid ← lift (start_jail_from_json kernel inet_aton c.params)
    set_jid jid
    connect_all c c.networks
    handle_fs_mounts c
    lift (handle_mounts realpath c)
    lift (apply_limits c)
