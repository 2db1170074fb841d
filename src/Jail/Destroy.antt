-- ===== src/Jail/Destroy.antt =====
-- app2/Jail_.py: the removal of a jail, `destroy_jail`, and the functions that it calls.
use Prim.Native.String.{String}
use dockermock.Prelude.{
  ℕ, Bool, true, false, not, ◌&&◌, Option, none, some, [], ◌∷◌, ◌++◌, if◌then◌else◌, ◌==◌, nat_eq,
  string_eq, ok,
}
use dockermock.Prelude.Text.{Text, codes}
use dockermock.System.Mounts.{Fs, unmount_jail_defvs, unmount_jail_tmpfs, unmount_jail_mounts}
use dockermock.System.Effect.{M, ◌>>=◌, ◌>>◌, pure, when, catch_all, for_each}
use dockermock.System.Kernel.{Kernel, SysCall, Target, by_name, by_id, Sys}
use dockermock.System.Limits.{rctl_remove_rule}
use dockermock.System.Links.{deattach_vnet_ifaces, destroy_if, remove_jail_from_name}
use dockermock.Jail.{JailConfig, J, lift, get, put, lacks_jid, logged, must, set_devfs, mount_dest}

-- str(self.jid or self.name): a jail that lacks its id goes by its name.
abbrev pub target_of : Text → Option (Option ℕ) → Target
target_of name none = by_name name
target_of name (some none) = by_id none
target_of name (some (some jid)) = if jid == 0 then by_name name else by_id (some jid)

abbrev pub is_empty : Text → Bool
is_empty [] = true
is_empty (c ∷ s) = false

abbrev pub clear_epair : J (Unit {0})
clear_epair = do
  self ← get
  put (record { jid = self.jid; epair = []; devfs_mounted = self.devfs_mounted })

module _ (kernel : Kernel) where
  unfoldable pub unmount_fs : (Bool → Text → Fs → ℕ × Fs) → Text → M Sys ℕ
  unmount_fs unmount path s =
      let r = kernel s.log (SysCall.unmount path) in
      let (code, fs') = unmount (r.res == 0) path s.fs in
      (ok code, record { sockets = s.sockets; log = s.log; fs = fs' })

  unfoldable pub unmount_tmpfs : JailConfig → J (Unit {0})
  unmount_tmpfs c = lift (logged (unmount_fs unmount_jail_tmpfs c.root))

  unfoldable pub unmount_devfs : JailConfig → J (Unit {0})
  unmount_devfs c = do
    self ← get
    when self.devfs_mounted
        (lift (logged (unmount_fs unmount_jail_defvs c.root)) >> set_devfs false)

  abbrev pub unmount_one : JailConfig → String → J (Unit {0})
  unmount_one c fs =
      if fs == "devfs" then unmount_devfs c else if fs == "tmpfs" then unmount_tmpfs c else pure tt

  unfoldable pub handle_fs_umounts : JailConfig → J (Unit {0})
  handle_fs_umounts c = for_each (unmount_one c) c.fs_mounts

  unfoldable pub deattach_epair : JailConfig → J (Unit {0})
  deattach_epair c = do
    self ← get
    lift (for_each (λ epair. logged (deattach_vnet_ifaces kernel c.name epair)) self.epair)

  unfoldable pub destroy_epair : J (Unit {0})
  destroy_epair = do
    self ← get
    lift (for_each (λ epair. logged (destroy_if kernel epair)) self.epair)
    clear_epair

  -- subprocess.run raises where jexec cannot be run; its exit code is not looked at.
  unfoldable pub stop_jail : JailConfig → J (Unit {0})
  stop_jail c = do
    self ← get
    when (not (lacks_jid self.jid && is_empty c.name)) (
        lift (
          must kernel (SysCall.jexec (target_of c.name self.jid))
          >> logged (remove_jail_from_name kernel c.name)))

  unfoldable pub handle_unmount : JailConfig → M Sys (Unit {0})
  handle_unmount c =
      for_each (λ m. logged (unmount_fs unmount_jail_mounts (mount_dest c.root m))) c.mounts

  -- An exception of rctl_remove_rule is caught.
  unfoldable pub remove_rules : JailConfig → M Sys (Unit {0})
  remove_rules c =
      catch_all (rctl_remove_rule kernel (codes "jail:" ++ c.name) >> pure tt) (pure tt)

  -- The body of the `try` of `destroy_jail`.
  unfoldable pub tear_down : JailConfig → J (Unit {0})
  tear_down c = do
    deattach_epair c
    stop_jail c
    destroy_epair
    handle_fs_umounts c
    lift (handle_unmount c)
    lift (remove_rules c)

  unfoldable pub destroy_jail : JailConfig → J (Unit {0})
  destroy_jail c = catch_all (tear_down c) (pure tt)
