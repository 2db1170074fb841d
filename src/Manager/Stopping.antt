-- ===== src/Manager/Stopping.antt =====
-- `stop_jail` of app2/JailManager_.py: the process of the jail is killed by the pid that its file holds,
-- the jail is waited for, and the rules of its ports are removed. The manager's tables are read only.
pub mod Waiting
mod Tests
use Prim.Native.String.{String}
use dockermock.Prelude.{
  ℕ, zero, suc, Bool, true, false, not, ◌&&◌, Option, none, some, List, [], ◌∷◌, ◌++◌,
  if◌then◌else◌, ◌==◌, nat_eq, string_eq, os_error, Exc, Result, ok, raise,
}
use dockermock.Prelude.Text.{Text, codes}
use dockermock.System.Effect.{M, ◌>>=◌, ◌>>◌, pure, throw, when}
use dockermock.System.Kernel.{Kernel, SysCall, Answer, Sys, invoke}
use dockermock.System.Links.{jail_get_id, remove_jail_from_name}
use dockermock.System.Pf.{Pf, Library}
use dockermock.Manager.Store.{Container, Network, ContainerNetwork, Tables, fetchone, fetchall}
use dockermock.Manager.Containers.{JailManager, find_container, is_active}
use dockermock.Manager.Networks.{network_with_id}
use dockermock.Manager.Ports.{PortMap, remove_ports}

-- The system and the packet filter.
pub record Host : Type 0 where
  pub sys : Sys
  pub pf : Pf

unfoldable pub on_sys : {A : Type 0} → M Sys A → M Host A
on_sys m h = let (r, s) = m h.sys in (r, record { sys = s; pf = h.pf })

unfoldable pub on_pf : {A : Type 0} → M Pf A → M Host A
on_pf m h = let (r, p) = m h.pf in (r, record { sys = h.sys; pf = p })

-- os.path.join(CONTAINER_MOUNT_ROOT, gid, "jail.pid")
abbrev pub pid_path : Text → Text
pid_path gid = codes "/jails/containers/" ++ (gid ++ codes "/jail.pid")

abbrev pub of_container : ℕ → ContainerNetwork → Bool
of_container cid cn = cn.container_id == cid

-- SELECT n.name FROM networks n JOIN container_networks cn ...
pub joined_names : List ContainerNetwork → List Network → List Text
joined_names [] networks = []
joined_names (cn ∷ rows) networks = elim (fetchone (network_with_id cn.network_id) networks) [
  | none ↦ joined_names rows networks
  | some n ↦ n.name ∷ joined_names rows networks
]

unfoldable pub network_names_of : ℕ → Tables → List Text
unfolding joined_names fetchall
network_names_of cid t = joined_names (fetchall (of_container cid) t.container_networks) t.networks

module _ (kernel : Kernel) where
  -- A call that raises an OSError where it fails.
  abbrev checked : Answer → M Sys Answer
  checked r = if r.res == 0 then pure r else throw (os_error r.errno)

  unfoldable pub call_or_raise : SysCall → M Sys Answer
  call_or_raise c = invoke kernel c >>= checked

  -- Code with a `finally`: `cleanup` is run however it ends.
  abbrev pub then_finally : {A : Type 0} → Result A × Sys → M Sys (Unit {0}) → Result A × Sys
  then_finally (r, s) cleanup = (r, (cleanup s).1)

  unfoldable pub finally : {A : Type 0} → M Sys A → M Sys (Unit {0}) → M Sys A
  finally m cleanup s = then_finally (m s) cleanup

  -- The pid where the first line of the file is a number.
  abbrev pub kill_or_remove : Text → Answer → M Sys (Unit {0})
  kill_or_remove name line =
      if line.res == 0
      then (call_or_raise (SysCall.kill_process line.value) >> pure tt)
      else (call_or_raise (SysCall.run_jail_r name) >> pure tt)

  -- `open` raises where there is no file, also after the jail was removed for want of one.
  unfoldable pub kill_jail : Text → Text → M Sys (Unit {0})
  kill_jail name path = do
    found ← invoke kernel (SysCall.path_exists path)
    when (not (found.res == 1)) (call_or_raise (SysCall.run_jail_r name) >> pure tt)
    opened ← call_or_raise (SysCall.open_file path)
    finally (do line ← invoke kernel (SysCall.read_line path); kill_or_remove name line)
        (invoke kernel (SysCall.truncate path) >> pure tt)

  -- A round of the loop that waits: `later` is the rest of it.
  abbrev pub after_id : Option ℕ → M Sys Bool → M Sys Bool
  after_id none later = pure true
  after_id (some jid) later = invoke kernel SysCall.sleep_second >> later

  -- The loop, with the rounds that are left; whether the jail is gone.
  unfoldable pub wait_removed : ℕ → Text → M Sys Bool
  wait_removed zero name = pure false
  wait_removed (suc rounds) name =
      let later : M Sys Bool = wait_removed rounds name in
      jail_get_id kernel name >>= λ jid. after_id jid later

  -- No JailDoesNotExist is ever raised; the code that is returned is dropped.
  abbrev pub remove_unless : Text → Bool → M Sys (Unit {0})
  remove_unless name removed = when (not removed) (remove_jail_from_name kernel name >> pure tt)

  module _ (library : Library) (dev : Result ℕ) (ports_of : Text → Result (List PortMap)) where
    -- json.loads(res[2]).get('ports', [])
    abbrev ports_read : Text → M Host (List PortMap)
    ports_read config h = (ports_of config, h)

    unfoldable pub stop_active : Text → Container → Tables → M Host String
    stop_active name row t = do
      on_sys (kill_jail name (pid_path row.gid))
      removed ← on_sys (wait_removed 10 name)
      on_sys (remove_unless name removed)
      ports ← ports_read row.config_json
      on_pf (remove_ports library dev ports (network_names_of row.id t))
      pure "exited"

    abbrev pub stop_found : Text → Option Container → Tables → M Host String
    stop_found name none t = pure "DOESNOTEXIST"
    stop_found name (some row) t =
        if not (is_active row) then pure row.status else stop_active name row t

    unfoldable pub stop_jail : Text → JailManager → M Host String
    stop_jail name m = stop_found name (find_container name m) m.store.current
