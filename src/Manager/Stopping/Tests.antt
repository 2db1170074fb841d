-- ===== src/Manager/Stopping/Tests.antt =====
-- Stopping one container, and the theorems there.
use dockermock.Prelude.{
  ◌≡◌, ◌⊎◌, refl, ℕ, ◌<◌, ◌==◌, true, false, none, some, List, [], ◌∷◌, All, Result, ok, raise,
  os_error, nat_eq, string_eq,
}
use dockermock.Prelude.Text.{codes, Text}
use dockermock.Prelude.Utf8.{encode}
use dockermock.System.Effect.{◌>>=◌, pure, when, catch_all, for_each}
use dockermock.System.Kernel.{Kernel, SysCall, Answer, Sys, Log, invoke}
use dockermock.System.Links.{get_jail_id_by_name, remove_jail_from_name}
use dockermock.System.Pf.{Library, PfCall, with_device, without_fd}
use dockermock.Network.Allocator.{default_allocator}
use dockermock.Manager.Store.{Container, Tables, fetchone, fetchall}
use dockermock.Manager.Containers.{JailManager, unset, find_container}
use dockermock.Manager.Networks.{link}
use dockermock.Manager.Ports.{PortMap, remove_ports, remove_port_rules}
use dockermock.Manager.Stopping.{
  Host, stop_jail, stop_active, kill_jail, wait_removed, on_sys, on_pf, call_or_raise, finally,
  network_names_of,
}
use dockermock.Manager.Stopping.Waiting.{
  answers, after_rounds, asked, wait_removed-ends, stop_jail-no_file,
}

abbrev answer : ℕ → ℕ → Answer
answer res errno = record { res = res; errno = errno; name = []; value = 7; flags = (0, 0) }

-- The jail never goes, and there is no file.
abbrev res_of : SysCall → ℕ
res_of (SysCall.open_file path) = 1
res_of call = 0

abbrev no_file : Kernel
no_file log call = answer (res_of call) 2

-- The jail is gone at once; a path is there.
abbrev res_gone : SysCall → ℕ
res_gone (SysCall.jail_get name) = 1
res_gone (SysCall.path_exists path) = 1
res_gone call = 0

abbrev gone : Kernel
gone log call = answer (res_gone call) 2

abbrev working : Library
working call = (0, 0)

abbrev sys : Sys
sys = record { sockets = 0; log = []; fs = record { dirs = []; mounts = [] } }

abbrev host : Host
host = record { sys = sys; pf = record { opened = []; calls = [] } }

abbrev row : Container
row = record {
  id = 1;
  name = codes "web";
  image_id = 1;
  status = "running";
  config_json = codes "{}";
  gid = codes "0a";
}

abbrev tables : Tables
tables = record {
  containers = row ∷ [];
  networks =
      record { id = 1; name = codes "a"; driver = "bridge"; subnet = 167772160; prefix = 24 } ∷ [];
  allocated_subnets = [];
  container_networks = link 1 1 (some 167772162) ∷ [];
  volumes = [];
  volume_containers = [];
  container_seq = 1;
  network_seq = 1;
  volume_seq = 0;
}

abbrev manager : JailManager
manager = record {
  store = record { current = tables; committed = tables };
  subnetallocator = default_allocator;
  worker = unset;
}

abbrev ports_of : Text → Result (List PortMap)
ports_of config =
    ok (record { host = some 8080; container = some 80; rdr = none; udp = false } ∷ [])

-- Both rules of the port are removed.
stop_run :
    let (r, h) = stop_jail gone working (ok 3) ports_of (codes "web") manager host in
    (r ≡ ok "exited")
    × (h.pf.calls
        ≡ PfCall.remove_nat_port_rule (some (codes "cni-rdr/a")) 80 6
          ∷ PfCall.remove_rdr_port_rule (some (codes "cni-rdr/a")) 8080 6
          ∷ [])
unfolding stop_jail stop_active kill_jail wait_removed on_sys on_pf call_or_raise finally
    network_names_of fetchone fetchall remove_ports remove_port_rules get_jail_id_by_name
    remove_jail_from_name invoke ◌>>=◌ pure when catch_all for_each with_device without_fd encode
stop_run = (refl, refl)

-- A kernel that no longer has the jail when a second has been slept.
abbrev res_later : Log → SysCall → ℕ
res_later [] call = 0
res_later (entry ∷ log) call = 1

abbrev going : Kernel
going log call = answer (res_later log call) 2

wait_removed-ends_example :
    (k : ℕ) × All (λ r. (r.res == 0) ≡ true) (answers going k (codes "web") sys)
    × (((k ≡ 10)
          × (wait_removed going 10 (codes "web") sys
              ≡ (ok false, after_rounds going k (codes "web") sys)))
        ⊎ ((k < 10)
            × (((going
                    (after_rounds going k (codes "web") sys).log
                    (SysCall.jail_get (codes "web"))).res
                  == 0)
                ≡ false)
            × (wait_removed going 10 (codes "web") sys
                ≡ (ok true, asked going (codes "web") (after_rounds going k (codes "web") sys)))))
wait_removed-ends_example = wait_removed-ends going 10 b'w' (codes "eb") sys

found : find_container (codes "web") manager ≡ some row
unfolding fetchone
found = refl

stop_jail-no_file_example :
    let (r, h') = stop_jail no_file working (ok 3) ports_of (codes "web") manager host in
    (r ≡ raise (os_error 2)) × (h'.pf ≡ host.pf)
stop_jail-no_file_example =
    stop_jail-no_file no_file working (ok 3) ports_of (codes "web") row manager 2 host found refl
      (λ log. refl) (λ log. refl) (λ log. refl)
