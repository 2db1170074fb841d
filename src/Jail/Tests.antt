-- ===== src/Jail/Tests.antt =====
-- Runs of one jail, with kernels that answer all calls alike.
use dockermock.Prelude.{◌≡◌, refl, false, none, some, Option, [], ◌∷◌, All}
use dockermock.Prelude.Text.{Text, codes}
use dockermock.Prelude.Utf8.{Bytes, encode}
use dockermock.Worker.Calls.{Net}
use dockermock.System.Kernel.{Kernel, SysCall, Answer, Sys}
use dockermock.System.Kernel.Quiet.{created, Called}
use dockermock.Jail.{JailConfig, new_jail, create_jail, mount_target}
use dockermock.Jail.Destroy.{destroy_jail}
use dockermock.Jail.Tracking.{NamesInterfaces}
use dockermock.Jail.Endings.{Runs}
use dockermock.Jail.Lifetime.{create_jail-destroy_jail}
use dockermock.Jail.Child.{exec_args, resolv_conf, nameserver_lines}

abbrev answer : Answer
answer = record { res = 0; errno = 0; name = codes "epair0a"; value = 1; flags = (0, 0) }

abbrev answering : Kernel
answering log call = answer

abbrev start : Sys
start = record { sockets = 0; log = []; fs = record { dirs = []; mounts = [] } }

abbrev network : Net
network = record {
  name = codes "a";
  driver = "bridge";
  ip = some 167772162;
  subnet = 167772160;
  prefix = 24;
}

abbrev config : JailConfig
config = record {
  name = codes "web";
  params = [];
  root = codes "/jails/containers/0a/root";
  networks = network ∷ [];
  fs_mounts = "devfs" ∷ "tmpfs" ∷ [];
  mounts = [];
  limits = none;
}

abbrev no_address : Text → Option Bytes
no_address ip = none

abbrev same_path : Text → Text
same_path path = path

names : NamesInterfaces answering
unfolding encode
names = record { named = λ log base. (refl, λ e. cc) }

runs : Runs answering
runs = record { opens = λ log. refl; execs = λ log target. refl }

create_jail-destroy_jail_example :
    let st =
      (create_jail answering no_address same_path config
        (record { jail = new_jail; sys = start })).1 in
    let log' = (destroy_jail answering config st).1.sys.log in
    All (λ e. Called (SysCall.siocifdestroy (encode e)) log') (created log')
create_jail-destroy_jail_example =
    create_jail-destroy_jail answering no_address same_path config start names runs
      (unfold created in refl)

-- The command that is executed, and the names' servers.
child_runs :
    (exec_args [] (codes "ls" ∷ codes "-l" ∷ [])
      ≡ (some (codes "ls"), codes "ls" ∷ codes "-l" ∷ []))
    × (exec_args (codes "sh") (codes "-c" ∷ []) ≡ (some (codes "sh"), codes "sh" ∷ codes "-c" ∷ []))
    × (exec_args [] [] ≡ (none, []))
    × (resolv_conf (codes "10.0.0.1" ∷ []) ≡ codes "# Generated by Jail\nnameserver 10.0.0.1\n")
unfolding exec_args resolv_conf nameserver_lines
child_runs = (refl, refl, refl, refl)

-- A volume of an image has its path in the container as target, which is then mounted from the
-- host's own file system.
volume_run :
    mount_target same_path
      (record { type = "volume"; source = codes "d94f"; target = codes "/data"; readonly = false })
    ≡ codes "/data"
unfolding mount_target
volume_run = refl
