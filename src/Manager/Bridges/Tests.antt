-- ===== src/Manager/Bridges/Tests.antt =====
-- Starting one network, and the theorem there.
use dockermock.Prelude.{◌≡◌, refl, ◌+◌, ◌<◌, Bool, true, some, [], ◌∷◌, arith, ok}
use dockermock.Prelude.Text.{codes, Text}
use dockermock.Ip.{Ipv4Network, ip_network, hosts, next, range}
use dockermock.System.Effect.{◌>>=◌, pure, catch_all, raise_when}
use dockermock.System.Kernel.{Kernel, invoke, open_unless, close_unless}
use dockermock.Prelude.Utf8.{encode}
use dockermock.Ip.Text.{show_ip, digits}
use dockermock.System.Interfaces.{get_if_index, name_field, ioctl}
use dockermock.System.Links.{check_interface_exist}
use dockermock.System.Pf.{Library, with_device, filter_addr, filter_of, starts_with}
use dockermock.System.Pf.Wrappers.{generic_rule, pfctl_append_rdr_rule_generic}
use dockermock.Manager.Store.{Network, Tables, fetchone}
use dockermock.Manager.Networks.{network_named, allocate_ip, is_used, first_free}
use dockermock.Manager.Stopping.{Host, on_sys, on_pf}
use dockermock.Manager.Bridges.{started_at, start_network, start_row, start_again}
use dockermock.Manager.Bridges.Gateway.{start_network-allocate_ip}

-- No call fails.
abbrev working_kernel : Kernel
working_kernel log call = record {
  res = 0;
  errno = 0;
  name = codes "bridge0";
  value = 7;
  flags = (0, 0);
}

abbrev working : Library
working call = (0, 0)

abbrev any_text : Text → Bool
any_text s = true

abbrev host : Host
host = record {
  sys = record { sockets = 0; log = []; fs = record { dirs = []; mounts = [] } };
  pf = record { opened = []; calls = [] };
}

abbrev row : Network
row = record { id = 1; name = codes "a"; driver = "bridge"; subnet = 167772160; prefix = 24 }

abbrev tables : Tables
tables = record {
  containers = [];
  networks = row ∷ [];
  allocated_subnets = [];
  container_networks = [];
  volumes = [];
  volume_containers = [];
  container_seq = 0;
  network_seq = 1;
  volume_seq = 0;
}

abbrev net_a : Ipv4Network
net_a = record { network_address = 167772160; prefixlen = 24 }

found : fetchone (network_named (codes "a")) tables.networks ≡ some row
unfolding fetchone
found = refl

parsed : ip_network 167772160 24 ≡ ok net_a
unfolding ip_network
parsed = refl

start_run :
    (start_network working_kernel any_text working (ok 3) (codes "a") tables host).0
    ≡ ok (started_at 167772161)
unfolding start_network start_row start_again ip_network hosts next range fetchone on_sys on_pf
    check_interface_exist get_if_index invoke open_unless close_unless ◌>>=◌ pure catch_all
    pfctl_append_rdr_rule_generic with_device name_field encode ioctl generic_rule filter_addr
    starts_with show_ip digits filter_of raise_when
start_run = refl

given : allocate_ip net_a (some 167772162 ∷ []) ≡ ok (some 167772163)
unfolding allocate_ip hosts next range is_used first_free
given = refl

start_network-allocate_ip_example :
    (167772161 ≡ net_a.network_address + 1) × (167772161 < 167772163)
start_network-allocate_ip_example =
    start_network-allocate_ip working_kernel any_text working (ok 3) (codes "a") tables row net_a
      host 167772161 (some 167772162 ∷ []) 167772163 found parsed (omega arith) start_run given
