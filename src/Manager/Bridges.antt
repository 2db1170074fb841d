-- ===== src/Manager/Bridges.antt =====
-- `start_network` of app2/JailManager_.py: the bridge of a network with the address of its first host, and
-- the rule that sends the queries of its containers to the DNS server.
pub mod Gateway
mod Tests
use Prim.Native.String.{String}
use dockermock.Prelude.{
  ℕ, ◌-◌, ◌^◌, Bool, true, false, Option, none, some, List, [], ◌∷◌, ◌++◌, if◌then◌else◌, Result,
  ok, raise,
}
use dockermock.Prelude.Text.{Text, text_beq, codes}
use dockermock.Ip.{Ipv4Network, block_size, ip_network, hosts, next}
use dockermock.Ip.Text.{decimal, show_ip}
use dockermock.System.Effect.{M, ◌>>=◌, ◌>>◌, pure, throw, catch_os, catch_all}
use dockermock.System.Kernel.{Kernel, Sys}
use dockermock.System.Interfaces.{
  create_interface, rename_interface, set_interface_group, set_ip_address,
}
use dockermock.System.Links.{check_interface_exist}
use dockermock.System.Pf.{Library}
use dockermock.System.Pf.Wrappers.{RuleText, cni_anchor, pfctl_append_rdr_rule_generic}
use dockermock.Manager.Store.{Network, Tables, fetchone}
use dockermock.Manager.Networks.{network_named}
use dockermock.Manager.Stopping.{Host, on_sys, on_pf}

-- What it answers: the name `host` itself, the address, or what the error is about.
pub data StartAnswer : Type 0 where
  host_started not_there : StartAnswer
  started_at : ℕ → StartAnswer
  not_created : ℕ → StartAnswer

-- f"{subnet}/{prefix}"
abbrev pub show_subnet : Network → Text
show_subnet n = show_ip n.subnet ++ b'/' ∷ decimal n.prefix

abbrev pub dns_rule : Network → ℕ → RuleText
dns_rule n ip = record {
  if_name = n.name;
  anchor = cni_anchor n.name;
  src = show_subnet n;
  src_port = none;
  dst = show_ip ip;
  dst_port = some 53;
  rdr = codes "127.0.0.11/32" ∷ [];
  rdr_port = some 53;
  proto = 17;
}

-- str(ip_interface.network.netmask)
abbrev pub show_netmask : ℕ → Text
show_netmask prefix = show_ip (2 ^ 32 - block_size prefix)

abbrev pub from : {A : Type 0} → Result A → M Host A
from r h = (r, h)

module _ (kernel : Kernel) (is_ip : Text → Bool) (library : Library) (dev : Result ℕ) where
  abbrev pub add_dns_rule : Network → ℕ → ℕ → M Host (Unit {0})
  add_dns_rule n ip quick = on_pf (pfctl_append_rdr_rule_generic library dev (dns_rule n ip) quick)

  -- The interface is there: an exception of the rule is logged only.
  unfoldable pub start_again : Network → ℕ → M Host StartAnswer
  start_again n ip = catch_all (add_dns_rule n ip 1) (pure tt) >> pure (started_at ip)

  unfoldable pub create_bridge_for : Network → ℕ → M Host (Unit {0})
  create_bridge_for n ip = do
    if_name ← on_sys (create_interface kernel (codes "bridge") false)
    on_sys (rename_interface kernel if_name n.name false)
    done ← on_sys (set_interface_group kernel n.name (codes "jailnet") false)
    on_sys (set_ip_address kernel is_ip n.name (show_ip ip) (show_netmask n.prefix) none false)
    add_dns_rule n ip 0

  unfoldable pub start_new : Network → ℕ → M Host StartAnswer
  start_new n ip =
      catch_os (create_bridge_for n ip >> pure (started_at ip)) λ errno. pure (not_created errno)

  -- check_interface_exist gives -1, which counts as true, for an empty name.
  abbrev pub start_at : Network → ℕ → Option Bool → M Host StartAnswer
  start_at n ip (some false) = start_new n ip
  start_at n ip (some true) = start_again n ip
  start_at n ip none = start_again n ip

  unfoldable pub start_row : Network → M Host StartAnswer
  start_row n = do
    ip_net ← from (ip_network n.subnet n.prefix)
    first ← from (next (hosts ip_net))
    exists ← on_sys (check_interface_exist kernel n.name)
    start_at n first.0 exists

  abbrev pub start_found : Option Network → M Host StartAnswer
  start_found none = pure not_there
  start_found (some n) = start_row n

  unfoldable pub start_network : Text → Tables → M Host StartAnswer
  start_network name t =
      if text_beq name (codes "host")
      then pure host_started
      else start_found (fetchone (network_named name) t.networks)
