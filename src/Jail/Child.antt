-- ===== src/Jail/Child.antt =====
-- app2/Jail_.py: what the jail's first process does in the jail, `setup_network` and the command that
-- `child` executes. The texts of addresses are what `show_ip` makes of them; running /etc/rc and the
-- redirection of the standard streams are left out.
use dockermock.Prelude.{
  ℕ, ◌+◌, Bool, false, Option, none, some, List, [], ◌∷◌, ◌++◌, if◌then◌else◌, ◌==◌, nat_eq,
  string_eq, get_elem?, ltb, index_error, value_error, Result, ok, raise,
}
use dockermock.Prelude.Text.{Text, codes}
use dockermock.Worker.Calls.{Net}
use dockermock.Ip.{hosts, next, ip_network}
use dockermock.Ip.Text.{show_ip}
use dockermock.System.Netmask.{Octets, number_of, offset_to_netmask}
use dockermock.System.Limits.{add_route}
use dockermock.System.Effect.{M, ◌>>=◌, ◌>>◌, pure, throw, raise_when, catch_all}
use dockermock.System.Kernel.{Kernel, Sys}
use dockermock.System.Links.{set_if_address}

-- first, args: the program and its arguments, with its own name before them.
unfoldable pub exec_args : Text → List Text → Option Text × List Text
exec_args [] [] = (none, [])
exec_args [] (first ∷ command) = (some first, first ∷ command)
exec_args (c ∷ entrypoint) command = (some (c ∷ entrypoint), (c ∷ entrypoint) ∷ command)

-- The lines of /etc/resolv.conf.
unfoldable pub nameserver_lines : List Text → Text
nameserver_lines [] = []
nameserver_lines (ns ∷ nameservers) =
    codes "nameserver " ++ ns ++ b'\n' ∷ nameserver_lines nameservers

-- The servers of the networks, or the two public ones.
unfoldable pub resolv_conf : List Text → Text
resolv_conf [] =
    codes "# Generated by Jail\n" ++ nameserver_lines (codes "8.8.8.8" ∷ codes "1.1.1.1" ∷ [])
resolv_conf (ns ∷ nameservers) =
    codes "# Generated by Jail\n" ++ nameserver_lines (ns ∷ nameservers)

-- The text of four octets.
abbrev pub show_octets : Octets → Text
show_octets o = show_ip (number_of o)

-- A result that is raised where it is an exception.
abbrev pub from_result : {A : Type 0} → Result A → M Sys A
from_result (raise e) = throw e
from_result (ok a) = pure a

abbrev pub epair_at : Option Text → M Sys Text
epair_at none = throw index_error
epair_at (some epair) = pure epair

-- ipaddress.ip_interface(ip/prefix): the text "None", and a prefix above 32, are ValueErrors.
abbrev pub interface_of : Net → M Sys ℕ
interface_of network = elim network.ip [
  | none ↦ throw value_error
  | some ip ↦ raise_when (ltb 32 network.prefix) value_error >> pure ip
]

module _ (kernel : Kernel) (is_ip : Text → Bool) where
  -- An exception of add_route, and of the text of its mask, is caught.
  abbrev route_to : Text → Result Octets → Text → M Sys (Unit {0})
  route_to destination mask host =
      catch_all (do m ← from_result mask; add_route kernel destination (show_octets m) host false)
        (pure tt)

  -- One network: the address of the interface, and the route through the network's first host,
  -- which is the nameserver.
  unfoldable pub setup_bridge : Net → Option Text → M Sys Text
  setup_bridge network epair = do
    ip ← interface_of network
    if_name ← epair_at epair
    mask ← from_result (offset_to_netmask network.prefix)
    set_if_address kernel is_ip if_name (show_ip ip) (show_octets mask) none false
    subnet ← from_result (ip_network network.subnet network.prefix)
    (host, rest) ← from_result (next (hosts subnet))
    route_to (show_ip network.subnet) (offset_to_netmask network.prefix) (show_ip host)
    pure (show_ip host)

  -- The loop: the i-th network has the i-th interface.
  unfoldable pub setup_networks : List Text → ℕ → List Net → M Sys (List Text)
  setup_networks epair i [] = pure []
  setup_networks epair i (network ∷ networks) =
      if network.driver == "bridge"
      then (do
        host ← setup_bridge network (get_elem? epair i)
        nameservers ← setup_networks epair (i + 1) networks
        pure (host ∷ nameservers))
      else setup_networks epair (i + 1) networks

  abbrev default_route : List Text → M Sys (Unit {0})
  default_route [] = pure tt
  default_route (ns ∷ nameservers) =
      route_to (codes "0.0.0.0") (ok (record { first = 0; second = 0; third = 0; fourth = 0 })) ns

  -- The text of /etc/resolv.conf, none where it is not written.
  unfoldable pub setup_network : List Text → List Net → M Sys (Option Text)
  setup_network epair [] = pure none
  setup_network epair (network ∷ networks) = if network.driver == "host" then pure none else (do
    nameservers ← setup_networks epair 0 (network ∷ networks)
    default_route nameservers
    pure (some (resolv_conf nameservers)))
