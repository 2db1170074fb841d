-- ===== src/Manager/Ports.antt =====
-- The rules of the packet filter that app2/JailManager_.py makes for the ports of containers:
-- `add_rdr_ports`, the end of `stop_jail`, and `clear_ruleset_before_close`. The C library and the
-- device are parameters.
pub mod Calls
pub mod Rules
mod Tests
use Prim.Native.String.{String}
use dockermock.Prelude.{
  ℕ, Bool, true, false, Option, none, some, List, [], ◌∷◌, ◌++◌, if◌then◌else◌, Exc, key_error,
  index_error, Result, ok, raise,
}
use dockermock.Prelude.Text.{Text, codes}
use dockermock.System.Effect.{M, ◌>>=◌, ◌>>◌, pure, throw, catch_all, for_each}
use dockermock.System.Pf.{Pf, Library}
use dockermock.System.Pf.Wrappers.{
  RuleText, cni_anchor, pfctl_append_rdr_rule_generic, pfctl_append_nat_rule_generic,
  pfctl_remove_rdr_port_rule, pfctl_remove_nat_port_rule, pfctl_clear_ruleset,
}
use dockermock.Manager.Store.{Network}

-- A port of the request or of the container's JSON; a missing field is none. A text for `rdr` is the list
-- of it alone.
pub record PortMap : Type 0 where
  pub host : Option ℕ
  pub container : Option ℕ
  pub rdr : Option (List Text)
  pub udp : Bool

-- socket.IPPROTO_UDP if port.get('proto')=='udp' else socket.IPPROTO_TCP
abbrev pub proto_of : PortMap → ℕ
proto_of port = if port.udp then 17 else 6

-- port[key]
abbrev pub field : {A : Type 0} → Option A → M Pf A
field none = throw key_error
field (some a) = pure a

-- rdr[0]
abbrev pub first_of : List Text → M Pf Text
first_of [] = throw index_error
first_of (addr ∷ rdr) = pure addr

abbrev pub rdr_rule : Text → List Text → ℕ → ℕ → ℕ → RuleText
rdr_rule network rdr container host proto = record {
  if_name = b'!' ∷ network;
  anchor = cni_anchor network;
  src = codes "0.0.0.0/0.0.0.0";
  src_port = none;
  dst = codes "(self)";
  dst_port = some host;
  rdr = rdr;
  rdr_port = some container;
  proto = proto;
}

abbrev pub nat_rule : Text → Text → ℕ → ℕ → RuleText
nat_rule network addr container proto = record {
  if_name = network;
  anchor = cni_anchor network;
  src = codes "(lo0)";
  src_port = none;
  dst = addr;
  dst_port = some container;
  rdr = network ∷ [];
  rdr_port = none;
  proto = proto;
}

-- The answer: 0 alone where there are no data, which the server cannot unpack.
pub data PortsAnswer : Type 0 where
  zero_alone no_network ports_added : PortsAnswer

-- What was asked for: no data, or the network and the ports.
pub record PortsRequest : Type 0 where
  pub network : Text
  pub ports : List PortMap

module _ (library : Library) (dev : Result ℕ) where
  -- A round of `add_rdr_ports`. The exceptions of the second rule are logged only.
  unfoldable pub add_rdr_port : Text → PortMap → M Pf (Unit {0})
  add_rdr_port network port = do
    host ← field port.host
    container ← field port.container
    rdr ← field port.rdr
    pfctl_append_rdr_rule_generic library dev (rdr_rule network rdr container host (proto_of port))
        1
    catch_all
        (do
          addr ← first_of rdr
          pfctl_append_nat_rule_generic library dev
              (nat_rule network addr container (proto_of port)) 0)
        (pure tt)

  abbrev pub add_to : Text → List PortMap → M Pf PortsAnswer
  add_to [] ports = pure no_network
  add_to (c ∷ network) ports = for_each (add_rdr_port (c ∷ network)) ports >> pure ports_added

  unfoldable pub add_rdr_ports : Option PortsRequest → M Pf PortsAnswer
  add_rdr_ports none = pure zero_alone
  add_rdr_ports (some r) = add_to r.network r.ports

  -- A round of the inner loop at the end of `stop_jail`.
  unfoldable pub remove_port_rules : PortMap → Text → M Pf (Unit {0})
  remove_port_rules port net = do
    host ← field port.host
    pfctl_remove_rdr_port_rule library dev (some (cni_anchor net)) host (proto_of port)
    container ← field port.container
    pfctl_remove_nat_port_rule library dev (some (cni_anchor net)) container (proto_of port)

  -- try: the loops; except Exception: log
  unfoldable pub remove_ports : List PortMap → List Text → M Pf (Unit {0})
  remove_ports ports networks =
      catch_all (for_each (λ (port : PortMap). for_each (remove_port_rules port) networks) ports)
        (pure tt)

  -- for row in rows: try: ...; except Exception: log
  unfoldable pub clear_ruleset_before_close : List Network → M Pf (Unit {0})
  clear_ruleset_before_close rows =
      for_each
        (λ (n : Network). catch_all (pfctl_clear_ruleset library dev (cni_anchor n.name)) (pure tt))
        rows
