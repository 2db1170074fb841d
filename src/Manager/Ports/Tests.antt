-- ===== src/Manager/Ports/Tests.antt =====
-- The rules of one port, and the theorems there.
use dockermock.Prelude.{◌≡◌, refl, false, none, some, [], ◌∷◌, map, arith, ok}
use dockermock.Prelude.Text.{codes}
use dockermock.Prelude.Utf8.{encode}
use dockermock.System.Effect.{◌>>=◌, pure, catch_all, for_each}
use dockermock.System.Pf.{Pf, PfCall, Library, with_device, without_fd, starts_with, ends_with}
use dockermock.System.Pf.Filters.{Address, IsWritable}
use dockermock.Manager.Store.{Network}
use dockermock.Manager.Ports.{
  ports_added, zero_alone, no_network, add_rdr_ports, remove_ports, remove_port_rules,
  clear_ruleset_before_close,
}
use dockermock.Manager.Ports.Calls.{made_after}
use dockermock.Manager.Ports.Rules.{
  Forwarding, port_of, added, removal_of, remove_ports-add_rdr_ports,
  clear_ruleset_before_close-all,
}

abbrev working : Library
working call = (0, 0)

-- Every call fails with EPERM.
abbrev failing : Library
failing call = (1, 1)

abbrev idle : Pf
idle = record { opened = []; calls = [] }

-- Port 8080 of the host, to port 80 of a container at 10.0.0.2.
abbrev web_port : Forwarding
web_port = record {
  host = 8080;
  container = 80;
  target = Address.mask (codes "10.0.0.2");
  others = [];
  udp = false;
}

abbrev net : Network
net = record { id = 1; name = codes "a"; driver = "bridge"; subnet = 167772160; prefix = 24 }

answers :
    ((add_rdr_ports working (ok 3) none idle).0 ≡ ok zero_alone)
    × ((add_rdr_ports working (ok 3) (some (record { network = []; ports = [] })) idle).0
        ≡ ok no_network)
unfolding add_rdr_ports pure
answers = (refl, refl)

-- A failure at the first rule ends the loops: the rule for NAT stays.
stuck_run : remove_ports failing (ok 3) (port_of web_port ∷ []) (codes "a" ∷ []) idle ≡ (
  ok tt,
  record {
    opened = [];
    calls = PfCall.remove_rdr_port_rule (some (encode (codes "cni-rdr/a"))) 8080 6 ∷ [];
  },
)
unfolding remove_ports remove_port_rules catch_all for_each ◌>>=◌ pure with_device without_fd
stuck_run = refl

target-IsWritable : IsWritable (Address.mask (codes "10.0.0.2"))
unfolding IsWritable encode starts_with ends_with
target-IsWritable = (omega arith, refl, refl)

remove_ports-add_rdr_ports_example :
    let rules = added (codes "a") web_port in
    (add_rdr_ports working
        (ok 3)
        (some (record { network = codes "a"; ports = port_of web_port ∷ [] }))
        idle
      ≡ (ok ports_added, made_after rules idle))
    × (remove_ports working (ok 3) (port_of web_port ∷ []) (codes "a" ∷ []) idle
        ≡ (ok tt, made_after (map removal_of rules) idle))
remove_ports-add_rdr_ports_example =
    remove_ports-add_rdr_ports working 3 (λ c. refl) b'a' [] (web_port ∷ []) idle
      (target-IsWritable, tt)

clear_ruleset_before_close-all_example :
    clear_ruleset_before_close failing (ok 3) (net ∷ []) idle
    ≡ (ok tt, made_after (PfCall.clear_ruleset (encode (codes "cni-rdr/a")) ∷ []) idle)
clear_ruleset_before_close-all_example = clear_ruleset_before_close-all failing 3 (net ∷ []) idle
