-- ===== src/Manager/Ports/Rules.antt =====
-- The rules that are made for ports are those that are removed.
use dockermock.Prelude.{
  ◌≡◌, refl, true, ◌∙◌, ℕ, Bool, Option, none, some, List, [], ◌∷◌, ◌++◌, map, ◌==◌, nat_eq, arith,
  Bool-cases, inl, inr, All, ok, os_error,
}
use dockermock.Prelude.Text.{Text, codes}
use dockermock.Prelude.Utf8.{encode}
use dockermock.System.Effect.{◌>>=◌, pure, catch_all, for_each}
use dockermock.System.Pf.{Pf, PfCall, Library, with_device, starts_with, ends_with}
use dockermock.System.Pf.Wrappers.{
  RuleText, cni_anchor, rule_with, pfctl_append_rdr_rule_generic, pfctl_append_nat_rule_generic,
}
use dockermock.System.Pf.Filters.{
  Address, filter_for, show_address, IsWritable, with_device-ok, append_generic-show_address,
}
use dockermock.Manager.Store.{Network}
use dockermock.Manager.Ports.Calls.{
  made_after, Makes, Makes-pure, Makes-bind, Makes-catch_all, calls_for,
}
use dockermock.Manager.Ports.{
  PortMap, ports_added, rdr_rule, nat_rule, proto_of, add_rdr_port, add_rdr_ports,
  remove_port_rules, remove_ports, clear_ruleset_before_close,
}

-- A port whose fields are there, with the address that it is redirected to first.
pub record Forwarding : Type 0 where
  pub host : ℕ
  pub container : ℕ
  pub target : Address
  pub others : List Text
  pub udp : Bool

abbrev pub port_of : Forwarding → PortMap
port_of f = record {
  host = some f.host;
  container = some f.container;
  rdr = some (show_address f.target ∷ f.others);
  udp = f.udp;
}

-- The two rules of a port, as the library gets them.
abbrev pub added : Text → Forwarding → List PfCall
added network f =
    let proto = proto_of (port_of f) in
    PfCall.append_rdr_rule_generic
      (rule_with (filter_for (Address.mask (codes "0.0.0.0/0.0.0.0")))
        (filter_for (Address.interface (codes "self")))
        (rdr_rule network (show_address f.target ∷ f.others) f.container f.host proto))
      1
    ∷ PfCall.append_nat_rule_generic
        (rule_with (filter_for (Address.interface (codes "lo0"))) (filter_for f.target)
          (nat_rule network (show_address f.target) f.container proto))
        0
    ∷ []

-- The call that removes a rule: by its anchor, its port of destination and its protocol.
abbrev port_number : Option ℕ → ℕ
port_number none = 0
port_number (some port) = port

abbrev pub removal_of : PfCall → PfCall
removal_of (PfCall.append_rdr_rule_generic rule quick) =
    PfCall.remove_rdr_port_rule (some rule.anchor) (port_number rule.dst_port) rule.proto
removal_of (PfCall.append_nat_rule_generic rule quick) =
    PfCall.remove_nat_port_rule (some rule.anchor) (port_number rule.dst_port) rule.proto
removal_of call = call

anywhere : IsWritable (Address.mask (codes "0.0.0.0/0.0.0.0"))
unfolding IsWritable encode starts_with ends_with
anywhere = (omega arith, refl, refl)

self_fits : IsWritable (Address.interface (codes "self"))
unfolding IsWritable encode
self_fits = omega arith

loopback_fits : IsWritable (Address.interface (codes "lo0"))
unfolding IsWritable encode
loopback_fits = omega arith

module _ (library : Library) (dev : ℕ) (works : (c : PfCall) → (library c).0 ≡ 0) where
  one_call :
      (call : PfCall) (pf : Pf)
      → with_device library (ok dev) os_error (ok call) pf
        ≡ (ok tt, record { opened = pf.opened; calls = call ∷ pf.calls })
  one_call call pf =
      let done : ((library call).0 == 0) ≡ true =
        (nat_eq.beq_iff (library call).0 0).1 (works call) in
      with_device-ok library dev call pf ∙ rw done refl

  appended :
      (args : RuleText) (a b : Address) (quick : ℕ)
      → IsWritable a
      → IsWritable b
      → args.src ≡ show_address a
      → args.dst ≡ show_address b
      → let rule = rule_with (filter_for a) (filter_for b) args in
        Makes
          (PfCall.append_rdr_rule_generic rule quick ∷ [])
          (pfctl_append_rdr_rule_generic library (ok dev) args quick)
        × Makes
            (PfCall.append_nat_rule_generic rule quick ∷ [])
            (pfctl_append_nat_rule_generic library (ok dev) args quick)
  appended args a b quick wa wb src dst =
      let rule = rule_with (filter_for a) (filter_for b) args in
      let done : (c : PfCall) → ((library c).0 == 0) ≡ true =
        λ c. (nat_eq.beq_iff (library c).0 0).1 (works c) in
      (
        record {
          at = λ pf.
              (append_generic-show_address library dev quick args a b pf wa wb src dst).0
              ∙ rw (done (PfCall.append_rdr_rule_generic rule quick)) refl;
        },
        record {
          at = λ pf.
              (append_generic-show_address library dev quick args a b pf wa wb src dst).1
              ∙ rw (done (PfCall.append_nat_rule_generic rule quick)) refl;
        },
      )

  called : (call : PfCall) → Makes (call ∷ []) (with_device library (ok dev) os_error (ok call))
  called call = record { at = one_call call }

  add_rdr_port-Makes :
      (network : Text) (f : Forwarding)
      → IsWritable f.target
      → Makes (added network f) (add_rdr_port library (ok dev) network (port_of f))
  unfolding add_rdr_port ◌>>=◌ pure
  add_rdr_port-Makes network f w =
      Makes-bind
        (appended _ (Address.mask (codes "0.0.0.0/0.0.0.0")) (Address.interface (codes "self")) 1
          anywhere self_fits refl refl).0
        (Makes-catch_all _
          (appended _ (Address.interface (codes "lo0")) f.target 0 loopback_fits w refl refl).1)

  remove_port_rules-Makes :
      (network : Text) (f : Forwarding)
      → Makes
          (map removal_of (added network f))
          (remove_port_rules library (ok dev) (port_of f) network)
  unfolding remove_port_rules ◌>>=◌ pure
  remove_port_rules-Makes network f = Makes-bind (called _) (called _)

  added_all :
      (network : Text) (ports : List Forwarding)
      → All (λ f. IsWritable f.target) ports
      → Makes
          (calls_for (added network) ports)
          (for_each (add_rdr_port library (ok dev) network) (map port_of ports))
  unfolding for_each
  added_all network [] h = Makes-pure
  added_all network (f ∷ ports) h =
      Makes-bind (add_rdr_port-Makes network f h.0) (added_all network ports h.1)

  removed_all :
      (network : Text) (ports : List Forwarding)
      → Makes (map removal_of (calls_for (added network) ports)) (
          for_each
            (λ (port : PortMap). for_each (remove_port_rules library (ok dev) port) (network ∷ []))
            (map port_of ports))
  unfolding for_each
  removed_all network [] = Makes-pure
  removed_all network (f ∷ ports) =
      Makes-bind (Makes-bind (remove_port_rules-Makes network f) Makes-pure)
        (removed_all network ports)

  -- Where the device opens, every call of the library returns 0, and the ports have their fields, with
  -- addresses that fit: `add_rdr_ports` makes the two rules of each port, in their order, and the end
  -- of `stop_jail` for this network removes the same rules, by their anchors, ports of destination
  -- and protocols, in the same order; neither makes another call or leaves a device open.
  pub remove_ports-add_rdr_ports :
      (c : ℕ) (network : Text) (ports : List Forwarding) (pf : Pf)
      → All (λ f. IsWritable f.target) ports
      → let rules = calls_for (added (c ∷ network)) ports in
        (add_rdr_ports library
            (ok dev)
            (some (record { network = c ∷ network; ports = map port_of ports }))
            pf
          ≡ (ok ports_added, made_after rules pf))
        × (remove_ports library (ok dev) (map port_of ports) ((c ∷ network) ∷ []) pf
            ≡ (ok tt, made_after (map removal_of rules) pf))
  unfolding add_rdr_ports remove_ports ◌>>=◌ pure catch_all
  remove_ports-add_rdr_ports c network ports pf h = (
    rw ((added_all (c ∷ network) ports h).at pf) refl,
    rw ((removed_all (c ∷ network) ports).at pf) refl,
  )

module _ (library : Library) (dev : ℕ) where
  -- A call whose exceptions are only logged is made whatever it returns.
  caught :
      (call : PfCall)
      → Makes (call ∷ []) (catch_all (with_device library (ok dev) os_error (ok call)) (pure tt))
  unfolding catch_all pure
  caught call = record {
    at = λ pf. elim (Bool-cases ((library call).0 == 0)) [
      | inl done ↦ rw (with_device-ok library dev call pf) (rw done refl)
      | inr failed ↦ rw (with_device-ok library dev call pf) (rw failed refl)
    ];
  }

  abbrev clear_call : Network → PfCall
  clear_call n = PfCall.clear_ruleset (encode (cni_anchor n.name))

  -- Where the device opens, `clear_ruleset_before_close` ends without an exception, whatever the
  -- library returns, and asks it to clear the rules of each network, in their order, and for nothing
  -- else; no device stays open.
  pub clear_ruleset_before_close-all :
      (rows : List Network) (pf : Pf)
      → clear_ruleset_before_close library (ok dev) rows pf ≡ (
        ok tt,
        made_after
            (map (λ (n : Network). PfCall.clear_ruleset (encode (codes "cni-rdr/" ++ n.name))) rows)
            pf,
      )
  unfolding clear_ruleset_before_close for_each
  clear_ruleset_before_close-all rows pf = (cleared rows).at pf
    where
      cleared :
          (l : List Network)
          → Makes (map clear_call l) (clear_ruleset_before_close library (ok dev) l)
      cleared [] = Makes-pure
      cleared (n ∷ l) = Makes-bind (caught (clear_call n)) (cleared l)
