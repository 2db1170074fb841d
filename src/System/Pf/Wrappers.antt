-- ===== src/System/Pf/Wrappers.antt =====
-- app2/pf/pf.py: the wrappers, one for each function of the C library. What they print is left out.
use mathlib.Core.Option
use dockermock.Prelude.{
  ℕ, Option, List, [], ◌∷◌, ◌++◌, map, Exc, os_error, name_error, Result, ok, ◌>>=◌,
}
use dockermock.Prelude.Text.{Text, codes}
use dockermock.Prelude.Utf8.{Bytes, encode}
use dockermock.System.Pf.{
  addrmask, dyniftl, FilterAddr, PortArg, FilterRule, PfCall, Pf, Library, with_device, filter_of,
  filter_addr,
}

-- The arguments of a wrapper for a rule, before they are encoded.
pub record RuleText : Type 0 where
  pub if_name : Text
  pub anchor : Text
  pub src : Text
  pub src_port : PortArg
  pub dst : Text
  pub dst_port : PortArg
  pub rdr : List Text
  pub rdr_port : PortArg
  pub proto : ℕ

-- f"cni-rdr/{if_name}"
abbrev pub cni_anchor : Text → Text
cni_anchor if_name = codes "cni-rdr/" ++ if_name

abbrev pub rule_with : {A : Type 0} → A → A → RuleText → FilterRule A
rule_with src dst args = record {
  if_name = encode args.if_name;
  anchor = encode args.anchor;
  src = src;
  src_port = args.src_port;
  dst = dst;
  dst_port = args.dst_port;
  rdr = map encode args.rdr;
  rdr_port = args.rdr_port;
  proto = args.proto;
}

abbrev pub bytes_rule : RuleText → FilterRule Bytes
bytes_rule args = rule_with (encode args.src) (encode args.dst) args

unfoldable pub generic_rule : RuleText → Result (FilterRule FilterAddr)
generic_rule args =
    filter_addr args.src >>= λ src. filter_addr args.dst >>= λ dst. ok (rule_with src dst args)

-- src is a mask and dst an interface, whatever they look like.
unfoldable pub src_if_rule : RuleText → Result (FilterRule FilterAddr)
src_if_rule args = filter_of addrmask args.src >>= λ src.
    filter_of dyniftl args.dst >>= λ dst. ok (rule_with src dst args)

-- raise OSError(erro, ...): the name is not defined.
abbrev pub erro : ℕ → Exc
erro err = name_error

module _ (library : Library) (dev : Result ℕ) where
  -- The anchor is made of if_name.
  abbrev pub pfctl_add_rdr_rule : RuleText → Pf → Result (Unit {0}) × Pf
  pfctl_add_rdr_rule args =
      with_device library dev os_error
        (ok (PfCall.add_rdr_rule (bytes_rule (record args { anchor = cni_anchor args.if_name }))))

  abbrev pub pfctl_append_rdr_rule : RuleText → Pf → Result (Unit {0}) × Pf
  pfctl_append_rdr_rule args =
      with_device library dev os_error (ok (PfCall.append_rdr_rule (bytes_rule args)))

  -- The interface is where it redirects to.
  abbrev pub pfctl_add_rdr_rule_if : RuleText → Pf → Result (Unit {0}) × Pf
  pfctl_add_rdr_rule_if args = with_device library dev erro (
      ok (
        PfCall.add_rdr_rule_if
          (bytes_rule (record args { anchor = cni_anchor args.if_name; rdr = args.if_name ∷ [] }))))

  abbrev pub pfctl_add_address_list_to_pool : Text → ℕ → List Text → Pf → Result (Unit {0}) × Pf
  pfctl_add_address_list_to_pool path r_num addr_list =
      with_device library dev erro
        (ok (PfCall.add_addresses (encode path) r_num (map encode addr_list)))

  abbrev pub pfctl_remove_address_list_from_pool :
      Text → ℕ → List Text → Pf → Result (Unit {0}) × Pf
  pfctl_remove_address_list_from_pool path r_num addr_list =
      with_device library dev erro
        (ok (PfCall.remove_addresses (encode path) r_num (map encode addr_list)))

  abbrev pub pfctl_append_rdr_rule_src_if : RuleText → Pf → Result (Unit {0}) × Pf
  pfctl_append_rdr_rule_src_if args =
      with_device library dev os_error
        (src_if_rule args >>= λ rule. ok (PfCall.append_rdr_rule_src_if rule))

  unfoldable pub pfctl_append_rdr_rule_generic : RuleText → ℕ → Pf → Result (Unit {0}) × Pf
  pfctl_append_rdr_rule_generic args quick =
      with_device library dev os_error
        (generic_rule args >>= λ rule. ok (PfCall.append_rdr_rule_generic rule quick))

  abbrev pub pfctl_clear_ruleset : Text → Pf → Result (Unit {0}) × Pf
  pfctl_clear_ruleset anchor =
      with_device library dev os_error (ok (PfCall.clear_ruleset (encode anchor)))

  abbrev pub pfctl_remove_rdr_port_rule : Option Text → ℕ → ℕ → Pf → Result (Unit {0}) × Pf
  pfctl_remove_rdr_port_rule anchor port proto =
      with_device library dev os_error
        (ok (PfCall.remove_rdr_port_rule (Option.map encode anchor) port proto))

  abbrev pub pfctl_remove_nat_port_rule : Option Text → ℕ → ℕ → Pf → Result (Unit {0}) × Pf
  pfctl_remove_nat_port_rule anchor port proto =
      with_device library dev os_error
        (ok (PfCall.remove_nat_port_rule (Option.map encode anchor) port proto))

  abbrev pub pfctl_clear_nat_ruleset : Text → Pf → Result (Unit {0}) × Pf
  pfctl_clear_nat_ruleset anchor =
      with_device library dev os_error (ok (PfCall.clear_nat_ruleset (encode anchor)))

  unfoldable pub pfctl_append_nat_rule_generic : RuleText → ℕ → Pf → Result (Unit {0}) × Pf
  pfctl_append_nat_rule_generic args quick =
      with_device library dev os_error
        (generic_rule args >>= λ rule. ok (PfCall.append_nat_rule_generic rule quick))

  -- It calls the function for redirections.
  abbrev pub pfctl_append_nat_rule_src_if : RuleText → Pf → Result (Unit {0}) × Pf
  pfctl_append_nat_rule_src_if args =
      with_device library dev os_error
        (src_if_rule args >>= λ rule. ok (PfCall.append_rdr_rule_src_if rule))

  abbrev pub pfctl_enable : Pf → Result (Unit {0}) × Pf
  pfctl_enable = with_device library dev os_error (ok PfCall.enable)

  abbrev pub pfctl_disable : Pf → Result (Unit {0}) × Pf
  pfctl_disable = with_device library dev os_error (ok PfCall.disable)
