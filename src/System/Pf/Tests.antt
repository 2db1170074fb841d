-- ===== src/System/Pf/Tests.antt =====
-- Runs of the packet filter's wrappers.
use dockermock.Prelude.{
  ℕ, ◌++◌, value_error, ◌≡◌, refl, none, some, [], ◌∷◌, ok, raise, os_error, name_error, Result,
  arith, if◌then◌else◌, ◌==◌, nat_eq,
}
use dockermock.Prelude.Text.{Text, codes, text_beq}
use dockermock.Prelude.Utf8.{Bytes, encode}
use dockermock.System.Pf.{
  addrmask, dyniftl, addr_table, PfCall, Pf, Library, with_device, without_fd, starts_with,
  ends_with, without_last, inner, filter_of, filter_addr,
}
use dockermock.System.Pf.Wrappers.{
  RuleText, rule_with, pfctl_append_rdr_rule_generic, pfctl_append_nat_rule_generic,
  pfctl_append_nat_rule_src_if, pfctl_add_address_list_to_pool, pfctl_disable, src_if_rule,
}
use dockermock.System.Iovec.{zeros}
use dockermock.System.Pf.Tables.{
  pfctl_table_add_addrs_list, pfctl_table_del_addr_list, table_args, addr_array, table_name_bytes,
  split_at, added_net, added_addr, deleted_addr,
}
use dockermock.System.Pf.Filters.{
  interface, table, filter_for, IsWritable, append_generic-show_address,
}

-- Every call fails with EINVAL.
abbrev failing : Library
failing call = (1, 22)

abbrev working : Library
working call = (0, 0)

abbrev pf : Pf
pf = record { opened = 3 ∷ []; calls = [] }

abbrev args : RuleText
args = record {
  if_name = codes "em0";
  anchor = codes "rdr/web";
  src = codes "<net>";
  src_port = none;
  dst = codes "(em0)";
  dst_port = some 80;
  rdr = codes "10.0.0.2" ∷ [];
  rdr_port = some 8080;
  proto = 6;
}

filter_runs :
    (filter_addr (codes "(em0)") ≡ ok (record { kind = dyniftl; addr = codes "em0" }))
    × (filter_addr (codes "<net>") ≡ ok (record { kind = addr_table; addr = codes "net" }))
    × (filter_addr (codes "(") ≡ ok (record { kind = addrmask; addr = codes "(" }))
    × (filter_addr (codes "()") ≡ ok (record { kind = dyniftl; addr = [] }))
unfolding filter_addr filter_of starts_with ends_with inner without_last encode
filter_runs = (refl, refl, refl, refl)

-- The device is closed after a failure, an undefined `erro` is a NameError, and the function for a
-- nat rule on an interface adds a redirection.
device_runs :
    (pfctl_disable failing (ok 7) pf
      ≡ (raise (os_error 22), record { opened = 3 ∷ []; calls = PfCall.disable ∷ [] }))
    × (pfctl_disable working (raise (os_error 2)) pf ≡ (raise (os_error 2), pf))
    × ((pfctl_add_address_list_to_pool failing (ok 7) (codes "rdr") 0 [] pf).0 ≡ raise name_error)
    × ((pfctl_append_nat_rule_src_if working (ok 7) args pf).1.calls
        ≡ PfCall.append_rdr_rule_src_if (
            rule_with
              (record { kind = addrmask; addr = codes "<net>" })
              (record { kind = dyniftl; addr = codes "(em0)" })
              args)
          ∷ [])
unfolding with_device without_fd src_if_rule filter_of encode
device_runs = (refl, refl, refl, refl)

net-IsWritable : IsWritable (table (codes "net"))
unfolding IsWritable encode
net-IsWritable = omega arith

em0-IsWritable : IsWritable (interface (codes "em0"))
unfolding IsWritable encode
em0-IsWritable = omega arith

append_generic-show_address_example :
    let rule =
      rule_with (filter_for (table (codes "net"))) (filter_for (interface (codes "em0"))) args in
    let after : PfCall → Result (Unit {0}) × Pf = λ call. (
      (if (failing call).0 == 0 then ok tt else raise (os_error (failing call).1)),
      record { opened = pf.opened; calls = call ∷ pf.calls },
    ) in
    (pfctl_append_rdr_rule_generic failing (ok 7) args 1 pf
      ≡ after (PfCall.append_rdr_rule_generic rule 1))
    × (pfctl_append_nat_rule_generic failing (ok 7) args 1 pf
        ≡ after (PfCall.append_nat_rule_generic rule 1))
append_generic-show_address_example =
    append_generic-show_address failing 7 1 args (table (codes "net")) (interface (codes "em0")) pf
      net-IsWritable em0-IsWritable refl refl

-- Runs with an `inet_pton` and an `int` that read one text each.
abbrev pton : Text → Result Bytes
pton ip = if text_beq ip (codes "10.0.0.2") then ok (10 ∷ 0 ∷ 0 ∷ 2 ∷ []) else raise (os_error 0)

abbrev int8 : Text → Result ℕ
int8 s = if text_beq s (codes "24") then ok 24 else raise value_error

table_runs :
    ((pfctl_table_add_addrs_list pton int8 working
        (ok 7)
        (codes "web")
        (codes "10.0.0.2/24" ∷ [])
        0
        pf).1
      ≡ record {
        opened = 3 ∷ [];
        calls =
            PfCall.table_add_addrs
              (codes "web" ++ zeros 29)
              (record { ip4addr = 10 ∷ 0 ∷ 0 ∷ 2 ∷ []; net = 24 } ∷ [])
              0
            ∷ [];
      })
    × (pfctl_table_add_addrs_list pton int8 working (ok 7) (codes "web") [] 0 pf
        ≡ (raise value_error, pf))
    × (pfctl_table_del_addr_list pton int8 working
          (ok 7)
          (codes "web")
          (codes "10.0.0.2/24" ∷ [])
          0
          pf
        ≡ (raise (os_error 0), pf))
unfolding pfctl_table_add_addrs_list pfctl_table_del_addr_list table_args addr_array
    table_name_bytes split_at added_net added_addr deleted_addr with_device without_fd encode
table_runs = (refl, refl, refl)
