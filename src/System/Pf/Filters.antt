-- ===== src/System/Pf/Filters.antt =====
-- What the generic rule wrappers tell the library.
use dockermock.Prelude.{
  ℕ, ◌≡◌, refl, ap, ◌≤◌, true, false, ◌&&◌, [], ◌∷◌, ◌++◌, if◌then◌else◌, ◌==◌, nat_eq, ltb,
  os_error, Result, ok, raise, arith,
}
use dockermock.Prelude.Text.{Text}
use dockermock.Prelude.Utf8.{encode}
use dockermock.System.Pf.{
  AddrType, addrmask, dyniftl, addr_table, FilterAddr, PfCall, Pf, Library, with_device, without_fd,
  starts_with, ends_with, without_last, inner, byte_count, filter_of, filter_addr,
}
use dockermock.System.Pf.Wrappers.{
  RuleText, rule_with, generic_rule, pfctl_append_rdr_rule_generic, pfctl_append_nat_rule_generic,
}

-- How a filter address is written: an interface in parentheses, a table in angle brackets.
pub data Address : Type 0 where
  mask interface table : Text → Address

abbrev pub show_address : Address → Text
show_address (mask s) = s
show_address (interface s) = b'(' ∷ s ++ b')' ∷ []
show_address (table s) = b'<' ∷ s ++ b'>' ∷ []

abbrev pub filter_for : Address → FilterAddr
filter_for (mask s) = record { kind = addrmask; addr = encode s }
filter_for (interface s) = record { kind = dyniftl; addr = encode s }
filter_for (table s) = record { kind = addr_table; addr = encode s }

-- A name fits, and a mask is not written like the others.
unfoldable pub IsWritable : Address → Type 0
IsWritable (mask s) =
    (byte_count (encode s) ≤ 1024)
    × (starts_with b'(' s && ends_with b')' s ≡ false)
    × (starts_with b'<' s && ends_with b'>' s ≡ false)
IsWritable (interface s) = byte_count (encode s) ≤ 1024
IsWritable (table s) = byte_count (encode s) ≤ 1024

ends_with-append : (c x : ℕ) (s : Text) → ends_with c (x ∷ s ++ c ∷ []) ≡ true
unfolding ends_with
ends_with-append c x [] = ground arith
ends_with-append c x (y ∷ s) = ends_with-append c y s

without_last-append : (c : ℕ) (s : Text) → without_last (s ++ c ∷ []) ≡ s
unfolding without_last
without_last-append c [] = refl
without_last-append c (x ∷ []) = refl
without_last-append c (x ∷ y ∷ s) = ap (λ t. x ∷ t) (without_last-append c (y ∷ s))

starts_with-first : (c : ℕ) (s : Text) → starts_with c (c ∷ s) ≡ true
unfolding starts_with
starts_with-first c s = ground arith

starts_with-other : (c x : ℕ) (s : Text) → (x == c) ≡ false → starts_with c (x ∷ s) ≡ false
unfolding starts_with
starts_with-other c x s e = e

inner-between : (c d : ℕ) (s : Text) → inner (c ∷ s ++ d ∷ []) ≡ s
unfolding inner
inner-between c d s = without_last-append d s

filter_of-fits :
    (kind : AddrType) (s : Text)
    → byte_count (encode s) ≤ 1024
    → filter_of kind s ≡ ok (record { kind = kind; addr = encode s })
unfolding filter_of
filter_of-fits kind s fits =
    let small : ltb 1024 (byte_count (encode s)) ≡ false = ground arith in rw small

pub filter_addr-show_address :
    (a : Address) → IsWritable a → filter_addr (show_address a) ≡ ok (filter_for a)
unfolding filter_addr IsWritable
filter_addr-show_address (mask s) (fits, plain, untabled) =
    rw (plain, untabled) (filter_of-fits addrmask s fits)
filter_addr-show_address (interface s) fits =
    rw
      (
        starts_with-first b'(' (s ++ b')' ∷ []),
        ends_with-append b')' b'(' s,
        inner-between b'(' b')' s,
      )
      (filter_of-fits dyniftl s fits)
filter_addr-show_address (table s) fits =
    rw
      (
        starts_with-other b'(' b'<' (s ++ b'>' ∷ []) refl,
        starts_with-first b'<' (s ++ b'>' ∷ []),
        ends_with-append b'>' b'<' s,
        inner-between b'<' b'>' s,
      )
      (filter_of-fits addr_table s fits)

generic_rule-show_address :
    (args : RuleText) (a b : Address)
    → IsWritable a
    → IsWritable b
    → args.src ≡ show_address a
    → args.dst ≡ show_address b
    → generic_rule args ≡ ok (rule_with (filter_for a) (filter_for b) args)
unfolding generic_rule
generic_rule-show_address args a b wa wb src dst =
    rw (src, filter_addr-show_address a wa, dst, filter_addr-show_address b wb)

-- One call, and the device is closed after it.
pub with_device-ok :
    (library : Library) (dev : ℕ) (call : PfCall) (pf : Pf)
    → with_device library (ok dev) os_error (ok call) pf ≡ (
      (if (library call).0 == 0 then ok tt else raise (os_error (library call).1)),
      record { opened = pf.opened; calls = call ∷ pf.calls },
    )
unfolding with_device without_fd
with_device-ok library dev call pf = rw ((nat_eq.beq_iff dev dev).1 refl)

-- Where the device opens, and the source and the destination are written as addresses whose names
-- fit, each of the two generic wrappers makes one call, which gives the library those addresses,
-- leaves open the descriptors that were open before, and raises the errno exactly where the call
-- does not return 0.
pub append_generic-show_address :
    (library : Library) (dev quick : ℕ) (args : RuleText) (a b : Address) (pf : Pf)
    → IsWritable a
    → IsWritable b
    → args.src ≡ show_address a
    → args.dst ≡ show_address b
    → let rule = rule_with (filter_for a) (filter_for b) args in
      let after : PfCall → Result (Unit {0}) × Pf = λ call. (
        (if (library call).0 == 0 then ok tt else raise (os_error (library call).1)),
        record { opened = pf.opened; calls = call ∷ pf.calls },
      ) in
      (pfctl_append_rdr_rule_generic library (ok dev) args quick pf
        ≡ after (PfCall.append_rdr_rule_generic rule quick))
      × (pfctl_append_nat_rule_generic library (ok dev) args quick pf
          ≡ after (PfCall.append_nat_rule_generic rule quick))
unfolding pfctl_append_rdr_rule_generic pfctl_append_nat_rule_generic
append_generic-show_address library dev quick args a b pf wa wb src dst =
    let rule = rule_with (filter_for a) (filter_for b) args in
    rw (generic_rule-show_address args a b wa wb src dst) (
      with_device-ok library dev (PfCall.append_rdr_rule_generic rule quick) pf,
      with_device-ok library dev (PfCall.append_nat_rule_generic rule quick) pf,
    )
