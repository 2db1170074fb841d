-- ===== src/System/Pf.antt =====
-- app2/pf/pf.py: the wrappers that open the device of the packet filter, call the C library, close
-- the device and raise what the library reports. What `os.open` gives and what a call returns, with
-- its errno, are parameters. `os.open` raises where it fails, so the test for -1 is never true.
pub mod Wrappers
pub mod Filters
pub mod Tables
mod Tests
use dockermock.Prelude.{
  ℕ, suc, Bool, true, false, ◌&&◌, Option, none, some, List, [], ◌∷◌, if◌then◌else◌, ◌==◌, nat_eq,
  ltb, Exc, Result, ok, raise, raise_if, value_error, ◌>>◌,
}
use dockermock.Prelude.Text.{Text}
use dockermock.Prelude.Utf8.{Bytes, encode}

-- The members of AddrType that the wrappers use.
pub data AddrType : Type 0 where
  addrmask dyniftl addr_table : AddrType

pub record FilterAddr : Type 0 where
  pub kind : AddrType
  pub addr : Bytes

-- A port, or none for -1, the default.
abbrev pub PortArg : Type 0
PortArg = Option ℕ

-- The arguments that the rule functions share; addresses are bytes or a FilterAddr.
pub record FilterRule (A : Type 0) : Type 0 where
  pub if_name : Bytes
  pub anchor : Bytes
  pub src : A
  pub src_port : PortArg
  pub dst : A
  pub dst_port : PortArg
  pub rdr : List Bytes
  pub rdr_port : PortArg
  pub proto : ℕ

-- An IPv4 address of a table: s_addr as it lies in memory, and the byte of pfra_net.
pub record PfrAddr : Type 0 where
  pub ip4addr : Bytes
  pub net : ℕ

-- The functions of the C library; the last argument of a generic rule is `quick`.
pub data PfCall : Type 0 where
  add_rdr_rule append_rdr_rule add_rdr_rule_if : FilterRule Bytes → PfCall
  append_rdr_rule_src_if : FilterRule FilterAddr → PfCall
  append_rdr_rule_generic append_nat_rule_generic : FilterRule FilterAddr → ℕ → PfCall
  add_addresses remove_addresses : Bytes → ℕ → List Bytes → PfCall
  clear_ruleset clear_nat_ruleset : Bytes → PfCall
  remove_rdr_port_rule remove_nat_port_rule : Option Bytes → ℕ → ℕ → PfCall
  enable disable : PfCall
  table_add_addrs table_del_addrs : Bytes → List PfrAddr → ℕ → PfCall

-- The descriptors that are open, and the calls that were made, the last one first.
pub record Pf : Type 0 where
  pub opened : List ℕ
  pub calls : List PfCall

-- What a call returns, and the errno after it.
abbrev pub Library : Type 0
Library = PfCall → ℕ × ℕ

unfoldable pub without_fd : ℕ → List ℕ → List ℕ
without_fd dev [] = []
without_fd dev (d ∷ devs) = if dev == d then devs else d ∷ without_fd dev devs

abbrev pub open_device : ℕ → Pf → Pf
open_device dev pf = record { opened = dev ∷ pf.opened; calls = pf.calls }

abbrev pub close_device : ℕ → Pf → Pf
close_device dev pf = record { opened = without_fd dev pf.opened; calls = pf.calls }

abbrev pub record_call : PfCall → Pf → Pf
record_call call pf = record { opened = pf.opened; calls = call ∷ pf.calls }

-- try: res = libpf_util.f(dev, ...); finally: os.close(dev); if res: raise ...
-- `call` is a raise where the arguments cannot be built, `error` is what is raised for an errno.
unfoldable pub with_device :
    Library → Result ℕ → (ℕ → Exc) → Result PfCall → Pf → Result (Unit {0}) × Pf
with_device library (raise exc) error call pf = (raise exc, pf)
with_device library (ok dev) error (raise exc) pf =
    (raise exc, close_device dev (open_device dev pf))
with_device library (ok dev) error (ok call) pf =
    let (res, errno) = library call in
    (
      (if res == 0 then ok tt else raise (error errno)),
      close_device dev (record_call call (open_device dev pf)),
    )

unfoldable pub starts_with : ℕ → Text → Bool
starts_with c [] = false
starts_with c (x ∷ s) = x == c

unfoldable pub ends_with : ℕ → Text → Bool
ends_with c [] = false
ends_with c (x ∷ []) = x == c
ends_with c (x ∷ y ∷ s) = ends_with c (y ∷ s)

unfoldable pub without_last : Text → Text
without_last [] = []
without_last (x ∷ []) = []
without_last (x ∷ y ∷ s) = x ∷ without_last (y ∷ s)

-- src[1:-1]
unfoldable pub inner : Text → Text
inner [] = []
inner (x ∷ s) = without_last s

abbrev maxpathlen : ℕ
maxpathlen = 1024

abbrev pub byte_count : Bytes → ℕ
byte_count [] = 0
byte_count (b ∷ bytes) = suc (byte_count bytes)

-- An array of MAXPATHLEN chars refuses more bytes.
unfoldable pub filter_of : AddrType → Text → Result FilterAddr
filter_of kind addr =
    raise_if (ltb maxpathlen (byte_count (encode addr))) value_error
    >> ok (record { kind = kind; addr = encode addr })

-- The choice of `pfctl_append_rdr_rule_generic` and `pfctl_append_nat_rule_generic`, made for the
-- source and for the destination.
unfoldable pub filter_addr : Text → Result FilterAddr
filter_addr s =
    if starts_with b'(' s && ends_with b')' s
    then filter_of dyniftl (inner s)
    else if starts_with b'<' s && ends_with b'>' s
    then filter_of addr_table (inner s)
    else filter_of addrmask s
