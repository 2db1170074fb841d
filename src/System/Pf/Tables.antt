-- ===== src/System/Pf/Tables.antt =====
-- app2/pf/pf.py: adding addresses to a table and deleting them. `inet_pton` is the socket module's;
-- `int8` reads the byte that int() of a text leaves in a c_int8.
use dockermock.Prelude.{
  ℕ, ◌-◌, List, [], ◌∷◌, ◌++◌, if◌then◌else◌, ◌==◌, nat_eq, ltb, Result, ok, raise, raise_if,
  value_error, os_error, ◌>>◌, ◌>>=◌,
}
use dockermock.Prelude.Text.{Text}
use dockermock.Prelude.Utf8.{Bytes, encode}
use dockermock.System.Iovec.{zeros}
use dockermock.System.Pf.{PfrAddr, PfCall, Pf, Library, with_device, byte_count}

abbrev pf_table_name_size : ℕ
pf_table_name_size = 32

-- table_name.encode("utf-8").ljust(PF_TABLE_NAME_SIZE, b'\x00'), which is refused where it is longer.
unfoldable pub table_name_bytes : Text → Result Bytes
table_name_bytes table_name =
    let name = encode table_name in
    raise_if (ltb pf_table_name_size (byte_count name)) value_error
    >> ok (name ++ zeros (pf_table_name_size - byte_count name))

-- addr.split('/'): the first part, and the others.
unfoldable pub split_at : ℕ → Text → Text × List Text
split_at c [] = ([], [])
split_at c (x ∷ s) =
    let (part, parts) = split_at c s in if x == c then ([], part ∷ parts) else (x ∷ part, parts)

unfoldable pub addr_array : (Text → Result PfrAddr) → List Text → Result (List PfrAddr)
addr_array read [] = ok []
addr_array read (addr ∷ addrs) =
    read addr >>= λ first. addr_array read addrs >>= λ rest. ok (first ∷ rest)

-- The table and the addresses, before the device is opened.
unfoldable pub table_args :
    (Text → Result PfrAddr) → Text → List Text → Result (Bytes × List PfrAddr)
table_args read table_name [] = raise value_error
table_args read table_name (addr ∷ addrs) = table_name_bytes table_name >>= λ name.
    addr_array read (addr ∷ addrs) >>= λ array. ok (name, array)

module _ (inet_pton : Text → Result Bytes) (int8 : Text → Result ℕ) where
  -- int(addr[1]) if len(addr) > 1 else 32
  unfoldable pub added_net : List Text → Result ℕ
  added_net [] = ok 32
  added_net (net ∷ parts) = int8 net

  unfoldable pub added_addr : Text → Result PfrAddr
  added_addr addr =
      let (ip, parts) = split_at b'/' addr in
      inet_pton ip >>= λ packed_ip.
      added_net parts >>= λ net. ok (record { ip4addr = packed_ip; net = net })

  unfoldable pub deleted_addr : Text → Result PfrAddr
  deleted_addr addr = inet_pton addr >>= λ packed_ip. ok (record { ip4addr = packed_ip; net = 32 })

  module _ (library : Library) (dev : Result ℕ) where
    unfoldable pub pfctl_table_add_addrs_list : Text → List Text → ℕ → Pf → Result (Unit {0}) × Pf
    pfctl_table_add_addrs_list table_name addrs flags pf =
        elim (table_args added_addr table_name addrs) [
          | raise exc ↦ (raise exc, pf)
          | ok (table, array) ↦
              with_device library dev os_error (ok (PfCall.table_add_addrs table array flags)) pf
        ]

    unfoldable pub pfctl_table_del_addr_list : Text → List Text → ℕ → Pf → Result (Unit {0}) × Pf
    pfctl_table_del_addr_list table_name addrs flags pf =
        elim (table_args deleted_addr table_name addrs) [
          | raise exc ↦ (raise exc, pf)
          | ok (table, array) ↦
              with_device library dev os_error (ok (PfCall.table_del_addrs table array flags)) pf
        ]
