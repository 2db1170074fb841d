-- ===== src/System/Iovec.antt =====
-- app2/wrappers.py and app2/helpers.py: the arrays of iovecs that `jail_set` takes. An iovec is the
-- bytes that it points to; the array alternates keys and values.
pub mod Reading
use Prim.Native.String.{String}
use dockermock.Prelude.{
  ℕ, zero, suc, ◌/◌, ◌%◌, Bool, true, false, Option, none, some, List, [], ◌∷◌, ◌++◌, if◌then◌else◌,
  ◌==◌, string_eq,
}
use dockermock.Prelude.Text.{Text, codes}
use dockermock.Prelude.Utf8.{Bytes, encode}
use dockermock.Worker.Jails.Config.{Value, text, number, flag, addresses, JailParams}

-- key.encode("utf-8") + b"\x00"
abbrev pub c_string : Text → Bytes
c_string s = encode s ++ 0 ∷ []

-- The bytes of a ctypes.c_int, in two's complement and the lowest first; of a number that does not
-- fit 32 bits, the low bits. No parameter that transform_json gives is negative.
abbrev pub c_int : ℕ → Bytes
c_int value = value % 256 ∷ value / 256 % 256 ∷ value / 65536 % 256 ∷ value / 16777216 % 256 ∷ []

abbrev pub str_iovec : Text → Text → List Bytes
str_iovec key value = c_string key ∷ c_string value ∷ []

abbrev pub int_iovec : Text → ℕ → List Bytes
int_iovec key value = c_string key ∷ c_int value ∷ []

abbrev pub empty_iovec : Text → List Bytes
empty_iovec key = c_string key ∷ [] ∷ []

-- The addresses that `inet_aton` takes, as it lays them out in memory; the others are left out.
unfoldable pub in_addrs : (Text → Option Bytes) → List Text → Bytes
in_addrs inet_aton [] = []
in_addrs inet_aton (ip ∷ ips) = elim (inet_aton ip) [
  | none ↦ in_addrs inet_aton ips
  | some addr ↦ addr ++ in_addrs inet_aton ips
]

abbrev pub addr_iovec : (Text → Option Bytes) → List Text → List Bytes
addr_iovec inet_aton ips = c_string (codes "ip4.addr") ∷ in_addrs inet_aton ips ∷ []

abbrev pub zeros : ℕ → Bytes
zeros zero = []
zeros (suc n) = 0 ∷ zeros n

-- The buffer for the kernel's message.
abbrev pub errmsg_iovec : List Bytes
errmsg_iovec = codes "errmsg\0" ∷ zeros 256 ∷ []

-- The first test of the loop of `json_to_iovec`.
abbrev pub address_part : (Text → Option Bytes) → Value → List Bytes
address_part inet_aton (text value) = addr_iovec inet_aton (value ∷ [])
address_part inet_aton (addresses ips) = addr_iovec inet_aton ips
address_part inet_aton (number value) = []
address_part inet_aton (flag value) = []

-- The second: a bool is an int in Python, so the branch for bool is not reached.
abbrev pub value_part : Text → Value → List Bytes
value_part key (text value) = str_iovec key value
value_part key (number value) = int_iovec key value
value_part key (flag value) = int_iovec key (if value then 1 else 0)
value_part key (addresses ips) = []

abbrev pub param_iovecs : (Text → Option Bytes) → String → Value → List Bytes
param_iovecs inet_aton key value =
    (if key == "ip4.addr" then address_part inet_aton value else []) ++ value_part (codes key) value

unfoldable pub params_iovecs : (Text → Option Bytes) → JailParams → List Bytes
params_iovecs inet_aton [] = []
params_iovecs inet_aton ((key, value) ∷ params) =
    param_iovecs inet_aton key value ++ params_iovecs inet_aton params

unfoldable pub json_to_iovec : (Text → Option Bytes) → JailParams → List Bytes
json_to_iovec inet_aton params = params_iovecs inet_aton params ++ errmsg_iovec
