-- ===== src/System/Iovec/Reading.antt =====
-- How the kernel reads the array: pairs of a name that ends in NUL and a value.
use Prim.Native.String.{String}
use dockermock.Prelude.{
  ℕ, ◌+◌, ◌*◌, ◌<◌, ◌^◌, ◌≡◌, ◌≢◌, false, Option, none, some, List, [], ◌∷◌, if◌then◌else◌, ◌==◌,
  ltb, ◌-◌, string_eq, nat_eq, All,
}
use dockermock.Prelude.Text.{Text, codes}
use dockermock.Prelude.Utf8.{Bytes, encode}
use dockermock.Worker.Jails.Config.{Value, text, number, flag, addresses, JailParams}
use dockermock.System.Iovec.{zeros}

-- The array as pairs; none for an odd number of iovecs.
unfoldable pub read_pairs : List Bytes → Option (List (Bytes × Bytes))
read_pairs [] = some []
read_pairs (key ∷ []) = none
read_pairs (key ∷ value ∷ rest) = elim (read_pairs rest) [
  | none ↦ none
  | some pairs ↦ some ((key, value) ∷ pairs)
]

-- The bytes before the first NUL.
unfoldable pub read_string : Bytes → Bytes
read_string [] = []
read_string (b ∷ bytes) = if b == 0 then [] else b ∷ read_string bytes

-- A C int: n, or - n - 1.
pub data ℤ : Type 0 where
  pos negsuc : ℕ → ℤ

-- Bytes as a number without a sign, the lowest first.
unfoldable pub read_unsigned : Bytes → ℕ
read_unsigned [] = 0
read_unsigned (b ∷ bytes) = b + 256 * read_unsigned bytes

-- Two's complement: from 2 ^ 31 on, four bytes stand for a negative number.
abbrev pub signed : ℕ → ℤ
signed n = if ltb n (2 ^ 31) then pos n else negsuc (2 ^ 32 - 1 - n)

-- The four bytes of an int.
abbrev pub read_int : Bytes → ℤ
read_int bytes = signed (read_unsigned bytes)

-- What the kernel has to find for a parameter.
pub Holds : String → Value → Bytes × Bytes → Type 0
Holds key (text value) pair =
    (read_string pair.0 ≡ encode (codes key)) × (read_string pair.1 ≡ encode value)
Holds key (number value) pair =
    (read_string pair.0 ≡ encode (codes key)) × (read_int pair.1 ≡ pos value)
Holds key (flag value) pair =
    (read_string pair.0 ≡ encode (codes key)) × (read_int pair.1 ≡ pos (if value then 1 else 0))
Holds key (addresses ips) pair = ⊥

-- No NUL in the texts, numbers that a signed int of 32 bits holds, and no addresses.
unfoldable pub IsPassable : String × Value → Type 0
IsPassable (key, text value) =
    (((key == "ip4.addr") ≡ false) × All (λ c. c ≢ 0) (encode (codes key)))
    × All (λ c. c ≢ 0) (encode value)
IsPassable (key, number value) =
    (((key == "ip4.addr") ≡ false) × All (λ c. c ≢ 0) (encode (codes key))) × (value < 2 ^ 31)
IsPassable (key, flag value) =
    (((key == "ip4.addr") ≡ false) × All (λ c. c ≢ 0) (encode (codes key))) × Unit {0}
IsPassable (key, addresses ips) = ⊥

-- The kernel's pairs are the parameters, in order, and the pair for its message.
pub AreRead : JailParams → List (Bytes × Bytes) → Type 0
AreRead [] [] = ⊥
AreRead [] (pair ∷ []) = pair ≡ (codes "errmsg\0", zeros 256)
AreRead [] (pair ∷ other ∷ pairs) = ⊥
AreRead (param ∷ params) [] = ⊥
AreRead (param ∷ params) (pair ∷ pairs) = Holds param.0 param.1 pair × AreRead params pairs
