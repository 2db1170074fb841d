-- ===== src/Prelude/Utf8.antt =====
-- Python's str.encode() and bytes.decode(): UTF-8, strict.
use dockermock.Prelude.Tests.{ltb, leb, if◌then◌else◌, nat_eq}
use Prim.Native.Nat.{ℕ, zero, suc, ◌+◌, ◌-◌, ◌*◌, ◌/◌, ◌%◌, ◌<◌}
use mathlib.Core.Path.{◌≡◌, refl}
use mathlib.Core.Bool.{Bool, ◌&&◌, ◌||◌}
use mathlib.Core.List.{List, [], ◌∷◌, ◌++◌}
use mathlib.Core.Option.{Option, none, some}
use native.Mathlib.Omega.{arith}
use dockermock.Prelude.Lists.{length, All}
use dockermock.Prelude.Results.{Result, ok, raise, ◌>>=◌, value_error}
use dockermock.Prelude.Text.{Text}

abbrev pub Bytes : Type 0
Bytes = List ℕ

abbrev encode_char : ℕ → Bytes
encode_char c =
    if ltb c 128
    then c ∷ []
    else if ltb c 2048
    then (192 + c / 64) ∷ (128 + c % 64) ∷ []
    else if ltb c 65536
    then (224 + c / 4096) ∷ (128 + c / 64 % 64) ∷ (128 + c % 64) ∷ []
    else (240 + c / 262144) ∷ (128 + c / 4096 % 64) ∷ (128 + c / 64 % 64) ∷ (128 + c % 64) ∷ []

unfoldable pub encode : Text → Bytes
encode [] = []
encode (c ∷ s) = encode_char c ++ encode s

abbrev is_continuation : ℕ → Bool
is_continuation b = leb 128 b && ltb b 192

abbrev within : ℕ → ℕ → ℕ → Bool
within low b high = leb low b && leb b high

-- The first character and the bytes after it, for a first byte below 224.
abbrev decode_two : ℕ → Bytes → Option (ℕ × Bytes)
decode_two b [] = none
decode_two b (b1 ∷ rest) =
    if within 194 b 223 && is_continuation b1
    then some ((b - 192) * 64 + (b1 - 128), rest)
    else none

-- Three bytes: neither an overlong form nor a surrogate.
abbrev decode_three : ℕ → Bytes → Option (ℕ × Bytes)
decode_three b [] = none
decode_three b (b1 ∷ []) = none
decode_three b (b1 ∷ b2 ∷ rest) =
    let c = (b - 224) * 4096 + (b1 - 128) * 64 + (b2 - 128) in
    if is_continuation b1 && is_continuation b2 && (within 2048 c 55295 || within 57344 c 65535)
    then some (c, rest)
    else none

abbrev decode_four : ℕ → Bytes → Option (ℕ × Bytes)
decode_four b [] = none
decode_four b (b1 ∷ []) = none
decode_four b (b1 ∷ b2 ∷ []) = none
decode_four b (b1 ∷ b2 ∷ b3 ∷ rest) =
    let c = (b - 240) * 262144 + (b1 - 128) * 4096 + (b2 - 128) * 64 + (b3 - 128) in
    if is_continuation b1 && is_continuation b2 && is_continuation b3 && within 65536 c 1114111
    then some (c, rest)
    else none

abbrev decode_char : ℕ → Bytes → Option (ℕ × Bytes)
decode_char b rest =
    if ltb b 128
    then some (b, rest)
    else if ltb b 224
    then decode_two b rest
    else if ltb b 240
    then decode_three b rest
    else decode_four b rest

-- Each character takes a byte, so the number of the bytes is enough fuel.
decode_from : ℕ → Bytes → Result Text
decode_from fuel [] = ok []
decode_from zero (b ∷ rest) = raise value_error
decode_from (suc fuel) (b ∷ rest) = elim (decode_char b rest) [
  | none ↦ raise value_error
  | some (c, later) ↦ do s ← decode_from fuel later; ok (c ∷ s)
]

unfoldable pub decode : Bytes → Result Text
unfolding decode_from
decode bytes = decode_from (length bytes) bytes

-- ASCII texts are their bytes.
pub encode_ascii : (s : Text) → All (λ c. c < 128) s → encode s ≡ s
unfolding encode
encode_ascii [] h = refl
encode_ascii (c ∷ s) h = ground (arith, h.0, encode_ascii s h.1)

decode_from_ascii : (s : Text) → All (λ c. c < 128) s → decode_from (length s) s ≡ ok s
unfolding decode_from
decode_from_ascii [] h = refl
decode_from_ascii (c ∷ s) h =
    let one : decode_char c s ≡ some (c, s) = ground (arith, h.0) in
    rw (decode_from, one, decode_from_ascii s h.1)

pub decode_ascii : (s : Text) → All (λ c. c < 128) s → decode s ≡ ok s
decode_ascii s h = unfold decode in decode_from_ascii s h
