-- ===== src/Prelude/Results.antt =====
-- Code that may raise: a result is a value or one of Python's exceptions.
use Prim.Native.Nat.{ℕ}
use mathlib.Core.Path.{◌≡◌, refl}
use mathlib.Core.Bool.{Bool, true, false}

pub data Exc : Type 0 where
  value_error type_error attribute_error name_error key_error unbound_local_error : Exc
  integrity_error stop_iteration index_error broken_pipe exception : Exc
  os_error : ℕ → Exc

pub data Result {ℓ} (A : Type ℓ) : Type ℓ where
  raise : Exc → Result A
  ok : A → Result A

infixl 5 ◌>>◌ ◌>>=◌
abbrev pub ◌>>=◌ {ℓ κ} : {A : Type ℓ} {B : Type κ} → Result A → (A → Result B) → Result B
raise exc >>= rest = raise exc
ok value >>= rest = rest value

abbrev pub ◌>>◌ {ℓ κ} : {A : Type ℓ} {B : Type κ} → Result A → Result B → Result B
first >> next = first >>= λ _. next

-- `if c: raise e`
abbrev pub raise_if : Bool → Exc → Result (Unit {0})
raise_if false exc = ok tt
raise_if true exc = raise exc

-- What a block that succeeds has computed first.
pub >>=-eq-ok {ℓ κ} :
    {A : Type ℓ} {B : Type κ} {b : B} (first : Result A) (rest : A → Result B)
    → (first >>= rest) ≡ ok b
    → (a : A) × (first ≡ ok a) × (rest a ≡ ok b)
>>=-eq-ok (raise exc) rest h = cc
>>=-eq-ok (ok value) rest h = (value, refl, h)

pub ok-injective {ℓ} : {A : Type ℓ} {a b : A} → ok a ≡ ok b → a ≡ b
ok-injective e = cc
