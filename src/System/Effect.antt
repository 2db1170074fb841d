-- ===== src/System/Effect.antt =====
-- Code that changes a state and may raise: the state that it leaves stays when it raises.
pub mod Follows
use dockermock.Prelude.{
  ℕ, Bool, true, false, ◌≡◌, refl, ◌∙◌, List, [], ◌∷◌, Exc, os_error, Result, ok, raise,
}

abbrev pub M : Type 0 → Type 0 → Type 0
M S A = S → Result A × S

module _ {S : Type 0} where
  abbrev pub and_then : {A B : Type 0} → Result A × S → (A → M S B) → Result B × S
  and_then (raise e, s) f = (raise e, s)
  and_then (ok a, s) f = f a s

  infixl 5 ◌>>=◌ ◌>>◌
  unfoldable pub ◌>>=◌ : {A B : Type 0} → M S A → (A → M S B) → M S B
  ◌>>=◌ m f s = and_then (m s) f

  abbrev pub ◌>>◌ : {A B : Type 0} → M S A → M S B → M S B
  m >> n = m >>= λ _. n

  unfoldable pub pure : {A : Type 0} → A → M S A
  pure a s = (ok a, s)

  unfoldable pub throw : {A : Type 0} → Exc → M S A
  throw e s = (raise e, s)

  unfoldable pub raise_when : Bool → Exc → M S (Unit {0})
  raise_when false e s = (ok tt, s)
  raise_when true e s = (raise e, s)

  abbrev pub handled : {A : Type 0} → (ℕ → M S A) → Result A × S → Result A × S
  handled f (ok a, s) = (ok a, s)
  handled f (raise (os_error n), s) = f n s
  handled f (raise e, s) = (raise e, s)

  -- try: m; except OSError as e: f
  unfoldable pub catch_os : {A : Type 0} → M S A → (ℕ → M S A) → M S A
  catch_os m f s = handled f (m s)

  abbrev pub handled_all : {A : Type 0} → M S A → Result A × S → Result A × S
  handled_all f (ok a, s) = (ok a, s)
  handled_all f (raise e, s) = f s

  -- try: m; except Exception: f
  unfoldable pub catch_all : {A : Type 0} → M S A → M S A → M S A
  catch_all m f s = handled_all f (m s)

  -- if b: m
  unfoldable pub when : Bool → M S (Unit {0}) → M S (Unit {0})
  when true m = m
  when false m = pure tt

  -- for a in l: f(a)
  unfoldable pub for_each : {A : Type 0} → (A → M S (Unit {0})) → List A → M S (Unit {0})
  for_each f [] = pure tt
  for_each f (a ∷ l) = f a >> for_each f l
