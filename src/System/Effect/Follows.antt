-- ===== src/System/Effect/Follows.antt =====
-- How code changes its state, by a reflexive and transitive relation, whether it raises or not; and
-- code that does not raise.
use dockermock.Prelude.{
  ℕ, Bool, true, false, ◌≡◌, refl, List, [], ◌∷◌, Exc, os_error, Result, ok, raise, All, arith,
}
use dockermock.System.Effect.{
  M, and_then, ◌>>=◌, pure, throw, raise_when, handled, catch_os, handled_all, catch_all, when,
  for_each,
}

pub record IsPreorder {S : Type 0} (R : S → S → Type 0) : Type 0 where
  pub same : (s : S) → R s s
  pub next : (s t u : S) → R s t → R t u → R s u

-- The state after the code is related to the one before.
pub record Follows {S A : Type 0} (R : S → S → Type 0) (m : M S A) : Type 0 where
  pub at : (s : S) → R s (m s).1

module _ {S : Type 0} {R : S → S → Type 0} (p : IsPreorder R) where
  pub Follows-pure : {A : Type 0} (a : A) → Follows R (pure a)
  unfolding pure
  Follows-pure a = record { at = λ s. p.same s }

  pub Follows-throw : {A : Type 0} (e : Exc) → Follows R (throw {A = A} e)
  unfolding throw
  Follows-throw e = record { at = λ s. p.same s }

  pub Follows-raise_when : (b : Bool) (e : Exc) → Follows R (raise_when b e)
  unfolding raise_when
  Follows-raise_when false e = record { at = λ s. p.same s }
  Follows-raise_when true e = record { at = λ s. p.same s }

  Follows-and_then :
      {A B : Type 0} (r : Result A) (s : S) (f : A → M S B)
      → ((a : A) → Follows R (f a))
      → R s (and_then (r, s) f).1
  Follows-and_then (raise e) s f h = p.same s
  Follows-and_then (ok a) s f h = (h a).at s

  pub Follows-bind :
      {A B : Type 0} {m : M S A} {f : A → M S B}
      → Follows R m
      → ((a : A) → Follows R (f a))
      → Follows R (m >>= f)
  unfolding ◌>>=◌
  Follows-bind {A} {B} {m} {f} first rest = record {
    at = λ s. p.next s (m s).1 _ (first.at s) (Follows-and_then (m s).0 (m s).1 f rest);
  }

  Follows-handled :
      {A : Type 0} (r : Result A) (s : S) (f : ℕ → M S A)
      → ((n : ℕ) → Follows R (f n))
      → R s (handled f (r, s)).1
  Follows-handled (ok a) s f h = p.same s
  Follows-handled (raise (os_error n)) s f h = (h n).at s
  Follows-handled (raise Exc.value_error) s f h = p.same s
  Follows-handled (raise Exc.type_error) s f h = p.same s
  Follows-handled (raise Exc.attribute_error) s f h = p.same s
  Follows-handled (raise Exc.name_error) s f h = p.same s
  Follows-handled (raise Exc.key_error) s f h = p.same s
  Follows-handled (raise Exc.unbound_local_error) s f h = p.same s
  Follows-handled (raise Exc.integrity_error) s f h = p.same s
  Follows-handled (raise Exc.stop_iteration) s f h = p.same s
  Follows-handled (raise Exc.index_error) s f h = p.same s
  Follows-handled (raise Exc.broken_pipe) s f h = p.same s
  Follows-handled (raise Exc.exception) s f h = p.same s

  pub Follows-catch_os :
      {A : Type 0} {m : M S A} {f : ℕ → M S A}
      → Follows R m
      → ((n : ℕ) → Follows R (f n))
      → Follows R (catch_os m f)
  unfolding catch_os
  Follows-catch_os {A} {m} {f} first rest = record {
    at = λ s. p.next s (m s).1 _ (first.at s) (Follows-handled (m s).0 (m s).1 f rest);
  }

  Follows-handled_all :
      {A : Type 0} (r : Result A) (s : S) (f : M S A) → Follows R f → R s (handled_all f (r, s)).1
  Follows-handled_all (ok a) s f h = p.same s
  Follows-handled_all (raise e) s f h = h.at s

  pub Follows-catch_all :
      {A : Type 0} {m f : M S A} → Follows R m → Follows R f → Follows R (catch_all m f)
  unfolding catch_all
  Follows-catch_all {A} {m} {f} first rest = record {
    at = λ s. p.next s (m s).1 _ (first.at s) (Follows-handled_all (m s).0 (m s).1 f rest);
  }

  pub Follows-when : (b : Bool) {m : M S (Unit {0})} → Follows R m → Follows R (when b m)
  unfolding when
  Follows-when true h = h
  Follows-when false h = Follows-pure tt

  pub Follows-for_each :
      {A : Type 0} (f : A → M S (Unit {0})) (l : List A)
      → ((a : A) → Follows R (f a))
      → Follows R (for_each f l)
  unfolding for_each
  Follows-for_each f [] h = Follows-pure tt
  Follows-for_each f (a ∷ l) h = Follows-bind (h a) (λ t. Follows-for_each f l h)

-- The code ends with a value.
pub record Returns {S A : Type 0} (m : M S A) : Type 0 where
  pub value : (s : S) → (a : A) × ((m s).0 ≡ ok a)

-- What is raised is an OSError.
pub record RaisesOs {S A : Type 0} (m : M S A) : Type 0 where
  pub os : (s : S) (e : Exc) → (m s).0 ≡ raise e → (n : ℕ) × (e ≡ os_error n)

module _ {S : Type 0} where
  pub Returns-pure : {A : Type 0} (a : A) → Returns {S = S} (pure a)
  unfolding pure
  Returns-pure a = record { value = λ s. (a, refl) }

  pub Returns-bind :
      {A B : Type 0} {m : M S A} {f : A → M S B}
      → Returns m
      → ((a : A) → Returns (f a))
      → Returns (m >>= f)
  unfolding ◌>>=◌
  Returns-bind {A} {B} {m} {f} first rest = record {
    value = λ s. let (a, e) = first.value s in returned a (m s) e;
  }
    where
      returned : (a : A) (r : Result A × S) → r.0 ≡ ok a → (b : B) × ((and_then r f).0 ≡ ok b)
      returned a (ok a', s') e = (rest a').value s'
      returned a (raise x, s') e = absurd cc

  pub Returns-when : (b : Bool) {m : M S (Unit {0})} → Returns m → Returns (when b m)
  unfolding when
  Returns-when true h = h
  Returns-when false h = Returns-pure tt

  pub Returns-for_each :
      {A : Type 0} (P : A → Type 0) (f : A → M S (Unit {0})) (l : List A)
      → ((a : A) → P a → Returns (f a))
      → All P l
      → Returns (for_each f l)
  unfolding for_each
  Returns-for_each P f [] h all = Returns-pure tt
  Returns-for_each P f (a ∷ l) h all =
      Returns-bind (h a all.0) (λ t. Returns-for_each P f l h all.1)

  Returns-handled :
      {A : Type 0} (r : Result A) (s : S) (f : ℕ → M S A)
      → ((e : Exc) → r ≡ raise e → (n : ℕ) × (e ≡ os_error n))
      → ((n : ℕ) → Returns (f n))
      → (a : A) × ((handled f (r, s)).0 ≡ ok a)
  Returns-handled (ok a) s f os h = (a, refl)
  Returns-handled (raise e) s f os h = let (n, e') = os e refl in rw e' ((h n).value s)

  pub Returns-catch_os :
      {A : Type 0} {m : M S A} {f : ℕ → M S A}
      → RaisesOs m
      → ((n : ℕ) → Returns (f n))
      → Returns (catch_os m f)
  unfolding catch_os
  Returns-catch_os {A} {m} {f} first rest = record {
    value = λ s. Returns-handled (m s).0 (m s).1 f (first.os s) rest;
  }

  pub RaisesOs-pure : {A : Type 0} (a : A) → RaisesOs {S = S} (pure a)
  unfolding pure
  RaisesOs-pure a = record { os = λ s e h. cc }

  pub RaisesOs-raise_when : (b : Bool) (n : ℕ) → RaisesOs {S = S} (raise_when b (os_error n))
  unfolding raise_when
  RaisesOs-raise_when false n = record { os = λ s e h. cc }
  RaisesOs-raise_when true n = record { os = λ s e h. (n, cc) }

  RaisesOs-and_then :
      {A B : Type 0} (r : Result A) (s : S) (f : A → M S B) (e : Exc)
      → ((e : Exc) → r ≡ raise e → (n : ℕ) × (e ≡ os_error n))
      → ((a : A) → RaisesOs (f a))
      → (and_then (r, s) f).0 ≡ raise e
      → (n : ℕ) × (e ≡ os_error n)
  RaisesOs-and_then (raise e') s f e first rest h = first e cc
  RaisesOs-and_then (ok a) s f e first rest h = (rest a).os s e h

  pub RaisesOs-bind :
      {A B : Type 0} {m : M S A} {f : A → M S B}
      → RaisesOs m
      → ((a : A) → RaisesOs (f a))
      → RaisesOs (m >>= f)
  unfolding ◌>>=◌
  RaisesOs-bind {A} {B} {m} {f} first rest = record {
    os = λ s e h. RaisesOs-and_then (m s).0 (m s).1 f e (first.os s) rest h;
  }

-- Code whose first part has ended with a value goes on after it.
pub bind-ok :
    {S A B : Type 0} (m : M S A) (f : A → M S B) (s : S) (a : A)
    → (m s).0 ≡ ok a
    → (m >>= f) s ≡ f a (m s).1
unfolding ◌>>=◌
bind-ok m f s a e = go (m s) e
  where
    go : (r : Result _ × _) → r.0 ≡ ok a → and_then r f ≡ f a r.1
    go (ok a', s') e = ground arith
    go (raise x, s') e = absurd cc
