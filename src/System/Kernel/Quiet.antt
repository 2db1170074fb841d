-- ===== src/System/Kernel/Quiet.antt =====
-- The interfaces that a log of calls has created, and code that creates none.
use dockermock.Prelude.{
  ℕ, ◌≡◌, refl, ◌∙◌, ◌⊎◌, inl, inr, Bool, true, false, List, [], ◌∷◌, if◌then◌else◌, ◌==◌, nat_eq,
  Bool-cases, Exc,
}
use dockermock.Prelude.Text.{Text}
use dockermock.System.Effect.{M, ◌>>=◌, pure, throw, raise_when, catch_os, when, for_each}
use dockermock.System.Effect.Follows.{
  IsPreorder, Follows, Follows-pure, Follows-throw, Follows-raise_when, Follows-bind,
  Follows-catch_os, Follows-when, Follows-for_each,
}
use dockermock.System.Kernel.{Kernel, SysCall, Answer, Sys, Log, invoke, open_unless, close_unless}

abbrev pub is_create : SysCall → Bool
is_create (SysCall.siocifcreate2 base) = true
is_create c = false

-- The names of the interfaces that were created, the latest first.
unfoldable pub created : Log → List Text
created [] = []
created ((c, r) ∷ log) =
    if is_create c then (if r.res == 0 then r.name ∷ created log else created log) else created log

pub created-create :
    (base : List ℕ) (r : Answer) (log : Log)
    → (r.res == 0) ≡ true
    → created ((SysCall.siocifcreate2 base, r) ∷ log) ≡ r.name ∷ created log
unfolding created
created-create base r log made = rw made

pub created-failed :
    (base : List ℕ) (r : Answer) (log : Log)
    → (r.res == 0) ≡ false
    → created ((SysCall.siocifcreate2 base, r) ∷ log) ≡ created log
unfolding created
created-failed base r log failed = rw failed

-- The call was made.
unfoldable pub Called : SysCall → Log → Type 0
Called c [] = ⊥
Called c ((d, r) ∷ log) = (c ≡ d) ⊎ Called c log

-- No interface is created, and calls are only added.
pub record IsQuiet (s s' : Sys) : Type 0 where
  pub none_created : created s'.log ≡ created s.log
  pub kept : (c : SysCall) → Called c s.log → Called c s'.log

pub quiet : IsPreorder IsQuiet
quiet = record {
  same = λ s. record { none_created = refl; kept = λ c h. h };
  next = λ s t u p q. record {
    none_created = q.none_created ∙ p.none_created;
    kept = λ c h. q.kept c (p.kept c h);
  };
}

pub IsQuiet-bind :
    {A B : Type 0} {m : M Sys A} {f : A → M Sys B}
    → Follows IsQuiet m
    → ((a : A) → Follows IsQuiet (f a))
    → Follows IsQuiet (m >>= f)
IsQuiet-bind first rest = Follows-bind quiet first rest

pub IsQuiet-pure : {A : Type 0} (a : A) → Follows IsQuiet (pure a)
IsQuiet-pure a = Follows-pure quiet a

pub IsQuiet-when :
    (b : Bool) {m : M Sys (Unit {0})} → Follows IsQuiet m → Follows IsQuiet (when b m)
IsQuiet-when b h = Follows-when quiet b h

pub IsQuiet-raise_when : (b : Bool) (e : Exc) → Follows IsQuiet (raise_when b e)
IsQuiet-raise_when b e = Follows-raise_when quiet b e

pub IsQuiet-throw : {A : Type 0} (e : Exc) → Follows IsQuiet (throw {A = A} e)
IsQuiet-throw e = Follows-throw quiet e

pub IsQuiet-catch_os :
    {A : Type 0} {m : M Sys A} {f : ℕ → M Sys A}
    → Follows IsQuiet m
    → ((n : ℕ) → Follows IsQuiet (f n))
    → Follows IsQuiet (catch_os m f)
IsQuiet-catch_os first rest = Follows-catch_os quiet first rest

pub IsQuiet-for_each :
    {A : Type 0} (f : A → M Sys (Unit {0})) (l : List A)
    → ((a : A) → Follows IsQuiet (f a))
    → Follows IsQuiet (for_each f l)
IsQuiet-for_each f l h = Follows-for_each quiet f l h

module _ (kernel : Kernel) where
  pub IsQuiet-invoke : (c : SysCall) → is_create c ≡ false → Follows IsQuiet (invoke kernel c)
  unfolding invoke created Called
  IsQuiet-invoke c other = record {
    at = λ s. record { none_created = rw other; kept = λ d h. inr h };
  }

  pub IsQuiet-open_unless : (sock : Bool) → Follows IsQuiet (open_unless kernel sock)
  unfolding open_unless invoke ◌>>=◌ created Called
  IsQuiet-open_unless true = IsQuiet-pure tt
  IsQuiet-open_unless false = record {
    at = λ s. elim (Bool-cases ((kernel s.log SysCall.open_socket).res == 0)) [
      | inl done ↦ rw done (record { none_created = refl; kept = λ d h. inr h })
      | inr failed ↦ rw failed (record { none_created = refl; kept = λ d h. inr h })
    ];
  }

pub IsQuiet-close_unless : (sock : Bool) → Follows IsQuiet (close_unless sock)
unfolding close_unless
IsQuiet-close_unless true = record { at = λ s. record { none_created = refl; kept = λ d h. h } }
IsQuiet-close_unless false = record { at = λ s. record { none_created = refl; kept = λ d h. h } }

pub ruleset quiets = (
  IsQuiet-bind, IsQuiet-pure, IsQuiet-when, IsQuiet-raise_when, IsQuiet-throw, IsQuiet-catch_os,
  IsQuiet-for_each, IsQuiet-invoke, IsQuiet-open_unless, IsQuiet-close_unless,
)
