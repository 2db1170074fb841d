-- ===== src/Manager/Ports/Calls.antt =====
-- Code that makes calls of the packet filter's library, one after the other.
use dockermock.Prelude.{◌≡◌, refl, List, [], ◌∷◌, ◌++◌, ok}
use dockermock.System.Effect.{M, ◌>>=◌, ◌>>◌, pure, catch_all}
use dockermock.System.Pf.{Pf, PfCall}

-- The calls after those that were made before, the latest first.
abbrev pub made_after : List PfCall → Pf → Pf
made_after [] pf = pf
made_after (call ∷ calls) pf =
    made_after calls (record { opened = pf.opened; calls = call ∷ pf.calls })

-- The code makes these calls, and closes each device that it opens.
pub record Makes (calls : List PfCall) (m : M Pf (Unit {0})) : Type 0 where
  pub at : (pf : Pf) → m pf ≡ (ok tt, made_after calls pf)

pub Makes-pure : Makes [] (pure tt)
unfolding pure
Makes-pure = record { at = λ pf. refl }

made_after-append :
    (cs ds : List PfCall) (pf : Pf) → made_after (cs ++ ds) pf ≡ made_after ds (made_after cs pf)
made_after-append [] ds pf = refl
made_after-append (c ∷ cs) ds pf = made_after-append cs ds _

pub Makes-bind :
    {cs ds : List PfCall} {m n : M Pf (Unit {0})}
    → Makes cs m
    → Makes ds n
    → Makes (cs ++ ds) (m >> n)
unfolding ◌>>=◌
Makes-bind {cs} {ds} {m} {n} first next = record {
  at = λ pf. rw (first.at pf) (rw (made_after-append cs ds pf) (next.at (made_after cs pf)));
}

pub Makes-catch_all :
    {cs : List PfCall} {m : M Pf (Unit {0})} (n : M Pf (Unit {0}))
    → Makes cs m
    → Makes cs (catch_all m n)
unfolding catch_all
Makes-catch_all {cs} {m} n h = record { at = λ pf. rw (h.at pf) refl }

-- The calls for each element, one after the other.
abbrev pub calls_for : {A : Type 0} → (A → List PfCall) → List A → List PfCall
calls_for f [] = []
calls_for f (a ∷ l) = f a ++ calls_for f l
