-- ===== src/Manager/Stopping/Waiting.antt =====
-- How `stop_jail` ends: its loop, and its failure where there is no file with a pid.
use dockermock.Prelude.{
  ◌≡◌, ◌⊎◌, refl, ◌∙◌, ap, ℕ, zero, suc, ◌<◌, true, false, some, List, [], ◌∷◌, ◌==◌, nat_eq, inl,
  inr, All, Bool-cases, arith, Exc, os_error, Result, ok, raise,
}
use dockermock.Prelude.Text.{Text}
use dockermock.System.Effect.{M, ◌>>=◌, pure, throw, when, and_then}
use dockermock.System.Kernel.{Kernel, SysCall, Answer, Sys, Log, invoke}
use dockermock.System.Links.{get_jail_id_by_name}
use dockermock.System.Pf.{Library}
use dockermock.Manager.Store.{Container}
use dockermock.Manager.Containers.{JailManager, find_container, is_active}
use dockermock.Manager.Ports.{PortMap}
use dockermock.Manager.Stopping.{
  Host, on_sys, pid_path, call_or_raise, kill_jail, wait_removed, stop_active, stop_jail,
}

module _ (kernel : Kernel) where
  -- The state after a call.
  abbrev pub called : SysCall → Sys → Sys
  called c s = record { sockets = s.sockets; log = (c, kernel s.log c) ∷ s.log; fs = s.fs }

  abbrev pub asked : Text → Sys → Sys
  asked name s = called (SysCall.jail_get name) s

  -- The answer to the question for the jail, and the two ways on.
  wait_removed-gone :
      (n c : ℕ) (name : Text) (s : Sys)
      → ((kernel s.log (SysCall.jail_get (c ∷ name))).res == 0) ≡ false
      → wait_removed kernel (suc n) (c ∷ name) s ≡ (ok true, asked (c ∷ name) s)
  unfolding wait_removed get_jail_id_by_name invoke ◌>>=◌ pure
  wait_removed-gone n c name s gone = rw gone refl

  wait_removed-there :
      (n c : ℕ) (name : Text) (s : Sys)
      → ((kernel s.log (SysCall.jail_get (c ∷ name))).res == 0) ≡ true
      → wait_removed kernel (suc n) (c ∷ name) s
        ≡ wait_removed kernel n (c ∷ name) (called SysCall.sleep_second (asked (c ∷ name) s))
  unfolding wait_removed get_jail_id_by_name invoke ◌>>=◌ pure
  wait_removed-there n c name s there = rw there refl

  -- After a number of rounds, in each of which the question was put and a second was slept.
  unfoldable pub after_rounds : ℕ → Text → Sys → Sys
  after_rounds zero name s = s
  after_rounds (suc k) name s = after_rounds k name (called SysCall.sleep_second (asked name s))

  -- What the kernel answers to the questions of these rounds.
  unfoldable pub answers : ℕ → Text → Sys → List Answer
  answers zero name s = []
  answers (suc k) name s =
      kernel s.log (SysCall.jail_get name)
      ∷ answers k name (called SysCall.sleep_second (asked name s))

  -- With any number of rounds, a name that is not empty and whatever the kernel answers, the loop of
  -- `stop_jail` ends with no exception. It goes through some rounds in which the kernel finds the jail,
  -- each a question and a second of sleep, and then: either these are all the rounds, and it tells that
  -- the jail is not gone; or they are fewer, the next question fails, and it tells that the jail is
  -- gone, with no more calls.
  pub wait_removed-ends :
      (rounds c : ℕ) (name : Text) (s : Sys)
      → (k : ℕ) × All (λ r. (r.res == 0) ≡ true) (answers k (c ∷ name) s)
        × (((k ≡ rounds)
              × (wait_removed kernel rounds (c ∷ name) s ≡ (ok false, after_rounds k (c ∷ name) s)))
            ⊎ ((k < rounds)
                × (((kernel (after_rounds k (c ∷ name) s).log (SysCall.jail_get (c ∷ name))).res
                      == 0)
                    ≡ false)
                × (wait_removed kernel rounds (c ∷ name) s
                    ≡ (ok true, asked (c ∷ name) (after_rounds k (c ∷ name) s)))))
  unfolding after_rounds answers
  wait_removed-ends zero c name s = (0, tt, inl (refl, unfold wait_removed pure in refl))
  wait_removed-ends (suc n) c name s =
      elim (Bool-cases ((kernel s.log (SysCall.jail_get (c ∷ name))).res == 0)) [
        | inr gone ↦ (0, tt, inr (omega arith, gone, wait_removed-gone n c name s gone))
        | inl there ↦
            let s' = called SysCall.sleep_second (asked (c ∷ name) s) in
            let (k, seen, ends) = wait_removed-ends n c name s' in
            let round = wait_removed-there n c name s there in
            (
              suc k,
              (there, seen),
              elim ends [
                | inl (all, told) ↦ inl (ap suc all, round ∙ told)
                | inr (few, gone, told) ↦ inr (omega arith, gone, round ∙ told)
              ],
            )
      ]

  -- A call that fails is raised, and one that does not goes on.
  call_or_raise-failed :
      (c : SysCall) (s : Sys)
      → ((kernel s.log c).res == 0) ≡ false
      → call_or_raise kernel c s ≡ (raise (os_error (kernel s.log c).errno), called c s)
  unfolding call_or_raise invoke ◌>>=◌ throw
  call_or_raise-failed c s failed = rw failed refl

  call_or_raise-ok :
      (c : SysCall) (s : Sys)
      → ((kernel s.log c).res == 0) ≡ true
      → call_or_raise kernel c s ≡ (ok (kernel s.log c), called c s)
  unfolding call_or_raise invoke ◌>>=◌ pure
  call_or_raise-ok c s done = rw done refl

  module _ (name path : Text) (errno : ℕ)
      (closed : (log : Log) → ((kernel log (SysCall.open_file path)).res == 0) ≡ false)
      (code : (log : Log) → (kernel log (SysCall.open_file path)).errno ≡ errno)
      (removed : (log : Log) → ((kernel log (SysCall.run_jail_r name)).res == 0) ≡ true) where
    kill_jail-closed : (s : Sys) → (kill_jail kernel name path s).0 ≡ raise (os_error errno)
    unfolding kill_jail invoke ◌>>=◌ when pure
    kill_jail-closed s =
        let s1 = called (SysCall.path_exists path) s in
        let s2 = called (SysCall.run_jail_r name) s1 in
        elim (Bool-cases ((kernel s.log (SysCall.path_exists path)).res == 1)) [
          | inl there ↦ rw there (
              rw (call_or_raise-failed (SysCall.open_file path) s1 (closed s1.log))
                (ap (λ n. raise (os_error n)) (code s1.log)))
          | inr missing ↦ rw missing (
              rw (call_or_raise-ok (SysCall.run_jail_r name) s1 (removed s1.log)) (
                rw (call_or_raise-failed (SysCall.open_file path) s2 (closed s2.log))
                  (ap (λ n. raise (os_error n)) (code s2.log))))
        ]

-- An exception of the system is the end of what is done on the host.
on_sys-raised :
    {A B : Type 0} (m : M Sys A) (f : A → M Host B) (h : Host) (e : Exc)
    → (m h.sys).0 ≡ raise e
    → (((on_sys m >>= f) h).0 ≡ raise e) × (((on_sys m >>= f) h).1.pf ≡ h.pf)
unfolding on_sys ◌>>=◌
on_sys-raised {A} {B} m f h e raised = of (m h.sys) raised
  where
    of :
        (r : Result A × Sys)
        → r.0 ≡ raise e
        → let r' = and_then (r.0, record { sys = r.1; pf = h.pf }) f in
          (r'.0 ≡ raise e) × (r'.1.pf ≡ h.pf)
    of (raise e', s) same = (cc, refl)
    of (ok a, s) same = absurd (cc)

-- Where the file with the pid of an active container cannot be opened, `jail -r` does not fail and the
-- kernel gives the errno of it: `stop_jail` raises that error, and no rule of a port is removed.
pub stop_jail-no_file :
    (kernel : Kernel) (library : Library) (dev : Result ℕ) (ports_of : Text → Result (List PortMap))
    (name : Text) (row : Container) (m : JailManager) (errno : ℕ) (h : Host)
    → find_container name m ≡ some row
    → is_active row ≡ true
    → ((log : Log) → ((kernel log (SysCall.open_file (pid_path row.gid))).res == 0) ≡ false)
    → ((log : Log) → (kernel log (SysCall.open_file (pid_path row.gid))).errno ≡ errno)
    → ((log : Log) → ((kernel log (SysCall.run_jail_r name)).res == 0) ≡ true)
    → let (r, h') = stop_jail kernel library dev ports_of name m h in
      (r ≡ raise (os_error errno)) × (h'.pf ≡ h.pf)
unfolding stop_jail
stop_jail-no_file kernel library dev ports_of name row m errno h found active closed code removed =
    rw (stop_jail, found, active)
      (unfold stop_active in
        on_sys-raised (kill_jail kernel name (pid_path row.gid)) _ h (os_error errno)
          (kill_jail-closed kernel name (pid_path row.gid) errno closed code removed h.sys))
