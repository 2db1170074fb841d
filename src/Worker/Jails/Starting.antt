-- ===== src/Worker/Jails/Starting.antt =====
-- Starting a container: what it adds to the table of jails.
use dockermock.Prelude.{
  ◌≡◌, ◌⊎◌, ℕ, Bool, true, false, Option, none, nat_eq, string_eq, Result, ok, raise, inl, inr,
}
use dockermock.Prelude.Text.{Text}
use dockermock.Worker.Calls.{World, continue_with}
use dockermock.Worker.Jails.{
  ContainerData, Jails, set_jail, start_container, create, or_undo, pid_key, forked,
}

module _ (world : World ContainerData) where
  or_undo-jails :
      (name : Text) (jails jails' : Jails) (pid : Option ℕ) (created : Bool)
      → (forked world name jails created).result ≡ ok (pid, jails')
      → ((pid ≡ none) × (jails' ≡ jails))
        ⊎ ((pid ≡ world.child_pid) × (jails' ≡ set_jail (pid_key world world.child_pid) name jails))
  or_undo-jails name jails jails' pid false e = inl (cc, cc)
  or_undo-jails name jails jails' pid true e = inr (cc, cc)

  forked-jails :
      (name : Text) (jails jails' : Jails) (pid : Option ℕ) (r : Result Bool)
      → (continue_with r (λ created. forked world name jails created)).result ≡ ok (pid, jails')
      → ((pid ≡ none) × (jails' ≡ jails))
        ⊎ ((pid ≡ world.child_pid) × (jails' ≡ set_jail (pid_key world world.child_pid) name jails))
  forked-jails name jails jails' pid (raise x) e = absurd cc
  forked-jails name jails jails' pid (ok created) e = or_undo-jails name jails jails' pid created e

  -- A start that ends well either fails and leaves the table as it was, or returns the pid of
  -- the child and has entered the jail under it.
  pub start_container-jails :
      (name : Text) (config : ContainerData) (jails jails' : Jails) (pid : Option ℕ)
      → (start_container world name config jails).result ≡ ok (pid, jails')
      → ((pid ≡ none) × (jails' ≡ jails))
        ⊎ ((pid ≡ world.child_pid) × (jails' ≡ set_jail (pid_key world world.child_pid) name jails))
  unfolding start_container
  start_container-jails name config jails jails' pid e =
      forked-jails name jails jails' pid (or_undo world name (create world name config)).result e
