-- ===== src/Worker/Jails/Lifetime.antt =====
-- A container from its start to the exit of its child: how often its jail is destroyed.
use dockermock.Prelude.{
  ◌≡◌, ◌≢◌, refl, ◌∙◌, ℕ, Bool, true, false, Option, none, some, List, [], ◌∷◌, ◌++◌, ◌==◌, nat_eq,
  string_eq, arith, Result, ok, raise, inl, inr, Bool-cases, append-nil,
}
use dockermock.Prelude.Text.{Text}
use dockermock.Worker.Calls.{
  Call, World, ◌>>=◌, after, continue_with, destroy_jail, create_jail, post_exit_code, pure, call,
  fork,
}
use dockermock.Worker.Jails.{
  ContainerData, Jails, get_jail, set_jail, create, undo, or_undo, forked, register_all, registered,
  start_container, remove_container,
}
use dockermock.Worker.Jails.Quiet.{
  destroyed_names, destroyed_names-append, IsQuiet, bind-IsQuiet, register_all-IsQuiet,
}
use dockermock.Worker.Jails.Reaping.{
  HasDistinctPids, get-set_jail, set_jail-HasDistinctPids, get_jail-remove_container,
}

module _ (world : World ContainerData) where
  -- Code that ends with `pure true` does not end with false.
  true-result : (r : Result (Unit {0})) → (continue_with r (λ _. pure true)).result ≢ ok false
  true-result (raise e) same = cc
  true-result (ok t) same = cc

  -- The body of the `try`, by what `create_jail` has returned.
  created-IsQuiet :
      (name : Text) (config : ContainerData) (r : Result (Option ℕ))
      → r ≢ ok none
      → let a = call (create_jail name) r >>= registered world name config in
        IsQuiet a × (a.result ≢ ok false)
  unfolding destroyed_names
  created-IsQuiet name config (raise e) h = (refl, λ same. cc)
  created-IsQuiet name config (ok none) h = absurd (h refl)
  created-IsQuiet name config (ok (some jid)) h =
      let all = register_all world name config.networks config.ports in
      (
        bind-IsQuiet all (λ _. pure true)
            (register_all-IsQuiet world name config.networks config.ports) (λ _. refl),
        true-result all.result,
      )

  -- After the start: the exit of the child that it has made, if it has made one.
  abbrev until_exit : List Call → Result (Option ℕ × Jails) → Jails → List Call × Jails
  until_exit calls (raise e) jails = (calls, jails)
  until_exit calls (ok (none, jails')) jails = (calls, jails')
  until_exit calls (ok (some pid, jails')) jails =
      let (later, jails'') = remove_container world pid true jails' in (calls ++ later, jails'')

  -- The calls of a start and of the exit of its child, and the table after them.
  abbrev pub lifetime : Text → ContainerData → Jails → List Call × Jails
  lifetime name config jails =
      let a = start_container world name config jails in until_exit a.calls a.result jails

  -- What `remove_container` calls for a child whose exit it has waited for.
  waited-destroys :
      (pid code : ℕ) (name : Text) (jails : Jails)
      → get_jail pid jails ≡ some name
      → world.exit_code pid ≡ ok code
      → world.destroy name ≡ ok tt
      → destroyed_names (remove_container world pid true jails).0 ≡ name ∷ []
  unfolding remove_container destroyed_names
  waited-destroys pid code name jails found exited gone = rw (remove_container, found, exited, gone)

  module _ (name : Text) (jails : Jails) (pid code q : ℕ) (forks : world.child_pid ≡ some pid)
      (exited : world.exit_code pid ≡ ok code) (gone : world.destroy name ≡ ok tt)
      (distinct : HasDistinctPids jails) (fresh : get_jail pid jails ≡ none) where
    -- Destroyed once, and the table as it was.
    abbrev IsOver : List Call × Jails → Type 0
    IsOver (calls, jails') =
        (destroyed_names calls ≡ name ∷ []) × (get_jail q jails' ≡ get_jail q jails)

    undone_once :
        (calls : List Call)
        → destroyed_names calls ≡ []
        → destroyed_names ((calls ++ destroy_jail name ∷ post_exit_code name 100 ∷ []) ++ [])
          ≡ name ∷ []
    undone_once calls quiet =
        rw (append-nil (calls ++ destroy_jail name ∷ post_exit_code name 100 ∷ [])) (
          destroyed_names-append calls (destroy_jail name ∷ post_exit_code name 100 ∷ []) quiet
          ∙ unfold destroyed_names in refl)

    undone :
        (calls : List Call) (told : Result ℕ)
        → destroyed_names calls ≡ []
        → let a =
            after calls (
              call (destroy_jail name) (ok tt) >>= λ _.
              call (post_exit_code name 100) told >>= λ _. pure false)
            >>= forked world name jails in
          IsOver (until_exit a.calls a.result jails)
    undone calls (raise e) quiet = (undone_once calls quiet, refl)
    undone calls (ok status) quiet = (undone_once calls quiet, refl)

    exited_later :
        (calls : List Call)
        → destroyed_names calls ≡ []
        → IsOver (until_exit (calls ++ fork ∷ []) (ok (some pid, set_jail pid name jails)) jails)
    exited_later calls quiet =
        let there : get_jail pid (set_jail pid name jails) ≡ some name =
          ground (arith, get-set_jail pid pid name jails) in
        let quiet' : destroyed_names (calls ++ fork ∷ []) ≡ [] =
          destroyed_names-append calls (fork ∷ []) quiet ∙ unfold destroyed_names in refl in
        (
          destroyed_names-append (calls ++ fork ∷ []) _ quiet'
              ∙ waited-destroys pid code name (set_jail pid name jails) there exited gone,
          get_jail-remove_container world q pid true (set_jail pid name jails)
                (set_jail-HasDistinctPids pid name jails distinct)
              ∙ rw (there, exited, gone, get-set_jail q pid name jails)
                  (elim (Bool-cases (pid == q)) [
                    | inl same ↦ rw same (ground (arith, fresh))
                    | inr other ↦ rw other
                  ]),
        )

    -- The rest of a start, by how the body of the `try` has ended.
    started :
        (calls : List Call) (r : Result Bool)
        → destroyed_names calls ≡ []
        → r ≢ ok false
        → let a =
            or_undo world name (record { calls = calls; result = r }) >>= forked world name jails in
          IsOver (until_exit a.calls a.result jails)
    started calls (raise e) quiet h =
        unfold undo in rw gone (undone calls (world.post (post_exit_code name 100)) quiet)
    started calls (ok false) quiet h = absurd (h refl)
    started calls (ok true) quiet h = rw forks (exited_later calls quiet)

    -- Where creating the jail does not return a negative id, `rfork` returns a pid that has no jail in a
    -- table with one entry for each child, waiting for that child and destroying the jail succeed:
    -- from the start to the exit of the child, or to the end of a start that makes none, the jail is
    -- destroyed exactly once and no other is, whatever the requests return or raise; and the table has
    -- the jails that it had before.
    pub start_container-lifetime :
        (config : ContainerData)
        → world.create name ≢ ok none
        → let (calls, jails') = lifetime name config jails in
          (destroyed_names calls ≡ name ∷ []) × (get_jail q jails' ≡ get_jail q jails)
    start_container-lifetime config h =
        unfold start_container create in
        (let (quiet, fine) = created-IsQuiet name config (world.create name) h in
          started (create world name config).calls (create world name config).result quiet fine)
