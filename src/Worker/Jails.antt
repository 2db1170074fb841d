-- ===== src/Worker/Jails.antt =====
-- kqueue_parent.py: JAIL_DICT, the jails of the running children, and the functions that start and
-- reap them. A jail is its name here, and the calls on it are outcomes of the world.
pub mod Config
pub mod Reaping
pub mod Lifetime
pub mod Quiet
pub mod Starting
use dockermock.Prelude.{
  ℕ, Bool, true, false, Option, none, some, List, [], ◌∷◌, ◌++◌, if◌then◌else◌, ◌==◌, nat_eq,
  string_eq, Result, ok, raise, Exc,
}
use Prim.Native.String.{String}
use dockermock.Prelude.Text.{Text, codes}
use dockermock.Worker.Calls.{
  Port, Net, Call, World, Act, ◌>>=◌, ◌>>◌, pure, failure, call, after, continue_with,
  get_container, create_jail, destroy_jail, fork, wait, notify_status, register_jail_network,
  register_all_ports,
}

-- The container's JSON, in the fields that the worker reads.
pub record ContainerData : Type 0 where
  pub name : Text
  pub path : Text
  pub networks : List Net
  pub ports : List Port

-- JAIL_DICT: the name of the jail of each child, in the order of insertion. The key -1, which a
-- `rfork` that fails makes, is 0 here, which is no pid of a child.
abbrev pub Jails : Type 0
Jails = List (ℕ × Text)

-- JAIL_DICT.get(pid)
unfoldable pub get_jail : ℕ → Jails → Option Text
get_jail pid [] = none
get_jail pid ((p, jail) ∷ jails) = if p == pid then some jail else get_jail pid jails

-- JAIL_DICT[pid] = jail
unfoldable pub set_jail : ℕ → Text → Jails → Jails
set_jail pid jail [] = (pid, jail) ∷ []
set_jail pid jail ((p, old) ∷ jails) =
    if p == pid then (p, jail) ∷ jails else (p, old) ∷ set_jail pid jail jails

-- JAIL_DICT.pop(pid)
unfoldable pub pop_jail : ℕ → Jails → Jails
pop_jail pid [] = []
pop_jail pid ((p, jail) ∷ jails) = if p == pid then jails else (p, jail) ∷ pop_jail pid jails

module _ (world : World ContainerData) where
  abbrev pub destroy : Text → Act (Unit {0})
  destroy name = call (destroy_jail name) (world.destroy name)

  -- The ports of the container, registered for each of its networks.
  abbrev pub register_all : Text → List Net → List Port → Act (Unit {0})
  register_all name [] ports = pure tt
  register_all name (network ∷ networks) [] = register_jail_network world name (network ∷ networks)
  register_all name (network ∷ networks) (port ∷ ports) = do
    register_jail_network world name (network ∷ networks)
    register_all_ports world (network ∷ networks) (port ∷ ports)

  -- After `create_jail`: false for `return -1`.
  abbrev pub registered : Text → ContainerData → Option ℕ → Act Bool
  registered name config none = do notify_status world name 100; pure false
  registered name config (some jid) = do register_all name config.networks config.ports; pure true

  -- The body of the `try`.
  unfoldable pub create : Text → ContainerData → Act Bool
  create name config = do
    jid ← call (create_jail name) (world.create name)
    registered name config jid

  -- `except Exception`: an exception of these calls goes on.
  unfoldable pub undo : Text → Act Bool
  undo name = do destroy name; notify_status world name 100; pure false

  abbrev pub or_undo : Text → Act Bool → Act Bool
  or_undo name a = elim a.result [
    | ok created ↦ record { calls = a.calls; result = ok created }
    | raise e ↦ after a.calls (undo name)
  ]

  abbrev pub pid_key : Option ℕ → ℕ
  pid_key none = 0
  pid_key (some pid) = pid

  -- Store the jail and return the child's pid; none for -1, under which the jail is stored too.
  abbrev pub forked : Text → Jails → Bool → Act (Option ℕ × Jails)
  forked name jails false = pure (none, jails)
  forked name jails true =
      call fork (ok (world.child_pid, set_jail (pid_key world.child_pid) name jails))

  unfoldable pub start_container : Text → ContainerData → Jails → Act (Option ℕ × Jails)
  start_container name config jails = do
    created ← or_undo name (create name config)
    forked name jails created

  -- A status other than 200 is none.
  unfoldable pub process_container : Text → Jails → Act (Option ℕ × Jails)
  process_container name jails = do
    res ← call (get_container name) (world.get name)
    elim res [ none ↦ pure (none, jails) | some config ↦ start_container name config jails ]

  -- The end of `remove_container`: the request may raise, which is caught.
  abbrev pub reaped : ℕ → Text → Bool → Jails → ℕ → List Call × Jails
  reaped pid name notify jails exit_code =
      (if notify then (notify_status world name exit_code).calls else [], pop_jail pid jails)

  abbrev pub destroyed : ℕ → Text → Bool → Jails → ℕ → Result (Unit {0}) → List Call × Jails
  destroyed pid name notify jails exit_code (raise e) = ([], jails)
  destroyed pid name notify jails exit_code (ok t) = reaped pid name notify jails exit_code

  abbrev pub waited : ℕ → Text → Bool → Jails → Result ℕ → List Call × Jails
  waited pid name notify jails (raise e) = ([], jails)
  waited pid name notify jails (ok exit_code) =
      let (calls, jails') = destroyed pid name notify jails exit_code (world.destroy name) in
      (destroy_jail name ∷ calls, jails')

  -- Every exception is caught, and leaves the dict as it is then.
  unfoldable pub remove_container : ℕ → Bool → Jails → List Call × Jails
  remove_container pid notify jails = elim (get_jail pid jails) [
    | none ↦ ([], jails)
    | some name ↦
        let (calls, jails') = waited pid name notify jails (world.exit_code pid) in
        (wait pid ∷ calls, jails')
  ]

  -- `clean_all_jails` after the signals to the children, which change no state here: its loop, over
  -- the exits that the kernel reports; none if they end before the dict is empty, where the loop
  -- waits on.
  unfoldable pub clean_all_jails : List ℕ → Jails → Option (List Call)
  clean_all_jails exits [] = some []
  clean_all_jails [] (jail ∷ jails) = none
  clean_all_jails (pid ∷ exits) (jail ∷ jails) =
      let (calls, jails') = remove_container pid false (jail ∷ jails) in
      elim (clean_all_jails exits jails') [ none ↦ none | some later ↦ some (calls ++ later) ]
