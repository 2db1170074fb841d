-- ===== src/Worker/Calls.antt =====
-- kqueue_parent.py: the calls that the worker makes outside, and the requests that register a
-- container with the server. A block of code is the calls it has made, in order, and how it ends.
pub mod Registration
use dockermock.Prelude.{
  ℕ, Bool, true, false, Option, none, some, List, [], ◌∷◌, ◌++◌, if◌then◌else◌, ◌==◌, nat_eq,
  string_eq, Result, ok, raise, Exc, value_error, exception,
}
use Prim.Native.String.{String}
use dockermock.Prelude.Text.{Text, codes}

-- A port of a container; `rdr` is set when it is registered for a network.
pub record Port : Type 0 where
  pub host : ℕ
  pub container : ℕ
  pub proto : String

-- A network of a container in the server's JSON; `ip` is none for the text "None".
pub record Net : Type 0 where
  pub name : Text
  pub driver : String
  pub ip : Option ℕ
  pub subnet : ℕ
  pub prefix : ℕ

pub data Call : Type 0 where
  get_container create_jail destroy_jail : Text → Call
  post_subnet : Text → ℕ → ℕ → Call
  post_dns : Text → Text → ℕ → Call
  post_ports : Text → Option ℕ → List Port → Call
  post_exit_code : Text → ℕ → Call
  fork : Call
  wait : ℕ → Call

-- What a call returns, or raises: the status of a request; the id of a jail, none where it is
-- negative; the pid of the child, none for the -1 of a `rfork` that fails; the exit code of a process.
pub record World (D : Type 0) : Type 0 where
  pub get : Text → Result (Option D)
  pub post : Call → Result ℕ
  pub create : Text → Result (Option ℕ)
  pub destroy : Text → Result (Unit {0})
  pub child_pid : Option ℕ
  pub exit_code : ℕ → Result ℕ

pub record Act (A : Type 0) : Type 0 where
  pub calls : List Call
  pub result : Result A

abbrev pub after : {A : Type 0} → List Call → Act A → Act A
after before a = record { calls = before ++ a.calls; result = a.result }

abbrev pub continue_with : {A B : Type 0} → Result A → (A → Act B) → Act B
continue_with (raise e) f = record { calls = []; result = raise e }
continue_with (ok a) f = f a

infixl 5 ◌>>=◌ ◌>>◌
abbrev pub ◌>>=◌ : {A B : Type 0} → Act A → (A → Act B) → Act B
a >>= f = after a.calls (continue_with a.result f)

abbrev pub ◌>>◌ : {A B : Type 0} → Act A → Act B → Act B
a >> b = a >>= λ _. b

abbrev pub pure : {A : Type 0} → A → Act A
pure a = record { calls = []; result = ok a }

abbrev pub failure : {A : Type 0} → Exc → Act A
failure e = record { calls = []; result = raise e }

abbrev pub call : {A : Type 0} → Call → Result A → Act A
call c r = record { calls = c ∷ []; result = r }

module _ {D : Type 0} (world : World D) where
  abbrev pub register_subnet : Text → ℕ → ℕ → Act ℕ
  register_subnet network subnet prefix =
      call (post_subnet network subnet prefix) (world.post (post_subnet network subnet prefix))

  abbrev pub register_dns_entry : Text → Text → ℕ → Act ℕ
  register_dns_entry network domain ip =
      call (post_dns network domain ip) (world.post (post_dns network domain ip))

  -- `if res != 201: raise Exception(...)`
  abbrev pub expect_created : ℕ → Act (Unit {0})
  expect_created status = if status == 201 then pure tt else failure exception

  -- network.get('name') or 'default'
  abbrev pub net_if : Net → Text
  net_if network = elim network.name [ [] ↦ codes "default" | c ∷ s ↦ c ∷ s ]

  -- ip_interface of the text "None" is a ValueError.
  abbrev pub interface_ip : Net → Act ℕ
  interface_ip network = elim network.ip [ none ↦ failure value_error | some ip ↦ pure ip ]

  -- One round of the loop of `register_jail_network`.
  unfoldable pub register_network : Text → Net → Act (Unit {0})
  register_network name network = do
    ip ← interface_ip network
    status ← register_subnet (net_if network) network.subnet network.prefix
    expect_created status
    status ← register_dns_entry (net_if network) name ip
    expect_created status

  unfoldable pub register_networks : Text → List Net → Act (Unit {0})
  register_networks name [] = pure tt
  register_networks name (network ∷ networks) = do
    register_network name network
    register_networks name networks

  unfoldable pub register_jail_network : Text → List Net → Act (Unit {0})
  register_jail_network name [] = pure tt
  register_jail_network name (network ∷ networks) =
      if network.driver == "host" then pure tt else register_networks name (network ∷ networks)

  -- An exception of the request is caught.
  unfoldable pub register_ports : Net → List Port → Act (Unit {0})
  register_ports network ports = record {
    calls = post_ports network.name network.ip ports ∷ [];
    result = ok tt;
  }

  unfoldable pub register_all_ports : List Net → List Port → Act (Unit {0})
  register_all_ports [] ports = pure tt
  register_all_ports (network ∷ networks) ports = do
    register_ports network ports
    register_all_ports networks ports

  -- notity_status
  abbrev pub notify_status : Text → ℕ → Act ℕ
  notify_status name exit_code =
      call (post_exit_code name exit_code) (world.post (post_exit_code name exit_code))
