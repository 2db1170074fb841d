-- ===== src/Worker/Jails/Quiet.antt =====
-- The calls that register a container destroy no jail.
use dockermock.Prelude.{
  ◌≡◌, refl, ◌∙◌, List, [], ◌∷◌, ◌++◌, ◌==◌, nat_eq, string_eq, arith, Result, ok, raise, inl, inr,
  Bool-cases,
}
use dockermock.Prelude.Text.{Text}
use dockermock.Worker.Calls.{
  Net, Port, Call, World, Act, ◌>>=◌, continue_with, destroy_jail, fork, register_network,
  register_networks, register_jail_network, register_ports, register_all_ports,
}
use dockermock.Worker.Jails.{ContainerData, register_all}

-- The names of the jails that the calls destroy.
unfoldable pub destroyed_names : List Call → List Text
destroyed_names [] = []
destroyed_names (c ∷ calls) = names c (destroyed_names calls)
  where
    names : Call → List Text → List Text
    names (Call.destroy_jail name) rest = name ∷ rest
    names other rest = rest

pub destroyed_names-append :
    (a b : List Call) → destroyed_names a ≡ [] → destroyed_names (a ++ b) ≡ destroyed_names b
unfolding destroyed_names
destroyed_names-append [] b h = refl
destroyed_names-append (destroy_jail name ∷ a) b h = absurd cc
destroyed_names-append (Call.get_container name ∷ a) b h = destroyed_names-append a b h
destroyed_names-append (Call.create_jail name ∷ a) b h = destroyed_names-append a b h
destroyed_names-append (Call.post_subnet n s p ∷ a) b h = destroyed_names-append a b h
destroyed_names-append (Call.post_dns n d i ∷ a) b h = destroyed_names-append a b h
destroyed_names-append (Call.post_ports n i ps ∷ a) b h = destroyed_names-append a b h
destroyed_names-append (Call.post_exit_code n c ∷ a) b h = destroyed_names-append a b h
destroyed_names-append (fork ∷ a) b h = destroyed_names-append a b h
destroyed_names-append (Call.wait p ∷ a) b h = destroyed_names-append a b h

-- A block that destroys no jail.
abbrev pub IsQuiet : {A : Type 0} → Act A → Type 0
IsQuiet a = destroyed_names a.calls ≡ []

-- What follows a block.
continue_with-IsQuiet :
    {A B : Type 0} (calls : List Call) (r : Result A) (f : A → Act B)
    → destroyed_names calls ≡ []
    → ((x : A) → IsQuiet (f x))
    → destroyed_names (calls ++ (continue_with r f).calls) ≡ []
continue_with-IsQuiet calls (raise e) f h k =
    destroyed_names-append calls [] h ∙ unfold destroyed_names in refl
continue_with-IsQuiet calls (ok x) f h k = destroyed_names-append calls (f x).calls h ∙ k x

pub bind-IsQuiet :
    {A B : Type 0} (a : Act A) (f : A → Act B)
    → IsQuiet a
    → ((x : A) → IsQuiet (f x))
    → IsQuiet (a >>= f)
bind-IsQuiet a f h k = continue_with-IsQuiet a.calls a.result f h k

module _ (world : World ContainerData) where
  register_network-IsQuiet :
      (name : Text) (network : Net) → IsQuiet (register_network world name network)
  unfolding register_network destroyed_names
  register_network-IsQuiet name network = ground arith

  register_networks-IsQuiet :
      (name : Text) (networks : List Net) → IsQuiet (register_networks world name networks)
  unfolding register_networks destroyed_names
  register_networks-IsQuiet name [] = refl
  register_networks-IsQuiet name (network ∷ networks) =
      bind-IsQuiet (register_network world name network)
        (λ _. register_networks world name networks) (register_network-IsQuiet name network)
        (λ _. register_networks-IsQuiet name networks)

  register_jail_network-IsQuiet :
      (name : Text) (networks : List Net) → IsQuiet (register_jail_network world name networks)
  unfolding register_jail_network destroyed_names
  register_jail_network-IsQuiet name [] = refl
  register_jail_network-IsQuiet name (network ∷ networks) =
      elim (Bool-cases (network.driver == "host")) [
        | inl host ↦ rw (register_jail_network, host)
        | inr bridged ↦
            rw (register_jail_network, bridged)
              (register_networks-IsQuiet name (network ∷ networks))
      ]

  register_all_ports-IsQuiet :
      (networks : List Net) (ports : List Port) → IsQuiet (register_all_ports world networks ports)
  unfolding register_all_ports register_ports destroyed_names
  register_all_ports-IsQuiet [] ports = refl
  register_all_ports-IsQuiet (network ∷ networks) ports =
      bind-IsQuiet (register_ports world network ports)
        (λ _. register_all_ports world networks ports) refl
        (λ _. register_all_ports-IsQuiet networks ports)

  pub register_all-IsQuiet :
      (name : Text) (networks : List Net) (ports : List Port)
      → IsQuiet (register_all world name networks ports)
  unfolding destroyed_names
  register_all-IsQuiet name [] ports = refl
  register_all-IsQuiet name (network ∷ networks) [] =
      register_jail_network-IsQuiet name (network ∷ networks)
  register_all-IsQuiet name (network ∷ networks) (port ∷ ports) =
      bind-IsQuiet (register_jail_network world name (network ∷ networks))
        (λ _. register_all_ports world (network ∷ networks) (port ∷ ports))
        (register_jail_network-IsQuiet name (network ∷ networks))
        (λ _. register_all_ports-IsQuiet (network ∷ networks) (port ∷ ports))
