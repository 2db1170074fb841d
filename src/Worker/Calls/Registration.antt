-- ===== src/Worker/Calls/Registration.antt =====
-- Which requests register a container.
use dockermock.Prelude.{
  ◌≡◌, refl, ◌∙◌, false, none, some, List, [], ◌∷◌, ◌++◌, ◌==◌, nat_eq, string_eq, Result, ok,
  raise, arith,
}
use dockermock.Prelude.Text.{Text}
use dockermock.Worker.Calls.{
  Call, Net, World, Act, ◌>>=◌, post_subnet, post_dns, net_if, register_network, register_networks,
  register_jail_network, continue_with,
}

-- The two requests for a network with an address.
abbrev pub requests_for : {D : Type 0} → World D → Text → Net → List Call
requests_for world name network = elim network.ip [
  | none ↦ []
  | some ip ↦
      post_subnet (net_if world network) network.subnet network.prefix
      ∷ post_dns (net_if world network) name ip
      ∷ []
]

abbrev pub all_requests : {D : Type 0} → World D → Text → List Net → List Call
all_requests world name [] = []
all_requests world name (network ∷ networks) =
    requests_for world name network ++ all_requests world name networks

-- What a block that ends well has done first, and after it.
record Ends {A B : Type 0} (a : Act A) (f : A → Act B) (b : B) : Type 0 where
  first : A
  first_ok : a.result ≡ ok first
  rest_ok : (f first).result ≡ ok b
  calls_made : (a >>= f).calls ≡ a.calls ++ (f first).calls

ends :
    {A B : Type 0} (cs : List Call) (r : Result A) (f : A → Act B) (b : B)
    → (continue_with r f).result ≡ ok b
    → Ends (record { calls = cs; result = r }) f b
ends cs (raise e) f b h = absurd cc
ends cs (ok a) f b h = record { first = a; first_ok = refl; rest_ok = h; calls_made = refl }

module _ {D : Type 0} (world : World D) where
  register_network-ok :
      (name : Text) (network : Net)
      → (register_network world name network).result ≡ ok tt
      → (register_network world name network).calls ≡ requests_for world name network
  unfolding register_network
  register_network-ok name network h = ground arith

  register_networks-ok :
      (name : Text) (networks : List Net)
      → (register_networks world name networks).result ≡ ok tt
      → (register_networks world name networks).calls ≡ all_requests world name networks
  unfolding register_networks
  register_networks-ok name [] h = refl
  register_networks-ok name (network ∷ networks) h =
      let e =
        ends (register_network world name network).calls
          (register_network world name network).result (λ t. register_networks world name networks)
          tt h in
      e.calls_made
      ∙ rw (
        register_network-ok name network e.first_ok,
        register_networks-ok name networks e.rest_ok,
      )

  -- Where the registration of a container's networks ends well and the first one is not the host's:
  -- it has made, for each network in order, the request for its subnet and the one for its name.
  pub register_jail_network-ok :
      (name : Text) (network : Net) (networks : List Net)
      → (network.driver == "host") ≡ false
      → (register_jail_network world name (network ∷ networks)).result ≡ ok tt
      → (register_jail_network world name (network ∷ networks)).calls
        ≡ all_requests world name (network ∷ networks)
  unfolding register_jail_network
  register_jail_network-ok name network networks bridged h =
      rw (register_jail_network, bridged)
        (register_networks-ok name (network ∷ networks) (rw (register_jail_network, bridged) at h))
