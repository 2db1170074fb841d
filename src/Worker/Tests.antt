-- ===== src/Worker/Tests.antt =====
-- Runs of the worker, and its theorems there.
use dockermock.Prelude.{
  ◌≡◌, refl, ℕ, true, ◌&&◌, Option, none, some, [], ◌∷◌, if◌then◌else◌, ok, raise, Result, os_error,
  nat_beq,
}
use dockermock.Prelude.Text.{codes}
use dockermock.Worker.Calls.{
  World, Call, Net, destroy_jail, post_dns, register_jail_network, register_networks,
  register_network,
}
use dockermock.Worker.Calls.Registration.{all_requests, register_jail_network-ok}
use dockermock.Worker.Jails.{
  ContainerData, Jails, get_jail, set_jail, pop_jail, start_container, remove_container,
  clean_all_jails, create, undo,
}
use dockermock.Worker.Jails.Reaping.{
  HasDistinctPids, reaps, get_jail-remove_container, clean_all_jails-stuck,
}
use dockermock.Worker.Jails.Quiet.{destroyed_names}
use dockermock.Worker.Jails.Lifetime.{lifetime, start_container-lifetime}

abbrev answers : Call → Result ℕ
answers (post_dns network domain ip) = ok 400
answers c = ok 201

-- A server that answers 201, and one that refuses the names.
abbrev working : World ContainerData
working = record {
  get = λ name. ok none;
  post = λ c. ok 201;
  create = λ name. ok (some 3);
  destroy = λ name. ok tt;
  child_pid = some 42;
  exit_code = λ pid. ok 0;
}

abbrev refusing : World ContainerData
refusing = record {
  get = λ name. ok none;
  post = answers;
  create = λ name. ok (some 3);
  destroy = λ name. ok tt;
  child_pid = some 42;
  exit_code = λ pid. ok 0;
}

-- A jail that cannot be destroyed.
abbrev broken : World ContainerData
broken = record {
  get = λ name. ok none;
  post = λ c. ok 201;
  create = λ name. ok (some 3);
  destroy = λ name. raise (os_error 16);
  child_pid = some 42;
  exit_code = λ pid. ok 0;
}

abbrev net : Net
net = record {
  name = codes "a";
  driver = "bridge";
  ip = some 167772162;
  subnet = 167772160;
  prefix = 24;
}

abbrev web : ContainerData
web = record {
  name = codes "web";
  path = codes "/jails/containers/0a";
  networks = net ∷ [];
  ports = [];
}

start_runs :
    ((start_container working (codes "web") web []).result ≡ ok (some 42, (42, codes "web") ∷ []))
    × ((start_container refusing (codes "web") web []).result ≡ ok (none, []))
unfolding start_container create undo register_jail_network register_networks register_network
    set_jail
start_runs = (refl, refl)

clean_runs :
    (clean_all_jails working (7 ∷ 42 ∷ []) ((42, codes "web") ∷ [])
      ≡ some (Call.wait 42 ∷ destroy_jail (codes "web") ∷ []))
    × (clean_all_jails broken (42 ∷ 42 ∷ []) ((42, codes "web") ∷ []) ≡ none)
unfolding clean_all_jails remove_container get_jail pop_jail
clean_runs = (refl, refl)

abbrev one_jail : Jails
one_jail = (42, codes "web") ∷ []

one_jail-HasDistinctPids : HasDistinctPids one_jail
unfolding HasDistinctPids get_jail
one_jail-HasDistinctPids = (refl, tt)

web_there : get_jail 42 one_jail ≡ some (codes "web")
unfolding get_jail
web_there = refl

get_jail-remove_container_example : get_jail 42 (remove_container working 42 true one_jail).1 ≡ (
    if reaps working 42 (get_jail 42 one_jail) && nat_beq 42 42 then none else get_jail 42 one_jail)
get_jail-remove_container_example =
    get_jail-remove_container working 42 42 true one_jail one_jail-HasDistinctPids

clean_all_jails-stuck_example : clean_all_jails broken (42 ∷ 7 ∷ []) one_jail ≡ none
clean_all_jails-stuck_example =
    clean_all_jails-stuck broken 42 (codes "web") (os_error 16) (42 ∷ 7 ∷ []) one_jail
      one_jail-HasDistinctPids web_there refl

web_started :
    (start_container working (codes "web") web []).result ≡ ok (some 42, (42, codes "web") ∷ [])
unfolding start_container create register_jail_network register_networks register_network set_jail
web_started = refl

abbrev child : Option ℕ
child = some 42

-- What a start that is undone calls, and one whose child ends later.
lifetime_runs :
    (destroyed_names (lifetime refusing (codes "web") web []).0 ≡ codes "web" ∷ [])
    × (destroyed_names (lifetime working (codes "web") web []).0 ≡ codes "web" ∷ [])
unfolding start_container create undo register_jail_network register_networks register_network
    set_jail remove_container get_jail destroyed_names
lifetime_runs = (refl, refl)

no_jails-HasDistinctPids : HasDistinctPids []
unfolding HasDistinctPids
no_jails-HasDistinctPids = tt

no_jail : get_jail 42 [] ≡ none
unfolding get_jail
no_jail = refl

start_container-lifetime_example :
    let (calls, jails') = lifetime refusing (codes "web") web [] in
    (destroyed_names calls ≡ codes "web" ∷ []) × (get_jail 42 jails' ≡ get_jail 42 [])
start_container-lifetime_example =
    start_container-lifetime refusing (codes "web") [] 42 0 42 refl refl refl
      no_jails-HasDistinctPids no_jail web (λ same. cc)

web_registered : (register_jail_network working (codes "web") (net ∷ [])).result ≡ ok tt
unfolding register_jail_network register_networks register_network
web_registered = refl

register_jail_network-ok_example :
    (register_jail_network working (codes "web") (net ∷ [])).calls
    ≡ all_requests working (codes "web") (net ∷ [])
register_jail_network-ok_example =
    register_jail_network-ok working (codes "web") net [] refl web_registered
