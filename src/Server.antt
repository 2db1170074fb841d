-- ===== src/Server.antt =====
-- server.py: the HTTP handlers, as functions of the manager, the trie of subnets and the tree of
-- names. An exception that a handler does not catch is Flask's answer 500. A handler is one step, so
-- requests are handled one after the other here. In the source the lock of the server sees to that for
-- the handlers that hold it; add_network, add_subnet and add_dns do not, and what becomes of them when
-- they run at the same time as another handler is not modelled.
pub mod Invariant
pub mod Names
pub mod Registry
mod Tests
use Prim.Native.String.{String}
use dockermock.Prelude.{
  ℕ, Bool, true, false, ◌||◌, Option, none, some, List, [], ◌∷◌, ◌++◌, if◌then◌else◌, is_some,
  Result, ok, raise,
}
use dockermock.Prelude.Text.{Text}
use dockermock.Ip.{Ipv4Network}
use dockermock.Dns.SubnetTrie
use dockermock.Dns.SubnetTrie.{SubnetTrie}
use dockermock.Dns.DnsTree
use dockermock.Dns.DnsTree.{DnsTreeNode}
use dockermock.Manager.Store.{Container, Network, Volume}
use dockermock.Manager.Containers.{
  JailManager, with_store, start_jail, status_jail, list_containers, update_exit_code,
  mark_all_exited,
}
use dockermock.Manager.Networks.{attach_network}
use dockermock.Manager.Subnets.{SubnetArg, Created, created, failed, create_network}
use dockermock.Manager.Options.{CreateRequest}
use dockermock.Manager.Creation.{Surroundings, Answer, created_container, create_container}
use dockermock.Manager.Volumes.{create_volume, get_volumes, get_networks, remove_container}

pub record Server : Type 0 where
  pub manager : JailManager
  pub subnet_trie : SubnetTrie Text
  pub dns_tree : DnsTreeNode ℕ

-- A request, by its handler. A missing or empty field is [] or none; a subnet is what `IPv4Network`
-- makes of its text; the outcome of `makedirs`, that of asking for a jail, and what `create_container` meets come
-- with the request.
pub data Request : Type 0 where
  list_request : Text → Request
  status_request start_request : Text → Request
  exit_request : Text → ℕ → Request
  dns_request : Text → Option ℕ → Text → Request
  subnet_request : Text → Option (Result Ipv4Network) → Request
  network_request : Text → SubnetArg → Request
  networks_request volumes_request : Request
  volume_request : Option Text → Result (Unit {0}) → Request
  remove_request : Text → Bool → Request
  attach_request : Text → Option Text → Request
  create_request : Surroundings → CreateRequest → Request
  shutdown_request : Request

pub data Body : Type 0 where
  nothing : Body
  message : String → Body
  containers_json : List Container → Body
  networks_json : List Network → Body
  volumes_json : List Volume → Body
  network_json : Text → ℕ → ℕ → Body
  volume_json : ℕ → Text → Body
  refused : Answer → Body
  id_json : ℕ → Body

pub record Response : Type 0 where
  pub status : ℕ
  pub body : Body

abbrev pub reply : ℕ → Body → Response
reply status body = record { status = status; body = body }

abbrev pub with_manager : JailManager → Server → Server
with_manager m s = record { manager = m; subnet_trie = s.subnet_trie; dns_tree = s.dns_tree }

-- bool of a text
abbrev pub truthy : Text → Bool
truthy [] = false
truthy (c ∷ s) = true

abbrev pub started : Result String → Response
started (raise e) = reply 500 nothing
started (ok status) = reply 200 (message status)

-- add_dns
unfoldable pub add_dns : Text → Option ℕ → Text → Server → Response × Server
add_dns [] ip network s = (reply 400 nothing, s)
add_dns (c ∷ domain) none network s = (reply 400 nothing, s)
add_dns (c ∷ domain) (some ip) [] s = (reply 400 nothing, s)
add_dns (c ∷ domain) (some ip) (n ∷ network) s = (
  reply 201 nothing,
  record {
    manager = s.manager;
    subnet_trie = s.subnet_trie;
    dns_tree = DnsTree.insert ((c ∷ domain) ++ b'.' ∷ n ∷ network) ip s.dns_tree;
  },
)

-- add_subnet
unfoldable pub add_subnet : Text → Option (Result Ipv4Network) → Server → Response × Server
add_subnet [] subnet s = (reply 400 nothing, s)
add_subnet (c ∷ network) none s = (reply 400 nothing, s)
add_subnet (c ∷ network) (some (raise e)) s = (reply 500 nothing, s)
add_subnet (c ∷ network) (some (ok subnet)) s = (
  reply 201 nothing,
  record {
    manager = s.manager;
    subnet_trie = SubnetTrie.insert (c ∷ network) subnet s.subnet_trie;
    dns_tree = s.dns_tree;
  },
)

abbrev pub network_reply : Result Created → Response
network_reply (raise e) = reply 500 nothing
network_reply (ok (created name subnet prefix)) = reply 201 (network_json name subnet prefix)
network_reply (ok (failed error)) = reply 400 (message error)

abbrev pub volume_reply : Option (ℕ × Text) → Response
volume_reply none = reply 400 nothing
volume_reply (some (i, name)) = reply 201 (volume_json i name)

-- `if err: return ..., 400`
abbrev pub error_reply : ℕ → Result (Option String) → Response
error_reply status (raise e) = reply 500 nothing
error_reply status (ok none) = reply status nothing
error_reply status (ok (some error)) = reply 400 (message error)

-- `create_container` of server.py: 400 where the result is not 0.
abbrev pub container_reply : Result Answer → Response
container_reply (raise e) = reply 500 nothing
container_reply (ok (created_container cid)) = reply 201 (id_json cid)
container_reply (ok Answer.empty_name) = reply 400 (refused Answer.empty_name)
container_reply (ok Answer.failed_to_create) = reply 400 (refused Answer.failed_to_create)
container_reply (ok (Answer.missing networks volumes)) =
    reply 400 (refused (Answer.missing networks volumes))
container_reply (ok (Answer.invalid_image image)) = reply 400 (refused (Answer.invalid_image image))

unfoldable pub handle : Request → Server → Response × Server
handle (list_request running) s =
    (reply 200 (containers_json (list_containers (truthy running) s.manager)), s)
handle (status_request name) s = (reply 200 (message (status_jail name s.manager)), s)
handle (start_request name) s =
    let (result, m) = start_jail name s.manager in (started result, with_manager m s)
handle (exit_request name exit_code) s =
    let (status, m) = update_exit_code name exit_code s.manager in
    (reply 200 (message status), with_manager m s)
handle (dns_request domain ip network) s = add_dns domain ip network s
handle (subnet_request network subnet) s = add_subnet network subnet s
handle (network_request name subnet) s =
    let (result, m) = create_network name subnet false s.manager in
    (network_reply result, with_manager m s)
handle networks_request s = (reply 200 (networks_json (get_networks s.manager)), s)
handle volumes_request s = (reply 200 (volumes_json (get_volumes s.manager)), s)
handle (volume_request none makedirs) s = (reply 400 (message "Volume Name is required"), s)
handle (volume_request (some name) makedirs) s =
    let (result, m) = create_volume makedirs name s.manager in
    (volume_reply result, with_manager m s)
handle (remove_request name has_jail) s =
    (error_reply 204 (remove_container has_jail name s.manager), s)
handle (attach_request network none) s = (reply 400 (message "name cannot be null"), s)
handle (attach_request network (some name)) s =
    let (result, m) = attach_network name network s.manager in
    (error_reply 201 result, with_manager m s)
handle (create_request w r) s =
    let (answer, store) = create_container w r s.manager.store in
    (container_reply answer, with_manager (with_store store s.manager) s)
handle shutdown_request s = (reply 200 nothing, with_manager (mark_all_exited s.manager) s)
