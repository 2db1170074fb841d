-- ===== src/Server/Invariant.antt =====
-- What every request keeps true of the server's state.
use dockermock.Prelude.{ℕ, false, Option, none, some, [], ◌∷◌, ◌++◌, Result, ok, raise}
use dockermock.Prelude.Text.{Text}
use dockermock.Dns.SubnetTrie.Insert.{IsCounted, insert-IsCounted}
use dockermock.Ip.{Ipv4Network}
use dockermock.Dns.DnsTree
use dockermock.Dns.DnsTree.{DnsTreeNode, new_node, rsplit_generator}
use dockermock.Dns.DnsTree.Keys.{HasDistinctKeys, assign-HasDistinctKeys}
use dockermock.Manager.Containers.{JailManager}
use dockermock.Manager.Networks.Distinct.{IsAddressed, attach_network-IsAddressed}
use dockermock.Server.{
  Server, Request, list_request, status_request, start_request, exit_request, dns_request,
  subnet_request, network_request, networks_request, volumes_request, volume_request,
  remove_request, attach_request, create_request, shutdown_request, handle, add_dns, add_subnet,
  with_manager,
}
use dockermock.Manager.Creation.Addressed.{create_container-IsAddressed}
use dockermock.Manager.Addressed.{
  start_jail-IsAddressed, create_network-IsAddressed, create_volume-IsAddressed,
  update_exit_code-IsAddressed, mark_all_exited-IsAddressed,
}

-- The tree has distinct keys, the trie counts its nodes, and in the connection's tables and in the
-- committed ones the networks have distinct ids and no two containers of a network have one address.
pub record IsSound (s : Server) : Type 0 where
  pub distinct_keys : HasDistinctKeys s.dns_tree
  pub counted : IsCounted s.subnet_trie
  pub addressed : IsAddressed s.manager.store

with_manager-IsSound :
    (m : JailManager) (s : Server) → IsSound s → IsAddressed m.store → IsSound (with_manager m s)
with_manager-IsSound m s h a = record {
  distinct_keys = h.distinct_keys;
  counted = h.counted;
  addressed = a;
}

pub add_dns-IsSound :
    (domain : Text) (ip : Option ℕ) (network : Text) (s : Server)
    → IsSound s
    → IsSound (add_dns domain ip network s).1
unfolding add_dns DnsTree.insert
add_dns-IsSound [] ip network s h = h
add_dns-IsSound (c ∷ domain) none network s h = h
add_dns-IsSound (c ∷ domain) (some ip) [] s h = h
add_dns-IsSound (c ∷ domain) (some ip) (n ∷ network) s h = record {
  distinct_keys =
      assign-HasDistinctKeys (rsplit_generator ((c ∷ domain) ++ b'.' ∷ n ∷ network)) (some ip)
        s.dns_tree h.distinct_keys;
  counted = h.counted;
  addressed = h.addressed;
}

add_subnet-IsSound :
    (network : Text) (subnet : Option (Result Ipv4Network)) (s : Server)
    → IsSound s
    → IsSound (add_subnet network subnet s).1
unfolding add_subnet
add_subnet-IsSound [] subnet s h = h
add_subnet-IsSound (c ∷ network) none s h = h
add_subnet-IsSound (c ∷ network) (some (raise e)) s h = h
add_subnet-IsSound (c ∷ network) (some (ok subnet)) s h = record {
  distinct_keys = h.distinct_keys;
  counted = insert-IsCounted (c ∷ network) subnet s.subnet_trie h.counted;
  addressed = h.addressed;
}

-- Every request, whatever its answer, keeps the server sound.
pub handle-IsSound : (r : Request) (s : Server) → IsSound s → IsSound (handle r s).1
unfolding handle
handle-IsSound (list_request running) s h = h
handle-IsSound (status_request name) s h = h
handle-IsSound (start_request name) s h =
    with_manager-IsSound _ s h (start_jail-IsAddressed name s.manager h.addressed)
handle-IsSound (exit_request name code) s h =
    with_manager-IsSound _ s h (update_exit_code-IsAddressed name code s.manager h.addressed)
handle-IsSound (dns_request domain ip network) s h = add_dns-IsSound domain ip network s h
handle-IsSound (subnet_request network subnet) s h = add_subnet-IsSound network subnet s h
handle-IsSound (network_request name subnet) s h =
    with_manager-IsSound _ s h (create_network-IsAddressed name subnet false s.manager h.addressed)
handle-IsSound networks_request s h = h
handle-IsSound volumes_request s h = h
handle-IsSound (volume_request none makedirs) s h = h
handle-IsSound (volume_request (some name) makedirs) s h =
    with_manager-IsSound _ s h (create_volume-IsAddressed makedirs name s.manager h.addressed)
handle-IsSound (remove_request name has_jail) s h = h
handle-IsSound (attach_request network none) s h = h
handle-IsSound (attach_request network (some name)) s h =
    with_manager-IsSound _ s h (attach_network-IsAddressed name network s.manager h.addressed)
handle-IsSound (create_request w r) s h =
    with_manager-IsSound _ s h (create_container-IsAddressed w r s.manager.store h.addressed)
handle-IsSound shutdown_request s h =
    with_manager-IsSound _ s h (mark_all_exited-IsAddressed s.manager h.addressed)

-- The states that requests lead to, one after the other.
pub data Reaches : Server → Server → Type 0 where
  here : (s : Server) → Reaches s s
  step : (r : Request) (s s' : Server) → Reaches (handle r s).1 s' → Reaches s s'

-- Every state that requests, handled one after the other, lead to from a sound one is sound: the tree
-- has distinct keys, the trie counts its nodes, and in the connection's tables and in the committed
-- ones the networks have distinct ids and no two containers of a network have one address.
pub Reaches-IsSound : (s s' : Server) → Reaches s s' → IsSound s → IsSound s'
Reaches-IsSound _ _ (here s) h = h
Reaches-IsSound _ _ (step r s s' later) h =
    Reaches-IsSound (handle r s).1 s' later (handle-IsSound r s h)
