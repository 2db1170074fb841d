-- ===== src/Manager/Networks/Distinct.antt =====
-- No two containers of one network have one address, and `attach_network` keeps it so.
use mathlib.Core.List.{Memᴰ}
use mathlib.Core.List.Memᴰ
use dockermock.Prelude.{
  ◌≡◌, refl, sym, ◌∙◌, ◌≢◌, ◌≤◌, inl, inr, ℕ, Option, none, some, List, [], ◌∷◌, ◌++◌, string_eq,
  nat_eq, is_some, All, All-append, All-of_mem, Bool-cases, Option-cases, Result, ok, raise,
}
use dockermock.Prelude.Text.{Text}
use dockermock.Manager.Store.{Container, Network, ContainerNetwork, Store, Tables, fetchone}
use dockermock.Manager.Store.Rows.{mem-fetchall, insert_cases}
use dockermock.Manager.Containers.{JailManager, find_container}
use dockermock.Manager.Networks.{
  used_ips, get_free_ip_for_network, attach_to, attach_ip, network_named, attach_network, link,
  in_network, same_link, network_ids,
}
use dockermock.Manager.Networks.Addresses.{get_free_ip-fresh}

-- Two containers of one network with one address.
unfoldable pub Clash : ContainerNetwork → ContainerNetwork → Type 0
Clash a b =
    (a.network_id ≡ b.network_id) × (ip : ℕ) × (a.ip_address ≡ some ip) × (b.ip_address ≡ some ip)

unfoldable pub HasDistinctAddresses : List ContainerNetwork → Type 0
HasDistinctAddresses [] = Unit
HasDistinctAddresses (r ∷ rows) = All (λ r'. ¬ Clash r r') rows × HasDistinctAddresses rows

pub HasDistinctAddresses-append :
    (rows : List ContainerNetwork) (r : ContainerNetwork)
    → HasDistinctAddresses rows
    → All (λ r'. ¬ Clash r' r) rows
    → HasDistinctAddresses (rows ++ r ∷ [])
unfolding HasDistinctAddresses
HasDistinctAddresses-append [] r h fresh = (tt, tt)
HasDistinctAddresses-append (x ∷ rows) r h fresh = (
  All-append (λ r'. ¬ Clash x r') rows (r ∷ []) h.0 (fresh.0, tt),
  HasDistinctAddresses-append rows r h.1 fresh.1,
)

-- No number stands in the list twice.
unfoldable pub IsDistinct : List ℕ → Type 0
IsDistinct [] = Unit
IsDistinct (i ∷ ids) = All (λ j. i ≢ j) ids × IsDistinct ids

-- The networks have distinct ids, up to the last one that was given out.
unfoldable pub IsNumbered : List Network → ℕ → Type 0
IsNumbered networks seq =
    IsDistinct (network_ids networks) × All (λ i. i ≤ seq) (network_ids networks)

unfoldable pub IsAddressedIn : Tables → Type 0
IsAddressedIn t = HasDistinctAddresses t.container_networks × IsNumbered t.networks t.network_seq

-- In the connection's tables and in the committed ones the networks have distinct ids, and no two
-- containers of a network have one address.
unfoldable pub IsAddressed : Store → Type 0
IsAddressed s = IsAddressedIn s.current × IsAddressedIn s.committed

pub link-fresh :
    (i c ip : ℕ) (t : Tables)
    → (¬ Memᴰ (some ip) (used_ips i t))
    → All (λ r'. ¬ Clash r' (link i c (some ip))) t.container_networks
unfolding Clash
link-fresh i c ip t fresh = All-of_mem _ t.container_networks (λ r' m clash.
    let (same, ip', theirs, ours) = clash in
    let here =
      (mem-fetchall (in_network i) t.container_networks r').1
        (m, (nat_eq.beq_iff r'.network_id i).1 same) in
    let used = Memᴰ.map (λ (cn : ContainerNetwork). cn.ip_address) here in
    fresh (Memᴰ.cast {l = used_ips i t} (ours ∙ sym theirs) used))

attach_ip-IsAddressed :
    (r : Result (Option ℕ)) (network_id container_id : ℕ) (m : JailManager)
    → ((ip : ℕ) → r ≡ ok (some ip) → ¬ Memᴰ (some ip) (used_ips network_id m.store.current))
    → IsAddressed m.store
    → IsAddressed (attach_ip r network_id container_id m).1.store
attach_ip-IsAddressed (raise e) i c m fresh h = h
attach_ip-IsAddressed (ok none) i c m fresh h = unfold IsAddressed in (h.1, h.1)
attach_ip-IsAddressed (ok (some ip)) i c m fresh h =
    elim (insert_cases same_link (link i c (some ip)) m.store.current.container_networks) [
      | inl refused ↦ rw refused (unfold IsAddressed in (h.1, h.1))
      | inr added ↦
          let here : HasDistinctAddresses m.store.current.container_networks
              × IsNumbered m.store.current.networks m.store.current.network_seq =
            unfold IsAddressed IsAddressedIn in h.0 in
          let (addressed, numbered) = here in
          let distinct =
            HasDistinctAddresses-append m.store.current.container_networks (link i c (some ip))
              addressed (link-fresh i c ip m.store.current (fresh ip refl)) in
          rw added
            (unfold IsAddressed IsAddressedIn in ((distinct, numbered), (distinct, numbered)))
    ]

attach_to-IsAddressed :
    (cont : Container) (network : Network) (m : JailManager)
    → IsAddressed m.store
    → IsAddressed (attach_to cont network m).1.store
unfolding attach_to
attach_to-IsAddressed cont network m h =
    elim (Bool-cases (
      is_some
        (fetchone (same_link (link network.id cont.id none)) m.store.current.container_networks))) [
          | inl present ↦ rw present h
          | inr absent ↦ rw absent (
              attach_ip-IsAddressed (get_free_ip_for_network network.id m.store.current) network.id
                cont.id m (λ ip e. get_free_ip-fresh network.id m.store.current ip e) h)
        ]

-- Where the networks have distinct ids and no two containers of a network have one address, in the
-- connection's tables and in the committed ones, `attach_network` keeps it so, whatever it answers.
pub attach_network-IsAddressed :
    (container_name network_name : Text) (m : JailManager)
    → IsAddressed m.store
    → IsAddressed (attach_network container_name network_name m).1.store
unfolding attach_network
attach_network-IsAddressed container_name network_name m h =
    elim (Option-cases (find_container container_name m)) [
      | inl missing ↦ rw (attach_network, missing) h
      | inr (cont, found) ↦
          elim (Option-cases (fetchone (network_named network_name) m.store.current.networks)) [
            | inl missing ↦ rw (attach_network, found, missing) h
            | inr (network, there) ↦
                rw (attach_network, found, there) (attach_to-IsAddressed cont network m h)
          ]
    ]
