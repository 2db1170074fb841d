-- ===== src/Manager/Creation/Rows.antt =====
-- The addresses that `create_container` gives: the loop over the networks and `executemany`.
use dockermock.Prelude.{
  ◌≡◌, ◌≢◌, refl, sym, ap, ℕ, inl, inr, Bool, Option, none, some, List, [], ◌∷◌, ◌++◌, map, All,
  All-append, All-of_mem, Bool-cases, ok, >>=-eq-ok, ok-injective,
}
use dockermock.Prelude.Text.{Text}
use dockermock.Manager.Store.{Network, ContainerNetwork, Tables, fetchall}
use dockermock.Manager.Store.Rows.{insert_cases}
use dockermock.Manager.Networks.{network_ids, link, same_link, get_free_ip_for_network}
use dockermock.Manager.Networks.Addresses.{get_free_ip-fresh}
use dockermock.Manager.Networks.Distinct.{
  IsDistinct, Clash, HasDistinctAddresses, HasDistinctAddresses-append, link-fresh,
}
use dockermock.Manager.Options.{MountRequest}
use dockermock.Manager.Checks.{
  free_rows, insert_links, validated, validate_container_options, found_networks, items_of,
  volume_mounts, name_in,
}

All-fetchall :
    (i : ℕ) (p : Network → Bool) (rows : List Network)
    → All (λ j. i ≢ j) (network_ids rows)
    → All (λ j. i ≢ j) (network_ids (fetchall p rows))
unfolding fetchall
All-fetchall i p [] h = tt
All-fetchall i p (n ∷ rows) h = elim (Bool-cases (p n)) [
  | inl hit ↦ rw hit (h.0, All-fetchall i p rows h.1)
  | inr miss ↦ rw miss (All-fetchall i p rows h.1)
]

fetchall-IsDistinct :
    (p : Network → Bool) (rows : List Network)
    → IsDistinct (network_ids rows)
    → IsDistinct (network_ids (fetchall p rows))
unfolding fetchall IsDistinct
fetchall-IsDistinct p [] h = tt
fetchall-IsDistinct p (n ∷ rows) h = elim (Bool-cases (p n)) [
  | inl hit ↦ rw hit (All-fetchall n.id p rows h.0, fetchall-IsDistinct p rows h.1)
  | inr miss ↦ rw miss (fetchall-IsDistinct p rows h.1)
]

-- The networks that `validate_container_options` has found, once each.
pub validated-IsDistinct :
    (networks : List Text) (mounts : Option (List (Text × MountRequest))) (t : Tables)
    (errors : List Text × List Text) (ids : List ℕ)
    → IsDistinct (network_ids t.networks)
    → validated networks mounts t ≡ ok (errors, ids)
    → IsDistinct ids
unfolding validate_container_options
validated-IsDistinct [] mounts t errors ids h e =
    let none_asked : ids ≡ [] = cc in rw none_asked (unfold IsDistinct in tt)
validated-IsDistinct (n ∷ networks) mounts t errors ids h e =
    let (items, given, e') = >>=-eq-ok (items_of mounts) _ e in
    let (names, read, e'') = >>=-eq-ok (volume_mounts items) _ e' in
    let same : ids ≡ network_ids (found_networks (n ∷ networks) t) = cc in
    rw same (fetchall-IsDistinct (name_in (n ∷ networks)) t.networks h)

abbrev network_of : ContainerNetwork → ℕ
network_of row = row.network_id

-- A new row whose address none of these rows has in its network.
abbrev pub IsFresh : List ContainerNetwork → ContainerNetwork → Type 0
IsFresh links row = All (λ r. ¬ Clash r row) links

address-IsFresh :
    (i cid : ℕ) (addr : Option ℕ) (t : Tables)
    → get_free_ip_for_network i t ≡ ok addr
    → IsFresh t.container_networks (link i cid addr)
unfolding Clash
address-IsFresh i cid none t e = All-of_mem _ t.container_networks (λ r m (same, ip, a, b). cc)
address-IsFresh i cid (some ip) t e = link-fresh i cid ip t (get_free_ip-fresh i t ip e)

-- The rows that the loop makes: one for each network, with a fresh address.
free_rows-IsFresh :
    (ids : List ℕ) (cid : ℕ) (t : Tables) (rows : List ContainerNetwork)
    → free_rows ids cid t ≡ ok rows
    → (map network_of rows ≡ ids) × All (IsFresh t.container_networks) rows
unfolding free_rows
free_rows-IsFresh [] cid t rows e = let same : rows ≡ [] = cc in rw same (refl, tt)
free_rows-IsFresh (i ∷ ids) cid t rows e =
    let (addr, given, e') = >>=-eq-ok (get_free_ip_for_network i t) _ e in
    let (later, made, e'') = >>=-eq-ok (free_rows ids cid t) _ e' in
    let (same, fresh) = free_rows-IsFresh ids cid t later made in
    let whole : rows ≡ link i cid addr ∷ later = sym (ok-injective e'') in
    rw whole (ap (λ l. i ∷ l) same, (address-IsFresh i cid addr t given, fresh))

-- A row of another network is fresh beside one more row.
IsFresh-append :
    (links : List ContainerNetwork) (x : ContainerNetwork) (rows : List ContainerNetwork)
    → All (λ j. x.network_id ≢ j) (map network_of rows)
    → All (IsFresh links) rows
    → All (IsFresh (links ++ x ∷ [])) rows
unfolding Clash
IsFresh-append links x [] other h = tt
IsFresh-append links x (r ∷ rows) other h = (
  All-append (λ r'. ¬ Clash r' r) links (x ∷ []) h.0 ((λ clash. other.0 clash.0), tt),
  IsFresh-append links x rows other.1 h.1,
)

insert_links-HasDistinctAddresses :
    (rows links : List ContainerNetwork)
    → HasDistinctAddresses links
    → All (IsFresh links) rows
    → IsDistinct (map network_of rows)
    → HasDistinctAddresses (insert_links rows links).1
unfolding insert_links IsDistinct
insert_links-HasDistinctAddresses [] links h fresh distinct = h
insert_links-HasDistinctAddresses (x ∷ rows) links h fresh distinct =
    elim (insert_cases same_link x links) [
      | inl refused ↦ rw (insert_links, refused) h
      | inr added ↦
          rw (insert_links, added)
            (insert_links-HasDistinctAddresses rows (links ++ x ∷ [])
              (HasDistinctAddresses-append links x h fresh.0)
              (IsFresh-append links x rows distinct.0 fresh.1) distinct.1)
    ]

pub new_links-HasDistinctAddresses :
    (ids : List ℕ) (cid : ℕ) (t : Tables) (rows : List ContainerNetwork)
    → IsDistinct ids
    → HasDistinctAddresses t.container_networks
    → free_rows ids cid t ≡ ok rows
    → HasDistinctAddresses (insert_links rows t.container_networks).1
new_links-HasDistinctAddresses ids cid t rows distinct h made =
    let (same, fresh) = free_rows-IsFresh ids cid t rows made in
    insert_links-HasDistinctAddresses rows t.container_networks h fresh (rw same distinct)
