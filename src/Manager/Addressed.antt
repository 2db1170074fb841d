-- ===== src/Manager/Addressed.antt =====
-- Every operation of the manager keeps the addresses of the containers of a network distinct.
use dockermock.Prelude.{
  ◌≡◌, refl, ◌≢◌, ◌⊎◌, All, arith, integrity_error, ok-injective, suc, ℕ, Bool, Option, none, some,
  List, [], ◌∷◌, ◌++◌, Result, ok, raise, Bool-cases, Option-cases, inl, inr, is_some,
}
use dockermock.Prelude.Text.{Text}
use dockermock.Manager.Store.{Container, Network, AllocatedSubnet, Volume, fetchone, insert_unique}
use dockermock.Manager.Store.Rows.{insert_cases}
use dockermock.Manager.Containers.{
  JailManager, Worker, start_jail, update_exit_code, mark_all_exited, find_container, is_active,
  launch, send, with_store,
}
use dockermock.Manager.Networks.Distinct.{IsAddressed, IsAddressedIn, IsNumbered, IsDistinct}
use dockermock.Manager.Networks.{
  network_ids, network_named, with_current, with_allocated, same_network_name, same_subnet,
}
use dockermock.Manager.Subnets.{
  SubnetArg, create_network, create_with, add_rows, add_network_row, choose_subnet, new_network,
}
use dockermock.Manager.Volumes.{
  create_volume, volume_named, add_volume_row, made, with_volumes, same_volume_name, new_volume,
  volume_path,
}

launch-IsAddressed :
    (row : Container) (r : Result Worker) (m : JailManager)
    → IsAddressed m.store
    → IsAddressed (launch row r m).1.store
unfolding IsAddressed IsAddressedIn
launch-IsAddressed row (raise e) m h = h
launch-IsAddressed row (ok worker) m h = (h.0, h.0)

pub start_jail-IsAddressed :
    (name : Text) (m : JailManager) → IsAddressed m.store → IsAddressed (start_jail name m).1.store
unfolding start_jail
start_jail-IsAddressed name m h = elim (Option-cases (find_container name m)) [
  | inl missing ↦ rw (start_jail, missing) h
  | inr (row, found) ↦ elim (Bool-cases (is_active row)) [
    | inl active ↦ rw (start_jail, found, active) h
    | inr idle ↦
        rw (start_jail, found, idle)
          (launch-IsAddressed row (send (name ++ b'\n' ∷ []) m.worker) m h)
  ]
]

-- One more network, with the next id.
IsNumbered-append :
    (rows : List Network) (n : Network) (seq : ℕ)
    → n.id ≡ suc seq
    → IsNumbered rows seq
    → IsNumbered (rows ++ n ∷ []) (suc seq)
unfolding IsNumbered IsDistinct
IsNumbered-append [] n seq e h = ((tt, tt), (omega arith, tt))
IsNumbered-append (x ∷ rows) n seq e h =
    let (distinct, bounded) = IsNumbered-append rows n seq e (h.0.1, h.1.1) in
    ((differs rows h.0.0, distinct), (omega (arith, h.1.0), bounded))
  where
    differs :
        (l : List Network)
        → All (λ j. x.id ≢ j) (network_ids l)
        → All (λ j. x.id ≢ j) (network_ids (l ++ n ∷ []))
    differs [] all = ((λ same. omega (arith, h.1.0, e, same)), tt)
    differs (y ∷ l) all = (all.0, differs l all.1)

add_network_row-IsAddressed :
    (r : Result (List Network)) (name : Text) (s p : ℕ) (m : JailManager)
    → (r ≡ raise integrity_error)
      ⊎ (r ≡ ok (m.store.current.networks ++ new_network name s p m.store.current ∷ []))
    → IsAddressed m.store
    → IsAddressed (add_network_row r name s p m).1.store
unfolding IsAddressed IsAddressedIn
add_network_row-IsAddressed (raise e) name s p m made h = h
add_network_row-IsAddressed (ok rows) name s p m (inl refused) h = absurd (cc)
add_network_row-IsAddressed (ok rows) name s p m (inr added) h =
    let numbered =
      IsNumbered-append m.store.current.networks (new_network name s p m.store.current)
        m.store.current.network_seq refl h.0.1 in
    let numbered' : IsNumbered rows (suc m.store.current.network_seq) =
      rw (ok-injective added) numbered in
    ((h.0.0, numbered'), (h.0.0, numbered'))

add_rows-IsAddressed :
    (r : Result (List AllocatedSubnet)) (name : Text) (s p : ℕ) (m : JailManager)
    → IsAddressed m.store
    → IsAddressed (add_rows r name s p m).1.store
add_rows-IsAddressed (raise e) name s p m h = h
add_rows-IsAddressed (ok rows) name s p m h =
    let m' = with_store (with_current (with_allocated rows m.store.current) m.store) m in
    add_network_row-IsAddressed
      (insert_unique same_network_name (new_network name s p m'.store.current)
        m'.store.current.networks)
      name s p m'
      (insert_cases same_network_name (new_network name s p m'.store.current)
        m'.store.current.networks)
      (unfold IsAddressed IsAddressedIn in (h.0, h.1))

create_with-IsAddressed :
    (r : Result (Option (ℕ × ℕ))) (name : Text) (m : JailManager)
    → IsAddressed m.store
    → IsAddressed (create_with r name m).1.store
create_with-IsAddressed (raise e) name m h = h
create_with-IsAddressed (ok none) name m h = h
create_with-IsAddressed (ok (some (s, p))) name m h =
    add_rows-IsAddressed
      (insert_unique same_subnet (record { subnet = s; prefix = p })
        m.store.current.allocated_subnets)
      name s p m h

pub create_network-IsAddressed :
    (name : Text) (arg : SubnetArg) (g : Bool) (m : JailManager)
    → IsAddressed m.store
    → IsAddressed (create_network name arg g m).1.store
unfolding create_network
create_network-IsAddressed name arg g m h =
    elim (Bool-cases (is_some (fetchone (network_named name) m.store.current.networks))) [
      | inl there ↦ rw (create_network, there) h
      | inr fresh ↦
          rw (create_network, fresh)
            (create_with-IsAddressed (choose_subnet arg g m.subnetallocator m.store.current) name m
              h)
    ]

made-IsAddressed :
    (r : Result (Unit {0})) (name : Text) (i : ℕ) (m : JailManager)
    → IsAddressed m.store
    → IsAddressed (made r name i m).1.store
unfolding IsAddressed IsAddressedIn
made-IsAddressed (raise e) name i m h = h
made-IsAddressed (ok t) name i m h = (h.0, h.0)

add_volume_row-IsAddressed :
    (r : Result (List Volume)) (d : Result (Unit {0})) (name : Text) (m : JailManager)
    → IsAddressed m.store
    → IsAddressed (add_volume_row r d name m).1.store
add_volume_row-IsAddressed (raise e) d name m h = h
add_volume_row-IsAddressed (ok rows) d name m h =
    let i = suc m.store.current.volume_seq in
    made-IsAddressed d name i
      (with_store (with_current (with_volumes rows i m.store.current) m.store) m)
      (unfold IsAddressed IsAddressedIn in (h.0, h.1))

pub create_volume-IsAddressed :
    (d : Result (Unit {0})) (name : Text) (m : JailManager)
    → IsAddressed m.store
    → IsAddressed (create_volume d name m).1.store
unfolding create_volume
create_volume-IsAddressed d name m h =
    elim (Bool-cases (is_some (fetchone (volume_named name) m.store.current.volumes))) [
      | inl there ↦ rw (create_volume, there) h
      | inr fresh ↦
          rw (create_volume, fresh)
            (add_volume_row-IsAddressed
              (insert_unique same_volume_name
                (new_volume name "nullfs" (volume_path name) m.store.current)
                m.store.current.volumes)
              d name m h)
    ]

pub update_exit_code-IsAddressed :
    (name : Text) (code : ℕ) (m : JailManager)
    → IsAddressed m.store
    → IsAddressed (update_exit_code name code m).1.store
unfolding update_exit_code IsAddressed IsAddressedIn
update_exit_code-IsAddressed name code m h = (h.0, h.0)

pub mark_all_exited-IsAddressed :
    (m : JailManager) → IsAddressed m.store → IsAddressed (mark_all_exited m).store
unfolding mark_all_exited IsAddressed IsAddressedIn
mark_all_exited-IsAddressed m h = (h.0, h.0)
