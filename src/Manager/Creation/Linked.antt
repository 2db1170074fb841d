-- ===== src/Manager/Creation/Linked.antt =====
-- The rows that `create_container` adds for networks and volumes touch neither the containers nor what
-- was committed.
use dockermock.Prelude.{
  ◌≡◌, refl, ◌∙◌, ℕ, Bool-cases, inl, inr, Option, none, some, List, [], ◌∷◌, not, ◌==◌, string_eq,
  Result, ok, raise,
}
use dockermock.Prelude.Text.{Text}
use dockermock.Manager.Store.{
  Volume, VolumeContainer, ContainerNetwork, Tables, fetchone, insert_unique,
}
use dockermock.Manager.Volumes.{
  Mount, link_container_volumes, link_volume, link_row, insert_or_ignore, new_volume,
  same_volume_name, volume_named, volume_linked, after_link, after_makedirs,
}
use dockermock.Manager.Checks.{link_networks, link_rows, free_rows}

-- The tables that linking the volumes keeps: the containers, the addresses and the networks.
pub record IsKept (t t' : Tables) : Type 0 where
  pub containers : t'.containers ≡ t.containers
  pub links : t'.container_networks ≡ t.container_networks
  pub networks : t'.networks ≡ t.networks
  pub network_seq : t'.network_seq ≡ t.network_seq

IsKept-trans : (t u v : Tables) → IsKept t u → IsKept u v → IsKept t v
IsKept-trans t u v a b = record {
  containers = b.containers ∙ a.containers;
  links = b.links ∙ a.links;
  networks = b.networks ∙ a.networks;
  network_seq = b.network_seq ∙ a.network_seq;
}

pub link_networks-containers :
    (ids : List ℕ) (cid : ℕ) (t : Tables) → (link_networks ids cid t).1.containers ≡ t.containers
unfolding link_networks
link_networks-containers ids cid t = of (free_rows ids cid t)
  where
    of : (r : Result (List ContainerNetwork)) → (link_rows r t).1.containers ≡ t.containers
    of (raise e) = refl
    of (ok rows) = refl

insert_or_ignore-IsKept : (r : Result (List Volume)) (t : Tables) → IsKept t (insert_or_ignore r t)
insert_or_ignore-IsKept (raise e) t = record {
  containers = refl;
  links = refl;
  networks = refl;
  network_seq = refl;
}
insert_or_ignore-IsKept (ok rows) t = record {
  containers = refl;
  links = refl;
  networks = refl;
  network_seq = refl;
}

volume_linked-IsKept :
    (r : Result (List VolumeContainer)) (t : Tables) → IsKept t (volume_linked r t).1
volume_linked-IsKept (raise e) t = record {
  containers = refl;
  links = refl;
  networks = refl;
  network_seq = refl;
}
volume_linked-IsKept (ok rows) t = record {
  containers = refl;
  links = refl;
  networks = refl;
  network_seq = refl;
}

link_row-IsKept : (v : Option Volume) (cid : ℕ) (t : Tables) → IsKept t (link_row v cid t).1
link_row-IsKept none cid t = record {
  containers = refl;
  links = refl;
  networks = refl;
  network_seq = refl;
}
link_row-IsKept (some v) cid t = volume_linked-IsKept _ t

after_makedirs-IsKept :
    (r : Result (Unit {0})) (t : Tables) (later : Result Tables × Tables)
    → IsKept t later.1
    → IsKept t (after_makedirs r t later).1
after_makedirs-IsKept (raise e) t later h = record {
  containers = refl;
  links = refl;
  networks = refl;
  network_seq = refl;
}
after_makedirs-IsKept (ok made) t later h = h

link_volume-IsKept :
    (makedirs : Text → Result (Unit {0})) (source : Text) (cid : ℕ) (t : Tables)
    → IsKept t (link_volume makedirs source cid t).1
unfolding link_volume
link_volume-IsKept makedirs source cid t =
    let ignored = insert_unique same_volume_name (new_volume source "local" source t) t.volumes in
    let t' = insert_or_ignore ignored t in
    let row = link_row (fetchone (volume_named source) t'.volumes) cid t' in
    after_makedirs-IsKept (makedirs source) t row (
      IsKept-trans t t' row.1 (insert_or_ignore-IsKept ignored t)
        (link_row-IsKept (fetchone (volume_named source) t'.volumes) cid t'))

after_link-IsKept :
    (r : Result Tables) (t t' : Tables) (later : Result (Unit {0}) × Tables)
    → IsKept t t'
    → IsKept t' later.1
    → IsKept t (after_link r t' later).1
after_link-IsKept (raise e) t t' later first next = first
after_link-IsKept (ok linked) t t' later first next = IsKept-trans t t' later.1 first next

pub link_container_volumes-IsKept :
    (makedirs : Text → Result (Unit {0})) (mounts : List Mount) (cid : ℕ) (t : Tables)
    → IsKept t (link_container_volumes makedirs mounts cid t).1
unfolding link_container_volumes
link_container_volumes-IsKept makedirs [] cid t = record {
  containers = refl;
  links = refl;
  networks = refl;
  network_seq = refl;
}
link_container_volumes-IsKept makedirs (mount ∷ mounts) cid t =
    let (linked, t') = link_volume makedirs mount.source cid t in
    elim (Bool-cases (not (mount.type == "volume"))) [
      | inl other ↦ rw other (link_container_volumes-IsKept makedirs mounts cid t)
      | inr volume ↦ rw volume (
          after_link-IsKept linked t t' (link_container_volumes makedirs mounts cid t')
            (link_volume-IsKept makedirs mount.source cid t)
            (link_container_volumes-IsKept makedirs mounts cid t'))
    ]
