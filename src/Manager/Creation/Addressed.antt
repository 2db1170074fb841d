-- ===== src/Manager/Creation/Addressed.antt =====
-- `create_container` gives no address of a network twice.
use dockermock.Prelude.{
  ◌≡◌, refl, ℕ, Bool, true, false, Option, none, some, List, [], ◌∷◌, ◌++◌, Result, ok, raise,
}
use dockermock.Prelude.Text.{Text}
use dockermock.System.Effect.{◌>>=◌, pure, and_then}
use dockermock.System.Effect.Follows.{IsPreorder, Follows, Follows-pure, Follows-bind}
use dockermock.Manager.Store.{Container, ContainerNetwork, Tables, Store, insert_unique}
use dockermock.Manager.Networks.{network_ids}
use dockermock.Manager.Networks.Distinct.{IsAddressed, IsAddressedIn, IsNumbered, IsDistinct}
use dockermock.Manager.Options.{CreateRequest, ContainerJson}
use dockermock.Manager.Volumes.{Mount, link_container_volumes}
use dockermock.Manager.Checks.{link_networks, link_rows, free_rows, validated, split_image}
use dockermock.Manager.Creation.{
  Surroundings, Image, reads, execute, inserted, new_container, same_container_name,
  insert_container, add_container, finish, committed_as, rolled_back, create_from, create_valid,
  create_named, create_container, if_named,
}
use dockermock.Manager.Creation.Linked.{link_container_volumes-IsKept}
use dockermock.Manager.Creation.Rows.{validated-IsDistinct, new_links-HasDistinctAddresses}

-- Code that keeps the addresses distinct, in the connection's tables and in the committed ones.
abbrev KeepsAddresses : Store → Store → Type 0
KeepsAddresses s s' = IsAddressed s → IsAddressed s'

addresses : IsPreorder KeepsAddresses
addresses = record { same = λ s h. h; next = λ s t u f g h. g (f h) }

reads-KeepsAddresses : {A : Type 0} (f : Tables → Result A) → Follows KeepsAddresses (reads f)
unfolding reads
reads-KeepsAddresses f = record { at = λ s h. h }

execute-KeepsAddresses :
    {A : Type 0} (f : Tables → Result A × Tables)
    → ((t : Tables) → IsAddressedIn t → IsAddressedIn (f t).1)
    → Follows KeepsAddresses (execute f)
unfolding execute IsAddressed
execute-KeepsAddresses f kept = record { at = λ s h. (kept s.current h.0, h.1) }

inserted-IsAddressedIn :
    (rows : Result (List Container)) (t : Tables)
    → IsAddressedIn t
    → IsAddressedIn (inserted rows t).1
unfolding IsAddressedIn
inserted-IsAddressedIn (raise e) t h = h
inserted-IsAddressedIn (ok rows) t h = h

link_networks-IsAddressedIn :
    (ids : List ℕ) (cid : ℕ) (t : Tables)
    → IsDistinct ids
    → IsAddressedIn t
    → IsAddressedIn (link_networks ids cid t).1
unfolding link_networks IsAddressedIn
link_networks-IsAddressedIn ids cid t distinct h = of (free_rows ids cid t) refl
  where
    of :
        (rows : Result (List ContainerNetwork))
        → free_rows ids cid t ≡ rows
        → IsAddressedIn (link_rows rows t).1
    of (raise e) made = h
    of (ok rows) made = (new_links-HasDistinctAddresses ids cid t rows distinct h.0 made, h.1)

link_container_volumes-IsAddressedIn :
    (makedirs : Text → Result (Unit {0})) (mounts : List Mount) (cid : ℕ) (t : Tables)
    → IsAddressedIn t
    → IsAddressedIn (link_container_volumes makedirs mounts cid t).1
unfolding IsAddressedIn
link_container_volumes-IsAddressedIn makedirs mounts cid t h =
    let kept = link_container_volumes-IsKept makedirs mounts cid t in
    rw (kept.links, kept.networks, kept.network_seq) h

insert_container-IsAddressedIn :
    (w : Surroundings) (r : CreateRequest) (imag_id : ℕ) (config : ContainerJson) (t : Tables)
    → IsAddressedIn t
    → IsAddressedIn (insert_container w r imag_id config t).1
unfolding insert_container
insert_container-IsAddressedIn w r imag_id config t h =
    inserted-IsAddressedIn
      (insert_unique same_container_name (new_container w r imag_id config t) t.containers) t h

add_container-KeepsAddresses :
    (w : Surroundings) (r : CreateRequest) (imag_id : ℕ) (ids : List ℕ) (config : ContainerJson)
    → IsDistinct ids
    → Follows KeepsAddresses (add_container w r imag_id ids config)
unfolding add_container
add_container-KeepsAddresses w r imag_id ids config distinct =
    Follows-bind addresses
      (execute-KeepsAddresses _ (insert_container-IsAddressedIn w r imag_id config))
      (λ cid.
        Follows-bind addresses
          (execute-KeepsAddresses _ (λ t h. link_networks-IsAddressedIn ids cid t distinct h))
          (λ u.
            Follows-bind addresses
              (execute-KeepsAddresses _
                (link_container_volumes-IsAddressedIn w.makedirs config.mounts cid))
              (λ u'. Follows-pure addresses cid)))

finish-KeepsAddresses : (cid : ℕ) (cloned : Bool) → Follows KeepsAddresses (finish cid cloned)
unfolding committed_as rolled_back IsAddressed
finish-KeepsAddresses cid false = record { at = λ s h. (h.1, h.1) }
finish-KeepsAddresses cid true = record { at = λ s h. (h.0, h.0) }

create_from-KeepsAddresses :
    (w : Surroundings) (r : CreateRequest) (image : Text) (ids : List ℕ) (row : Option Image)
    → IsDistinct ids
    → Follows KeepsAddresses (create_from w r image ids row)
create_from-KeepsAddresses w r image ids none distinct = Follows-pure addresses _
create_from-KeepsAddresses w r image ids (some row) distinct =
    Follows-bind addresses (reads-KeepsAddresses _) (λ config.
      Follows-bind addresses (add_container-KeepsAddresses w r row.id ids config distinct)
        (λ cid. Follows-bind addresses (reads-KeepsAddresses _) (finish-KeepsAddresses cid)))

create_valid-KeepsAddresses :
    (w : Surroundings) (r : CreateRequest) (image : Text × Text) (errors : List Text × List Text)
    (ids : List ℕ)
    → IsDistinct ids
    → Follows KeepsAddresses (create_valid w r image (errors, ids))
create_valid-KeepsAddresses w r (name, tag) ([], []) ids distinct =
    create_from-KeepsAddresses w r (name ++ b':' ∷ tag) ids _ distinct
create_valid-KeepsAddresses w r image (n ∷ ns, vs) ids distinct = Follows-pure addresses _
create_valid-KeepsAddresses w r image ([], v ∷ vs) ids distinct = Follows-pure addresses _

numbered_ids : (s : Store) → IsAddressed s → IsDistinct (network_ids s.current.networks)
unfolding IsAddressed IsAddressedIn IsNumbered
numbered_ids s h = h.0.1.0

create_named-IsAddressed :
    (w : Surroundings) (r : CreateRequest) (s : Store)
    → IsAddressed s
    → IsAddressed (create_named w r s).1
unfolding reads ◌>>=◌
create_named-IsAddressed w r s h = named (split_image r.image)
  where
    valid :
        (image : Text × Text) (options : Result ((List Text × List Text) × List ℕ))
        → validated r.networks r.mounts s.current ≡ options
        → IsAddressed (and_then (options, s) (create_valid w r image)).1
    valid image (raise e) made = h
    valid image (ok (errors, ids)) made =
        (create_valid-KeepsAddresses w r image errors ids (
            validated-IsDistinct r.networks r.mounts s.current errors ids (numbered_ids s h)
              made)).at
          s h

    named :
        (image : Result (Text × Text))
        → IsAddressed
            (and_then
              (image, s)
              (λ image. reads (validated r.networks r.mounts) >>= create_valid w r image)).1
    named (raise e) = h
    named (ok image) = valid image (validated r.networks r.mounts s.current) refl

-- Where the networks have distinct ids, and no two containers of a network have one address, in the
-- connection's tables and in the committed ones, `create_container` keeps it so, however it ends.
pub create_container-IsAddressed :
    (w : Surroundings) (r : CreateRequest) (s : Store)
    → IsAddressed s
    → IsAddressed (create_container w r s).1
unfolding create_container pure
create_container-IsAddressed w r s h = of r.name
  where
    of : (name : Text) → IsAddressed (if_named name (create_named w r) s).1
    of [] = h
    of (c ∷ name) = create_named-IsAddressed w r s h
