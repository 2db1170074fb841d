-- ===== src/Manager/Creation/Outcome.antt =====
-- What `create_container` leaves in the tables, by its answer.
use mathlib.Core.List.{Memᴰ}
use dockermock.Prelude.{
  ◌≡◌, refl, ℕ, suc, inl, inr, Option, none, some, List, [], ◌∷◌, ◌++◌, Bool, true, false, ◌⊎◌,
  Result, ok, raise, integrity_error, ok-injective,
}
use dockermock.Prelude.Text.{Text}
use dockermock.System.Effect.{M, ◌>>=◌, ◌>>◌, pure, and_then}
use dockermock.Manager.Store.{Container, Tables, Store}
use dockermock.Manager.Networks.{with_current}
use dockermock.Manager.Store.Rows.{insert_cases}
use dockermock.Manager.Options.{CreateRequest, ContainerJson, create_container_json}
use dockermock.Manager.Volumes.{link_container_volumes}
use dockermock.Manager.Checks.{link_networks, validated, split_image, create_dataset}
use dockermock.Manager.Creation.{
  Surroundings, Image, Answer, empty_name, failed_to_create, missing, invalid_image,
  created_container, reads, run_on, execute, new_container, inserted, same_container_name,
  insert_container, add_container, finish, committed_as, rolled_back, create_from, create_valid,
  create_named, create_container, if_named,
}
use dockermock.Manager.Creation.Linked.{link_networks-containers, link_container_volumes-IsKept}

-- The row of a container that has just been created.
pub HasContainer : ℕ → CreateRequest → Tables → Type 0
HasContainer cid r t =
    (c : Container) × Memᴰ c t.containers
    × (c.id ≡ cid)
    × (c.name ≡ r.name)
    × (c.status ≡ "created")

-- Created: everything is committed, the container's row too. Failed at the dataset: rolled back. Refused:
-- nothing has changed. Raised: nothing is committed.
abbrev pub Outcome : CreateRequest → Store → Result Answer × Store → Type 0
Outcome r s (ok (created_container cid), s') =
    (s'.committed ≡ s'.current) × HasContainer cid r s'.committed
Outcome r s (ok failed_to_create, s') = (s'.current ≡ s.committed) × (s'.committed ≡ s.committed)
Outcome r s (ok empty_name, s') = s' ≡ s
Outcome r s (ok (missing networks volumes), s') = s' ≡ s
Outcome r s (ok (invalid_image image), s') = s' ≡ s
Outcome r s (raise e, s') = s'.committed ≡ s.committed

-- The row is in the tables, and nothing is committed; or it was refused.
abbrev Added : CreateRequest → Store → Result ℕ × Store → Type 0
Added r s (ok cid, s') = (s'.committed ≡ s.committed) × HasContainer cid r s'.current
Added r s (raise e, s') = s'.committed ≡ s.committed

HasContainer-containers :
    (cid : ℕ) (r : CreateRequest) (t t' : Tables)
    → t'.containers ≡ t.containers
    → HasContainer cid r t
    → HasContainer cid r t'
unfolding HasContainer
HasContainer-containers cid r t t' kept (c, m, i, n, st) = (c, rw kept m, i, n, st)

-- The statements after the INSERT of the container, on the tables after it.
abbrev add_links : Surroundings → List ℕ → ContainerJson → ℕ → M Store ℕ
add_links w ids config cid =
    execute (link_networks ids cid)
    >> (execute (link_container_volumes w.makedirs config.mounts cid) >> pure cid)

after_volumes :
    (cid : ℕ) (r : CreateRequest) (s : Store) (t : Tables) (res : Result (Unit {0}))
    → HasContainer cid r t
    → Added r s (and_then (run_on (res, t) s) (λ _. pure cid))
unfolding pure
after_volumes cid r s t (raise e) h = refl
after_volumes cid r s t (ok u) h = (refl, h)

after_networks :
    (w : Surroundings) (cid : ℕ) (r : CreateRequest) (config : ContainerJson) (s : Store)
    (t : Tables) (res : Result (Unit {0}))
    → HasContainer cid r t
    → Added r s (
        and_then
          (run_on (res, t) s)
          (λ _. execute (link_container_volumes w.makedirs config.mounts cid) >> pure cid))
unfolding execute ◌>>=◌
after_networks w cid r config s t (raise e) h = refl
after_networks w cid r config s t (ok u) h =
    let (res, t') = link_container_volumes w.makedirs config.mounts cid t in
    after_volumes cid r (with_current t s) t' res (
      HasContainer-containers cid r t t'
        (link_container_volumes-IsKept w.makedirs config.mounts cid t).containers h)

mem_last : {A : Type 0} (xs : List A) (x : A) → Memᴰ x (xs ++ x ∷ [])
mem_last [] x = Memᴰ.head refl
mem_last (y ∷ xs) x = Memᴰ.tail (mem_last xs x)

-- The end of `add_container`, from the result of the INSERT.
after_insert :
    (w : Surroundings) (r : CreateRequest) (imag_id : ℕ) (ids : List ℕ) (config : ContainerJson)
    (s : Store) (rows : Result (List Container))
    → (rows ≡ raise integrity_error)
      ⊎ (rows ≡ ok (s.current.containers ++ new_container w r imag_id config s.current ∷ []))
    → Added r s (and_then (run_on (inserted rows s.current) s) (add_links w ids config))
unfolding execute ◌>>=◌ HasContainer
after_insert w r imag_id ids config s (raise e) h = refl
after_insert w r imag_id ids config s (ok rows) (inl refused) = absurd (cc)
after_insert w r imag_id ids config s (ok rows) (inr added) =
    let row = new_container w r imag_id config s.current in
    let cid = suc s.current.container_seq in
    let t = (inserted (ok rows) s.current).1 in
    let here : Memᴰ row rows = rw (ok-injective added) (mem_last s.current.containers row) in
    let (res, t') = link_networks ids cid t in
    after_networks w cid r config (with_current t s) t' res (
      HasContainer-containers cid r t t' (link_networks-containers ids cid t)
        (row, here, refl, refl, refl))

add_container-Added :
    (w : Surroundings) (r : CreateRequest) (imag_id : ℕ) (ids : List ℕ) (config : ContainerJson)
    (s : Store)
    → Added r s (add_container w r imag_id ids config s)
unfolding add_container insert_container execute ◌>>=◌
add_container-Added w r imag_id ids config s = after_insert w r imag_id ids config s _ (
    insert_cases same_container_name (new_container w r imag_id config s.current)
      s.current.containers)

finish-Outcome :
    (cid : ℕ) (r : CreateRequest) (s s' : Store) (cloned : Result Bool)
    → s'.committed ≡ s.committed
    → HasContainer cid r s'.current
    → Outcome r s (and_then (cloned, s') (finish cid))
unfolding committed_as rolled_back
finish-Outcome cid r s s' (raise e) kept h = kept
finish-Outcome cid r s s' (ok false) kept h = (kept, kept)
finish-Outcome cid r s s' (ok true) kept h = (refl, h)

cloned_after :
    (w : Surroundings) (r : CreateRequest) (gid : Text) (s : Store) (added : Result ℕ × Store)
    → Added r s added
    → Outcome r s
        (and_then added (λ cid. reads (λ t. create_dataset w.driver gid w.gid) >>= finish cid))
unfolding reads ◌>>=◌
cloned_after w r gid s (raise e, s') h = h
cloned_after w r gid s (ok c, s') h = finish-Outcome c r s s' _ h.0 h.1

create_from-Outcome :
    (w : Surroundings) (r : CreateRequest) (image : Text) (ids : List ℕ) (row : Option Image)
    (s : Store)
    → Outcome r s (create_from w r image ids row s)
unfolding pure ◌>>=◌ reads
create_from-Outcome w r image ids none s = refl
create_from-Outcome w r image ids (some row) s =
    of (create_container_json w.uuid4 w.is_uuid row.json_data r none)
  where
    of :
        (config : Result ContainerJson)
        → Outcome r s (
            and_then
              (config, s)
              (λ config. add_container w r row.id ids config >>= λ cid.
                reads (λ t. create_dataset w.driver row.gid w.gid) >>= finish cid))
    of (raise e) = refl
    of (ok config) =
        cloned_after w r row.gid s (add_container w r row.id ids config s)
          (add_container-Added w r row.id ids config s)

create_valid-Outcome :
    (w : Surroundings) (r : CreateRequest) (image : Text × Text)
    (options : (List Text × List Text) × List ℕ) (s : Store)
    → Outcome r s (create_valid w r image options s)
unfolding pure
create_valid-Outcome w r (name, tag) (([], []), ids) s =
    create_from-Outcome w r (name ++ b':' ∷ tag) ids _ s
create_valid-Outcome w r image ((n ∷ ns, vs), ids) s = refl
create_valid-Outcome w r image (([], v ∷ vs), ids) s = refl

create_named-Outcome :
    (w : Surroundings) (r : CreateRequest) (s : Store) → Outcome r s (create_named w r s)
unfolding reads ◌>>=◌
create_named-Outcome w r s = named (split_image r.image)
  where
    valid :
        (image : Text × Text) (options : Result ((List Text × List Text) × List ℕ))
        → Outcome r s (and_then (options, s) (create_valid w r image))
    valid image (raise e) = refl
    valid image (ok options) = create_valid-Outcome w r image options s

    named :
        (image : Result (Text × Text))
        → Outcome r s (
            and_then
              (image, s)
              (λ image. reads (validated r.networks r.mounts) >>= create_valid w r image))
    named (raise e) = refl
    named (ok image) = valid image (validated r.networks r.mounts s.current)

-- However `create_container` ends: where it answers with an id, everything is committed, the row of a
-- container with that id, the name and the status created in it; where it answers that it has failed, the
-- connection sees the committed tables again; where it refuses the request, nothing has changed; and
-- where it answers with no id or raises, the committed tables are those of before.
pub create_container-Outcome :
    (w : Surroundings) (r : CreateRequest) (s : Store) → Outcome r s (create_container w r s)
unfolding create_container pure
create_container-Outcome w r s = of r.name
  where
    of : (name : Text) → Outcome r s (if_named name (create_named w r) s)
    of [] = refl
    of (c ∷ name) = create_named-Outcome w r s
