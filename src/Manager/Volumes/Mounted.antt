-- ===== src/Manager/Volumes/Mounted.antt =====
-- The volumes of a container's mounts, after `link_container_volumes`.
use mathlib.Core.List.{Memᴰ}
use mathlib.Core.List.Memᴰ
use dockermock.Prelude.{
  ◌≡◌, ◌⊎◌, refl, ℕ, true, false, Option, none, some, List, [], ◌∷◌, ◌++◌, ◌==◌, string_eq,
  Bool-cases, inl, inr, Result, ok, raise, integrity_error, ok-injective,
}
use dockermock.Prelude.Text.{Text, text_beq}
use dockermock.Manager.Store.{Volume, VolumeContainer, Tables, fetchone, insert_unique}
use dockermock.Manager.Store.Rows.{fetchone-some, insert_cases}
use dockermock.Manager.Volumes.{
  Mount, link_container_volumes, link_volume, link_row, insert_or_ignore, new_volume,
  same_volume_name, same_volume_link, volume_named, volume_linked, after_link, after_makedirs,
}

-- A volume with the name is there, and linked to the container.
abbrev pub IsLinked : Text → ℕ → Tables → Type 0
IsLinked source cid t =
    (v : Volume) × Memᴰ v t.volumes
    × (text_beq v.name source ≡ true)
    × Memᴰ (record { volume_id = v.id; container_id = cid }) t.volume_containers

-- No volume and no link is lost.
record Grows (t t' : Tables) : Type 0 where
  volumes : (v : Volume) → Memᴰ v t.volumes → Memᴰ v t'.volumes
  links : (l : VolumeContainer) → Memᴰ l t.volume_containers → Memᴰ l t'.volume_containers

Grows-refl : (t : Tables) → Grows t t
Grows-refl t = record { volumes = λ v m. m; links = λ l m. m }

Grows-trans : (t u w : Tables) → Grows t u → Grows u w → Grows t w
Grows-trans t u w a b = record {
  volumes = λ v m. b.volumes v (a.volumes v m);
  links = λ l m. b.links l (a.links l m);
}

IsLinked-Grows :
    (source : Text) (cid : ℕ) (t t' : Tables)
    → Grows t t'
    → IsLinked source cid t
    → IsLinked source cid t'
IsLinked-Grows source cid t t' g (v, there, named, linked) =
    (v, g.volumes v there, named, g.links (record { volume_id = v.id; container_id = cid }) linked)

mem_earlier : {A : Type 0} (xs ys : List A) (x : A) → Memᴰ x xs → Memᴰ x (xs ++ ys)
mem_earlier [] ys x m = elim m [ ]
mem_earlier (y ∷ xs) ys x (Memᴰ.head e) = Memᴰ.head e
mem_earlier (y ∷ xs) ys x (Memᴰ.tail m) = Memᴰ.tail (mem_earlier xs ys x m)

mem_last : {A : Type 0} (xs : List A) (x : A) → Memᴰ x (xs ++ x ∷ [])
mem_last [] x = Memᴰ.head refl
mem_last (y ∷ xs) x = Memᴰ.tail (mem_last xs x)

insert_or_ignore-Grows :
    (row : Volume) (r : Result (List Volume)) (t : Tables)
    → (r ≡ raise integrity_error) ⊎ (r ≡ ok (t.volumes ++ row ∷ []))
    → Grows t (insert_or_ignore r t)
insert_or_ignore-Grows row (raise e) t c = Grows-refl t
insert_or_ignore-Grows row (ok rows) t (inl refused) = absurd cc
insert_or_ignore-Grows row (ok rows) t (inr added) = record {
  volumes = λ v m. rw (ok-injective added) (mem_earlier t.volumes (row ∷ []) v m);
  links = λ l m. m;
}

-- What statements that link a volume have done: where they have ended well, it is linked.
abbrev Links : Text → ℕ → Tables → Result Tables × Tables → Type 0
Links source cid t (raise e, t') = Grows t t'
Links source cid t (ok linked, t') = Grows t t' × IsLinked source cid t'

volume_linked-Links :
    (v : Volume) (source : Text) (cid : ℕ) (t : Tables) (r : Result (List VolumeContainer))
    → Memᴰ v t.volumes
    → text_beq v.name source ≡ true
    → let row : VolumeContainer = record { volume_id = v.id; container_id = cid } in
      (r ≡ raise integrity_error) ⊎ (r ≡ ok (t.volume_containers ++ row ∷ []))
      → Links source cid t (volume_linked r t)
volume_linked-Links v source cid t (raise e) there named c = Grows-refl t
volume_linked-Links v source cid t (ok rows) there named (inl refused) = absurd cc
volume_linked-Links v source cid t (ok rows) there named (inr added) =
    let row : VolumeContainer = record { volume_id = v.id; container_id = cid } in
    (
      record {
        volumes = λ w m. m;
        links = λ l m. rw (ok-injective added) (mem_earlier t.volume_containers (row ∷ []) l m);
      },
      (v, there, named, rw (ok-injective added) (mem_last t.volume_containers row)),
    )

link_row-Links :
    (source : Text) (cid : ℕ) (t : Tables) (found : Option Volume)
    → fetchone (volume_named source) t.volumes ≡ found
    → Links source cid t (link_row found cid t)
link_row-Links source cid t none e = Grows-refl t
link_row-Links source cid t (some v) e =
    let (named, there) = fetchone-some (volume_named source) t.volumes v e in
    let row : VolumeContainer = record { volume_id = v.id; container_id = cid } in
    volume_linked-Links v source cid t (insert_unique same_volume_link row t.volume_containers)
      there named (insert_cases same_volume_link row t.volume_containers)

Links-after :
    (source : Text) (cid : ℕ) (t u : Tables) (r : Result Tables × Tables)
    → Grows t u
    → Links source cid u r
    → Links source cid t r
Links-after source cid t u (raise e, t') g h = Grows-trans t u t' g h
Links-after source cid t u (ok linked, t') g h = (Grows-trans t u t' g h.0, h.1)

after_makedirs-Links :
    (source : Text) (cid : ℕ) (t : Tables) (made : Result (Unit {0})) (r : Result Tables × Tables)
    → Links source cid t r
    → Links source cid t (after_makedirs made t r)
after_makedirs-Links source cid t (raise e) r h = Grows-refl t
after_makedirs-Links source cid t (ok done) r h = h

module _ (makedirs : Text → Result (Unit {0})) where
  link_volume-Links :
      (source : Text) (cid : ℕ) (t : Tables)
      → Links source cid t (link_volume makedirs source cid t)
  unfolding link_volume
  link_volume-Links source cid t =
      let row = new_volume source "local" source t in
      let t' = insert_or_ignore (insert_unique same_volume_name row t.volumes) t in
      let linked = link_row (fetchone (volume_named source) t'.volumes) cid t' in
      let added =
        insert_or_ignore-Grows row (insert_unique same_volume_name row t.volumes) t
          (insert_cases same_volume_name row t.volumes) in
      after_makedirs-Links source cid t (makedirs source) linked
        (Links-after source cid t t' linked added (link_row-Links source cid t' _ refl))

  after_link-Grows :
      (source : Text) (cid : ℕ) (t : Tables) (r : Result Tables) (t' : Tables)
      (later : Result (Unit {0}) × Tables)
      → Links source cid t (r, t')
      → Grows t' later.1
      → Grows t (after_link r t' later).1
  after_link-Grows source cid t (raise e) t' later h g = h
  after_link-Grows source cid t (ok linked) t' later h g = Grows-trans t t' later.1 h.0 g

  -- A round of the loop, for a mount that is passed over and for a volume.
  passed_over :
      (mount : Mount) (mounts : List Mount) (cid : ℕ) (t : Tables)
      → (mount.type == "volume") ≡ false
      → link_container_volumes makedirs (mount ∷ mounts) cid t
        ≡ link_container_volumes makedirs mounts cid t
  unfolding link_container_volumes
  passed_over mount mounts cid t other = rw (link_container_volumes, other)

  of_volume :
      (mount : Mount) (mounts : List Mount) (cid : ℕ) (t : Tables)
      → (mount.type == "volume") ≡ true
      → let (linked, t') = link_volume makedirs mount.source cid t in
        link_container_volumes makedirs (mount ∷ mounts) cid t
        ≡ after_link linked t' (link_container_volumes makedirs mounts cid t')
  unfolding link_container_volumes
  of_volume mount mounts cid t volume = rw (link_container_volumes, volume)

  link_container_volumes-Grows :
      (mounts : List Mount) (cid : ℕ) (t : Tables)
      → Grows t (link_container_volumes makedirs mounts cid t).1
  link_container_volumes-Grows [] cid t = unfold link_container_volumes in Grows-refl t
  link_container_volumes-Grows (mount ∷ mounts) cid t =
      let (linked, t') = link_volume makedirs mount.source cid t in
      elim (Bool-cases (mount.type == "volume")) [
        | inr other ↦
            rw (passed_over mount mounts cid t other) (link_container_volumes-Grows mounts cid t)
        | inl volume ↦ rw (of_volume mount mounts cid t volume) (
            after_link-Grows mount.source cid t linked t'
              (link_container_volumes makedirs mounts cid t') (link_volume-Links mount.source cid t)
              (link_container_volumes-Grows mounts cid t'))
      ]

  -- A round that is not the last.
  after_link-ok :
      (source : Text) (cid : ℕ) (t : Tables) (r : Result Tables) (t' : Tables)
      (later : Result (Unit {0}) × Tables)
      → Links source cid t (r, t')
      → (after_link r t' later).0 ≡ ok tt
      → (after_link r t' later ≡ later) × IsLinked source cid t'
  after_link-ok source cid t (raise e) t' later h done = absurd cc
  after_link-ok source cid t (ok linked) t' later h done = (refl, h.1)

  -- Where `link_container_volumes` ends with no exception: for every mount of the type volume there is
  -- a volume with the name of its source, and the container is linked to it.
  pub link_container_volumes-IsLinked :
      (mounts : List Mount) (mount : Mount) (cid : ℕ) (t : Tables)
      → (link_container_volumes makedirs mounts cid t).0 ≡ ok tt
      → Memᴰ mount mounts
      → (mount.type == "volume") ≡ true
      → IsLinked mount.source cid (link_container_volumes makedirs mounts cid t).1
  link_container_volumes-IsLinked [] mount cid t done m volume = elim m [ ]
  link_container_volumes-IsLinked (first ∷ mounts) mount cid t done m volume =
      let (linked, t') = link_volume makedirs first.source cid t in
      let later = link_container_volumes makedirs mounts cid t' in
      elim (Bool-cases (first.type == "volume")) [
        | inr other ↦
            let skip = passed_over first mounts cid t other in
            rw skip (elim (Memᴰ.cases_cons m) [
              | inl e ↦ absurd (let volume' = rw e at volume in cc)
              | inr rest ↦
                  link_container_volumes-IsLinked mounts mount cid t (rw skip at done) rest volume
            ])
        | inl is_volume ↦
            let round = of_volume first mounts cid t is_volume in
            let (same, here) =
              after_link-ok first.source cid t linked t' later
                (link_volume-Links first.source cid t) (rw round at done) in
            let done' : later.0 ≡ ok tt = rw (round, same) at done in
            rw (round, same)
              (elim (Memᴰ.cases_cons m) [
                | inl e ↦ rw e (
                    IsLinked-Grows first.source cid t' later.1
                      (link_container_volumes-Grows mounts cid t') here)
                | inr rest ↦ link_container_volumes-IsLinked mounts mount cid t' done' rest volume
              ])
      ]
