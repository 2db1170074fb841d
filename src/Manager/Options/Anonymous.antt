-- ===== src/Manager/Options/Anonymous.antt =====
-- The volumes that an image declares, in the mounts of a container.
use mathlib.Core.List.{Memᴰ}
use mathlib.Core.List.Memᴰ
use Prim.Native.String.{String}
use dockermock.Prelude.{
  ◌≡◌, ◌≢◌, ◌⊎◌, refl, ◌∙◌, Bool, true, false, Option, none, some, List, [], ◌∷◌, if◌then◌else◌,
  ◌==◌, string_eq, arith, inl, inr, All, Bool-cases, ok, raise, name_error,
}
use dockermock.Prelude.Text.{Text, text_beq, text_beq_iff}
use dockermock.Manager.Volumes.{Mount}
use dockermock.Manager.Options.{
  MountRequest, ImageJson, CreateRequest, set_item, image_mounts, user_mounts, insert_desc,
  sort_desc, mounts_of, has_anonymous, create_anamous_volumes, handle_container_mounts,
  create_container_json, text_ltb,
}

-- What stands under a key.
get_item : Text → List (Text × Mount) → Option Mount
get_item key [] = none
get_item key ((k, v) ∷ items) = if text_beq k key then some v else get_item key items

get-set_item :
    (j k : Text) (v : Mount) (items : List (Text × Mount))
    → get_item j (set_item k v items) ≡ (if text_beq k j then some v else get_item j items)
unfolding get_item set_item
get-set_item j k v [] = refl
get-set_item j k v ((i, u) ∷ items) =
    ground (arith, get-set_item j k v items, text_beq_iff k j, text_beq_iff i k, text_beq_iff i j)

-- A mount that `create_anamous_volumes` takes for an anonymous volume.
abbrev IsAnonymous : (Text → Bool) → Option Mount → Type 0
IsAnonymous is_uuid none = ⊥
IsAnonymous is_uuid (some mount) = (mount.type ≡ "volume") × (is_uuid mount.source ≡ true)

image_mounts-IsAnonymous :
    (uuid4 : Text → Text) (is_uuid : Text → Bool) (m : Text) (volumes : List (Text × Bool))
    (items : List (Text × Mount))
    → is_uuid (uuid4 m) ≡ true
    → IsAnonymous is_uuid (get_item m items) ⊎ ((ro : Bool) × Memᴰ (m, ro) volumes)
    → IsAnonymous is_uuid (get_item m (image_mounts uuid4 volumes items))
unfolding image_mounts
image_mounts-IsAnonymous uuid4 is_uuid m [] items u (inl there) = there
image_mounts-IsAnonymous uuid4 is_uuid m [] items u (inr (ro, mem)) = elim mem [ ]
image_mounts-IsAnonymous uuid4 is_uuid m ((k, r) ∷ volumes) items u h =
    image_mounts-IsAnonymous uuid4 is_uuid m volumes (set_item k mount items) u (next h)
  where
    mount : Mount
    mount = record { type = "volume"; source = uuid4 k; target = k; readonly = r }

    set :
        IsAnonymous is_uuid (get_item m items) ⊎ (k ≡ m)
        → IsAnonymous is_uuid (get_item m (set_item k mount items))
    set why = elim (Bool-cases (text_beq k m)) [
      | inl same ↦
          let e : k ≡ m = (text_beq_iff k m).0 same in
          rw (get-set_item m k mount items) (rw same (refl, rw e u))
      | inr differs ↦ rw (get-set_item m k mount items) (
          rw differs (elim why [
            | inl there ↦ there
            | inr e ↦ absurd (let e' : text_beq k m ≡ true = (text_beq_iff k m).1 e in cc)
          ]))
    ]

    next :
        IsAnonymous is_uuid (get_item m items) ⊎ ((ro : Bool) × Memᴰ (m, ro) ((k, r) ∷ volumes))
        → IsAnonymous is_uuid (get_item m (set_item k mount items))
          ⊎ ((ro : Bool) × Memᴰ (m, ro) volumes)
    next (inl there) = inl (set (inl there))
    next (inr (ro, mem)) = elim (Memᴰ.cases_cons mem) [
      | inl e ↦ inl (set (inr (cc)))
      | inr later ↦ inr (ro, later)
    ]

-- A mount of a request with its fields, under another target than this one.
abbrev pub IsOther : Text → Text × MountRequest → Type 0
IsOther m (k, v) =
    (type : String) × (source : Text) × (v.type ≡ some type) × (v.source ≡ some source) × (k ≢ m)

-- The request's mounts leave what stands under another key.
user_mounts-other :
    (m : Text) (users : List (Text × MountRequest)) (items : List (Text × Mount))
    → All (IsOther m) users
    → (items' : List (Text × Mount)) × (user_mounts users items ≡ ok items')
      × (get_item m items' ≡ get_item m items)
unfolding user_mounts
user_mounts-other m [] items h = (items, refl, refl)
user_mounts-other m ((k, v) ∷ users) items h =
    let (type, source, has_type, has_source, differs) = h.0 in
    let mount : Mount = record {
      type = type;
      source = source;
      target = k;
      readonly = v.readonly;
    } in
    let (items', run, kept) = user_mounts-other m users (set_item k mount items) h.1 in
    let apart : text_beq k m ≡ false = ground (arith, text_beq_iff k m) in
    let same : get_item m (set_item k mount items) ≡ get_item m items =
      rw (get-set_item m k mount items) (rw apart refl) in
    (items', rw (has_type, has_source) run, kept ∙ same)

get_item-Memᴰ :
    (m : Text) (items : List (Text × Mount)) (mount : Mount)
    → get_item m items ≡ some mount
    → Memᴰ mount (mounts_of items)
unfolding get_item
get_item-Memᴰ m [] mount e = absurd (cc)
get_item-Memᴰ m ((k, v) ∷ items) mount e = elim (Bool-cases (text_beq k m)) [
  | inl same ↦ Memᴰ.head (let e' : some v ≡ some mount = rw same at e in cc)
  | inr differs ↦ Memᴰ.tail (get_item-Memᴰ m items mount (rw differs at e))
]

insert_desc-Memᴰ :
    (mount : Mount) (k : Text) (v : Mount) (items : List (Text × Mount))
    → (mount ≡ v) ⊎ Memᴰ mount (mounts_of items)
    → Memᴰ mount (mounts_of (insert_desc k v items))
unfolding insert_desc
insert_desc-Memᴰ mount k v [] (inl e) = Memᴰ.head e
insert_desc-Memᴰ mount k v [] (inr m) = elim m [ ]
insert_desc-Memᴰ mount k v ((j, u) ∷ items) h = elim (Bool-cases (text_ltb k j)) [
  | inl less ↦ rw less (later (insert_desc-Memᴰ mount k v items) h)
  | inr more ↦ rw more (now h)
]
  where
    later :
        ((mount ≡ v) ⊎ Memᴰ mount (mounts_of items)
          → Memᴰ mount (mounts_of (insert_desc k v items)))
        → (mount ≡ v) ⊎ Memᴰ mount (u ∷ mounts_of items)
        → Memᴰ mount (u ∷ mounts_of (insert_desc k v items))
    later ih (inl e) = Memᴰ.tail (ih (inl e))
    later ih (inr m) = elim (Memᴰ.cases_cons m) [
      | inl e ↦ Memᴰ.head e
      | inr m' ↦ Memᴰ.tail (ih (inr m'))
    ]

    now : (mount ≡ v) ⊎ Memᴰ mount (u ∷ mounts_of items) → Memᴰ mount (v ∷ (u ∷ mounts_of items))
    now (inl e) = Memᴰ.head e
    now (inr m) = Memᴰ.tail m

sort_desc-Memᴰ :
    (mount : Mount) (items : List (Text × Mount))
    → Memᴰ mount (mounts_of items)
    → Memᴰ mount (mounts_of (sort_desc items))
unfolding sort_desc
sort_desc-Memᴰ mount [] m = m
sort_desc-Memᴰ mount ((k, v) ∷ items) m = elim (Memᴰ.cases_cons m) [
  | inl e ↦ insert_desc-Memᴰ mount k v (sort_desc items) (inl e)
  | inr m' ↦ insert_desc-Memᴰ mount k v (sort_desc items) (inr (sort_desc-Memᴰ mount items m'))
]

has_anonymous_of_mem :
    (is_uuid : Text → Bool) (mount : Mount) (mounts : List Mount)
    → Memᴰ mount mounts
    → mount.type ≡ "volume"
    → is_uuid mount.source ≡ true
    → has_anonymous is_uuid mounts ≡ true
unfolding has_anonymous
has_anonymous_of_mem is_uuid mount [] m t u = elim m [ ]
has_anonymous_of_mem is_uuid mount (x ∷ mounts) m t u = elim (Memᴰ.cases_cons m) [
  | inl e ↦
      let here : (x.type == "volume") ≡ true = (string_eq.beq_iff x.type "volume").1 (rw e at t) in
      let read : is_uuid x.source ≡ true = rw e at u in rw (here, read) refl
  | inr later ↦ let rest = has_anonymous_of_mem is_uuid mount mounts later t u in ground arith
]

item-has_anonymous :
    (is_uuid : Text → Bool) (m : Text) (items : List (Text × Mount)) (o : Option Mount)
    → get_item m items ≡ o
    → IsAnonymous is_uuid o
    → has_anonymous is_uuid (mounts_of (sort_desc items)) ≡ true
item-has_anonymous is_uuid m items none e h = absurd h
item-has_anonymous is_uuid m items (some mount) e h =
    has_anonymous_of_mem is_uuid mount (mounts_of (sort_desc items))
      (sort_desc-Memᴰ mount items (get_item-Memᴰ m items mount e)) h.0 h.1

-- For an image that declares a volume, where the text of a new UUID is one that `uuid.UUID` reads, and a
-- request whose mounts have their fields and other targets than that volume: `create_container_json`
-- raises a NameError.
pub create_container_json-anonymous :
    (uuid4 : Text → Text) (is_uuid : Text → Bool) (image : ImageJson) (r : CreateRequest)
    (path : Option Text) (volumes : List (Text × Bool)) (users : List (Text × MountRequest))
    (m : Text) (ro : Bool)
    → image.volumes ≡ some volumes
    → r.mounts ≡ some users
    → Memᴰ (m, ro) volumes
    → is_uuid (uuid4 m) ≡ true
    → All (IsOther m) users
    → create_container_json uuid4 is_uuid image r path ≡ raise name_error
unfolding create_container_json handle_container_mounts create_anamous_volumes
create_container_json-anonymous uuid4 is_uuid image r path volumes users m ro vs us mem u other =
    let items = image_mounts uuid4 volumes [] in
    let declared = image_mounts-IsAnonymous uuid4 is_uuid m volumes [] u (inr (ro, mem)) in
    let (items', run, kept) = user_mounts-other m users items other in
    let found : has_anonymous is_uuid (mounts_of (sort_desc items')) ≡ true =
      item-has_anonymous is_uuid m items' (get_item m items) kept declared in
    rw (vs, us) (rw run (rw found refl))
