-- ===== src/Manager/Checks.antt =====
-- The parts of `create_container` of app2/JailManager_.py that compute a result from the request and the
-- tables: `validate_container_options`, the name of the image, the addresses in the networks, and
-- `create_dataset`.
use dockermock.Prelude.{
  ℕ, Bool, false, ◌||◌, Option, none, some, List, [], ◌∷◌, ◌++◌, if◌then◌else◌, ◌==◌, nat_eq,
  string_eq, Result, ok, raise, ◌>>=◌, attribute_error, value_error, name_error,
}
use dockermock.Prelude.Text.{Text, text_beq, codes}
use dockermock.System.Datasets.{Driver, Dataset, zfs, ufs, get_dataset, clone_dataset}
use dockermock.Manager.Store.{Network, Volume, ContainerNetwork, Tables, fetchall, insert_unique}
use dockermock.Manager.Networks.{network_ids, with_links, same_link, link, get_free_ip_for_network}
use dockermock.Manager.Options.{MountRequest, need}

-- x in xs
abbrev pub has_text : Text → List Text → Bool
has_text x [] = false
has_text x (y ∷ ys) = text_beq x y || has_text x ys

-- set(xs) - set(ys): a set is a list, in which order and repetitions do not count.
pub minus : List Text → List Text → List Text
minus [] ys = []
minus (x ∷ xs) ys = if has_text x ys then minus xs ys else x ∷ minus xs ys

abbrev pub name_in : List Text → Network → Bool
name_in names n = has_text n.name names

-- SELECT ID, name FROM networks WHERE name IN (...): the rows in the table's order.
abbrev pub found_networks : List Text → Tables → List Network
found_networks networks t = fetchall (name_in networks) t.networks

abbrev pub network_names : List Network → List Text
network_names [] = []
network_names (n ∷ rows) = n.name ∷ network_names rows

abbrev pub volume_names : List Volume → List Text
volume_names [] = []
volume_names (v ∷ rows) = v.name ∷ volume_names rows

-- [m for m, v in mounts.items() if v["type"] == "volume"]
pub volume_mounts : List (Text × MountRequest) → Result (List Text)
volume_mounts [] = ok []
volume_mounts ((m, v) ∷ items) =
    let rest : Result (List Text) = volume_mounts items in
    need v.type >>= λ type. rest >>= λ names. ok (if type == "volume" then m ∷ names else names)

-- `mounts.items()`
abbrev pub items_of : Option (List (Text × MountRequest)) → Result (List (Text × MountRequest))
items_of none = raise attribute_error
items_of (some items) = ok items

-- The missing networks and volumes, and res['networks']. The volumes are looked up by their targets.
unfoldable pub validate_container_options :
    List Text
    → Option (List (Text × MountRequest))
    → Tables
    → Result ((List Text × List Text) × List ℕ)
unfolding volume_mounts minus fetchall
validate_container_options networks mounts t = items_of mounts >>= λ items.
    volume_mounts items >>= λ names. ok (
      (
        minus networks (network_names (found_networks networks t)),
        minus names (volume_names (fetchall (λ v. has_text v.name names) t.volumes)),
      ),
      network_ids (found_networks networks t),
    )

-- `if networks:`
abbrev pub validated :
    List Text
    → Option (List (Text × MountRequest))
    → Tables
    → Result ((List Text × List Text) × List ℕ)
validated [] mounts t = ok (([], []), [])
validated (n ∷ networks) mounts t = validate_container_options (n ∷ networks) mounts t

-- text.split(sep): the piece before the first separator, and those after it.
abbrev pub add_char : ℕ → List Text → List Text
add_char c [] = (c ∷ []) ∷ []
add_char c (piece ∷ pieces) = (c ∷ piece) ∷ pieces

pub split : ℕ → Text → List Text
split sep [] = [] ∷ []
split sep (c ∷ s) = if c == sep then [] ∷ split sep s else add_char c (split sep s)

-- image_name, tag = ...
abbrev pub two_of : List Text → Result (Text × Text)
two_of (a ∷ (b ∷ [])) = ok (a, b)
two_of [] = raise value_error
two_of (a ∷ []) = raise value_error
two_of (a ∷ (b ∷ (c ∷ rest))) = raise value_error

unfoldable pub split_image : Option Text → Result (Text × Text)
unfolding split
split_image none = raise attribute_error
split_image (some image) = two_of (split b':' image)

-- The loop over res['networks']: the rows, with a free address each.
unfoldable pub free_rows : List ℕ → ℕ → Tables → Result (List ContainerNetwork)
free_rows [] cid t = ok []
free_rows (i ∷ ids) cid t =
    let rest : Result (List ContainerNetwork) = free_rows ids cid t in
    get_free_ip_for_network i t >>= λ addr. rest >>= λ rows. ok (link i cid addr ∷ rows)

-- cursor.executemany: the rows before one that is refused stay.
unfoldable pub insert_links :
    List ContainerNetwork → List ContainerNetwork → Result (Unit {0}) × List ContainerNetwork
insert_links [] links = (ok tt, links)
insert_links (row ∷ rows) links = elim (insert_unique same_link row links) [
  | raise e ↦ (raise e, links)
  | ok links' ↦ insert_links rows links'
]

abbrev pub linked : Result (Unit {0}) × List ContainerNetwork → Tables → Result (Unit {0}) × Tables
linked (r, links) t = (r, with_links links t)

abbrev pub link_rows : Result (List ContainerNetwork) → Tables → Result (Unit {0}) × Tables
link_rows (raise e) t = (raise e, t)
link_rows (ok rows) t = linked (insert_links rows t.container_networks) t

unfoldable pub link_networks : List ℕ → ℕ → Tables → Result (Unit {0}) × Tables
unfolding free_rows insert_links
link_networks ids cid t = link_rows (free_rows ids cid t) t

-- os.path.join(root, gid)
abbrev pub image_root : Driver → Text
image_root (zfs lib) = codes "zroot/jails/images/"
image_root (ufs files) = codes "/jails/images/"

abbrev pub container_root : Driver → Text
container_root (zfs lib) = codes "zroot/jails/containers/"
container_root (ufs files) = codes "/jails/containers/"

-- The message names `image`, which is not defined.
abbrev pub clone_found : Driver → Option Dataset → Text → Result Bool
clone_found driver none cont_gid = raise name_error
clone_found driver (some dataset) cont_gid =
    clone_dataset driver dataset (codes "base") (container_root driver ++ cont_gid)
      (codes "/jails/containers/" ++ (cont_gid ++ codes "/root"))

-- Whether the result is 0.
unfoldable pub create_dataset : Driver → Text → Text → Result Bool
create_dataset driver img_gid cont_gid =
    get_dataset driver (image_root driver ++ img_gid) >>= λ image_dataset.
    clone_found driver image_dataset cont_gid
