-- ===== src/Manager/Options.antt =====
-- What `create_container` of app2/JailManager_.py makes of a request: `create_container_json` with
-- `create_path` and `handle_container_mounts`. A dict is a list of its items in their order.
pub mod Anonymous
use Prim.Native.String.{String}
use dockermock.Prelude.{
  ℕ, zero, suc, ◌-◌, Bool, true, false, ◌&&◌, ◌||◌, Option, none, some, List, [], ◌∷◌, ◌++◌,
  if◌then◌else◌, ◌==◌, nat_eq, string_eq, ltb, length, Result, ok, raise, ◌>>=◌, ◌>>◌, raise_if,
  attribute_error, key_error, name_error,
}
use dockermock.Prelude.Text.{Text, text_beq, codes}
use dockermock.Manager.Volumes.{Mount}

module _ {V : Type 0} where
  -- d[key] = value
  pub set_item : Text → V → List (Text × V) → List (Text × V)
  set_item key value [] = (key, value) ∷ []
  set_item key value ((k, v) ∷ items) =
      if text_beq k key then (k, value) ∷ items else (k, v) ∷ set_item key value items

-- Python's `<` on str
pub text_ltb : Text → Text → Bool
text_ltb s [] = false
text_ltb [] (d ∷ t) = true
text_ltb (c ∷ s) (d ∷ t) = ltb c d || (c == d && text_ltb s t)

-- A mount of the request: a missing type or source is none.
pub record MountRequest : Type 0 where
  pub type : Option String
  pub source : Option Text
  pub readonly : Bool

-- The image's JSON. A volume is its target, and whether it is read-only.
pub record ImageJson : Type 0 where
  pub command : Option (List Text)
  pub entrypoint : Option (List Text)
  pub path : Option (List Text)
  pub env : Option (List (Text × Text))
  pub user : Option Text
  pub working_dir : Option Text
  pub volumes : Option (List (Text × Bool))

-- The container's JSON. The ports stand as they are in the request.
pub record ContainerJson : Type 0 where
  pub command : Option (List Text)
  pub entrypoint : Option (List Text)
  pub env : List (Text × Text)
  pub user : Option Text
  pub working_dir : Option Text
  pub mounts : List Mount
  pub ports : Text
  pub restart : Text
  pub rm : Bool

-- The request: a missing field is none, [] where [] or {} is its default. The mounts are none where they
-- are missing, and so a list.
pub record CreateRequest : Type 0 where
  pub name : Text
  pub image : Option Text
  pub networks : List Text
  pub mounts : Option (List (Text × MountRequest))
  pub env : List (Text × Text)
  pub command : List Text
  pub entrypoint : List Text
  pub ports : Text
  pub user : Option Text
  pub working_dir : Option Text
  pub restart : Option Text
  pub rm : Bool

-- a or b
abbrev pub or_list : List Text → Option (List Text) → Option (List Text)
or_list [] other = other
or_list (x ∷ xs) other = some (x ∷ xs)

-- a or b, and `if user:` after it
abbrev pub or_text : Option Text → Option Text → Option Text
or_text (some (c ∷ s)) other = some (c ∷ s)
or_text (some []) (some (c ∷ s)) = some (c ∷ s)
or_text none (some (c ∷ s)) = some (c ∷ s)
or_text (some []) (some []) = none
or_text (some []) none = none
or_text none (some []) = none
or_text none none = none

-- dict.get(key, default)
abbrev pub get_or {ℓ} : {A : Type ℓ} → Option A → A → A
get_or none default = default
get_or (some a) default = a

-- separator.join(texts)
pub join_with : Text → List Text → Text
join_with separator [] = []
join_with separator (s ∷ []) = s
join_with separator (s ∷ (t ∷ rest)) = s ++ (separator ++ join_with separator (t ∷ rest))

pub has_start : Text → Text → Bool
has_start s [] = true
has_start [] (c ∷ start) = false
has_start (d ∷ s) (c ∷ start) = d == c && has_start s start

-- s.replace(old, new): from a place where `skip` characters belong to an occurrence before it.
pub replace_from : ℕ → Text → Text → Text → Text
replace_from skip old new [] = []
replace_from (suc skip) old new (c ∷ s) = replace_from skip old new s
replace_from zero old new (c ∷ s) =
    let hit = has_start (c ∷ s) old in
    (if hit then new else c ∷ []) ++ replace_from (if hit then length old - 1 else 0) old new s

unfoldable pub create_path : List Text → Text → Text
unfolding replace_from has_start join_with
create_path paths_list path_str =
    replace_from 0 (codes "$PATH") (join_with (codes ":") paths_list) path_str

-- env_var[key] = value, for each item of the request
pub update_env : List (Text × Text) → List (Text × Text) → List (Text × Text)
update_env [] env_var = env_var
update_env ((key, value) ∷ items) env_var = update_env items (set_item key value env_var)

abbrev pub path_of : List Text → Option Text → Text
path_of img_path none = join_with (codes ":") img_path
path_of img_path (some path) = create_path img_path path

-- The loop over the image's volumes: `uuid4` is the text that str(uuid.uuid4()) is in the round of
-- a target.
pub image_mounts : (Text → Text) → List (Text × Bool) → List (Text × Mount) → List (Text × Mount)
image_mounts uuid4 [] mounts = mounts
image_mounts uuid4 ((m, readonly) ∷ volumes) mounts = image_mounts uuid4 volumes (
    set_item m (record { type = "volume"; source = uuid4 m; target = m; readonly = readonly })
      mounts)

abbrev pub need {ℓ} : {A : Type ℓ} → Option A → Result A
need none = raise key_error
need (some a) = ok a

-- The loop over the request's mounts.
pub user_mounts : List (Text × MountRequest) → List (Text × Mount) → Result (List (Text × Mount))
user_mounts [] mounts = ok mounts
user_mounts ((m, v) ∷ items) mounts = need v.type >>= λ type. need v.source >>= λ source.
    user_mounts items (
      set_item m (record { type = type; source = source; target = m; readonly = v.readonly })
        mounts)

-- sorted(mounts, reverse=True), with what stands under the keys
pub insert_desc : Text → Mount → List (Text × Mount) → List (Text × Mount)
insert_desc key mount [] = (key, mount) ∷ []
insert_desc key mount ((k, m) ∷ items) =
    if text_ltb key k then (k, m) ∷ insert_desc key mount items else (key, mount) ∷ ((k, m) ∷ items)

pub sort_desc : List (Text × Mount) → List (Text × Mount)
sort_desc [] = []
sort_desc ((k, m) ∷ items) = insert_desc k m (sort_desc items)

abbrev pub mounts_of : List (Text × Mount) → List Mount
mounts_of [] = []
mounts_of ((k, m) ∷ items) = m ∷ mounts_of items

-- `.items()` of None, or of the list that stands for no mounts, is an AttributeError.
unfoldable pub handle_container_mounts :
    (Text → Text)
    → Option (List (Text × Bool))
    → Option (List (Text × MountRequest))
    → Result (List Mount)
unfolding image_mounts user_mounts set_item sort_desc insert_desc text_ltb
handle_container_mounts uuid4 none users = raise attribute_error
handle_container_mounts uuid4 (some volumes) none = raise attribute_error
handle_container_mounts uuid4 (some volumes) (some users) =
    user_mounts users (image_mounts uuid4 volumes []) >>= λ mounts.
    ok (mounts_of (sort_desc mounts))

-- Whether `create_anamous_volumes` reaches VOLUME_ROOT, which is not defined: at the first volume
-- whose source `uuid.UUID` reads.
pub has_anonymous : (Text → Bool) → List Mount → Bool
has_anonymous is_uuid [] = false
has_anonymous is_uuid (mount ∷ mounts) =
    (mount.type == "volume" && is_uuid mount.source) || has_anonymous is_uuid mounts

unfoldable pub create_anamous_volumes : (Text → Bool) → List Mount → Result (Unit {0})
unfolding has_anonymous
create_anamous_volumes is_uuid mounts = raise_if (has_anonymous is_uuid mounts) name_error

-- `create_container` passes no PATH; `restart` and `rm` are what it adds to the result.
unfoldable pub create_container_json :
    (Text → Text) → (Text → Bool) → ImageJson → CreateRequest → Option Text → Result ContainerJson
unfolding update_env set_item join_with
create_container_json uuid4 is_uuid image r path =
    handle_container_mounts uuid4 image.volumes r.mounts >>= λ final_mounts.
    create_anamous_volumes is_uuid final_mounts
    >> ok (record {
      command = or_list r.command image.command;
      entrypoint = or_list r.entrypoint image.entrypoint;
      env =
          set_item (codes "PATH") (path_of (get_or image.path []) path)
            (update_env r.env (get_or image.env []));
      user = or_text r.user image.user;
      working_dir = or_text r.working_dir image.working_dir;
      mounts = final_mounts;
      ports = r.ports;
      restart = get_or r.restart (codes "no");
      rm = r.rm;
    })
