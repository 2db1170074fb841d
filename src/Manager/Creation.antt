-- ===== src/Manager/Creation.antt =====
-- `create_container` of app2/JailManager_.py, with `insert_container`: what it does to the tables, which stay as
-- it has left them when it raises.
pub mod Linked
pub mod Rows
pub mod Addressed
mod Tests
pub mod Outcome
use Prim.Native.String.{String}
use dockermock.Prelude.{
  ℕ, suc, Bool, true, false, not, ◌||◌, Option, none, some, List, [], ◌∷◌, ◌++◌, map, if◌then◌else◌,
  ◌==◌, ◌&&◌, nat_eq, string_eq, is_some, Result, ok, raise, raise_if, attribute_error, value_error,
  name_error, type_error, Exc,
}
use dockermock.Prelude.Text.{Text, text_beq, codes}
use dockermock.System.Effect.{M, ◌>>=◌, ◌>>◌, pure, throw, for_each}
use dockermock.System.Datasets.{Driver}
use dockermock.Manager.Store.{
  Container, Network, ContainerNetwork, Tables, Store, commit, rollback, fetchone, fetchall,
  insert_unique,
}
use dockermock.Manager.Containers.{with_containers}
use dockermock.Manager.Networks.{with_current}
use dockermock.Manager.Checks.{validated, split_image, link_networks, create_dataset}
use dockermock.Manager.Volumes.{Mount, link_container_volumes}
use dockermock.Manager.Options.{CreateRequest, ImageJson, ContainerJson, create_container_json}

-- A row of images, with its JSON read. Nothing in the manager writes this table.
pub record Image : Type 0 where
  pub id : ℕ
  pub name : Text
  pub tag : Text
  pub json_data : ImageJson
  pub gid : Text

-- What a call meets: the images, str(uuid.uuid4()) by the target that it is for, what `uuid.UUID` reads,
-- the first 16 digits of a new UUID, json.dumps, what `os.makedirs` answers for the directory of the
-- volume with a name, and the storage.
pub record Surroundings : Type 0 where
  pub images : List Image
  pub uuid4 : Text → Text
  pub is_uuid : Text → Bool
  pub gid : Text
  pub dumps : ContainerJson → Text
  pub makedirs : Text → Result (Unit {0})
  pub driver : Driver

-- What it answers: the error, by what its text is about, or the container's id.
pub data Answer : Type 0 where
  empty_name failed_to_create : Answer
  missing : List Text → List Text → Answer
  invalid_image : Text → Answer
  created_container : ℕ → Answer

-- A computation on the tables as the connection sees them, which changes nothing.
unfoldable pub reads : {A : Type 0} → (Tables → Result A) → M Store A
reads f s = (f s.current, s)

abbrev pub run_on : {A : Type 0} → Result A × Tables → Store → Result A × Store
run_on (r, t) s = (r, with_current t s)

-- Statements on the tables.
unfoldable pub execute : {A : Type 0} → (Tables → Result A × Tables) → M Store A
execute f s = run_on (f s.current) s

abbrev pub new_container : Surroundings → CreateRequest → ℕ → ContainerJson → Tables → Container
new_container w r imag_id config t = record {
  id = suc t.container_seq;
  name = r.name;
  image_id = imag_id;
  status = "created";
  config_json = w.dumps config;
  gid = w.gid;
}

-- UNIQUE(name)
abbrev pub same_container_name : Container → Container → Bool
same_container_name a b = text_beq b.name a.name

abbrev pub inserted : Result (List Container) → Tables → Result ℕ × Tables
inserted (raise e) t = (raise e, t)
inserted (ok rows) t = (
  ok (suc t.container_seq),
  record (with_containers rows t) { container_seq = suc t.container_seq },
)

unfoldable pub insert_container :
    Surroundings → CreateRequest → ℕ → ContainerJson → Tables → Result ℕ × Tables
insert_container w r imag_id config t =
    inserted (insert_unique same_container_name (new_container w r imag_id config t) t.containers) t

abbrev pub image_named : Text → Text → Image → Bool
image_named name tag i = text_beq i.name name && text_beq i.tag tag

-- From `insert_container` to `link_container_volumes`.
unfoldable pub add_container : Surroundings → CreateRequest → ℕ → List ℕ → ContainerJson → M Store ℕ
add_container w r imag_id ids config = do
  cid ← execute (insert_container w r imag_id config)
  execute (link_networks ids cid)
  execute (link_container_volumes w.makedirs config.mounts cid)
  pure cid

-- self.conn.commit(), and the answer
unfoldable pub committed_as : ℕ → M Store Answer
committed_as cid s = (ok (created_container cid), commit s)

unfoldable pub rolled_back : M Store Answer
rolled_back s = (ok failed_to_create, rollback s)

abbrev pub finish : ℕ → Bool → M Store Answer
finish cid false = rolled_back
finish cid true = committed_as cid

abbrev pub create_from :
    Surroundings → CreateRequest → Text → List ℕ → Option Image → M Store Answer
create_from w r image ids none = pure (invalid_image image)
create_from w r image ids (some row) = do
  config ← reads (λ t. create_container_json w.uuid4 w.is_uuid row.json_data r none)
  cid ← add_container w r row.id ids config
  cloned ← reads (λ t. create_dataset w.driver row.gid w.gid)
  finish cid cloned

-- `if errors:`
abbrev pub create_valid :
    Surroundings → CreateRequest → Text × Text → (List Text × List Text) × List ℕ → M Store Answer
create_valid w r (name, tag) (([], []), ids) =
    create_from w r (name ++ b':' ∷ tag) ids (fetchone (image_named name tag) w.images)
create_valid w r image ((n ∷ ns, vs), ids) = pure (missing (n ∷ ns) vs)
create_valid w r image (([], v ∷ vs), ids) = pure (missing [] (v ∷ vs))

abbrev pub create_named : Surroundings → CreateRequest → M Store Answer
create_named w r = do
  image ← reads (λ t. split_image r.image)
  options ← reads (validated r.networks r.mounts)
  create_valid w r image options

-- `if not name:`
abbrev pub if_named : Text → M Store Answer → M Store Answer
if_named [] m = pure empty_name
if_named (c ∷ name) m = m

unfoldable pub create_container : Surroundings → CreateRequest → M Store Answer
create_container w r = if_named r.name (create_named w r)
