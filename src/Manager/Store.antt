-- ===== src/Manager/Store.antt =====
-- The database of app2/JailManager_.py (db/01_init.sql): its tables, the statements that the manager
-- executes on them, and the open transaction of the connection. The columns that no operation of the
-- model reads are left out. Foreign keys are declared, but sqlite enforces none of them by default.
pub mod Rows
use Prim.Native.String.{String}
use dockermock.Prelude.{
  ℕ, suc, ◌+◌, Bool, true, false, ◌&&◌, ◌||◌, Option, none, some, List, [], ◌∷◌, ◌++◌,
  if◌then◌else◌, ◌==◌, nat_eq, Result, ok, raise, integrity_error,
}
use dockermock.Prelude.Text.{Text, text_beq}

pub record Container : Type 0 where
  pub id : ℕ
  pub name : Text
  pub image_id : ℕ
  pub status : String
  pub config_json : Text
  pub gid : Text

-- `subnet` is the text of an address, and stands for it.
pub record Network : Type 0 where
  pub id : ℕ
  pub name : Text
  pub driver : String
  pub subnet : ℕ
  pub prefix : ℕ

pub record AllocatedSubnet : Type 0 where
  pub subnet : ℕ
  pub prefix : ℕ

-- `ip_address` is the text of an address, or none for the text "None".
pub record ContainerNetwork : Type 0 where
  pub network_id : ℕ
  pub container_id : ℕ
  pub ip_address : Option ℕ

pub record Volume : Type 0 where
  pub id : ℕ
  pub name : Text
  pub driver : String
  pub path : Text

pub record VolumeContainer : Type 0 where
  pub volume_id : ℕ
  pub container_id : ℕ

-- The tables, each in the order of its row ids, and the last id that a table with ids has given out.
pub record Tables : Type 0 where
  pub containers : List Container
  pub networks : List Network
  pub allocated_subnets : List AllocatedSubnet
  pub container_networks : List ContainerNetwork
  pub volumes : List Volume
  pub volume_containers : List VolumeContainer
  pub container_seq : ℕ
  pub network_seq : ℕ
  pub volume_seq : ℕ

-- The tables as the connection sees them, and as they were at its last commit.
pub record Store : Type 0 where
  pub current : Tables
  pub committed : Tables

abbrev pub commit : Store → Store
commit s = record { current = s.current; committed = s.current }

abbrev pub rollback : Store → Store
rollback s = record { current = s.committed; committed = s.committed }

module _ {R : Type 0} where
  -- select ... where p, and fetchone(): the first row, if there is one
  unfoldable pub fetchone : (R → Bool) → List R → Option R
  fetchone p [] = none
  fetchone p (row ∷ rows) = if p row then some row else fetchone p rows

  -- fetchall()
  unfoldable pub fetchall : (R → Bool) → List R → List R
  fetchall p [] = []
  fetchall p (row ∷ rows) = if p row then row ∷ fetchall p rows else fetchall p rows

  -- update ... set f where p
  unfoldable pub update_where : (R → Bool) → (R → R) → List R → List R
  update_where p f [] = []
  update_where p f (row ∷ rows) =
      if p row then f row ∷ update_where p f rows else row ∷ update_where p f rows

  -- A row beside one that a UNIQUE constraint takes for the same is refused.
  unfoldable pub insert_unique : (R → R → Bool) → R → List R → Result (List R)
  insert_unique same row rows = elim (fetchone (same row) rows) [
    | none ↦ ok (rows ++ row ∷ [])
    | some taken ↦ raise integrity_error
  ]
