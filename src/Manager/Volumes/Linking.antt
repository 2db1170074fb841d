-- ===== src/Manager/Volumes/Linking.antt =====
-- What creating a volume leaves in the tables.
use dockermock.Prelude.{◌≡◌, refl, suc, none, some, [], ◌∷◌, ◌++◌, nat_eq, Result, ok, raise, Exc}
use dockermock.Prelude.Text.{Text, text_beq_iff}
use dockermock.Manager.Store.{Volume, commit, fetchone}
use dockermock.Manager.Store.Rows.{insert_unique-fresh, fetchone-append}
use dockermock.Manager.Containers.{JailManager, with_store}
use dockermock.Manager.Volumes.{
  create_volume, volume_named, same_volume_name, new_volume, volume_path, with_volumes,
}
use dockermock.Manager.Networks.{with_current}

-- Where no volume has the name but its directory cannot be made: the answer is an error, nothing
-- is committed, and the row stays in the tables of the open transaction.
pub create_volume-left_open :
    (name : Text) (e : Exc) (m : JailManager)
    → fetchone (volume_named name) m.store.current.volumes ≡ none
    → let m' = (create_volume (raise e) name m).1 in
      ((create_volume (raise e) name m).0 ≡ none)
      × (m'.store.committed ≡ m.store.committed)
      × (m'.store.current.volumes
          ≡ m.store.current.volumes
            ++ new_volume name "nullfs" (volume_path name) m.store.current ∷ [])
unfolding create_volume
create_volume-left_open name e m fresh =
    let added =
      insert_unique-fresh same_volume_name
        (new_volume name "nullfs" (volume_path name) m.store.current) m.store.current.volumes
        fresh in
    rw (create_volume, fresh, added) (refl, refl, refl)

-- The row of a volume that `create_volume` makes, and the manager after it.
abbrev row_of : Text → JailManager → Volume
row_of name m = new_volume name "nullfs" (volume_path name) m.store.current

abbrev with_row : Text → JailManager → JailManager
with_row name m =
    let t = m.store.current in
    with_store
      (commit (
        with_current (with_volumes (t.volumes ++ row_of name m ∷ []) (suc t.volume_seq) t) m.store))
      m

create_volume-fresh :
    (name : Text) (m : JailManager)
    → fetchone (volume_named name) m.store.current.volumes ≡ none
    → create_volume (ok tt) name m ≡ (some (suc m.store.current.volume_seq, name), with_row name m)
unfolding create_volume
create_volume-fresh name m fresh = rw (
  create_volume,
  fresh,
  insert_unique-fresh same_volume_name (row_of name m) m.store.current.volumes fresh,
)

create_volume-taken :
    (name : Text) (makedirs : Result (Unit {0})) (v : Volume) (m : JailManager)
    → fetchone (volume_named name) m.store.current.volumes ≡ some v
    → create_volume makedirs name m ≡ (none, m)
unfolding create_volume
create_volume-taken name makedirs v m found = rw (create_volume, found)

-- Where no volume has the name and its directory is made: the volume is created and committed, and
-- creating it once more is refused and changes nothing.
pub create_volume-twice :
    (name : Text) (makedirs : Result (Unit {0})) (m : JailManager)
    → fetchone (volume_named name) m.store.current.volumes ≡ none
    → let (answer, m') = create_volume (ok tt) name m in
      (answer ≡ some (suc m.store.current.volume_seq, name))
      × (m'.store.committed ≡ m'.store.current)
      × (create_volume makedirs name m' ≡ (none, m'))
create_volume-twice name makedirs m fresh =
    let found =
      fetchone-append (volume_named name) m.store.current.volumes (row_of name m) fresh
        ((text_beq_iff name name).1 refl) in
    rw (create_volume-fresh name m fresh)
      (refl, refl, create_volume-taken name makedirs (row_of name m) (with_row name m) found)
