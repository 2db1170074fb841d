-- ===== src/Manager/Containers/Status.antt =====
-- The status of a container over its life: starting, exiting, and the server's shutdown.
use Prim.Native.String.{String}
use dockermock.Prelude.{
  ◌&&◌, ◌≡◌, refl, ◌∙◌, inl, inr, ℕ, Bool, true, false, Option, none, some, List, [], ◌∷◌, ◌++◌,
  if◌then◌else◌, ◌==◌, string_eq, nat_eq, arith, is_some, Bool-cases, Option-cases, ok,
}
use dockermock.Prelude.Text.{Text, text_beq, text_beq_iff}
use dockermock.Prelude.Utf8.{Bytes, encode}
use dockermock.Manager.Store.{Container, Store, fetchone, fetchall, update_where}
use dockermock.Manager.Store.Rows.{fetchone-some, fetchone-update_where}
use dockermock.Manager.Containers.{
  JailManager, connected, start_jail, status_jail, update_exit_code, mark_all_exited,
  list_containers, has_name, has_id, has_status, set_status, find_container, is_active, launch,
  send, on_containers, exists,
}

-- Executing `update containers set status=...` by a test that is seen through `name`.
find_container-update :
    (p : Container → Bool) (status : String) (name : Text) (s : Store)
    → fetchone
        (has_name name)
        (on_containers (update_where p (set_status status)) s).current.containers
      ≡ elim (fetchone (has_name name) s.current.containers) [
        | none ↦ none
        | some r ↦ some (if p r then set_status status r else r)
      ]
find_container-update p status name s =
    fetchone-update_where (has_name name) p (set_status status) s.current.containers (λ r. refl)

-- The branches of `start_jail`.
start_jail-missing :
    (m : JailManager) (name : Text)
    → find_container name m ≡ none
    → start_jail name m ≡ (ok "NOJAIL", m)
unfolding start_jail
start_jail-missing m name missing = ground arith

start_jail-active :
    (m : JailManager) (name : Text) (row : Container)
    → find_container name m ≡ some row
    → is_active row ≡ true
    → start_jail name m ≡ (ok row.status, m)
unfolding start_jail
start_jail-active m name row found active = ground arith

start_jail-idle :
    (m : JailManager) (name : Text) (row : Container)
    → find_container name m ≡ some row
    → is_active row ≡ false
    → start_jail name m ≡ launch row (send (name ++ b'\n' ∷ []) m.worker) m
unfolding start_jail
start_jail-idle m name row found idle = ground arith

status_jail-some :
    (m : JailManager) (name : Text) (row : Container)
    → find_container name m ≡ some row
    → status_jail name m ≡ row.status
unfolding status_jail
status_jail-some m name row found = ground arith

running : (i : ℕ) → (i == i) ≡ true
running i = ground arith

-- Where the container exists and is not active and the worker is there: the start answers
-- "running", one line with the name goes to the worker, and the status after it is "running".
pub start_jail-status :
    (m : JailManager) (name : Text) (row : Container) (sent : Bytes)
    → find_container name m ≡ some row
    → is_active row ≡ false
    → m.worker ≡ connected sent
    → ((start_jail name m).0 ≡ ok "running")
      × ((start_jail name m).1.worker ≡ connected (sent ++ encode (name ++ b'\n' ∷ [])))
      × (status_jail name (start_jail name m).1 ≡ "running")
start_jail-status m name row sent found idle there =
    let sent_line : send (name ++ b'\n' ∷ []) m.worker
        ≡ ok (connected (sent ++ encode (name ++ b'\n' ∷ []))) =
      rw (send, there) in
    rw (start_jail-idle m name row found idle, sent_line)
      (
        refl,
        refl,
        status_jail-some _ name (set_status "running" row) (
            find_container-update (has_id row.id) "running" name m.store
            ∙ rw (found, running row.id)),
      )

-- Where the container exists and is not active and the worker is there: starting it once more gives
-- the same answer, sends nothing and changes nothing.
pub start_jail-twice :
    (m : JailManager) (name : Text) (row : Container) (sent : Bytes)
    → find_container name m ≡ some row
    → is_active row ≡ false
    → m.worker ≡ connected sent
    → start_jail name (start_jail name m).1 ≡ start_jail name m
start_jail-twice m name row sent found idle there =
    let sent_line : send (name ++ b'\n' ∷ []) m.worker
        ≡ ok (connected (sent ++ encode (name ++ b'\n' ∷ []))) =
      rw (send, there) in
    let m' = (launch row (ok (connected (sent ++ encode (name ++ b'\n' ∷ [])))) m).1 in
    rw (start_jail-idle m name row found idle, sent_line)
      (start_jail-active m' name (set_status "running" row)
        (find_container-update (has_id row.id) "running" name m.store ∙ rw (found, running row.id))
        refl)

fetchall-update_running :
    (rows : List Container)
    → fetchall
        (has_status "running")
        (update_where (has_status "running") (set_status "exited") rows)
      ≡ []
unfolding fetchall update_where
fetchall-update_running [] = refl
fetchall-update_running (c ∷ rows) = elim (Bool-cases (has_status "running" c)) [
  | inl hit ↦ rw hit (fetchall-update_running rows)
  | inr miss ↦ rw (miss, fetchall, miss) (fetchall-update_running rows)
]

-- After the server's shutdown no container is listed as running.
pub list_containers-mark_all_exited :
    (m : JailManager) → list_containers true (mark_all_exited m) ≡ []
list_containers-mark_all_exited m =
    unfold list_containers mark_all_exited in fetchall-update_running m.store.current.containers

abbrev status_of : Option Container → String
status_of none = "DOESNOTEXIST"
status_of (some row) = row.status

status_jail-eq :
    (name : Text) (m : JailManager) → status_jail name m ≡ status_of (find_container name m)
status_jail-eq name m = unfold status_jail in ground arith

exists-eq : (name : Text) (m : JailManager) → exists name m ≡ is_some (find_container name m)
exists-eq name m = unfold exists in refl

abbrev exited : Text → Option Container → Option Container
exited name none = none
exited name (some row) = some (if has_name name row then set_status "exited" row else row)

exited-eq :
    (name : Text) (o : Option Container)
    → elim o [ none ↦ none | some r ↦ some (if has_name name r then set_status "exited" r else r) ]
      ≡ exited name o
exited-eq name none = refl
exited-eq name (some row) = refl

-- A row that is found by a name has it.
abbrev Named : Text → Option Container → Type 0
Named name none = Unit
Named name (some row) = row.name ≡ name

named : (name : Text) (m : JailManager) → Named name (find_container name m)
named name m = elim (Option-cases (find_container name m)) [
  | inl missing ↦ rw missing tt
  | inr (row, found) ↦
      let (hit, _) = fetchone-some (has_name name) m.store.current.containers row found in
      rw found ((text_beq_iff row.name name).0 hit)
]

status_of-exited_same :
    (name : Text) (o : Option Container)
    → Named name o
    → status_of (exited name o) ≡ (if is_some o then "exited" else status_of o)
status_of-exited_same name none h = refl
status_of-exited_same name (some row) h = let hit = (text_beq_iff row.name name).1 h in rw hit

status_of-exited_other :
    (name other : Text) (o : Option Container)
    → text_beq name other ≡ false
    → Named other o
    → status_of (exited name o) ≡ status_of o
status_of-exited_other name other none differs h = refl
status_of-exited_other name other (some row) differs h =
    let miss : has_name name row ≡ false =
      ground (arith, text_beq_iff row.name name, text_beq_iff name other, h) in
    rw miss

-- After the exit of a container is reported, its status is "exited" if it exists, and the status of
-- every other container is what it was.
pub status_jail-update_exit_code :
    (m : JailManager) (name other : Text) (code : ℕ)
    → status_jail other (update_exit_code name code m).1
      ≡ (if text_beq name other && exists name m then "exited" else status_jail other m)
status_jail-update_exit_code m name other code =
    let updated = find_container-update (has_name name) "exited" other m.store in
    let after : find_container other (update_exit_code name code m).1
        ≡ exited name (find_container other m) =
      unfold update_exit_code in (updated ∙ exited-eq name (find_container other m)) in
    rw
      (
        status_jail-eq other (update_exit_code name code m).1,
        after,
        status_jail-eq other m,
        exists-eq name m,
      )
      (elim (Bool-cases (text_beq name other)) [
        | inl same ↦
            let e : name ≡ other = (text_beq_iff name other).0 same in
            rw (same, e) (status_of-exited_same other (find_container other m) (named other m))
        | inr differs ↦
            rw differs
              (status_of-exited_other name other (find_container other m) differs (named other m))
      ])
