-- ===== src/System/Mounts/Rounds.antt =====
-- Mounting, mounting again, and unmounting.
use dockermock.Prelude.{
  ◌≡◌, refl, Bool, true, false, List, [], ◌∷◌, Result, ok, raise, arith, Bool-cases, inl, inr,
  ok-injective,
}
use dockermock.Prelude.Text.{Text, text_beq_iff}
use dockermock.Worker.Jails.Config.{path_join}
use dockermock.System.Mounts.{
  Fs, is_in, without, dir_made, with_dir, with_mount, mount_at, mount_in, mount_jail,
  unmount_jail_mounts, cenoerr, cenopath,
}

dir_made-mounts :
    (r : Result (Unit {0})) (path : Text) (fs : Fs) → (dir_made r path fs).1.mounts ≡ fs.mounts
dir_made-mounts (raise e) path fs = refl
dir_made-mounts (ok made) path fs = refl

with_dir-mounts :
    (mkdir : Text → Result (Unit {0})) (path : Text) (fs : Fs)
    → (with_dir mkdir path fs).1.mounts ≡ fs.mounts
with_dir-mounts mkdir path fs = elim (Bool-cases (is_in path fs.dirs)) [
  | inl there ↦ rw there
  | inr new ↦ rw new (dir_made-mounts (mkdir path) path fs)
]

is_in-first : (path : Text) (paths : List Text) → is_in path (path ∷ paths) ≡ true
unfolding is_in
is_in-first path paths = rw ((text_beq_iff path path).1 refl)

without-first : (path : Text) (paths : List Text) → without path (path ∷ paths) ≡ paths
unfolding without
without-first path paths = rw ((text_beq_iff path path).1 refl)

mount_at-ok :
    (mounted : Bool) (path : Text) (fs : Fs)
    → (mount_at mounted path fs).0 ≡ cenoerr
    → (is_in path fs.mounts ≡ false) × (mount_at mounted path fs ≡ (cenoerr, with_mount path fs))
unfolding mount_at
mount_at-ok mounted path fs e = elim (Bool-cases (is_in path fs.mounts)) [
  | inl there ↦ absurd (ground arith)
  | inr free ↦ elim (Bool-cases mounted) [
    | inl done ↦ (free, rw (free, done))
    | inr failed ↦ absurd (ground arith)
  ]
]

mount_in-ok :
    (mounted : Bool) (path : Text) (made : Result (Unit {0}) × Fs)
    → (mount_in mounted path made).0 ≡ ok cenoerr
    → (is_in path made.1.mounts ≡ false)
      × ((mount_in mounted path made).1.mounts ≡ path ∷ made.1.mounts)
mount_in-ok mounted path (raise e, fs) same = absurd cc
mount_in-ok mounted path (ok made, fs) same =
    let (free, at) = mount_at-ok mounted path fs (ok-injective same) in (free, rw at)

mount_jail-ok :
    (mkdir : Text → Result (Unit {0})) (mounted : Bool) (dir path : Text) (fs : Fs)
    → (mount_jail mkdir mounted dir path fs).0 ≡ ok cenoerr
    → let dev_path = path_join path dir in
      (is_in dev_path fs.mounts ≡ false)
      × ((mount_jail mkdir mounted dir path fs).1.mounts ≡ dev_path ∷ fs.mounts)
unfolding mount_jail
mount_jail-ok mkdir mounted dir [] fs e = absurd cc
mount_jail-ok mkdir mounted dir (c ∷ path) fs e =
    let dev_path = path_join (c ∷ path) dir in
    elim (Bool-cases (is_in (c ∷ path) fs.dirs)) [
      | inl there ↦
          let (free, added) =
            mount_in-ok mounted dev_path (with_dir mkdir dev_path fs) (rw there at e) in
          let kept = with_dir-mounts mkdir dev_path fs in
          (rw kept at free, rw there (rw kept at added))
      | inr missing ↦ absurd (
          let other : ok cenopath ≡ ok cenoerr = rw missing at e in
          omega (arith, ok-injective other))
    ]

-- A mount in a jail's root that reports no error adds the mount point, which was none before;
-- unmounting it then, where the kernel agrees, reports no error and brings the mount points back to
-- what they were.
pub mount_jail-unmount :
    (mkdir : Text → Result (Unit {0})) (mounted : Bool) (dir path : Text) (fs : Fs)
    → (mount_jail mkdir mounted dir path fs).0 ≡ ok cenoerr
    → let fs' = (mount_jail mkdir mounted dir path fs).1 in
      let dev_path = path_join path dir in
      (fs'.mounts ≡ dev_path ∷ fs.mounts)
      × (is_in dev_path fs.mounts ≡ false)
      × ((unmount_jail_mounts true dev_path fs').0 ≡ cenoerr)
      × ((unmount_jail_mounts true dev_path fs').1.mounts ≡ fs.mounts)
unfolding unmount_jail_mounts
mount_jail-unmount mkdir mounted dir path fs e =
    let dev_path = path_join path dir in
    let (free, added) = mount_jail-ok mkdir mounted dir path fs e in
    (
      added,
      free,
      rw (added, is_in-first dev_path fs.mounts),
      rw (added, is_in-first dev_path fs.mounts) (without-first dev_path fs.mounts),
    )
