-- ===== src/Jail/Removal.antt =====
-- The loop of `destroy_epair` destroys every interface of the jail.
use mathlib.Core.List.{Memᴰ}
use Prim.Native.String.{String}
use dockermock.Prelude.{
  ℕ, ◌≡◌, refl, inl, inr, Bool, true, false, ◌&&◌, List, [], ◌∷◌, ◌++◌, ◌==◌, nat_eq, string_eq,
  Bool-cases, Result, ok, All, All-map, All-mem, arith, not, os_error,
}
use dockermock.Prelude.Text.{Text, codes}
use dockermock.Prelude.Utf8.{encode}
use dockermock.System.Effect.{M, ◌>>=◌, ◌>>◌, pure, raise_when, catch_os, for_each}
use dockermock.System.Effect.Follows.{
  IsPreorder, Follows, Follows-pure, Follows-bind, Follows-when, Follows-for_each,
  Follows-catch_all, bind-ok,
}
use dockermock.System.Kernel.{Kernel, SysCall, Sys, Log, invoke, open_unless, close_unless}
use dockermock.System.Kernel.Quiet.{
  created, Called, IsQuiet, quiet, IsQuiet-bind, IsQuiet-pure, IsQuiet-for_each, IsQuiet-invoke,
  IsQuiet-raise_when,
}
use dockermock.System.Interfaces.{destroy_interface, ioctl, name_field}
use dockermock.System.Interfaces.Quiet.{
  deattach_vnet_ifaces-IsQuiet, remove_jail_from_name-IsQuiet, destroy_if-IsQuiet,
}
use dockermock.System.Links.{destroy_if}
use dockermock.System.Limits.{rctl-IsQuiet}
use dockermock.System.Mounts.{Fs, unmount_jail_defvs, unmount_jail_tmpfs, unmount_jail_mounts}
use dockermock.Jail.{
  JailConfig, JailState, lift, get, put, logged, set_devfs, lacks_jid, mount_dest,
}
use dockermock.Jail.Destroy.{
  target_of, is_empty, unmount_fs, unmount_tmpfs, unmount_devfs, unmount_one, handle_fs_umounts,
  deattach_epair, destroy_epair, stop_jail, handle_unmount, remove_rules,
}
use dockermock.Jail.Tracking.{
  IsName, IsTracked, Tracks, tracks, lift-Tracks, get-Tracks, logged-IsQuiet,
}
use dockermock.Jail.Endings.{Runs}

abbrev pub IsDestroyed : Log → Text → Type 0
IsDestroyed log e = Called (SysCall.siocifdestroy (encode e)) log

-- Every interface that was created was destroyed.
abbrev pub Cleans : JailState → Type 0
Cleans st = All (IsDestroyed st.sys.log) (created st.sys.log)

abbrev pub KeepsClean : JailState → JailState → Type 0
KeepsClean st st' = Cleans st → Cleans st'

cleaning : IsPreorder KeepsClean
cleaning = record { same = λ s h. h; next = λ s t u p q h. q (p h) }

cleans_quiet :
    (s s' : Sys)
    → IsQuiet s s'
    → All (IsDestroyed s.log) (created s.log)
    → All (IsDestroyed s'.log) (created s'.log)
cleans_quiet s s' q h =
    rw q.none_created
      (All-map (IsDestroyed s.log) (IsDestroyed s'.log) (created s.log) (λ e d. q.kept _ d) h)

lift-KeepsClean : {A : Type 0} {m : M Sys A} → Follows IsQuiet m → Follows KeepsClean (lift m)
unfolding lift
lift-KeepsClean {A} {m} q = record { at = λ st h. cleans_quiet st.sys (m st.sys).1 (q.at st.sys) h }

set_devfs-KeepsClean : (mounted : Bool) → Follows KeepsClean (set_devfs mounted)
unfolding get put ◌>>=◌
set_devfs-KeepsClean mounted = record { at = λ st h. h }

get-KeepsClean : Follows KeepsClean get
unfolding get
get-KeepsClean = record { at = λ st h. h }

module _ (kernel : Kernel) where
  unmount_fs-IsQuiet :
      (unmount : Bool → Text → Fs → ℕ × Fs) (path : Text)
      → Follows IsQuiet (unmount_fs kernel unmount path)
  unfolding unmount_fs
  unmount_fs-IsQuiet unmount path = record {
    at = λ s. record { none_created = refl; kept = λ c h. h };
  }

  unmount_one-KeepsClean :
      (c : JailConfig) (fs : String) → Follows KeepsClean (unmount_one kernel c fs)
  unfolding unmount_devfs unmount_tmpfs
  unmount_one-KeepsClean c fs = elim (Bool-cases (fs == "devfs")) [
    | inl devfs ↦ rw devfs (
        Follows-bind cleaning get-KeepsClean λ self. Follows-when cleaning self.devfs_mounted (
          Follows-bind cleaning
            (lift-KeepsClean (logged-IsQuiet (unmount_fs-IsQuiet unmount_jail_defvs c.root)))
            λ t. set_devfs-KeepsClean false))
    | inr other ↦ rw other (elim (Bool-cases (fs == "tmpfs")) [
      | inl tmpfs ↦
          rw tmpfs (lift-KeepsClean (logged-IsQuiet (unmount_fs-IsQuiet unmount_jail_tmpfs c.root)))
      | inr unknown ↦ rw unknown (Follows-pure cleaning tt)
    ])
  ]

  -- What `tear_down` does after it has destroyed the interfaces.
  pub rest-KeepsClean :
      (c : JailConfig)
      → Follows KeepsClean (
          handle_fs_umounts kernel c
          >> (lift (handle_unmount kernel c) >> lift (remove_rules kernel c)))
  unfolding handle_fs_umounts handle_unmount remove_rules
  rest-KeepsClean c =
      Follows-bind cleaning
        (Follows-for_each cleaning (unmount_one kernel c) c.fs_mounts (unmount_one-KeepsClean c))
        λ t.
          Follows-bind cleaning
            (lift-KeepsClean (
              IsQuiet-for_each _ c.mounts
                λ m. logged-IsQuiet (unmount_fs-IsQuiet unmount_jail_mounts (mount_dest c.root m))))
            λ t. lift-KeepsClean (
              Follows-catch_all quiet
                (IsQuiet-bind
                  (rctl-IsQuiet kernel (SysCall.rctl_remove (codes "jail:" ++ c.name)) refl)
                  λ out. IsQuiet-pure tt)
                (IsQuiet-pure tt))

  -- One interface: the function ends, and the call was made.
  destroy_if_called :
      (e : Text) (s : Sys)
      → Runs kernel
      → IsName e
      → ((logged (destroy_if kernel e) s).0 ≡ ok tt)
        × IsDestroyed (logged (destroy_if kernel e) s).1.log e
  unfolding destroy_if destroy_interface name_field raise_when ioctl invoke ◌>>=◌ pure open_unless
      close_unless catch_os Called
  destroy_if_called [] s runs named = absurd (named.1 refl)
  destroy_if_called (c ∷ e) s runs named =
      let o = kernel s.log SysCall.open_socket in
      let call = SysCall.siocifdestroy (encode (c ∷ e)) in
      let r = kernel ((SysCall.open_socket, o) ∷ s.log) call in
      let opened : (o.res == 0) ≡ true = (let zero = runs.opens s.log in ground arith) in
      rw (named.0, opened)
        (elim (Bool-cases (r.res == 0)) [
          | inl done ↦ rw done (refl, inl refl)
          | inr failed ↦ rw failed (refl, inl refl)
        ])

  -- What a loop has done, seen through an equation.
  abbrev HasDestroyed : List Text → Result (Unit {0}) × Sys → Type 0
  HasDestroyed l r = (r.0 ≡ ok tt) × All (IsDestroyed r.1.log) l

  HasDestroyed-of :
      (l : List Text) (r r' : Result (Unit {0}) × Sys)
      → r ≡ r'
      → HasDestroyed l r'
      → HasDestroyed l r
  HasDestroyed-of l r r' e h = rw e h

  loop_destroys :
      (l : List Text) (s : Sys)
      → Runs kernel
      → All IsName l
      → HasDestroyed l (for_each (λ e. logged (destroy_if kernel e)) l s)
  unfolding for_each pure
  loop_destroys [] s runs names = (refl, tt)
  loop_destroys (e ∷ l) s runs names =
      let f : Text → M Sys (Unit {0}) = λ e. logged (destroy_if kernel e) in
      let (ended, called) = destroy_if_called e s runs names.0 in
      let (rest, later) = loop_destroys l (f e s).1 runs names.1 in
      let q = IsQuiet-for_each f l (λ e. logged-IsQuiet (destroy_if-IsQuiet kernel e)) in
      HasDestroyed-of (e ∷ l) _ (for_each f l (f e s).1)
        (bind-ok (f e) (λ t. for_each f l) s tt ended)
        (rest, ((q.at (f e s).1).kept (SysCall.siocifdestroy (encode e)) called, later))

  -- The loop over the interfaces of the jail destroys each of them, so every one that was created.
  pub destroy_epair-Cleans :
      (st : JailState)
      → Runs kernel
      → IsTracked st
      → ((destroy_epair kernel st).0 ≡ ok tt) × Cleans (destroy_epair kernel st).1
  unfolding destroy_epair get put lift ◌>>=◌
  destroy_epair-Cleans st runs h =
      let f : Text → M Sys (Unit {0}) = λ e. logged (destroy_if kernel e) in
      let (ended, called) = loop_destroys st.jail.epair st.sys runs h.names in
      let q =
        IsQuiet-for_each f st.jail.epair (λ e. logged-IsQuiet (destroy_if-IsQuiet kernel e)) in
      rw ended (
        refl,
        rw ((q.at st.sys).none_created) (
            All-map (λ e. Memᴰ e st.jail.epair) _ (created st.sys.log)
              (λ e m. All-mem _ st.jail.epair called m) h.held),
      )

  pub deattach_epair-Tracks : (c : JailConfig) → Follows Tracks (deattach_epair kernel c)
  unfolding deattach_epair
  deattach_epair-Tracks c = Follows-bind tracks get-Tracks λ self. lift-Tracks (
      IsQuiet-for_each _ self.epair
        λ e. logged-IsQuiet (deattach_vnet_ifaces-IsQuiet kernel c.name e))

  pub stop_jail-Tracks : (c : JailConfig) → Follows Tracks (stop_jail kernel c)
  unfolding stop_jail
  stop_jail-Tracks c = Follows-bind tracks get-Tracks λ self.
      Follows-when tracks (not (lacks_jid self.jid && is_empty c.name)) (
        lift-Tracks (
          IsQuiet-bind
            (IsQuiet-bind (IsQuiet-invoke kernel (SysCall.jexec (target_of c.name self.jid)) refl)
              λ r. IsQuiet-raise_when (not (r.res == 0)) (os_error r.errno))
            λ t. logged-IsQuiet (remove_jail_from_name-IsQuiet kernel c.name)))
