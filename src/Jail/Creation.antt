-- ===== src/Jail/Creation.antt =====
-- `create_jail` keeps account of the interfaces that it creates.
use mathlib.Core.List.{Memᴰ}
use mathlib.Core.List.Memᴰ
use dockermock.Prelude.{
  ℕ, ◌≡◌, refl, ◌⊎◌, inl, inr, Bool, true, false, Option, none, some, List, [], ◌∷◌, ◌==◌, nat_eq,
  string_eq, Bool-cases, Result, ok, All-append, All-map, exception, not,
}
use dockermock.Prelude.Text.{Text, codes}
use dockermock.Prelude.Utf8.{Bytes, encode}
use dockermock.Worker.Calls.{Net}
use dockermock.System.Effect.{◌>>=◌, pure, raise_when, catch_os}
use dockermock.System.Effect.Follows.{
  Follows, Follows-pure, Follows-bind, Follows-when, Follows-for_each, Follows-raise_when,
  Follows-catch_all,
}
use dockermock.System.Kernel.{Kernel, SysCall, Sys, invoke, open_unless, close_unless}
use dockermock.System.Kernel.Quiet.{
  quiet, created, IsQuiet, quiets, IsQuiet-bind, IsQuiet-pure, IsQuiet-for_each, IsQuiet-when,
  IsQuiet-catch_os, is_create, created-create, created-failed,
}
use dockermock.System.Interfaces.{create_interface, ioctl, name_field}
use dockermock.System.Interfaces.Quiet.{
  bridge_if-IsQuiet, attach_vnet_ifaces-IsQuiet, mount_host_to_jail-IsQuiet,
  start_jail_from_json-IsQuiet,
}
use Prim.Native.String.{String}
use dockermock.System.Mounts.{Fs, cenoerr, cerror, mount_jail_defvs, mount_jail_tmpfs}
use dockermock.System.Links.{create_epair}
use dockermock.System.Limits.{rctl-IsQuiet}
use dockermock.System.Rctl.{Limit}
use dockermock.Jail.{
  UserMount, JailConfig, JailState, lift, get, put, add_epair, mount_fs, mount_devfs, mount_tmpfs,
  mount_one, handle_fs_mounts, bridge_epair, epair_up, create_epair_up, connect, connect_all,
  attach_inteface_up, lacks_jid, prepare, make_as, make_file, must, test_path, handle_mount,
  handle_mounts, mount_target, mount_dest, add_rule, apply_rules, apply_limits, create_jail,
  host_side,
}
use dockermock.Jail.Tracking.{
  IsName, NamesInterfaces, IsTracked, Tracks, tracks, lift-Tracks, set_jid-Tracks, set_devfs-Tracks,
  get-Tracks, logged-IsQuiet,
}

module _ (kernel : Kernel) where
  mount_fs-IsQuiet :
      (fstype : String) (mount : (Text → Result (Unit {0})) → Bool → Text → Fs → Result ℕ × Fs)
      (path : Text)
      → Follows IsQuiet (mount_fs kernel fstype mount path)
  unfolding mount_fs
  mount_fs-IsQuiet fstype mount path = record {
    at = λ s. record { none_created = refl; kept = λ c h. h };
  }

  mount_devfs-Tracks : (c : JailConfig) → Follows Tracks (mount_devfs kernel c)
  unfolding mount_devfs
  mount_devfs-Tracks c = Follows-bind tracks get-Tracks λ self.
      Follows-when tracks (not self.devfs_mounted) (
        Follows-bind tracks
          (lift-Tracks (logged-IsQuiet (mount_fs-IsQuiet "devfs" mount_jail_defvs c.root)))
          λ t. set_devfs-Tracks true)

  mount_tmpfs-Tracks : (c : JailConfig) → Follows Tracks (mount_tmpfs kernel c)
  unfolding mount_tmpfs
  mount_tmpfs-Tracks c =
      lift-Tracks (logged-IsQuiet (mount_fs-IsQuiet "tmpfs" mount_jail_tmpfs c.root))

  mount_one-Tracks : (c : JailConfig) (fs : String) → Follows Tracks (mount_one kernel c fs)
  mount_one-Tracks c fs = elim (Bool-cases (fs == "devfs")) [
    | inl devfs ↦ rw devfs (mount_devfs-Tracks c)
    | inr other ↦ rw other (elim (Bool-cases (fs == "tmpfs")) [
      | inl tmpfs ↦ rw tmpfs (mount_tmpfs-Tracks c)
      | inr unknown ↦ rw unknown (Follows-pure tracks tt)
    ])
  ]

  handle_fs_mounts-Tracks : (c : JailConfig) → Follows Tracks (handle_fs_mounts kernel c)
  unfolding handle_fs_mounts
  handle_fs_mounts-Tracks c =
      Follows-for_each tracks (mount_one kernel c) c.fs_mounts (mount_one-Tracks c)

  test_path-IsQuiet :
      (call : SysCall) → is_create call ≡ false → Follows IsQuiet (test_path kernel call)
  test_path-IsQuiet call other = search quiets

  must-IsQuiet : (call : SysCall) → is_create call ≡ false → Follows IsQuiet (must kernel call)
  must-IsQuiet call other = search quiets

  make_file-IsQuiet :
      (target dest : Text) (isfile : Bool) → Follows IsQuiet (make_file kernel target dest isfile)
  make_file-IsQuiet target dest true = must-IsQuiet (SysCall.touch dest) refl
  make_file-IsQuiet target dest false =
      IsQuiet-bind (must-IsQuiet (SysCall.makedirs target) refl)
        λ t. must-IsQuiet (SysCall.makedirs dest) refl

  make_as-IsQuiet :
      (target dest : Text) (isdir : Bool) → Follows IsQuiet (make_as kernel target dest isdir)
  make_as-IsQuiet target dest true = must-IsQuiet (SysCall.makedirs dest) refl
  make_as-IsQuiet target dest false =
      IsQuiet-bind (test_path-IsQuiet (SysCall.path_isfile target) refl)
        (make_file-IsQuiet target dest)

  handle_mount-IsQuiet :
      (realpath : Text → Text) (c : JailConfig) (m : UserMount)
      → Follows IsQuiet (handle_mount kernel realpath c m)
  unfolding handle_mount prepare
  handle_mount-IsQuiet realpath c m =
      let target = mount_target realpath m in
      let dest = mount_dest c.root m in
      IsQuiet-bind
        (IsQuiet-bind (test_path-IsQuiet (SysCall.path_exists dest) refl) λ exists.
          IsQuiet-when (not exists) (
            IsQuiet-bind (test_path-IsQuiet (SysCall.path_isdir target) refl)
              (make_as-IsQuiet target dest)))
        λ t. logged-IsQuiet (mount_host_to_jail-IsQuiet kernel dest target m.readonly)

  apply_rules-IsQuiet :
      (c : JailConfig) (limits : Option (List Limit))
      → Follows IsQuiet (apply_rules kernel c limits)
  apply_rules-IsQuiet c none = IsQuiet-pure tt
  apply_rules-IsQuiet c (some limits) = IsQuiet-for_each (add_rule kernel) _ λ rule.
      Follows-catch_all quiet
        (IsQuiet-bind (rctl-IsQuiet kernel (SysCall.rctl_add rule) refl) λ out. IsQuiet-pure tt)
        (IsQuiet-pure tt)

  -- After `create_epair`: an interface was created and has its name, or none was.
  create_epair-cases :
      NamesInterfaces kernel
      → (s : Sys)
      → let (r, s') = create_epair kernel none false s in
        ((r ≡ ok none) × (created s'.log ≡ created s.log))
        ⊎ ((e : Text) × (r ≡ ok (some e)) × IsName e × (created s'.log ≡ e ∷ created s.log))
  unfolding create_epair create_interface ioctl name_field raise_when ◌>>=◌ pure catch_os invoke
      open_unless close_unless created encode
  create_epair-cases named s =
      let o = kernel s.log SysCall.open_socket in
      let log' = (SysCall.open_socket, o) ∷ s.log in
      let base = encode (codes "epair") in
      let r = kernel log' (SysCall.siocifcreate2 base) in
      elim (Bool-cases (o.res == 0)) [
        | inr failed ↦ inl (rw failed (refl, refl))
        | inl done ↦ elim (Bool-cases (r.res == 0)) [
          | inl made ↦ inr (
            r.name,
            rw (done, made),
            named.named log' base,
            rw (done, made) (created-create base r log' made),
          )
          | inr failed ↦
              inl (rw (done, failed), rw (done, failed) (created-failed base r log' failed))
        ]
      ]

  bridge_epair-IsQuiet :
      (network : Net) (epair : Text) → Follows IsQuiet (bridge_epair kernel network epair)
  bridge_epair-IsQuiet network epair =
      IsQuiet-catch_os
        (IsQuiet-bind (bridge_if-IsQuiet kernel network.name (host_side epair) true false)
          λ t. IsQuiet-pure cenoerr)
        λ n. IsQuiet-pure cerror

  -- A new interface with a name is added to those of the jail before anything else is done.
  add_epair-IsTracked :
      (st : JailState) (s : Sys) (e : Text)
      → IsName e
      → created s.log ≡ e ∷ created st.sys.log
      → IsTracked st
      → IsTracked (add_epair e (record { jail = st.jail; sys = s })).1
  unfolding get put ◌>>=◌
  add_epair-IsTracked st s e name made h = record {
    held = rw made (
      Memᴰ.append_right st.jail.epair (Memᴰ.head refl),
      All-map (λ e'. Memᴰ e' st.jail.epair) _ (created st.sys.log)
          (λ e' m. Memᴰ.append_left {s = st.jail.epair} (e ∷ []) m) h.held,
    );
    names = All-append IsName st.jail.epair (e ∷ []) h.names (name, tt);
  }

  epair_up-IsTracked :
      (network : Net) (o : Option Text) (st : JailState) (s : Sys)
      → ((o ≡ none) × (created s.log ≡ created st.sys.log))
        ⊎ ((e : Text) × (o ≡ some e) × IsName e × (created s.log ≡ e ∷ created st.sys.log))
      → IsTracked st
      → IsTracked (epair_up kernel network o (record { jail = st.jail; sys = s })).1
  unfolding ◌>>=◌ pure get put
  epair_up-IsTracked network o st s (inl (missing, same)) h =
      rw missing (record { held = rw same h.held; names = h.names })
  epair_up-IsTracked network o st s (inr ([], found, name, made)) h = absurd (name.1 refl)
  epair_up-IsTracked network o st s (inr (c ∷ e, found, name, made)) h =
      let st' = (add_epair (c ∷ e) (record { jail = st.jail; sys = s })).1 in
      rw found (
        (lift-Tracks (bridge_epair-IsQuiet network (c ∷ e))).at st'
          (add_epair-IsTracked st s (c ∷ e) name made h))

  create_epair_up-Tracks :
      NamesInterfaces kernel → (network : Net) → Follows Tracks (create_epair_up kernel network)
  unfolding create_epair_up ◌>>=◌ lift
  create_epair_up-Tracks named network = record {
    at = λ st h.
        let (r, s) = create_epair kernel none false st.sys in
        elim (create_epair-cases named st.sys) [
          | inl (missing, same) ↦
              rw missing (epair_up-IsTracked network none st s (inl (refl, same)) h)
          | inr (e, made, name, added) ↦
              rw made (epair_up-IsTracked network (some e) st s (inr (e, refl, name, added)) h)
        ];
  }

  connect-Tracks :
      NamesInterfaces kernel → (network : Net) → Follows Tracks (connect kernel network)
  connect-Tracks named network = Follows-when tracks (network.driver == "bridge") (
      Follows-bind tracks (create_epair_up-Tracks named network)
        λ res. Follows-raise_when tracks (not (res == cenoerr)) exception)

  attach_inteface_up-Tracks : (c : JailConfig) → Follows Tracks (attach_inteface_up kernel c)
  unfolding attach_inteface_up
  attach_inteface_up-Tracks c = Follows-bind tracks get-Tracks λ self.
      Follows-when tracks (not (lacks_jid self.jid)) (
        lift-Tracks (
          IsQuiet-for_each _ self.epair
            λ epair. logged-IsQuiet (attach_vnet_ifaces-IsQuiet kernel c.name epair)))

  connect_all-Tracks :
      NamesInterfaces kernel
      → (c : JailConfig) (networks : List Net) → Follows Tracks (connect_all kernel c networks)
  connect_all-Tracks named c [] = Follows-pure tracks tt
  connect_all-Tracks named c (network ∷ networks) =
      Follows-bind tracks
        (Follows-when tracks (not (network.driver == "host"))
          (Follows-for_each tracks (connect kernel) (network ∷ networks) (connect-Tracks named)))
        λ t. attach_inteface_up-Tracks c

  pub create_jail-Tracks :
      NamesInterfaces kernel
      → (inet_aton : Text → Option Bytes) (realpath : Text → Text) (c : JailConfig)
      → Follows Tracks (create_jail kernel inet_aton realpath c)
  unfolding create_jail handle_mounts apply_limits
  create_jail-Tracks named inet_aton realpath c =
      Follows-bind tracks (lift-Tracks (start_jail_from_json-IsQuiet kernel inet_aton c.params))
        λ jid. Follows-bind tracks (set_jid-Tracks jid) λ t.
          Follows-bind tracks (connect_all-Tracks named c c.networks) λ t.
            Follows-bind tracks (handle_fs_mounts-Tracks c) λ t.
              Follows-bind tracks
                (lift-Tracks (
                  IsQuiet-for_each (handle_mount kernel realpath c) c.mounts
                    (handle_mount-IsQuiet realpath c)))
                λ t. lift-Tracks (apply_rules-IsQuiet c c.limits)
