-- ===== src/System/Links.antt =====
-- app2/helpers.py: the functions on jails and on their interfaces, which turn an OSError into a
-- code. An id below 0 is none.
use dockermock.Prelude.{
  ℕ, Bool, false, Option, none, some, [], ◌∷◌, if◌then◌else◌, ◌==◌, nat_eq, is_some, name_error,
}
use dockermock.Prelude.Text.{Text, codes}
use dockermock.Prelude.Utf8.{Bytes}
use dockermock.Worker.Jails.Config.{JailParams}
use dockermock.System.Iovec.{json_to_iovec}
use dockermock.System.Mounts.{cenoerr, cerror, cenojail}
use dockermock.System.Effect.{M, ◌>>=◌, ◌>>◌, pure, throw, catch_os}
use dockermock.System.Kernel.{Kernel, SysCall, Sys, invoke}
use dockermock.System.Interfaces.{
  get_if_index, create_interface, destroy_interface, move_to_jail, remove_from_jail, set_ip_address,
}

-- A code, or its negation.
abbrev pub ceinvald : ℕ
ceinvald = 4

-- try: m; return CENOERR; except OSError: return CERROR
abbrev or_cerror : M Sys (Unit {0}) → M Sys ℕ
or_cerror m = catch_os (m >> pure cenoerr) λ e. pure cerror

module _ (kernel : Kernel) where
  unfoldable pub get_jail_id_by_name : Text → M Sys (Option ℕ)
  get_jail_id_by_name name = do
    r ← invoke kernel (SysCall.jail_get name)
    pure (if r.res == 0 then some r.value else none)

  -- An empty name is -1.
  abbrev pub jail_get_id : Text → M Sys (Option ℕ)
  jail_get_id [] = pure none
  jail_get_id (c ∷ name) = get_jail_id_by_name (c ∷ name)

  unfoldable pub start_jail_from_json : (Text → Option Bytes) → JailParams → M Sys (Option ℕ)
  start_jail_from_json inet_aton params = do
    r ← invoke kernel (SysCall.jail_set (json_to_iovec inet_aton params))
    pure (if r.res == 0 then some r.value else none)

  -- None for an empty name stands for -1, which counts as true.
  unfoldable pub check_interface_exist : Text → M Sys (Option Bool)
  check_interface_exist [] = pure none
  check_interface_exist (c ∷ name) = do
    index ← get_if_index kernel (c ∷ name) false
    pure (some (is_some index))

  -- A name that is given is looked at with `bol`, which is not defined.
  abbrev pub epair_name : Option Text → M Sys Text
  epair_name none = pure (codes "epair")
  epair_name (some []) = pure (codes "epair")
  epair_name (some (c ∷ name)) = throw name_error

  unfoldable pub create_epair : Option Text → Bool → M Sys (Option Text)
  create_epair name sock = do
    base ← epair_name name
    catch_os (do epair ← create_interface kernel base sock; pure (some epair)) λ e. pure none

  unfoldable pub destroy_if : Text → M Sys ℕ
  destroy_if [] = pure ceinvald
  destroy_if (c ∷ name) = or_cerror (destroy_interface kernel (c ∷ name) false)

  abbrev pub with_jail : Option ℕ → (ℕ → M Sys (Unit {0})) → M Sys ℕ
  with_jail none f = pure cenojail
  with_jail (some jid) f = or_cerror (f jid)

  unfoldable pub attach_vnet_ifaces : Text → Text → M Sys ℕ
  attach_vnet_ifaces j_name if_name = do
    jid ← get_jail_id_by_name j_name
    with_jail jid λ jid. move_to_jail kernel if_name jid false

  unfoldable pub deattach_vnet_ifaces : Text → Text → M Sys ℕ
  deattach_vnet_ifaces j_name if_name = do
    jid ← get_jail_id_by_name j_name
    with_jail jid λ jid. remove_from_jail kernel if_name jid false

  -- The result of the call is not looked at.
  abbrev pub jail_remove_wrapper : ℕ → M Sys (Unit {0})
  jail_remove_wrapper jid = invoke kernel (SysCall.jail_remove jid) >> pure tt

  unfoldable pub remove_jail_from_name : Text → M Sys ℕ
  remove_jail_from_name [] = pure cerror
  remove_jail_from_name (c ∷ name) = do
    jid ← get_jail_id_by_name (c ∷ name)
    with_jail jid jail_remove_wrapper

  abbrev attach_found : Option ℕ → M Sys ℕ
  attach_found none = pure cenojail
  attach_found (some jid) = do
    res ← invoke kernel (SysCall.attach_jail jid)
    pure (if res.res == 0 then cenoerr else cenojail)

  unfoldable pub jail_attach : Text → M Sys ℕ
  jail_attach [] = pure cenojail
  jail_attach (c ∷ name) = get_jail_id_by_name (c ∷ name) >>= attach_found

  unfoldable pub set_if_address : (Text → Bool) → Text → Text → Text → Option Text → Bool → M Sys ℕ
  set_if_address is_ip if_name ip_addr net_mask brodcast_addr sock =
      or_cerror (set_ip_address kernel is_ip if_name ip_addr net_mask brodcast_addr sock)

  -- The flag is MNT_RDONLY.
  unfoldable pub mount_host_to_jail : Text → Text → Bool → M Sys ℕ
  mount_host_to_jail jail_path host_path rdonly = do
    res ← invoke kernel (SysCall.nmount "nullfs" jail_path host_path rdonly)
    pure (if res.res == 0 then cenoerr else cerror)
