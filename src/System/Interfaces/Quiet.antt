-- ===== src/System/Interfaces/Quiet.antt =====
-- The functions on interfaces that create none.
use dockermock.Prelude.{
  ℕ, ◌≡◌, Bool, false, Option, none, some, [], ◌∷◌, ◌==◌, nat_eq, Bool-cases, inl, inr,
}
use dockermock.Prelude.Text.{Text}
use dockermock.Prelude.Utf8.{Bytes}
use dockermock.Worker.Jails.Config.{JailParams}
use dockermock.System.Effect.{M}
use dockermock.System.Mounts.{cenoerr, cerror}
use dockermock.System.Effect.Follows.{Follows}
use dockermock.System.Kernel.{Kernel, SysCall, Answer, Sys}
use dockermock.System.Kernel.Quiet.{
  IsQuiet, quiets, IsQuiet-bind, IsQuiet-catch_os, IsQuiet-pure, is_create,
}
use dockermock.System.Interfaces.{
  name_field, ioctl, destroy_interface, move_to_jail, remove_from_jail, get_if_flags, set_if_flag,
  bridge_if, bridged,
}
use dockermock.System.Links.{
  get_jail_id_by_name, start_jail_from_json, attach_vnet_ifaces, deattach_vnet_ifaces, destroy_if,
  remove_jail_from_name, mount_host_to_jail, with_jail,
}

name_field-IsQuiet : (name : Text) → Follows IsQuiet (name_field name)
unfolding name_field
name_field-IsQuiet name = search quiets

module _ (kernel : Kernel) where
  ioctl-IsQuiet :
      (sock : Bool) (c : SysCall) → is_create c ≡ false → Follows IsQuiet (ioctl kernel sock c)
  unfolding ioctl
  ioctl-IsQuiet sock c other = search quiets

  pub set_if_flag-IsQuiet :
      (name : Text) (flag : ℕ) (sock : Bool) → Follows IsQuiet (set_if_flag kernel name flag sock)
  unfolding set_if_flag get_if_flags
  set_if_flag-IsQuiet name flag sock = search (quiets, name_field-IsQuiet, ioctl-IsQuiet) depth 12

  bridged-IsQuiet :
      (name : Text) (sock : Bool) (r : Answer) → Follows IsQuiet (bridged kernel name sock r)
  bridged-IsQuiet name sock r = elim (Bool-cases (r.res == 0)) [
    | inl done ↦ rw done (search (quiets, set_if_flag-IsQuiet))
    | inr failed ↦ rw failed (search quiets)
  ]

  pub bridge_if-IsQuiet :
      (bridge member : Text) (add sock : Bool)
      → Follows IsQuiet (bridge_if kernel bridge member add sock)
  unfolding bridge_if
  bridge_if-IsQuiet bridge member add sock =
      search (quiets, name_field-IsQuiet, bridged-IsQuiet member sock) depth 12

  move_to_jail-IsQuiet :
      (name : Text) (jid : ℕ) (sock : Bool) → Follows IsQuiet (move_to_jail kernel name jid sock)
  unfolding move_to_jail
  move_to_jail-IsQuiet name jid sock = search (quiets, name_field-IsQuiet, ioctl-IsQuiet) depth 12

  remove_from_jail-IsQuiet :
      (name : Text) (jid : ℕ) (sock : Bool)
      → Follows IsQuiet (remove_from_jail kernel name jid sock)
  unfolding remove_from_jail
  remove_from_jail-IsQuiet name jid sock =
      search (quiets, name_field-IsQuiet, ioctl-IsQuiet) depth 12

  destroy_interface-IsQuiet :
      (name : Text) (sock : Bool) → Follows IsQuiet (destroy_interface kernel name sock)
  unfolding destroy_interface
  destroy_interface-IsQuiet name sock = search (quiets, name_field-IsQuiet, ioctl-IsQuiet) depth 12

  get_jail_id_by_name-IsQuiet : (name : Text) → Follows IsQuiet (get_jail_id_by_name kernel name)
  unfolding get_jail_id_by_name
  get_jail_id_by_name-IsQuiet name = search quiets

  with_jail-IsQuiet :
      (jid : Option ℕ) (f : ℕ → M Sys (Unit {0}))
      → ((jid : ℕ) → Follows IsQuiet (f jid))
      → Follows IsQuiet (with_jail kernel jid f)
  with_jail-IsQuiet none f h = search quiets
  with_jail-IsQuiet (some jid) f h =
      IsQuiet-catch_os (IsQuiet-bind (h jid) λ t. IsQuiet-pure cenoerr) λ n. IsQuiet-pure cerror

  pub attach_vnet_ifaces-IsQuiet :
      (j_name if_name : Text) → Follows IsQuiet (attach_vnet_ifaces kernel j_name if_name)
  unfolding attach_vnet_ifaces
  attach_vnet_ifaces-IsQuiet j_name if_name =
      IsQuiet-bind (get_jail_id_by_name-IsQuiet j_name)
        λ jid. with_jail-IsQuiet jid _ (λ jid. move_to_jail-IsQuiet if_name jid false)

  pub deattach_vnet_ifaces-IsQuiet :
      (j_name if_name : Text) → Follows IsQuiet (deattach_vnet_ifaces kernel j_name if_name)
  unfolding deattach_vnet_ifaces
  deattach_vnet_ifaces-IsQuiet j_name if_name =
      IsQuiet-bind (get_jail_id_by_name-IsQuiet j_name)
        λ jid. with_jail-IsQuiet jid _ (λ jid. remove_from_jail-IsQuiet if_name jid false)

  pub destroy_if-IsQuiet : (name : Text) → Follows IsQuiet (destroy_if kernel name)
  unfolding destroy_if
  destroy_if-IsQuiet [] = search quiets
  destroy_if-IsQuiet (c ∷ name) = search (quiets, destroy_interface-IsQuiet)

  pub remove_jail_from_name-IsQuiet :
      (name : Text) → Follows IsQuiet (remove_jail_from_name kernel name)
  unfolding remove_jail_from_name
  remove_jail_from_name-IsQuiet [] = search quiets
  remove_jail_from_name-IsQuiet (c ∷ name) =
      IsQuiet-bind (get_jail_id_by_name-IsQuiet (c ∷ name))
        λ jid. with_jail-IsQuiet jid _ (λ jid. search quiets)

  pub mount_host_to_jail-IsQuiet :
      (jail_path host_path : Text) (rdonly : Bool)
      → Follows IsQuiet (mount_host_to_jail kernel jail_path host_path rdonly)
  unfolding mount_host_to_jail
  mount_host_to_jail-IsQuiet jail_path host_path rdonly = search quiets

  pub start_jail_from_json-IsQuiet :
      (inet_aton : Text → Option Bytes) (params : JailParams)
      → Follows IsQuiet (start_jail_from_json kernel inet_aton params)
  unfolding start_jail_from_json
  start_jail_from_json-IsQuiet inet_aton params = search quiets
