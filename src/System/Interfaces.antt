-- ===== src/System/Interfaces.antt =====
-- app2/lib/methods.py: the functions on network interfaces. The argument `sock` is whether the
-- caller gives a socket: otherwise the function opens one, and closes it.
pub mod Sockets
pub mod Closing
pub mod Quiet
mod Tests
use Prim.Native.String.{String}
use Prim.Native.Nat.{bit_or}
use dockermock.Prelude.{
  ℕ, ◌+◌, ◌*◌, ◌/◌, ◌%◌, Bool, true, false, not, ◌&&◌, Option, none, some, List, [], ◌∷◌,
  if◌then◌else◌, ◌==◌, nat_eq, ltb, os_error, value_error,
}
use dockermock.Prelude.Text.{Text, codes}
use dockermock.Prelude.Utf8.{Bytes, encode}
use dockermock.System.Pf.{byte_count}
use dockermock.System.Effect.{M, and_then, ◌>>=◌, ◌>>◌, pure, throw, raise_when, catch_os, handled}
use dockermock.System.Kernel.{Kernel, SysCall, Answer, Sys, invoke, open_unless, close_unless}

abbrev pub ifnamsiz : ℕ
ifnamsiz = 16

abbrev pub iff_up : ℕ
iff_up = 1

-- An array of IFNAMSIZ chars refuses more bytes.
unfoldable pub name_field : Text → M Sys Bytes
name_field name =
    raise_when (ltb ifnamsiz (byte_count (encode name))) value_error >> pure (encode name)

-- if res != 0: raise OSError(errno, ...)
abbrev pub raise_failed : Answer → M Sys (Unit {0})
raise_failed r = raise_when (not (r.res == 0)) (os_error r.errno)

module _ (kernel : Kernel) where
  -- Open a socket, call ioctl, close the socket.
  unfoldable pub ioctl : Bool → SysCall → M Sys Answer
  ioctl sock c = do open_unless kernel sock; ret ← invoke kernel c; close_unless sock; pure ret

  -- None for -1.
  unfoldable pub get_if_index : Text → Bool → M Sys (Option ℕ)
  get_if_index interface sock = do
    name ← name_field interface
    res ← ioctl sock (SysCall.siocgifindex name)
    pure (if res.res == 0 then some res.value else none)

  -- The messages for an empty name are printed, and -1 is none.
  unfoldable pub set_interface_group : Text → Text → Bool → M Sys (Option (Unit {0}))
  set_interface_group [] group_name sock = pure none
  set_interface_group (c ∷ interface) [] sock = pure none
  set_interface_group (c ∷ interface) (d ∷ group_name) sock = do
    name ← name_field (c ∷ interface)
    group ← name_field (d ∷ group_name)
    res ← ioctl sock (SysCall.siocaifgroup name group)
    raise_failed res
    pure (some tt)

  unfoldable pub create_interface : Text → Bool → M Sys Text
  create_interface base_name sock = do
    name ← name_field base_name
    ret ← ioctl sock (SysCall.siocifcreate2 name)
    raise_failed ret
    pure ret.name

  unfoldable pub destroy_interface : Text → Bool → M Sys (Unit {0})
  destroy_interface name sock = do
    field ← name_field name
    ret ← ioctl sock (SysCall.siocifdestroy field)
    raise_failed ret

  unfoldable pub rename_interface : Text → Text → Bool → M Sys (Unit {0})
  rename_interface name newname sock = do
    field ← name_field name
    ret ← ioctl sock (SysCall.siocsifname field (encode newname))
    raise_failed ret

  unfoldable pub move_to_jail : Text → ℕ → Bool → M Sys (Unit {0})
  move_to_jail name jid sock = do
    field ← name_field name
    ret ← ioctl sock (SysCall.siocsifvnet field jid)
    raise_failed ret

  unfoldable pub remove_from_jail : Text → ℕ → Bool → M Sys (Unit {0})
  remove_from_jail name jid sock = do
    field ← name_field name
    ret ← ioctl sock (SysCall.siocsifrvnet field jid)
    raise_failed ret

  -- The upper half is a signed short; its sign goes when the flags are taken apart again.
  unfoldable pub get_if_flags : Text → Bool → M Sys ℕ
  get_if_flags name sock = do
    field ← name_field name
    res ← ioctl sock (SysCall.siocgifflags field)
    raise_failed res
    pure (res.flags.0 % 65536 + res.flags.1 * 65536)

  -- A socket of its own stays open where `get_if_flags` raises.
  unfoldable pub set_if_flag : Text → ℕ → Bool → M Sys (Unit {0})
  set_if_flag name flag sock = do
    open_unless kernel sock
    old ← get_if_flags name true
    let flags = bit_or old flag
    field ← name_field name
    res ← invoke kernel (SysCall.siocsifflags field (flags % 65536) (flags / 65536 % 65536))
    close_unless sock
    raise_failed res

  -- try: set_if_flag(..., sock=s); s.close(); except OSError as e: s.close(); raise e
  abbrev up_and_close : Text → Bool → M Sys (Unit {0})
  up_and_close name sock =
      catch_os (set_if_flag name iff_up true >> close_unless sock)
        λ errno. close_unless sock >> throw (os_error errno)

  abbrev bridged : Text → Bool → Answer → M Sys (Unit {0})
  bridged member_if sock res =
      if res.res == 0
      then up_and_close member_if sock
      else close_unless sock >> throw (os_error res.errno)

  unfoldable pub bridge_if : Text → Text → Bool → Bool → M Sys (Unit {0})
  bridge_if bridge_if_name member_if add sock = do
    member ← name_field member_if
    bridge ← name_field bridge_if_name
    open_unless kernel sock
    res ← invoke kernel (SysCall.siocsdrvspec bridge add member)
    bridged member_if sock res

  -- inet_pton raises where the text is no address: `is_ip` says which are.
  abbrev set_addr : (Text → Bool) → Text → M Sys (Unit {0})
  set_addr is_ip addr_str = raise_when (not (is_ip addr_str)) (os_error 0)

  abbrev set_broadcast : (Text → Bool) → Option Text → M Sys (Unit {0})
  set_broadcast is_ip none = pure tt
  set_broadcast is_ip (some []) = pure tt
  set_broadcast is_ip (some (c ∷ addr)) = set_addr is_ip (c ∷ addr)

  -- Where the ioctl fails the socket is not closed.
  unfoldable pub set_ip_address :
      (Text → Bool) → Text → Text → Text → Option Text → Bool → M Sys (Unit {0})
  set_ip_address is_ip ifname ip_addr net_mask broadcast_addr sock = do
    field ← name_field ifname
    set_addr is_ip ip_addr
    set_addr is_ip net_mask
    set_broadcast is_ip broadcast_addr
    open_unless kernel sock
    res ← invoke kernel (SysCall.siocaifaddr field ip_addr net_mask broadcast_addr)
    raise_failed res
    up_and_close ifname sock

  -- EEXIST, 17, is no error: None.
  unfoldable pub kldload : Text → M Sys (Option ℕ)
  kldload module' = do
    r ← invoke kernel (SysCall.kld_load module')
    raise_when (not (r.res == 0) && not (r.errno == 17)) (os_error r.errno)
    pure (if r.res == 0 then some r.value else none)
