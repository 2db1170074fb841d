-- ===== src/System/Interfaces/Tests.antt =====
-- Runs of the functions on interfaces, with kernels that answer all calls alike.
use dockermock.Prelude.{Bool, ◌≡◌, refl, true, false, none, [], ◌∷◌, ok, raise, os_error, nat_eq}
use dockermock.Prelude.Text.{Text, codes}
use dockermock.Prelude.Utf8.{encode}
use dockermock.System.Effect.{◌>>=◌, pure, raise_when}
use dockermock.System.Kernel.{Kernel, SysCall, Answer, Sys, invoke, open_unless, close_unless}
use dockermock.System.Interfaces.{
  name_field, ioctl, create_interface, get_if_flags, set_if_flag, bridge_if, set_ip_address,
}
use dockermock.System.Interfaces.Closing.{bridge_if-sockets, set_ip_address-sockets}

abbrev answer : Answer
answer = record { res = 0; errno = 0; name = codes "epair0a"; value = 1; flags = (2, 1) }

abbrev answering : Kernel
answering log call = answer

abbrev failing : Answer
failing = record { res = 1; errno = 6; name = []; value = 0; flags = (0, 0) }

-- Sockets open, and ioctls fail.
abbrev refusing : Kernel
refusing log SysCall.open_socket = answer
refusing log call = failing

abbrev start : Sys
start = record { sockets = 0; log = []; fs = record { dirs = []; mounts = [] } }

interface_runs :
    ((create_interface answering (codes "epair") false start).0 ≡ ok (codes "epair0a"))
    × ((create_interface refusing (codes "epair") false start).0 ≡ raise (os_error 6))
    × ((create_interface refusing (codes "epair") false start).1.sockets ≡ 0)
unfolding create_interface name_field ioctl invoke open_unless close_unless ◌>>=◌ pure raise_when
    encode
interface_runs = (refl, refl, refl)

-- The flag is set in the lower half, and the upper half is kept.
flag_run :
    (set_if_flag answering (codes "lo0") 1 true start).1.log
    ≡ (SysCall.siocsifflags (codes "lo0") 3 1, answer)
      ∷ (SysCall.siocgifflags (codes "lo0"), answer)
      ∷ []
unfolding set_if_flag get_if_flags name_field ioctl invoke open_unless close_unless ◌>>=◌ pure
    raise_when encode
flag_run = refl

bridge_if-sockets_example :
    (bridge_if refusing (codes "bridge1") (codes "epair0b") true false start).1.sockets ≡ 0
bridge_if-sockets_example =
    bridge_if-sockets refusing (codes "bridge1") (codes "epair0b") true false start

abbrev any_ip : Text → Bool
any_ip s = true

set_ip_address-sockets_example :
    (set_ip_address refusing any_ip
      (codes "lo0")
      (codes "127.0.0.11")
      (codes "255.0.0.0")
      none
      false
      start).1.sockets
    ≡ 1
set_ip_address-sockets_example =
    set_ip_address-sockets refusing any_ip (codes "lo0") (codes "127.0.0.11") (codes "255.0.0.0")
      start (unfold encode in refl) refl refl refl
