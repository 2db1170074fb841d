-- ===== src/System/Kernel.antt =====
-- The system calls of app2/lib/methods.py and of the functions that use it: a call is logged with its
-- answer, and what the kernel answers to a call, after the calls before it, is a parameter.
pub mod Quiet
use Prim.Native.String.{String}
use dockermock.Prelude.{
  ℕ, ◌+◌, ◌-◌, Bool, true, false, Option, none, some, List, [], ◌∷◌, if◌then◌else◌, ◌==◌, nat_eq,
  Exc, os_error, Result, ok, raise,
}
use dockermock.Prelude.Text.{Text}
use dockermock.Prelude.Utf8.{Bytes}
use dockermock.System.Effect.{M, ◌>>=◌, pure}
use dockermock.System.Mounts.{Fs}
use dockermock.System.Rctl.{Rule}

-- What jexec is given, str(self.jid or self.name): a name, or the text of an id, none below 0.
pub data Target : Type 0 where
  by_name : Text → Target
  by_id : Option ℕ → Target

-- The ioctls, by the names of the interfaces and the other fields that are set; and the other
-- calls. The flags of an interface are the two halves of ifru_flags.
pub data SysCall : Type 0 where
  open_socket : SysCall
  siocgifindex siocifcreate2 siocifdestroy siocgifflags : Bytes → SysCall
  siocsifname siocaifgroup : Bytes → Bytes → SysCall
  siocsifvnet siocsifrvnet : Bytes → ℕ → SysCall
  siocsdrvspec : Bytes → Bool → Bytes → SysCall
  siocaifaddr : Bytes → Text → Text → Option Text → SysCall
  siocsifflags : Bytes → ℕ → ℕ → SysCall
  jail_set : List Bytes → SysCall
  jail_get : Text → SysCall
  jail_remove attach_jail : ℕ → SysCall
  nmount : String → Text → Text → Bool → SysCall
  unmount : Text → SysCall
  rctl_add : Rule → SysCall
  rctl_rules rctl_limits rctl_racct rctl_remove : Text → SysCall
  libroute_add : Text → Text → Text → SysCall
  kld_load : Text → SysCall
  jexec : Target → SysCall
  path_exists path_isdir path_isfile mkdir makedirs touch : Text → SysCall
  run_jail_r open_file read_line truncate : Text → SysCall
  kill_process : ℕ → SysCall
  sleep_second : SysCall

-- What a call returns: 0 where it has not failed, and else its errno is read; and what it has
-- written: a name, a number, the halves of the flags. A test on a path returns 1 for true.
pub record Answer : Type 0 where
  pub res : ℕ
  pub errno : ℕ
  pub name : Text
  pub value : ℕ
  pub flags : ℕ × ℕ

abbrev pub Log : Type 0
Log = List (SysCall × Answer)

abbrev pub Kernel : Type 0
Kernel = Log → SysCall → Answer

-- The sockets that are open, the calls so far, the latest first, and the mount points of the jails.
pub record Sys : Type 0 where
  pub sockets : ℕ
  pub log : Log
  pub fs : Fs

module _ (kernel : Kernel) where
  unfoldable pub invoke : SysCall → M Sys Answer
  invoke c s =
      let r = kernel s.log c in
      (ok r, record { sockets = s.sockets; log = (c, r) ∷ s.log; fs = s.fs })

  abbrev opened : Answer → M Sys (Unit {0})
  opened r s =
      if r.res == 0
      then (ok tt, record { sockets = s.sockets + 1; log = s.log; fs = s.fs })
      else (raise (os_error r.errno), s)

  -- s = socket.socket(socket.AF_INET, socket.SOCK_DGRAM) if not sock else sock
  unfoldable pub open_unless : Bool → M Sys (Unit {0})
  open_unless true = pure tt
  open_unless false = invoke open_socket >>= opened

-- s.close() if not sock else None
unfoldable pub close_unless : Bool → M Sys (Unit {0})
close_unless true s = (ok tt, s)
close_unless false s = (ok tt, record { sockets = s.sockets - 1; log = s.log; fs = s.fs })
