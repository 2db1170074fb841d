-- ===== src/System/Limits.antt =====
-- app2/rctl.py and app2/route/route.py: the calls on resource limits and on routes. A buffer comes back
-- as the name of a reply.
use dockermock.Prelude.{ℕ, Bool, false, ◌≡◌, List, [], ◌∷◌, if◌then◌else◌, ◌==◌, nat_eq}
use dockermock.Prelude.Text.{Text}
use dockermock.System.Rctl.{Rule}
use dockermock.System.Effect.{M, ◌>>=◌, ◌>>◌, pure}
use dockermock.System.Effect.Follows.{Follows}
use dockermock.System.Kernel.{Kernel, SysCall, Sys, invoke, open_unless, close_unless}
use dockermock.System.Kernel.Quiet.{IsQuiet, quiets, is_create}
use dockermock.System.Interfaces.{raise_failed}

-- outbuf.value.decode('utf-8').split(',')
unfoldable pub split_commas : Text → List Text
split_commas [] = [] ∷ []
split_commas (c ∷ s) = if c == b',' then [] ∷ split_commas s else add_first c (split_commas s)
  where
    add_first : ℕ → List Text → List Text
    add_first c [] = (c ∷ []) ∷ []
    add_first c (part ∷ parts) = (c ∷ part) ∷ parts

module _ (kernel : Kernel) where
  -- The call, its error, and the output buffer.
  unfoldable pub rctl : SysCall → M Sys Text
  rctl call = do result ← invoke kernel call; raise_failed result; pure result.name

  abbrev pub rctl_get_rules : Text → M Sys Text
  rctl_get_rules subject = rctl (SysCall.rctl_rules subject)

  abbrev pub rctl_add_rule : Rule → M Sys Text
  rctl_add_rule rule = rctl (SysCall.rctl_add rule)

  abbrev pub rctl_get_limits : Text → M Sys Text
  rctl_get_limits name = rctl (SysCall.rctl_limits name)

  unfoldable pub rctl_get_racct : Text → M Sys (List Text)
  rctl_get_racct name = rctl (SysCall.rctl_racct name) >>= λ out. pure (split_commas out)

  abbrev pub rctl_remove_rule : Text → M Sys Text
  rctl_remove_rule rule = rctl (SysCall.rctl_remove rule)

  pub rctl-IsQuiet : (call : SysCall) → is_create call ≡ false → Follows IsQuiet (rctl call)
  unfolding rctl
  rctl-IsQuiet call other = search quiets

  -- A socket that the function opens is closed whatever the call returns.
  unfoldable pub add_route : Text → Text → Text → Bool → M Sys (Unit {0})
  add_route destination netmask gateway rtsock = do
    open_unless kernel rtsock
    res ← invoke kernel (SysCall.libroute_add destination netmask gateway)
    close_unless rtsock
    raise_failed res
