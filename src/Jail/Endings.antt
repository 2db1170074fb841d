-- ===== src/Jail/Endings.antt =====
-- The parts of `destroy_jail` that do not raise.
use dockermock.Prelude.{
  ℕ, ◌≡◌, refl, inl, inr, true, false, ◌&&◌, Option, none, some, [], ◌∷◌, ◌==◌, nat_eq, string_eq,
  Bool-cases, ok, arith, not,
}
use dockermock.Prelude.Text.{Text}
use dockermock.System.Effect.{M, ◌>>=◌, ◌>>◌, pure, raise_when}
use dockermock.System.Effect.Follows.{
  Returns, Returns-pure, Returns-bind, Returns-when, Returns-for_each, Returns-catch_os, RaisesOs,
  RaisesOs-pure, RaisesOs-raise_when, RaisesOs-bind,
}
use dockermock.System.Kernel.{Kernel, SysCall, Target, Sys, Log, invoke, open_unless, close_unless}
use dockermock.System.Interfaces.{remove_from_jail, ioctl}
use dockermock.System.Interfaces.Closing.{Fits, RaisesOs-name_field}
use dockermock.System.Links.{
  deattach_vnet_ifaces, remove_jail_from_name, get_jail_id_by_name, with_jail,
}
use dockermock.System.Mounts.{cenoerr, cerror}
use dockermock.Jail.{JailConfig, JailState, lift, get, logged, must, lacks_jid}
use dockermock.Jail.Destroy.{target_of, is_empty, deattach_epair, stop_jail}
use dockermock.Jail.Tracking.{IsName, IsTracked}

-- Sockets can be opened, and jexec can be run.
pub record Runs (kernel : Kernel) : Type 0 where
  pub opens : (log : Log) → (kernel log SysCall.open_socket).res ≡ 0
  pub execs : (log : Log) (target : Target) → (kernel log (SysCall.jexec target)).res ≡ 0

module _ (kernel : Kernel) where
  ioctl-false-RaisesOs : (c : SysCall) → RaisesOs (ioctl kernel false c)
  unfolding ioctl invoke ◌>>=◌ pure open_unless close_unless
  ioctl-false-RaisesOs c = record {
    os = λ s e h. elim (Bool-cases ((kernel s.log SysCall.open_socket).res == 0)) [
      | inl done ↦ absurd (ground arith)
      | inr failed ↦ ((kernel s.log SysCall.open_socket).errno, ground arith)
    ];
  }

  remove_from_jail-RaisesOs :
      (name : Text) (jid : ℕ) → Fits name → RaisesOs (remove_from_jail kernel name jid false)
  unfolding remove_from_jail
  remove_from_jail-RaisesOs name jid fits = RaisesOs-bind (RaisesOs-name_field name fits) λ field.
      RaisesOs-bind (ioctl-false-RaisesOs (SysCall.siocsifrvnet field jid))
        λ r. RaisesOs-raise_when (not (r.res == 0)) r.errno

  Returns-invoke : (c : SysCall) → Returns (invoke kernel c)
  unfolding invoke
  Returns-invoke c = record { value = λ s. (kernel s.log c, refl) }

  get_jail_id-Returns : (name : Text) → Returns (get_jail_id_by_name kernel name)
  unfolding get_jail_id_by_name
  get_jail_id-Returns name =
      Returns-bind (Returns-invoke (SysCall.jail_get name)) λ r. Returns-pure _

  with_jail-Returns :
      (jid : Option ℕ) (f : ℕ → M Sys (Unit {0}))
      → ((jid : ℕ) → RaisesOs (f jid))
      → Returns (with_jail kernel jid f)
  with_jail-Returns none f h = Returns-pure _
  with_jail-Returns (some jid) f h =
      Returns-catch_os (RaisesOs-bind (h jid) λ t. RaisesOs-pure cenoerr) λ n. Returns-pure cerror

  deattach-Returns :
      (name e : Text) → IsName e → Returns (logged (deattach_vnet_ifaces kernel name e))
  unfolding deattach_vnet_ifaces
  deattach-Returns name e named =
      Returns-bind
        (Returns-bind (get_jail_id-Returns name)
          λ jid. with_jail-Returns jid _ λ jid. remove_from_jail-RaisesOs e jid named.0)
        λ code. Returns-pure tt

  jail_remove-RaisesOs : (jid : ℕ) → RaisesOs (invoke kernel (SysCall.jail_remove jid) >> pure tt)
  unfolding invoke ◌>>=◌ pure
  jail_remove-RaisesOs jid = record { os = λ s e h. cc }

  remove_jail-Returns : (name : Text) → Returns (logged (remove_jail_from_name kernel name))
  unfolding remove_jail_from_name
  remove_jail-Returns [] = Returns-bind (Returns-pure cerror) λ code. Returns-pure tt
  remove_jail-Returns (c ∷ name) =
      Returns-bind
        (Returns-bind (get_jail_id-Returns (c ∷ name))
          λ jid. with_jail-Returns jid _ λ jid. jail_remove-RaisesOs jid)
        λ code. Returns-pure tt

  must-Returns : (t : Target) → Runs kernel → Returns (must kernel (SysCall.jexec t))
  unfolding invoke ◌>>=◌ raise_when
  must-Returns t runs = record {
    value = λ s.
        let zero = runs.execs s.log t in
        let done : ((kernel s.log (SysCall.jexec t)).res == 0) ≡ true = ground arith in
        (tt, rw done);
  }

  lift-Returns : {A : Type 0} {m : M Sys A} → Returns m → Returns (lift m)
  unfolding lift
  lift-Returns h = record { value = λ st. h.value st.sys }

  get-Returns : Returns get
  unfolding get
  get-Returns = record { value = λ st. (st.jail, refl) }

  pub stop_jail-Returns : (c : JailConfig) → Runs kernel → Returns (stop_jail kernel c)
  unfolding stop_jail
  stop_jail-Returns c runs = Returns-bind get-Returns λ self.
      Returns-when (not (lacks_jid self.jid && is_empty c.name)) (
        lift-Returns (
          Returns-bind (must-Returns (target_of c.name self.jid) runs)
            λ t. remove_jail-Returns c.name))

  pub deattach_epair_ends :
      (c : JailConfig) (st : JailState)
      → IsTracked st
      → (a : Unit {0}) × ((deattach_epair kernel c st).0 ≡ ok a)
  unfolding deattach_epair get lift ◌>>=◌
  deattach_epair_ends c st h =
      (Returns-for_each IsName _ st.jail.epair (deattach-Returns c.name) h.names).value st.sys
