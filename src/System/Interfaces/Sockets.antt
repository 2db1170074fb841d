-- ===== src/System/Interfaces/Sockets.antt =====
-- Which functions on interfaces close the sockets that they open.
use dockermock.Prelude.{
  ℕ, ◌≡◌, refl, ◌∙◌, Bool, true, false, [], ◌∷◌, Bool-cases, inl, inr, Exc, Result, ok, raise, ltb,
  ◌==◌, nat_eq, arith, value_error,
}
use dockermock.Prelude.Text.{Text}
use dockermock.Prelude.Utf8.{encode}
use dockermock.System.Pf.{byte_count}
use dockermock.System.Effect.{M, and_then, ◌>>=◌, pure, throw, raise_when}
use dockermock.System.Kernel.{Kernel, SysCall, Sys, invoke, open_unless, close_unless}
use dockermock.System.Interfaces.{
  name_field, ioctl, get_if_index, set_interface_group, create_interface, destroy_interface,
  rename_interface, move_to_jail, remove_from_jail, get_if_flags, set_if_flag, ifnamsiz,
}

-- However the code ends, as many sockets are open after it as before.
pub record Keeps {A : Type 0} (m : M Sys A) : Type 0 where
  pub kept : (s : Sys) → (m s).1.sockets ≡ s.sockets

Keeps-pure : {A : Type 0} (a : A) → Keeps (pure a)
unfolding pure
Keeps-pure a = record { kept = λ s. refl }

Keeps-throw : {A : Type 0} (e : Exc) → Keeps (throw {A = A} e)
unfolding throw
Keeps-throw e = record { kept = λ s. refl }

Keeps-raise_when : (b : Bool) (e : Exc) → Keeps (raise_when b e)
unfolding raise_when
Keeps-raise_when false e = record { kept = λ s. refl }
Keeps-raise_when true e = record { kept = λ s. refl }

Keeps-and_then :
    {A B : Type 0} (r : Result A) (s : Sys) (f : A → M Sys B)
    → ((a : A) → Keeps (f a))
    → (and_then (r, s) f).1.sockets ≡ s.sockets
Keeps-and_then (raise e) s f h = refl
Keeps-and_then (ok a) s f h = (h a).kept s

Keeps-bind :
    {A B : Type 0} {m : M Sys A} {f : A → M Sys B}
    → Keeps m
    → ((a : A) → Keeps (f a))
    → Keeps (m >>= f)
unfolding ◌>>=◌
Keeps-bind {A} {B} {m} {f} first rest = record {
  kept = λ s. Keeps-and_then (m s).0 (m s).1 f rest ∙ first.kept s;
}

Keeps-name_field : (name : Text) → Keeps (name_field name)
unfolding name_field
Keeps-name_field name =
    Keeps-bind (Keeps-raise_when (ltb ifnamsiz (byte_count (encode name))) value_error)
      λ _. Keeps-pure (encode name)

module _ (kernel : Kernel) where
  pub Keeps-invoke : (c : SysCall) → Keeps (invoke kernel c)
  unfolding invoke
  Keeps-invoke c = record { kept = λ s. refl }

  Keeps-ioctl : (sock : Bool) (c : SysCall) → Keeps (ioctl kernel sock c)
  unfolding ioctl invoke ◌>>=◌ pure open_unless close_unless
  Keeps-ioctl true c = record { kept = λ s. refl }
  Keeps-ioctl false c = record {
    kept = λ s. elim (Bool-cases ((kernel s.log SysCall.open_socket).res == 0)) [
      | inl done ↦ rw done (omega arith)
      | inr failed ↦ rw failed
    ];
  }

  ruleset keeps = (
    Keeps-bind, Keeps-pure, Keeps-throw, Keeps-raise_when, Keeps-name_field, Keeps-invoke,
    Keeps-ioctl,
  )

  pub get_if_index-Keeps : (name : Text) (sock : Bool) → Keeps (get_if_index kernel name sock)
  unfolding get_if_index
  get_if_index-Keeps name sock = search keeps

  pub create_interface-Keeps :
      (name : Text) (sock : Bool) → Keeps (create_interface kernel name sock)
  unfolding create_interface
  create_interface-Keeps name sock = search keeps

  pub set_interface_group-Keeps :
      (name group : Text) (sock : Bool) → Keeps (set_interface_group kernel name group sock)
  unfolding set_interface_group
  set_interface_group-Keeps [] group sock = search keeps
  set_interface_group-Keeps (c ∷ name) [] sock = search keeps
  set_interface_group-Keeps (c ∷ name) (d ∷ group) sock = search keeps

  pub destroy_interface-Keeps :
      (name : Text) (sock : Bool) → Keeps (destroy_interface kernel name sock)
  unfolding destroy_interface
  destroy_interface-Keeps name sock = search keeps

  pub rename_interface-Keeps :
      (name newname : Text) (sock : Bool) → Keeps (rename_interface kernel name newname sock)
  unfolding rename_interface
  rename_interface-Keeps name newname sock = search keeps

  pub move_to_jail-Keeps :
      (name : Text) (jid : ℕ) (sock : Bool) → Keeps (move_to_jail kernel name jid sock)
  unfolding move_to_jail
  move_to_jail-Keeps name jid sock = search keeps

  pub remove_from_jail-Keeps :
      (name : Text) (jid : ℕ) (sock : Bool) → Keeps (remove_from_jail kernel name jid sock)
  unfolding remove_from_jail
  remove_from_jail-Keeps name jid sock = search keeps

  pub get_if_flags-Keeps : (name : Text) (sock : Bool) → Keeps (get_if_flags kernel name sock)
  unfolding get_if_flags
  get_if_flags-Keeps name sock = search keeps

  Keeps-open_true : Keeps (open_unless kernel true)
  unfolding open_unless
  Keeps-open_true = Keeps-pure tt

  Keeps-close_true : Keeps (close_unless true)
  unfolding close_unless
  Keeps-close_true = record { kept = λ s. refl }

  -- With the caller's socket.
  pub set_if_flag-Keeps : (name : Text) (flag : ℕ) → Keeps (set_if_flag kernel name flag true)
  unfolding set_if_flag
  set_if_flag-Keeps name flag = Keeps-bind Keeps-open_true (λ _.
      Keeps-bind (get_if_flags-Keeps name true) (λ old. search (keeps, Keeps-close_true) depth 12))
