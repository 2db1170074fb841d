-- ===== src/System/Interfaces/Closing.antt =====
-- The functions on interfaces that use their socket for several calls.
use dockermock.Prelude.{
  ℕ, ◌+◌, ◌≡◌, refl, ◌∙◌, Bool, true, false, none, List, ◌∷◌, Bool-cases, inl, inr, Exc, os_error,
  Result, ok, raise, ltb, ◌==◌, nat_eq, arith, if◌then◌else◌,
}
use dockermock.Prelude.Text.{Text}
use dockermock.Prelude.Utf8.{encode}
use dockermock.System.Pf.{byte_count}
use dockermock.System.Effect.{M, and_then, ◌>>=◌, ◌>>◌, pure, throw, raise_when, catch_os, handled}
use dockermock.System.Kernel.{Kernel, SysCall, Answer, Sys, invoke, open_unless, close_unless}
use dockermock.System.Interfaces.{
  name_field, ioctl, get_if_flags, set_if_flag, up_and_close, bridged, bridge_if, set_ip_address,
  ifnamsiz, iff_up,
}
use dockermock.System.Effect.Follows.{RaisesOs, RaisesOs-pure, RaisesOs-raise_when, RaisesOs-bind}
use dockermock.System.Interfaces.Sockets.{Keeps, set_if_flag-Keeps}

-- A name of at most 16 bytes.
abbrev pub Fits : Text → Type 0
Fits name = ltb ifnamsiz (byte_count (encode name)) ≡ false

pub RaisesOs-name_field : (name : Text) → Fits name → RaisesOs (name_field name)
unfolding name_field ◌>>=◌ raise_when pure
RaisesOs-name_field name fits = record { os = λ s e h. absurd (ground arith) }

module _ (kernel : Kernel) where
  pub RaisesOs-invoke : (c : SysCall) → RaisesOs (invoke kernel c)
  unfolding invoke
  RaisesOs-invoke c = record { os = λ s e h. cc }

  RaisesOs-ioctl-true : (c : SysCall) → RaisesOs (ioctl kernel true c)
  unfolding ioctl invoke ◌>>=◌ pure open_unless close_unless
  RaisesOs-ioctl-true c = record { os = λ s e h. cc }

  RaisesOs-open_true : RaisesOs (open_unless kernel true)
  unfolding open_unless
  RaisesOs-open_true = RaisesOs-pure tt

  RaisesOs-close_true : RaisesOs (close_unless true)
  unfolding close_unless
  RaisesOs-close_true = record { os = λ s e h. cc }

  ruleset raises = (
    RaisesOs-bind, RaisesOs-pure, RaisesOs-raise_when, RaisesOs-name_field, RaisesOs-invoke,
    RaisesOs-ioctl-true, RaisesOs-open_true, RaisesOs-close_true,
  )

  pub set_if_flag-RaisesOs :
      (name : Text) (flag : ℕ) → Fits name → RaisesOs (set_if_flag kernel name flag true)
  unfolding set_if_flag get_if_flags
  set_if_flag-RaisesOs name flag fits =
      RaisesOs-bind RaisesOs-open_true (λ _. RaisesOs-bind (search raises) (λ old. search raises))

-- The code closes the socket that was opened for it, however it ends.
pub record Closes {A : Type 0} (sock : Bool) (m : M Sys A) : Type 0 where
  pub closed : (s : Sys) → (m s).1.sockets ≡ (close_unless sock s).1.sockets

closed_after :
    (sock : Bool) (s s' : Sys)
    → s.sockets ≡ s'.sockets
    → (close_unless sock s).1.sockets ≡ (close_unless sock s').1.sockets
unfolding close_unless
closed_after true s s' e = e
closed_after false s s' e = omega (arith, e)

handled_close :
    (sock : Bool) (f : ℕ → M Sys (Unit {0})) (s : Sys)
    → handled f (close_unless sock s) ≡ close_unless sock s
unfolding close_unless
handled_close true f s = refl
handled_close false f s = refl

Closes-throw :
    {A : Type 0} (sock : Bool) (e : Exc) → Closes sock (close_unless sock >> throw {A = A} e)
unfolding ◌>>=◌ throw close_unless
Closes-throw true e = record { closed = λ s. refl }
Closes-throw false e = record { closed = λ s. refl }

module _ (kernel : Kernel) (sock : Bool) where
  handled_closes :
      (name : Text) (r : Result (Unit {0})) (s s' : Sys)
      → s'.sockets ≡ s.sockets
      → ((e : Exc) → r ≡ raise e → (n : ℕ) × (e ≡ os_error n))
      → (handled
          (λ errno. close_unless sock >> throw (os_error errno))
          (and_then (r, s') (λ _. close_unless sock))).1.sockets
        ≡ (close_unless sock s).1.sockets
  handled_closes name (raise e) s s' same os =
      let (n, e') = os e refl in
      rw e' ((Closes-throw sock (os_error n)).closed s' ∙ closed_after sock s' s same)
  handled_closes name (ok t) s s' same os =
      rw (handled_close sock (λ errno. close_unless sock >> throw (os_error errno)) s')
        (closed_after sock s' s same)

  up_and_close-Closes : (name : Text) → Fits name → Closes sock (up_and_close kernel name sock)
  unfolding catch_os ◌>>=◌
  up_and_close-Closes name fits = record {
    closed = λ s.
        let m = set_if_flag kernel name iff_up true in
        handled_closes name (m s).0 s (m s).1 ((set_if_flag-Keeps kernel name iff_up).kept s)
          ((set_if_flag-RaisesOs kernel name iff_up fits).os s);
  }

  bridged-Closes : (name : Text) (r : Answer) → Fits name → Closes sock (bridged kernel name sock r)
  bridged-Closes name r fits = elim (Bool-cases (r.res == 0)) [
    | inl done ↦ rw done (up_and_close-Closes name fits)
    | inr failed ↦ rw failed (Closes-throw sock (os_error r.errno))
  ]

-- A call on the socket, and code that closes it.
opening-Keeps :
    (kernel : Kernel) (sock : Bool) (c : SysCall) (f : Answer → M Sys (Unit {0}))
    → ((r : Answer) → Closes sock (f r))
    → Keeps (open_unless kernel sock >> (invoke kernel c >>= f))
unfolding ◌>>=◌ invoke open_unless close_unless pure
opening-Keeps kernel true c f h = record {
  kept = λ s.
      let r = kernel s.log c in
      (h r).closed (record { sockets = s.sockets; log = (c, r) ∷ s.log; fs = s.fs });
}
opening-Keeps kernel false c f h = record {
  kept = λ s.
      let o = kernel s.log SysCall.open_socket in
      elim (Bool-cases (o.res == 0)) [
        | inl done ↦
            let log' = (SysCall.open_socket, o) ∷ s.log in
            let r = kernel log' c in
            rw done (
              (h r).closed (record { sockets = s.sockets + 1; log = (c, r) ∷ log'; fs = s.fs })
              ∙ omega arith)
        | inr failed ↦ rw failed
      ];
}

-- A name that does not fit is refused before the socket is opened.
name_field-Keeps :
    {A : Type 0} (name : Text) (f : List ℕ → M Sys A)
    → (Fits name → (b : List ℕ) → Keeps (f b))
    → Keeps (name_field name >>= f)
unfolding name_field raise_when pure ◌>>=◌
name_field-Keeps name f h = elim (Bool-cases (ltb ifnamsiz (byte_count (encode name)))) [
  | inl long ↦ record { kept = λ s. rw long }
  | inr fits ↦ record { kept = λ s. rw fits ((h fits (encode name)).kept s) }
]

bridge_if-Keeps :
    (kernel : Kernel) (bridge member : Text) (add sock : Bool)
    → Keeps (bridge_if kernel bridge member add sock)
unfolding bridge_if
bridge_if-Keeps kernel bridge member add sock = name_field-Keeps member _ (λ fits m.
    name_field-Keeps bridge _ (λ _ b.
      opening-Keeps kernel sock (SysCall.siocsdrvspec b add m) (bridged kernel member sock)
        (λ r. bridged-Closes kernel sock member r fits)))

-- However `bridge_if` ends, as many sockets are open after it as before.
pub bridge_if-sockets :
    (kernel : Kernel) (bridge member : Text) (add sock : Bool) (s : Sys)
    → (bridge_if kernel bridge member add sock s).1.sockets ≡ s.sockets
bridge_if-sockets kernel bridge member add sock s =
    (bridge_if-Keeps kernel bridge member add sock).kept s

-- With a name that fits and valid addresses, no broadcast address and no socket of the caller:
-- where the socket opens, `set_ip_address` leaves it open exactly when the ioctl SIOCAIFADDR
-- fails.
pub set_ip_address-sockets :
    (kernel : Kernel) (is_ip : Text → Bool) (ifname ip mask : Text) (s : Sys)
    → Fits ifname
    → is_ip ip ≡ true
    → is_ip mask ≡ true
    → let o = kernel s.log SysCall.open_socket in
      let r =
        kernel
          ((SysCall.open_socket, o) ∷ s.log)
          (SysCall.siocaifaddr (encode ifname) ip mask none) in
      o.res ≡ 0
      → (set_ip_address kernel is_ip ifname ip mask none false s).1.sockets
        ≡ (if r.res == 0 then s.sockets else s.sockets + 1)
unfolding set_ip_address name_field raise_when pure ◌>>=◌ open_unless invoke
set_ip_address-sockets kernel is_ip ifname ip mask s fits valid valid_mask opened =
    let o = kernel s.log SysCall.open_socket in
    let log' = (SysCall.open_socket, o) ∷ s.log in
    let c = SysCall.siocaifaddr (encode ifname) ip mask none in
    let r = kernel log' c in
    let done : (o.res == 0) ≡ true = ground arith in
    rw (fits, valid, valid_mask, done)
      (elim (Bool-cases (r.res == 0)) [
        | inl added ↦ rw added (
            (up_and_close-Closes kernel false ifname fits).closed
              (record { sockets = s.sockets + 1; log = (c, r) ∷ log'; fs = s.fs })
            ∙ unfold close_unless in omega arith)
        | inr failed ↦ rw failed
      ])
