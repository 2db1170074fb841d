-- ===== src/Jail/Tracking.antt =====
-- The creation of a jail keeps account of the interfaces that it creates, however it ends.
use mathlib.Core.List.{Memᴰ}
use dockermock.Prelude.{ℕ, ◌≡◌, ◌≢◌, Bool, Option, [], nat_eq, string_eq, All}
use dockermock.Prelude.Text.{Text}
use dockermock.Prelude.Utf8.{Bytes}
use dockermock.System.Effect.{M, ◌>>=◌}
use dockermock.System.Effect.Follows.{IsPreorder, Follows}
use dockermock.System.Kernel.{Kernel, SysCall, Sys, Log}
use dockermock.System.Kernel.Quiet.{created, IsQuiet, IsQuiet-bind, IsQuiet-pure}
use dockermock.System.Interfaces.Closing.{Fits}
use dockermock.Jail.{JailState, lift, get, put, logged, set_devfs, set_jid}

-- A name that an interface can have: it is not empty, and it fits.
abbrev pub IsName : Text → Type 0
IsName e = Fits e × (e ≢ [])

-- The kernel gives the interfaces that it creates names.
pub record NamesInterfaces (kernel : Kernel) : Type 0 where
  pub named : (log : Log) (base : Bytes) → IsName (kernel log (SysCall.siocifcreate2 base)).name

-- Every interface that was created is among those of the jail, which have names.
pub record IsTracked (st : JailState) : Type 0 where
  pub held : All (λ e. Memᴰ e st.jail.epair) (created st.sys.log)
  pub names : All IsName st.jail.epair

abbrev pub Tracks : JailState → JailState → Type 0
Tracks st st' = IsTracked st → IsTracked st'

pub tracks : IsPreorder Tracks
tracks = record { same = λ s h. h; next = λ s t u p q h. q (p h) }

-- A state with the same interfaces.
pub tracked_quiet :
    (st st' : JailState) → IsQuiet st.sys st'.sys → st'.jail.epair ≡ st.jail.epair → Tracks st st'
tracked_quiet st st' q e h = record { held = rw (q.none_created, e) h.held; names = rw e h.names }

pub lift-Tracks : {A : Type 0} {m : M Sys A} → Follows IsQuiet m → Follows Tracks (lift m)
unfolding lift
lift-Tracks {A} {m} q = record {
  at = λ st h. record { held = rw ((q.at st.sys).none_created) h.held; names = h.names };
}

pub set_jid-Tracks : (jid : Option ℕ) → Follows Tracks (set_jid jid)
unfolding get put ◌>>=◌
set_jid-Tracks jid = record { at = λ st h. record { held = h.held; names = h.names } }

pub set_devfs-Tracks : (mounted : Bool) → Follows Tracks (set_devfs mounted)
unfolding get put ◌>>=◌
set_devfs-Tracks mounted = record { at = λ st h. record { held = h.held; names = h.names } }

pub get-Tracks : Follows Tracks get
unfolding get
get-Tracks = record { at = λ st h. h }

pub logged-IsQuiet : {m : M Sys ℕ} → Follows IsQuiet m → Follows IsQuiet (logged m)
logged-IsQuiet q = IsQuiet-bind q (λ code. IsQuiet-pure tt)
