-- ===== src/Jail/Lifetime.antt =====
-- No interface outlives its jail.
use dockermock.Prelude.{◌≡◌, refl, ◌∙◌, Option, [], Result, ok, raise, All}
use dockermock.Prelude.Text.{Text}
use dockermock.Prelude.Utf8.{Bytes, encode}
use dockermock.System.Effect.{◌>>◌, pure, catch_all, handled_all}
use dockermock.System.Effect.Follows.{bind-ok}
use dockermock.System.Kernel.{Kernel, SysCall, Sys}
use dockermock.System.Kernel.Quiet.{created, Called}
use dockermock.Jail.{JailConfig, JailState, J, new_jail, create_jail, lift}
use dockermock.Jail.Destroy.{
  deattach_epair, destroy_epair, stop_jail, handle_fs_umounts, handle_unmount, remove_rules,
  tear_down, destroy_jail,
}
use dockermock.Jail.Tracking.{NamesInterfaces, IsTracked}
use dockermock.Jail.Creation.{create_jail-Tracks}
use dockermock.Jail.Endings.{Runs, deattach_epair_ends, stop_jail-Returns}
use dockermock.Jail.Removal.{
  Cleans, rest-KeepsClean, destroy_epair-Cleans, deattach_epair-Tracks, stop_jail-Tracks,
}

Cleans-of : (r r' : Result (Unit {0}) × JailState) → r ≡ r' → Cleans r'.1 → Cleans r.1
Cleans-of r r' e h = rw e h

module _ (kernel : Kernel) where
  tear_down-Cleans :
      (c : JailConfig) (st : JailState)
      → Runs kernel
      → IsTracked st
      → Cleans (tear_down kernel c st).1
  unfolding tear_down
  tear_down-Cleans c st runs h =
      let (a, detached) = deattach_epair_ends kernel c st h in
      let st1 = (deattach_epair kernel c st).1 in
      let h1 = (deattach_epair-Tracks kernel c).at st h in
      let (b, stopped) = (stop_jail-Returns kernel c runs).value st1 in
      let st2 = (stop_jail kernel c st1).1 in
      let h2 = (stop_jail-Tracks kernel c).at st1 h1 in
      let (destroyed, clean) = destroy_epair-Cleans kernel st2 runs h2 in
      let st3 = (destroy_epair kernel st2).1 in
      let rest : J (Unit {0}) =
        handle_fs_umounts kernel c
        >> (lift (handle_unmount kernel c) >> lift (remove_rules kernel c)) in
      Cleans-of _ (rest st3)
        (bind-ok (deattach_epair kernel c) _ st a detached
          ∙ bind-ok (stop_jail kernel c) _ st1 b stopped
          ∙ bind-ok (destroy_epair kernel) (λ t. rest) st2 tt destroyed)
        ((rest-KeepsClean kernel c).at st3 clean)

  handled_all_state : (r : Result (Unit {0}) × JailState) → (handled_all (pure tt) r).1 ≡ r.1
  unfolding pure
  handled_all_state (ok t, st) = refl
  handled_all_state (raise e, st) = refl

  destroy_jail-Cleans :
      (c : JailConfig) (st : JailState)
      → Runs kernel
      → IsTracked st
      → Cleans (destroy_jail kernel c st).1
  unfolding destroy_jail catch_all
  destroy_jail-Cleans c st runs h =
      rw (handled_all_state (tear_down kernel c st)) (tear_down-Cleans c st runs h)

  -- Where the kernel names the interfaces that it creates, sockets open and jexec can be run: after
  -- `create_jail`, whether it raises or not, and `destroy_jail`, for every interface that was
  -- created the call that destroys it was made.
  pub create_jail-destroy_jail :
      (inet_aton : Text → Option Bytes) (realpath : Text → Text) (c : JailConfig) (sys : Sys)
      → NamesInterfaces kernel
      → Runs kernel
      → created sys.log ≡ []
      → let st =
          (create_jail kernel inet_aton realpath c (record { jail = new_jail; sys = sys })).1 in
        let log' = (destroy_jail kernel c st).1.sys.log in
        All (λ e. Called (SysCall.siocifdestroy (encode e)) log') (created log')
  create_jail-destroy_jail inet_aton realpath c sys named runs fresh =
      let before : JailState = record { jail = new_jail; sys = sys } in
      let st = (create_jail kernel inet_aton realpath c before).1 in
      destroy_jail-Cleans c st runs (
        (create_jail-Tracks kernel named inet_aton realpath c).at before
          (record { held = rw fresh tt; names = tt }))
