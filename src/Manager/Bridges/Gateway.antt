-- ===== src/Manager/Bridges/Gateway.antt =====
-- The address of a bridge is never that of a container.
use dockermock.Prelude.{
  ◌≡◌, refl, ℕ, ◌+◌, ◌≤◌, ◌<◌, Bool, true, false, Option, none, some, List, inl, inr, Bool-cases,
  arith, Exc, os_error, Result, ok, raise,
}
use dockermock.Prelude.Text.{Text, text_beq, codes}
use dockermock.Ip.{Ipv4Network, ip_network}
use dockermock.System.Effect.{M, ◌>>=◌, pure, catch_os, and_then, handled}
use dockermock.System.Kernel.{Kernel}
use dockermock.System.Pf.{Library}
use dockermock.Manager.Store.{Network, Tables, fetchone}
use dockermock.Manager.Networks.{network_named, allocate_ip}
use dockermock.Manager.Networks.Addresses.{hosts_short, allocate_ip-some}
use dockermock.Manager.Stopping.{Host}
use dockermock.Manager.Bridges.{
  StartAnswer, host_started, not_there, started_at, not_created, start_again, start_new, start_at,
  start_row, start_network,
}

-- An address in the answer is this one.
abbrev IsAt : ℕ → Result StartAnswer → Type 0
IsAt g (ok (started_at a)) = a ≡ g
IsAt g (ok host_started) = Unit
IsAt g (ok not_there) = Unit
IsAt g (ok (not_created errno)) = Unit
IsAt g (raise e) = Unit

module _ {A : Type 0} where
  -- Code before the answer changes nothing about it.
  after_any :
      (g : ℕ) (r : Result A × Host) (f : A → M Host StartAnswer)
      → ((a : A) (h : Host) → IsAt g (f a h).0)
      → IsAt g (and_then r f).0
  after_any g (raise e, h) f rest = tt
  after_any g (ok a, h) f rest = rest a h

handled-IsAt :
    (g : ℕ) (r : Result StartAnswer × Host)
    → IsAt g r.0
    → IsAt g (handled (λ (errno : ℕ). pure (not_created errno)) r).0
unfolding pure
handled-IsAt g (ok a, h) at = at
handled-IsAt g (raise e, h) at = of e
  where
    of : (e : Exc) → IsAt g (handled (λ (errno : ℕ). pure (not_created errno)) (raise e, h)).0
    of (os_error n) = tt
    of Exc.value_error = tt
    of Exc.type_error = tt
    of Exc.attribute_error = tt
    of Exc.name_error = tt
    of Exc.key_error = tt
    of Exc.unbound_local_error = tt
    of Exc.integrity_error = tt
    of Exc.stop_iteration = tt
    of Exc.index_error = tt
    of Exc.broken_pipe = tt
    of Exc.exception = tt

module _ (kernel : Kernel) (is_ip : Text → Bool) (library : Library) (dev : Result ℕ) where
  start_again-IsAt :
      (n : Network) (ip : ℕ) (h : Host) → IsAt ip (start_again kernel is_ip library dev n ip h).0
  unfolding start_again ◌>>=◌ pure
  start_again-IsAt n ip h = after_any ip _ (λ t h. (ok (started_at ip), h)) (λ t h. refl)

  start_new-IsAt :
      (n : Network) (ip : ℕ) (h : Host) → IsAt ip (start_new kernel is_ip library dev n ip h).0
  unfolding start_new catch_os ◌>>=◌ pure
  start_new-IsAt n ip h =
      handled-IsAt ip _ (after_any ip _ (λ t h. (ok (started_at ip), h)) (λ t h. refl))

  start_at-IsAt :
      (n : Network) (ip : ℕ) (exists : Option Bool) (h : Host)
      → IsAt ip (start_at kernel is_ip library dev n ip exists h).0
  start_at-IsAt n ip (some false) h = start_new-IsAt n ip h
  start_at-IsAt n ip (some true) h = start_again-IsAt n ip h
  start_at-IsAt n ip none h = start_again-IsAt n ip h

  start_row-IsAt :
      (n : Network) (net : Ipv4Network) (h : Host)
      → ip_network n.subnet n.prefix ≡ ok net
      → net.prefixlen ≤ 30
      → IsAt (net.network_address + 1) (start_row kernel is_ip library dev n h).0
  unfolding start_row ◌>>=◌
  start_row-IsAt n net h parsed short =
      let (count, ends, first) = hosts_short net short in
      rw parsed (
        rw first (
          after_any (net.network_address + 1) _ _
            (λ exists h. start_at-IsAt n (net.network_address + 1) exists h)))

  -- For a network with this name, whose subnet is valid and has a prefix length of at most 30, and
  -- whatever the kernel and the packet filter do: an address that `start_network` answers with is the
  -- first host of the subnet, and no address that `allocate_ip` gives a container there is that one.
  pub start_network-allocate_ip :
      (name : Text) (t : Tables) (row : Network) (net : Ipv4Network) (h : Host) (gateway : ℕ)
      (used : List (Option ℕ)) (ip : ℕ)
      → fetchone (network_named name) t.networks ≡ some row
      → ip_network row.subnet row.prefix ≡ ok net
      → net.prefixlen ≤ 30
      → (start_network kernel is_ip library dev name t h).0 ≡ ok (started_at gateway)
      → allocate_ip net used ≡ ok (some ip)
      → (gateway ≡ net.network_address + 1) × (gateway < ip)
  unfolding start_network
  start_network-allocate_ip name t row net h gateway used ip found parsed short answered given =
      let (low, high, free) = allocate_ip-some net used ip short given in
      elim (Bool-cases (text_beq name (codes "host"))) [
        | inl is_host ↦
            let other : ok host_started ≡ ok (started_at gateway) =
              unfold pure in rw (start_network, is_host) at answered in
            absurd (cc)
        | inr named ↦
            let row_answer : (start_row kernel is_ip library dev row h).0
                ≡ ok (started_at gateway) =
              rw (start_network, named, found) at answered in
            let at : IsAt (net.network_address + 1) (ok (started_at gateway)) =
              rw row_answer at (start_row-IsAt row net h parsed short) in
            (at, omega (arith, at, low))
      ]
