-- ===== src/Worker/Jails/Reaping.antt =====
-- The table of jails: what starting a container adds and what the exit of a child takes out.
use dockermock.Prelude.{
  ◌≡◌, refl, ◌∙◌, ℕ, Bool, true, false, ◌&&◌, Option, none, some, List, [], ◌∷◌, if◌then◌else◌,
  ◌==◌, nat_eq, string_eq, Result, ok, raise, Exc, arith, Bool-cases, Option-cases, inl, inr,
}
use dockermock.Prelude.Text.{Text}
use dockermock.Worker.Calls.{World}
use dockermock.Worker.Jails.{
  ContainerData, Jails, get_jail, set_jail, pop_jail, remove_container, clean_all_jails, waited,
  destroyed,
}

pub get-set_jail :
    (q pid : ℕ) (name : Text) (jails : Jails)
    → get_jail q (set_jail pid name jails) ≡ (if pid == q then some name else get_jail q jails)
unfolding get_jail set_jail
get-set_jail q pid name [] = refl
get-set_jail q pid name ((p, old) ∷ jails) = ground (arith, get-set_jail q pid name jails)

-- No child has two entries.
unfoldable pub HasDistinctPids : Jails → Type 0
HasDistinctPids [] = Unit
HasDistinctPids ((p, name) ∷ jails) = (get_jail p jails ≡ none) × HasDistinctPids jails

pub set_jail-HasDistinctPids :
    (pid : ℕ) (name : Text) (jails : Jails)
    → HasDistinctPids jails
    → HasDistinctPids (set_jail pid name jails)
unfolding set_jail HasDistinctPids
set_jail-HasDistinctPids pid name [] h = (unfold get_jail in refl, tt)
set_jail-HasDistinctPids pid name ((p, old) ∷ jails) h = elim (Bool-cases (p == pid)) [
  | inl same ↦ rw same h
  | inr differs ↦
      let fresh : get_jail p (set_jail pid name jails) ≡ none =
        ground (arith, get-set_jail p pid name jails, h.0) in
      rw differs (fresh, set_jail-HasDistinctPids pid name jails h.1)
]

get-pop_jail :
    (q pid : ℕ) (jails : Jails)
    → HasDistinctPids jails
    → get_jail q (pop_jail pid jails) ≡ (if pid == q then none else get_jail q jails)
unfolding get_jail pop_jail HasDistinctPids
get-pop_jail q pid [] h = ground arith
get-pop_jail q pid ((p, name) ∷ jails) h = elim (Bool-cases (p == q)) [
  | inl same ↦
      let e : p ≡ q = ground arith in
      let fresh : get_jail q jails ≡ none = rw e at h.0 in
      ground (arith, fresh, get-pop_jail q pid jails h.1)
  | inr differs ↦ ground (arith, get-pop_jail q pid jails h.1)
]

pop_jail-HasDistinctPids :
    (pid : ℕ) (jails : Jails) → HasDistinctPids jails → HasDistinctPids (pop_jail pid jails)
unfolding pop_jail HasDistinctPids
pop_jail-HasDistinctPids pid [] h = tt
pop_jail-HasDistinctPids pid ((p, name) ∷ jails) h = elim (Bool-cases (p == pid)) [
  | inl same ↦ rw same h.1
  | inr differs ↦
      let fresh : get_jail p (pop_jail pid jails) ≡ none =
        ground (arith, get-pop_jail p pid jails h.1, h.0) in
      rw differs (fresh, pop_jail-HasDistinctPids pid jails h.1)
]

abbrev succeeds : {A : Type 0} → Result A → Bool
succeeds (raise e) = false
succeeds (ok a) = true

-- The child has a jail, and waiting for it and destroying its jail succeed.
abbrev pub reaps : World ContainerData → ℕ → Option Text → Bool
reaps world pid none = false
reaps world pid (some name) = succeeds (world.exit_code pid) && succeeds (world.destroy name)

module _ (world : World ContainerData) where
  destroyed-jails :
      (pid : ℕ) (name : Text) (notify : Bool) (jails : Jails) (code : ℕ) (r : Result (Unit {0}))
      → (destroyed world pid name notify jails code r).1
        ≡ (if succeeds r then pop_jail pid jails else jails)
  destroyed-jails pid name notify jails code (raise e) = refl
  destroyed-jails pid name notify jails code (ok t) = refl

  waited-jails :
      (pid : ℕ) (name : Text) (notify : Bool) (jails : Jails) (r : Result ℕ)
      → (waited world pid name notify jails r).1
        ≡ (if succeeds r && succeeds (world.destroy name) then pop_jail pid jails else jails)
  waited-jails pid name notify jails (raise e) = refl
  waited-jails pid name notify jails (ok code) =
      destroyed-jails pid name notify jails code (world.destroy name)

  remove_container-jails :
      (pid : ℕ) (notify : Bool) (jails : Jails)
      → (remove_container world pid notify jails).1
        ≡ (if reaps world pid (get_jail pid jails) then pop_jail pid jails else jails)
  unfolding remove_container
  remove_container-jails pid notify jails = elim (Option-cases (get_jail pid jails)) [
    | inl missing ↦ rw (remove_container, missing)
    | inr (name, found) ↦
        rw (remove_container, found) (waited-jails pid name notify jails (world.exit_code pid))
  ]

  remove_container-HasDistinctPids :
      (pid : ℕ) (notify : Bool) (jails : Jails)
      → HasDistinctPids jails
      → HasDistinctPids (remove_container world pid notify jails).1
  remove_container-HasDistinctPids pid notify jails h =
      rw (remove_container-jails pid notify jails)
        (elim (Bool-cases (reaps world pid (get_jail pid jails))) [
          | inl gone ↦ rw gone (pop_jail-HasDistinctPids pid jails h)
          | inr kept ↦ rw kept h
        ])

  -- On a table with one entry for each child: the exit of a child takes its jail out of the table if
  -- waiting for it and destroying the jail succeed, and else leaves it there; the jail of every other
  -- child stays.
  pub get_jail-remove_container :
      (q pid : ℕ) (notify : Bool) (jails : Jails)
      → HasDistinctPids jails
      → get_jail q (remove_container world pid notify jails).1
        ≡ (if reaps world pid (get_jail pid jails) && (pid == q) then none else get_jail q jails)
  get_jail-remove_container q pid notify jails h =
      rw (remove_container-jails pid notify jails)
        (elim (Bool-cases (reaps world pid (get_jail pid jails))) [
          | inl gone ↦ rw gone (get-pop_jail q pid jails h)
          | inr kept ↦ rw kept
        ])

  and-false : (b : Bool) → (b && false) ≡ false
  and-false true = refl
  and-false false = refl

  still_there :
      (q pid : ℕ) (name : Text) (e : Exc) (jails : Jails)
      → get_jail pid jails ≡ some name
      → world.destroy name ≡ raise e
      → (if reaps world q (get_jail q jails) && (q == pid) then none else get_jail pid jails)
        ≡ some name
  still_there q pid name e jails found broken = elim (Bool-cases (q == pid)) [
    | inl same ↦
        let e' : q ≡ pid = ground arith in
        rw (e', found, broken, and-false (succeeds (world.exit_code pid)))
    | inr differs ↦ rw (differs, and-false (reaps world q (get_jail q jails))) found
  ]

  -- On a table with one entry for each child: while the jail of one child cannot be destroyed, the
  -- clean-up at shutdown does not end, whatever exits are reported.
  pub clean_all_jails-stuck :
      (pid : ℕ) (name : Text) (e : Exc) (exits : List ℕ) (jails : Jails)
      → HasDistinctPids jails
      → get_jail pid jails ≡ some name
      → world.destroy name ≡ raise e
      → clean_all_jails world exits jails ≡ none
  unfolding clean_all_jails
  clean_all_jails-stuck pid name e exits [] h found broken = absurd (unfold get_jail in cc)
  clean_all_jails-stuck pid name e [] (jail ∷ jails) h found broken = refl
  clean_all_jails-stuck pid name e (q ∷ exits) (jail ∷ jails) h found broken =
      let all = jail ∷ jails in
      let after_exit = get_jail-remove_container pid q false all h in
      let still : get_jail pid (remove_container world q false all).1 ≡ some name =
        after_exit ∙ still_there q pid name e all found broken in
      rw (
        clean_all_jails,
        clean_all_jails-stuck pid name e exits (remove_container world q false all).1
            (remove_container-HasDistinctPids q false all h) still broken,
      )
