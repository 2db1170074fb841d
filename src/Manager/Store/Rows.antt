-- ===== src/Manager/Store/Rows.antt =====
-- Laws of the statements on one table.
use mathlib.Core.List.{Memᴰ}
use mathlib.Core.List.Memᴰ
use dockermock.Prelude.{
  ◌≡◌, ◌↔◌, ◌⊎◌, refl, sym, ◌∙◌, inl, inr, Bool, true, false, none, some, List, [], ◌∷◌, ◌++◌,
  if◌then◌else◌, arith, All, Bool-cases, Option-cases, ok, raise, integrity_error, ok-injective,
}
use dockermock.Manager.Store.{fetchone, fetchall, update_where, insert_unique}

module _ {R : Type 0} where
  pub fetchone-some :
      (p : R → Bool) (rows : List R) (r : R) → fetchone p rows ≡ some r → (p r ≡ true) × Memᴰ r rows
  unfolding fetchone
  fetchone-some p [] r e = absurd cc
  fetchone-some p (x ∷ rows) r e = elim (Bool-cases (p x)) [
    | inl hit ↦ let e' : r ≡ x = ground arith in (rw e' hit, Memᴰ.head e')
    | inr miss ↦ let (h, m) = fetchone-some p rows r (rw miss at e) in (h, Memᴰ.tail m)
  ]

  pub fetchone-none :
      (p : R → Bool) (rows : List R) → fetchone p rows ≡ none → All (λ r. p r ≡ false) rows
  unfolding fetchone
  fetchone-none p [] e = tt
  fetchone-none p (x ∷ rows) e = elim (Bool-cases (p x)) [
    | inl hit ↦ absurd (ground arith)
    | inr miss ↦ (miss, fetchone-none p rows (rw miss at e))
  ]

  -- An update that leaves the test of `p` as it was, seen through `p`.
  pub fetchone-update_where :
      (p q : R → Bool) (f : R → R) (rows : List R)
      → ((r : R) → p (f r) ≡ p r)
      → fetchone p (update_where q f rows)
        ≡ elim (fetchone p rows) [ none ↦ none | some r ↦ some (if q r then f r else r) ]
  unfolding fetchone update_where
  fetchone-update_where p q f [] h = refl
  fetchone-update_where p q f (x ∷ rows) h = ground (arith, h x, fetchone-update_where p q f rows h)

  pub All-update_where :
      (P : R → Type 0) (q : R → Bool) (f : R → R) (rows : List R)
      → ((r : R) → P r → P (f r))
      → All P rows
      → All P (update_where q f rows)
  unfolding update_where
  All-update_where P q f [] h all = tt
  All-update_where P q f (x ∷ rows) h all = elim (Bool-cases (q x)) [
    | inl hit ↦ rw hit (h x all.0, All-update_where P q f rows h all.1)
    | inr miss ↦ rw miss (all.0, All-update_where P q f rows h all.1)
  ]

  pub mem-fetchall :
      (p : R → Bool) (rows : List R) (r : R)
      → Memᴰ r (fetchall p rows) ↔ (Memᴰ r rows × (p r ≡ true))
  unfolding fetchall
  mem-fetchall p [] r = ((λ m. elim m [ ]), (λ h. elim h.0 [ ]))
  mem-fetchall p (x ∷ rows) r = elim (Bool-cases (p x)) [
    | inl hit ↦ rw hit (
      (λ m. elim (Memᴰ.cases_cons m) [
        | inl e ↦ (Memᴰ.head e, rw e hit)
        | inr m ↦ let (m', h) = (mem-fetchall p rows r).0 m in (Memᴰ.tail m', h)
      ]),
      (λ h. elim (Memᴰ.cases_cons h.0) [
        | inl e ↦ Memᴰ.head e
        | inr m ↦ Memᴰ.tail ((mem-fetchall p rows r).1 (m, h.1))
      ]),
    )
    | inr miss ↦ rw miss (
      (λ m. let (m', h) = (mem-fetchall p rows r).0 m in (Memᴰ.tail m', h)),
      (λ h. elim (Memᴰ.cases_cons h.0) [
        | inl e ↦ absurd (let h' : p x ≡ true = rw e at h.1 in cc)
        | inr m ↦ (mem-fetchall p rows r).1 (m, h.1)
      ]),
    )
  ]

  pub insert_unique-fresh :
      (same : R → R → Bool) (row : R) (rows : List R)
      → fetchone (same row) rows ≡ none
      → insert_unique same row rows ≡ ok (rows ++ row ∷ [])
  unfolding insert_unique
  insert_unique-fresh same row rows fresh = ground arith

  pub insert_unique-ok :
      (same : R → R → Bool) (row : R) (rows rows' : List R)
      → insert_unique same row rows ≡ ok rows'
      → (fetchone (same row) rows ≡ none) × (rows' ≡ rows ++ row ∷ [])
  unfolding insert_unique
  insert_unique-ok same row rows rows' e = elim (Option-cases (fetchone (same row) rows)) [
    | inl fresh ↦ (fresh, sym (ok-injective (sym (insert_unique-fresh same row rows fresh) ∙ e)))
    | inr (taken, found) ↦ absurd (ground arith)
  ]

  pub insert_cases :
      (same : R → R → Bool) (row : R) (rows : List R)
      → (insert_unique same row rows ≡ raise integrity_error)
        ⊎ (insert_unique same row rows ≡ ok (rows ++ row ∷ []))
  unfolding insert_unique
  insert_cases same row rows = elim (Option-cases (fetchone (same row) rows)) [
    | inl fresh ↦ inr (insert_unique-fresh same row rows fresh)
    | inr (taken, found) ↦ inl (ground arith)
  ]

  -- A new row is found where no earlier one is.
  pub fetchone-append :
      (p : R → Bool) (rows : List R) (r : R)
      → fetchone p rows ≡ none
      → p r ≡ true
      → fetchone p (rows ++ r ∷ []) ≡ some r
  unfolding fetchone
  fetchone-append p [] r missing hit = rw hit
  fetchone-append p (x ∷ rows) r missing hit = elim (Bool-cases (p x)) [
    | inl found ↦ absurd (ground arith)
    | inr miss ↦ rw miss (fetchone-append p rows r (rw miss at missing) hit)
  ]
