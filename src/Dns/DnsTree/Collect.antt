-- ===== src/Dns/DnsTree/Collect.antt =====
-- What `collect_from` returns: the addresses registered at the domain and below it, and no others.
use mathlib.Core.List.{Memᴰ}
use mathlib.Core.List.Memᴰ
use dockermock.Prelude.{
  ◌≡◌, ◌↔◌, refl, sym, ◌∙◌, Option, none, some, List, [], ◌∷◌, ◌++◌, arith, inl, inr, Bool-cases,
  Option-cases,
}
use dockermock.Prelude.Text.{Text, text_beq, text_beq_iff}
use dockermock.Dns.DnsTree.{
  DnsTreeNode, node, Children, nil, cons, get_child, walk, rsplit_generator, collect_all,
  collect_children, collect_from,
}
use dockermock.Dns.DnsTree.Paths.{ip_at, ip_below, ip_below-some, ip_at-cons}
use dockermock.Dns.DnsTree.Keys.{
  HasDistinctKeys, AreDistinct, walk-missing, walk-found, walk-HasDistinctKeys,
}

module _ {A : Type 0} where
  get_child-cons_self :
      (k : Text) (n : DnsTreeNode A) (cs : Children A) → get_child k (cons k n cs) ≡ some n
  unfolding get_child
  get_child-cons_self k n cs = rw ((text_beq_iff k k).1 refl)

  -- A key further on is not the first one.
  ip_below-cons :
      (k p : Text) (ps : List Text) (n : DnsTreeNode A) (cs : Children A) (a : A)
      → get_child k cs ≡ none
      → ip_below ps (get_child p cs) ≡ some a
      → ip_below ps (get_child p (cons k n cs)) ≡ some a
  unfolding ip_below get_child
  ip_below-cons k p ps n cs a fresh e = elim (Bool-cases (text_beq k p)) [
    | inl same ↦
        let same' : k ≡ p = (text_beq_iff k p).0 same in
        let e' : ip_below ps (get_child k cs) ≡ some a = rw same' e in
        let e'' : ip_below ps none ≡ some a = rw fresh at e' in absurd cc
    | inr differs ↦ rw differs e
  ]

  ip_at-nil : (ip : Option A) (cs : Children A) → ip_at [] (node ip cs) ≡ ip
  ip_at-nil ip cs = unfold ip_at walk in refl

  -- An address that is collected stands at the end of some path.
  mutual
    unfolding HasDistinctKeys AreDistinct collect_all collect_children

    collect_all_sound :
        (n : DnsTreeNode A) (a : A)
        → HasDistinctKeys n
        → Memᴰ a (collect_all n)
        → (ps : List Text) × (ip_at ps n ≡ some a)
    collect_all_sound (node none cs) a h m =
        let (p, ps, e) = collect_children_sound cs a h m in (p ∷ ps, ip_at-cons p ps none cs ∙ e)
    collect_all_sound (node (some ip) cs) a h m = elim (Memᴰ.cases_cons m) [
      | inl e ↦ ([], ip_at-nil (some ip) cs ∙ cc)
      | inr m ↦
          let (p, ps, e) = collect_children_sound cs a h m in
          (p ∷ ps, ip_at-cons p ps (some ip) cs ∙ e)
    ]

    collect_children_sound :
        (cs : Children A) (a : A)
        → AreDistinct cs
        → Memᴰ a (collect_children cs)
        → (p : Text) × (ps : List Text) × (ip_below ps (get_child p cs) ≡ some a)
    collect_children_sound nil a h m = elim m [ ]
    collect_children_sound (cons k n cs) a h m = elim (Memᴰ.append_cases (collect_all n) m) [
      | inl m ↦
          let (ps, e) = collect_all_sound n a h.1 m in
          (k, ps, rw (get_child-cons_self k n cs, ip_below-some ps n) e)
      | inr m ↦
          let (p, ps, e) = collect_children_sound cs a h.2 m in
          (p, ps, ip_below-cons k p ps n cs a h.0 e)
    ]

  mem-collect_children :
      (p : Text) (cs : Children A) (n : DnsTreeNode A) (a : A)
      → get_child p cs ≡ some n
      → Memᴰ a (collect_all n)
      → Memᴰ a (collect_children cs)
  unfolding get_child collect_children
  mem-collect_children p nil n a e m = cc
  mem-collect_children p (cons k c cs) n a e m = elim (Bool-cases (text_beq k p)) [
    | inl same ↦
        let e' : c ≡ n = ground arith in
        Memᴰ.append_left {s = collect_all c} (collect_children cs) (rw e' m)
    | inr differs ↦
        Memᴰ.append_right (collect_all c) (mem-collect_children p cs n a (rw differs at e) m)
  ]

  mem-collect_node :
      (ip : Option A) (cs : Children A) (a : A)
      → Memᴰ a (collect_children cs)
      → Memᴰ a (collect_all (node ip cs))
  unfolding collect_all
  mem-collect_node none cs a m = m
  mem-collect_node (some ip) cs a m = Memᴰ.tail m

  -- Every address at the end of a path is collected.
  collect_all_complete :
      (ps : List Text) (n : DnsTreeNode A) (a : A) → ip_at ps n ≡ some a → Memᴰ a (collect_all n)
  collect_all_complete [] (node none cs) a e = let nothing = ip_at-nil none cs in absurd cc
  collect_all_complete [] (node (some ip) cs) a e =
      let e' : a ≡ ip = (let here = ip_at-nil (some ip) cs in cc) in
      unfold collect_all in Memᴰ.head e'
  collect_all_complete (p ∷ ps) (node ip cs) a e = elim (Option-cases (get_child p cs)) [
    | inl missing ↦
        let e' : ip_below ps (get_child p cs) ≡ some a = sym (ip_at-cons p ps ip cs) ∙ e in
        let e'' : ip_below ps none ≡ some a = rw missing at e' in absurd (unfold ip_below in cc)
    | inr (n, found) ↦
        let e' : ip_below ps (get_child p cs) ≡ some a = sym (ip_at-cons p ps ip cs) ∙ e in
        let e'' : ip_below ps (some n) ≡ some a = rw found at e' in
        mem-collect_node ip cs a (
          mem-collect_children p cs n a found
            (collect_all_complete ps n a (sym (ip_below-some ps n) ∙ e'')))
  ]

  ip_at-append :
      (ps qs : List Text) (n : DnsTreeNode A) → ip_at (ps ++ qs) n ≡ ip_below qs (walk ps n)
  ip_at-append [] qs n = unfold walk in sym (ip_below-some qs n)
  ip_at-append (p ∷ ps) qs (node ip cs) =
      ip_at-cons p (ps ++ qs) ip cs ∙ elim (Option-cases (get_child p cs)) [
        | inl missing ↦ rw (missing, walk-missing p ps ip cs missing) (unfold ip_below in refl)
        | inr (n, found) ↦
            rw (found, walk-found p ps ip cs n found)
              (ip_below-some (ps ++ qs) n ∙ ip_at-append ps qs n)
      ]

  collect_from-missing :
      (domain : Text) (root : DnsTreeNode A)
      → walk (rsplit_generator domain) root ≡ none
      → collect_from domain root ≡ []
  collect_from-missing domain root missing = unfold collect_from in rw missing

  collect_from-found :
      (domain : Text) (root n : DnsTreeNode A)
      → walk (rsplit_generator domain) root ≡ some n
      → collect_from domain root ≡ collect_all n
  collect_from-found domain root n found = unfold collect_from in rw found

  -- On a tree with distinct keys: `collect_from` returns an address exactly when it stands at the
  -- end of some path that begins with the labels of the domain.
  pub mem-collect_from :
      (domain : Text) (root : DnsTreeNode A) (a : A)
      → HasDistinctKeys root
      → Memᴰ a (collect_from domain root)
        ↔ ((qs : List Text) × (ip_at (rsplit_generator domain ++ qs) root ≡ some a))
  mem-collect_from domain root a h = elim (Option-cases (walk (rsplit_generator domain) root)) [
    | inl missing ↦ (
      (λ m. elim (rw (collect_from-missing domain root missing) at m) [ ]),
      (λ at.
          let e : ip_below at.0 (walk (rsplit_generator domain) root) ≡ some a =
            sym (ip_at-append (rsplit_generator domain) at.0 root) ∙ at.1 in
          let e' : ip_below at.0 none ≡ some a = rw missing at e in absurd (unfold ip_below in cc)),
    )
    | inr (n, found) ↦ (
      (λ m.
          let keys = walk-HasDistinctKeys (rsplit_generator domain) root n h found in
          let m' : Memᴰ a (collect_all n) = rw (collect_from-found domain root n found) at m in
          let (qs, e) = collect_all_sound n a keys m' in
          (qs, ip_at-append (rsplit_generator domain) qs root ∙ rw found (ip_below-some qs n ∙ e))),
      (λ at.
          let e : ip_below at.0 (walk (rsplit_generator domain) root) ≡ some a =
            sym (ip_at-append (rsplit_generator domain) at.0 root) ∙ at.1 in
          let e' : ip_below at.0 (some n) ≡ some a = rw found at e in
          rw (collect_from-found domain root n found)
            (collect_all_complete at.0 n a (sym (ip_below-some at.0 n) ∙ e'))),
    )
  ]
