-- ===== src/Dns/DnsTree/Paths.antt =====
-- The address at the end of a path of labels, and what `insert` does to it.
use dockermock.Prelude.{
  ◌≡◌, refl, Option, none, some, List, [], ◌∷◌, if◌then◌else◌, arith, inl, inr, Bool-cases,
}
use dockermock.Prelude.Text.{Text, text_beq, text_beq_iff, paths_beq}
use dockermock.Dns.DnsTree.{
  DnsTreeNode, node, Children, nil, cons, new_node, get_child, set_child, child_or_new, assign,
  walk,
}

module _ {A : Type 0} where
  pub get-set_child :
      (k j : Text) (n : DnsTreeNode A) (cs : Children A)
      → get_child j (set_child k n cs) ≡ (if text_beq k j then some n else get_child j cs)
  unfolding get_child set_child
  get-set_child k j n nil = refl
  get-set_child k j n (cons i m cs) =
      ground (arith, get-set_child k j n cs, text_beq_iff k j, text_beq_iff i k, text_beq_iff i j)

  abbrev ip_of : Option (DnsTreeNode A) → Option A
  ip_of none = none
  ip_of (some (node ip cs)) = ip

  -- The address at the end of the path, if there is one.
  unfoldable pub ip_at : List Text → DnsTreeNode A → Option A
  ip_at ps n = ip_of (walk ps n)

  unfoldable pub ip_below : List Text → Option (DnsTreeNode A) → Option A
  ip_below ps none = none
  ip_below ps (some n) = ip_at ps n

  pub ip_at-cons :
      (p : Text) (ps : List Text) (ip : Option A) (cs : Children A)
      → ip_at (p ∷ ps) (node ip cs) ≡ ip_below ps (get_child p cs)
  unfolding ip_at ip_below walk
  ip_at-cons p ps ip cs = ground arith

  pub ip_at-new_node : (ps : List Text) → ip_at ps (new_node {A = A}) ≡ none
  unfolding ip_at walk get_child
  ip_at-new_node [] = refl
  ip_at-new_node (p ∷ ps) = refl

  ip_at-child_or_new :
      (ps : List Text) (c : Option (DnsTreeNode A)) → ip_at ps (child_or_new c) ≡ ip_below ps c
  unfolding ip_below
  ip_at-child_or_new ps none = ip_at-new_node ps
  ip_at-child_or_new ps (some n) = refl

  pub ip_below-some : (ps : List Text) (n : DnsTreeNode A) → ip_below ps (some n) ≡ ip_at ps n
  ip_below-some ps n = unfold ip_below in refl

  -- The walk of `insert` and of `clear_ip` sets the address at the end of its own path, and leaves
  -- the address of every other path as it was.
  pub ip_at-assign :
      (ps qs : List Text) (ip : Option A) (n : DnsTreeNode A)
      → ip_at qs (assign ps ip n) ≡ (if paths_beq ps qs then ip else ip_at qs n)
  unfolding assign
  ip_at-assign [] [] ip (node old cs) = unfold ip_at walk in refl
  ip_at-assign [] (q ∷ qs) ip (node old cs) = rw (ip_at-cons, ip_at-cons)
  ip_at-assign (p ∷ ps) [] ip (node old cs) = unfold ip_at walk in refl
  ip_at-assign (p ∷ ps) (q ∷ qs) ip (node old cs) =
      let next = assign ps ip (child_or_new (get_child p cs)) in
      rw
        (
          ip_at-cons q qs old (set_child p next cs),
          ip_at-cons q qs old cs,
          get-set_child p q next cs,
        )
        (elim (Bool-cases (text_beq p q)) [
          | inl same ↦
              let e : p ≡ q = (text_beq_iff p q).0 same in
              rw same (
                rw (ip_below-some qs next) (
                  rw (ip_at-assign ps qs ip (child_or_new (get_child p cs)))
                    (rw (ip_at-child_or_new qs (get_child p cs), e))))
          | inr differs ↦ rw differs
        ])
