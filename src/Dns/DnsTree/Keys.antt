-- ===== src/Dns/DnsTree/Keys.antt =====
-- The keys of the dicts in the tree are distinct, and the operations keep them so.
use dockermock.Prelude.{
  ◌≡◌, refl, sym, ◌∙◌, Option, none, some, List, [], ◌∷◌, arith, inl, inr, Bool-cases, Option-cases,
}
use dockermock.Prelude.Text.{Text, text_beq, text_beq_iff}
use dockermock.Dns.DnsTree.{
  DnsTreeNode, node, Children, nil, cons, new_node, get_child, set_child, child_or_new, assign,
  walk,
}
use dockermock.Dns.DnsTree.Paths.{get-set_child}

module _ {A : Type 0} where
  -- The keys of every dict in the tree are distinct.
  unfoldable mutual
    pub HasDistinctKeys : DnsTreeNode A → Type 0
    HasDistinctKeys (node ip cs) = AreDistinct cs

    pub AreDistinct : Children A → Type 0
    AreDistinct nil = Unit
    AreDistinct (cons k n cs) = (get_child k cs ≡ none) × HasDistinctKeys n × AreDistinct cs

  pub walk-missing :
      (p : Text) (ps : List Text) (ip : Option A) (cs : Children A)
      → get_child p cs ≡ none
      → walk (p ∷ ps) (node ip cs) ≡ none
  unfolding walk
  walk-missing p ps ip cs missing = ground arith

  pub walk-found :
      (p : Text) (ps : List Text) (ip : Option A) (cs : Children A) (n : DnsTreeNode A)
      → get_child p cs ≡ some n
      → walk (p ∷ ps) (node ip cs) ≡ walk ps n
  unfolding walk
  walk-found p ps ip cs n found = ground arith

  HasDistinctKeys-child :
      (p : Text) (cs : Children A) (n : DnsTreeNode A)
      → AreDistinct cs
      → get_child p cs ≡ some n
      → HasDistinctKeys n
  unfolding HasDistinctKeys AreDistinct get_child
  HasDistinctKeys-child p nil n h e = absurd cc
  HasDistinctKeys-child p (cons k m cs) n h e = elim (Bool-cases (text_beq k p)) [
    | inl same ↦ let e' : m ≡ n = ground arith in rw e' at h.1
    | inr differs ↦ HasDistinctKeys-child p cs n h.2 (rw differs at e)
  ]

  pub walk-HasDistinctKeys :
      (ps : List Text) (n m : DnsTreeNode A)
      → HasDistinctKeys n
      → walk {A = A} ps n ≡ some m
      → HasDistinctKeys m
  walk-HasDistinctKeys [] n m h e = let e' : n ≡ m = unfold walk in cc in rw e' at h
  walk-HasDistinctKeys (p ∷ ps) (node ip cs) m h e = elim (Option-cases (get_child p cs)) [
    | inl missing ↦ let nothing = walk-missing p ps ip cs missing in absurd cc
    | inr (n, found) ↦
        walk-HasDistinctKeys ps n m
          (HasDistinctKeys-child p cs n (unfold HasDistinctKeys in h) found)
          (sym (walk-found p ps ip cs n found) ∙ e)
  ]

  AreDistinct-set_child :
      (p : Text) (n : DnsTreeNode A) (cs : Children A)
      → HasDistinctKeys n
      → AreDistinct cs
      → AreDistinct (set_child p n cs)
  unfolding AreDistinct set_child
  AreDistinct-set_child p n nil hn h = (unfold get_child in refl, hn, tt)
  AreDistinct-set_child p n (cons k m cs) hn h = elim (Bool-cases (text_beq k p)) [
    | inl same ↦ rw same (h.0, hn, h.2)
    | inr differs ↦
        let fresh : get_child k (set_child p n cs) ≡ none =
          ground (arith, get-set_child p k n cs, text_beq_iff p k, text_beq_iff k p) in
        rw differs (fresh, h.1, AreDistinct-set_child p n cs hn h.2)
  ]

  -- On a tree whose dicts have distinct keys, the walk of `insert` and of `clear_ip`, with whatever
  -- address it sets, leaves the keys distinct.
  pub assign-HasDistinctKeys :
      (ps : List Text) (ip : Option A) (n : DnsTreeNode A)
      → HasDistinctKeys n
      → HasDistinctKeys (assign ps ip n)
  unfolding assign HasDistinctKeys
  assign-HasDistinctKeys [] ip (node old cs) h = h
  assign-HasDistinctKeys (p ∷ ps) ip (node old cs) h =
      AreDistinct-set_child p (assign ps ip (child_or_new (get_child p cs))) cs
        (assign-HasDistinctKeys ps ip (child_or_new (get_child p cs))
          (elim (Option-cases (get_child p cs)) [
            | inl missing ↦ rw missing tt
            | inr (n, found) ↦ rw found (HasDistinctKeys-child p cs n h found)
          ]))
        h

-- The tree of `__init__`.
pub new_node-HasDistinctKeys : (A : Type 0) → HasDistinctKeys (new_node {A = A})
new_node-HasDistinctKeys A = unfold HasDistinctKeys AreDistinct in tt
