-- ===== src/Dns/DnsTree.antt =====
-- app2/dns/DnsTree.py: the registered names, as a tree over the labels of a domain from the right.
-- The lock of the tree serialises insert and clear_ip; an operation is one step here.
pub mod Labels
pub mod Paths
pub mod Keys
pub mod Collect
mod Tests
use dockermock.Prelude.{
  ℕ, zero, suc, ◌+◌, Bool, true, false, Option, none, some, List, [], ◌∷◌, ◌++◌, if◌then◌else◌,
  ◌==◌, nat_eq, is_some, length, take, drop, Result, ok, raise_if, name_error, ◌>>◌,
}
use dockermock.Prelude.Text.{Text, text_beq}

-- A node: its `ip`, and its `children`, a dict in the order of insertion.
mutual
  pub data DnsTreeNode (A : Type 0) : Type 0 where
    node : Option A → Children A → DnsTreeNode A

  pub data Children (A : Type 0) : Type 0 where
    nil : Children A
    cons : Text → DnsTreeNode A → Children A → Children A

-- text.rfind('.') : the last index of a dot
pub last_dot : Text → Option ℕ
last_dot [] = none
last_dot (c ∷ s) = elim (last_dot s) [
  | some i ↦ some (suc i)
  | none ↦ if c == b'.' then some 0 else none
]

-- The loop of `rsplit_generator` with fuel: `end = domain.rfind('.', 0, start)`, and the label is
-- `domain[end+1:start]`.
pub rsplit_from : ℕ → Text → ℕ → List Text
rsplit_from zero domain start = []
rsplit_from (suc fuel) domain start =
    let labels : List Text = elim (last_dot (take start domain)) [
      | none ↦ take start domain ∷ []
      | some end ↦ drop (suc end) (take start domain) ∷ rsplit_from fuel domain end
    ] in
    if start == 0 then [] else labels

-- `start` falls in each round, so its first value and one are enough fuel.
unfoldable pub rsplit_generator : Text → List Text
unfolding rsplit_from last_dot
rsplit_generator domain = rsplit_from (suc (length domain)) domain (length domain)

module _ {A : Type 0} where
  abbrev pub new_node : DnsTreeNode A
  new_node = node none nil

  -- children.get(part)
  pub get_child : Text → Children A → Option (DnsTreeNode A)
  get_child part nil = none
  get_child part (cons key n rest) = if text_beq key part then some n else get_child part rest

  -- The child under `part`, a new node if there is none.
  abbrev pub child_or_new : Option (DnsTreeNode A) → DnsTreeNode A
  child_or_new none = new_node
  child_or_new (some n) = n

  -- children[part] = n: in place, or at the end for a new key
  pub set_child : Text → DnsTreeNode A → Children A → Children A
  set_child part n nil = cons part n nil
  set_child part n (cons key old rest) =
      if text_beq key part then cons key n rest else cons key old (set_child part n rest)

  -- The walk of `insert` and of `clear_ip`, which creates the nodes that are missing; at its end
  -- `node.ip = ip`.
  pub assign : List Text → Option A → DnsTreeNode A → DnsTreeNode A
  assign [] ip (node old children) = node ip children
  assign (part ∷ parts) ip (node old children) =
      node old (set_child part (assign parts ip (child_or_new (get_child part children))) children)

  unfoldable pub insert : Text → A → DnsTreeNode A → DnsTreeNode A
  unfolding assign get_child set_child rsplit_generator
  insert domain ip root = assign (rsplit_generator domain) (some ip) root

  -- The first line logs `{ip}`, a name that `clear_ip` does not bind.
  unfoldable pub clear_ip : Text → DnsTreeNode A → Result (DnsTreeNode A)
  unfolding assign get_child set_child rsplit_generator
  clear_ip domain root = do
    raise_if true name_error
    ok (assign (rsplit_generator domain) none root)

  -- The walk of `collect_from`; `none` where a label has no node.
  pub walk : List Text → DnsTreeNode A → Option (DnsTreeNode A)
  walk [] n = some n
  walk (part ∷ parts) (node ip children) = elim (get_child part children) [
    | none ↦ none
    | some n ↦ walk parts n
  ]

  -- The addresses of a node and of all below it.
  mutual
    pub collect_all : DnsTreeNode A → List A
    collect_all (node none children) = collect_children children
    collect_all (node (some ip) children) = ip ∷ collect_children children

    pub collect_children : Children A → List A
    collect_children nil = []
    collect_children (cons key n rest) = collect_all n ++ collect_children rest

  abbrev collect_found : Option (DnsTreeNode A) → List A
  collect_found none = []
  collect_found (some n) = collect_all n

  unfoldable pub collect_from : Text → DnsTreeNode A → List A
  unfolding walk get_child rsplit_generator collect_all collect_children
  collect_from domain root = collect_found (walk (rsplit_generator domain) root)

  -- The loop of `longest_prefix_node`, and the node that it has passed last with an address.
  abbrev or_last : DnsTreeNode A → Option (DnsTreeNode A) → Option (DnsTreeNode A)
  or_last (node none children) last = last
  or_last (node (some ip) children) last = some (node (some ip) children)

  pub longest_prefix_from :
      List Text → DnsTreeNode A → Option (DnsTreeNode A) → Option (DnsTreeNode A)
  longest_prefix_from [] n last_node_with_ip = last_node_with_ip
  longest_prefix_from (part ∷ parts) (node ip children) last_node_with_ip =
      elim (get_child part children) [
        | none ↦ last_node_with_ip
        | some n ↦ longest_prefix_from parts n (or_last n last_node_with_ip)
      ]

  unfoldable pub longest_prefix_node : List Text → DnsTreeNode A → Option (DnsTreeNode A)
  unfolding longest_prefix_from get_child
  longest_prefix_node key_parts root = longest_prefix_from key_parts root none
