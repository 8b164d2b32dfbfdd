-- ===== src/CommitmentTree/VirtualNode/Leaves.antt =====
-- The leaves of virtual nodes, and the children of a virtual edge, for
-- crates/starknet-os/src/starkware_utils/commitment_tree/patricia_tree/virtual_patricia_node.rs.
use native.Mathlib.Nat.{div-add-mod, mod-lt}
use snos.Base.{
  ℕ, zero, suc, ◌+◌, ◌-◌, ◌*◌, ◌/◌, ◌%◌, ◌^◌, ◌≤◌, ◌<◌, ◌≡◌, ◌≢◌, refl, false, arith, ◌==◌, ltb,
  Bool-cases, inl, inr, ◌∙◌, ==_iff,
}
use snos.Base.Pow.{pow_pos, pow_double, div-lt_of_lt-mul}
use snos.Base.Outcome.{Outcome, ok, err, panicked}
use snos.CommitmentTree.Bytes.{Hash, empty_hash, Crypto}
use snos.CommitmentTree.Storage.{StorageError, Storage, get_or_fail}
use snos.CommitmentTree.Nodes.{PatriciaNodeFact, node_object, TreeError}
use snos.CommitmentTree.BaseTypes.{sub}
use snos.CommitmentTree.Reading.{
  Reading, halves, edge_leaf, edge_leaf-zero, edge_leaf-left, edge_leaf-right, edge_leaf-empty,
}
use snos.CommitmentTree.VirtualNode.{
  VirtualPatriciaNode, new_unchecked, empty_node, from_hash, get_virtual_edge_node_children,
}

-- A top bit of 0 leaves the path as it is, and a top bit of 1 is what the path loses.
path_bit :
    (path n : ℕ)
    → path < 2 ^ (n + 1)
    → (path / 2 ^ n ≡ 0 → (path % 2 ^ n ≡ path) × (path < 2 ^ n))
      × (path / 2 ^ n ≢ 0 → (path % 2 ^ n + 2 ^ n ≡ path))
path_bit path n h =
    let pos : 0 < 2 ^ n = pow_pos n in
    let dm : 2 ^ n * (path / 2 ^ n) + path % 2 ^ n ≡ path = div-add-mod path (2 ^ n) in
    let ml : path % 2 ^ n < 2 ^ n = mod-lt path pos in
    let two : path / 2 ^ n < 2 =
      div-lt_of_lt-mul path 2 (2 ^ n) pos (omega (arith, pow_double n)) in
    (
      λ z.
          let low : 2 ^ n * 0 + path % 2 ^ n ≡ path = rw z at dm in
          let low' : path % 2 ^ n ≡ path = omega (arith, low) in (low', omega (arith, low', ml)),
      λ nz.
          let one : path / 2 ^ n ≡ 1 = omega (arith, two, nz) in
          let high : 2 ^ n * 1 + path % 2 ^ n ≡ path = rw one at dm in omega (arith, high),
    )

pub zero_path : (n path : ℕ) → n ≡ 0 → path < 2 ^ n → path ≡ 0
zero_path n path e lt = let one : path < 2 ^ 0 = rw e at lt in omega arith

pub below : (index height : ℕ) → index < 2 ^ (height + 1) → index < 2 ^ suc height
below index height h = let e : height + 1 ≡ suc height = omega arith in rw e at h

module _ {S : Type 0} (c : Crypto) (st : Storage S) (s : S) (rd : Reading c st s) where
  open rd use {Held, resolve}

  abbrev pub read : Hash → Outcome StorageError PatriciaNodeFact
  read h = get_or_fail (node_object c.biguint) st s h

  pub record IsValid (node : VirtualPatriciaNode) : Type 0 where
    pub path : node.path < 2 ^ node.length
    pub length : node.length ≤ node.height
    pub bottom : Held node.bottom_node (node.height - node.length)

  -- The leaf of a node under an index below 2 ^ height.
  unfoldable pub node_leaf : VirtualPatriciaNode → ℕ → Hash
  node_leaf node index =
      edge_leaf (resolve node.bottom_node) node.path node.length node.height index

  -- Valid nodes of the height below, that have the two halves of the leaves.
  pub record AreChildren (node left right : VirtualPatriciaNode) : Type 0 where
    pub left_valid : IsValid left
    pub right_valid : IsValid right
    pub left_height : left.height + 1 ≡ node.height
    pub right_height : right.height + 1 ≡ node.height
    pub leaves :
        (index : ℕ)
        → index < 2 ^ node.height
        → node_leaf node index ≡ halves (node_leaf left) (node_leaf right) left.height index

  pub empty_node-IsValid : (height : ℕ) → IsValid (empty_node height)
  empty_node-IsValid height = record {
    path = omega arith;
    length = omega arith;
    bottom = rd.held_empty (height - 0);
  }

  pub empty_node-leaf : (height index : ℕ) → node_leaf (empty_node height) index ≡ empty_hash
  unfolding node_leaf
  empty_node-leaf height index =
      edge_leaf-empty (resolve empty_hash) 0 0 height index rd.resolve_empty

  pub flat-IsValid : (h : Hash) (height : ℕ) → Held h height → IsValid (from_hash h height)
  flat-IsValid h height held =
      let d : height - 0 ≡ height = omega arith in
      record { path = omega arith; length = omega arith; bottom = rw d held }

  pub flat-leaf :
      (h : Hash) (height index : ℕ)
      → index < 2 ^ height
      → node_leaf (from_hash h height) index ≡ resolve h height index
  unfolding node_leaf
  flat-leaf h height index hi = edge_leaf-zero (resolve h) height index hi

  -- The two children of an edge whose first turn is cut off.
  left-AreChildren :
      (bottom : Hash) (path n height : ℕ)
      → path < 2 ^ n
      → n ≤ height
      → Held bottom (height - n)
      → AreChildren
          (new_unchecked bottom path (n + 1) (height + 1))
          (new_unchecked bottom path n height)
          (empty_node height)
  unfolding node_leaf
  left-AreChildren bottom path n height hp hn hb = record {
    left_valid = record { path = hp; length = hn; bottom = hb };
    right_valid = empty_node-IsValid height;
    left_height = refl;
    right_height = refl;
    leaves = λ index hi. left_leaves index hi;
  }
    where
      left_leaves :
          (index : ℕ)
          → index < 2 ^ (height + 1)
          → edge_leaf (resolve bottom) path (n + 1) (height + 1) index
            ≡ halves
                (edge_leaf (resolve bottom) path n height)
                (edge_leaf (resolve empty_hash) 0 0 height)
                height
                index
      left_leaves index hi =
          edge_leaf-left (resolve bottom) path n height index hp hn (below index height hi)
          ∙ ground (arith, empty_node-leaf height (index - 2 ^ height))

  right-AreChildren :
      (bottom : Hash) (path n height : ℕ)
      → path < 2 ^ n
      → n ≤ height
      → Held bottom (height - n)
      → AreChildren
          (new_unchecked bottom (path + 2 ^ n) (n + 1) (height + 1))
          (empty_node height)
          (new_unchecked bottom path n height)
  unfolding node_leaf
  right-AreChildren bottom path n height hp hn hb = record {
    left_valid = empty_node-IsValid height;
    right_valid = record { path = hp; length = hn; bottom = hb };
    left_height = refl;
    right_height = refl;
    leaves = λ index hi. right_leaves index hi;
  }
    where
      right_leaves :
          (index : ℕ)
          → index < 2 ^ (height + 1)
          → edge_leaf (resolve bottom) (path + 2 ^ n) (n + 1) (height + 1) index
            ≡ halves
                (edge_leaf (resolve empty_hash) 0 0 height)
                (edge_leaf (resolve bottom) path n height)
                height
                index
      right_leaves index hi =
          edge_leaf-right (resolve bottom) path n height index hp hn (below index height hi)
          ∙ ground (arith, empty_node-leaf height index)

  -- What `get_virtual_edge_node_children` may give for a node: a node of length 0 panics.
  abbrev pub ChildrenOrFlat :
      VirtualPatriciaNode → Outcome TreeError (VirtualPatriciaNode × VirtualPatriciaNode) → Type 0
  ChildrenOrFlat node (ok (left, right)) = AreChildren node left right
  ChildrenOrFlat node (err e) = ⊥
  ChildrenOrFlat node panicked = node.length ≡ 0

  edge-ChildrenOrFlat :
      (bottom : Hash) (path n height : ℕ)
      → IsValid (new_unchecked bottom path (n + 1) (height + 1))
      → ChildrenOrFlat
          (new_unchecked bottom path (n + 1) (height + 1))
          (get_virtual_edge_node_children (new_unchecked bottom path (n + 1) (height + 1)))
  unfolding get_virtual_edge_node_children sub
  edge-ChildrenOrFlat bottom path n height v =
      let dn : n + 1 - 1 ≡ n = omega arith in
      let dh : height + 1 - 1 ≡ height = omega arith in
      let hn : n ≤ height = omega (arith, v.length) in
      let dd : height + 1 - (n + 1) ≡ height - n = omega arith in
      let hb : Held bottom (height - n) = rw dd at v.bottom in
      let bit = path_bit path n v.path in
      let nt : ltb (n + 1) 1 ≡ false = ground arith in
      let ht : ltb (height + 1) 1 ≡ false = ground arith in
      rw (ht, nt, dn, dh)
        (elim (Bool-cases (path / 2 ^ n == 0)) [
          | inl e ↦
              let same = bit.0 ((==_iff (path / 2 ^ n) 0).0 e) in
              rw (e, same.0) (left-AreChildren bottom path n height same.1 hn hb)
          | inr e ↦
              let high : path % 2 ^ n + 2 ^ n ≡ path = bit.1 (λ z. ground arith) in
              rw e (
                rw high at (
                  right-AreChildren bottom (path % 2 ^ n) n height (mod-lt path (pow_pos n)) hn hb))
        ])

  pub edge_children-ChildrenOrFlat :
      (bottom : Hash) (path n height : ℕ)
      → IsValid (new_unchecked bottom path n height)
      → 0 < height
      → ChildrenOrFlat
          (new_unchecked bottom path n height)
          (get_virtual_edge_node_children (new_unchecked bottom path n height))
  unfolding get_virtual_edge_node_children sub
  edge_children-ChildrenOrFlat bottom path zero height v lt =
      let ht : ltb height 1 ≡ false = ground arith in rw ht refl
  edge_children-ChildrenOrFlat bottom path (suc n) zero v lt = absurd (omega arith)
  edge_children-ChildrenOrFlat bottom path (suc n) (suc height) v lt =
      let en : n + 1 ≡ suc n = omega arith in
      let eh : height + 1 ≡ suc height = omega arith in
      rw (en, eh) at (edge-ChildrenOrFlat bottom path n height (rw (en, eh) v))
