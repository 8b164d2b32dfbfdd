-- ===== src/CommitmentTree/Calculation/Leaves.antt =====
-- The leaves below a calculation, for
-- crates/starknet-os/src/starkware_utils/commitment_tree/patricia_tree/virtual_calculation_node.rs:
-- the specification that `combine` is measured by.
use snos.Base.{ℕ, ◌-◌, ◌^◌, ◌≤◌, ◌<◌, ◌≡◌, true, ltb, if◌then◌else◌}
use snos.CommitmentTree.Bytes.{Hash, empty_hash, bytes_eq→eq}
use snos.CommitmentTree.Reading.{edge_leaf, edge_leaf-empty}
use snos.CommitmentTree.Context.{LeafFact}
use snos.CommitmentTree.Calculation.{
  HashCalculation, binary_calculation, edge_calculation, leaf_fact_calculation,
  constant_calculation, VirtualCalculationNode, is_empty_calculation, is_empty,
}

module _ {LF : Type 0} (lf : LeafFact LF) (resolve : Hash → ℕ → ℕ → Hash) where
  unfoldable pub calculation_leaf : HashCalculation LF → (height index : ℕ) → Hash
  calculation_leaf (constant_calculation value) height index = resolve value height index
  calculation_leaf (leaf_fact_calculation fact) height index = lf.hash fact
  calculation_leaf (edge_calculation bottom path n) height index =
      edge_leaf (calculation_leaf bottom) path n height index
  calculation_leaf (binary_calculation left right) height index =
      let in_left = calculation_leaf left (height - 1) index in
      let in_right = calculation_leaf right (height - 1) (index - 2 ^ (height - 1)) in
      if ltb index (2 ^ (height - 1)) then in_left else in_right

  -- The leaf of a virtual node under an index below 2 ^ height.
  unfoldable pub node_leaf : VirtualCalculationNode LF → ℕ → Hash
  node_leaf node index =
      edge_leaf (calculation_leaf node.bottom_calculation) node.path node.length node.height index

module _ {LF : Type 0} (Held : Hash → ℕ → Type 0) where
  -- The heights agree all the way down, and every path fits its length.
  abbrev pub IsValidCalculation : HashCalculation LF → ℕ → Type 0
  IsValidCalculation (constant_calculation value) height = Held value height
  IsValidCalculation (leaf_fact_calculation fact) height = height ≡ 0
  IsValidCalculation (edge_calculation bottom path n) height =
      (path < 2 ^ n) × (n ≤ height) × IsValidCalculation bottom (height - n)
  IsValidCalculation (binary_calculation left right) height =
      (0 < height) × IsValidCalculation left (height - 1) × IsValidCalculation right (height - 1)

  pub record IsValid (node : VirtualCalculationNode LF) : Type 0 where
    pub path : node.path < 2 ^ node.length
    pub length : node.length ≤ node.height
    pub bottom : IsValidCalculation node.bottom_calculation (node.height - node.length)

module _ {LF : Type 0} (lf : LeafFact LF) (resolve : Hash → ℕ → ℕ → Hash) where
  calculation_leaf-empty :
      (b : HashCalculation LF)
      → ((height j : ℕ) → resolve empty_hash height j ≡ empty_hash)
      → is_empty_calculation lf b ≡ true
      → (k j : ℕ) → calculation_leaf lf resolve b k j ≡ empty_hash
  unfolding calculation_leaf is_empty_calculation
  calculation_leaf-empty (constant_calculation value) hr h k j =
      rw (bytes_eq→eq value empty_hash h) (hr k j)
  calculation_leaf-empty (leaf_fact_calculation fact) hr h k j = lf.hash_empty fact h
  calculation_leaf-empty (edge_calculation bottom path n) hr h k j = cc
  calculation_leaf-empty (binary_calculation left right) hr h k j = cc

  -- An empty node has empty leaves only.
  pub node_leaf-empty :
      (node : VirtualCalculationNode LF) (index : ℕ)
      → ((height j : ℕ) → resolve empty_hash height j ≡ empty_hash)
      → is_empty lf node ≡ true
      → node_leaf lf resolve node index ≡ empty_hash
  unfolding node_leaf is_empty
  node_leaf-empty node index hr h =
      edge_leaf-empty _ node.path node.length node.height index
        (calculation_leaf-empty node.bottom_calculation hr h)
