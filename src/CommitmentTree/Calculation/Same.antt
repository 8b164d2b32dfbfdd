-- ===== src/CommitmentTree/Calculation/Same.antt =====
-- `with_fact` and the edges that a calculation node is unfolded to in
-- crates/starknet-os/src/starkware_utils/commitment_tree/patricia_tree/virtual_calculation_node.rs:
-- the node stays valid and keeps its leaves.
use mathlib.Core.Path.{subst}
use snos.Base.{ℕ, ◌-◌, ◌^◌, ◌<◌, ◌≡◌, refl, false, arith, ap, sym, ◌∙◌}
use snos.Base.Outcome.{ok}
use snos.CommitmentTree.Bytes.{Hash, Crypto}
use snos.CommitmentTree.Storage.{Storage, get_or_fail}
use snos.CommitmentTree.Nodes.{edge, EdgeNodeFact, node_object}
use snos.CommitmentTree.Context.{LeafFact}
use snos.CommitmentTree.Calculation.{
  HashCalculation, edge_calculation, constant_calculation, VirtualCalculationNode, is_virtual_edge,
  with_edge, with_fact,
}
use snos.CommitmentTree.Reading.{Reading, edge_leaf, edge_leaf-zero}
use snos.CommitmentTree.Calculation.Leaves.{
  calculation_leaf, node_leaf, IsValidCalculation, IsValid,
}

module _ {S LF : Type 0} (c : Crypto) (st : Storage S) (lf : LeafFact LF) (s : S)
    (rd : Reading c st s) where
  open rd use {Held, resolve, held_empty, resolve_empty, edge_fits, resolve_edge}

  -- A node that has the height and the leaves of another, and is valid.
  pub record SameLeaves (n m : VirtualCalculationNode LF) : Type 0 where
    pub valid : IsValid Held m
    pub height : m.height ≡ n.height
    pub leaves :
        (index : ℕ)
        → index < 2 ^ n.height
        → node_leaf lf resolve m index ≡ node_leaf lf resolve n index

  pub SameLeaves-refl : (n : VirtualCalculationNode LF) → IsValid Held n → SameLeaves n n
  SameLeaves-refl n v = record { valid = v; height = refl; leaves = λ index h. refl }

  -- A node that is no virtual edge has the leaves of its bottom.
  pub node_leaf-bottom :
      (n : VirtualCalculationNode LF) (index : ℕ)
      → IsValid Held n
      → is_virtual_edge n ≡ false
      → index < 2 ^ n.height
      → node_leaf lf resolve n index
        ≡ calculation_leaf lf resolve n.bottom_calculation n.height index
  unfolding node_leaf
  node_leaf-bottom n index v flat h =
      let l : n.length ≡ 0 = ground arith in
      let p : n.path ≡ 0 = zero_path n.length n.path l v.path in
      rw (l, p) (edge_leaf-zero (calculation_leaf lf resolve n.bottom_calculation) n.height index h)
    where
      zero_path : (l p : ℕ) → l ≡ 0 → p < 2 ^ l → p ≡ 0
      zero_path l p e lt = let one : p < 2 ^ 0 = rw e at lt in omega arith

  pub with_edge-SameLeaves_calculation :
      (n : VirtualCalculationNode LF) (bottom : HashCalculation LF) (path l : ℕ)
      → IsValid Held n
      → is_virtual_edge n ≡ false
      → n.bottom_calculation ≡ edge_calculation bottom path l
      → SameLeaves n (with_edge n bottom path l)
  with_edge-SameLeaves_calculation n bottom path l v flat e =
      let zero : n.length ≡ 0 = ground arith in
      let d : n.height - n.length ≡ n.height = omega arith in
      let at_height : IsValidCalculation Held n.bottom_calculation n.height = rw d at v.bottom in
      let below : IsValidCalculation Held (edge_calculation bottom path l) n.height =
        subst (λ b. IsValidCalculation Held b n.height) e at_height in
      record {
        valid = record { path = below.0; length = below.1; bottom = below.2 };
        height = refl;
        leaves = λ index hi. sym (
            node_leaf-bottom n index v flat hi
            ∙ (ap (λ b. calculation_leaf lf resolve b n.height index) e
                ∙ unfold calculation_leaf node_leaf in refl));
      }

  pub with_edge-SameLeaves_fact :
      (n : VirtualCalculationNode LF) (value : Hash) (fact : EdgeNodeFact)
      → IsValid Held n
      → is_virtual_edge n ≡ false
      → n.bottom_calculation ≡ constant_calculation value
      → get_or_fail (node_object c.biguint) st s value ≡ ok (edge fact)
      → SameLeaves n (with_fact n (edge fact))
  with_edge-SameLeaves_fact n value fact v flat e read =
      let zero : n.length ≡ 0 = ground arith in
      let d : n.height - n.length ≡ n.height = omega arith in
      let at_height : IsValidCalculation Held n.bottom_calculation n.height = rw d at v.bottom in
      let held : Held value n.height =
        subst (λ b. IsValidCalculation Held b n.height) e at_height in
      let fits = edge_fits value n.height fact held read in
      record {
        valid = record { path = fits.0; length = fits.1; bottom = fits.2 };
        height = refl;
        leaves = λ index hi. sym (
            node_leaf-bottom n index v flat hi
            ∙ (ap (λ b. calculation_leaf lf resolve b n.height index) e
                ∙ (unfold calculation_leaf node_leaf edge_leaf in
                    resolve_edge value n.height fact index held read hi)));
      }
