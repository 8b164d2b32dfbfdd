-- ===== src/CommitmentTree/Reading.antt =====
-- What the hashes of a store stand for: the specification that the trees of
-- crates/starknet-os/src/starkware_utils/commitment_tree are measured by.
use native.Mathlib.Nat.{
  div-eq_of_lt, mod-eq_of_lt, le-div_iff_mul-le, add-mul-div_right, add-mul-mod_self_right,
}
use snos.Base.{ℕ, suc, ◌+◌, ◌-◌, ◌*◌, ◌/◌, ◌%◌, ◌^◌, ◌≤◌, ◌<◌, ◌≡◌, arith, ◌==◌, ltb, if◌then◌else◌}
use snos.Base.Pow.{pow_pos, pow_split, div-lt_of_lt-mul}
use snos.Base.Outcome.{ok}
use snos.CommitmentTree.Bytes.{Hash, empty_hash, Crypto}
use snos.CommitmentTree.Storage.{Storage, get_or_fail}
use snos.CommitmentTree.Nodes.{BinaryNodeFact, EdgeNodeFact, binary, edge, node_object}

-- The leaf of a subtree of a height that is an edge of length n above a bottom: all leaves are
-- empty but those whose index begins with the path.
unfoldable pub edge_leaf : (ℕ → ℕ → Hash) → (path n height index : ℕ) → Hash
edge_leaf bottom path n height index =
    let width = 2 ^ (height - n) in
    if index / width == path then bottom (height - n) (index % width) else empty_hash

-- The leaves of two subtrees of a height, side by side.
abbrev pub halves : (ℕ → Hash) → (ℕ → Hash) → (height index : ℕ) → Hash
halves left right height index =
    if ltb index (2 ^ height) then left index else right (index - 2 ^ height)

-- A reading of a store: which hashes are roots of subtrees of which height, and the hash of the
-- leaf of such a subtree under an index. It takes the facts in the store for what they say.
pub record Reading {S : Type 0} (c : Crypto) (st : Storage S) (s : S) : Type 1 where
  pub Held : Hash → ℕ → Type 0
  pub resolve : Hash → ℕ → ℕ → Hash
  pub held_empty : (height : ℕ) → Held empty_hash height
  pub resolve_empty : (height index : ℕ) → resolve empty_hash height index ≡ empty_hash
  pub edge_fits :
      (h : Hash) (height : ℕ) (fact : EdgeNodeFact)
      → Held h height
      → get_or_fail (node_object c.biguint) st s h ≡ ok (edge fact)
      → (fact.edge_path < 2 ^ fact.edge_length)
        × (fact.edge_length ≤ height)
        × Held fact.bottom_node (height - fact.edge_length)
  -- A leaf is held under its own hash, and the halves of a binary node are its children's.
  pub resolve_leaf : (h : Hash) → resolve h 0 0 ≡ h
  pub binary_fits :
      (h : Hash) (height : ℕ) (fact : BinaryNodeFact)
      → Held h (suc height)
      → get_or_fail (node_object c.biguint) st s h ≡ ok (binary fact)
      → Held fact.left_node height × Held fact.right_node height
  pub resolve_binary :
      (h : Hash) (height : ℕ) (fact : BinaryNodeFact) (index : ℕ)
      → Held h (suc height)
      → get_or_fail (node_object c.biguint) st s h ≡ ok (binary fact)
      → index < 2 ^ suc height
      → resolve h (suc height) index
        ≡ halves (resolve fact.left_node height) (resolve fact.right_node height) height index
  pub resolve_edge :
      (h : Hash) (height : ℕ) (fact : EdgeNodeFact) (index : ℕ)
      → Held h height
      → get_or_fail (node_object c.biguint) st s h ≡ ok (edge fact)
      → index < 2 ^ height
      → resolve h height index
        ≡ edge_leaf (resolve fact.bottom_node) fact.edge_path fact.edge_length height index

-- An edge of length 0 is its bottom.
pub edge_leaf-zero :
    (bottom : ℕ → ℕ → Hash) (height index : ℕ)
    → index < 2 ^ height
    → edge_leaf bottom 0 0 height index ≡ bottom height index
unfolding edge_leaf
edge_leaf-zero bottom height index h =
    let e : height - 0 ≡ height = omega arith in rw (e, div-eq_of_lt h, mod-eq_of_lt h)

pub edge_leaf-empty :
    (bottom : ℕ → ℕ → Hash) (path n height index : ℕ)
    → ((k j : ℕ) → bottom k j ≡ empty_hash)
    → edge_leaf bottom path n height index ≡ empty_hash
unfolding edge_leaf
edge_leaf-empty bottom path n height index h =
    ground (arith, h (height - n) (index % 2 ^ (height - n)))

-- Below an edge that turns left first, the right half is empty and the left half is that of the
-- edge without its first turn.
pub edge_leaf-left :
    (bottom : ℕ → ℕ → Hash) (path n height index : ℕ)
    → path < 2 ^ n
    → n ≤ height
    → index < 2 ^ suc height
    → edge_leaf bottom path (n + 1) (height + 1) index
      ≡ (if ltb index (2 ^ height) then edge_leaf bottom path n height index else empty_hash)
unfolding edge_leaf
edge_leaf-left bottom path n height index hp hn hi =
    let w : height + 1 - (n + 1) ≡ height - n = omega arith in
    let width = 2 ^ (height - n) in
    let pos : 0 < width = pow_pos (height - n) in
    let far : 2 ^ height ≤ index → 2 ^ n ≤ index / width =
      λ ge. (le-div_iff_mul-le pos).1 (omega (arith, pow_split height n hn)) in
    rw w (ground (arith, far))

-- Below an edge that turns right first, the left half is empty.
pub edge_leaf-right :
    (bottom : ℕ → ℕ → Hash) (path n height index : ℕ)
    → path < 2 ^ n
    → n ≤ height
    → index < 2 ^ suc height
    → edge_leaf bottom (path + 2 ^ n) (n + 1) (height + 1) index ≡ (
        if ltb index (2 ^ height)
        then empty_hash
        else edge_leaf bottom path n height (index - 2 ^ height))
unfolding edge_leaf
edge_leaf-right bottom path n height index hp hn hi =
    let w : height + 1 - (n + 1) ≡ height - n = omega arith in
    let width = 2 ^ (height - n) in
    let pos : 0 < width = pow_pos (height - n) in
    let split : 2 ^ height ≡ 2 ^ n * width = pow_split height n hn in
    let near : index < 2 ^ height → index / width < 2 ^ n =
      λ lt. div-lt_of_lt-mul index (2 ^ n) width pos (omega (arith, split)) in
    let shift : 2 ^ height ≤ index → index - 2 ^ height + 2 ^ n * width ≡ index =
      λ ge. omega (arith, split) in
    let quotient : 2 ^ height ≤ index → index / width ≡ (index - 2 ^ height) / width + 2 ^ n =
      λ ge. rw (shift ge) at (add-mul-div_right (index - 2 ^ height) (2 ^ n) pos) in
    let remainder : 2 ^ height ≤ index → index % width ≡ (index - 2 ^ height) % width =
      λ ge. rw (shift ge) at (add-mul-mod_self_right (index - 2 ^ height) (2 ^ n) width) in
    rw w (ground (arith, near, quotient, remainder))
