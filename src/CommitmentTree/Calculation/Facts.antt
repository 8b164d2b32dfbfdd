-- ===== src/CommitmentTree/Calculation/Facts.antt =====
-- The facts that a calculation collects, for
-- crates/starknet-os/src/starkware_utils/commitment_tree/calculation.rs and
-- patricia_tree/virtual_calculation_node.rs.
use mathlib.Core.Path.{subst}
use snos.Base.{◌≡◌, refl, some, Bool-cases, inl, inr, sym, ap, ◌∙◌}
use snos.Base.HashMap
use snos.Base.HashMap.{HashMap}
use snos.CommitmentTree.Bytes.{Hash, Crypto, bytes_eq, bytes_eq_self, bytes_Eq, bytes_eq→eq}
use snos.CommitmentTree.Nodes.{PatriciaNodeFact, binary, edge, new_edge_unchecked, hash_node}
use snos.CommitmentTree.Context.{LeafFact}
use snos.CommitmentTree.Calculation.{
  HashCalculation, binary_calculation, edge_calculation, leaf_fact_calculation,
  constant_calculation, NodeFactDict, calculate_edge, full_calculate,
}

module _ {LF : Type 0} (c : Crypto) (lf : LeafFact LF) where
  -- The hash of the subtree that a calculation describes.
  unfoldable pub hash_of : HashCalculation LF → Hash
  hash_of (constant_calculation value) = value
  hash_of (leaf_fact_calculation fact) = lf.hash fact
  hash_of (edge_calculation bottom path n) =
      hash_node c
        (edge (record { bottom_node = hash_of bottom; edge_path = path; edge_length = n }))
  hash_of (binary_calculation left right) =
      hash_node c (binary (record { left_node = hash_of left; right_node = hash_of right }))

  -- Every fact is under its own hash.
  pub record IsKeyed (nodes : NodeFactDict LF) : Type 0 where
    pub inner :
        (h : Hash) (fact : PatriciaNodeFact)
        → HashMap.get h nodes.inner_nodes ≡ some fact
        → h ≡ hash_node c fact
    pub leaf : (h : Hash) (fact : LF) → HashMap.get h nodes.leaves ≡ some fact → h ≡ lf.hash fact

  -- An entry under its own hash keeps a map keyed.
  insert-keyed :
      {A : Type 0} (hash : A → Hash) (a : A) (map : HashMap Hash A)
      → ((h : Hash) (b : A) → HashMap.get h map ≡ some b → h ≡ hash b)
      → (h : Hash) (b : A) → HashMap.get h (HashMap.insert (hash a) a map) ≡ some b
      → h ≡ hash b
  insert-keyed hash a map keyed h b e =
      let law = HashMap.get-insert (hash a) h a map in
      elim (Bool-cases (bytes_eq (hash a) h)) [
        | inl s ↦
            let found : some a ≡ some b = rw s at (sym law ∙ e) in
            let same : a ≡ b = cc found in sym (bytes_eq→eq (hash a) h s) ∙ ap hash same
        | inr s ↦ let found : HashMap.get h map ≡ some b = rw s at (sym law ∙ e) in keyed h b found
      ]

  -- An entry is there, whatever it is.
  abbrev Present : {A : Type 0} → Hash → HashMap Hash A → Type 0
  Present {A} h map = (a : A) × (HashMap.get h map ≡ some a)

  -- Every node of a calculation, constants aside, has an entry under its hash.
  abbrev pub Collected : NodeFactDict LF → HashCalculation LF → Type 0
  Collected nodes (constant_calculation value) = Unit
  Collected nodes (leaf_fact_calculation fact) = Present (lf.hash fact) nodes.leaves
  Collected nodes (edge_calculation bottom path n) =
      Present (hash_of (edge_calculation bottom path n)) nodes.inner_nodes × Collected nodes bottom
  Collected nodes (binary_calculation left right) =
      Present (hash_of (binary_calculation left right)) nodes.inner_nodes
      × Collected nodes left
      × Collected nodes right

  -- No entry is lost.
  pub record Extends (nodes nodes' : NodeFactDict LF) : Type 0 where
    pub inner : (h : Hash) → Present h nodes.inner_nodes → Present h nodes'.inner_nodes
    pub leaf : (h : Hash) → Present h nodes.leaves → Present h nodes'.leaves

  Extends-trans :
      (nodes nodes' nodes'' : NodeFactDict LF)
      → Extends nodes nodes'
      → Extends nodes' nodes''
      → Extends nodes nodes''
  Extends-trans nodes nodes' nodes'' e f = record {
    inner = λ h p. f.inner h (e.inner h p);
    leaf = λ h p. f.leaf h (e.leaf h p);
  }

  Collected-Extends :
      (nodes nodes' : NodeFactDict LF) (b : HashCalculation LF)
      → Extends nodes nodes'
      → Collected nodes b
      → Collected nodes' b
  Collected-Extends nodes nodes' (constant_calculation value) e v = tt
  Collected-Extends nodes nodes' (leaf_fact_calculation fact) e v = e.leaf (lf.hash fact) v
  Collected-Extends nodes nodes' (edge_calculation bottom path n) e v =
      (e.inner _ v.0, Collected-Extends nodes nodes' bottom e v.1)
  Collected-Extends nodes nodes' (binary_calculation left right) e v = (
    e.inner _ v.0,
    Collected-Extends nodes nodes' left e v.1,
    Collected-Extends nodes nodes' right e v.2,
  )

  Present-insert_self :
      {A : Type 0} (h : Hash) (a : A) (map : HashMap Hash A) → Present h (HashMap.insert h a map)
  Present-insert_self h a map =
      let law = HashMap.get-insert h h a map in (a, law ∙ rw (bytes_eq_self h) refl)

  Present-insert :
      {A : Type 0} (k : Hash) (a : A) (map : HashMap Hash A) (h : Hash)
      → Present h map
      → Present h (HashMap.insert k a map)
  Present-insert k a map h (b, e) =
      let law = HashMap.get-insert k h a map in
      elim (Bool-cases (bytes_eq k h)) [ inl s ↦ (a, law ∙ rw s refl) | inr s ↦ (b, law ∙ rw s e) ]

  -- A node's own fact is added to the facts of the nodes below it.
  inner-Extends :
      (nodes : NodeFactDict LF) (h : Hash) (fact : PatriciaNodeFact)
      → Extends nodes (record nodes { inner_nodes = HashMap.insert h fact nodes.inner_nodes })
  inner-Extends nodes h fact = record {
    inner = Present-insert h fact nodes.inner_nodes;
    leaf = λ k p. p;
  }

  -- What a full calculation makes of the facts that were collected before.
  abbrev pub IsCalculated : HashCalculation LF → NodeFactDict LF → Hash × NodeFactDict LF → Type 0
  IsCalculated b nodes (h, nodes') =
      (h ≡ hash_of b) × IsKeyed nodes' × Extends nodes nodes' × Collected nodes' b

  -- A full calculation gives the hash of its subtree, whatever facts were collected before, and
  -- keeps every collected fact under its own hash. No entry is lost, and every inner node and every
  -- leaf of the calculation has an entry under its hash.
  pub full_calculate-IsKeyed :
      (b : HashCalculation LF) (nodes : NodeFactDict LF)
      → IsKeyed nodes
      → IsCalculated b nodes (full_calculate c lf b nodes)
  unfolding full_calculate calculate_edge new_edge_unchecked hash_of
  full_calculate-IsKeyed (constant_calculation value) nodes k =
      (refl, k, record { inner = λ h p. p; leaf = λ h p. p }, tt)
  full_calculate-IsKeyed (leaf_fact_calculation fact) nodes k = (
    refl,
    record { inner = k.inner; leaf = insert-keyed lf.hash fact nodes.leaves k.leaf },
    record { inner = λ h p. p; leaf = Present-insert (lf.hash fact) fact nodes.leaves },
    Present-insert_self (lf.hash fact) fact nodes.leaves,
  )
  full_calculate-IsKeyed (edge_calculation bottom path n) nodes k =
      let (e, kb, xb, cb) = full_calculate-IsKeyed bottom nodes k in
      let nodes1 = (full_calculate c lf bottom nodes).1 in
      let fact = edge (record {
        bottom_node = (full_calculate c lf bottom nodes).0;
        edge_path = path;
        edge_length = n;
      }) in
      let own = Present-insert_self (hash_node c fact) fact nodes1.inner_nodes in
      let more = inner-Extends nodes1 (hash_node c fact) fact in
      (
        rw e refl,
        record { inner = insert-keyed (hash_node c) _ _ kb.inner; leaf = kb.leaf },
        Extends-trans nodes nodes1 _ xb more,
        (
          subst
              (λ h.
                Present
                  (hash_node c
                    (edge (record { bottom_node = h; edge_path = path; edge_length = n })))
                  (HashMap.insert (hash_node c fact) fact nodes1.inner_nodes))
              e own,
          Collected-Extends nodes1 _ bottom more cb,
        ),
      )
  full_calculate-IsKeyed (binary_calculation left right) nodes k =
      let (el, kl, xl, cl) = full_calculate-IsKeyed left nodes k in
      let nodes1 = (full_calculate c lf left nodes).1 in
      let (er, kr, xr, cr) = full_calculate-IsKeyed right nodes1 kl in
      let nodes2 = (full_calculate c lf right nodes1).1 in
      let fact = binary (record {
        left_node = (full_calculate c lf left nodes).0;
        right_node = (full_calculate c lf right nodes1).0;
      }) in
      let own = Present-insert_self (hash_node c fact) fact nodes2.inner_nodes in
      let more = inner-Extends nodes2 (hash_node c fact) fact in
      (
        rw (el, er) refl,
        record { inner = insert-keyed (hash_node c) _ _ kr.inner; leaf = kr.leaf },
        Extends-trans nodes nodes1 _ xl (Extends-trans nodes1 nodes2 _ xr more),
        (
          subst
              (λ h.
                Present (hash_node c (binary (record { left_node = h.0; right_node = h.1 })))
                  (HashMap.insert (hash_node c fact) fact nodes2.inner_nodes))
              (pair el er) own,
          Collected-Extends nodes2 _ left more (Collected-Extends nodes1 nodes2 left xr cl),
          Collected-Extends nodes2 _ right more cr,
        ),
      )
    where
      pair : {a a' b b' : Hash} → a ≡ a' → b ≡ b' → ◌≡◌ {A = Hash × Hash} (a, b) (a', b')
      pair e f = rw (e, f) refl
