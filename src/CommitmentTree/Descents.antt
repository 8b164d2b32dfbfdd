-- ===== src/CommitmentTree/Descents.antt =====
-- crates/starknet-os/src/starkware_utils/commitment_tree/patricia_tree/patricia_guess_descents.rs:
-- the parts of an update at which all trees have a single child. Felts are numbers below the
-- prime; `word - (1 << n)` is taken only where the word is at least 2 ^ n, so that it does not wrap.
-- `get_descents` runs on fuel, for which the height is taken; a run out of fuel would be a panic.
pub mod Opening
pub mod Bounds
use snos.Base.{
  ℕ, zero, suc, ◌+◌, ◌-◌, ◌*◌, ◌/◌, ◌%◌, ◌^◌, Bool, true, false, ◌&&◌, ◌||◌, ◌==◌, ◌≡◌, ltb,
  if◌then◌else◌, Option, none, some, List, [], ◌∷◌, ◌↔◌, arith, ==_self,
}
use snos.Base.Outcome.{Outcome, ok, err, panicked, ◌>>=◌, index}
use snos.Base.HashMap
use snos.Base.HashMap.{HashMap, Eq, nat_eq}
use snos.CommitmentTree.UpdateTree.{UpdateTree, absent, present, tuple, leaf}

abbrev pub Preimage : Type 0
Preimage = HashMap ℕ (List ℕ)

-- length, path and hash of the bottom
pub record Triplet : Type 0 where
  pub length : ℕ
  pub word : ℕ
  pub node_hash : ℕ

abbrev pub empty_triplet : Triplet
empty_triplet = record { length = 0; word = 0; node_hash = 0 }

-- `MathError::Felt252ToU64Conversion` is the only error of its kind here.
pub data DescentError : Type 0 where
  preimage_not_found : ℕ → DescentError
  is_not_branch : DescentError
  tree_height_mismatch : DescentError
  math : ℕ → DescentError

abbrev pub no_edge : ℕ → Triplet
no_edge node_hash = record { length = 0; word = 0; node_hash = node_hash }

abbrev pub canonic_of : ℕ → Option (List ℕ) → Triplet
canonic_of node_hash (some (a ∷ b ∷ d ∷ [])) = record { length = a; word = b; node_hash = d }
canonic_of node_hash o = no_edge node_hash

unfoldable pub canonic : Preimage → ℕ → Triplet
canonic preimage node_hash = canonic_of node_hash (HashMap.get node_hash preimage)

abbrev pub pair_of : ℕ → Option (List ℕ) → Outcome DescentError (ℕ × ℕ)
pair_of node_hash none = err (preimage_not_found node_hash)
pair_of node_hash (some back) = do left ← index back 0; right ← index back 1; ok (left, right)

abbrev pub node_children : Preimage → ℕ → Outcome DescentError (ℕ × ℕ)
node_children preimage node_hash =
    let found = pair_of node_hash (HashMap.get node_hash preimage) in
    if node_hash == 0 then ok (0, 0) else found

abbrev pub edge_children : Triplet → Outcome DescentError (Triplet × Triplet)
edge_children node =
    let n = node.length - 1 in
    if ltb node.length (2 ^ 64)
    then (if node.word / 2 ^ n == 0
        then ok (record node { length = n }, empty_triplet)
        else ok (empty_triplet, record node { length = n; word = node.word - 2 ^ n }))
    else err (math node.length)

unfoldable pub get_children : Preimage → Triplet → Outcome DescentError (Triplet × Triplet)
get_children preimage node =
    if node.length == 0
    then (do
      both ← node_children preimage node.node_hash
      ok (canonic preimage both.0, canonic preimage both.1))
    else edge_children node

pub record PreimageNodeIterator : Type 0 where
  pub height : ℕ
  pub node : Triplet
  pub is_done : Bool

pub data PreimageNode : Type 0 where
  leaf_node : PreimageNode
  branch : Option PreimageNodeIterator → Option PreimageNodeIterator → PreimageNode

abbrev pub new_iterator : ℕ → Triplet → PreimageNodeIterator
new_iterator height node = record { height = height; node = node; is_done = false }

abbrev pub is_empty_triplet : Triplet → Bool
is_empty_triplet node = node.length == 0 && (node.word == 0 && node.node_hash == 0)

abbrev pub child : ℕ → Triplet → Option PreimageNodeIterator
child height node = if is_empty_triplet node then none else some (new_iterator height node)

-- `next`, whose iterator is dropped afterwards.
unfoldable pub next : Preimage → PreimageNodeIterator → Option (Outcome DescentError PreimageNode)
next preimage iter =
    if iter.is_done
    then none
    else if iter.height == 0
    then some (ok leaf_node)
    else some (do
      both ← get_children preimage iter.node
      ok (branch (child (iter.height - 1) both.0) (child (iter.height - 1) both.1)))

-- The three trees that are traversed together.
pub record Trees (LF : Type 0) : Type 0 where
  pub update_tree : UpdateTree LF
  pub previous_tree : Option PreimageNodeIterator
  pub new_tree : Option PreimageNodeIterator

abbrev pub IteratorPair : Type 0
IteratorPair = Option PreimageNodeIterator × Option PreimageNodeIterator

-- `iter.next().ok_or(TreeHeightMismatch)??`, and the match on what it gives.
abbrev pub branches : Option (Outcome DescentError PreimageNode) → Outcome DescentError IteratorPair
branches none = err tree_height_mismatch
branches (some (ok leaf_node)) = err is_not_branch
branches (some (ok (branch left right))) = ok (left, right)
branches (some (err e)) = err e
branches (some panicked) = panicked

abbrev pub open_iterator :
    Preimage → Option PreimageNodeIterator → Outcome DescentError IteratorPair
open_iterator preimage none = ok (none, none)
open_iterator preimage (some iter) = branches (next preimage iter)

abbrev pub is_none : Option PreimageNodeIterator → Bool
is_none none = true
is_none (some iter) = false

module _ {LF : Type 0} where
  abbrev pub open_update : UpdateTree LF → Outcome DescentError (UpdateTree LF × UpdateTree LF)
  open_update absent = err tree_height_mismatch
  open_update (present (leaf fact)) = err is_not_branch
  open_update (present (tuple left right)) = ok (left, right)

  -- The left and the right children of the three trees.
  unfoldable pub open_trees : Preimage → Trees LF → Outcome DescentError (Trees LF × Trees LF)
  open_trees preimage trees = open_update trees.update_tree >>= λ u.
      open_iterator preimage trees.previous_tree >>= λ p.
      open_iterator preimage trees.new_tree >>= λ n. ok (
        record { update_tree = u.0; previous_tree = p.0; new_tree = n.0 },
        record { update_tree = u.1; previous_tree = p.1; new_tree = n.1 },
      )

  abbrev pub is_absent : UpdateTree LF → Bool
  is_absent absent = true
  is_absent (present t) = false

  abbrev pub all_none : Trees LF → Bool
  all_none trees =
      is_absent trees.update_tree && (is_none trees.previous_tree && is_none trees.new_tree)

-- Where the loop stops: the height, the path, and the children there.
pub record Stop (LF : Type 0) : Type 0 where
  pub height : ℕ
  pub path : ℕ
  pub lefts : Trees LF
  pub rights : Trees LF

-- `DescentStart` and `DescentPath`
pub record DescentStart : Type 0 where
  pub height : ℕ
  pub path : ℕ

pub record DescentPath : Type 0 where
  pub length : ℕ
  pub path : ℕ

-- `DescentStart` is hashed and compared by its two fields.
abbrev pub start_beq : DescentStart → DescentStart → Bool
start_beq a b = (a.height == b.height) && (a.path == b.path)

pub start_beq_iff : (a b : DescentStart) → (start_beq a b ≡ true) ↔ (a ≡ b)
start_beq_iff a b = (
  λ e.
      let eh : a.height ≡ b.height = ground arith in
      let ep : a.path ≡ b.path = ground arith in cc (eh, ep),
  λ e. rw e (ground arith),
)

instance abbrev pub start_eq : Eq DescentStart
start_eq = record { beq = start_beq; beq_iff = start_beq_iff }

abbrev pub DescentMap : Type 0
DescentMap = HashMap DescentStart DescentPath

module _ {LF : Type 0} (preimage : Preimage) where
  abbrev pub stop : ℕ → ℕ → Trees LF × Trees LF → Stop LF
  stop height path both = record { height = height; path = path; lefts = both.0; rights = both.1 }

  -- The `loop`, which is not entered at height 0.
  unfoldable pub find_edge : ℕ → ℕ → Trees LF → Outcome DescentError (Stop LF)
  find_edge zero path trees = panicked
  find_edge (suc height) path trees = open_trees preimage trees >>= λ both.
      let go_right = find_edge height (path * 2 + 1) both.1 in
      let go_left = find_edge height (path * 2) both.0 in
      if all_none both.0
      then (if height == 0 then ok (stop height (path * 2 + 1) both) else go_right)
      else if all_none both.1
      then (if height == 0 then ok (stop height (path * 2) both) else go_left)
      else ok (stop (suc height) path both)

  -- The entry of the edge that was found, if it is longer than 1.
  abbrev pub edge_entry : ℕ → ℕ → Stop LF → DescentMap
  edge_entry orig_height orig_path s =
      let n = orig_height - s.height in
      if ltb 1 n
      then (
        record { height = orig_height; path = orig_path },
        record { length = n; path = s.path % 2 ^ n },
      )
        ∷ []
      else []

  unfoldable pub get_descents : ℕ → ℕ → ℕ → Trees LF → Outcome DescentError DescentMap
  get_descents zero height path trees =
      if is_absent trees.update_tree || height == 0 then ok [] else panicked
  get_descents (suc fuel) height path trees =
      let deeper = find_edge height path trees >>= λ s.
      let descent_map = edge_entry height path s in
      let next_height = s.height - 1 in
      let extended = get_descents fuel next_height (s.path * 2) s.lefts >>= λ in_left.
      get_descents fuel next_height (s.path * 2 + 1) s.rights >>= λ in_right.
      ok (HashMap.collect_into (HashMap.collect_into descent_map in_left) in_right) in
      if s.height == 0 then ok descent_map else extended in
      if is_absent trees.update_tree || height == 0 then ok [] else deeper

abbrev pub preimage_tree : ℕ → Triplet → PreimageNodeIterator
preimage_tree height node = new_iterator height node

module _ {LF : Type 0} (prime : ℕ) where
  unfoldable pub patricia_guess_descents :
      ℕ → UpdateTree LF → Preimage → (prev_root new_root : ℕ) → Outcome DescentError DescentMap
  patricia_guess_descents height node preimage prev_root new_root =
      let node_prev = preimage_tree height (canonic preimage (prev_root % prime)) in
      let node_new = preimage_tree height (canonic preimage (new_root % prime)) in
      get_descents preimage height height 0
        (record { update_tree = node; previous_tree = some node_prev; new_tree = some node_new })
