-- ===== src/Skeleton/Node.antt =====
-- graphics/src/SkeletonNode.cc: the nodes of a skeleton in a store. A pointer is a number, a null
-- pointer is `none`, and a use of a null or dangling pointer makes the operation `none`.
use ign_common.Common.{
  ℕ, zero, suc, Bool, true, false, Option, none, some, List, [], ◌∷◌, ◌++◌, ltb, ◌==◌,
  if◌then◌else◌, length, get_elem?,
}
use mathlib.Core.Bool.{not}
use mathlib.Core.List.{reverse}
use mathlib.Core.Option
use ign_common.Common.Text.{Bytes, eqb}

-- What the skeletons use of Matrix4d, double and NodeTransform.
pub record Space : Type 1 where
  pub Matrix : Type 0
  pub Scalar : Type 0
  pub RawTransform : Type 0
  pub null : Matrix
  pub identity : Matrix
  pub mul : Matrix → Matrix → Matrix
  pub inverse : Matrix → Matrix
  pub is_equal : Matrix → Matrix → Bool
  -- The matrix with its translation multiplied.
  pub scaled : Scalar → Matrix → Matrix

pub data NodeType : Type 0 where
  node joint : NodeType

-- A loop over addresses.
unfoldable pub each : {S : Type 0} → (ℕ → S → Option S) → List ℕ → S → Option S
each body [] s = some s
each body (p ∷ ps) s = elim (body p s) [ none ↦ none | some s' ↦ each body ps s' ]

-- The loop from the last child to the first, each pushed in front.
unfoldable pub push_loop : List ℕ → List ℕ → List ℕ
push_loop [] to_visit = to_visit
push_loop (c ∷ cs) to_visit = push_loop cs (c ∷ to_visit)

unfoldable pub push_children : List ℕ → List ℕ → List ℕ
unfolding push_loop
push_children children to_visit = push_loop (reverse children) to_visit

module _ (sp : Space) where
  open sp use {Matrix, RawTransform, null, mul, inverse, is_equal}

  -- The type and the handle are `none` until they are set: the constructors leave them as they are.
  pub record SkeletonNode : Type 0 where
    pub name : Bytes
    pub id : Bytes
    pub type : Option NodeType
    pub transform : Matrix
    pub initial_transform : Matrix
    pub model_transform : Matrix
    pub inv_bind_transform : Matrix
    pub parent : Option ℕ
    pub children : List ℕ
    pub handle : Option ℕ
    pub raw_transforms : List RawTransform

  -- The nodes by their addresses, and the next address that is free.
  pub record Store : Type 0 where
    pub cell : ℕ → Option SkeletonNode
    pub fresh : ℕ

  abbrev pub update : (ℕ → Option SkeletonNode) → ℕ → Option SkeletonNode → ℕ → Option SkeletonNode
  update c p n q = if q == p then n else c q

  abbrev pub write : ℕ → SkeletonNode → Store → Store
  write p n h = record h { cell = update h.cell p (some n) }

  -- A change of the node at an address; `none` when there is no node.
  unfoldable pub modify : (SkeletonNode → SkeletonNode) → ℕ → Store → Option Store
  modify f p h = elim (h.cell p) [ none ↦ none | some n ↦ some (write p (f n) h) ]

  abbrev pub children_of : Store → ℕ → Option (List ℕ)
  children_of h p = Option.map (λ n. n.children) (h.cell p)

  abbrev pub blank : Option ℕ → SkeletonNode
  blank parent = record {
    name = [];
    id = [];
    type = none;
    transform = null;
    initial_transform = null;
    model_transform = null;
    inv_bind_transform = null;
    parent = parent;
    children = [];
    handle = none;
    raw_transforms = [];
  }

  -- AddChild: the child's own parent is not set.
  pub add_child : ℕ → ℕ → Store → Option Store
  unfolding modify
  add_child p child h = modify (λ n. record n { children = n.children ++ child ∷ [] }) p h

  -- A new node, which is a child of its parent when that is not null.
  pub new_node : SkeletonNode → Store → Option (ℕ × Store)
  unfolding add_child
  new_node n h =
      let p = h.fresh in
      let h' : Store = record { cell = update h.cell p (some n); fresh = suc p } in
      elim n.parent [
        | none ↦ some (p, h')
        | some q ↦ Option.map (λ h''. (p, h'')) (add_child q p h')
      ]

  -- The two constructors.
  pub new_plain : Option ℕ → Store → Option (ℕ × Store)
  unfolding new_node
  new_plain parent h = new_node (blank parent) h

  pub new_named : Option ℕ → Bytes → Bytes → NodeType → Store → Option (ℕ × Store)
  unfolding new_node
  new_named parent name id type h =
      new_node (record (blank parent) { name = name; id = id; type = some type }) h

  -- The destructor frees the node, and not its children.
  pub destroy : ℕ → Store → Option Store
  destroy p h = elim (h.cell p) [
    | none ↦ none
    | some n ↦ some record h { cell = update h.cell p none }
  ]

  pub set_name : Bytes → ℕ → Store → Option Store
  unfolding modify
  set_name name p h = modify (λ n. record n { name = name }) p h

  pub set_id : Bytes → ℕ → Store → Option Store
  unfolding modify
  set_id id p h = modify (λ n. record n { id = id }) p h

  pub set_type : NodeType → ℕ → Store → Option Store
  unfolding modify
  set_type type p h = modify (λ n. record n { type = some type }) p h

  pub set_parent : Option ℕ → ℕ → Store → Option Store
  unfolding modify
  set_parent parent p h = modify (λ n. record n { parent = parent }) p h

  unfoldable pub set_handle : ℕ → ℕ → Store → Option Store
  unfolding modify
  set_handle handle p h = modify (λ n. record n { handle = some handle }) p h

  pub set_inverse_bind_transform : Matrix → ℕ → Store → Option Store
  unfolding modify
  set_inverse_bind_transform m p h = modify (λ n. record n { inv_bind_transform = m }) p h

  pub add_raw_transform : RawTransform → ℕ → Store → Option Store
  unfolding modify
  add_raw_transform t p h =
      modify (λ n. record n { raw_transforms = n.raw_transforms ++ t ∷ [] }) p h

  -- A joint; `none` when the type was never set.
  unfoldable pub is_joint : SkeletonNode → Option Bool
  is_joint n = elim n.type [ none ↦ none | some node ↦ some false | some joint ↦ some true ]

  pub is_root_node : SkeletonNode → Bool
  is_root_node n = elim n.parent [ none ↦ true | some q ↦ false ]

  pub has_inv_bind_transform : SkeletonNode → Bool
  has_inv_bind_transform n = not (is_equal n.inv_bind_transform null)

  pub child_count : SkeletonNode → ℕ
  child_count n = length n.children

  -- Child: null when the index is out of range.
  pub child : SkeletonNode → ℕ → Option ℕ
  child n index = if ltb index (length n.children) then get_elem? n.children index else none

  -- RawTransform: undefined when the index is out of range.
  pub raw_transform : SkeletonNode → ℕ → Option RawTransform
  raw_transform n i = get_elem? n.raw_transforms i

  -- The first child whose node passes a test, or null; a dangling child is undefined.
  find_child : (SkeletonNode → Bool) → Store → List ℕ → Option (Option ℕ)
  find_child p h [] = some none
  find_child p h (c ∷ cs) =
      let rest = find_child p h cs in
      elim (h.cell c) [ none ↦ none | some n ↦ if p n then some (some c) else rest ]

  pub child_by_name : Bytes → SkeletonNode → Store → Option (Option ℕ)
  unfolding find_child
  child_by_name name n h = find_child (λ c. eqb c.name name) h n.children

  pub child_by_id : Bytes → SkeletonNode → Store → Option (Option ℕ)
  unfolding find_child
  child_by_id id n h = find_child (λ c. eqb c.id id) h n.children

  -- The walk that UpdateChildrenTransforms and Skeleton::BuildNodeMap make: the front of the list is
  -- taken, its children are pushed, and the body is run on it; `none` also when the fuel runs out.
  unfoldable pub walk : {S : Type 0} → (S → Store) → (ℕ → S → Option S) → ℕ → List ℕ → S → Option S
  walk store body zero to_visit s = none
  walk store body (suc fuel) [] s = some s
  walk store body (suc fuel) (p ∷ to_visit) s = elim (children_of (store s) p) [
    | none ↦ none
    | some cs ↦ elim (body p s) [
      | none ↦ none
      | some s' ↦ walk store body fuel (push_children cs to_visit) s'
    ]
  ]

  -- The model transform of a parent, which must be there.
  abbrev pub model_above : Option ℕ → Store → Option Matrix
  model_above none h = none
  model_above (some q) h = Option.map (λ m. m.model_transform) (h.cell q)

  -- One round of UpdateChildrenTransforms.
  unfoldable pub update_transform : ℕ → Store → Option Store
  update_transform p h = elim (h.cell p) [
    | none ↦ none
    | some n ↦ elim (model_above n.parent h) [
      | none ↦ none
      | some m ↦ some (write p (record n { model_transform = mul m n.transform }) h)
    ]
  ]

  unfoldable pub update_children_transforms : ℕ → ℕ → Store → Option Store
  unfolding walk update_transform
  update_children_transforms fuel p h = elim (h.cell p) [
    | none ↦ none
    | some n ↦ walk (λ h. h) update_transform fuel n.children h
  ]

  -- The part of SetTransform and SetModelTransform that updates the children.
  abbrev propagate : ℕ → Bool → ℕ → Store → Option Store
  propagate fuel update_children p h =
      if update_children then update_children_transforms fuel p h else some h

  -- The model transform of the parent, when there is one.
  abbrev pub parent_model : SkeletonNode → Store → Option (Option Matrix)
  parent_model n h = elim n.parent [
    | none ↦ some none
    | some q ↦ elim (h.cell q) [ none ↦ none | some m ↦ some (some m.model_transform) ]
  ]

  abbrev pub model_under : Option Matrix → Matrix → Matrix
  model_under none t = t
  model_under (some m) t = mul m t

  abbrev pub transform_under : Option Matrix → Matrix → Matrix
  transform_under none t = t
  transform_under (some m) t = mul (inverse m) t

  unfoldable pub set_transform : ℕ → Matrix → Bool → ℕ → Store → Option Store
  unfolding update_children_transforms
  set_transform fuel trans update_children p h = elim (h.cell p) [
    | none ↦ none
    | some n ↦ elim (parent_model n h) [
      | none ↦ none
      | some above ↦
          propagate fuel update_children p
            (write p (record n { transform = trans; model_transform = model_under above trans }) h)
    ]
  ]

  pub set_model_transform : ℕ → Matrix → Bool → ℕ → Store → Option Store
  unfolding update_children_transforms
  set_model_transform fuel trans update_children p h = elim (h.cell p) [
    | none ↦ none
    | some n ↦ elim (parent_model n h) [
      | none ↦ none
      | some above ↦ propagate fuel update_children p (
          write p (record n { model_transform = trans; transform = transform_under above trans }) h)
    ]
  ]

  pub set_initial_transform : ℕ → Matrix → ℕ → Store → Option Store
  unfolding modify set_transform
  set_initial_transform fuel trans p h =
      elim (modify (λ n. record n { initial_transform = trans }) p h) [
        | none ↦ none
        | some h' ↦ set_transform fuel trans true p h'
      ]

  -- Reset, with a bound on the depth of the tree besides that on its size.
  pub reset : ℕ → ℕ → Bool → ℕ → Store → Option Store
  unfolding set_transform
  reset zero fuel reset_children p h = none
  reset (suc depth) fuel reset_children p h = elim (h.cell p) [
    | none ↦ none
    | some n ↦ elim (set_transform fuel n.initial_transform true p h) [
      | none ↦ none
      | some h' ↦
          let below = each (reset depth fuel true) n.children h' in
          if reset_children then below else some h'
    ]
  ]
