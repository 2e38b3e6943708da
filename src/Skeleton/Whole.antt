-- ===== src/Skeleton/Whole.antt =====
-- graphics/src/Skeleton.cc: a skeleton with its root, its nodes by their handles, its weights and its
-- animations. As with the nodes, `none` is a use of a null or dangling pointer.
use ign_common.Common.{
  ℕ, ◌+◌, Bool, false, Option, none, some, List, [], ◌∷◌, ◌++◌, map, ltb, if◌then◌else◌, length,
  get_elem?, set, replicate,
}
use mathlib.Core.Option
use ign_common.Common.OrdMap.{OrdMap, find, insert}
use ign_common.Common.Text.{Bytes, eqb}
use ign_common.Skeleton.Node.{
  Space, SkeletonNode, Store, walk, each, set_handle, is_joint, set_transform,
  update_children_transforms,
}

-- std::map from texts, as a list whose first entry for a key counts.
abbrev pub Texts : Type 0 → Type 0
Texts V = List (Bytes × V)

unfoldable pub look : {V : Type 0} → Bytes → Texts V → Option V
look k [] = none
look k ((j, v) ∷ m) = if eqb j k then some v else look k m

module _ (sp : Space) where
  -- The variables of BuildNodeMap: the nodes that it writes, the next handle, and the map.
  pub record Build : Type 0 where
    pub store : Store sp
    pub handle : ℕ
    pub nodes : OrdMap ℕ

  -- One round of BuildNodeMap, behind the visit.
  unfoldable pub register : ℕ → Build → Option Build
  register p b = elim (set_handle sp b.handle p b.store) [
    | none ↦ none
    | some h ↦ some (record { store = h; handle = b.handle + 1; nodes = insert b.handle p b.nodes })
  ]

  unfoldable pub visit_all : ℕ → Option ℕ → Build → Option Build
  unfolding register
  visit_all fuel none b = none
  visit_all fuel (some root) b = walk sp (λ b. b.store) register fuel (root ∷ []) b

module _ (sp : Space) (Animation : Type 0) where
  open sp use {Matrix, Scalar, identity, scaled}

  pub record Skeleton : Type 0 where
    pub root : Option ℕ
    pub nodes : OrdMap ℕ
    pub bind_shape_transform : Matrix
    pub raw_node_weights : List (List (Bytes × Scalar))
    pub anims : List Animation
    pub map_anim_skin : List (Texts Bytes)
    pub align_translate : List (Texts Matrix)
    pub align_rotate : List (Texts Matrix)

  abbrev pub new_skeleton : Skeleton
  new_skeleton = record {
    root = none;
    nodes = [];
    bind_shape_transform = identity;
    raw_node_weights = [];
    anims = [];
    map_anim_skin = [];
    align_translate = [];
    align_rotate = [];
  }

  unfoldable pub build_node_map : ℕ → Skeleton → Store sp → Option (Skeleton × Store sp)
  unfolding visit_all
  build_node_map fuel sk h =
      Option.map (λ b. (record sk { nodes = b.nodes }, b.store))
        (visit_all sp fuel sk.root (record { store = h; handle = 0; nodes = sk.nodes }))

  -- RootNode(node), and the constructor from a root.
  pub set_root_node : ℕ → Option ℕ → Skeleton → Store sp → Option (Skeleton × Store sp)
  unfolding build_node_map
  set_root_node fuel node sk h = build_node_map fuel (record sk { root = node }) h

  pub new_rooted : ℕ → Option ℕ → Store sp → Option (Skeleton × Store sp)
  unfolding build_node_map
  new_rooted fuel root h = build_node_map fuel (record new_skeleton { root = root }) h

  -- The first node of the map, in the order of the handles, that passes a test, or null.
  find_node : (SkeletonNode sp → Bool) → OrdMap ℕ → Store sp → Option (Option ℕ)
  find_node test [] h = some none
  find_node test ((k, p) ∷ m) h =
      let rest = find_node test m h in
      elim (h.cell p) [ none ↦ none | some n ↦ if test n then some (some p) else rest ]

  pub node_by_name : Bytes → Skeleton → Store sp → Option (Option ℕ)
  unfolding find_node
  node_by_name name sk h = find_node (λ n. eqb n.name name) sk.nodes h

  pub node_by_id : Bytes → Skeleton → Store sp → Option (Option ℕ)
  unfolding find_node
  node_by_id id sk h = find_node (λ n. eqb n.id id) sk.nodes h

  pub node_by_handle : ℕ → Skeleton → Option ℕ
  node_by_handle handle sk = find handle sk.nodes

  pub node_count : Skeleton → ℕ
  node_count sk = length sk.nodes

  count_joints : OrdMap ℕ → Store sp → ℕ → Option ℕ
  count_joints [] h c = some c
  count_joints ((k, p) ∷ m) h c = elim (h.cell p) [
    | none ↦ none
    | some n ↦ elim (is_joint sp n) [
      | none ↦ none
      | some j ↦ count_joints m h (if j then c + 1 else c)
    ]
  ]

  pub joint_count : Skeleton → Store sp → Option ℕ
  unfolding count_joints
  joint_count sk h = count_joints sk.nodes h 0

  -- One round of Scale.
  scale_node : Scalar → ℕ → Store sp → Option (Store sp)
  scale_node s p h = elim (h.cell p) [
    | none ↦ none
    | some n ↦ set_transform sp 0 (scaled s n.transform) false p h
  ]

  pub scale :
      (Scalar → Animation → Animation)
      → ℕ
      → Scalar
      → Skeleton
      → Store sp
      → Option (Skeleton × Store sp)
  unfolding scale_node
  scale scale_animation fuel s sk h = elim (each (scale_node s) (map (λ e. e.1) sk.nodes) h) [
    | none ↦ none
    | some h' ↦ elim sk.root [
      | none ↦ none
      | some r ↦
          Option.map (λ h''. (record sk { anims = map (scale_animation s) sk.anims }, h''))
            (update_children_transforms sp fuel r h')
    ]
  ]

  pub set_bind_shape_transform : Matrix → Skeleton → Skeleton
  set_bind_shape_transform m sk = record sk { bind_shape_transform = m }

  pub set_num_vert_attached : ℕ → Skeleton → Skeleton
  set_num_vert_attached vertices sk = record sk { raw_node_weights = replicate vertices [] }

  pub add_vert_node_weight : ℕ → Bytes → Scalar → Skeleton → Skeleton
  add_vert_node_weight vertex node weight sk = elim (get_elem? sk.raw_node_weights vertex) [
    | none ↦ sk
    | some ws ↦ record sk {
      raw_node_weights = set sk.raw_node_weights vertex (ws ++ (node, weight) ∷ []);
    }
  ]

  pub vert_node_weight_count : ℕ → Skeleton → ℕ
  vert_node_weight_count vertex sk = elim (get_elem? sk.raw_node_weights vertex) [
    | none ↦ 0
    | some ws ↦ length ws
  ]

  -- The default pair is given for an index that is out of range.
  pub vert_node_weight : Bytes × Scalar → ℕ → ℕ → Skeleton → Bytes × Scalar
  vert_node_weight other v i sk = elim (get_elem? sk.raw_node_weights v) [
    | none ↦ other
    | some ws ↦ elim (get_elem? ws i) [ none ↦ other | some w ↦ w ]
  ]

  pub animation_count : Skeleton → ℕ
  animation_count sk = length sk.anims

  -- Null when the index is out of range.
  pub animation : ℕ → Skeleton → Option Animation
  animation i sk = if ltb i (length sk.anims) then get_elem? sk.anims i else none

  pub add_animation : Animation → Skeleton → Skeleton
  add_animation a sk = record sk {
    map_anim_skin = sk.map_anim_skin ++ [] ∷ [];
    align_translate = sk.align_translate ++ [] ∷ [];
    align_rotate = sk.align_rotate ++ [] ∷ [];
    anims = sk.anims ++ a ∷ [];
  }

  -- The value of a name in the map of an animation, or a default; `none` for an animation that is not
  -- there.
  look_at : {V : Type 0} → V → ℕ → Bytes → List (Texts V) → Option V
  look_at other index name maps = elim (get_elem? maps index) [
    | none ↦ none
    | some m ↦ elim (look name m) [ none ↦ some other | some v ↦ some v ]
  ]

  pub node_name_anim_to_skin : ℕ → Bytes → Skeleton → Option Bytes
  unfolding look_at
  node_name_anim_to_skin index name sk = look_at name index name sk.map_anim_skin

  pub align_translation : ℕ → Bytes → Skeleton → Option Matrix
  unfolding look_at
  align_translation index name sk = look_at identity index name sk.align_translate

  pub align_rotation : ℕ → Bytes → Skeleton → Option Matrix
  unfolding look_at
  align_rotation index name sk = look_at identity index name sk.align_rotate
