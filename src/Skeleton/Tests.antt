-- ===== src/Skeleton/Tests.antt =====
-- Runs of the skeleton of graphics/src/Skeleton.cc and graphics/src/SkeletonNode.cc: a root 5 with the
-- children 1 and 3, and 2 below 1.
use ign_common.Common.{
  ℕ, ◌+◌, ◌*◌, ◌≡◌, refl, true, false, Option, none, some, List, [], ◌∷◌, arith, ◌==◌,
  if◌then◌else◌, get_elem?, map,
}
use mathlib.Core.Option
use ign_common.Common.OrdMap.{OrdMap, find, insert}
use ign_common.Common.Distinct.{contains}
use ign_common.Skeleton.Node.{
  Space, SkeletonNode, Store, joint, blank, update_children_transforms, set_transform,
  push_children, walk, set_handle,
}
use ign_common.Skeleton.Walk.{Forest, branch, bare, plant}
use ign_common.Skeleton.Whole.{Skeleton, new_skeleton, build_node_map}
use ign_common.Skeleton.Handles.{build_node_map_lem, handle_of, forget}
use ign_common.Skeleton.Transforms.{update_children_transforms_lem, AreSettled, AreSame}

-- Numbers, with a product that is not commutative.
abbrev numbers : Space
numbers = record {
  Matrix = ℕ;
  Scalar = ℕ;
  RawTransform = ℕ;
  null = 0;
  identity = 0;
  mul = λ m n. 2 * m + n;
  inverse = λ m. m;
  is_equal = λ m n. m == n;
  scaled = λ s m. s * m;
}

abbrev part : Option ℕ → List ℕ → ℕ → SkeletonNode numbers
part parent children m = record (blank numbers parent) {
  type = some joint;
  children = children;
  transform = m;
  model_transform = m;
}

abbrev body : Store numbers
body = record {
  cell = λ p.
      if p == 5
      then some (part none (1 ∷ 3 ∷ []) 7)
      else if p == 1
      then some (part (some 5) (2 ∷ []) 1)
      else if p == 2
      then some (part (some 1) [] 2)
      else if p == 3
      then some (part (some 5) [] 3)
      else none;
  fresh = 6;
}

abbrev below : Forest
below = plant (branch 1 (plant (branch 2 bare) bare)) (plant (branch 3 bare) bare)

abbrev rooted : Skeleton numbers ℕ
rooted = record (new_skeleton numbers ℕ) { root = some 5; nodes = (7, 9) ∷ [] }

build_node_map_lem_example :
    (m : OrdMap ℕ) × (h' : Store numbers) × (build_node_map numbers ℕ 9 rooted body
      ≡ some (record rooted { nodes = m }, h'))
    × ((k : ℕ)
        → find k m ≡ elim (get_elem? {A = ℕ} (5 ∷ 1 ∷ 2 ∷ 3 ∷ []) k) [
          | none ↦ find k ((7, 9) ∷ [])
          | some p ↦ some p
        ])
    × ((j p : ℕ)
        → get_elem? {A = ℕ} (5 ∷ 1 ∷ 2 ∷ 3 ∷ []) j ≡ some p
        → handle_of numbers h' p ≡ some j)
    × ((q : ℕ) → contains q (5 ∷ 1 ∷ 2 ∷ 3 ∷ []) ≡ false → h'.cell q ≡ body.cell q)
    × ((q : ℕ)
        → Option.map (forget numbers) (h'.cell q) ≡ Option.map (forget numbers) (body.cell q))
build_node_map_lem_example =
    build_node_map_lem numbers ℕ 9 (branch 5 below) rooted body refl
      (refl, ((refl, ((refl, tt), tt)), ((refl, tt), tt))) (refl, (refl, (refl, (refl, tt))))
      (tt, tt) (omega arith)

update_children_transforms_lem_example :
    (h' : Store numbers) × (update_children_transforms numbers 9 5 body ≡ some h')
    × AreSettled numbers h' 5 below
    × ((r : ℕ) → contains r (1 ∷ 2 ∷ 3 ∷ []) ≡ false → h'.cell r ≡ body.cell r)
    × AreSame numbers body h'
update_children_transforms_lem_example =
    update_children_transforms_lem numbers 9 5 below body refl
      ((refl, ((refl, tt), tt)), ((refl, tt), tt)) (refl, (refl, tt, tt), (refl, tt, tt))
      (refl, (refl, (refl, (refl, tt)))) (omega arith)

abbrev models : Option (Store numbers) → List (Option ℕ)
models none = []
models (some h) =
    map (λ p. Option.map (λ (n : SkeletonNode numbers). n.model_transform) (h.cell p))
      (5 ∷ 1 ∷ 2 ∷ 3 ∷ 4 ∷ [])

settled_models :
    models (update_children_transforms numbers 9 5 body)
    ≡ some 7 ∷ some 15 ∷ some 32 ∷ some 17 ∷ none ∷ []
unfolding update_children_transforms push_children
settled_models = refl

moved_models :
    models (set_transform numbers 9 1 true 5 body) ≡ some 1 ∷ some 3 ∷ some 8 ∷ some 5 ∷ none ∷ []
unfolding set_transform push_children
moved_models = refl

-- Without the update the children keep their model transforms.
lone_models :
    models (set_transform numbers 9 1 false 5 body) ≡ some 1 ∷ some 1 ∷ some 2 ∷ some 3 ∷ none ∷ []
unfolding set_transform push_children
lone_models = refl

-- A second, smaller tree leaves the handles of the first in the map.
stale_handle :
    Option.map
      (λ r. map (λ (e : ℕ × ℕ). e.1) r.0.nodes)
      (build_node_map numbers ℕ 9
        (record rooted { root = some 3; nodes = (0, 5) ∷ (1, 1) ∷ [] })
        body)
    ≡ some (3 ∷ 1 ∷ [])
unfolding build_node_map push_children walk set_handle insert
stale_handle = refl
