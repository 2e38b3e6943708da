-- ===== src/MeshManager/Manager.antt =====
-- graphics/src/MeshManager.cc: the meshes by their names, and the operations on them.
use ign_common.Common.{
  ℕ, ◌+◌, ◌-◌, ◌*◌, ◌^◌, ltb, Bool, true, false, Option, none, some, List, [], ◌∷◌, ◌++◌,
  if◌then◌else◌,
}
use mathlib.Core.List.{reverse}
use mathlib.Core.Option
use ign_common.Common.Text.{Bytes, codes, eqb, is_empty, is_some, index_where, substr}
use ign_common.Common.{length, ◌==◌}
use ign_common.Skeleton.Whole.{Texts, look}
use ign_common.Util.{lowercase}
use ign_common.Mesh.SubMesh.{Geometry, SubMesh}
use ign_common.Mesh.Whole.{
  Mesh, new_mesh, set_name, add_sub_mesh_copy, mesh_recalculate_normals,
  mesh_gen_spherical_tex_coord, aabb,
}
use ign_common.MeshManager.Strips.{Floats, sphere_part, cylinder_part}
use ign_common.MeshManager.Cones.{cone_part, tube_part, at_least_one, at_least_three}
use ign_common.MeshManager.Flat.{Plane, box_part, camera_part, plane_part}

-- The text behind the last dot, the whole text without one.
unfoldable pub extension_of : Bytes → Bytes
extension_of name = elim (index_where (λ c. c == 46) (reverse name)) [
  | none ↦ name
  | some i ↦ substr name (length name - i) none
]

unfoldable pub holds : Bytes → List Bytes → Bool
holds e [] = false
holds e (f ∷ fs) = if eqb f e then true else holds e fs

-- The loaders.
pub data Loader : Type 0 where
  stl collada obj : Loader

unfoldable pub loader_for : Bytes → Option Loader
loader_for e =
    if eqb e (codes "stl")
    then some stl
    else if eqb e (codes "stlb")
    then some stl
    else if eqb e (codes "stla")
    then some stl
    else if eqb e (codes "dae")
    then some collada
    else if eqb e (codes "obj")
    then some obj
    else none

module _ (g : Geometry) where
  pub record Manager : Type 0 where
    pub meshes : Texts (Mesh g)
    pub file_extensions : List Bytes

  unfoldable pub has_mesh : Bytes → Manager → Bool
  unfolding look
  has_mesh name m = if is_empty name then false else is_some (look name m.meshes)

  unfoldable pub mesh_by_name : Bytes → Manager → Option (Mesh g)
  unfolding look
  mesh_by_name name m = look name m.meshes

  -- insert of a pair, which leaves a name that is there alone.
  unfoldable pub insert_mesh : Bytes → Mesh g → Manager → Manager
  unfolding look
  insert_mesh name mesh m =
      if is_some (look name m.meshes)
      then m
      else record m { meshes = m.meshes ++ (name, mesh) ∷ [] }

  -- A change of the mesh of a name.
  unfoldable pub replace : Bytes → (Mesh g → Mesh g) → Texts (Mesh g) → Texts (Mesh g)
  replace name f [] = []
  replace name f ((k, v) ∷ ms) = if eqb k name then (k, f v) ∷ ms else (k, v) ∷ replace name f ms

  unfoldable pub add_mesh : Mesh g → Manager → Manager
  unfolding has_mesh
  add_mesh mesh m =
      if has_mesh mesh.name m
      then m
      else if is_some (look mesh.name m.meshes)
      then record m { meshes = replace mesh.name (λ _. mesh) m.meshes }
      else record m { meshes = m.meshes ++ (mesh.name, mesh) ∷ [] }

  unfoldable pub is_valid_filename : Bytes → Manager → Bool
  unfolding extension_of holds
  is_valid_filename name m =
      let e = extension_of name in
      if is_empty e then false else holds (lowercase e) m.file_extensions

  -- Load, with findFile and the loaders: the mesh, or a null pointer, and the manager.
  unfoldable pub load :
      (Bytes → Bytes)
      → (Loader → Bytes → Option (Mesh g))
      → Bytes
      → Manager
      → Option (Mesh g) × Manager
  unfolding is_valid_filename has_mesh loader_for mesh_by_name insert_mesh set_name
  load find_file read name m =
      let full = find_file name in
      if is_valid_filename name m
      then if has_mesh name m
        then (mesh_by_name name m, m)
        else if is_empty full
        then (none, m)
        else elim (loader_for (lowercase (extension_of full))) [
          | none ↦ (none, m)
          | some l ↦ elim (read l full) [
            | none ↦ (none, m)
            | some mesh ↦ (some (set_name g name mesh), insert_mesh name (set_name g name mesh) m)
          ]
        ]
      else (none, m)

  unfoldable pub gen_spherical_tex_coord_of : Bytes → g.Vector → Manager → Manager
  unfolding has_mesh replace
  gen_spherical_tex_coord_of name center m =
      if has_mesh name m
      then record m { meshes = replace name (mesh_gen_spherical_tex_coord g center) m.meshes }
      else m

  unfoldable pub mesh_aabb : Bytes → Manager → Option (g.Vector × g.Vector × g.Vector)
  unfolding has_mesh mesh_by_name
  mesh_aabb name m =
      if has_mesh name m then Option.map (λ mesh. aabb g mesh) (mesh_by_name name m) else none

  -- A new mesh with one part.
  unfoldable pub mesh_of : Bytes → SubMesh g → Mesh g
  unfolding add_sub_mesh_copy set_name
  mesh_of name s = (add_sub_mesh_copy g s (set_name g name (new_mesh g))).1

  -- The frame of the Create functions: a name that is there stops them.
  unfoldable pub create : Bytes → Option (Mesh g) → Manager → Option Manager
  unfolding has_mesh insert_mesh
  create name mesh m =
      if has_mesh name m then some m else Option.map (λ x. insert_mesh name x m) mesh

  module _ (fl : Floats g) where
    unfoldable pub create_sphere : Bytes → g.Real → ℕ → ℕ → Manager → Option Manager
    unfolding create mesh_of
    create_sphere name radius rings segments =
        create name (some (mesh_of name (sphere_part g fl radius rings segments)))

    unfoldable pub create_cylinder : Bytes → g.Real → g.Real → ℕ → ℕ → Manager → Option Manager
    unfolding create mesh_of
    create_cylinder name radius height rings segments =
        create name (some (mesh_of name (cylinder_part g fl radius height rings segments)))

    unfoldable pub create_cone : Bytes → g.Real → g.Real → ℕ → ℕ → Manager → Option Manager
    unfolding create mesh_of
    create_cone name radius height rings segments =
        create name
          (mesh_recalculate_normals g (mesh_of name (cone_part g fl radius height rings segments)))

    -- The greatest int of CreateTube, from the bottom or from the closed ends.
    abbrev pub greatest_int : ℕ → ℕ → g.Real → ℕ
    greatest_int rings segments arc =
        (segments + 1) * ((rings + 1) * 2 - 1) + (if fl.is_full_turn arc then 0 else segments)

    -- CreateTube is undefined when its int products overflow.
    unfoldable pub create_tube :
        Bytes → g.Real → g.Real → g.Real → ℕ → ℕ → g.Real → Manager → Option Manager
    unfolding create mesh_of
    create_tube name inner outer height rings segments arc =
        let part = tube_part g fl inner outer height rings segments arc in
        let top = greatest_int (at_least_one rings) (at_least_three segments) arc in
        create name
          (if ltb top (2 ^ 31) then mesh_recalculate_normals g (mesh_of name part) else none)

  unfoldable pub create_box :
      Bytes → g.Real → g.Real → g.Real → g.Real → g.Real → Manager → Option Manager
  unfolding create mesh_of
  create_box name a b c u v = create name (some (mesh_of name (box_part g a b c u v)))

  unfoldable pub create_camera : g.Real → Bytes → g.Real → Manager → Option Manager
  unfolding create mesh_of
  create_camera slope name scale =
      create name (mesh_recalculate_normals g (mesh_of name (camera_part g slope scale)))

  unfoldable pub create_plane :
      Plane g
      → Bytes
      → g.Vector
      → g.Real
      → g.Real × g.Real
      → g.Real × g.Real
      → g.Real × g.Real
      → Manager
      → Option Manager
  unfolding create mesh_of
  create_plane pl name n d size segments tile =
      create name (Option.map (mesh_of name) (plane_part g pl n d size segments tile))
