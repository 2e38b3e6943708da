-- ===== src/MeshManager/Tests.antt =====
-- Runs of graphics/src/MeshManager.cc over the numbers and triples of the tests of meshes.
use ign_common.Common.{
  ℕ, ◌+◌, ◌*◌, ◌^◌, ◌<◌, ◌/◌, ◌≡◌, refl, Bool, false, some, List, [], ◌∷◌, arith, leb, ◌==◌, ◌&&◌,
  length,
}
use mathlib.Core.Option
use ign_common.Common.Text.{codes}
use ign_common.Mesh.SubMesh.{SubMesh, new_sub_mesh, add_index}
use ign_common.Mesh.Grid.{grid}
use ign_common.MeshManager.Strips.{Floats, cylinder_part}
use ign_common.MeshManager.Cones.{at_least_three, at_least_one}
use ign_common.MeshManager.Built.{IsBuilt}
use ign_common.MeshManager.Round.{cylinder_part_lem}
use ign_common.MeshManager.Flat.{tesselate_2d_mesh, box_part}
use ign_common.MeshManager.Manager.{
  Manager, create_cone, create_tube, insert_mesh, extension_of, has_mesh,
}
use ign_common.MeshManager.Polylines.{convert_polylines, convert_polylines_lem, IsTable}
use ign_common.MeshManager.Shapes.{single, create_cone_lem, create_tube_lem}

abbrev whole : Floats grid
whole = record {
  fmul = λ a b. a * b;
  fdiv = λ a b. a / b;
  sinf = λ a. a;
  cosf = λ a. a;
  over = λ v r. v;
  is_full_turn = λ a. a == 6;
}

abbrev no_meshes : Manager grid
no_meshes = record { meshes = []; file_extensions = codes "stl" ∷ [] }

create_cone_lem_example :
    (t : SubMesh grid) × (create_cone grid whole (codes "cone") 5 9 2 4 no_meshes
      ≡ some (insert_mesh grid (codes "cone") (single grid (codes "cone") t) no_meshes))
    × IsBuilt grid 12 12 t
unfolding at_least_three has_mesh
create_cone_lem_example =
    create_cone_lem grid whole (codes "cone") 5 9 2 4 no_meshes refl refl (omega arith)
      (omega arith)

create_tube_lem_example :
    (t : SubMesh grid) × (create_tube grid whole (codes "tube") 4 5 9 2 4 3 no_meshes
      ≡ some (insert_mesh grid (codes "tube") (single grid (codes "tube") t) no_meshes))
    × IsBuilt grid 30 30 t
    × (length t.indices < 2 ^ 32)
unfolding at_least_three at_least_one has_mesh
create_tube_lem_example =
    create_tube_lem grid whole (codes "tube") 4 5 9 2 4 3 no_meshes refl refl (omega arith)

cylinder_part_lem_example : IsBuilt grid 22 22 (cylinder_part grid whole 5 9 1 4)
cylinder_part_lem_example = cylinder_part_lem grid whole 5 9 1 4 (omega arith) (omega arith)

-- Two squares of numbers, with a tolerance of one.
abbrev close : ℕ → ℕ → Bool
close a b = leb a (b + 1) && leb b (a + 1)

convert_polylines_lem_example :
    (u : List ℕ × List (ℕ × ℕ)) × (convert_polylines close
        ((0 ∷ 5 ∷ 9 ∷ 0 ∷ []) ∷ (20 ∷ 9 ∷ []) ∷ [])
        ([], [])
      ≡ some u)
    × IsTable close u
convert_polylines_lem_example =
    convert_polylines_lem close ((0 ∷ 5 ∷ 9 ∷ 0 ∷ []) ∷ (20 ∷ 9 ∷ []) ∷ []) ([], []) tt (tt, tt)

joined_polylines :
    convert_polylines close ((0 ∷ 5 ∷ 9 ∷ 1 ∷ []) ∷ (20 ∷ 9 ∷ []) ∷ []) ([], [])
    ≡ some (0 ∷ 5 ∷ 9 ∷ 20 ∷ [], (0, 1) ∷ (1, 2) ∷ (2, 0) ∷ (3, 2) ∷ [])
unfolding convert_polylines
joined_polylines = refl

one_cell :
    Option.map
      (λ (s : SubMesh grid). s.indices)
      (tesselate_2d_mesh grid 2 2 false (new_sub_mesh grid))
    ≡ some (2 ∷ 0 ∷ 3 ∷ 3 ∷ 0 ∷ 1 ∷ [])
unfolding tesselate_2d_mesh add_index
one_cell = refl

box_count : length (box_part grid 2 4 6 1 1).vertices ≡ 24
unfolding box_part
box_count = refl

last_dot : extension_of (codes "a.b.stl") ≡ codes "stl"
unfolding extension_of
last_dot = refl
