-- ===== src/Mesh/Tests.antt =====
-- Runs of graphics/src/SubMesh.cc and graphics/src/Mesh.cc over triples of numbers.
use ign_common.Common.{
  ℕ, ◌≡◌, ◌↔◌, refl, false, none, some, List, [], ◌∷◌, map, arith, ltb, get_elem?,
}
use mathlib.Core.Option
use ign_common.Common.Int.{pos}
use ign_common.Mesh.Grid.{Triple, triple, grid}
use ign_common.Mesh.SubMesh.{SubMesh, new_sub_mesh, max, min, max_index, vertex_count, index_count}
use ign_common.Mesh.Shape.{Arrays, flat, recalculate_normals}
use ign_common.Mesh.Whole.{Mesh, new_mesh, mesh_fill_arrays, sum_counts}
use ign_common.Mesh.Normals.{
  AreFaces, sum_faces, recalculate_normals_lem, recalculate_normals-AreFaces,
}
use ign_common.Mesh.Arrays.{IsPacked, all_vertices, corners_of, mesh_fill_arrays_lem}
use ign_common.Mesh.Extremes.{All, Any, IsStrict}
use ign_common.Mesh.Box.{along_x, HasCoordinates, box_lem}

-- A square of two triangles.
abbrev square : SubMesh grid
square = record (new_sub_mesh grid) {
  vertices = triple 1 1 0 ∷ triple 9 1 0 ∷ triple 1 9 0 ∷ triple 9 9 0 ∷ [];
  normals = triple 5 5 5 ∷ triple 5 5 5 ∷ triple 5 5 5 ∷ [];
  indices = 0 ∷ 1 ∷ 2 ∷ 1 ∷ 3 ∷ 2 ∷ [];
}

faces : AreFaces 4 square.indices
faces = (omega arith, omega arith, omega arith, (omega arith, omega arith, omega arith, tt))

recalculate_normals_lem_example :
    recalculate_normals grid square
    ≡ some (record square {
      normals =
          map (λ v. sum_faces grid square.vertices square.indices v (triple 0 0 0)) square.vertices;
    })
recalculate_normals_lem_example = recalculate_normals_lem grid square refl faces

recalculate_normals-AreFaces_example :
    ((t : SubMesh grid) × (recalculate_normals grid square ≡ some t)) ↔ AreFaces 4 square.indices
recalculate_normals-AreFaces_example = recalculate_normals-AreFaces grid square refl (omega arith)

new_normals :
    Option.map
      (λ (s : SubMesh grid). map (λ (v : Triple). v.y) s.normals)
      (recalculate_normals grid square)
    ≡ some (2 ∷ 4 ∷ 4 ∷ 2 ∷ [])
unfolding recalculate_normals
new_normals = refl

-- Two indices are no face.
broken_face : recalculate_normals grid (record square { indices = 0 ∷ 1 ∷ [] }) ≡ none
unfolding recalculate_normals
broken_face = refl

packed : IsPacked grid square
unfolding max_index
packed = record {
  below =
      (omega arith, (omega arith, (omega arith, (omega arith, (omega arith, (omega arith, tt))))));
  last = refl;
  used = omega arith;
  short = omega arith;
}

abbrev twice : Mesh grid
twice = record (new_mesh grid) { submeshes = square ∷ square ∷ [] }

mesh_fill_arrays_lem_example :
    (is : List ℕ) × (mesh_fill_arrays grid twice
      ≡ some (record {
        vert_arr = some (flat grid (all_vertices grid twice.submeshes));
        ind_arr = some (map pos is);
      }))
    × (map (get_elem? {A = Triple} (all_vertices grid twice.submeshes)) is
        ≡ corners_of grid twice.submeshes)
mesh_fill_arrays_lem_example =
    mesh_fill_arrays_lem grid twice (packed, (packed, tt)) (omega arith) (omega arith)

-- A vertex behind the last index shifts the indices of the next part too little.
loose_vertex :
    Option.map
      (λ (a : Arrays grid). a.ind_arr)
      (mesh_fill_arrays grid (record (new_mesh grid) {
        submeshes = (record square { indices = 0 ∷ 1 ∷ 2 ∷ [] }) ∷ square ∷ [];
      }))
    ≡ some (some (map pos (0 ∷ 1 ∷ 2 ∷ 3 ∷ 4 ∷ 5 ∷ 4 ∷ 6 ∷ 5 ∷ [])))
unfolding mesh_fill_arrays vertex_count index_count sum_counts
loose_vertex = refl

-- A part with vertices and no indices has no array to copy.
bare_part :
    mesh_fill_arrays grid
      (record (new_mesh grid) { submeshes = (record square { indices = [] }) ∷ [] })
    ≡ none
unfolding mesh_fill_arrays vertex_count index_count sum_counts
bare_part = refl

coordinates : HasCoordinates grid
coordinates = record {
  x-vector = λ a b c. refl;
  y-vector = λ a b c. refl;
  z-vector = λ a b c. refl;
}

strict : IsStrict {R = ℕ} ltb
strict = record {
  asym = λ a b e. ground (arith, e);
  trans = λ a b c d e. ground (arith, d, e);
  total = λ a b d e. ground (arith, d, e);
}

box_lem_example :
    All (λ (v : Triple). ltb (max grid square).x v.x ≡ false) square.vertices
    × All (λ (v : Triple). ltb v.x (min grid square).x ≡ false) square.vertices
    × Any (λ (v : Triple). v.x ≡ (max grid square).x) square.vertices
    × Any (λ (v : Triple). v.x ≡ (min grid square).x) square.vertices
box_lem_example =
    box_lem grid square along_x coordinates strict (omega arith)
      ((refl, refl), ((refl, refl), ((refl, refl), ((refl, refl), tt))))
