-- ===== src/Mesh/Whole.antt =====
-- graphics/src/Mesh.cc: a mesh with its parts, its materials and its skeleton. A part, which is shared
-- with the callers of AddSubMesh, is named by its index. Null parts are left out.
use ign_common.Common.{
  ℕ, zero, suc, ◌+◌, ◌-◌, ◌*◌, ◌%◌, ◌^◌, Bool, true, false, Option, none, some, List, [], ◌∷◌, ◌++◌,
  map, ltb, leb, ◌&&◌, ◌==◌, if◌then◌else◌, length, get_elem?,
}
use mathlib.Core.Option
use ign_common.Common.Text.{Bytes, codes, eqb}
use ign_common.Common.Int.{ℤ, negsuc}
use ign_common.Mesh.SubMesh.{
  Geometry, SubMesh, max, min, copy, to_int, to_unsigned, vertex_count, normal_count, index_count,
  tex_coord_count, max_index, index, max_over, min_over, lift_max, lift_min, fold, count,
}
use ign_common.Mesh.Shape.{
  Arrays, fill_arrays, recalculate_normals, scale, gen_spherical_tex_coord, translate, volume,
}

module _ (g : Geometry) where
  open g use {Real, Vector, number, half, add, mul, by, plus, minus, vector, x, y, z, big, neg}

  -- Materials and skeletons by their addresses.
  pub record Mesh : Type 0 where
    pub name : Bytes
    pub path : Bytes
    pub submeshes : List (SubMesh g)
    pub materials : List ℕ
    pub skeleton : Option ℕ

  abbrev pub new_mesh : Mesh
  new_mesh = record {
    name = codes "unknown";
    path = [];
    submeshes = [];
    materials = [];
    skeleton = none;
  }

  pub set_path : Bytes → Mesh → Mesh
  set_path path m = record m { path = path }

  unfoldable pub set_name : Bytes → Mesh → Mesh
  set_name name m = record m { name = name }

  unfoldable pub mesh_max : Mesh → Vector
  unfolding max_over max
  mesh_max m = max_over g (map (max g) m.submeshes)

  unfoldable pub mesh_min : Mesh → Vector
  unfolding min_over min
  mesh_min m = min_over g (map (min g) m.submeshes)

  -- The sum of a count over the parts, as an unsigned int.
  unfoldable pub sum_counts : (SubMesh g → ℕ) → List (SubMesh g) → ℕ → ℕ
  sum_counts f [] sum = sum
  sum_counts f (s ∷ ss) sum = sum_counts f ss ((sum + f s) % 2 ^ 32)

  pub mesh_vertex_count : Mesh → ℕ
  unfolding sum_counts
  mesh_vertex_count m = sum_counts (vertex_count g) m.submeshes 0

  pub mesh_normal_count : Mesh → ℕ
  unfolding sum_counts
  mesh_normal_count m = sum_counts (normal_count g) m.submeshes 0

  pub mesh_index_count : Mesh → ℕ
  unfolding sum_counts
  mesh_index_count m = sum_counts (index_count g) m.submeshes 0

  pub mesh_tex_coord_count : Mesh → ℕ
  unfolding sum_counts
  mesh_tex_coord_count m = sum_counts (tex_coord_count g) m.submeshes 0

  -- AddSubMesh, which copies the part or takes it over, with the index of the part.
  unfoldable pub add_sub_mesh_copy : SubMesh g → Mesh → ℕ × Mesh
  unfolding copy
  add_sub_mesh_copy s m =
      (length m.submeshes, record m { submeshes = m.submeshes ++ copy g s ∷ [] })

  unfoldable pub add_sub_mesh : SubMesh g → Mesh → ℕ × Mesh
  add_sub_mesh s m = (length m.submeshes, record m { submeshes = m.submeshes ++ s ∷ [] })

  pub sub_mesh_count : Mesh → ℕ
  unfolding count
  sub_mesh_count m = count m.submeshes

  pub sub_mesh_by_index : ℕ → Mesh → Option (SubMesh g)
  sub_mesh_by_index i m = if ltb i (length m.submeshes) then get_elem? m.submeshes i else none

  find_name : Bytes → List (SubMesh g) → Option (SubMesh g)
  find_name name [] = none
  find_name name (s ∷ ss) = if eqb s.name name then some s else find_name name ss

  pub sub_mesh_by_name : Bytes → Mesh → Option (SubMesh g)
  unfolding find_name
  sub_mesh_by_name name m = find_name name m.submeshes

  -- The index of the new material, or -1 for a null pointer.
  unfoldable pub add_material : Option ℕ → Mesh → ℤ × Mesh
  unfolding to_int
  add_material none m = (negsuc 0, m)
  add_material (some mat) m =
      let mats = m.materials ++ mat ∷ [] in
      (to_int ((length mats - 1) % 2 ^ 32), record m { materials = mats })

  pub material_count : Mesh → ℕ
  unfolding count
  material_count m = count m.materials

  unfoldable pub material_by_index : ℕ → Mesh → Option ℕ
  material_by_index i m = if ltb i (length m.materials) then get_elem? m.materials i else none

  unfoldable pub find_material : ℕ → ℕ → List ℕ → ℤ
  unfolding to_int
  find_material i mat [] = negsuc 0
  find_material i mat (p ∷ ps) = if p == mat then to_int i else find_material (i + 1) mat ps

  unfoldable pub index_of_material : Option ℕ → Mesh → ℤ
  unfolding find_material
  index_of_material none m = negsuc 0
  index_of_material (some mat) m = find_material 0 mat m.materials

  -- The inner loop of FillArrays over the indices of a part, from the index `i` for `n` rounds.
  unfoldable pub index_loop : ℕ → ℕ → ℕ → SubMesh g → List ℤ
  unfolding index to_int to_unsigned
  index_loop zero i offset s = []
  index_loop (suc n) i offset s =
      to_int ((to_unsigned (index g s i) + offset) % 2 ^ 32) ∷ index_loop n (i + 1) offset s

  -- The copy of a part's vertex array, `none` when there are entries to copy from a null pointer.
  abbrev pub copied : ℕ → Option (List Real) → Option (List Real)
  copied zero arr = some []
  copied (suc n) arr = arr

  -- The entries of a part before those of the parts after it.
  abbrev pub behind :
      Option (List Real) → List ℤ → Option (List Real × List ℤ) → Option (List Real × List ℤ)
  behind none is rest = none
  behind (some vs) is none = none
  behind (some vs) is (some (us, js)) = some (vs ++ us, is ++ js)

  -- The loop of FillArrays over the parts. A step of vPtr that wraps follows a part with more entries than
  -- any array of FillArrays has, so that `fitting` makes it undefined.
  unfoldable pub part_loop : List (SubMesh g) → ℕ → Option (List Real × List ℤ)
  unfolding fill_arrays index_loop max_index
  part_loop [] offset = some ([], [])
  part_loop (s ∷ ss) offset =
      let rest = part_loop ss ((offset + max_index g s + 1) % 2 ^ 32) in
      let tmp = fill_arrays g s (record { vert_arr = none; ind_arr = none }) in
      let is = index_loop (index_count g s) 0 offset s in
      behind (copied (vertex_count g s * 3) tmp.vert_arr) is rest

  -- The entries, when they fit into the allocated arrays; a write past their ends is undefined.
  abbrev pub fitting : ℕ → ℕ → Option (List Real × List ℤ) → Option (Arrays g)
  fitting verts inds none = none
  fitting verts inds (some (vs, is)) =
      if leb (length vs) verts && leb (length is) inds
      then some (record { vert_arr = some vs; ind_arr = some is })
      else none

  -- FillArrays; the sizes of the new arrays are unsigned int.
  unfoldable pub mesh_fill_arrays : Mesh → Option (Arrays g)
  unfolding part_loop sum_counts
  mesh_fill_arrays m =
      let vert_count = sum_counts (vertex_count g) m.submeshes 0 in
      let ind_count = sum_counts (index_count g) m.submeshes 0 in
      fitting (vert_count * 3 % 2 ^ 32) ind_count (part_loop m.submeshes 0)

  unfoldable pub recalculate_all : List (SubMesh g) → Option (List (SubMesh g))
  recalculate_all [] = some []
  recalculate_all (s ∷ ss) =
      let rest = recalculate_all ss in
      elim (recalculate_normals g s) [ none ↦ none | some t ↦ Option.map (λ ts. t ∷ ts) rest ]

  unfoldable pub mesh_recalculate_normals : Mesh → Option Mesh
  unfolding recalculate_all
  mesh_recalculate_normals m =
      Option.map (λ ss. record m { submeshes = ss }) (recalculate_all m.submeshes)

  pub set_skeleton : Option ℕ → Mesh → Mesh
  set_skeleton skel m = record m { skeleton = skel }

  pub has_skeleton : Mesh → Bool
  has_skeleton m = elim m.skeleton [ none ↦ false | some p ↦ true ]

  -- Scale and SetScale
  pub mesh_scale : Vector → Mesh → Mesh
  mesh_scale factor m = record m { submeshes = map (scale g factor) m.submeshes }

  pub mesh_gen_spherical_tex_coord : Vector → Mesh → Mesh
  mesh_gen_spherical_tex_coord c m = record m {
    submeshes = map (gen_spherical_tex_coord g c) m.submeshes;
  }

  unfoldable pub mesh_translate : Vector → Mesh → Mesh
  unfolding translate
  mesh_translate vec m = record m { submeshes = map (translate g vec) m.submeshes }

  pub mesh_center : Vector → Mesh → Mesh
  unfolding mesh_translate mesh_max mesh_min
  mesh_center c m =
      let low = mesh_min m in
      let mid = by (minus (mesh_max m) low) half in mesh_translate (minus c (plus low mid)) m

  pub aabb : Mesh → Vector × Vector × Vector
  unfolding max min
  aabb m =
      let low = fold g (lift_min g) (vector big big big) (map (min g) m.submeshes) in
      let high =
        fold g (lift_max g) (vector (neg big) (neg big) (neg big)) (map (max g) m.submeshes) in
      (
        vector (mul half (add (x low) (x high))) (mul half (add (y low) (y high)))
            (mul half (add (z low) (z high))),
        low,
        high,
      )

  volume_all : List (SubMesh g) → Real → Option Real
  volume_all [] v = some v
  volume_all (s ∷ ss) v = elim (volume g s) [ none ↦ none | some w ↦ volume_all ss (add v w) ]

  pub mesh_volume : Mesh → Option Real
  unfolding volume_all
  mesh_volume m = volume_all m.submeshes (number 0)
