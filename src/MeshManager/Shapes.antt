-- ===== src/MeshManager/Shapes.antt =====
-- The Create functions of graphics/src/MeshManager.cc.
use ign_common.Common.{
  ℕ, ◌+◌, ◌-◌, ◌*◌, ◌^◌, ◌<◌, ◌≡◌, refl, sym, ◌∙◌, ap, true, false, arith, Option, none, some, List,
  [], ◌∷◌, map, ltb, length, inl, inr, Bool-cases, length-map,
}
use mathlib.Core.Option
use mathlib.Core.Path.{subst}
use ign_common.Common.Text.{Bytes}
use ign_common.Mesh.SubMesh.{Geometry, SubMesh, copy}
use ign_common.Mesh.Shape.{recalculate_normals}
use ign_common.Mesh.Whole.{
  Mesh, new_mesh, set_name, add_sub_mesh_copy, mesh_recalculate_normals, recalculate_all,
}
use ign_common.Mesh.Normals.{AreFaces, sum_faces, recalculate_normals_lem}
use ign_common.MeshManager.Strips.{Floats}
use ign_common.MeshManager.Cones.{at_least_three, at_least_one, cone_part, tube_part}
use ign_common.MeshManager.Built.{IsBuilt, mono}
use ign_common.MeshManager.Amounts.{tube_part-amount}
use ign_common.MeshManager.Conical.{cone_part_lem}
use ign_common.MeshManager.Tubular.{tube_part_lem}
use ign_common.MeshManager.Manager.{
  Manager, has_mesh, insert_mesh, mesh_of, create, create_cone, create_tube, greatest_int,
}

module _ (g : Geometry) where
  open g use {Vector, Real, number, vector, origin, normalize}

  -- A mesh with one part.
  abbrev pub single : Bytes → SubMesh g → Mesh g
  single name s = record (new_mesh g) { name = name; submeshes = s ∷ [] }

  recalculated :
      (n : ℕ) (s : SubMesh g)
      → origin ≡ vector (number 0) (number 0) (number 0)
      → IsBuilt g n n s
      → (t : SubMesh g) × (recalculate_normals g s ≡ some t)
        × IsBuilt g n n t
        × (t.indices ≡ s.indices)
  recalculated n s o h =
      let hv = h.vertex in
      let f : AreFaces (length s.vertices) s.indices =
        subst (λ k. AreFaces k s.indices) (sym hv) h.faces in
      let r = recalculate_normals_lem g s o f in
      elim (Bool-cases (ltb (length s.normals) 3)) [
        | inl e ↦ (s, r ∙ rw e refl, h, refl)
        | inr e ↦ (
          record s {
            normals = map (λ v. normalize (sum_faces g s.vertices s.indices v origin)) s.vertices;
          },
          r ∙ rw e refl,
          record {
            vertex = hv;
            normal =
                length-map s.vertices (λ v. normalize (sum_faces g s.vertices s.indices v origin))
                ∙ hv;
            faces = h.faces;
          },
          refl,
        )
      ]

  mesh_of-recalculated :
      (n : ℕ) (name : Bytes) (s : SubMesh g)
      → origin ≡ vector (number 0) (number 0) (number 0)
      → IsBuilt g n n s
      → (t : SubMesh g) × (mesh_recalculate_normals g (mesh_of g name s) ≡ some (single name t))
        × IsBuilt g n n t
        × (t.indices ≡ s.indices)
  unfolding mesh_recalculate_normals recalculate_all mesh_of add_sub_mesh_copy set_name copy
  mesh_of-recalculated n name s o h =
      let c : IsBuilt g n n (copy g s) = record {
        vertex = h.vertex;
        normal = h.normal;
        faces = h.faces;
      } in
      let (t, e, b, i) = recalculated n (copy g s) o c in
      (
        t,
        ap
            (λ (r : Option (SubMesh g)).
              Option.map
                (λ (ss : List (SubMesh g)). record (new_mesh g) { name = name; submeshes = ss })
                (elim r [
                  | none ↦ none
                  | some u ↦ Option.map (λ (us : List (SubMesh g)). u ∷ us) (some [])
                ]))
            e,
        b,
        i,
      )

  create-some :
      (name : Bytes) (m : Manager g) (x : Option (Mesh g)) (y : Mesh g)
      → has_mesh g name m ≡ false
      → x ≡ some y
      → create g name x m ≡ some (insert_mesh g name y m)
  unfolding create
  create-some name m x y h e = rw (h, e) refl

  module _ (fl : Floats g) where
    -- CreateCone with a ring, fewer than 2^32 vertices and a name that is not there ends well: the mesh that
    -- it inserts has one part, whose indices are triangles of its vertices and which has a normal for each
    -- vertex. (Vector3d() is the vector with three zeros.)
    pub create_cone_lem :
        (name : Bytes) (radius height : Real) (rings segments : ℕ) (m : Manager g)
        → origin ≡ vector (number 0) (number 0) (number 0)
        → has_mesh g name m ≡ false
        → 0 < rings
        → rings * (at_least_three segments + 1) + 2 < 2 ^ 32
        → (t : SubMesh g) × (create_cone g fl name radius height rings segments m
            ≡ some (insert_mesh g name (single name t) m))
          × IsBuilt g
              (rings * (at_least_three segments + 1) + 2)
              (rings * (at_least_three segments + 1) + 2)
              t
    unfolding create_cone
    create_cone_lem name radius height rings segments m o h l w =
        let (t, e, b, i) =
          mesh_of-recalculated (rings * (at_least_three segments + 1) + 2) name
            (cone_part g fl radius height rings segments) o
            (cone_part_lem g fl radius height rings segments l w) in
        (t, create-some name m _ (single name t) h e, b)

    -- CreateTube with a name that is not there and fewer than 2^32 / 21 vertices in each of its two grids ends
    -- well, without an overflow of its int products: the mesh that it inserts has one part, whose indices
    -- are triangles of its vertices and fewer than 2^32, and which has a normal for each vertex. (Vector3d()
    -- is the vector with three zeros.)
    pub create_tube_lem :
        (name : Bytes) (inner outer height : Real) (rings segments : ℕ) (arc : Real) (m : Manager g)
        → origin ≡ vector (number 0) (number 0) (number 0)
        → has_mesh g name m ≡ false
        → 21 * ((at_least_one rings + 1) * (at_least_three segments + 1)) < 2 ^ 32
        → (t : SubMesh g) × (create_tube g fl name inner outer height rings segments arc m
            ≡ some (insert_mesh g name (single name t) m))
          × IsBuilt g
              (2 * ((at_least_one rings + 1) * (at_least_three segments + 1)))
              (2 * ((at_least_one rings + 1) * (at_least_three segments + 1)))
              t
          × (length t.indices < 2 ^ 32)
    unfolding create_tube
    create_tube_lem name inner outer height rings segments arc m o h l =
        let n = (at_least_one rings + 1) * (at_least_three segments + 1) in
        let (t, e, b, i) =
          mesh_of-recalculated (2 * n) name (tube_part g fl inner outer height rings segments arc) o
            (tube_part_lem g fl inner outer height rings segments arc) in
        let fits = greatest_int-fits (at_least_one rings) (at_least_three segments) arc l in
        let few = tube_part-amount g fl inner outer height rings segments arc in
        (t, create-some name m _ (single name t) h (rw fits e), b, omega (arith, ap length i, few))
      where
        greatest_int-fits :
            (r s : ℕ) (arc : Real)
            → 21 * ((r + 1) * (s + 1)) < 2 ^ 32
            → ltb (greatest_int g fl r s arc) (2 ^ 31) ≡ true
        greatest_int-fits r s arc l =
            let a = mono ((r + 1) * 2 - 1) (2 * (r + 1)) (s + 1) (omega arith) in
            let b = mono 1 (r + 1) (s + 1) (omega arith) in
            elim (Bool-cases (fl.is_full_turn arc)) [
              | inl e ↦ rw e (ground arith)
              | inr e ↦ rw e (ground arith)
            ]
