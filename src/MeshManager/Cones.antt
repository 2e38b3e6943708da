-- ===== src/MeshManager/Cones.antt =====
-- graphics/src/MeshManager.cc: the cone and the tube.
use ign_common.Common.{ℕ, ◌+◌, ◌-◌, ◌*◌, ◌/◌, ltb, ◌==◌, if◌then◌else◌}
use ign_common.Mesh.SubMesh.{Geometry, SubMesh, index_count, index, normal, set_normal, to_unsigned}
use ign_common.MeshManager.Strips.{
  Floats, Strip, new_strip, rounds, word, add_point, add_triangle, add_quad, advance, ratio,
  seg_angle, ring_z, top_fan,
}

unfoldable pub at_least_three : ℕ → ℕ
at_least_three segments = if ltb segments 3 then 3 else segments

unfoldable pub at_least_one : ℕ → ℕ
at_least_one rings = if ltb rings 1 then 1 else rings

module _ (g : Geometry) (fl : Floats g) where
  open g use {Real, Vector, number, add, sub, mul, div, neg, to_float, vector, plus, normalize}
  open fl use {fmul, fdiv, sinf, cosf, over, is_full_turn}

  -- One round of the inner loop of CreateCone.
  unfoldable pub cone_point : Real → Real → ℕ → ℕ → ℕ → ℕ → Strip g → Strip g
  unfolding add_point add_triangle
  cone_point radius height rings segments ring seg st =
      let c = ring_z g fl height rings ring in
      let r = mul (div (sub height (add c (div height (number 2)))) height) radius in
      let angle = seg_angle g fl segments seg in
      let vert = vector (mul r (sinf angle)) (mul r (cosf angle)) c in
      let s =
        add_point g vert (normalize vert) (ratio g fl seg segments) (ratio g fl ring rings)
          st.part in
      if ring == rings - 1
      then record st { part = s }
      else advance g (add_quad g segments st.vertice_index s) st.vertice_index

  -- A triangle of the bottom of the cone.
  unfoldable pub base_fan : ℕ → ℕ → SubMesh g → SubMesh g
  unfolding add_triangle
  base_fan v seg s = add_triangle g v seg (seg + 1) s

  -- A round of the loop that fixes the normals, for the triangle at the index `i`.
  unfoldable pub fix_normal : ℕ → SubMesh g → SubMesh g
  unfolding index normal set_normal to_unsigned
  fix_normal i s =
      let a = to_unsigned (index g s i) in
      let b = to_unsigned (index g s (i + 1)) in
      let c = to_unsigned (index g s (i + 2)) in
      let start = vector (number 0) (number 0) (number 0) in
      let sum = plus (plus (plus start (normal g s a)) (normal g s b)) (normal g s c) in
      let norm = normalize (over sum (number 3)) in
      set_normal g c norm (set_normal g b norm (set_normal g a norm s))

  -- `i` goes through the multiples of three with i + 3 below the count.
  unfoldable pub fix_normals : SubMesh g → SubMesh g
  unfolding rounds fix_normal
  fix_normals s = rounds (λ k t. fix_normal (3 * k) t) ((index_count g s - 1) / 3) 0 s

  -- The tip and the base of the cone and their fans, behind the rings.
  unfoldable pub cone_caps : Real → ℕ → Strip g → SubMesh g
  unfolding add_point top_fan base_fan rounds
  cone_caps height segments st =
      let none_ = number 0 in
      let tip =
        add_point g (vector none_ none_ (div height (number 2))) (vector none_ none_ (number 1))
          none_ none_ st.part in
      let base =
        add_point g (vector none_ none_ (div (neg height) (number 2)))
          (vector none_ none_ (neg (number 1))) none_ none_ tip in
      let v = word (st.vertice_index + (segments + 1)) in
      rounds (base_fan (word (v + 1))) segments 0 (rounds (top_fan g fl v segments) segments 0 base)

  -- CreateCone before RecalculateNormals.
  unfoldable pub cone_part : Real → Real → ℕ → ℕ → SubMesh g
  unfolding rounds cone_point cone_caps fix_normals at_least_three
  cone_part radius height rings segments =
      let n = at_least_three segments in
      let side =
        rounds (λ ring st. rounds (cone_point radius height rings n ring) (n + 1) 0 st) rings 0
          (new_strip g) in
      fix_normals (cone_caps height n side)

  -- The triangles at a vertex between its ring and the next.
  unfoldable pub tube_side : ℕ → ℕ → ℕ → SubMesh g → SubMesh g
  unfolding add_triangle
  tube_side segments seg v s =
      let t = if seg == 0 then s else add_triangle g (v + segments + 1) v (v + segments) s in
      if seg == segments then t else add_triangle g (v + segments + 1) (v + 1) v t

  -- The triangles of the top.
  unfoldable pub tube_top : ℕ → ℕ → ℕ → SubMesh g → SubMesh g
  unfolding add_triangle
  tube_top segments seg v s =
      if seg == segments
      then s
      else add_triangle g (v + 1) (v + segments + 1) (v + segments + 2)
          (add_triangle g v (v + segments + 1) (v + 1) s)

  -- The triangles of the bottom. CreateTube is undefined where the products are no int.
  unfoldable pub tube_bottom : ℕ → ℕ → ℕ → ℕ → SubMesh g → SubMesh g
  unfolding add_triangle
  tube_bottom rings segments seg v s =
      let far = v + (segments + 1) * ((rings + 1) * 2 - 1) in
      if ltb seg segments
      then add_triangle g (far + 1) far (v + 1) (add_triangle g (v + 1) far v s)
      else s

  -- A vertex of the tube, at a distance and a height.
  unfoldable pub tube_vertex : Real → Real → Real → ℕ → ℕ → ℕ → ℕ → SubMesh g → SubMesh g
  unfolding add_point
  tube_vertex arc radius at_z rings segments ring seg s =
      let angle = fmul (number seg) (to_float (div arc (number segments))) in
      let vert = vector (fmul radius (sinf angle)) (fmul radius (cosf angle)) at_z in
      add_point g vert (normalize vert) (ratio g fl seg segments) (ratio g fl ring rings) s

  -- One round of the first inner loop of CreateTube.
  unfoldable pub outer_point : Real → Real → Real → ℕ → ℕ → ℕ → ℕ → Strip g → Strip g
  unfolding tube_vertex tube_side tube_top tube_bottom
  outer_point arc radius height rings segments ring seg st =
      let v = st.vertice_index in
      let s =
        tube_vertex arc radius (ring_z g fl height rings ring) rings segments ring seg st.part in
      let t = if ring == rings then tube_top segments seg v s else tube_side segments seg v s in
      let u = if ring == 0 then tube_bottom rings segments seg v t else t in advance g u v

  -- One round of the second.
  unfoldable pub inner_point : Real → Real → Real → ℕ → ℕ → ℕ → ℕ → Strip g → Strip g
  unfolding tube_vertex tube_side
  inner_point arc radius height rings segments ring seg st =
      let v = st.vertice_index in
      let at_z = sub (div height (number 2)) (fdiv (fmul (number ring) height) (number rings)) in
      let s = tube_vertex arc radius at_z rings segments ring seg st.part in
      advance g (if ring == rings then s else tube_side segments seg v s) v

  -- A round of the loop that closes the ends. CreateTube is undefined where the products are no int.
  unfoldable pub close_ends : ℕ → ℕ → ℕ → SubMesh g → SubMesh g
  unfolding add_triangle
  close_ends rings segments ring s =
      let n = segments + 1 in
      let far = n * ((rings + 1) * 2 - 2 - ring) in
      let near = n * ((rings + 1) * 2 - 1 - ring) in
      let a = add_triangle g (n * (ring + 1)) (n * ring) far s in
      let b = add_triangle g far (n * ring) near a in
      let c = add_triangle g (far + segments) (near + segments) (n * (ring + 1) + segments) b in
      add_triangle g (n * (ring + 1) + segments) (near + segments) (n * ring + segments) c

  -- CreateTube before RecalculateNormals.
  unfoldable pub tube_part : Real → Real → Real → ℕ → ℕ → Real → SubMesh g
  unfolding rounds outer_point inner_point close_ends at_least_three at_least_one
  tube_part inner_radius outer_radius height rings_ segments_ arc =
      let rings = at_least_one rings_ in
      let segments = at_least_three segments_ in
      let outer =
        rounds
          (λ ring st.
            rounds (outer_point arc outer_radius height rings segments ring) (segments + 1) 0 st)
          (rings + 1) 0 (new_strip g) in
      let inner =
        rounds
          (λ ring st.
            rounds (inner_point arc inner_radius height rings segments ring) (segments + 1) 0 st)
          (rings + 1) 0 outer in
      if is_full_turn arc then inner.part else rounds (close_ends rings segments) rings 0 inner.part
