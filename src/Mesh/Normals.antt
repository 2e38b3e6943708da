-- ===== src/Mesh/Normals.antt =====
-- RecalculateNormals of graphics/src/SubMesh.cc against the normals that it means.
use ign_common.Common.{
  ℕ, ◌≤◌, ◌<◌, ◌≡◌, refl, sym, ◌∙◌, ap, ◌↔◌, false, Option, none, some, List, [], ◌∷◌, map, ltb,
  arith, if◌then◌else◌, length, get_elem?, replicate, inl, inr, Option-cases, Bool-cases,
  length-replicate,
}
use mathlib.Core.Option
use ign_common.Mesh.Lists.{
  zip_with, length-zip_with, zip_with-zip_with, zip_with-id, zip_with-replicate, get_elem?-some,
  get_elem?-below, map-constant, resize-constant, map-map,
}
use ign_common.Mesh.SubMesh.{Geometry, SubMesh}
use ign_common.Mesh.Shape.{touches, spread, corners, face_loop, cleared, recalculate_normals}

-- The indices come in threes and are below the number of vertices.
abbrev pub AreFaces : ℕ → List ℕ → Type 0
AreFaces n [] = Unit
AreFaces n (i ∷ []) = ⊥
AreFaces n (i ∷ j ∷ []) = ⊥
AreFaces n (i ∷ j ∷ k ∷ is) = (i < n) × (j < n) × (k < n) × AreFaces n is

module _ (g : Geometry) where
  open g use {Vector, number, vector, origin, plus, face_normal, normalize}

  -- The normals of the faces that have a corner at the vertex `v`, added up from `m` on.
  abbrev pub sum_faces : List Vector → List ℕ → Vector → Vector → Vector
  sum_faces vs [] v m = m
  sum_faces vs (i ∷ []) v m = m
  sum_faces vs (i ∷ j ∷ []) v m = m
  sum_faces vs (i ∷ j ∷ k ∷ is) v m = elim (corners g vs i j k) [
    | none ↦ m
    | some (v1, v2, v3) ↦
        sum_faces vs is v (if touches g v v1 v2 v3 then plus m (face_normal v1 v2 v3) else m)
  ]

  spread-zip_with :
      (n v1 v2 v3 : Vector) (vs ns : List Vector)
      → length ns ≡ length vs
      → spread g n v1 v2 v3 vs ns
        ≡ some (zip_with (λ v m. if touches g v v1 v2 v3 then plus m n else m) vs ns)
  unfolding spread
  spread-zip_with n v1 v2 v3 [] [] e = refl
  spread-zip_with n v1 v2 v3 [] (m ∷ ns) e = absurd (omega arith)
  spread-zip_with n v1 v2 v3 (v ∷ vs) [] e = absurd (omega arith)
  spread-zip_with n v1 v2 v3 (v ∷ vs) (m ∷ ns) e =
      rw (spread-zip_with n v1 v2 v3 vs ns (omega arith)) refl

  corners-some :
      (vs : List Vector) (i j k : ℕ)
      → i < length vs
      → j < length vs
      → k < length vs
      → (c : Vector × Vector × Vector) × (corners g vs i j k ≡ some c)
  corners-some vs i j k a b c =
      let (v1, x) = get_elem?-some vs i a in
      let (v2, y) = get_elem?-some vs j b in
      let (v3, z) = get_elem?-some vs k c in ((v1, v2, v3), rw (x, y, z, corners) refl)

  face_loop-zip_with :
      (vs : List Vector) (is : List ℕ) (ns : List Vector)
      → length ns ≡ length vs
      → AreFaces (length vs) is
      → face_loop g vs is ns ≡ some (zip_with (sum_faces vs is) vs ns)
  unfolding face_loop
  face_loop-zip_with vs [] ns e f = ap some (sym (zip_with-id vs ns e))
  face_loop-zip_with vs (i ∷ []) ns e f = absurd f
  face_loop-zip_with vs (i ∷ j ∷ []) ns e f = absurd f
  face_loop-zip_with vs (i ∷ j ∷ k ∷ is) ns e (a, b, c, f) =
      let ((v1, v2, v3), x) = corners-some vs i j k a b c in
      let add : Vector → Vector → Vector =
        λ v m. if touches g v v1 v2 v3 then plus m (face_normal v1 v2 v3) else m in
      let y = spread-zip_with (face_normal v1 v2 v3) v1 v2 v3 vs ns e in
      let z = zip_with-zip_with (sum_faces vs is) add vs ns in
      let w = face_loop-zip_with vs is (zip_with add vs ns) (length-zip_with add vs ns e) f in
      rw (x, y, face_loop)
        (w
          ∙ ap some z
          ∙ ap
              (λ (c : Option (Vector × Vector × Vector)). some (
                zip_with
                  (λ v m. elim c [
                    | none ↦ m
                    | some (v1, v2, v3) ↦
                        sum_faces vs is v
                          (if touches g v v1 v2 v3 then plus m (face_normal v1 v2 v3) else m)
                  ])
                  vs ns))
              (sym x))

  cleared_lem :
      (s : SubMesh g)
      → origin ≡ vector (number 0) (number 0) (number 0)
      → cleared g s ≡ replicate (length s.vertices) origin
  unfolding cleared
  cleared_lem s o =
      resize-constant origin (length s.vertices) (length s.normals)
        (map (λ _. vector (number 0) (number 0) (number 0)) s.normals)
        (map-constant (vector (number 0) (number 0) (number 0)) s.normals
          ∙ ap (replicate (length s.normals)) (sym o))

  -- RecalculateNormals on a part whose indices are faces is defined, takes zero for the vector with
  -- three zeros. With fewer than three normals it changes nothing; otherwise each vertex gets
  -- the normalised sum of the normals of the faces that have a corner at it.
  pub recalculate_normals_lem :
      (s : SubMesh g)
      → origin ≡ vector (number 0) (number 0) (number 0)
      → AreFaces (length s.vertices) s.indices
      → recalculate_normals g s
        ≡ some (
            if ltb (length s.normals) 3 then s else record s {
              normals = map (λ v. normalize (sum_faces s.vertices s.indices v origin)) s.vertices;
            })
  unfolding recalculate_normals
  recalculate_normals_lem s o f =
      let vs = s.vertices in
      let loop : face_loop g vs s.indices (cleared g s)
          ≡ some (map (λ v. sum_faces vs s.indices v origin) vs) =
        ap (face_loop g vs s.indices) (cleared_lem s o)
        ∙ face_loop-zip_with vs s.indices (replicate (length vs) origin)
            (length-replicate (length vs) origin) f
        ∙ ap some (zip_with-replicate (sum_faces vs s.indices) vs origin) in
      elim (Bool-cases (ltb (length s.normals) 3)) [
        | inl t ↦ rw t refl
        | inr t ↦ rw t (
            ap (Option.map (λ (ns : List Vector). record s { normals = map normalize ns })) loop
            ∙ ap (λ (ns : List Vector). some (record s { normals = ns }))
                (map-map (λ v. sum_faces vs s.indices v origin) normalize vs))
      ]

  corners-below :
      (vs : List Vector) (i j k : ℕ) (c : Vector × Vector × Vector)
      → corners g vs i j k ≡ some c
      → (i < length vs) × (j < length vs) × (k < length vs)
  corners-below vs i j k c h = elim (Option-cases (get_elem? vs i)) [
    | inl x ↦
        let n : ◌≡◌ {A = Option (Vector × Vector × Vector)} none (some c) = rw (x, corners) at h in
        cc
    | inr (v1, x) ↦ elim (Option-cases (get_elem? vs j)) [
      | inl y ↦
          let n : ◌≡◌ {A = Option (Vector × Vector × Vector)} none (some c) =
            rw (x, y, corners) at h in
          cc
      | inr (v2, y) ↦ elim (Option-cases (get_elem? vs k)) [
        | inl z ↦
            let n : ◌≡◌ {A = Option (Vector × Vector × Vector)} none (some c) =
              rw (x, y, z, corners) at h in
            cc
        | inr (v3, z) ↦
            (get_elem?-below vs i v1 x, get_elem?-below vs j v2 y, get_elem?-below vs k v3 z)
      ]
    ]
  ]

  face_loop-AreFaces :
      (vs : List Vector) (is : List ℕ) (ns ms : List Vector)
      → face_loop g vs is ns ≡ some ms
      → AreFaces (length vs) is
  unfolding face_loop
  face_loop-AreFaces vs [] ns ms h = tt
  face_loop-AreFaces vs (i ∷ []) ns ms h =
      let n : ◌≡◌ {A = Option (List Vector)} none (some ms) = h in cc
  face_loop-AreFaces vs (i ∷ j ∷ []) ns ms h =
      let n : ◌≡◌ {A = Option (List Vector)} none (some ms) = h in cc
  face_loop-AreFaces vs (i ∷ j ∷ k ∷ is) ns ms h =
      let rest = face_loop-AreFaces vs is in
      elim (Option-cases (corners g vs i j k)) [
        | inl x ↦
            let n : ◌≡◌ {A = Option (List Vector)} none (some ms) = rw (x, face_loop) at h in cc
        | inr ((v1, v2, v3), x) ↦
            let (a, b, c) = corners-below vs i j k (v1, v2, v3) x in
            elim (Option-cases (spread g (face_normal v1 v2 v3) v1 v2 v3 vs ns)) [
              | inl y ↦
                  let n : ◌≡◌ {A = Option (List Vector)} none (some ms) =
                    rw (x, y, face_loop) at h in
                  cc
              | inr (ns', y) ↦ (a, b, c, rest ns' ms (rw (x, y, face_loop) at h))
            ]
      ]

  -- With three normals or more, RecalculateNormals reads within its vectors exactly when the indices
  -- come in threes and are below the number of vertices.
  pub recalculate_normals-AreFaces :
      (s : SubMesh g)
      → origin ≡ vector (number 0) (number 0) (number 0)
      → 3 ≤ length s.normals
      → ((t : SubMesh g) × (recalculate_normals g s ≡ some t))
        ↔ AreFaces (length s.vertices) s.indices
  unfolding recalculate_normals
  recalculate_normals-AreFaces s o l =
      let e : ltb (length s.normals) 3 ≡ false = ground (arith, l) in
      (
        λ (t, h). elim (Option-cases (face_loop g s.vertices s.indices (cleared g s))) [
          | inl x ↦ let n : ◌≡◌ {A = Option (SubMesh g)} none (some t) = rw (e, x) at h in cc
          | inr (ms, x) ↦ face_loop-AreFaces s.vertices s.indices (cleared g s) ms x
        ],
        λ f. (_, recalculate_normals_lem s o f),
      )
