-- ===== src/MeshManager/Polylines.antt =====
-- graphics/src/MeshManager.cc: the points and edges of polylines, up to a tolerance.
use ign_common.Common.{
  ℕ, ◌+◌, ◌≤◌, ◌<◌, ◌≡◌, refl, Bool, false, Option, none, some, List, [], ◌∷◌, ◌++◌, if◌then◌else◌,
  length, ◌==◌, arith, inl, inr, Bool-cases,
}

-- The points of a polyline without repetition, and the edges between them.
unfoldable pub add_unique_point : {P : Type 0} → (P → P → Bool) → ℕ → P → List P → ℕ × List P
add_unique_point near i p [] = (i, p ∷ [])
add_unique_point near i p (v ∷ vs) =
    let (r, ws) = add_unique_point near (i + 1) p vs in
    if near v p then (i, v ∷ vs) else (r, v ∷ ws)

-- The rounds over one polyline, behind the point `previous`.
unfoldable pub convert_polyline :
    {P : Type 0} → (P → P → Bool) → P → List P → List P × List (ℕ × ℕ) → List P × List (ℕ × ℕ)
unfolding add_unique_point
convert_polyline near previous [] (vs, es) = (vs, es)
convert_polyline near previous (p ∷ ps) (vs, es) =
    let (a, us) = add_unique_point near 0 previous vs in
    let (b, ws) = add_unique_point near 0 p us in
    convert_polyline near p ps (ws, if a == b then es else es ++ (a, b) ∷ [])

-- ConvertPolylinesToVerticesAndEdges; the first point of an empty polyline is out of bounds.
unfoldable pub convert_polylines :
    {P : Type 0}
    → (P → P → Bool)
    → List (List P)
    → List P × List (ℕ × ℕ)
    → Option (List P × List (ℕ × ℕ))
unfolding convert_polyline
convert_polylines near [] acc = some acc
convert_polylines near ([] ∷ polys) acc = none
convert_polylines near ((p ∷ ps) ∷ polys) acc =
    convert_polylines near polys (convert_polyline near p ps acc)

module _ {P : Type 0} (near : P → P → Bool) where
  abbrev pub IsApart : P → List P → Type 0
  IsApart v [] = Unit
  IsApart v (w ∷ ws) = (near v w ≡ false) × IsApart v ws

  -- No point is near an earlier one.
  abbrev pub AreSeparated : List P → Type 0
  AreSeparated [] = Unit
  AreSeparated (v ∷ vs) = IsApart v vs × AreSeparated vs

  -- The edges join different points that are there.
  abbrev pub AreEdges : ℕ → List (ℕ × ℕ) → Type 0
  AreEdges n [] = Unit
  AreEdges n ((a, b) ∷ es) = ((a == b) ≡ false) × (a < n) × (b < n) × AreEdges n es

  AreEdges-more : (m n : ℕ) (es : List (ℕ × ℕ)) → m ≤ n → AreEdges m es → AreEdges n es
  AreEdges-more m n [] l h = tt
  AreEdges-more m n ((a, b) ∷ es) l (x, y, z, h) =
      (x, omega arith, omega arith, AreEdges-more m n es l h)

  AreEdges-last :
      (n a b : ℕ) (es : List (ℕ × ℕ))
      → (a == b) ≡ false
      → a < n
      → b < n
      → AreEdges n es
      → AreEdges n (es ++ (a, b) ∷ [])
  AreEdges-last n a b [] x y z h = (x, y, z, tt)
  AreEdges-last n a b ((c, d) ∷ es) x y z (u, v, w, h) = (u, v, w, AreEdges-last n a b es x y z h)

  AreEdges-new :
      (n a b : ℕ) (es : List (ℕ × ℕ))
      → a < n
      → b < n
      → AreEdges n es
      → AreEdges n (if a == b then es else es ++ (a, b) ∷ [])
  AreEdges-new n a b es y z h = elim (Bool-cases (a == b)) [
    | inl e ↦ rw e h
    | inr e ↦ rw e (AreEdges-last n a b es e y z h)
  ]

  record IsAdded (i : ℕ) (p : P) (vs : List P) (r : ℕ × List P) : Type 0 where
    pub above : i ≤ r.0
    pub below : r.0 < i + length r.1
    pub longer : length vs ≤ length r.1
    pub apart : (u : P) → near u p ≡ false → IsApart u vs → IsApart u r.1
    pub separated : AreSeparated vs → AreSeparated r.1

  add_unique_point-IsAdded :
      (i : ℕ) (p : P) (vs : List P) → IsAdded i p vs (add_unique_point near i p vs)
  unfolding add_unique_point
  add_unique_point-IsAdded i p [] = record {
    above = omega arith;
    below = omega arith;
    longer = omega arith;
    apart = λ u e a. (e, tt);
    separated = λ a. (tt, tt);
  }
  add_unique_point-IsAdded i p (v ∷ vs) =
      let r = add_unique_point-IsAdded (i + 1) p vs in
      let ra = r.above in
      let rb = r.below in
      let rl = r.longer in
      elim (Bool-cases (near v p)) [
        | inl e ↦ rw e (record {
          above = omega arith;
          below = omega arith;
          longer = omega arith;
          apart = λ u d a. a;
          separated = λ a. a;
        })
        | inr e ↦ rw e (record {
          above = omega arith;
          below = omega arith;
          longer = omega arith;
          apart = λ u d (a, b). (a, r.apart u d b);
          separated = λ (a, b). (r.apart v e a, r.separated b);
        })
      ]

  abbrev pub IsTable : List P × List (ℕ × ℕ) → Type 0
  IsTable (vs, es) = AreSeparated vs × AreEdges (length vs) es

  convert_polyline-IsTable :
      (q : P) (ps vs : List P) (es : List (ℕ × ℕ))
      → IsTable (vs, es)
      → IsTable (convert_polyline near q ps (vs, es))
  unfolding convert_polyline
  convert_polyline-IsTable q [] vs es t = t
  convert_polyline-IsTable q (p ∷ ps) vs es (s, t) =
      let x = add_unique_point near 0 q vs in
      let y = add_unique_point near 0 p x.1 in
      let i = add_unique_point-IsAdded 0 q vs in
      let j = add_unique_point-IsAdded 0 p x.1 in
      let ib = i.below in
      let il = i.longer in
      let jb = j.below in
      let jl = j.longer in
      let more = AreEdges-more (length vs) (length y.1) es (omega arith) t in
      convert_polyline-IsTable p ps y.1 (if x.0 == y.0 then es else es ++ (x.0, y.0) ∷ []) (
        j.separated (i.separated s),
        AreEdges-new (length y.1) x.0 y.0 es (omega arith) (omega arith) more,
      )

  -- No polyline is empty.
  abbrev pub AreFilled : List (List P) → Type 0
  AreFilled [] = Unit
  AreFilled ([] ∷ polys) = ⊥
  AreFilled ((p ∷ ps) ∷ polys) = AreFilled polys

  -- ConvertPolylinesToVerticesAndEdges of polylines that are not empty is defined; when it starts with
  -- a table in which no point is near an earlier one and edges join different points of it, so does
  -- it end.
  pub convert_polylines_lem :
      (polys : List (List P)) (t : List P × List (ℕ × ℕ))
      → AreFilled polys
      → IsTable t
      → (u : List P × List (ℕ × ℕ)) × (convert_polylines near polys t ≡ some u) × IsTable u
  unfolding convert_polylines
  convert_polylines_lem [] t f h = (t, refl, h)
  convert_polylines_lem ([] ∷ polys) t f h = absurd f
  convert_polylines_lem ((p ∷ ps) ∷ polys) (vs, es) f h =
      convert_polylines_lem polys (convert_polyline near p ps (vs, es)) f
        (convert_polyline-IsTable p ps vs es h)
