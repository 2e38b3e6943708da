-- ===== src/Mesh/Box.antt =====
-- Max and Min of graphics/src/SubMesh.cc: the box around the vertices of a part.
use ign_common.Common.{◌<◌, ◌≡◌, refl, sym, ◌∙◌, ap, Bool, false, List, [], ◌∷◌, map, arith, length}
use mathlib.Core.Path.{subst}
use ign_common.Mesh.Extremes.{All, Any, All-map, map-All, Any-map, IsStrict, best, best_lem}
use ign_common.Mesh.SubMesh.{
  Geometry, SubMesh, max, min, max_over, min_over, lift_max, lift_min, fold, max_of, min_of,
}

pub data Axis : Type 0 where
  along_x along_y along_z : Axis

module _ (g : Geometry) where
  open g use {Real, Vector, vector, x, y, z, lt, neg, max_f}

  abbrev pub coord : Axis → Vector → Real
  coord along_x v = x v
  coord along_y v = y v
  coord along_z v = z v

  -- A vector has the coordinates that it is built from.
  pub record HasCoordinates : Type 0 where
    pub x-vector : (a b c : Real) → x (vector a b c) ≡ a
    pub y-vector : (a b c : Real) → y (vector a b c) ≡ b
    pub z-vector : (a b c : Real) → z (vector a b c) ≡ c

  -- A coordinate is from -MAX_F to MAX_F, the greatest float.
  abbrev pub IsInRange : Axis → Vector → Type 0
  IsInRange a v = (lt (coord a v) (neg max_f) ≡ false) × (lt max_f (coord a v) ≡ false)

  IsStrict-flip : IsStrict lt → IsStrict (λ a b. lt b a)
  IsStrict-flip o = record {
    asym = λ a b e. o.asym b a e;
    trans = λ a b c d e. o.trans c b a e d;
    total = λ a b d e. o.total a b e d;
  }

  module _ (h : HasCoordinates) (o : IsStrict lt) where
    fold_max-best :
        (a : Axis) (m : Vector) (vs : List Vector)
        → coord a (fold g (lift_max g) m vs) ≡ best lt o (coord a m) (map (coord a) vs)
    fold_max-best a m [] = refl
    fold_max-best a m (v ∷ vs) =
        fold_max-best a (lift_max g m v) vs ∙ ap (λ c. best lt o c (map (coord a) vs)) (lifted a)
      where
        lifted : (a : Axis) → coord a (lift_max g m v) ≡ max_of g (coord a m) (coord a v)
        lifted along_x = h.x-vector _ _ _
        lifted along_y = h.y-vector _ _ _
        lifted along_z = h.z-vector _ _ _

    fold_min-best :
        (a : Axis) (m : Vector) (vs : List Vector)
        → coord a (fold g (lift_min g) m vs)
          ≡ best (λ a b. lt b a) (IsStrict-flip o) (coord a m) (map (coord a) vs)
    fold_min-best a m [] = refl
    fold_min-best a m (v ∷ vs) =
        fold_min-best a (lift_min g m v) vs
        ∙ ap (λ c. best (λ a b. lt b a) (IsStrict-flip o) c (map (coord a) vs)) (lifted a)
      where
        lifted : (a : Axis) → coord a (lift_min g m v) ≡ min_of g (coord a m) (coord a v)
        lifted along_x = h.x-vector _ _ _
        lifted along_y = h.y-vector _ _ _
        lifted along_z = h.z-vector _ _ _

    constant : (a : Axis) (r : Real) → coord a (vector r r r) ≡ r
    constant along_x r = h.x-vector _ _ _
    constant along_y r = h.y-vector _ _ _
    constant along_z r = h.z-vector _ _ _

    max_over-Encloses :
        (a : Axis) (v : Vector) (vs : List Vector)
        → All (IsInRange a) (v ∷ vs)
        → All (λ w. lt (coord a (max_over g (v ∷ vs))) (coord a w) ≡ false) (v ∷ vs)
          × Any (λ w. coord a w ≡ coord a (max_over g (v ∷ vs))) (v ∷ vs)
    unfolding max_over
    max_over-Encloses a v vs f =
        let ws = v ∷ vs in
        let e =
          fold_max-best a (vector (neg max_f) (neg max_f) (neg max_f)) ws
          ∙ ap (λ c. best lt o c (map (coord a) ws)) (constant a (neg max_f)) in
        let (p, q) =
          best_lem lt o (neg max_f) (coord a v) (map (coord a) vs)
            (map-All (coord a) (IsInRange a) (λ b. lt b (neg max_f) ≡ false) ws (λ _ k. k.0) f) in
        subst (λ r. All (λ w. lt r (coord a w) ≡ false) ws × Any (λ w. coord a w ≡ r) ws) (sym e)
          (All-map (coord a) _ ws p, Any-map (coord a) _ ws q)

    min_over-Encloses :
        (a : Axis) (v : Vector) (vs : List Vector)
        → All (IsInRange a) (v ∷ vs)
        → All (λ w. lt (coord a w) (coord a (min_over g (v ∷ vs))) ≡ false) (v ∷ vs)
          × Any (λ w. coord a w ≡ coord a (min_over g (v ∷ vs))) (v ∷ vs)
    unfolding min_over
    min_over-Encloses a v vs f =
        let ws = v ∷ vs in
        let gt : Real → Real → Bool = λ a b. lt b a in
        let e =
          fold_min-best a (vector max_f max_f max_f) ws
          ∙ ap (λ c. best gt (IsStrict-flip o) c (map (coord a) ws)) (constant a max_f) in
        let (p, q) =
          best_lem gt (IsStrict-flip o) max_f (coord a v) (map (coord a) vs)
            (map-All (coord a) (IsInRange a) (λ b. lt max_f b ≡ false) ws (λ _ k. k.1) f) in
        subst (λ r. All (λ w. lt (coord a w) r ≡ false) ws × Any (λ w. coord a w ≡ r) ws) (sym e)
          (All-map (coord a) _ ws p, Any-map (coord a) _ ws q)

  -- For a part with a vertex, whose coordinates on an axis are strictly ordered (no NaN) and from -MAX_F to
  -- MAX_F: along the axis, no vertex is above Max or below Min, and some vertex is at Max and some vertex
  -- at Min.
  pub box_lem :
      (s : SubMesh g) (a : Axis)
      → HasCoordinates
      → IsStrict lt
      → 0 < length s.vertices
      → All (IsInRange a) s.vertices
      → All (λ v. lt (coord a (max g s)) (coord a v) ≡ false) s.vertices
        × All (λ v. lt (coord a v) (coord a (min g s)) ≡ false) s.vertices
        × Any (λ v. coord a v ≡ coord a (max g s)) s.vertices
        × Any (λ v. coord a v ≡ coord a (min g s)) s.vertices
  unfolding max min
  box_lem s a h o l f = boxed s.vertices l f
    where
      boxed :
          (vs : List Vector)
          → 0 < length vs
          → All (IsInRange a) vs
          → All (λ v. lt (coord a (max_over g vs)) (coord a v) ≡ false) vs
            × All (λ v. lt (coord a v) (coord a (min_over g vs)) ≡ false) vs
            × Any (λ v. coord a v ≡ coord a (max_over g vs)) vs
            × Any (λ v. coord a v ≡ coord a (min_over g vs)) vs
      boxed [] l f = absurd (omega arith)
      boxed (v ∷ vs) l f =
          let (p, q) = max_over-Encloses h o a v vs f in
          let (r, t) = min_over-Encloses h o a v vs f in (p, r, q, t)
