-- ===== src/MeshManager/Cells.antt =====
-- The indices of the plane and the box of graphics/src/MeshManager.cc.
use ign_common.Common.{ℕ, Bool, if◌then◌else◌}
use ign_common.Mesh.SubMesh.{SubMesh}

-- The number of sides.
abbrev pub sides : Bool → ℕ
sides double_sided = if double_sided then 2 else 1
