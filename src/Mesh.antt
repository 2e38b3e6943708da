-- ===== src/Mesh.antt =====
-- graphics/src/SubMesh.cc and graphics/src/Mesh.cc: meshes.
pub mod SubMesh
pub mod Shape
pub mod Whole
pub mod Lists
pub mod Normals
pub mod Arrays
pub mod Extremes
pub mod Box
pub mod Grid
mod Tests
