-- ===== src/MeshManager.antt =====
-- graphics/src/MeshManager.cc: the shapes that the mesh manager builds, and its meshes.
pub mod Strips
pub mod Cones
pub mod Built
pub mod Round
pub mod Conical
pub mod Tubular
pub mod Amounts
pub mod Flat
pub mod Manager
pub mod Polylines
pub mod Shapes
pub mod Cells
mod Tests
