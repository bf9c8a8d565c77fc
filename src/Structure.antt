-- ===== src/Structure.antt =====
-- execution/module_structure.py: the module graph that imports make, and the order of layers.
pub mod Renamed
pub mod Layers
