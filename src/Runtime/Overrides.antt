-- ===== src/Runtime/Overrides.antt =====
-- `resolve_overrides` of lib/Runtime/Executable.cpp: the shapes, strides and sizes that a call may
-- give anew for the arguments of a compiled graph.
pub mod Arguments
pub mod Roles
pub mod Resolution
pub mod Bounds
pub mod Defaults
