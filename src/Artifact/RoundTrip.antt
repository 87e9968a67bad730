-- ===== src/Artifact/RoundTrip.antt =====
-- lib/Compiler/Artifact.cpp: what `serialize_artifact` writes, `parse_artifact` reads. The modules
-- follow the sections of the format.
pub mod Words
pub mod Preamble
pub mod Arguments
pub mod Invocation
pub mod Workspace
pub mod Variants
pub mod Limits
pub mod Framing
pub mod Whole
