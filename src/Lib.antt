-- ===== src/Lib.antt =====
-- DeepForge compiles serialized neural-network graphs for the CPU ahead of time. This library models
-- the parts of it that decide, without MLIR, what compiled code may touch: the element types and
-- operations that it knows, the description of a compiled graph, the plan of the workspace, the
-- binary artifact that stores them with the object code, and the checks that an executable makes before
-- each call.
--
-- The parts, and how they interact:
-- - Base: numbers, lists, texts, sorting and the bit operations on 64-bit words that the others share.
-- - Import.Status (include/DeepForge/Import/Status.h): error codes and the result of an operation; a
--   function that fills an output on success returns it in the result.
-- - Import.DataTypes, Import.OperationTags, Import.Capability (include/DeepForge/Import/SerializedGraph.h,
--   lib/Import/Capability.cpp): the two tables, the look-ups in them, and the byte size of a strided
--   tensor, which the metadata and the executable call.
-- - Import.Graph (include/DeepForge/Import/SerializedGraph.h, lib/Import/SerializedGraphImporter.cpp):
--   the imported graph and validate_graph_references, which runs behind the parsing of the JSON text;
--   of that parsing only the keys of tensors and ports are modelled, in Import.Keys.
-- - Metadata (include/DeepForge/Compiler/GraphMetadata.h, lib/Runtime/GraphMetadata.cpp): the
--   arguments of a compiled graph and the whole of validate_graph_compile_metadata, in Metadata.Shapes,
--   Metadata.Arguments, Metadata.Policies and Metadata.Validation; Metadata.Validity has what it
--   establishes, which Runtime.Ragged.Reads uses.
-- - Workspace (include/DeepForge/Compiler/Bufferization.h, lib/Transforms/WorkspacePlanner.cpp):
--   plan_workspace, with its loops as functions on lists and its scan as a state that each allocation
--   updates.
-- - Runtime (include/DeepForge/Runtime/Executable.h, lib/Runtime/Executable.cpp): the choice of the
--   variant (Runtime.Dispatch), the test on layouts (Runtime.Layout), resolve_overrides
--   (Runtime.Overrides; its children Defaults and Bounds relate it to the validation and to memory),
--   resolve_ragged_size (Runtime.Ragged; its child Agreement compares its reads of two memories), the
--   checks on pointers and the call that follows (Runtime.Execute), and the checks of the factories
--   (Runtime.Creation).
-- - Artifact (include/DeepForge/Compiler/Artifact.h, lib/Compiler/Artifact.cpp): the binary container.
--   Artifact.Bytes writes its words and texts and Artifact.Reader reads them, Artifact.Serialize is
--   serialize_artifact, Artifact.Parse is parse_artifact with the older versions, Artifact.Contract is
--   validate_contract, which both call, and Artifact.Loading makes an executable of what was read
--   through Runtime.Creation. Artifact.Files is write_artifact and read_artifact. The workspace in an
--   artifact comes from the planner, which Artifact.Contract.Planned relates to the contract.
-- - Schedule (include/DeepForge/Compiler/Schedule.h, lib/Compiler/Schedule.cpp): the unroll factor of a
--   direct convolution. Schedule.Cost has its estimates in unbounded arithmetic, Schedule.Best what the
--   loop over the factors keeps, and Schedule.Choice relates the two.
-- - Examples: the definitions run at concrete inputs, and the theorems applied there.
--
-- Numbers. An unsigned 64-bit word is a natural number; the model keeps each test by which the code
-- avoids a wrap-around, and a word that the code casts from a signed value is written out as such. A
-- signed 64-bit integer is an integer. Sizes in size_t and addresses are 64-bit words.
--
-- Fuel. The one loop without a bound in the code is the search for an offset in plan_workspace. Its
-- fuel is the count of the placed allocations and one, since each further round passes the end of an
-- allocation for good.
--
-- Memory is a function from addresses to bytes, read low byte first. Compiled code, the JIT engine and
-- CPUID are not modelled: a call of compiled code is a value that the executable returns, the features
-- of the CPU are an argument, and the engine's error is a function that is given. The engine that
-- links an object file is a function from the object, its name and a symbol to an address or an error,
-- and LLVM's target triple of the host is an argument. The file system is a record of operations on a
-- state of its own; what they promise is a hypothesis of the theorems on files. The mutex around the
-- call, the lowering of graphs to MLIR and the command line tools are not modelled.
pub mod Base
pub mod Import
pub mod Metadata
pub mod Workspace
pub mod Runtime
pub mod Schedule
pub mod Artifact
pub mod Examples
