-- ===== src/Lib.antt =====
-- Robust, an extension of DuckDB that filters the tables of a join query by bloom filters before
-- the joins run. The optimizer reads the join graph of a plan, grows a join tree over it and puts
-- CREATE_FILTER and PROBE_FILTER operators into the plan; the physical operators build the filters,
-- push dynamic filters into the scans and cut down the chunks that they probe.
--
-- Column: the types that the parts share, of src/optimizer/graph_manager.hpp (ColumnBinding,
-- JoinEdge, FilterOperation).
-- Engine: what the operators take from DuckDB as a parameter, with the documented laws: values and
-- their order, the comparison of cells by C++, which a NaN fails, hashes, the native bloom filter,
-- the chunks of a collection. NULL is none.
-- Physical: the operators of src/operators/physical_create_filter.cpp and
-- src/operators/physical_probe_filter.cpp with src/bloom_filter.cpp and
-- src/include/probe_empty_registry.hpp. Bloom is PTBloomFilter; MinMax and Distinct are what Sink
-- tracks for each build column; Registry holds the shared flags; CreateFilter is Sink, Combine and
-- Finalize, each taking and returning the operator and its states; its Pushdown is
-- PushDynamicFilters; Source is GetGlobalSourceState and GetDataInternal; Probe is ExecuteInternal,
-- with Probe.Keep on the filters of a build.
-- The module Plan has logical plans as the optimizer sees them, as two mutual data types, and the
-- plan without the operators of the extension.
-- Table: TableManager of src/optimizer/table_manager.cpp.
-- Optimizer: passes of src/optimizer/robust_optimizer.cpp. Extract is ExtractOperators,
-- ResolveColumnBinding and CreateJoinEdges; SpanningTree is LargestRoot and Tree is
-- BuildRootedTree; Stack is BuildStackedBFOperators and ApplyStageModifications; Lift is
-- LiftCreateFilterAboveMarkJoin and LiftCreateFilterAboveFilter. UnionFind is UFFind and UFUnion;
-- Dag is PhysicalDAGDFS, with Levels for BuildPhysicalPlanDAG, Links for what it builds, and Flip
-- for FlipRootsToLeaves; a pointer to a node is its position. Operations has the maps of filter
-- operations, and Generate is GenerateStageModificationsFromDAG, with std::sort as a parameter.
-- Walk is the stack of operators that the last two passes use, Link is
-- LinkProbeFilterToCreateFilter and Pushdown is SetupDynamicFilterPushdown; a pointer to an
-- operator is its position in the walk, and what DuckDB knows of a scan is a parameter.
-- Logical: CreatePlan of src/operators/logical_create_filter.cpp and
-- src/operators/logical_probe_filter.cpp, and the whole life of a planned CREATE_FILTER.
-- Profiling: what the operators register with src/include/robust_profiling.hpp.
-- Tests: an example of each result.
--
-- A read out of bounds or of a pointer that was moved from, an exception of DuckDB and fuel that is
-- used up are none. Sizes are natural numbers; where the source multiplies 64-bit sizes or cuts an
-- estimate to 32 bits, the wrap-around is written out. ResolveColumnBinding has two rounds more
-- than there are renames, LargestRoot one more than there are tables, a draining thread one call
-- more than there are chunks, a find one round more than there are keys, and the search of
-- BuildRootedTree one round more than there are nodes, a walk over a plan as many rounds as there
-- are operators, the loop of the levels one sweep more than the square of the number of nodes; the
-- results say that this is enough. The rounds of FlipRootsToLeaves are a parameter, since there are
-- graphs on which no number is enough. Calls of different threads are sequences of calls with a
-- local state for each thread, and other operators may change the shared flags between any two
-- calls; a call itself is taken as atomic.
--
-- Not modelled: GenerateStageModifications, which generates the stages of the rooted tree, and the
-- driver Optimize; the construction of pipelines, which is DuckDB's scheduling; the timers of the
-- profiling, printing and the registration of the extension, which no result depends on.
mod Prelude
pub mod Column
pub mod Logical
pub mod Engine
pub mod Physical
pub mod Plan
pub mod Table
pub mod Optimizer
pub mod Profiling
mod Tests
