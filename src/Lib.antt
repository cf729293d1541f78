-- ===== src/Lib.antt =====
-- SIDLE keeps the nodes of a tree index in local memory or on a CXL device, and moves them between
-- the two by how often their leaves are read.
--
-- The parts, from the bottom up:
-- * The CXL allocator (third_party/cxl_utils/cxl_allocator.c) maps the device, shares requests between
--   the device and local memory by stride scheduling, and routes frees to the heap that owns the
--   pointer. Cxl/Stride has `gcd` and `stride_scheduler`, Cxl/Init `cxl_init`, Cxl/Alloc the
--   allocating functions, Cxl/Map `mmap_with_cxl` and `mmap_on_cxl`.
-- * The policy (third_party/sidle_utils/sidle_policy.hh) decides where a new node goes, from its
--   parent's place and its depth (Threshold, Strategy), keeps account of the local memory in use,
--   and holds the watermarks of hot and cold leaves. sidle_frontend.hh allocates and frees nodes
--   under the policy (`sidle_alloc` and `sidle_free` in Strategy).
-- * The histogram (third_party/sidle_utils/sidle_worker.hh) counts leaves by the logarithm of their
--   accesses and derives from the watermarks which leaves are hot and cold (Histogram).
-- * The migration queue (third_party/sidle_utils/sidle_meta.hh) hands nodes from the migration
--   trigger to the promotion and demotion executors (Queue); the workers share the flags of
--   sidle_struct.hh (Flags), which the policy reads and sets too.
-- * The workers (third_party/sidle_utils/sidle_worker.hh): the trigger classes each leaf and queues the
--   ones that should move, the cooler halves the access counts, and the threshold adjuster reacts to
--   the memory usage (Workers). What the others do while a worker waits is a function `await`. The
--   executors move a leaf and the nodes above it, as far as the policy asks for (Executor), and
--   the promotion executor works off its queue (Executor/Promotion).
-- * The adaptive radix tree (third_party/art) keeps the state of a node in one 64-bit version word,
--   which is also its lock (Art/Version). A node has one of four layouts for its children (Art/Node),
--   from which it grows into the next (Art/Grow), and a prefix that its keys share (Art/Prefix).
--   Art/Leaf has the leaves, the sizes of the nodes and the walk over a node's children, Art/Tree the
--   search through nodes in memory, Art/Tree/Put the insertion of a key with Art/Tree/Split its step at
--   a leaf, and Art/Tree/Invariant what makes the nodes a tree. Get and put run in one thread that no
--   other disturbs; a wait that only another thread could end is a result of its own.
-- * The helpers (src/helper.h, src/helper.cpp): the extremes of a vector (Helper/Stats), the cores
--   that threads are bound to (Helper/Cores), the callback of a range scan (Helper/RangeScan), and the
--   clock and the printing of matrices (Helper/Output).
-- * The key-value wrappers (src/kv/art_wrapper.h, src/kv/masstree.h), through which the benchmarks use
--   the trees: `ARTKV` (Kv/Art) and `MasstreeKV` (Kv/Masstree). Both start the background workers in
--   threads of their own and stop them (Kv/Background, Kv/Lifecycle), and write the accesses of each
--   page at their end (Kv/Hotness). Kv/Trees says what they call of the two trees, Kv/Format what they
--   ask of keys and values, and Kv/Key has the key of benchmark/synthetic/micro_base.h.
--
-- A definition has the name of the C or C++ function that it stands for, and a record the names of
-- the fields, without a trailing underscore. A `uint8_t`, `uint16_t`, `uint64_t` or `size_t` is a
-- natural number with the wrap-around written out; signed numbers are integers of Base/Int. State is
-- passed and returned explicitly. The files below a component hold its theorems, and Tests applies
-- each of them at concrete inputs.
--
-- Bounds and fuel: `gcd` runs on one round more than the size of `b`, which Cxl/Stride/Gcd shows to be enough; the loops
-- of the histogram and of the nodes have the rounds of the code. A migration climbs on fuel for the
-- height of the tree, enough where each node has a rank below it that falls on the way up (Executor/Laws), and a round of the promotion executor on more fuel than
-- there are candidates (Executor/Promotion/Laws); a search goes down the radix tree on more fuel than
-- the length of a key (Art/Tree/Get), and so does an insertion (Art/Tree/Path). The other functions are total.
--
-- Parameters: memkind, malloc and the operating system (Cxl), moodycamel's queue (Queue), and the
-- arithmetic of `double` (Threshold, Helper/Stats). The trees are parameters of the wrappers
-- (Kv/Trees) and of the executors: the radix tree because the workers' walks over its nodes are not modelled,
-- Masstree because it is a copied library. Tests/Tables has a concrete table that keeps the laws of
-- Masstree's; of the radix tree the wrapper's calls are modelled, and nothing is assumed of it. A row's `snapshot` and the casts
-- between values and bytes are parameters too. That a round of a worker ends is assumed (Kv/Background).
--
-- Not modelled: the timing of the workers, the loops of the demotion executor, the workers'
-- walks over the nodes of the radix tree and the migration of nodes, a get or a put of the radix tree
-- that other threads disturb, Masstree, which is a copied library, the file that the
-- destructors of the wrappers write, and the benchmarks but for their key.
pub mod Art
pub mod Base
pub mod Cxl
pub mod Executor
pub mod Flags
pub mod Helper
pub mod Histogram
pub mod Kv
pub mod Meta
pub mod Queue
pub mod Strategy
pub mod Tests
pub mod Threshold
pub mod Workers
