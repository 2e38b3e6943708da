-- ===== src/Lib.antt =====
-- Ignition Common in antt: the algorithms and data structures of the core, events and graphics
-- libraries, with the theorems that make them correct.
--
-- The program is a set of libraries that other robotics programs link. The core (src/, with its
-- headers in include/ignition/common/) has texts, addresses, times, a pool of worker threads and
-- filters; events/ has the signals that subscribers connect to; graphics/, av/ and profiler/ are
-- libraries of meshes, media and profiling that use the core. The parts here meet in few places: URI
-- calls split, trimmed and replaceAll of Util, SystemPaths calls Split of StringUtils, the pool takes
-- its timeout as a Time, and a Connection calls back into the event that made it.
--
-- The files and the code that they model:
--   * Common and its children: Boolean tests on numbers (Tests), lists (Lists), signed integers (Int),
--     tables that are checked entry by entry (Tables), std::map as a sorted list of keys and values
--     (OrdMap), lists of distinct numbers (Distinct), std::string as a list of character codes (Text).
--     npos is `none`.
--   * StringUtils: src/StringUtils.cc. Split is the loop over find and substr, StartsWith and EndsWith
--     are their comparisons. Pieces has split, Affixes the other two.
--   * Util: the texts of src/Util.cc, which are split (by strtok_r), ltrimmed, rtrimmed, trimmed,
--     lowercase and replaceAll. Splitting says what the pieces of any text are, Words what they are
--     for words that a delimiter joins, Trimming and Replacing are about the functions of those names.
--     Sha1 has the class Sha1 and sha1; Feed and Digest compare it with the hash block by block.
--   * Base64: src/Base64.cc. encode and decode keep the masks and shifts and the narrowing to a byte.
--     RoundTrip compares them with the encoding in plain arithmetic.
--   * Time: include/ignition/common/Time.hh and src/Time.cc. Correct, Set, the sums, differences and
--     comparisons on a record of two integers; an overflow of int32_t is `none`. Total has Correct on
--     all times in range, Canonical the normalised ones.
--   * Event: events/include/ignition/common/Event.hh and events/src/Event.cc. EventT has its map of
--     subscribers and its queue of removals; Signal takes the callbacks as a function that can change
--     the event while the loop runs over it. Erasing twice is `none`. Invariant has well-formedness,
--     Connections the operations, Signals the notification.
--   * WorkerPool: src/WorkerPool.cc. A step relation: each step is one critical section, or one call of
--     a work function or callback, of one worker, of the caller of WaitForResults, of AddWork or of the
--     destructor. The condition variable of the caller is a state (asleep, notified), with spurious
--     wake-ups. Orders has the invariant, Waiting what a return of WaitForResults says.
--   * MovingWindowFilter: include/ignition/common/MovingWindowFilter.hh. The circular buffer with its
--     iterator as a position, over any type with a sum and a difference. Window has the invariant,
--     Runs compares a sequence of updates with a plain list of the last values, and Sums has the values
--     with exact sums.
--   * Battery: src/Battery.cc. The consumers are a map from ids, the ids come from a counter of 32 bits,
--     and the voltages are an abstract type. Consumers has what each operation does.
--   * SystemPaths: src/SystemPaths.cc. The lists of file and plugin paths and the names of libraries,
--     with the environment and the file system as parameters. Lists has their invariant.
--   * Uri: src/URI.cc. Authority, Path, Query and Fragment have a record, Str, Valid, Parse, Clear and
--     the assignments each; Whole cuts an address and puts it together. Chars has the searches that
--     check characters. A call that throws or reads out of bounds is `none`: substr past the end,
--     back() of an empty text, and the end of an authority that was not found.
--   * Skeleton: graphics/src/SkeletonNode.cc and graphics/src/Skeleton.cc. Node has the nodes in a store
--     of addresses: a use of a null or dangling pointer is `none`. Whole has the skeleton. Walk relates
--     the walk over to_visit to the preorder of a tree, Writes has the cells of the store, Handles is about
--     BuildNodeMap, Transforms about UpdateChildrenTransforms. Matrices are a parameter.
--   * Animation: graphics/src/Animation.cc and graphics/src/KeyFrame.cc. The key frames of an animation, its
--     time, KeyFramesAtTime and the numeric interpolation; Frames has their order. The arithmetic of
--     double is a parameter.
--   * Mesh: graphics/src/SubMesh.cc (SubMesh for its data, Shape for its arrays, normals, moves and
--     volume) and graphics/src/Mesh.cc (Whole). Numbers and vectors of space are a parameter, a read out
--     of bounds is `none`. Normals is about RecalculateNormals, Arrays about FillArrays, Box about Max
--     and Min; Lists and Extremes have the lists under their loops.
--   * MeshManager: graphics/src/MeshManager.cc. Strips has the sphere and the cylinder, Cones the cone and
--     the tube, Flat the box, the camera and the plane, Manager the meshes by their names, the Create
--     functions and Load, Polylines the points and edges of polylines. The arithmetic of float is a
--     parameter, besides that of double. Built has what the loops keep, and Round, Conical, Tubular,
--     Cells and Shapes use it for the single shapes; Amounts counts the indices of the tube.
--   * The Tests modules run the definitions and apply the theorems at concrete values.
--
-- Bounds and fuel: Split and split get the length of their text as fuel, since each round takes a
-- character, and replaceAll that length and one, since each round leaves less text behind its
-- position. The loop of Signal gets its fuel as an argument: a number above that of the connections is
-- meant, for callbacks that connect nothing. The walks over a skeleton get theirs as an argument too:
-- one more than the nodes is enough, since each round takes a node. to_string has the number itself as fuel. Sizes and positions of
-- texts are natural numbers: no text is as long as 2^64. int32_t of Time, the ids of Event and the
-- port of an authority have their bounds written out. So have the counters of Decode, an overflow of
-- which is `none`, and the samples of the window, which wrap around. FillArrays is `none` when the parts
-- do not fit into the arrays whose sizes wrap around; CreateTube and Tesselate2DMesh are `none` when an
-- int product overflows. The vectors of a part have fewer than 2^32 entries.
--
-- Not modelled: the conversions of Time through double, and its clocks; the parts of Util that ask the
-- operating system; the warnings and streams; FindFile, FindFileURI and the callbacks of
-- SystemPaths; Filesystem, EnumIface, the plugins, the console and the signal handlers; of graphics/ the
-- pose and skeleton animations and trajectories, AddBvhAnimation and PrintTransforms of the skeleton, the materials, the images, the
-- extruded and Boolean meshes of the mesh manager and the file formats; av/ and profiler/; the copies of other projects (tinyxml2, tinyobjloader, Remotery, googletest).
pub mod Common
pub mod StringUtils
pub mod Time
pub mod Base64
pub mod Event
pub mod WorkerPool
pub mod MovingWindowFilter
pub mod Util
pub mod Uri
pub mod Battery
pub mod SystemPaths
pub mod Skeleton
pub mod Animation
pub mod Mesh
pub mod MeshManager
