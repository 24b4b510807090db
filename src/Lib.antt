-- ===== src/Lib.antt =====
-- The runtime of PetaBricks, a language of algorithmic choice, which compiles to C++ programs that
-- run on this runtime: matrices and their regions (src/runtime/matrixregion.h), a matrix
-- distributed in parts (src/runtime/regiondatasplit.cpp), tasks with dependencies
-- (src/runtime/dynamictask.cpp), and the work stealing deques that hold the tasks that are ready
-- (src/common/thedeque.h). Generated code creates tasks, makes them depend on each other and
-- enqueues them; a task that is ready goes to the deque of the thread that made it ready, from
-- which its thread pops and others steal; and tasks read and write regions.
--
-- Base: numbers, lists and integers that the rest shares.
-- Deque: `THEDeque`, one call at a time (`push_top`, `pop_top`, `pop_bottom`); Deque.Interleaving
--   is the same code one memory access at a time, by the owner and a thief, under sequential
--   consistency, which the fences of the source ask for. Only the thief that has the lock moves.
-- Matrix: `MatrixRegion`. A region is a record of storage, base, sizes and multipliers, the
--   dimension is the length of the lists. Matrix.Coord is `incCoord` and `incCoordWithBound`,
--   Matrix.Layout `coordToPtr` and the stock layouts, Matrix.Loop the do-while loop over a region,
--   Matrix.Views sub-regions, slices and transposes, Matrix.Copy `_regioncopy` and `copyTo`, and
--   `to_c_array` and `from_c_array` of src/runtime/petabricks.h.
-- Split: `RegionDataSplit`: the parts, their sizes, which part holds a cell, and the walk over
--   parts.
-- Worker: `WorkerThread` of src/runtime/workerthread.h: what a worker holds (the task on deck, its
--   deque and its inject queue, which is Deque.Locking) and how it gives and takes;
--   Worker.Random is `threadRandInt` of src/runtime/workerthread.cpp on 32-bit words.
-- Pool: `WorkerThreadPool` of src/runtime/workerthread.cpp, each call as one step. 512 is the
--   MAX_NUM_WORKERS of configure.ac.
-- RegionMatrix: `RegionMatrix` of src/runtime/regionmatrix.h, a view of distributed data, with what
--   it sends to other processes (RegionMatrix.Serial) and its view of data that is here.
-- RegionData: where such data is: `RegionDataRaw` of src/runtime/regiondataraw.cpp;
--   RegionData.Remote is the copies from and to data that another process has, of
--   src/runtime/regiondataremote.cpp, where a message is a call of the other process's handler,
--   and a local array that is read past its end is a failure;
--   RegionData.Cache is src/runtime/regiondataremotecache.cpp.
-- Memo: `MemoizationSite` of src/runtime/memoization.h, and `MatrixStorageInfo` of
--   src/runtime/matrixstorage.cpp as it compares matrices; the hash of data is a
--   parameter, and a double is NaN or known by its value.
-- Placement: where `RegionHandler::allocData` of src/runtime/regionhandler.cpp puts the parts of a
--   matrix; the random number of allocDataOneRemoteNode is a parameter.
-- Direction: the directions in which a rule depends on its matrices, of
--   src/compiler/matrixdependency.cpp, and the order that src/compiler/iterationorders.cpp gives the
--   parts of an iteration.
-- RuleIr: the body of a rule, as src/compiler/ruleir.h has it, and RuleIr.Meaning, what it does;
--   RuleIr.Expand is the braces that ExpansionPass of src/compiler/rircompilerpass.cpp puts in, and
--   RuleIr.Body its DynamicBodyPrintPass, which makes functions of a body, one for each place at
--   which it can wait. The C++ text of statements and expressions is a parameter.
-- ChoiceGrid: the division of a matrix by the regions of the rules, src/compiler/choicegrid.cpp, with
--   the order of rules of src/compiler/rule.cpp. ChoiceGrid.Locate finds the element that holds a
--   point, and ChoiceGrid.Active says which rules are active at a position. Maxima is a parameter,
--   which compares positions by their values; priorities are not negative.
-- Task: `DynamicTask`: `dependsOn`, `enqueue`, `decrementPredecessors`, `runWrapper` and
--   `completeTaskDeps`. Task.Step puts them together as the steps of threads in any order;
--   Task.Turns and Task.Progress are for what becomes of tasks that have been enqueued. That `run()`
--   returns is taken for granted; a thread that aborts may cancel any ready task.
--
-- Bounds: `long`, `ssize_t` and IndexT are natural numbers and do not wrap; differences that the
-- source takes are of ordered numbers. Loops over a region take fuel, and as much as there are
-- cells is enough (Matrix.Loop). `getRandom` takes the random numbers that it is
-- given, ints of 32 bits, and may come to a negative index. `depends_on` takes fuel for the chain of continuations.
--
-- Not modelled: weak memory order, the reference counts, sockets and the threads that serve
-- them, data whose parts are on several hosts while it is copied, the OpenCL
-- tasks, the allocator, and what else the compiler does (src/compiler).
pub mod Base
pub mod ChoiceGrid
pub mod Deque
pub mod Direction
pub mod Matrix
pub mod Memo
pub mod Placement
pub mod Pool
pub mod RegionData
pub mod RegionMatrix
pub mod RuleIr
pub mod Split
pub mod Task
pub mod Worker
