-- ===== src/Lib.antt =====
-- CRSCE compresses a file in blocks of 127 by 127 bits. A block is stored as the sums of its
-- rows, columns, diagonals, anti-diagonals and of the lines of two pseudorandom partitions (LTP1
-- and LTP2), with a checksum for every row and a hash of the whole. The decompressor finds the
-- bits again: it builds a constraint store from the sums, propagates what the sums force, and
-- searches with undo for a matrix whose rows have the checksums.
--
-- Parts. Prelude and Bits are shared: lists and arrays over native numbers, and single bits, or,
-- xor and and of words. Lines is the geometry of the 1014 lines
-- (include/decompress/Solvers/LineID.h, ForEachCellOnLine.h, the numbering in ConstraintStore.h).
-- Store is ConstraintStore (src/Decompress/Solvers/ConstraintStore_*.cpp): the state of every
-- cell, three counts for every line, and two packed copies of the rows; assign and unassign are
-- assign() and unassign(). Queued and Propagation are PropagationEngine: the bitset of queued
-- lines, the work list, propagate() and tryPropagateCell(). Branching is BranchingController: the
-- undo stack and the scan for the next cell. Stall is StallDetector and Reasons is ReasonGraph,
-- the search's probe depth and its table of reasons. Prober is FailedLiteralProber, which
-- assigns, propagates, checks rows and undoes. Search is enumerateSolutionsLex() of
-- EnumerationController (src/Decompress/Solvers/EnumerationController_enumerateSolutionsLex.cpp):
-- the initial propagation and the depth-first search with its own stack of frames. Csm is the
-- matrix (src/common/Csm), CrossSum the accumulation of its sums (src/common/CrossSum,
-- src/Compress/Compressor/Compressor_computeCrossSums.cpp). Payload and Header are the file
-- format (src/common/Format/CompressedPayload), Crc the checksums (include/common/Util). Block
-- follows one block from the compressor's sums to the decompressor's first propagation. LtpTable
-- is src/Decompress/Solvers/LtpTable.cpp: the builder from two seeds, the builder from a file,
-- and the choice between them. RowHash is the checksum of a row (src/common/LateralHash), the
-- verifier Sha1HashVerifier that the solver asks, and the two loops that fill a block's checksums
-- and the verifier. Driver is compress() and decompress() on whole files
-- (src/Compress/Compressor/Compressor_compress.cpp,
-- src/Decompress/Decompressor/Decompressor_decompress.cpp). Pipeline is AsyncHashPipeline: the
-- thread that verifies what the search submits. Tests has data and an application of every
-- theorem.
--
-- State. A C++ object is a record and a call that changes it is a function to the new record; the
-- store that engine, brancher and prober share by reference is one field of the engine, which
-- they pass on. A 16-bit or 64-bit step keeps its wrap-around. Arrays are functions from an
-- index, and what the source does out of range is written out where it checks. An exception is
-- none or a constructor of a result type. The two threads of Pipeline are a relation between
-- states, with one step for what a thread does under one lock.
--
-- Interfaces. The solver uses the lookup table of LtpTable.h through the record Ltp, which has
-- its functions, and the record IsLtp, which has the laws that its clients use (a cell stands on
-- a line as often as the line is among the cell's members, a line has 127 cells in the matrix,
-- members are lines of LTP1 and LTP2); LtpTable fills both. IHashVerifier is a function given to
-- the prober and to the pipeline. Driver takes the two searches, the compressor's for the index
-- of a block and the decompressor's for its matrix, as functions, and what they have to do as the
-- hypothesis Inverts. The environment variables and the file that LtpTable reads are arguments.
--
-- Fuel. propagate runs on fuel, one unit for each line taken off the work list. A forced cell
-- puts at most ten lines on it, and a cell is forced once; so the length of the queue and ten
-- times the number of unassigned cells is enough, as propagate_total shows. The prober needs ten
-- more, for the lines of its cell. The search runs on fuel of its own, one unit for each round of
-- its loop. A frame whose cell is one of k unassigned cells takes at most cost 2 k rounds
-- (Search.Cost), so cost 2 16129 is enough, whatever propagation forces.
--
-- Not modelled: the row-decomposed controller and the callback variant of the enumeration,
-- conflict analysis, the completion of rows, the experimental solvers, the heuristics in floating
-- point, the GPU engine, the reading and writing of files, logging and the command line.
pub mod Prelude
pub mod Bits
pub mod Lines
pub mod LtpTable
pub mod Csm
pub mod CrossSum
pub mod Store
pub mod Queued
pub mod Crc
pub mod Header
pub mod Payload
pub mod Propagation
pub mod Branching
pub mod Prober
pub mod Stall
pub mod Reasons
pub mod RowHash
pub mod Pipeline
pub mod Search
pub mod Driver
pub mod Block
mod Tests
