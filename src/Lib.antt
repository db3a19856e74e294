-- ===== src/Lib.antt =====
-- The verification library of fcom, a file manager for the command line.
--
-- fcom is a core, which gives operations a buffered file object and their input files, and
-- modules of operations on top of it. The parts below are modelled here; paths are from the root of
-- the repository.
--
-- * FileBuf.antt is src/core/fbuf.h: `struct fbuf`, a window of a file in memory (`FileBuf`), and
--   `struct fbufset`, the read cache (`BufSet`). `write` is `fbuf_write`, `find`, `nextbuf` and
--   `reset` are the `fbufset_` functions. A buffer's bytes are a `Memory`, a function from offsets
--   to bytes, so that bytes past `len` that nothing has set are there, as in the program.
--   FileBuf/Write.antt is about writes, FileBuf/Cache.antt about the set.
-- * File.antt is src/core/file.c: `struct file` (`File`), `fw_cache`, `fw_write`, `f_write`,
--   `file_write`, `file_flush`, `file_trunc`, `file_read`, `prealloc_trunc`, `file_close` and what
--   `file_open` resets. What the program takes from the system and from ffbase is the record
--   `Platform` of Os.antt, and what they document are `Posix`, `WritesAll` and `PosixRead`.
--   File/Kernel.antt is about one write to the kernel,
--   File/Flush.antt, File/Write.antt and File/Read.antt about the operations, File/History.antt
--   about a file between open and close, File/Close.antt about its end, File/Leftover.antt about
--   an end that fails. They use FileBuf as the program does: a file writes through one `fbuf` and
--   reads through one `fbufset`.
-- * TextCount.antt is src/text/textcount.c: `txcnt_analyze`, `txcnt_add` and the state machine of
--   `txcnt_run` where all files can be read. TextCount/Reference.antt has the description of the
--   statistics it is held against, TextCount/Summary.antt is about the totals.
-- * Sync.antt is the comparison of directories of src/fs/sync-cmp.h: `data_cmp`, `status_swap`.
--   Sync/Diff.antt is `next` with its table of moved files, Sync/Counts.antt and
--   Sync/Invariant.antt are about its statistics, Sync/Dups.antt is the search for duplicates,
--   Sync/View.antt is `sync_view` and `sync_info`, what is shown of a comparison.
--   The trees, the order of names and times, and the content of files are parameters.
--   Sync/Apply.antt is what is then done, src/fs/sync-fsync.h with the state I_SYNC of
--   src/fs/sync.cpp, over the operations `copy` and `trash` as a `World`; Sync/Apply/Wish.antt says
--   what an entry asks for, in names below the two roots, Sync/Apply/Names.antt is about the names
--   that the code makes, Sync/Apply/Converge.antt about all entries, Sync/Apply/Doubles.antt about
--   the second entry of a moved file.
-- * Snapshot.antt is a snapshot of a file tree: src/fs/sync-wsnap.h, and of src/fs/sync-scan.h and
--   src/fs/sync.cpp what feeds it, in Snapshot/Write.antt; the values of entries as
--   src/fs/sync-rsnap.h reads them in Snapshot/Read.antt. The walk over the tree is the list of its
--   visits, and numbers and times are printed and read by ffbase, the record `Formats`.
--   Snapshot/Branches.antt has the text that a walk should give, Snapshot/Emission.antt what a call
--   of the writer writes, Snapshot/Text.antt and Snapshot/Failures.antt are about whole walks,
--   Snapshot/RoundTrip.antt about values written and read.
-- * PixelConv.antt is src/util/pixel-conv.h, the conversion of lines of pixels. The table of
--   formats and what each means are in PixelConv/Channels.antt, conversions one after another in
--   PixelConv/Chains.antt.
-- * Stream.antt is src/util/stream.h, the buffer that gathers pieces of input into one region.
--   Stream/Room.antt is about the regions, Stream/Gather.antt and Stream/Refs.antt about the
--   operations as those of a stream of bytes, Stream/Growth.antt about a larger buffer.
-- * Html.antt is src/util/html.h, the reader of HTML as a machine of its states. Html/Text.antt is
--   about text, Html/Values.antt about values of attributes, Html/Ends.antt about its end.
-- * Copy.antt is the operation `copy` of src/fs/copy.c, over Services.antt, the record of what it
--   takes from the core and from other modules. `ReadsWrites` is the case that the theorems on the
--   data are about: file objects that never answer FCOM_FILE_ASYNC and do not fake their writes;
--   `Hashes` and `Truncates` are what the hashes and the opening of a file are documented to do. Copy/Output.antt is src/fs/copy-output.h, Copy/Verify.antt
--   src/fs/copy-verify.h, Copy/Crypt.antt src/fs/copy-crypt.h; Copy/Run.antt is `copy_run`, a round
--   of its loop by the case of its switch. Copy/Reach.antt says what a run comes to, Copy/Progress.antt
--   what is copied so far, Copy/Rounds.antt is about single rounds, Copy/Data.antt,
--   Copy/Check.antt and Copy/Whole.antt are about the data and its verification, Copy/Codes.antt
--   about the exit code, Copy/Overwrite.antt and Copy/Names.antt about the target.
-- * Input.antt is what src/core/com.c does for input names: the arguments that give them and
--   `cmd_input_allowed`, with Input/Filter.antt about it. Input/Next.antt is `cmd_input_next`, with
--   `input_names_read` and `cmd_input_dir`, over the tree of names of ffbase as the record `Tree`.
--   Input/Walk.antt is about all names that an operation gets, Input/Lists.antt about a list of
--   names, Input/Start.antt about the first call.
-- * TaskQueue.antt is src/util/taskqueue.h, of which the tasks' handlers are parameters.
--   TaskQueue/Order.antt is about the tasks that a run calls, TaskQueue/Linked.antt about their links.
--
-- Prelude.antt passes on the names that are shared; Prelude/Memory.antt has memory and what a
-- copy to it does, Prelude/Slices.antt its slices, Prelude/Mask.antt remainders by powers of two.
--
-- Numbers are natural; the sums that the program makes in 64-bit or 32-bit words have their
-- wrap-around written out where it can be reached, and the theorems on files suppose offsets
-- below 2^64, those on writes below 2^63, since `fbuf_write` returns an offset as a signed number.
-- An offset of -1 is `none`.
--
-- Loops are on fuel: `file_flush` has one round more than there are bytes, since a write that does
-- not fail takes one at least; `file_write` has six, since it caches and writes by turns and the
-- cache is asked three times at most; `txcnt_analyze` has one more than there are bytes, since a
-- round takes a line feed; the reader of HTML has four rounds for a byte; the copy has two rounds for
-- a byte of a file, one to read and one to write it, and one to read it back; the writer of
-- snapshots has five rounds for a visit, since each but the last clears one of four flags; a list of
-- names has one for each byte, since a line takes one at least. The theorems say that each of these
-- is enough.
--
-- Not modelled: names, times and attributes in the file object, the zeros that a direct write puts
-- into the memory after its data, statistics of time, log messages, the
-- Windows branches; of snapshots the archives that are shown as directories, and the reading of
-- branches; the display and the options of the synchronization; the table of options and the start
-- of operations; the other operations, of which most are glue of libraries that are not in the
-- repository to files; copies of other projects.
pub mod Copy
pub mod File
pub mod FileBuf
pub mod Html
pub mod Input
pub mod Os
pub mod PixelConv
pub mod Prelude
pub mod Services
pub mod Snapshot
pub mod Stream
pub mod Sync
pub mod TaskQueue
pub mod TextCount
