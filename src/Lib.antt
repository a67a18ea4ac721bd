-- ===== src/Lib.antt =====
-- A model of the core of nextufs, a tool for NEXTSTEP and OPENSTEP file systems in disk images.
--
-- The program reads and changes a file system of the UFS family in an image file, offline. Below
-- everything stands a backend with the operations `read`, `write` and `fsync` on byte ranges;
-- `nextufs__read_exact` and `nextufs__write_exact` guard it. On top of these stand the fields of the
-- disk format (big-endian numbers, superblock, inodes, directory records, cylinder groups), then the
-- allocator, which keeps the bit maps and the counts of each cylinder group, then the storage of
-- files and the changes to directories. The checker (fsck) has its own code for the maps.
--
-- Files and the code they model:
--   Base         64-bit, 32-bit, 16-bit and 8-bit wrap-around, tests and shared lemmas
--   Memory       buffers and their big-endian fields (src/core/layout.c, `nextufs__read_be32` and
--                its kin); a buffer is a function from offsets to bytes
--   Io           `nextufs__read_exact`, `nextufs__write_exact`, `nextufs__image_fsync`,
--                `nextufs_image_pread` and `nextufs_image_pwrite`; the error codes
--   Fd           the loops over `pread` and `pwrite` of src/core/layout.c
--   Vdi          the raw and the VDI backend of src/core/image.c: the block map, the allocation of
--                blocks, and the parent of a differencing image
--   Label        src/core/label.c: Decode for the reading of a label, Build for the label that is
--                written, Patch for the scans over all copies
--   Text         C strings
--   Superblock, Inode
--                `decode_superblock`, `decode_inode` of src/core/image.c and the encoding in
--                `nextufs__write_inode_raw` of src/core/layout.c
--   Layout       addresses, directory records and the summary counts of src/core/layout.c
--   Bitmap, Cg   the loops over bits, the fields, the table of run lengths and the rotation tables
--                of a cylinder group (src/core/alloc.c)
--   Alloc        the allocator (src/core/alloc.c): InodeGroup for inodes, Fragments for the
--                allocation of fragments, Runs for extension, release and reallocation, Indirect
--                for indirect blocks, Storage for the storage of a whole file
--   File         the reading of file data (src/core/image.c); Symlink for links kept in the inode
--                (also src/mutate/dir_mutate.c)
--   Directory, Dirent, Mutate
--                src/core/directory.c and src/mutate/dir_mutate.c; Mutate.Erased and Mutate.Empty for
--                the record that a removal erases and for directories that hold no other names
--   Path         src/core/path.c, and `nextufs_inode_readlink` of src/core/image.c; Split for
--                `nextufs__path_split` of src/core/layout.c
--   Access       the check of access and the numbers of statvfs, src/core/node.c
--   Operations   src/mutate/mutate.c, the operations on paths: Create and Contents for files, links,
--                devices and directories and what is written to files, Remove, Rename and Attributes
--                for the rest, Inodes for what they share; Guards, Naming, Writing, Removal, Moving,
--                Owners, Effects and Stored for what holds where they succeed, Climb and Termination for the climb
--                along ".." records
--   Size         src/core/size.c
--   Resize       src/commands/resize.c: the geometry and the free fragments of a group, Groups for
--                the groups that are expanded and built, Evacuate for the data that is moved, Grow
--                for the target and what is written for it, Command for the order of the steps, Whole
--                for the blocks that become whole
--   Fsck         src/fsck/frag_support.c
--   Examples     a small image, runs of the operations on it, and the results at concrete inputs
--
-- State. The backend is a parameter: its operations act on a state of any type `W`, and `Image W`
-- holds them with the superblock. A call is a function from a state to a result and a state, `M W A`;
-- a result is `ok`, `err` with the negated errno, or `hang` for a loop whose fuel has run out.
-- `malloc` and `time` are parameters too, in the record `Os W`. Where a call also changes an inode or
-- a counter through a pointer, the state is the record `Files W` of Alloc.Indirect.
--
-- The two backends stand on a file descriptor, whose `pread`, `pwrite` and `fsync` are parameters in
-- the record `Fd W`. The fields of a VDI that writes change, its map and the number of its blocks, are
-- the record `VdiState W` around the world.
--
-- An operation on a path begins with the opening of the image and ends with its closing; both are
-- parameters. A node that an operation changes is an inode that is handed on, and where the source
-- keeps two nodes of one directory, as the renaming does, the model keeps two inodes.
--
-- Numbers are natural numbers. An operation on `uint32_t` or `uint64_t` is written with its
-- wrap-around (`add32`, `sub32`, `mul32`, ...) wherever a value could leave its range. Where the source
-- subtracts what a test before it has shown to be smaller, the subtraction is the plain one.
-- The sums of a place in a group and a length, in the release of a run and the growth of one, are not
-- cut off: they leave 32 bits only where a group has more than 2^32 - 8 fragments.
--
-- Fuel. The searches over a group take as many rounds as the group has fragments, and one more for
-- whole blocks, which is enough since each round goes on to the next block. The scans of directory
-- blocks take as many rounds as the block has bytes, since each record moves on by at least 8. The
-- loops over the blocks of a file take as many rounds as the file has bytes left, and end where the
-- size of a block is not 0. The loops over `pread`, `pwrite` and the blocks of a VDI take as many
-- rounds as there are bytes, and the scans over labels 256, more than the scanned range has places.
-- The walk along a path takes as many rounds as the path has characters, and one more; the levels of
-- links are those that the source allows. The climb of `nextufs__directory_has_ancestor` has no bound
-- in the source; its rounds are an argument of `path_rename`, and the answer `hang` says that the loop
-- is still running. The growth of a file system begins again after it has moved data, as often as
-- the argument of `resize_grow` says. Ranges of fragments and zeros are written in as many rounds as
-- they are long. Runs of a block are counted in as many rounds as it has fragments.
--
-- Not modelled: the opening of image files and of VDI chains (src/core/image.c), the wrappers of
-- src/core/node.c that only pass their arguments on, the formatting of images, the passes of the
-- checker, and the commands other than the growth: they are left for later. The operations on paths
-- and the growth take the opening and closing of the image as parameters, and the growth `strtoull`
-- and `ftruncate` too. Printing and the opening of files (src/core/report.c, src/core/info.c,
-- src/core/source.c) are input and output only.
pub mod Base
pub mod Memory
pub mod Bitmap
pub mod Superblock
pub mod Io
pub mod Fd
pub mod Vdi
pub mod Text
pub mod Label
pub mod Inode
pub mod Layout
pub mod Cg
pub mod Alloc
pub mod File
pub mod Dirent
pub mod Directory
pub mod Path
pub mod Access
pub mod Operations
pub mod Size
pub mod Resize
pub mod Fsck
pub mod Mutate
mod Examples
