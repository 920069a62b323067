-- ===== src/Lib.antt =====
-- bius: block devices in user space. The kernel module turns the block layer's requests into
-- commands that a user-space program reads from a character device, and ends a request when the
-- program writes its reply; libbius is the program's side of this protocol, and the zoned examples
-- serve a disk whose zones they emulate.
--
-- The parts, and the code that each models:
--   Status       include/bius/blk_status.h: the results of a block command.
--   RequestType  include/bius/request_type.h, include/bius/map_type.h: the kinds of a command.
--   Kernel       kernel/request.h, kernel/connection.h, kernel/block_dev.h: the driver's data.
--     BlockDev, Queue      kernel/block_dev.c: `bius_queue_rq`, `bius_report_zones` up to its wait.
--     Transfer, Sending    kernel/command.h: `bius_send_command`, `bius_send_data`,
--                          `bius_receive_data`.
--     CharDev              kernel/request.h, and `bius_dev_read` of kernel/char_dev.c.
--     Reply                `bius_dev_write` on a connection that has its device, and the loop of
--                          `bius_dev_release`.
--     Conserve, Reads, Replies, Release, Progress    proofs about the two.
--     ReportZones          kernel/block_dev.c: `bius_report_zones` from its wait on; Bounds proves.
--     Registry, Cleanup    kernel/block_dev.c: creation, lookup and removal of devices.
--     Lifecycle            kernel/char_dev.c: `bius_dev_open`, `handle_initialization`, and the device
--                          part of `bius_dev_release`.
--     Refcount, Counted, Departs, Removal    proofs about connections and their devices.
--     DataMapping          kernel/data_mapping.c, which CONFIG_BIUS_DATAMAP compiles: `bius_map_data`
--                          and `bius_unmap_data`. Grows, Parts, Pages and Segment are about the pages
--                          that a segment takes, Views, Entries, Listing and Loop about the mapping
--                          list, Shows, Writes and Unmap about the whole.
--     DataMapping/CopyBack `bius_copy_in_misaligned_pages`.
--     DataMapping/Vm       kernel/char_dev.c, `bius_dev_mmap`, with `bius_vm_open` and
--                          `bius_vm_close`.
--   Library      library/libbius.c, include/libbius.h.
--     Dispatch, Segments   `handle_blk_command` and its loop over mapped segments.
--     CopyIn               `handle_copy_in`.
--     Serve                the reply of one turn of `handle_requests`.
--     Main                 `bius_main` and `thread_main`, over the calls of the system.
--   Turn         library/libbius.c, `handle_requests`, on the driver of kernel/char_dev.c: one turn.
--     Sends, WriteData     the data of a write, as the library reads it.
--     Ends, Serves         the command that is read, and the reply that ends it.
--     Writes, Reads, Commands    turns by the kind of the command.
--     Round                a write of the block layer, from `bius_queue_rq` to its end.
--     MappedList           the list of a data map, read through the area.
--     MappedWrites         a write that `bius_map_data` mapped, as the library serves it.
--     Startup              `bius_main` on the driver: how its threads come to the device.
--   Passthrough  examples/passthrough.c, examples/zoned-passthrough.c; Refines proves.
--   Zoned        examples/zoned-common.h: the zones of an emulated disk.
--     Init, Open, Write, Manage, Disk    its functions, by the order of the file.
--     Counters, Bounds     what a disk in order is: counters that match the zones' conditions and
--                          stay within their limits, and write pointers inside their zones.
--     Ramdisk              examples/zoned-ramdisk.c: the memory below the zones.
--     History              a list of commands, run on the disk that `initialize` leaves.
--     Locks                threads that run `zoned_open_zone` at once, lock by lock; Exclusive,
--                          Cycle, Alone and Finishes prove.
--     The others hold the proofs, by the functions that they are about.
--   BlockTest    examples/blktest.c: the two tests of a block device, and when they pass.
--
-- The driver hands a request from the queue to a connection by `dev_read`, which leaves it waiting
-- there; `dev_reply` finds it by its id and ends it. On the other side `handle_copy_in` completes
-- a command with its data and `answer` makes the reply from the operation's result; for a zoned
-- disk the operations are those of Zoned/Disk. Turn puts the two sides together: the file that the
-- library reads and writes is the driver, and the program's memory is a parameter. A connection
-- comes to its device, and leaves it, by the steps of Lifecycle.
--
-- How the code is read:
--   * A pointer to a request is its address, and `requests` the memory. The union of
--     `struct bius_request` is a sum: an access through the other member is a fault.
--   * A fault of the program (an access out of bounds, through NULL, through the wrong member of a
--     union, or the overflow of an `int`) and `exit` are `none`; the results of the code are values.
--     The ramdisk, whose functions cannot fail, records an access past its array in its state.
--   * Integers are natural numbers with the wrap-around of their width; negative results are the
--     integers of Base/Int.
--     The product of ints of `pattern` in examples/blktest.c wraps around.
--   * The area that a mapping shows to the user is its page table: what each page maps. The first two
--     reserved pages are one array of numbers, the others are bytes, and the frames of a segment follow
--     each other in the kernel's linear map. Threads that are started run one after the other, up to
--     their first command.
--   * A function that holds its lock from its first access of the shared state to its last is one
--     step. The interleaving of threads is the order of the steps. In Zoned/Locks the taking and the
--     giving back of a lock are steps.
--   * The loop of `bius_send_data` has one unit of fuel for each byte and each bio, and one more;
--     the loops of `handle_copy_in` and of the passthrough disks have one for each byte, and one
--     more; the loop over whole pages of `bius_map_data` has one for each page, and one more, and the
--     loop of `bius_copy_in_misaligned_pages` on a simple mapping one for each of its two entries; the
--     reading of a data map's list has 257, one more than its entries. A proof shows of each that this
--     is enough. On a list the loop of `bius_copy_in_misaligned_pages` has one for each number that
--     the array holds. All other loops are by recursion on the list or the number that they go over.
--   * What the repository does not have is a parameter: `struct bio` with its iterator (the record
--     `BioApi` with its laws), the outcome of the kernel's allocations and registrations (the record
--     `Setup`), `copy_to_iter`, `copy_from_user`, the conversion of a reply to the
--     kernel's `blk_status_t`, the calls of the library and of the block test on files and threads
--     (the records `Calls`, `Threads` and `FileApi`), whether a page of an area can be mapped and
--     found, the numbers of `REQ_OP_*`, the operations and the memory of the caller, `read`, the calls
--     of a passthrough disk on its target, and the raw device of a zoned disk, which the ramdisk fills.
--
-- Not modelled: the branches of `CONFIG_BIUS_DATAMAP` in kernel/char_dev.c other than `bius_dev_mmap`,
-- and those of `CONFIG_ZONE_DESC_EXT`, which the repository leaves off;
-- `bius_revalidate`, which starts a thread of the kernel; the `main` functions of
-- the disks, which fill in their options and call `bius_main`; examples/ramdisk.c, whose operations are
-- those of examples/zoned-ramdisk.c; logging.
mod Base
pub mod Status
pub mod RequestType
pub mod Zoned
pub mod Kernel
pub mod Library
pub mod Passthrough
pub mod Turn
pub mod BlockTest
