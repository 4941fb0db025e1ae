-- ===== src/Lib.antt =====
-- Verification library of Aurora OS, a microkernel (kernel/) with its userland libraries and
-- servers (userland/), both in Rust.
--
-- A process names kernel objects by capability ids, which it finds in its capability space; system
-- calls look an id up with the permissions they need, clone capabilities between spaces, and pay
-- for kernel memory from a tree of allocators. Serialized data goes between processes as bytes
-- with a table of capabilities in front, which clone_caps_to_cspace clones into the space of a new
-- process. The userland libraries define the ids, the flags and the arithmetic on words that both
-- sides share. The files, by the code they model:
-- - Prelude: comparisons, list and bit lemmas that all parts share.
-- - KResult: SysErr of userland/sys/src/syserr.rs and the kernel's results, with a panic as a
--   third outcome.
-- - BitUtils: userland/bit_utils/src/lib.rs and size.rs: align_up, align_down, align_of,
--   page_aligned, get_bits, log2, log2_up, log2_const and the conversions of Size. A usize is a
--   natural number below 2 ^ 64 and arithmetic wraps, as in a release build. The bsf and bsr
--   instructions count bits in 64 steps, which is enough for a word.
-- - Cap.Flags, Cap.CapId: userland/sys/src/cap.rs: the types and the bit layout of ids. The set
--   operations that the bitflags crate generates are the interface Bitflags, with the documented
--   meaning of each as a law.
-- - Container.HashMap: the view of kernel/src/container/hash_map.rs as keys with values, which the
--   capability space uses. The table of cells behind it is not modelled; `room` says whether the
--   heap had memory for an insertion.
-- - Cap.Space: kernel/src/cap/capability_space.rs, the methods that the macro generate_cap_methods
--   writes for each type of object, as one family over CapType. An object is a number, and `alive`
--   says whether a weak reference to it still upgrades. A method takes the lock of one map for its
--   whole run, so it is one step.
-- - Cap.Clone: clone_* and cap_clone. Spaces are numbered, so that source and destination may be
--   the same space.
-- - Alloc.CapAllocator, Alloc.Wrapper: kernel/src/alloc/cap_allocator.rs: the tree of allocators
--   as a store under numbers, a parent being a number; prealloc_inner recurses on the depth that
--   the code counts down from 8, and the loop of get_parent on the number of the allocator, since
--   parents are made first. The locks on the way up are held until a call ends, so a call is one
--   step. The answers of the zone manager and of the heap are arguments.
-- - Mem.Range: kernel/src/mem/addr.rs and range.rs: physical addresses, whose arithmetic panics
--   when it leaves 48 bits, and unaligned ranges of them: contains, contains_range, merge and
--   split_at.
-- - Mem.Aligned, Mem.PageLayout: the constructors of ranges that align to pages, take_layout, and
--   kernel/src/mem/page_layout.rs.
-- - Mem.VirtAddr: VirtAddr of kernel/src/mem/addr.rs.
-- - Container.Vec, Container.VecMap: the operations of kernel/src/container/vec.rs on an index and
--   the sorted map of vecmap.rs. A key is compared by its rank, a number; the binary search of
--   slices is a parameter (BinarySearch), of which SearchLaws says what its documentation says.
-- - Aser: userland/aser/src, the format of messages. Aser.Data are the calls that a type's
--   Serialize implementation makes, one constructor for each serialize_* method; Aser.Value is
--   value/mod.rs with value/value_serializer.rs; Aser.Counter is capability_counter.rs with
--   capability_serializer.rs; Aser.Ser is ser.rs, Aser.Bytes and Aser.CloneCaps are lib.rs,
--   Aser.IntoDeserialize is value/value_deserializer.rs, which calls the methods in
--   Aser.Value.Visitor. A buffer is a list of bytes. Aser.De is de.rs: De.Input its reads, whose
--   errors leave the input where the code leaves it, De.Call the method of a visitor that
--   deserialize_any calls, De.Visitor the visitor of a Value with the accessors that drive it.
--   Aser.Ser.Emit and Aser.Meaning say what the format is, without the code. Parameters stand for
--   str::from_utf8 and char::try_from (Text), BTreeMap::insert (OrderedMap), the visitor of serde
--   for u64 (Primitive) and the system call cap_clone on a state of the kernel (CapClone).
-- - AddrSpace: userland/aurora_core/src/allocator/addr_space.rs. AddrSpace are its types,
--   AddrSpace.Regions the list of regions with its storages, AddrSpace.Free the iterator over free
--   regions, is_region_free and find_map_address, AddrSpace.Action the state with errors as
--   values, AddrSpace.Map the operations, and AddrSpace.Create the making of a manager and
--   map_memory_remote_and_local, whose two managers have states of the kernel of their own. System
--   calls act on an abstract state of the kernel (AddressSpaceCalls); the random number, the
--   binary search of slices and the system calls on the memory of the list (MemoryCalls) are
--   parameters. AddrSpace.Cells is that memory, with the moves of ptr::copy and ptr::write. The
--   wait for transient regions ends with the count at 0, after what the other threads do to the
--   kernel's state (settled). A capability is a number, and a `Size` its number of bytes.
-- - Container.BinaryHeap: kernel/src/container/binary_heap.rs, a heap in a list over an order that
--   is a parameter (Ord), whose loops run on the length and one as fuel, since each turn goes one
--   level up or down. Sched.TimeoutQueue: kernel/src/sched/timeout_queue.rs, the queue of waiting
--   threads on it; its loop takes an element off in each turn, so the length and one is fuel
--   enough. A thread is a value, and the answer has the threads that are moved to the ready list,
--   in their order.
--
-- Bounds: the number in a capability id has 54 bits, so what is said about fresh ids is said of a
-- space that has handed out fewer than 2 ^ 54 of them. The loop of log2_const runs on fuel, and 65
-- steps are enough where it ends at all. The reader of messages runs on fuel of two for each byte
-- of the input and two more, which is always enough.
--
-- Not modelled: the architecture code, interrupts, the scheduler, page tables, the servers and the
-- procedural macros, which act on hardware or on other programs.
pub mod Prelude
pub mod BitUtils
pub mod KResult
pub mod Container
pub mod Cap
pub mod AddrSpace
pub mod Alloc
pub mod Mem
pub mod Sched
pub mod Aser
