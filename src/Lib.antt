-- ===== src/Lib.antt =====
-- pposix wraps the POSIX interface of the C library in C++ types: calls return an error code or a
-- result in place of -1 and `errno`, handles have owners that close them, flags are types that
-- are checked when the program is compiled, and buffers are spans. This library models the wrappers
-- and proves what they do. Paths are from the repository's root.
--
-- Parts, and the files that model them:
--
--  * Base: Boolean tests on the native numbers, signed integers, the bits of patterns, and lists.
--  * Errno, Errno/Context: `errno`, `std::error_code` and `errno_context`
--    (include/pposix/errno.hpp, src/errno.cpp). `World` is the thread's `errno` and the kernel behind
--    the calls, of any type; `Sys K A` is a call that reads and changes it and returns an `A`.
--  * Result: `result<T>`, its accessors, which may throw, and `result_map`
--    (include/pposix/result.hpp).
--  * Call: the macros PPOSIX_COMMON_CALL and its two relatives (include/pposix/util.hpp). Every wrapper
--    goes through one of them or repeats its body.
--  * EnumFlag: `enum_flag` and `underlying_v` (include/pposix/util.hpp), for any enumeration; Older is
--    the flag type of include/pposix/enum_flag.hpp, which nothing includes. A `static_assert` on
--    template arguments makes a function into `Checked`: the call is refused with
--    the message or compiled.
--  * Descriptor, with Laws, Ledger, Ownership and Finish: `descriptor`
--    (include/pposix/descriptor.hpp), the owner of one handle, for any null handle and close policy.
--    Ledger runs programs of constructions, moves, releases, closes and destructions, and keeps the
--    books of each handle; Finish is the end of a program, where the objects left are destroyed.
--  * Owner, with Members, Run, Classes, Simulation and Laws: the six classes that own one handle through
--    a descriptor, `file`, `mq`, `lnx::epoll`, `socket`, `mmap` and `shm`. `IsOwner` is what they have
--    in common, Members has the constructors, moves and destructors that the compiler writes, Run runs
--    programs over objects of a class, and Classes fills the interface for each. Files has programs
--    that open files over a system that keeps the open numbers.
--  * FileDescriptor: `raw_fd` and `file_descriptor` (include/pposix/file_descriptor.hpp,
--    src/file_descriptor.cpp).
--  * Span, with Generic, Bytes, Chars, AnyView, Laws, Slices and Iteration: the spans of
--    include/pposix/span.hpp, byte_span.hpp and char_span.hpp and the views of any_view.hpp. `IsSpan`
--    is what the span types have in common; each fills it, and the laws are proved once. Iteration
--    is the loop from `begin()` to `end()`.
--  * Stat, Stat/Literals: permissions and their literals (include/pposix/stat.hpp).
--  * Fcntl, Fcntl/Commands: `fcntl` and `open` (include/pposix/fcntl.hpp, src/fcntl.cpp).
--  * File, with Laws and RoundTrip: `file` (include/pposix/file.hpp, src/file.cpp), over Fcntl and
--    Descriptor. RoundTrip runs `write`, `lseek` and `read` on a file that keeps its content.
--  * Sysconf, Confstr: `sysconf` and `confstr` (include/pposix/sysconf.hpp, confstr.hpp,
--    src/sysconf.cpp, src/confstr.cpp), with the tables of their names. Confstr/RoundTrip has
--    `confstr_length` followed by `confstr`.
--  * Syslog, with Laws and Session: the priority sets and the system log (include/pposix/syslog.hpp,
--    src/syslog.cpp). Session has the priorities that pass and the log that a program is to see as
--    the abstract view of `setlogmask` and `syslog`.
--  * Ioctl: `ioctl` (include/pposix/ioctl.hpp, src/ioctl.cpp).
--  * Dirent: directory streams (include/pposix/dirent.hpp, src/dirent.cpp).
--  * Mman: memory maps (include/pposix/mman.hpp, src/mman.cpp).
--  * Epoll, with Events, Laws and Interest: event polling (include/pposix/lnx/epoll.hpp,
--    src/lnx/epoll.cpp).
--    Interest has the list of descriptors of interest as the abstract view of `epoll::ctl`, with the
--    errors that <sys/epoll.h> names.
--  * Signal: `timespec`, `sig_number` and `sigevent` (include/pposix/time.hpp,
--    include/pposix/signal.hpp).
--  * Mqueue, with Open, Transfer, Notify, Laws, Exchange, Interleaving and Registration: message queues
--    (include/pposix/rt/mqueue.hpp, src/rt/mqueue.cpp). Exchange has a queue ordered by priority as
--    the abstract view of `unsafe_send` and `receive`, Interleaving has it for the four calls that
--    send and receive on a queue that never waits, in any order, and Registration has who is told of
--    a message as that of `notify`, with its steps and walks as indexed types.
--  * Platform, with Headers and Laws: the detection of the platform, the extension switches
--    (include/pposix/platform.hpp, include/pposix/extension.hpp), and the enumerations that the
--    preprocessor leaves of include/pposix/fcntl.hpp and include/pposix/socket.hpp.
--  * Socket, with Names, Values, Get, Laws and RoundTrip: sockets and their options
--    (include/pposix/socket.hpp, src/socket.cpp). RoundTrip has `setsockopt` followed by
--    `unsafe_getsockopt`.
--  * Tests: the theorems at concrete inputs, and runs over a small kernel.
--
-- Parameters. The C library and the kernel are parameters: each component takes a record of the
-- calls that it makes, and the values of the header macros as a function. Where a theorem needs
-- more of them, that a macro is one bit or that a call returns at most the length it was given, this is
-- a hypothesis. An address is a number with 0 for the null pointer; what a call does to memory
-- is part of the kernel's state, and what it writes through a pointer to a local is returned beside
-- its result. The model is of the library on Linux: enumerators of other systems are left
-- out, except in Platform and in the tables of Sysconf and Confstr.
--
-- Bounds. Numbers are unbounded, and a conversion that wraps is written out (`to_size`, `to_int`,
-- `to_socklen`, `narrow`). No loop of the library needs fuel: the loops run over the characters of a
-- literal and over a list. The loop over a span, which is its user's, has fuel in Span/Iteration, where
-- as many rounds as the span has elements are proved to be enough.
--
-- What a kernel or a device keeps is a hypothesis in the form of a record, named for what it keeps:
-- `KeepsQueue`, `ServesQueue`, `KeepsRegistration`, `KeepsInterests`, `KeepsContent`, `KeepsOption`,
-- `KeepsStrings`, `KeepsLog`, `KeepsOpen`.
-- Each states what the header of the calls documents, and Tests fills each with a small kernel.
--
-- The assertion of `result_map` that its function is `noexcept` is an argument of `file::open` and
-- `mmap::map`: the lambdas that these hand over are not declared so, the argument is then false, and the
-- compiler refuses every use of the two.
--
-- The move assignment of `descriptor` has no `return` statement, so what follows a use of it is
-- undefined; it is modelled as the swap that it makes, with a normal return.
--
-- Not modelled: the syslog template without a facility, and `socket::getsockopt` with its three helpers,
-- no use of which compiles; the two operators `->`; include/pposix/types.hpp, two names of types that nothing uses.
pub mod Base
pub mod Errno
pub mod Result
pub mod Call
pub mod EnumFlag
pub mod Descriptor
pub mod FileDescriptor
pub mod Span
pub mod Stat
pub mod Fcntl
pub mod File
pub mod Sysconf
pub mod Confstr
pub mod Syslog
pub mod Ioctl
pub mod Dirent
pub mod Mman
pub mod Epoll
pub mod Socket
pub mod Signal
pub mod Mqueue
pub mod Owner
pub mod Platform
pub mod Tests
