-- ===== src/Tests/Devices.antt =====
-- Polling, memory maps, device control and directories, over small kernels.
use pposix.Base.{if◌then◌else◌, ◌==◌, ℕ, ℤ, pos, minus_one, ◌^◌, ◌≡◌, refl, [], ◌∷◌, true, false}
use pposix.Errno.{World, Sys, ErrorCode, make_errno_code, no_error}
use pposix.Dirent.{DirentApi, opendir_fd, opendir_path, IsOpening, opendir_lem}
use pposix.EnumFlag.{EnumFlag, compiled}
use pposix.EnumFlag.Laws.{join}
use pposix.Epoll.{
  EpollApi, EpollMacro, epollin, epollout, epollrdhup, epollpri, epollerr, epollhup, epollet,
  epolloneshot, epollwakeup, epollexclusive, EpollFlagName, epoll_flag_macro, EpollEventFlag,
  epoll_event_flag_enum, EpollEvents, epoll_modify, epoll_modify_ptr, epoll_modify_fd,
  epoll_modify_u32, epoll_modify_u64, epoll_event, epoll, wait, pwait, unsafe_create,
  unsafe_create1, event_read_available, event_write_available, event_socket_closed,
  event_fd_exception, event_fd_error, event_fd_hup,
}
use pposix.Epoll.Laws.{epoll_modify_compiles, event_accessors_lem, wait_lem, create_lem, IsCreation}
use pposix.File.Laws.{is_compiled}
use pposix.FileDescriptor.{raw_fd}
use pposix.Ioctl.{IoctlApi, IoctlRequest, ioctl_int, ioctl_null, ioctl_view, ioctl_cview, ioctl_lem}
use pposix.Mman.{
  MmanApi, MmanMacro, prot_read, prot_write, prot_exec, prot_none, map_fixed, map_private,
  map_shared, MmapFlag, mmap_flag_enum, MmapProtection, mmap_protection_enum, map, protect,
}
use pposix.Mman
use pposix.Mman.Laws.{map_compiles, mmap_map_lem, unmap-destroy, IsMapping}
use pposix.Result.{Result, err}
use pposix.Span.AnyView.{any_view_of, any_cview_of}
use pposix.Tests.Kernel.{Kernel, kernel, world, kernel_close, unistd, ebadf}

abbrev at_start : World Kernel
at_start = world (pos 0) (kernel (pos 3 ∷ []) 0)

-- Linux's values.
abbrev bit : EpollFlagName → ℕ
bit EpollFlagName.read_available = 0
bit EpollFlagName.fd_exception = 1
bit EpollFlagName.write_available = 2
bit EpollFlagName.fd_error = 3
bit EpollFlagName.fd_hup = 4
bit EpollFlagName.socket_closed = 13
bit EpollFlagName.exclusive = 28
bit EpollFlagName.wakeup = 29
bit EpollFlagName.one_shot = 30
bit EpollFlagName.edge_triggered = 31

abbrev epoll_macros : EpollMacro → ℕ
epoll_macros epollin = 2 ^ 0
epoll_macros epollpri = 2 ^ 1
epoll_macros epollout = 2 ^ 2
epoll_macros epollerr = 2 ^ 3
epoll_macros epollhup = 2 ^ 4
epoll_macros epollrdhup = 2 ^ 13
epoll_macros epollexclusive = 2 ^ 28
epoll_macros epollwakeup = 2 ^ 29
epoll_macros epolloneshot = 2 ^ 30
epoll_macros epollet = 2 ^ 31
epoll_macros other = 0

single_bits : (f : EpollFlagName) → epoll_macros (epoll_flag_macro f) ≡ 2 ^ bit f
single_bits EpollFlagName.read_available = refl
single_bits EpollFlagName.fd_exception = refl
single_bits EpollFlagName.write_available = refl
single_bits EpollFlagName.fd_error = refl
single_bits EpollFlagName.fd_hup = refl
single_bits EpollFlagName.socket_closed = refl
single_bits EpollFlagName.exclusive = refl
single_bits EpollFlagName.wakeup = refl
single_bits EpollFlagName.one_shot = refl
single_bits EpollFlagName.edge_triggered = refl

epoll_modify_compiles_example :
    let flags = join EpollEventFlag (0 ∷ 28 ∷ []) in
    (is_compiled (epoll_modify epoll_macros (raw_fd (pos 3)) flags) ≡ false)
    × (is_compiled (epoll_modify_ptr epoll_macros (raw_fd (pos 3)) flags 9) ≡ false)
    × (is_compiled (epoll_modify_fd epoll_macros (raw_fd (pos 3)) flags (raw_fd (pos 4))) ≡ false)
    × (is_compiled (epoll_modify_u32 epoll_macros (raw_fd (pos 3)) flags 9) ≡ false)
    × (is_compiled (epoll_modify_u64 epoll_macros (raw_fd (pos 3)) flags 9) ≡ false)
epoll_modify_compiles_example =
    epoll_modify_compiles epoll_macros 28 refl (raw_fd (pos 3)) (raw_fd (pos 4)) 9 (0 ∷ 28 ∷ [])

event_accessors_lem_example :
    let e = epoll_event (join EpollEventFlag (0 ∷ 4 ∷ 13 ∷ [])).flags in
    (event_read_available epoll_macros e ≡ true)
    × (event_write_available epoll_macros e ≡ false)
    × (event_socket_closed epoll_macros e ≡ true)
    × (event_fd_exception epoll_macros e ≡ false)
    × (event_fd_error epoll_macros e ≡ false)
    × (event_fd_hup epoll_macros e ≡ true)
event_accessors_lem_example = event_accessors_lem epoll_macros bit single_bits (0 ∷ 4 ∷ 13 ∷ [])

-- Creating gives number 3, and waiting finds two events.
abbrev epoll_api : EpollApi Kernel
epoll_api = record {
  epoll_create = λ size w. (pos 3, w);
  epoll_create1 = λ flags w. (minus_one, record w { errno = pos 22 });
  epoll_ctl = λ fd op target event w. (pos 0, w);
  epoll_wait = λ fd events length timeout w. (pos 2, w);
  epoll_pwait = λ fd events length timeout sigmask w. (pos 2, w);
}

abbrev events : EpollEvents
events = record { address = 4096; length = 8 }

-- The two events are reported as an error of value 0.
wait_lem_example :
    (wait epoll_api (epoll (raw_fd (pos 3))) events (pos 100) at_start ≡ (err no_error, at_start))
    × (pwait epoll_api (epoll (raw_fd (pos 3))) events (pos 100) 64 at_start
        ≡ (err no_error, at_start))
wait_lem_example = wait_lem epoll_api (pos 3) events (pos 100) 64 at_start

create_lem_example :
    IsCreation epoll_api unistd (pos 3, at_start) (unsafe_create epoll_api unistd (pos 1) at_start)
    × IsCreation epoll_api unistd
        (minus_one, world (pos 22) at_start.kernel)
        (unsafe_create1 epoll_api unistd 524288 at_start)
create_lem_example = create_lem epoll_api unistd (pos 1) 524288 at_start

abbrev mman_macros : MmanMacro → ℕ
mman_macros prot_read = 1
mman_macros prot_write = 2
mman_macros prot_exec = 4
mman_macros prot_none = 0
mman_macros map_shared = 1
mman_macros map_private = 2
mman_macros map_fixed = 16

abbrev map_failed : ℕ
map_failed = 18446744073709551615

abbrev mman_api : MmanApi Kernel
mman_api = record {
  mmap = λ addr len prot flags fd off w. (8192, w);
  munmap = λ addr len. kernel_close (pos 3);
  mprotect = λ addr len prot w. (pos 0, w);
}

abbrev no_access : EnumFlag MmapProtection
no_access = record { flags = record { bits = 0 } }

-- EACCES
abbrev refuses : MmapProtection → Sys Kernel ErrorCode
refuses prot w = (make_errno_code (pos 13), w)

-- MAP_SHARED is bit 0 and MAP_PRIVATE bit 1.
map_compiles_example :
    (is_compiled (
        map mman_api map_failed mman_macros true 0 4096 no_access
          (join MmapFlag (0 ∷ 4 ∷ []))
          (raw_fd (pos 3))
          (pos 0))
      ≡ true)
    × (protect mman_api map_failed mman_macros refuses no_access
        ≡ compiled (refuses no_access.flags))
map_compiles_example =
    map_compiles mman_api map_failed mman_macros refl 1 0 refl refl true 0 4096 no_access
      (0 ∷ 4 ∷ []) (raw_fd (pos 3)) (pos 0) refuses

mmap_map_lem_example :
    IsMapping mman_api map_failed 4096
      (8192, at_start)
      (Mman.mmap_map mman_api map_failed 0 4096
        (record { bits = 1 })
        (record { bits = 2 })
        (raw_fd (pos 3))
        (pos 0)
        at_start)
mmap_map_lem_example =
    mmap_map_lem mman_api map_failed 0 4096 (record { bits = 1 }) (record { bits = 2 })
      (raw_fd (pos 3)) (pos 0) at_start

-- The second unmapping fails in a kernel that forgot the range.
unmap-destroy_example :
    let m = Mman.mmap (Mman.mmap_d 8192 4096) in
    (Mman.destroy mman_api map_failed m (Mman.unmap mman_api map_failed m at_start).1).1
    ≡ world ebadf (kernel [] 2)
unmap-destroy_example = unmap-destroy mman_api map_failed 8192 4096 at_start

-- FIONREAD-like requests that return 5.
abbrev ioctl_api : IoctlApi Kernel
ioctl_api = record {
  ioctl_int = λ fd request arg w. (pos 5, w);
  ioctl_pointer = λ fd request arg w. (minus_one, record w { errno = pos 14 });
}

abbrev request : IoctlRequest
request = record { request = pos 21531 }

ioctl_lem_example :
    let failed : Result ℤ × World Kernel =
      (err (make_errno_code (pos 14)), world (pos 14) at_start.kernel) in
    (ioctl_int ioctl_api (raw_fd (pos 3)) request (pos 1) at_start ≡ (err no_error, at_start))
    × (ioctl_null ioctl_api (raw_fd (pos 3)) request at_start ≡ failed)
    × (ioctl_view ioctl_api (raw_fd (pos 3)) request (any_view_of 4096 8) at_start ≡ failed)
    × (ioctl_cview ioctl_api (raw_fd (pos 3)) request (any_cview_of 4096 8) at_start ≡ failed)
ioctl_lem_example =
    ioctl_lem ioctl_api (pos 3) request (pos 1) (any_view_of 4096 8) (any_cview_of 4096 8) at_start

abbrev dirent_api : DirentApi Kernel
dirent_api = record {
  fdopendir = λ fd w. (4096, w);
  opendir = λ path w. (0, record w { errno = pos 2 });
  closedir = λ dir. kernel_close (if dir == 0 then minus_one else pos 3);
}

opendir_lem_example :
    IsOpening dirent_api (4096, at_start) (opendir_fd dirent_api (record { fd = pos 3 }) at_start)
    × IsOpening dirent_api (0, world (pos 2) at_start.kernel) (opendir_path dirent_api 16 at_start)
opendir_lem_example = opendir_lem dirent_api (record { fd = pos 3 }) 16 at_start
