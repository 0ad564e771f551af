-- ===== src/Tests/Owners.antt =====
-- Objects of the owning classes over a small kernel.
use pposix.Base.{pos, ◌+◌, ◌≡◌, refl, List, [], ◌∷◌, count}
use pposix.Errno.{World}
use pposix.Descriptor.{of_raw, Descriptor}
use pposix.Descriptor.Finish.{finish}
use pposix.Descriptor.Ledger.{run, start}
use pposix.Owner.Classes.{Apis, socket_class, owner, socket_owner}
use pposix.Owner.Laws.{owners_lem}
use pposix.Owner.Run.{
  OwnerOp, constructs, moves_new, moves_onto, destroys, start_owners, run_owners, step_owners,
  finish_owners, given, descriptor_program,
}
use pposix.Socket
use pposix.Socket.{SocketFd, socket_fd, unique_socket_fd, socket, close_socket}
use pposix.Owner.Members.{move_socket, assign_socket}
use pposix.Call.{common_call}
use pposix.Tests.Kernel.{Kernel, kernel, world, unistd, kernel_close, ebadf}

abbrev apis : Apis Kernel
apis = record {
  files = unistd;
  queues = record {
    mq_open = λ name flags w. (pos 3, w);
    mq_open_attr = λ name flags attributes w. (pos 3, w);
    mq_close = kernel_close;
    mq_unlink = λ name w. (pos 0, w);
    mq_getattr = λ fd attributes w. ((pos 0, attributes), w);
    mq_setattr = λ fd new old w. ((pos 0, old), w);
    mq_receive = λ fd buffer length prio w. ((pos 0, prio), w);
    mq_timedreceive = λ fd buffer length prio until w. ((pos 0, prio), w);
    mq_send = λ fd buffer length prio w. (pos 0, w);
    mq_timedsend = λ fd buffer length prio until w. (pos 0, w);
    mq_notify = λ fd event w. (pos 0, w);
  };
  sockets = record {
    socket = λ domain kind protocol w. (pos 3, w);
    close = kernel_close;
    setsockopt = λ fd level option shown len w. (pos 0, w);
    getsockopt = λ fd level option address len w. ((pos 0, len), w);
    getsockopt_local = λ k fd level option old len w. ((pos 0, len, old), w);
  };
  maps = record {
    mmap = λ addr len prot flags fd off w. (8192, w);
    munmap = λ addr len. kernel_close (pos 3);
    mprotect = λ addr len prot w. (pos 0, w);
  };
  map_failed = 18446744073709551615;
}

abbrev at_start : World Kernel
at_start = world (pos 0) (kernel (pos 3 ∷ pos 4 ∷ []) 0)

-- Two sockets, one moved onto the other, and an empty one; two are left at the end.
abbrev life : List (OwnerOp (Descriptor SocketFd))
life =
    constructs (of_raw (socket_fd (pos 3)))
    ∷ constructs (of_raw (socket_fd (pos 4)))
    ∷ moves_onto 0 1
    ∷ moves_new 0
    ∷ destroys 1
    ∷ []

owners_lem_example :
    let o = owner apis socket_class in
    let r = finish_owners o (run_owners o life (start_owners at_start)) in
    let s = finish o.traits (run o.traits (descriptor_program o life) (start at_start)) in
    (r.objects ≡ [])
    × (r.world ≡ s.world)
    × (count (λ d. o.traits.same (socket_fd (pos 3)) d) s.closed
          + count (λ d. o.traits.same (socket_fd (pos 3)) d) s.leaked
        ≡ count (λ d. o.traits.same (socket_fd (pos 3)) d) (given o life))
unfolding owner unique_socket_fd
owners_lem_example = owners_lem apis socket_class (socket_fd (pos 3)) refl life at_start

-- What is left of the program, with everything that it calls unfolded.
after_life : World Kernel
unfolding finish_owners run_owners start_owners step_owners owner socket_owner socket move_socket
    assign_socket Socket.destroy unique_socket_fd close_socket common_call of_raw
after_life =
    let o = owner apis socket_class in
    (finish_owners o (run_owners o life (start_owners at_start))).world

-- Both numbers are closed. The null handle was closed three times more: by the two arguments of the
-- constructor, which are empty when they are destroyed, and by the socket that was moved from.
life_closes : after_life ≡ world ebadf (kernel [] 5)
unfolding after_life
life_closes = refl
