-- ===== src/Owner/Classes.antt =====
-- The six owning classes fill the interface.
use pposix.Base.{refl, [], ◌∷◌}
use pposix.Descriptor.{
  Descriptor, null_descriptor, of_raw, raw, move_construct, move_assign, close,
  destroy as destroy_descriptor,
}
use pposix.Descriptor.Ledger.{
  adopts, moves_new, destroys, run, step, adopt_step, move_new_step, destroy_step, on,
}
use pposix.Epoll
use pposix.Epoll.{Epoll, epoll}
use pposix.File
use pposix.File.{File, file}
use pposix.FileDescriptor.{Unistd, RawFd, file_descriptor}
use pposix.Mman
use pposix.Mman.{MmanApi, Mmap, Shm, MmapD, unique_mmap_d, mmap, mmap_d}
use pposix.Mqueue
use pposix.Mqueue.{MqApi, Mq, unique_mq_d, mq}
use pposix.Base.{ℕ, ℤ}
use pposix.Owner.{IsOwner}
use pposix.Owner.Members.{
  default_file, move_file, assign_file, default_mq, move_mq, assign_mq, default_epoll, move_epoll,
  assign_epoll, default_socket, move_socket, assign_socket, default_mmap, move_mmap, assign_mmap,
  default_shm, move_shm, assign_shm, destroy_shm,
}
use pposix.Socket
use pposix.Socket.{SocketApi, Socket, SocketFd, unique_socket_fd, socket, socket_fd}

-- The systems that the classes call.
pub record Apis (K : Type 0) : Type 0 where
  pub files : Unistd K
  pub queues : MqApi K
  pub sockets : SocketApi K
  pub maps : MmanApi K
  pub map_failed : ℕ

pub data Class : Type 0 where
  file_class mq_class epoll_class socket_class mmap_class shm_class : Class

-- The handle, the objects and the argument of the constructor. A socket is given a descriptor, and
-- `shm` has no constructor with an argument.
abbrev pub Handle : Class → Type 0
Handle file_class = RawFd
Handle mq_class = ℤ
Handle epoll_class = RawFd
Handle socket_class = SocketFd
Handle mmap_class = MmapD
Handle shm_class = RawFd

abbrev pub Object : Class → Type 0
Object file_class = File
Object mq_class = Mq
Object epoll_class = Epoll
Object socket_class = Socket
Object mmap_class = Mmap
Object shm_class = Shm

abbrev pub Argument : Class → Type 0
Argument file_class = RawFd
Argument mq_class = ℤ
Argument epoll_class = RawFd
Argument socket_class = Descriptor SocketFd
Argument mmap_class = MmapD
Argument shm_class = ⊥

module _ {K : Type 0} (os : Unistd K) where
  unfoldable pub file_owner : IsOwner K RawFd RawFd File
  unfolding default_file file move_file assign_file File.destroy null_descriptor of_raw
      move_construct move_assign run step adopt_step
  file_owner = record {
    traits = file_descriptor os;
    descriptor_of = λ c. c.fd_;
    default_owner = default_file os;
    construct = λ a w. (file a, w);
    move_owner = move_file os;
    assign_owner = assign_file;
    destroy_owner = File.destroy os;
    handle = λ a. a;
    constructing = λ a. adopts a ∷ [];
    descriptor_of-default = refl;
    objects-constructing = λ a s. refl;
    world-constructing = λ a s. refl;
    adopted-constructing = λ a s. refl;
    released-constructing = λ a s. refl;
    descriptor_of-move = λ c. (refl, refl);
    descriptor_of-assign = λ this other. (refl, refl);
    world-destroy = λ c w. refl;
  }

module _ {K : Type 0} (os : MqApi K) where
  unfoldable pub mq_owner : IsOwner K ℤ ℤ Mq
  unfolding default_mq move_mq assign_mq mq Mqueue.destroy null_descriptor of_raw move_construct
      move_assign run step adopt_step
  mq_owner = record {
    traits = unique_mq_d os;
    descriptor_of = λ c. c.mq_d_;
    default_owner = default_mq os;
    construct = λ a w. (mq a, w);
    move_owner = move_mq os;
    assign_owner = assign_mq;
    destroy_owner = Mqueue.destroy os;
    handle = λ a. a;
    constructing = λ a. adopts a ∷ [];
    descriptor_of-default = refl;
    objects-constructing = λ a s. refl;
    world-constructing = λ a s. refl;
    adopted-constructing = λ a s. refl;
    released-constructing = λ a s. refl;
    descriptor_of-move = λ c. (refl, refl);
    descriptor_of-assign = λ this other. (refl, refl);
    world-destroy = λ c w. refl;
  }

module _ {K : Type 0} (os : Unistd K) where
  unfoldable pub epoll_owner : IsOwner K RawFd RawFd Epoll
  unfolding default_epoll move_epoll assign_epoll epoll Epoll.destroy null_descriptor of_raw
      move_construct move_assign run step adopt_step
  epoll_owner = record {
    traits = file_descriptor os;
    descriptor_of = λ c. c.epoll_fd_;
    default_owner = default_epoll os;
    construct = λ a w. (epoll a, w);
    move_owner = move_epoll os;
    assign_owner = assign_epoll;
    destroy_owner = Epoll.destroy os;
    handle = λ a. a;
    constructing = λ a. adopts a ∷ [];
    descriptor_of-default = refl;
    objects-constructing = λ a s. refl;
    world-constructing = λ a s. refl;
    adopted-constructing = λ a s. refl;
    released-constructing = λ a s. refl;
    descriptor_of-move = λ c. (refl, refl);
    descriptor_of-assign = λ this other. (refl, refl);
    world-destroy = λ c w. refl;
  }

module _ {K : Type 0} (os : SocketApi K) where
  unfoldable pub socket_owner : IsOwner K SocketFd (Descriptor SocketFd) Socket
  unfolding default_socket move_socket assign_socket socket Socket.destroy move_new_step
      destroy_step destroy_descriptor close raw on null_descriptor of_raw move_construct move_assign
      run step adopt_step
  socket_owner = record {
    traits = unique_socket_fd os;
    descriptor_of = λ c. c.socket_fd_;
    default_owner = default_socket os;
    construct = socket os;
    move_owner = move_socket os;
    assign_owner = assign_socket;
    destroy_owner = Socket.destroy os;
    handle = λ a. raw a;
    constructing = λ a. adopts (raw a) ∷ moves_new 0 ∷ destroys 1 ∷ [];
    descriptor_of-default = refl;
    objects-constructing = λ a s. refl;
    world-constructing = λ a s. refl;
    adopted-constructing = λ a s. refl;
    released-constructing = λ a s. refl;
    descriptor_of-move = λ c. (refl, refl);
    descriptor_of-assign = λ this other. (refl, refl);
    world-destroy = λ c w. refl;
  }

module _ {K : Type 0} (os : MmanApi K) (map_failed : ℕ) where
  unfoldable pub mmap_owner : IsOwner K MmapD MmapD Mmap
  unfolding default_mmap move_mmap assign_mmap mmap Mman.destroy null_descriptor of_raw
      move_construct move_assign run step adopt_step
  mmap_owner = record {
    traits = unique_mmap_d os map_failed;
    descriptor_of = λ c. c.mmap_d_;
    default_owner = default_mmap os map_failed;
    construct = λ a w. (mmap a, w);
    move_owner = move_mmap os map_failed;
    assign_owner = assign_mmap;
    destroy_owner = Mman.destroy os map_failed;
    handle = λ a. a;
    constructing = λ a. adopts a ∷ [];
    descriptor_of-default = refl;
    objects-constructing = λ a s. refl;
    world-constructing = λ a s. refl;
    adopted-constructing = λ a s. refl;
    released-constructing = λ a s. refl;
    descriptor_of-move = λ c. (refl, refl);
    descriptor_of-assign = λ this other. (refl, refl);
    world-destroy = λ c w. refl;
  }

module _ {K : Type 0} (os : Unistd K) where
  unfoldable pub shm_owner : IsOwner K RawFd ⊥ Shm
  unfolding default_shm move_shm assign_shm destroy_shm null_descriptor of_raw move_construct
      move_assign run step adopt_step
  shm_owner = record {
    traits = file_descriptor os;
    descriptor_of = λ c. c.shm_fd_;
    default_owner = default_shm os;
    construct = λ a. absurd a;
    move_owner = move_shm os;
    assign_owner = assign_shm;
    destroy_owner = destroy_shm os;
    handle = λ a. absurd a;
    constructing = λ a. absurd a;
    descriptor_of-default = refl;
    objects-constructing = λ a s. absurd a;
    world-constructing = λ a s. absurd a;
    adopted-constructing = λ a s. absurd a;
    released-constructing = λ a s. absurd a;
    descriptor_of-move = λ c. (refl, refl);
    descriptor_of-assign = λ this other. (refl, refl);
    world-destroy = λ c w. refl;
  }

unfoldable pub owner :
    {K : Type 0} (apis : Apis K) (c : Class) → IsOwner K (Handle c) (Argument c) (Object c)
unfolding file_owner mq_owner epoll_owner socket_owner mmap_owner shm_owner
owner apis file_class = file_owner apis.files
owner apis mq_class = mq_owner apis.queues
owner apis epoll_class = epoll_owner apis.files
owner apis socket_class = socket_owner apis.sockets
owner apis mmap_class = mmap_owner apis.maps apis.map_failed
owner apis shm_class = shm_owner apis.files
