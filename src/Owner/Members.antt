-- ===== src/Owner/Members.antt =====
-- The members that the compiler writes for the classes with one descriptor: the default
-- constructors, the move constructors and the move assignments, which are those of the descriptor.
-- A move returns the new object, or `*this`, and the object that was moved from.
use pposix.Descriptor.{null_descriptor, move_construct, move_assign, destroy as destroy_descriptor}
use pposix.Errno.{Sys}
use pposix.Epoll.{Epoll}
use pposix.File.{File}
use pposix.FileDescriptor.{Unistd, file_descriptor}
use pposix.Mman.{MmanApi, Mmap, Shm, unique_mmap_d}
use pposix.Mqueue.{MqApi, Mq, unique_mq_d}
use pposix.Base.{ℕ}
use pposix.Socket.{SocketApi, Socket, unique_socket_fd}

module _ {K : Type 0} (os : Unistd K) where
  -- `file()`, `file(file &&)`
  unfoldable pub default_file : File
  unfolding null_descriptor
  default_file = record { fd_ = null_descriptor (file_descriptor os) }

  unfoldable pub move_file : File → File × File
  unfolding move_construct
  move_file other =
      let (new, moved) = move_construct (file_descriptor os) other.fd_ in
      (record { fd_ = new }, record { fd_ = moved })

-- `operator=(file &&)`
unfoldable pub assign_file : File → File → File × File
unfolding move_assign
assign_file this other =
    let (new, old) = move_assign this.fd_ other.fd_ in (record { fd_ = new }, record { fd_ = old })

module _ {K : Type 0} (os : MqApi K) where
  -- `mq()`, `mq(mq &&)`
  unfoldable pub default_mq : Mq
  unfolding null_descriptor
  default_mq = record { mq_d_ = null_descriptor (unique_mq_d os) }

  unfoldable pub move_mq : Mq → Mq × Mq
  unfolding move_construct
  move_mq other =
      let (new, moved) = move_construct (unique_mq_d os) other.mq_d_ in
      (record { mq_d_ = new }, record { mq_d_ = moved })

-- `operator=(mq &&)`
unfoldable pub assign_mq : Mq → Mq → Mq × Mq
unfolding move_assign
assign_mq this other =
    let (new, old) = move_assign this.mq_d_ other.mq_d_ in
    (record { mq_d_ = new }, record { mq_d_ = old })

module _ {K : Type 0} (os : Unistd K) where
  -- `epoll()`, `epoll(epoll &&)`
  unfoldable pub default_epoll : Epoll
  unfolding null_descriptor
  default_epoll = record { epoll_fd_ = null_descriptor (file_descriptor os) }

  unfoldable pub move_epoll : Epoll → Epoll × Epoll
  unfolding move_construct
  move_epoll other =
      let (new, moved) = move_construct (file_descriptor os) other.epoll_fd_ in
      (record { epoll_fd_ = new }, record { epoll_fd_ = moved })

-- `operator=(epoll &&)`
unfoldable pub assign_epoll : Epoll → Epoll → Epoll × Epoll
unfolding move_assign
assign_epoll this other =
    let (new, old) = move_assign this.epoll_fd_ other.epoll_fd_ in
    (record { epoll_fd_ = new }, record { epoll_fd_ = old })

module _ {K : Type 0} (os : SocketApi K) where
  -- `socket()`, `socket(socket &&)`
  unfoldable pub default_socket : Socket
  unfolding null_descriptor
  default_socket = record { socket_fd_ = null_descriptor (unique_socket_fd os) }

  unfoldable pub move_socket : Socket → Socket × Socket
  unfolding move_construct
  move_socket other =
      let (new, moved) = move_construct (unique_socket_fd os) other.socket_fd_ in
      (record { socket_fd_ = new }, record { socket_fd_ = moved })

-- `operator=(socket &&)`
unfoldable pub assign_socket : Socket → Socket → Socket × Socket
unfolding move_assign
assign_socket this other =
    let (new, old) = move_assign this.socket_fd_ other.socket_fd_ in
    (record { socket_fd_ = new }, record { socket_fd_ = old })

module _ {K : Type 0} (os : MmanApi K) (map_failed : ℕ) where
  -- `mmap()`, `mmap(mmap &&)`
  unfoldable pub default_mmap : Mmap
  unfolding null_descriptor
  default_mmap = record { mmap_d_ = null_descriptor (unique_mmap_d os map_failed) }

  unfoldable pub move_mmap : Mmap → Mmap × Mmap
  unfolding move_construct
  move_mmap other =
      let (new, moved) = move_construct (unique_mmap_d os map_failed) other.mmap_d_ in
      (record { mmap_d_ = new }, record { mmap_d_ = moved })

-- `operator=(mmap &&)`
unfoldable pub assign_mmap : Mmap → Mmap → Mmap × Mmap
unfolding move_assign
assign_mmap this other =
    let (new, old) = move_assign this.mmap_d_ other.mmap_d_ in
    (record { mmap_d_ = new }, record { mmap_d_ = old })

module _ {K : Type 0} (os : Unistd K) where
  -- `shm()`, `shm(shm &&)`
  unfoldable pub default_shm : Shm
  unfolding null_descriptor
  default_shm = record { shm_fd_ = null_descriptor (file_descriptor os) }

  -- The destructor.
  unfoldable pub destroy_shm : Shm → Sys K (Unit {0})
  unfolding destroy_descriptor
  destroy_shm s = destroy_descriptor (file_descriptor os) s.shm_fd_

  unfoldable pub move_shm : Shm → Shm × Shm
  unfolding move_construct
  move_shm other =
      let (new, moved) = move_construct (file_descriptor os) other.shm_fd_ in
      (record { shm_fd_ = new }, record { shm_fd_ = moved })

-- `operator=(shm &&)`
unfoldable pub assign_shm : Shm → Shm → Shm × Shm
unfolding move_assign
assign_shm this other =
    let (new, old) = move_assign this.shm_fd_ other.shm_fd_ in
    (record { shm_fd_ = new }, record { shm_fd_ = old })
