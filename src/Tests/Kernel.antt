-- ===== src/Tests/Kernel.antt =====
-- A small kernel: the open descriptors, and how many calls of `::close` it has seen.
use pposix.Base.{ℕ, ℤ, pos, minus_one, ◌+◌, ◌==◌, ◌==ℤ◌, List, [], ◌∷◌, if◌then◌else◌, any}
use pposix.Errno.{World, Sys}
use pposix.FileDescriptor.{Unistd}
use pposix.Fcntl.{FcntlApi}

pub record Kernel : Type 0 where
  pub open_fds : List ℤ
  pub close_calls : ℕ
  pub mask : ℕ

abbrev without : ℤ → List ℤ → List ℤ
without fd [] = []
without fd (x ∷ xs) = if x ==ℤ fd then without fd xs else x ∷ without fd xs

-- EBADF
abbrev pub ebadf : ℤ
ebadf = pos 9

-- ENOENT
abbrev pub enoent : ℤ
enoent = pos 2

abbrev pub kernel : List ℤ → ℕ → Kernel
kernel fds n = record { open_fds = fds; close_calls = n; mask = 0 }

abbrev pub world : ℤ → Kernel → World Kernel
world e k = record { errno = e; kernel = k }

abbrev pub fail : {A : Type 0} → ℤ → A → Sys Kernel A
fail e a w = (a, record w { errno = e })

abbrev pub kernel_close : ℤ → Sys Kernel ℤ
kernel_close fd w =
    let k : Kernel = record (w.kernel) { close_calls = w.kernel.close_calls + 1 } in
    if any (λ x. x ==ℤ fd) w.kernel.open_fds
    then (pos 0, record w { kernel = record k { open_fds = without fd w.kernel.open_fds } })
    else (minus_one, record { errno = ebadf; kernel = k })

abbrev pub unistd : Unistd Kernel
unistd = record {
  close = kernel_close;
  lseek = λ fd offset whence w. (offset, w);
  read = λ fd buffer size w. (pos size, w);
  write = λ fd buffer size w. (pos size, w);
}

-- Only the path at address 16 exists, and it opens as number 3.
abbrev pub kernel_open : ℕ → Sys Kernel ℤ
kernel_open path w = if path == 16 then (pos 3, w) else (minus_one, record w { errno = enoent })

abbrev pub fcntl_api : FcntlApi Kernel
fcntl_api = record {
  fcntl = λ fd cmd w. (pos 0, w);
  fcntl_int = λ fd cmd arg w. (pos 0, w);
  fcntl_pointer = λ fd cmd arg w. (pos 0, w);
  open_path = λ path flags. kernel_open path;
  open_path_mode = λ path flags mode. kernel_open path;
}
