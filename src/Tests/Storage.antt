-- ===== src/Tests/Storage.antt =====
-- A file, number 3, in a small kernel that keeps its content and writes at most three bytes a call.
use pposix.Base.{
  ℕ, ℤ, zero, suc, pos, minus_one, ◌+◌, ◌≤◌, ◌<◌, ◌≡◌, refl, ap, List, [], ◌∷◌, length, take, drop,
  min, arith,
}
use pposix.Descriptor.{raw}
use pposix.Errno.{World, Sys}
use pposix.File.{SeekMacro, file}
use pposix.File.RoundTrip.{overwrite, KeepsContent, write_and_read, write_and_read_lem}
use pposix.FileDescriptor.{Unistd, raw_fd}
use pposix.Result.{Result, ok}
use pposix.Span.Bytes.{byte_span_of, byte_cspan_of}

-- Exactly `n` bytes, with zeros behind the ones that are there.
abbrev fit : ℕ → List ℕ → List ℕ
fit zero xs = []
fit (suc n) [] = 0 ∷ fit n []
fit (suc n) (x ∷ xs) = x ∷ fit n xs

length-fit : (n : ℕ) (xs : List ℕ) → length (fit n xs) ≡ n
length-fit zero xs = refl
length-fit (suc n) [] = ap suc (length-fit n [])
length-fit (suc n) (x ∷ xs) = ap suc (length-fit n xs)

fit-take : (n : ℕ) (xs : List ℕ) → n ≤ length xs → fit n xs ≡ take n xs
fit-take zero xs le = refl
fit-take (suc n) [] le = absurd (omega arith)
fit-take (suc n) (x ∷ xs) le = ap (◌∷◌ x) (fit-take n xs (omega arith))

-- What the process has from each address on.
record FileKernel : Type 0 where
  content : List ℕ
  offset : ℕ
  memory : ℕ → List ℕ

abbrev bytes : FileKernel → (address count : ℕ) → List ℕ
bytes k address count = fit count (k.memory address)

abbrev write : (address count : ℕ) → Sys FileKernel ℤ
write address count w =
    let n = min 3 count in
    let k = w.kernel in
    (
      pos n,
      record w {
        kernel = record k {
          content = overwrite k.offset (bytes k address n) k.content;
          offset = k.offset + n;
        };
      },
    )

abbrev left : FileKernel → List ℕ
left k = drop k.offset k.content

abbrev read : (address count : ℕ) → Sys FileKernel ℤ
read address count w =
    let n = min count (length (left w.kernel)) in
    let k = w.kernel in
    (pos n, record w { kernel = record k { offset = k.offset + n; memory = λ a. left k } })

-- Every offset counts from the beginning.
abbrev seek : ℤ → Sys FileKernel ℤ
seek (pos to) w = (pos to, record w { kernel = record (w.kernel) { offset = to } })
seek other w = (minus_one, w)

abbrev unistd : Unistd FileKernel
unistd = record {
  close = λ fd w. (pos 0, w);
  lseek = λ fd offset whence. seek offset;
  read = λ fd. read;
  write = λ fd. write;
}

abbrev seeks : SeekMacro → ℤ
seeks whence = pos 0

unfoldable keeps : KeepsContent unistd seeks (pos 3)
keeps = record {
  content = λ k. k.content;
  offset = λ k. k.offset;
  bytes = bytes;
  length-bytes = λ k address count. length-fit count (k.memory address);
  write = λ address count w some. (min 3 count, omega arith, omega arith, refl, refl);
  seek = λ to w. (refl, refl, refl);
  read = λ address count w some.
      let n = min count (length (left w.kernel)) in
      (
        n,
        omega arith,
        omega arith,
        λ more. omega arith,
        refl,
        fit-take n (left w.kernel) (omega arith),
      );
}

-- "hello" is written over the end of "file".
abbrev at_start : World FileKernel
at_start = record {
  errno = pos 0;
  kernel = record {
    content = b'f' ∷ b'i' ∷ b'l' ∷ b'e' ∷ [];
    offset = 3;
    memory = λ a. b'h' ∷ b'e' ∷ b'l' ∷ b'l' ∷ b'o' ∷ [];
  };
}

write_and_read_lem_example :
    let r =
      write_and_read unistd seeks
        (file (raw_fd (pos 3)))
        (byte_cspan_of 16 5)
        (pos 3)
        (byte_span_of 64 8)
        at_start in
    (n : ℕ) × (k : ℕ) × (0 < n)
    × (n ≤ 5)
    × (0 < k)
    × (k ≤ 8)
    × (◌≡◌ {A = Result ℤ × Result ℤ × Result ℤ} r.0 (ok (pos n), ok (pos 3), ok (pos k)))
    × (take n (bytes r.1.kernel 64 k) ≡ take k (bytes at_start.kernel 16 n))
unfolding keeps file raw
write_and_read_lem_example =
    write_and_read_lem unistd seeks (file (raw_fd (pos 3))) keeps (byte_cspan_of 16 5)
      (byte_span_of 64 8) at_start (omega arith) (omega arith)
