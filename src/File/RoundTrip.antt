-- ===== src/File/RoundTrip.antt =====
-- Writing to a file, seeking back and reading: `write`, `lseek` and `read` of src/file.cpp one after
-- the other.
use pposix.Base.{
  ℕ, ℤ, zero, suc, pos, ◌≤◌, ◌<◌, ◌≡◌, refl, sym, ◌∙◌, ap, ap₂, List, [], ◌∷◌, ◌++◌, length, take,
  drop, arith,
}
use pposix.Call.{common_result_call, common_result_call_lem}
use pposix.Descriptor.{raw}
use pposix.Errno.{World, Sys, ◌>>=◌, pure}
use pposix.File.{File, SeekMacro, seek_set, set, file_seek, write, lseek, read}
use pposix.FileDescriptor.{Unistd, raw_fd_t}
use pposix.Result.{Result, ok}
use pposix.Span.Bytes.{ByteSpan, ByteCspan}

-- The content of a file after `new` was written at an offset; a gap before it is filled with zeros.
abbrev pub overwrite : ℕ → List ℕ → List ℕ → List ℕ
overwrite zero new old = new ++ drop (length new) old
overwrite (suc o) new [] = 0 ∷ overwrite o new []
overwrite (suc o) new (b ∷ old) = b ∷ overwrite o new old

drop-overwrite :
    (o : ℕ) (new old : List ℕ) → (rest : List ℕ) × (drop o (overwrite o new old) ≡ new ++ rest)
drop-overwrite zero new old = (drop (length new) old, refl)
drop-overwrite (suc o) new [] = drop-overwrite o new []
drop-overwrite (suc o) new (b ∷ old) = drop-overwrite o new old

take-take : (new rest : List ℕ) (k : ℕ) → take (length new) (take k (new ++ rest)) ≡ take k new
take-take [] rest zero = refl
take-take [] rest (suc k) = refl
take-take (b ∷ new) rest zero = refl
take-take (b ∷ new) rest (suc k) = ap (◌∷◌ b) (take-take new rest k)

length-++ : (new rest : List ℕ) → length new ≤ length (new ++ rest)
length-++ [] rest = omega arith
length-++ (b ∷ new) rest = omega (arith, length-++ new rest)

-- What <unistd.h> says of a regular file `fd` that can be read and written and that no signal and no
-- full device disturbs: a call may still move fewer bytes than it is asked to.
pub record KeepsContent {K : Type 0} (os : Unistd K) (seeks : SeekMacro → ℤ) (fd : ℤ) : Type 0 where
  pub content : K → List ℕ
  pub offset : K → ℕ
  -- The bytes that the process has at an address.
  pub bytes : K → (address count : ℕ) → List ℕ
  pub length-bytes : (k : K) (address count : ℕ) → length (bytes k address count) ≡ count
  pub write :
      (address count : ℕ) (w : World K)
      → 0 < count
      → let r = os.write fd address count w in
        (n : ℕ) × (0 < n)
        × (n ≤ count)
        × (r.0 ≡ pos n)
        × (content r.1.kernel
            ≡ overwrite (offset w.kernel) (bytes w.kernel address n) (content w.kernel))
  pub seek :
      (to : ℕ) (w : World K)
      → let r = os.lseek fd (pos to) (seeks seek_set) w in
        (r.0 ≡ pos to) × (offset r.1.kernel ≡ to) × (content r.1.kernel ≡ content w.kernel)
  pub read :
      (address count : ℕ) (w : World K)
      → 0 < count
      → let r = os.read fd address count w in
        let left = drop (offset w.kernel) (content w.kernel) in
        (k : ℕ) × (k ≤ count)
        × (k ≤ length left)
        × (0 < length left → 0 < k)
        × (r.0 ≡ pos k)
        × (bytes r.1.kernel address k ≡ take k left)

module _ {K : Type 0} (os : Unistd K) (seeks : SeekMacro → ℤ) where
  -- The bytes of `source` are written, and what was written from `start` on is read into `target`.
  unfoldable pub write_and_read :
      File → ByteCspan → ℤ → ByteSpan → Sys K (Result ℤ × Result ℤ × Result ℤ)
  unfolding write lseek read
  write_and_read f source start target = do
    written ← write os f source
    sought ← lseek os seeks f start set
    got ← read os f target
    pure (written, sought, got)

  succeeds :
      (call : Sys K ℤ) (w : World K) (n : ℕ)
      → (call w).0 ≡ pos n
      → common_result_call call w ≡ (ok (pos n), (call w).1)
  succeeds call w n e = common_result_call_lem call w ∙ rw e refl

  module _ (f : File) (kept : KeepsContent os seeks (raw_fd_t (raw f.fd_))) where
    open kept use {content, offset, bytes, length-bytes}

    -- With a kernel that keeps the content of the file as `KeepsContent` says: when some bytes are
    -- written to it, the offset is set back to where it was, and it is
    -- read into a buffer with room for some bytes, every call succeeds: a number of bytes above 0 and
    -- not above those asked for is written, the new offset is the old one, and a number of bytes above
    -- 0 and not above the room is read. What is read agrees with what was written for as long as both
    -- are.
    pub write_and_read_lem :
        (source : ByteCspan) (target : ByteSpan) (w : World K)
        → 0 < source.length_
        → 0 < target.length_
        → let start = offset w.kernel in
          let r = write_and_read f source (pos start) target w in
          (n : ℕ) × (k : ℕ) × (0 < n)
          × (n ≤ source.length_)
          × (0 < k)
          × (k ≤ target.length_)
          × (r.0 ≡ (ok (pos n), ok (pos start), ok (pos k)))
          × (take n (bytes r.1.kernel target.buffer_ k) ≡ take k (bytes w.kernel source.buffer_ n))
    unfolding write_and_read write lseek read file_seek
    write_and_read_lem source target w some_source some_target =
        let fd = raw_fd_t (raw f.fd_) in
        let start = offset w.kernel in
        let (n, some, fits, wrote, changed) =
          kept.write source.buffer_ source.length_ w some_source in
        let w1 = (os.write fd source.buffer_ source.length_ w).1 in
        let (at, moved, same) = kept.seek start w1 in
        let w2 = (os.lseek fd (pos start) (seeks seek_set) w1).1 in
        let (k, fewer, there, more, got, seen) =
          kept.read target.buffer_ target.length_ w2 some_target in
        let new = bytes w.kernel source.buffer_ n in
        let (rest, split) = drop-overwrite start new (content w.kernel) in
        let left = ap₂ drop moved (same ∙ changed) ∙ split in
        let step1 = succeeds (os.write fd source.buffer_ source.length_) w n wrote in
        let step2 = succeeds (os.lseek fd (pos start) (seeks seek_set)) w1 start at in
        let step3 = succeeds (os.read fd target.buffer_ target.length_) w2 k got in
        let size = length-bytes w.kernel source.buffer_ n in
        (
          n,
          k,
          some,
          fits,
          more (rw left (omega (arith, size, length-++ new rest))),
          fewer,
          rw (step1, step2, step3) refl,
          rw (step1, step2, step3, seen, left)
              (ap (λ c. take c (take k (new ++ rest))) (sym size) ∙ take-take new rest k),
        )
