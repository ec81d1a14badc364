-- ===== src/FileBuf/Laws.antt =====
-- file_buf.c: what is written and read.
use btb.FileBuf.{FileBuf, InFile, read_file, init_file_buf, write_file}
use btb.Base.{
  ℕ, ◌^◌, ◌≤◌, ◌<◌, ◌≡◌, refl, true, false, List, none, some, ok, arith, length, take, take_all,
  read_range_all, ==_refl, le→leb, through_int, ◌==◌, pos,
}

-- The whole block.
pub record IsFileBuf (fb : FileBuf) : Type 0 where
  pub sized : length fb.content ≡ fb.size

-- The file with these bytes, on a disk that gives all of them.
abbrev pub holding : List ℕ → InFile
holding bytes = record { ftell = pos (length bytes); fread = λ n. take n bytes }

-- A file that `ftell` measures and `fread` gives whole is read whole, whatever its size is: there is
-- no limit of 4 GB.
pub read_file-whole :
    (bytes : List ℕ)
    → read_file (some (holding bytes)) ≡ ok (some (record { size = length bytes; content = bytes }))
unfolding read_file
read_file-whole bytes = rw (
  take_all (length bytes) bytes refl,
  le→leb (length bytes) (length bytes) (omega arith),
  ==_refl (length bytes),
)

-- Where `fread` gives fewer bytes than `ftell` has measured, the result is NULL.
pub read_file_short :
    (f : InFile) (size : ℕ)
    → f.ftell ≡ pos size
    → length (f.fread size) < size
    → read_file (some f) ≡ ok none
unfolding read_file
read_file_short f size measured short =
    rw measured (ground (arith, le→leb (length (f.fread size)) size))

-- A block of less than 2 ^ 31 bytes, copied into a file buffer and written to a file that opens by
-- a disk that takes every byte, is reported as written, and what the file then holds is read back
-- as the same file buffer.
pub write_file-read_file :
    (content : List ℕ) (fwrite : ℕ → ℕ)
    → length content < 2 ^ 31
    → fwrite (length content) ≡ length content
    → (fb : FileBuf) × (written : List ℕ) × (init_file_buf content (length content) ≡ ok fb)
      × (write_file true fwrite fb ≡ ok (some written, true))
      × (read_file (some (holding written)) ≡ ok (some fb))
unfolding init_file_buf write_file
write_file-read_file content fwrite small all =
    let n = length content in
    let whole = read_range_all content n refl in
    let int_lem : through_int n ≡ n = ground arith in
    (
      record { size = n; content = content },
      content,
      rw whole,
      rw (whole, all, int_lem, ==_refl n, take_all n content refl),
      read_file-whole content,
    )

-- For a block of less than 2 ^ 31 bytes of which the disk writes fewer, the call fails.
pub write_file_short :
    (fb : FileBuf) (fwrite : ℕ → ℕ)
    → IsFileBuf fb
    → fb.size < 2 ^ 31
    → fwrite fb.size < fb.size
    → write_file true fwrite fb ≡ ok (some (take (fwrite fb.size) fb.content), false)
unfolding write_file
write_file_short fb fwrite v small few =
    let other : (through_int (fwrite fb.size) == fb.size) ≡ false = ground arith in
    rw (read_range_all fb.content fb.size v.sized, other)

-- A block of 2 ^ 31 to 2 ^ 63 bytes that is written whole is reported as a failure, since the
-- number of bytes is held in an `int`.
pub write_file_large :
    (fb : FileBuf)
    → IsFileBuf fb
    → 2 ^ 31 ≤ fb.size
    → fb.size < 2 ^ 63
    → write_file true (λ n. n) fb ≡ ok (some fb.content, false)
unfolding write_file
write_file_large fb v large small =
    let other : (through_int fb.size == fb.size) ≡ false = ground arith in
    rw (read_range_all fb.content fb.size v.sized, take_all fb.size fb.content v.sized, other)
