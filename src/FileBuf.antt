-- ===== src/FileBuf.antt =====
-- src/file_buf.c: a whole file in memory. What the C library answers is an argument.
pub mod Laws
use btb.Base.{
  ℕ, ◌+◌, Bool, true, false, List, Option, none, some, Result, ok, fault, ◌>>=◌, ◌>>◌, defined, leb,
  ◌==◌, if◌then◌else◌, length, take, read_range, through_int, ℤ, pos, negsuc,
}

pub record FileBuf : Type 0 where
  pub size : ℕ
  -- the field `data`
  pub content : List ℕ

-- A file that `fopen` has opened for reading: what `ftell` answers at its end, and the bytes that
-- `fread` writes when it is asked for so many.
pub record InFile : Type 0 where
  pub ftell : ℤ
  pub fread : ℕ → List ℕ

-- The rest of `read_file` with the length that `ftell` gave. Where `ftell` fails, `malloc` yields
-- NULL for the length converted to `size_t`, and `fread` is given this NULL.
read_all : InFile → ℤ → Result (Option FileBuf)
read_all f (negsuc n) = fault
read_all f (pos size) = do
  let content = f.fread size
  defined (leb (length content) size)
  ok (if length content == size then some (record { size = size; content = content }) else none)

-- `none` as the argument: `fopen` fails. `none` as the result is NULL.
unfoldable pub read_file : Option InFile → Result (Option FileBuf)
unfolding read_all
read_file none = ok none
read_file (some f) = read_all f f.ftell

unfoldable pub init_file_buf : List ℕ → ℕ → Result FileBuf
init_file_buf content size = do
  bytes ← read_range content 0 size
  ok (record { size = size; content = bytes })

-- The contents of the file after the call (`none` where it was not opened) and the result.
-- `opens` is what `fopen` does, and `fwrite` how many of so many bytes are written.
unfoldable pub write_file : Bool → (ℕ → ℕ) → FileBuf → Result (Option (List ℕ) × Bool)
write_file opens fwrite fb = do
  bytes ← read_range fb.content 0 fb.size
  let bytes_written = fwrite fb.size
  ok (
      if opens
      then (some (take bytes_written bytes), through_int bytes_written == fb.size)
      else (none, false))
