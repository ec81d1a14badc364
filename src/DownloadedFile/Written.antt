-- ===== src/DownloadedFile/Written.antt =====
-- downloaded_file.c: what a call of `write_to_file` that returns true has written.
use btb.DownloadedFile.{DownloadedFile, Disk, write_to_file, write_opened, write_loop}
use btb.DownloadedFile.Laws.{
  IsDownloadedFile, IsComplete, present, is_some, slot, joined, length-joined, has_all_pieces_iff,
}
use btb.Base.{
  ℕ, zero, suc, ◌+◌, ◌<◌, ◌≡◌, refl, sym, ◌∙◌, Bool, true, false, List, ◌++◌, Option, none, some,
  Result, ok, ◌*◌, length, length-append, get_elem?, Option-cases, >>=-ok, arith, ◌==◌,
  append_assoc, append-nil, read_range_all, through_int, take, or_fault, Bool-cases, inl, inr,
}

abbrev Written : Type 0
Written = List ℕ × Bool

abbrev stops : List ℕ → Bool → Result Written
stops out r = ok (out, r)

write_loop-true :
    (left i : ℕ) (df : DownloadedFile) (disk : Disk) (contents out : List ℕ)
    → IsComplete df
    → i + left ≡ df.tf.num_pieces
    → write_loop left i df disk contents ≡ stops out true
    → out ≡ contents ++ joined left i df.pieces_buf
unfolding write_loop
write_loop-true zero i df disk contents out all e h =
    let same : contents ≡ out = cc in rw (append-nil contents) (sym same)
write_loop-true (suc left) i df disk contents out all e h =
    let (bytes, at, sized) = all i (omega arith) in
    let whole = read_range_all bytes df.tf.piece_length sized in
    let rest = write_loop-true left (i + 1) df disk (contents ++ bytes) out all (omega arith) in
    elim (Bool-cases (through_int (disk.fwrite i df.tf.piece_length) == df.tf.piece_length)) [
      | inl full ↦ rw at (rest (rw (at, whole, full) at h) ∙ append_assoc contents bytes _)
      | inr part ↦
          let clash : stops (contents ++ take (disk.fwrite i df.tf.piece_length) bytes) false
              ≡ stops out true =
            rw (at, whole, part) at h in
          cc
    ]

abbrev Saved : Type 0
Saved = Option (List ℕ) × Bool

abbrev saved : List ℕ → Bool → Result Saved
saved out r = ok (some out, r)

abbrev saved_nothing : Result Saved
saved_nothing = ok (none, false)

loop_saved :
    (df : DownloadedFile) (disk : Disk) (out contents : List ℕ) (r : Bool)
    → IsComplete df
    → write_loop df.tf.num_pieces 0 df disk disk.after_remove ≡ stops out r
    → saved out r ≡ saved contents true
    → contents ≡ disk.after_remove ++ joined df.tf.num_pieces 0 df.pieces_buf
loop_saved df disk out contents false all looped e = cc
loop_saved df disk out contents true all looped e =
    let same : out ≡ contents = cc in
    sym same
    ∙ write_loop-true df.tf.num_pieces 0 df disk disk.after_remove out all (omega arith) looped

write_opened-true :
    (df : DownloadedFile) (disk : Disk) (contents : List ℕ) (opens : Bool)
    → IsComplete df
    → write_opened opens df disk ≡ saved contents true
    → contents ≡ disk.after_remove ++ joined df.tf.num_pieces 0 df.pieces_buf
unfolding write_opened
write_opened-true df disk contents false all e = cc
write_opened-true df disk contents true all e =
    let ((out, r), looped, next) =
      >>=-ok (write_loop df.tf.num_pieces 0 df disk disk.after_remove) _ e in
    loop_saved df disk out contents r all looped next

-- If the pieces have the torrent's piece length and `write_to_file` returns true with these contents
-- of the file, then every piece is present and the contents are what `remove` has left and all
-- pieces in order of their indices.
pub write_to_file-true :
    (df : DownloadedFile) (disk : Disk) (contents : List ℕ)
    → IsDownloadedFile df
    → (((j : ℕ) → j < df.tf.num_pieces → present df j ≡ true) → IsComplete df)
    → write_to_file df disk ≡ ok (some contents, true)
    → IsComplete df × (contents ≡ disk.after_remove ++ joined df.tf.num_pieces 0 df.pieces_buf)
unfolding write_to_file
write_to_file-true df disk contents v complete e =
    let (r, has, iff) = has_all_pieces_iff df v in
    elim (Bool-cases r) [
      | inl yes_all ↦
          let all = complete (iff.0 yes_all) in
          let (name, has_name, next) = >>=-ok (or_fault df.tf.name) _ (rw (has, yes_all) at e) in
          (all, write_opened-true df disk contents disk.opens all next)
      | inr missing ↦ let clash : saved_nothing ≡ saved contents true = rw (has, missing) at e in cc
    ]

pub present-slot : (o : Option (List ℕ)) → is_some o ≡ true → (bytes : List ℕ) × (o ≡ some bytes)
present-slot none h = cc
present-slot (some bytes) h = (bytes, refl)

pub slot-get_elem? :
    (pieces : List (Option (List ℕ))) (i : ℕ) (bytes : List ℕ)
    → slot pieces i ≡ some bytes
    → get_elem? pieces i ≡ some (some bytes)
slot-get_elem? pieces i bytes e = elim (Option-cases (get_elem? pieces i)) [
  | inl outside ↦ cc (outside, e)
  | inr (v, here) ↦ ground (arith, here, e)
]

-- If the file has a slot for each piece, the pieces in it have `piece_length` bytes each, and
-- `write_to_file` returns true with these contents of the output file, then they are what `remove`
-- has left and `num_pieces * piece_length` bytes more, whatever the torrent's `length` is.
pub length-write_to_file :
    (df : DownloadedFile) (disk : Disk) (contents : List ℕ)
    → IsDownloadedFile df
    → ((j : ℕ) (bytes : List ℕ)
        → slot df.pieces_buf j ≡ some bytes
        → length bytes ≡ df.tf.piece_length)
    → write_to_file df disk ≡ ok (some contents, true)
    → length contents ≡ length disk.after_remove + df.tf.num_pieces * df.tf.piece_length
length-write_to_file df disk contents v sized e =
    let (all, written) =
      write_to_file-true df disk contents v
        (λ here i h.
          let (bytes, at) = present-slot (slot df.pieces_buf i) (here i h) in
          (bytes, slot-get_elem? df.pieces_buf i bytes at, sized i bytes at))
        e in
    rw written (
      omega (
        arith,
        length-append disk.after_remove (joined df.tf.num_pieces 0 df.pieces_buf),
        length-joined df.tf.num_pieces 0 df all (omega arith),
      ))
