-- ===== src/DownloadedFile/Laws.antt =====
-- downloaded_file.c: which pieces are present, and what the output file holds.
use btb.Base.{
  ℕ, zero, suc, ◌+◌, ◌*◌, ◌^◌, ◌≤◌, ◌<◌, ◌≡◌, refl, ◌∙◌, Bool, true, false, List, [], ◌∷◌, ◌++◌,
  Option, none, some, ok, arith, ◌==◌, if◌then◌else◌, length, set, get_elem?, drop, ◌↔◌,
  Option-cases, Bool-cases, inl, inr, get_elem?-some, le→leb, lt→ltb, length-set,
  get_elem?-set_self, through_int, ap, or_fault, ◌>>=◌, append_assoc, append-nil, length-append,
  read_range_all, ==_refl,
}
use btb.PieceProgress.{PieceProgress}
use btb.DownloadedFile.{
  DownloadedFile, Disk, add_piece, has_all_pieces, has_all_pieces_loop, write_to_file, write_opened,
  write_loop,
}

-- One slot for each piece of the torrent.
pub record IsDownloadedFile (df : DownloadedFile) : Type 0 where
  pub slots : length df.pieces_buf ≡ df.tf.num_pieces

abbrev pub slot : List (Option (List ℕ)) → ℕ → Option (List ℕ)
slot pieces i = elim (get_elem? pieces i) [ none ↦ none | some piece ↦ piece ]

abbrev pub is_some : Option (List ℕ) → Bool
is_some none = false
is_some (some bytes) = true

-- The piece was added.
abbrev pub present : DownloadedFile → ℕ → Bool
present df i = is_some (slot df.pieces_buf i)

pub slot-set :
    (pieces : List (Option (List ℕ))) (i j : ℕ) (bytes : List ℕ)
    → i < length pieces
    → is_some (slot (set pieces i (some bytes)) j)
      ≡ (if i == j then true else is_some (slot pieces j))
slot-set [] i j bytes h = elim h [ ]
slot-set (x ∷ pieces) zero zero bytes h = refl
slot-set (x ∷ pieces) zero (suc j) bytes h = ground arith
slot-set (x ∷ pieces) (suc i) zero bytes h = ground arith
slot-set (x ∷ pieces) (suc i) (suc j) bytes h = ground (arith, slot-set pieces i j bytes)

-- For a file with a slot for each piece, a piece whose index is inside, and a buffer of the
-- piece's size that fits the new block, `add_piece` returns a file of the same torrent in which
-- the slot holds the buffer and the rest of the new block, and every other piece is present or not
-- as before.
pub add_piece_lem :
    (df : DownloadedFile) (pp : PieceProgress) (block : List ℕ)
    → IsDownloadedFile df
    → pp.index < df.tf.num_pieces
    → length pp.buf ≡ pp.size
    → pp.size ≤ length block
    → (df' : DownloadedFile) × (add_piece df pp block ≡ ok df')
      × IsDownloadedFile df'
      × (df'.tf ≡ df.tf)
      × (get_elem? df'.pieces_buf pp.index ≡ some (some (pp.buf ++ drop pp.size block)))
      × ((j : ℕ) → present df' j ≡ (if pp.index == j then true else present df j))
unfolding add_piece
add_piece_lem df pp block v inside sized fits =
    let whole = pp.buf ++ drop pp.size block in
    let at_end : 0 + length pp.buf ≡ pp.size = omega arith in
    let room : pp.index < length df.pieces_buf = omega (arith, v.slots) in
    (
      record df { pieces_buf = set df.pieces_buf pp.index (some whole) },
      rw (
        read_range_all pp.buf pp.size sized,
        at_end,
        le→leb pp.size (length block) fits,
        lt→ltb pp.index (length df.pieces_buf) room,
      ),
      record { slots = length-set df.pieces_buf pp.index (some whole) ∙ v.slots },
      refl,
      get_elem?-set_self df.pieces_buf pp.index (some whole) room,
      λ j. slot-set df.pieces_buf pp.index j whole room,
    )

-- The answer of a search for a missing slot among the `left` slots from `i` on.
abbrev AllPresent : ℕ → ℕ → List (Option (List ℕ)) → Type 0
AllPresent left i pieces = (j : ℕ) → i ≤ j → j < i + left → is_some (slot pieces j) ≡ true

has_all_pieces_loop_iff :
    (left i : ℕ) (pieces : List (Option (List ℕ)))
    → i + left ≤ length pieces
    → (r : Bool) × (has_all_pieces_loop left i pieces ≡ ok r)
      × ((r ≡ true) ↔ AllPresent left i pieces)
unfolding has_all_pieces_loop
has_all_pieces_loop_iff zero i pieces h =
    (true, refl, (λ e j lo hi. absurd (omega arith), λ all. refl))
has_all_pieces_loop_iff (suc left) i pieces h =
    let (piece, at) = get_elem?-some pieces i (omega arith) in
    elim (Option-cases piece) [
      | inl gone ↦ (
        false,
        rw (at, gone),
        (λ e. cc, λ all. ground (arith, all i (omega arith) (omega arith))),
      )
      | inr (bytes, here) ↦
          let (r, e, iff) = has_all_pieces_loop_iff left (i + 1) pieces (omega arith) in
          (
            r,
            rw (at, here) e,
            (
              λ yes_all j lo hi. ground (arith, iff.0 yes_all j),
              λ all. iff.1 (λ j lo hi. all j (omega arith) (omega arith)),
            ),
          )
    ]

-- For a file with a slot for each piece, `has_all_pieces` returns, and answers true exactly if
-- every slot is filled.
pub has_all_pieces_iff :
    (df : DownloadedFile)
    → IsDownloadedFile df
    → (r : Bool) × (has_all_pieces df ≡ ok r)
      × ((r ≡ true) ↔ ((j : ℕ) → j < df.tf.num_pieces → present df j ≡ true))
unfolding has_all_pieces
has_all_pieces_iff df v =
    let (r, e, iff) =
      has_all_pieces_loop_iff df.tf.num_pieces 0 df.pieces_buf (omega (arith, v.slots)) in
    (
      r,
      e,
      (
        λ t j h. iff.0 t j (omega arith) (omega arith),
        λ all. iff.1 (λ j lo hi. all j (omega arith)),
      ),
    )

-- The bytes of the `left` pieces from `i` on, in order of their indices.
abbrev pub joined : ℕ → ℕ → List (Option (List ℕ)) → List ℕ
joined zero i pieces = []
joined (suc left) i pieces =
    (elim (slot pieces i) [ none ↦ [] | some bytes ↦ bytes ]) ++ joined left (i + 1) pieces

-- Every slot holds a whole piece.
abbrev pub IsComplete : DownloadedFile → Type 0
IsComplete df =
    (i : ℕ)
    → i < df.tf.num_pieces
    → (bytes : List ℕ) × (get_elem? df.pieces_buf i ≡ some (some bytes))
      × (length bytes ≡ df.tf.piece_length)

through_int_small : (n : ℕ) → n < 2 ^ 31 → through_int n ≡ n
through_int_small n h = ground arith

write_loop_lem :
    (left i : ℕ) (df : DownloadedFile) (disk : Disk) (contents : List ℕ)
    → IsComplete df
    → i + left ≡ df.tf.num_pieces
    → df.tf.piece_length < 2 ^ 31
    → ((k : ℕ) → disk.fwrite k df.tf.piece_length ≡ df.tf.piece_length)
    → write_loop left i df disk contents ≡ ok (contents ++ joined left i df.pieces_buf, true)
unfolding write_loop
write_loop_lem zero i df disk contents all e small full = rw (append-nil contents)
write_loop_lem (suc left) i df disk contents all e small full =
    let (bytes, at, sized) = all i (omega arith) in
    let rest =
      write_loop_lem left (i + 1) df disk (contents ++ bytes) all (omega arith) small full in
    rw
      (
        at,
        read_range_all bytes df.tf.piece_length sized,
        full i,
        through_int_small df.tf.piece_length small,
        ==_refl df.tf.piece_length,
      )
      (rest ∙ rw append_assoc)

complete-present :
    (df : DownloadedFile) → IsComplete df → (j : ℕ) → j < df.tf.num_pieces → present df j ≡ true
complete-present df all j h = let (bytes, at, sized) = all j h in ground arith

-- With a piece of `piece_length` bytes, less than 2 ^ 31, in every slot, a file name, a file that
-- opens and a disk that takes all bytes, `write_to_file` returns true and leaves what `remove`
-- left of the file followed by the pieces in order of their indices.
pub write_to_file_lem :
    (df : DownloadedFile) (disk : Disk) (file_name : List ℕ)
    → IsDownloadedFile df
    → IsComplete df
    → df.tf.name ≡ some file_name
    → df.tf.piece_length < 2 ^ 31
    → disk.opens ≡ true
    → ((k : ℕ) → disk.fwrite k df.tf.piece_length ≡ df.tf.piece_length)
    → write_to_file df disk
      ≡ ok (some (disk.after_remove ++ joined df.tf.num_pieces 0 df.pieces_buf), true)
unfolding write_to_file write_opened
write_to_file_lem df disk file_name v all named small opens full =
    let (r, e, iff) = has_all_pieces_iff df v in
    let loop =
      write_loop_lem df.tf.num_pieces 0 df disk disk.after_remove all (omega arith) small full in
    let written : write_opened true df disk
        ≡ ok (some (disk.after_remove ++ joined df.tf.num_pieces 0 df.pieces_buf), true) =
      rw loop refl in
    rw (e, iff.1 (complete-present df all))
      (ap (λ (o : Option (List ℕ)). or_fault o >>= λ name. write_opened disk.opens df disk) named
        ∙ ap (λ (b : Bool). write_opened b df disk) opens
        ∙ written)

-- For a file with a slot for each piece of which one is empty, `write_to_file` returns false and
-- does not open the output file.
pub write_to_file_missing :
    (df : DownloadedFile) (disk : Disk) (j : ℕ)
    → IsDownloadedFile df
    → j < df.tf.num_pieces
    → present df j ≡ false
    → write_to_file df disk ≡ ok (none, false)
unfolding write_to_file
write_to_file_missing df disk j v h gone =
    let (r, e, iff) = has_all_pieces_iff df v in
    elim (Bool-cases r) [ inl t ↦ cc (iff.0 t j h) | inr f ↦ rw (e, f) ]

pub length-joined :
    (left i : ℕ) (df : DownloadedFile)
    → IsComplete df
    → i + left ≡ df.tf.num_pieces
    → length (joined left i df.pieces_buf) ≡ left * df.tf.piece_length
length-joined zero i df all e = omega arith
length-joined (suc left) i df all e =
    let (bytes, at, sized) = all i (omega arith) in
    rw at (
      omega (
        arith,
        length-append bytes (joined left (i + 1) df.pieces_buf),
        length-joined left (i + 1) df all (omega arith),
        sized,
      ))
