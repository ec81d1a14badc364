-- ===== src/TorrentFile/Parse/Hashes.antt =====
-- The hashes of the pieces: the blob of a torrent file, cut into its parts.
use btb.TorrentFile.Parse.{copy_hashes}
use btb.Base.{
  ℕ, ◌+◌, ◌*◌, ◌≡◌, refl, List, [], ◌∷◌, ◌++◌, ok, length, All, arith, append_assoc, length-append,
  read_range, read_range-append,
}

abbrev pub IsHash : List ℕ → Type 0
IsHash hash = length hash ≡ 20

abbrev pub blob : List (List ℕ) → List ℕ
blob [] = []
blob (hash ∷ hashes) = hash ++ blob hashes

pub length-blob :
    (hashes : List (List ℕ)) → All IsHash hashes → length (blob hashes) ≡ 20 * length hashes
length-blob [] all = refl
length-blob (hash ∷ hashes) (h, all) =
    omega (arith, h, length-append hash (blob hashes), length-blob hashes all)

copy_hashes_from :
    (hashes : List (List ℕ)) (i : ℕ) (before : List ℕ)
    → All IsHash hashes
    → length before ≡ 20 * i
    → copy_hashes (length hashes) i (before ++ blob hashes) ≡ ok hashes
unfolding copy_hashes
copy_hashes_from [] i before all at = refl
copy_hashes_from (hash ∷ hashes) i before (h, all) at =
    let this : read_range (before ++ (hash ++ blob hashes)) (20 * i) 20 ≡ ok hash =
      rw (← at, ← h) (read_range-append before hash (blob hashes)) in
    let next =
      copy_hashes_from hashes (i + 1) (before ++ hash) all
        (omega (arith, length-append before hash)) in
    rw (this, ← append_assoc before hash (blob hashes), next) refl

pub copy_hashes-blob :
    (hashes : List (List ℕ))
    → All IsHash hashes
    → copy_hashes (length hashes) 0 (blob hashes) ≡ ok hashes
copy_hashes-blob hashes all = copy_hashes_from hashes 0 [] all refl
