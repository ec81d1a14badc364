-- ===== src/Tests/Files.antt =====
-- Small and large files, and the command line.
use btb.FileBuf.{FileBuf, write_file}
use btb.FileBuf.Laws.{IsFileBuf, write_file_large}
use btb.HandshakeMsg.{codes}
use btb.Main.{action, told, Main-status}
use btb.Client.Download.{Machine}
use btb.Base.{
  ℕ, Bool, Option, inr, ◌^◌, ◌≡◌, ◌↔◌, refl, true, false, List, [], ◌∷◌, some, none, ok, replicate,
  length, length-replicate, arith,
}

zeros : ℕ → List ℕ
zeros n = replicate n 0

length-zeros : (n : ℕ) → length (zeros n) ≡ n
unfolding zeros
length-zeros n = length-replicate n 0

-- A block of 2 GB.
abbrev large : FileBuf
large = record { size = 2 ^ 31; content = zeros (2 ^ 31) }

large-IsFileBuf : IsFileBuf large
large-IsFileBuf = record { sized = length-zeros (2 ^ 31) }

write_file_large_example : write_file true (λ n. n) large ≡ ok (some (zeros (2 ^ 31)), false)
write_file_large_example = write_file_large large large-IsFileBuf (omega arith) (omega arith)

abbrev machine : Machine
machine = record {
  torrent_fname = none;
  sha1 = λ bytes. bytes;
  curl = record { initialises = false; escape = λ bytes. bytes; perform = λ url. none };
  malloc = zeros;
  disk = record { after_remove = []; opens = false; fwrite = λ i n. 0 };
}

Main-status_example : (◌≡◌ {A = ℕ} 2 0) ↔ ((r : Bool) × (◌≡◌ {A = Option Bool} none (some r)))
unfolding action
Main-status_example =
    Main-status (λ fname. machine) (codes "btb" ∷ codes "-v" ∷ []) 2 none
      (told (inr refl) refl refl)
