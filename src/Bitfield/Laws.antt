-- ===== src/Bitfield/Laws.antt =====
-- bitfield.c as a sequence of bits: what a test reads after a change.
use btb.Base.{
  ℕ, zero, suc, ◌+◌, ◌-◌, ◌/◌, ◌%◌, ◌^◌, ◌≤◌, ◌<◌, ◌≡◌, refl, ◌∙◌, Bool, true, false, bit_and,
  bit_or, List, [], ◌∷◌, ok, arith, ltb, ◌==◌, lt→ltb, length, set, get_or, get_elem?, some, All,
  IsByte, if◌then◌else◌, take, le→leb, length-take, length-set,
}
use btb.Bitfield.Bits.{bit_is_set, set_bit, unset_bit, unset-lt}
use btb.Bitfield.{Bitfield, init_bitfield, has_piece, set_piece, unset_piece}

-- A block of bytes that an `int` can index.
pub record IsBitfield (b : Bitfield) : Type 0 where
  pub sized : length b.bytes ≡ b.length
  pub small : b.length ≤ 2 ^ 31
  pub in_byte : All IsByte b.bytes

-- The bit lies in the block.
abbrev pub Covers : Bitfield → ℕ → Type 0
Covers b index = index / 8 < b.length

-- The bit at an index, with no regard to the bounds.
abbrev pub bit : Bitfield → ℕ → Bool
bit b index = bit_is_set (get_or b.bytes (index / 8) 0) (7 - index % 8)

-- `b'` differs from `b` in the bit at `index` alone, which is `v`.
pub record Changes (b b' : Bitfield) (index : ℕ) (v : Bool) : Type 0 where
  pub valid : IsBitfield b'
  pub same_length : b'.length ≡ b.length
  pub bits : (j : ℕ) → bit b' j ≡ (if index == j then v else bit b j)

get_elem?-eq-get_or : (xs : List ℕ) (i : ℕ) → i < length xs → get_elem? xs i ≡ some (get_or xs i 0)
get_elem?-eq-get_or [] i h = elim h [ ]
get_elem?-eq-get_or (x ∷ xs) zero h = refl
get_elem?-eq-get_or (x ∷ xs) (suc i) h = get_elem?-eq-get_or xs i (omega arith)

get_or-set :
    (xs : List ℕ) (i j v : ℕ)
    → i < length xs
    → get_or (set xs i v) j 0 ≡ (if i == j then v else get_or xs j 0)
get_or-set [] i j v h = elim h [ ]
get_or-set (x ∷ xs) zero zero v h = refl
get_or-set (x ∷ xs) zero (suc j) v h = ground arith
get_or-set (x ∷ xs) (suc i) zero v h = ground arith
get_or-set (x ∷ xs) (suc i) (suc j) v h = ground (arith, get_or-set xs i j v)

get_or-IsByte : (xs : List ℕ) (i : ℕ) → All IsByte xs → IsByte (get_or xs i 0)
get_or-IsByte [] i h = omega arith
get_or-IsByte (x ∷ xs) zero h = h.0
get_or-IsByte (x ∷ xs) (suc i) h = get_or-IsByte xs i h.1

set-IsByte : (xs : List ℕ) (i v : ℕ) → All IsByte xs → IsByte v → All IsByte (set xs i v)
set-IsByte [] i v h b = tt
set-IsByte (x ∷ xs) zero v h b = (b, h.1)
set-IsByte (x ∷ xs) (suc i) v h b = (h.0, set-IsByte xs i v h.1 b)

take-IsByte : (n : ℕ) (xs : List ℕ) → All IsByte xs → All IsByte (take n xs)
take-IsByte zero xs h = tt
take-IsByte (suc n) [] h = tt
take-IsByte (suc n) (x ∷ xs) h = (h.0, take-IsByte n xs h.1)

module _ {b : Bitfield} (v : IsBitfield b) (index : ℕ) (covered : Covers b index) where
  -- The byte index does not wrap.
  byte_index_lem : index / 8 % 2 ^ 32 ≡ index / 8
  byte_index_lem = omega (arith, v.small)

  at_byte : get_elem? b.bytes (index / 8) ≡ some (get_or b.bytes (index / 8) 0)
  at_byte = get_elem?-eq-get_or b.bytes (index / 8) (omega (arith, v.sized))

  in_range : ltb (index / 8) (2 ^ 31) ≡ true
  in_range = lt→ltb _ _ (omega (arith, v.small))

  in_block : ltb (index / 8) (length b.bytes) ≡ true
  in_block = lt→ltb _ _ (omega (arith, v.sized))

  pub has_piece_lem : has_piece b index ≡ ok (bit b index)
  unfolding has_piece
  has_piece_lem = rw (byte_index_lem, in_range, at_byte)

  abbrev changed : ℕ → Bitfield
  changed byte = record b { bytes = set b.bytes (index / 8) byte }

  changed-IsBitfield : (byte : ℕ) → IsByte byte → IsBitfield (changed byte)
  changed-IsBitfield byte h = record {
    sized = length-set b.bytes (index / 8) byte ∙ v.sized;
    small = v.small;
    in_byte = set-IsByte b.bytes (index / 8) byte v.in_byte h;
  }

  -- Two indices name the same bit if they agree on byte and offset.
  changed-bit :
      (byte : ℕ) (value : Bool)
      → ((k : ℕ)
          → k < 8
          → bit_is_set byte k
            ≡ (if 7 - index % 8 == k then value else bit_is_set (get_or b.bytes (index / 8) 0) k))
      → (j : ℕ) → bit (changed byte) j ≡ (if index == j then value else bit b j)
  changed-bit byte value h j =
      rw (get_or-set b.bytes (index / 8) (j / 8) byte (omega (arith, v.sized)))
        (ground (arith, h (7 - j % 8)))

  -- On a valid bitfield and an index whose byte it has, `set_piece` returns a valid bitfield of
  -- the same length in which the bit at the index is set and every other bit is as before.
  pub set_piece_lem : (b' : Bitfield) × (set_piece b index ≡ ok b') × Changes b b' index true
  unfolding set_piece
  set_piece_lem =
      let old = get_or b.bytes (index / 8) 0 in
      let byte = bit_or old (2 ^ (7 - index % 8)) % 2 ^ 8 in
      (
        changed byte,
        rw (byte_index_lem, in_range, at_byte, in_block),
        record {
          valid = changed-IsBitfield byte (omega arith);
          same_length = refl;
          bits = changed-bit byte true λ k hk. ground (
            arith,
            set_bit old (7 - index % 8) k (get_or-IsByte b.bytes (index / 8) v.in_byte)
                (omega arith) hk,
          );
        },
      )

  -- On a valid bitfield and an index whose byte it has, `unset_piece` returns a valid bitfield of
  -- the same length in which the bit at the index is clear and every other bit is as before.
  pub unset_piece_lem : (b' : Bitfield) × (unset_piece b index ≡ ok b') × Changes b b' index false
  unfolding unset_piece
  unset_piece_lem =
      let old = get_or b.bytes (index / 8) 0 in
      let old_byte = get_or-IsByte b.bytes (index / 8) v.in_byte in
      let byte = bit_and old (255 - 2 ^ (7 - index % 8)) in
      (
        changed byte,
        rw (byte_index_lem, in_range, at_byte, in_block),
        record {
          valid = changed-IsBitfield byte (unset-lt old (7 - index % 8) old_byte (omega arith));
          same_length = refl;
          bits =
              changed-bit byte false
                λ k hk. ground (arith, unset_bit old (7 - index % 8) k old_byte (omega arith) hk);
        },
      )

get_or-take : (n : ℕ) (xs : List ℕ) (i : ℕ) → i < n → get_or (take n xs) i 0 ≡ get_or xs i 0
get_or-take zero xs i h = elim h [ ]
get_or-take (suc n) [] i h = refl
get_or-take (suc n) (x ∷ xs) zero h = refl
get_or-take (suc n) (x ∷ xs) (suc i) h = get_or-take n xs i (omega arith)

-- For a length of at most 2 ^ 31 inside a block of bytes, `init_bitfield` returns a valid bitfield
-- of that length that holds the first bytes of the block.
pub init_bitfield_lem :
    (bytes : List ℕ) (n : ℕ)
    → n ≤ 2 ^ 31
    → n ≤ length bytes
    → All IsByte bytes
    → (b : Bitfield) × (init_bitfield bytes n ≡ ok b)
      × IsBitfield b
      × (b.length ≡ n)
      × (b.bytes ≡ take n bytes)
unfolding init_bitfield
init_bitfield_lem bytes n small fits in_byte = (
  record { length = n; bytes = take n bytes },
  rw (le→leb (0 + n) (length bytes) (omega arith)),
  record {
    sized = omega (arith, length-take n bytes);
    small = small;
    in_byte = take-IsByte n bytes in_byte;
  },
  refl,
  refl,
)
