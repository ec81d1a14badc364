-- ===== src/Hash.antt =====
-- src/hash.c. SHA-1 itself is OpenSSL's, and a parameter of the model.
use btb.Base.{ℕ, List}

abbrev pub bt_hash_length : ℕ
bt_hash_length = 20

-- `perform_hash` where BT_HASH_LENGTH is SHA_DIGEST_LENGTH, as it is: the digest of the bytes.
abbrev pub perform_hash : (List ℕ → List ℕ) → List ℕ → List ℕ
perform_hash sha1 bytes = sha1 bytes
