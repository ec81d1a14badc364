-- ===== src/Tokenizer/Bencode.antt =====
-- Bencode values, their encoding, and the tokens that stand for them.
use btb.Base.{
  ℕ, zero, suc, ◌+◌, ◌/◌, ◌%◌, ◌<◌, ◌≤◌, ◌^◌, Bool, true, false, List, [], ◌∷◌, ◌++◌, length,
  if◌then◌else◌, ltb, All,
}

-- The decimal digits of a number; `fuel` bounds how many.
abbrev pub decimal_fuel : ℕ → ℕ → List ℕ
decimal_fuel zero n = (b'0' + n % 10) ∷ []
decimal_fuel (suc fuel) n =
    let more = decimal_fuel fuel (n / 10) ++ (b'0' + n % 10) ∷ [] in
    if ltb n 10 then (b'0' + n) ∷ [] else more

-- A number below 10 ^ 19 has at most 19 digits.
unfoldable pub decimal : ℕ → List ℕ
decimal n = decimal_fuel 19 n

-- An integer is held by its sign and digits, as the tokenizer hands it on.
mutual
  pub data Value : Type 0 where
    integer : Bool → List ℕ → Value
    string : List ℕ → Value
    list : Items → Value
    dict : Entries → Value

  pub data Items : Type 0 where
    nil : Items
    cons : Value → Items → Items

  pub data Entries : Type 0 where
    done : Entries
    entry : List ℕ → Value → Entries → Entries

abbrev pub sign : Bool → List ℕ → List ℕ
sign true digits = b'-' ∷ digits
sign false digits = digits

abbrev pub encode_string : List ℕ → List ℕ
encode_string s = decimal (length s) ++ b':' ∷ s

unfoldable mutual
  pub encode : Value → List ℕ
  encode (integer negative digits) = b'i' ∷ sign negative digits ++ b'e' ∷ []
  encode (string s) = encode_string s
  encode (list items) = b'l' ∷ encode_items items ++ b'e' ∷ []
  encode (dict entries) = b'd' ∷ encode_entries entries ++ b'e' ∷ []

  pub encode_items : Items → List ℕ
  encode_items nil = []
  encode_items (cons v items) = encode v ++ encode_items items

  pub encode_entries : Entries → List ℕ
  encode_entries done = []
  encode_entries (entry key v entries) = encode_string key ++ (encode v ++ encode_entries entries)

abbrev pub Token : Type 0
Token = List ℕ

abbrev pub string_tokens : List ℕ → List Token
string_tokens s = (b's' ∷ []) ∷ s ∷ []

unfoldable mutual
  pub tokens : Value → List Token
  tokens (integer negative digits) = (b'i' ∷ []) ∷ sign negative digits ∷ (b'e' ∷ []) ∷ []
  tokens (string s) = string_tokens s
  tokens (list items) = (b'l' ∷ []) ∷ tokens_items items ++ (b'e' ∷ []) ∷ []
  tokens (dict entries) = (b'd' ∷ []) ∷ tokens_entries entries ++ (b'e' ∷ []) ∷ []

  pub tokens_items : Items → List Token
  tokens_items nil = []
  tokens_items (cons v items) = tokens v ++ tokens_items items

  pub tokens_entries : Entries → List Token
  tokens_entries done = []
  tokens_entries (entry key v entries) = string_tokens key ++ (tokens v ++ tokens_entries entries)

-- A byte is a decimal digit.
abbrev pub IsDigit : ℕ → Type 0
IsDigit b = (b'0' ≤ b) × (b ≤ b'9')

-- A length that a `long` holds.
abbrev pub IsString : List ℕ → Type 0
IsString s = length s < 2 ^ 63

-- Integers have digits only, at least one behind a sign or not, and strings have a length that
-- fits.
unfoldable mutual
  pub IsValue : Value → Type 0
  IsValue (integer negative digits) = (0 < length digits) × All IsDigit digits
  IsValue (string s) = IsString s
  IsValue (list items) = AreItems items
  IsValue (dict entries) = AreEntries entries

  pub AreItems : Items → Type 0
  AreItems nil = Unit
  AreItems (cons v items) = IsValue v × AreItems items

  pub AreEntries : Entries → Type 0
  AreEntries done = Unit
  AreEntries (entry key v entries) = IsString key × IsValue v × AreEntries entries
