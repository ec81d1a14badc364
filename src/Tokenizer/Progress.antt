-- ===== src/Tokenizer/Progress.antt =====
-- How many tokens a run of `next` gives at most: the bound of the loops that drive it.
use btb.Base.{ℕ, ◌+◌, ◌*◌, ◌≤◌, ◌≡◌, refl, List, ok, arith, length, length-take}
use btb.Tokenizer.{Tokenizer, init_tokenizer, tokenizer_ok}
use btb.Tokenizer.Invariant.{IsTokenizer, measure, next-After}
use btb.Tokenizer.Bencode.{Token}
use btb.Tokenizer.RoundTrip.Place.{Reads, stop, more}

-- Each token costs one of the measure.
pub Reads-measure :
    {t u : Tokenizer} {toks : List Token}
    → Reads t toks u
    → IsTokenizer t
    → IsTokenizer u × (length toks + measure u ≤ measure t)
Reads-measure stop v = (v, omega arith)
Reads-measure {t} (more {u = u} e k l r) v =
    let after = next-After t u tokenizer_ok v e in
    let rest = Reads-measure r after.valid in (rest.0, omega (arith, after.falls refl, rest.1))

pub init_tokenizer-IsTokenizer :
    (bytes : List ℕ) (n : ℕ) (t : Tokenizer)
    → init_tokenizer bytes n ≡ ok t
    → IsTokenizer t × (measure t ≡ 2 * n)
unfolding init_tokenizer
init_tokenizer-IsTokenizer bytes n t e = ground (arith, length-take n bytes)

-- From n bytes the tokenizer hands out at most 2 n tokens, so at most 2 n calls of `next` return a
-- token.
pub length-Reads-le :
    (bytes : List ℕ) (n : ℕ) (t u : Tokenizer) (toks : List Token)
    → init_tokenizer bytes n ≡ ok t
    → Reads t toks u
    → length toks ≤ 2 * n
length-Reads-le bytes n t u toks e r =
    let (v, m) = init_tokenizer-IsTokenizer bytes n t e in omega (arith, Reads-measure r v, m)
