-- ===== src/TorrentFile/Parse/Tokens.antt =====
-- Runs of tokens, one call of `next` after the other.
use btb.Tokenizer.{Tokenizer, next, tokenizer_ok}
use btb.Tokenizer.Bencode.{Token}
use btb.Tokenizer.RoundTrip.Place.{Reads, more, stop}
use btb.TorrentFile.Parse.{next_token}
use btb.Base.{◌≡◌, refl, List, [], ◌∷◌, some, ok, length}

-- The first token of a run, and the rest of it.
pub record First (t : Tokenizer) (tok : Token) (toks : List Token) (v : Tokenizer) : Type 0 where
  pub after : Tokenizer
  pub call : next t ≡ ok (after, tokenizer_ok)
  pub token : after.token ≡ tok
  pub size : after.token_size ≡ length tok
  pub rest : Reads after toks v

pub Reads-First :
    {t v : Tokenizer} {tok : Token} {toks : List Token}
    → Reads t (tok ∷ toks) v
    → First t tok toks v
Reads-First (more {u = u} e k l r) = record { after = u; call = e; token = k; size = l; rest = r }

pub next_token_ok : (t u : Tokenizer) → next t ≡ ok (u, tokenizer_ok) → next_token t ≡ ok (some u)
unfolding next_token
next_token_ok t u e = rw e refl

pub next_token-First :
    {t v : Tokenizer} {tok : Token} {toks : List Token} (f : First t tok toks v)
    → next_token t ≡ ok (some f.after)
next_token-First {t = t} f = next_token_ok t f.after f.call

pub Reads-nil : {t v : Tokenizer} → Reads t [] v → t ≡ v
Reads-nil stop = refl
