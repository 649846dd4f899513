-- ===== src/Text/Utf8.antt =====
-- The runtime's UTF-8 coder: `Buffer.from(s, 'utf8')` and `buffer.toString('utf8')`. It is a
-- parameter of what uses it; a string with a lone surrogate does not survive the round trip.
use aocr.Prelude.{ℕ, List}
use aocr.Text.{Str}

abbrev pub Buffer : Type 0
Buffer = List ℕ

pub record Utf8 : Type 0 where
  pub encode : Str → Buffer
  pub decode : Buffer → Str
