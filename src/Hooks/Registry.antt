-- ===== src/Hooks/Registry.antt =====
-- The registry as the hooks service sees it: requests in order, and a reply to each. What a reply
-- is may depend on every request before it.
use aocr.Prelude.{
  ℕ, zero, suc, ◌+◌, ◌/◌, ◌%◌, ◌≡◌, List, [], ◌∷◌, ◌++◌, Option, ◌==◌, if◌then◌else◌,
}
use aocr.Text.{Str, codes}

pub data Method : Type 0 where
  get head post put delete : Method

pub record Content : Type 0 where
  pub media_type : Str
  pub text : Str

pub record Request : Type 0 where
  pub method : Method
  pub url : Str
  pub authorization : Option Str
  pub content : Option Content

-- `header` reads a header; `text` is none where reading the body fails.
pub record Reply : Type 0 where
  pub status : ℕ
  pub header : Str → Option Str
  pub text : Option Str

-- `unreachable` is a `fetch` that throws: a network error, or the time limit.
pub data Fetched : Type 0 where
  unreachable : Str → Fetched
  replied : Reply → Fetched

-- The requests that were sent, the last first.
abbrev pub Log : Type 0
Log = List Request

-- `fetch`, and `encodeURIComponent`.
pub record Registry : Type 0 where
  pub answer : Log → Request → Fetched
  pub encode_uri : Str → Str

abbrev pub fetch : Registry → Log → Request → Fetched × Log
fetch reg log req = (reg.answer log req, req ∷ log)

-- The decimal digits of a status.
digits : ℕ → ℕ → Str → Str
digits zero n acc = acc
digits (suc fuel) n acc =
    let rest = digits fuel (n / 10) ((b'0' + n % 10) ∷ acc) in if n == 0 then acc else rest

unfoldable pub show_number : ℕ → Str
unfolding digits
show_number n = if n == 0 then codes "0" else digits n n []

-- Among the requests of a log, this one was answered with this status.
pub data Answered (reg : Registry) (req : Request) (status : ℕ) : Log → Type 0 where
  now :
      {log : Log} (reply : Reply)
      → reg.answer log req ≡ replied reply
      → reply.status ≡ status
      → Answered reg req status (req ∷ log)
  before :
      {log : Log} (other : Request)
      → Answered reg req status log
      → Answered reg req status (other ∷ log)

pub Answered-append :
    (reg : Registry) (req : Request) (status : ℕ) (sent old : Log)
    → Answered reg req status old
    → Answered reg req status (sent ++ old)
Answered-append reg req status [] old a = a
Answered-append reg req status (r ∷ sent) old a =
    before r (Answered-append reg req status sent old a)
