-- ===== src/Wire/Frame.antt =====
-- `ReadFrame` of internal/wire/json.go. A reader is the list of what its reads of one byte return;
-- behind its end there is nothing more to read.
pub mod Sent
use virmill.Prelude.{
  ℕ, suc, ◌*◌, ◌^◌, Bool, true, false, Option, none, some, List, [], ◌∷◌, ltb, ◌==◌, if◌then◌else◌,
}

abbrev pub max_frame : ℕ
max_frame = 8 * 2 ^ 20

-- `io.EOF` and any other error
pub data Failure : Type 0 where
  eof fault : Failure

-- The byte that one read returns, if any, and its error
pub record Read : Type 0 where
  pub byte : Option ℕ
  pub failure : Option Failure

-- The bytes of a frame with the reads that are left, or an error
pub data Outcome : Type 0 where
  frame : List ℕ → List Read → Outcome
  oversized unterminated : Outcome
  stopped : Failure → Outcome

abbrev pub prepend : ℕ → Outcome → Outcome
prepend c (frame xs rest) = frame (c ∷ xs) rest
prepend c oversized = oversized
prepend c unterminated = unterminated
prepend c (stopped f) = stopped f

-- The error of a read behind `len` bytes
abbrev pub failed : ℕ → Failure → Outcome
failed len eof = if ltb 0 len then unterminated else stopped eof
failed len fault = stopped fault

abbrev pub after_failure : ℕ → Option Failure → Outcome → Outcome
after_failure len none next = next
after_failure len (some f) next = failed len f

-- The body of the loop behind `len` bytes, where `next` is the round behind as many as it is given
abbrev pub round : ℕ → Option ℕ → Option Failure → List Read → (ℕ → Outcome) → Outcome
round len none f rs next = after_failure len f (next len)
round len (some c) f rs next =
    if c == b'\n' then frame [] rs else after_failure (suc len) f (prepend c (next (suc len)))

-- The loop
unfoldable pub read_from : ℕ → List Read → Outcome
read_from len [] = if ltb max_frame len then oversized else failed len eof
read_from len (r ∷ rs) =
    if ltb max_frame len then oversized else round len r.byte r.failure rs (λ n. read_from n rs)

-- `ReadFrame`
unfoldable pub read_frame : List Read → Outcome
unfolding read_from
read_frame rs = read_from 0 rs
