-- ===== src/Wire/Frame/Sent.antt =====
-- What `ReadFrame` of internal/wire/json.go reads of a line that is sent
use virmill.Prelude.{
  ℕ, suc, ◌+◌, Bool, true, not, ◌≡◌, none, some, List, [], ◌∷◌, ◌++◌, map, leb, ◌==◌, if◌then◌else◌,
  length, every, arith, both, not-true,
}
use virmill.Wire.Frame.{Read, frame, oversized, max_frame, read_from, read_frame}

-- A byte that arrives without an error
abbrev pub arrives : ℕ → Read
arrives c = record { byte = some c; failure = none }

abbrev pub no_newline : ℕ → Bool
no_newline c = not (c == b'\n')

-- The line behind `len` bytes
read_from-line :
    (len : ℕ) (xs : List ℕ) (rest : List Read)
    → every no_newline xs ≡ true
    → read_from len (map arrives xs ++ arrives b'\n' ∷ rest)
      ≡ (if leb (len + length xs) max_frame then frame xs rest else oversized)
unfolding read_from
read_from-line len [] rest h = ground arith
read_from-line len (c ∷ xs) rest h =
    let parts = both (no_newline c) (every no_newline xs) h in
    let again = read_from-line (suc len) xs rest parts.1 in
    let plain = not-true (c == b'\n') parts.0 in rw (plain, again) (ground arith)

-- A line of bytes other than a newline that arrives without an error is read back, and what follows
-- it is left, if it has at most 8 MiB; a longer line is refused as oversized.
pub read_frame-line :
    (xs : List ℕ) (rest : List Read)
    → every no_newline xs ≡ true
    → read_frame (map arrives xs ++ arrives b'\n' ∷ rest)
      ≡ (if leb (length xs) max_frame then frame xs rest else oversized)
unfolding read_frame
read_frame-line xs rest h = let line = read_from-line 0 xs rest h in ground (arith, line)
