-- ===== src/GuestSetup/Receipt.antt =====
-- The receipts of internal/guestsetup/stages.go: `received` makes one from what SSH returns, and
-- `validReceipt` checks one that was stored. A time is its nanoseconds since the zero time, and
-- whether its zone is UTC. The digest of the standard library is a parameter.
pub mod Valid
use virmill.Prelude.{
  ℕ, zero, suc, ◌+◌, ◌-◌, ◌*◌, ◌/◌, ◌%◌, ◌^◌, String, Bool, true, false, not, ◌&&◌, ◌||◌, Option,
  none, some, List, [], ◌∷◌, ◌++◌, ltb, leb, ◌==◌, str_eq, if◌then◌else◌, length,
}
use virmill.Prelude.Digits.{codes, is_digit, print_decimal}
use virmill.Prelude.Pattern.{fits, times, is_hex}
use virmill.Network.Prefix.{same_codes}

pub data ℤ : Type 0 where
  pos negsuc : ℕ → ℤ

pub record Stamp : Type 0 where
  pub nanos : ℕ
  pub zone_utc : Bool

-- `time.Now().UTC()`
abbrev pub stamp : ℕ → Stamp
stamp now = record { nanos = now; zone_utc = true }

-- `utc`
abbrev pub is_utc : Stamp → Bool
is_utc t = not (t.nanos == 0) && t.zone_utc

abbrev pub is_before : Stamp → Stamp → Bool
is_before t u = ltb t.nanos u.nanos

pub record StageReceipt : Type 0 where
  pub transport_completed : Bool
  pub exit_code : Option ℤ
  pub stdout_bytes : ℕ
  pub stderr_bytes : ℕ
  pub stdout_sha256 : String
  pub stderr_sha256 : String
  pub uid : Option ℕ
  pub outcome : String
  pub finished_at : Stamp

-- `guestssh.Result`
pub record SshResult : Type 0 where
  pub exit_code : ℤ
  pub stdout : List ℕ
  pub stderr : List ℕ

abbrev pub is_code : ℤ → ℕ → Bool
is_code (pos n) c = n == c
is_code (negsuc n) c = false

-- `stageNumber` looks a name up here.
unfoldable pub stage_names : List String
stage_names = "readiness" ∷ "check" ∷ "apply" ∷ "verify" ∷ []

-- `completed` of a receipt
abbrev pub is_complete : String → StageReceipt → Bool
is_complete name r =
    if str_eq name "readiness"
    then str_eq r.outcome "ready"
    else if str_eq name "check"
    then str_eq r.outcome "already-configured" || str_eq r.outcome "needs-apply"
    else if str_eq name "apply"
    then str_eq r.outcome "applied" || str_eq r.outcome "skip-apply"
    else str_eq name "verify" && str_eq r.outcome "verified"

-- `completed`
unfoldable pub completed : String → Option StageReceipt → Bool
completed name none = false
completed name (some r) = is_complete name r

-- `strconv.FormatUint` and a newline: at most 20 digits for 64 bits
unfoldable pub uid_line : ℕ → List ℕ
unfolding print_decimal
uid_line n = print_decimal 20 n (b'\n' ∷ [])

parse_more : ℕ → ℕ → List ℕ → Option ℕ
parse_more max n [] = some n
parse_more max n (c ∷ cs) =
    let m = n * 10 + (c - b'0') in
    let rest = parse_more max m cs in if is_digit c && leb m max then rest else none

-- `strconv.ParseUint` with the greatest value
unfoldable pub parse_uint : ℕ → List ℕ → Option ℕ
unfolding parse_more
parse_uint max [] = none
parse_uint max (c ∷ cs) = parse_more max 0 (c ∷ cs)

-- A line without its newline; any other text is none.
unfoldable pub line_of : List ℕ → Option (List ℕ)
line_of [] = none
line_of (c ∷ []) = if c == b'\n' then some [] else none
line_of (c ∷ d ∷ cs) = elim (line_of (d ∷ cs)) [ none ↦ none | some l ↦ some (c ∷ l) ]

abbrev pub max_uid : ℕ
max_uid = 4294967295

-- The user that `id -u` prints, if it is not root
abbrev pub printed_uid : List ℕ → Option ℕ → Option ℕ
printed_uid text none = none
printed_uid text (some n) = if ltb 0 n && same_codes (uid_line n) text then some n else none

abbrev pub parse_line : Option (List ℕ) → Option ℕ
unfolding parse_uint
parse_line none = none
parse_line (some l) = parse_uint max_uid l

unfoldable pub uid_of : SshResult → Option ℕ
unfolding line_of parse_line
uid_of r =
    if is_code r.exit_code 0 && length r.stderr == 0 && ltb 1 (length r.stdout)
    then printed_uid r.stdout (parse_line (line_of r.stdout))
    else none

abbrev pub ready_or_failed : Option ℕ → String
ready_or_failed none = "failed"
ready_or_failed (some n) = "ready"

-- The outcome of a stage but the first
abbrev pub outcome_of : String → ℤ → String
outcome_of name code =
    if str_eq name "check"
    then (if is_code code 0
        then "already-configured"
        else if is_code code 3
        then "needs-apply"
        else "failed")
    else if str_eq name "apply"
    then (if is_code code 0 then "applied" else "failed")
    else if str_eq name "verify"
    then (if is_code code 0 then "verified" else "failed")
    else "failed"

abbrev pub digest_fits : String → Bool
digest_fits s = fits (times 64 is_hex []) (codes s)

abbrev pub in_range : ℤ → Bool
in_range (pos n) = leb n 254
in_range (negsuc n) = false

abbrev pub is_absent {ℓ} : {A : Type ℓ} → Option A → Bool
is_absent none = true
is_absent (some a) = false

module _ (hash : List ℕ → String) where
  -- `received`
  unfoldable pub received : String → SshResult → Stamp → StageReceipt
  unfolding uid_of
  received name r now =
      let first = str_eq name "readiness" in
      record {
        transport_completed = true;
        exit_code = some r.exit_code;
        stdout_bytes = length r.stdout;
        stderr_bytes = length r.stderr;
        stdout_sha256 = hash r.stdout;
        stderr_sha256 = hash r.stderr;
        uid = if first then uid_of r else none;
        outcome = if first then ready_or_failed (uid_of r) else outcome_of name r.exit_code;
        finished_at = now;
      }

  -- The receipt of a stage that is not run
  unfoldable pub skipped : Stamp → StageReceipt
  skipped now = record {
    transport_completed = false;
    exit_code = none;
    stdout_bytes = 0;
    stderr_bytes = 0;
    stdout_sha256 = hash [];
    stderr_sha256 = hash [];
    uid = none;
    outcome = "skip-apply";
    finished_at = now;
  }

  -- The checks on every receipt
  abbrev pub bounds_fit : StageReceipt → Bool
  bounds_fit r =
      is_utc r.finished_at
      && digest_fits r.stdout_sha256
      && digest_fits r.stderr_sha256
      && leb r.stdout_bytes 1048576
      && leb r.stderr_bytes 1048576

  abbrev pub skip_fits : String → StageReceipt → Bool
  skip_fits name r =
      str_eq name "apply"
      && str_eq r.outcome "skip-apply"
      && not r.transport_completed
      && is_absent r.exit_code
      && is_absent r.uid
      && r.stdout_bytes == 0
      && r.stderr_bytes == 0
      && str_eq r.stdout_sha256 (hash [])
      && str_eq r.stderr_sha256 (hash [])

  -- The first stage reports the user, who is not root.
  abbrev pub uid_fits : StageReceipt → ℤ → Option ℕ → Bool
  uid_fits r code none = str_eq r.outcome "failed"
  uid_fits r code (some n) =
      is_code code 0
      && not (n == 0)
      && leb n max_uid
      && r.stdout_bytes == length (uid_line n)
      && str_eq r.stdout_sha256 (hash (uid_line n))
      && r.stderr_bytes == 0
      && str_eq r.outcome "ready"

  abbrev pub later_stage : String → Bool
  later_stage name = str_eq name "check" || str_eq name "apply" || str_eq name "verify"

  abbrev pub run_fits : String → StageReceipt → Option ℤ → Bool
  run_fits name r none = false
  run_fits name r (some code) =
      r.transport_completed
      && in_range code
      && (not (r.stdout_bytes == 0) || str_eq r.stdout_sha256 (hash []))
      && (not (r.stderr_bytes == 0) || str_eq r.stderr_sha256 (hash []))
      && (if str_eq name "readiness"
          then uid_fits r code r.uid
          else later_stage name && is_absent r.uid && str_eq r.outcome (outcome_of name code))

  -- `validReceipt`
  unfoldable pub valid_receipt : String → Bool → Option StageReceipt → Bool
  unfolding uid_line
  valid_receipt name run none = true
  valid_receipt name run (some r) =
      bounds_fit r && (if run then run_fits name r r.exit_code else skip_fits name r)
