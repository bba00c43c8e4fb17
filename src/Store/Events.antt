-- ===== src/Store/Events.antt =====
-- The event log of a job: numbered 1, 2, … without a gap, so a cursor of `Events` misses nothing.
use mathlib.Core.List.{append-nil}
use native.Mathlib.Nat.{add-zero}
use virmill.Prelude.{
  Bool-cases, inl, inr, ℕ, zero, suc, ◌+◌, ◌≤◌, String, ◌≡◌, refl, List, [], ◌∷◌, ◌++◌, arith,
  str_eq, eq_iff, if◌then◌else◌, ltb, length, take, drop, keep, keep-append, length-append, ◌&&◌,
  ap, ◌∙◌, ltb→lt, lt→ltb,
}
use virmill.Domain.Job.{Job, Event, Severity}
use virmill.Store.Db.{Db, last_seq, or_later, events_of, events_after, order_by_seq, place}
use virmill.Store.Write.{append_event}

-- The events are numbered from `n + 1` on.
abbrev pub Numbered : ℕ → List Event → Type 0
Numbered n [] = Unit
Numbered n (e ∷ es) = (e.seq ≡ n + 1) × Numbered (n + 1) es

-- The log of one job in the table of events.
pub record IsLog (id : String) (es : List Event) : Type 0 where
  pub numbered : Numbered 0 (events_of id es)
  pub last : last_seq id es ≡ length (events_of id es)

Numbered-append :
    (n m : ℕ) (xs : List Event) (e : Event)
    → Numbered n xs
    → m ≡ n + length xs
    → e.seq ≡ m + 1
    → Numbered n (xs ++ e ∷ [])
Numbered-append n m [] e h l q = (omega arith, tt)
Numbered-append n m (x ∷ xs) e h l q = (h.0, Numbered-append (n + 1) m xs e h.1 (omega arith) q)

or_later_comm :
    (id : String) (e f : Event) (n : ℕ)
    → or_later id e (or_later id f n) ≡ or_later id f (or_later id e n)
unfolding or_later
or_later_comm id e f n = ground arith

last_seq-append :
    (id : String) (es : List Event) (e : Event)
    → last_seq id (es ++ e ∷ []) ≡ or_later id e (last_seq id es)
unfolding last_seq
last_seq-append id [] e = refl
last_seq-append id (x ∷ es) e =
    ap (or_later id x) (last_seq-append id es e) ∙ or_later_comm id x e (last_seq id es)

pub events_of-append :
    (id : String) (es : List Event) (e : Event)
    → events_of id (es ++ e ∷ [])
      ≡ (if str_eq e.operation_id id then events_of id es ++ e ∷ [] else events_of id es)
unfolding events_of
events_of-append id es e =
    keep-append (λ x. str_eq x.operation_id id) es (e ∷ [])
    ∙ ground (arith, append-nil (keep (λ x. str_eq x.operation_id id) es))

module _ (j : Job) (severity : Severity) (message : String) (now : ℕ) (db : Db) where
  abbrev appended : Event
  appended = record {
    operation_id = j.id;
    seq = last_seq j.id db.events + 1;
    at = now;
    phase = j.state;
    severity = severity;
    message = message;
  }

  events_after_append : (append_event j severity message now db).events ≡ db.events ++ appended ∷ []
  unfolding append_event
  events_after_append = refl

  last_after_append :
      (id : String)
      → last_seq id (append_event j severity message now db).events
        ≡ or_later id appended (last_seq id db.events)
  last_after_append id = rw events_after_append (last_seq-append id db.events appended)

  log_after_append :
      (id : String)
      → events_of id (append_event j severity message now db).events ≡ (
          if str_eq j.id id
          then events_of id db.events ++ appended ∷ []
          else events_of id db.events)
  log_after_append id = rw events_after_append (events_of-append id db.events appended)

  -- A transaction that writes an event keeps the log of every job.
  pub append_event-IsLog :
      (id : String)
      → IsLog j.id db.events
      → IsLog id db.events
      → IsLog id (append_event j severity message now db).events
  append_event-IsLog id own h = elim (Bool-cases (str_eq j.id id)) [
    | inl e ↦ record {
      numbered = rw log_after_append (
          rw e (
            Numbered-append 0 _ (events_of id db.events) appended h.numbered refl
              (ground (arith, eq_iff j.id id, own.last))));
      last =
          unfold or_later in
          ground (
            arith,
            log_after_append id,
            last_after_append id,
            eq_iff j.id id,
            length-append (events_of id db.events) (appended ∷ []),
            h.last,
          );
    }
    | inr e ↦ record {
      numbered = rw log_after_append (rw e h.numbered);
      last = unfold or_later in ground (arith, log_after_append id, last_after_append id, h.last);
    }
  ]

place_first :
    (e : Event) (es : List Event) (n : ℕ) → e.seq ≤ n → Numbered n es → place e es ≡ e ∷ es
unfolding place
place_first e [] n le h = refl
place_first e (f ∷ fs) n le h = ground arith

order_by_seq-Numbered : (es : List Event) (n : ℕ) → Numbered n es → order_by_seq es ≡ es
unfolding order_by_seq
order_by_seq-Numbered [] n h = refl
order_by_seq-Numbered (e ∷ es) n h =
    rw (order_by_seq-Numbered es (n + 1) h.1) (place_first e es (n + 1) (omega arith) h.1)

keep-Numbered_all :
    (es : List Event) (n after : ℕ)
    → after ≤ n
    → Numbered n es
    → keep (λ e. ltb after e.seq) es ≡ es
keep-Numbered_all [] n after le h = refl
keep-Numbered_all (e ∷ es) n after le h =
    ground (arith, keep-Numbered_all es (n + 1) after, lt→ltb after e.seq)

keep-Numbered :
    (k : ℕ) (es : List Event) (n after : ℕ)
    → after ≡ n + k
    → Numbered n es
    → keep (λ e. ltb after e.seq) es ≡ drop k es
keep-Numbered zero es n after q h = keep-Numbered_all es n after (omega arith) h
keep-Numbered (suc k) [] n after q h = refl
keep-Numbered (suc k) (e ∷ es) n after q h =
    ground (arith, keep-Numbered k es (n + 1) after, ltb→lt after e.seq)

Numbered-drop : (k : ℕ) (es : List Event) (n : ℕ) → Numbered n es → Numbered (n + k) (drop k es)
Numbered-drop zero es n h = rw add-zero h
Numbered-drop (suc k) [] n h = tt
Numbered-drop (suc k) (e ∷ es) n h =
    let q : n + suc k ≡ n + 1 + k = omega arith in rw q (Numbered-drop k es (n + 1) h.1)

keep-&& :
    (id : String) (after : ℕ) (es : List Event)
    → keep (λ e. str_eq e.operation_id id && ltb after e.seq) es
      ≡ keep (λ e. ltb after e.seq) (events_of id es)
unfolding events_of
keep-&& id after [] = refl
keep-&& id after (e ∷ es) = ground (arith, keep-&& id after es)

-- Where the events of a job are numbered without a gap, `Events` returns what follows the cursor in
-- the job's log, a thousand events at most.
pub events_after_lem :
    (id : String) (after : ℕ) (db : Db)
    → IsLog id db.events
    → events_after id after db ≡ take 1000 (drop after (events_of id db.events))
unfolding events_after
events_after_lem id after db h =
    let q : keep (λ e. str_eq e.operation_id id && ltb after e.seq) db.events
        ≡ drop after (events_of id db.events) =
      keep-&& id after db.events
      ∙ keep-Numbered after (events_of id db.events) 0 after (omega arith) h.numbered in
    rw q (ap (take 1000) (order_by_seq-Numbered _ (0 + after) (Numbered-drop after _ 0 h.numbered)))
