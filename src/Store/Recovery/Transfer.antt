-- ===== src/Store/Recovery/Transfer.antt =====
-- What a recovery's transfer does to the owner of each resource.
use virmill.Prelude.{
  String, ◌≡◌, refl, true, false, none, some, List, [], ◌∷◌, arith, eq_iff, contains, Option-cases,
  Bool-cases, inl, inr,
}
use virmill.Prelude.Table.{IsTable, lookup, insert, lookup-insert, IsTable-insert}
use virmill.Store.Locks.{Locks, reassign, lookup-reassign}
use virmill.Store.Locks.Laws.{taken, owns, IsTable-reassign}
use virmill.Store.Recovery.{distinct, transfer}

abbrev pub IsDistinct : List String → Type 0
IsDistinct [] = Unit
IsDistinct (r ∷ rs) = (contains rs r ≡ false) × IsDistinct rs

pub contains-distinct : (q : String) (rs : List String) → contains (distinct rs) q ≡ contains rs q
unfolding distinct
contains-distinct q [] = refl
contains-distinct q (r ∷ rs) = ground (arith, contains-distinct q rs, eq_iff r q)

pub distinct-IsDistinct : (rs : List String) → IsDistinct (distinct rs)
unfolding distinct
distinct-IsDistinct [] = tt
distinct-IsDistinct (r ∷ rs) = elim (Bool-cases (contains rs r)) [
  | inl e ↦ rw e (distinct-IsDistinct rs)
  | inr e ↦ rw e (ground (arith, contains-distinct r rs), distinct-IsDistinct rs)
]

-- `owned` tells which of the resources `rs` the parent holds.
abbrev pub Agrees : String → List String → List String → Locks → Type 0
Agrees parent owned rs t =
    (q : String) → contains rs q ≡ true → contains owned q ≡ owns parent (lookup q t)

module _ (child parent : String) (owned : List String) where
  transfer_owned :
      (r : String) (rs : List String) (t : Locks)
      → contains owned r ≡ true
      → transfer child parent owned (r ∷ rs) t
        ≡ transfer child parent owned rs (reassign child r parent t)
  unfolding transfer
  transfer_owned r rs t e = rw e

  transfer_added :
      (r : String) (rs : List String) (t u : Locks)
      → contains owned r ≡ false
      → insert r child t ≡ some u
      → transfer child parent owned (r ∷ rs) t ≡ transfer child parent owned rs u
  unfolding transfer
  transfer_added r rs t u e i = rw e (rw i)

  transfer_refused :
      (r : String) (rs : List String) (t : Locks)
      → contains owned r ≡ false
      → insert r child t ≡ none
      → transfer child parent owned (r ∷ rs) t ≡ none
  unfolding transfer
  transfer_refused r rs t e i = rw e (rw i)

  transfer_nil : (t t' : Locks) → transfer child parent owned [] t ≡ some t' → t' ≡ t
  unfolding transfer
  transfer_nil t t' h = ground arith

  Agrees-reassign :
      (r : String) (rs : List String) (t : Locks)
      → IsDistinct (r ∷ rs)
      → Agrees parent owned (r ∷ rs) t
      → Agrees parent owned rs (reassign child r parent t)
  Agrees-reassign r rs t d a q c =
      ground (arith, a q, lookup-reassign q child r parent t, eq_iff r q)

  Agrees-insert :
      (r : String) (rs : List String) (t u : Locks)
      → IsDistinct (r ∷ rs)
      → insert r child t ≡ some u
      → Agrees parent owned (r ∷ rs) t
      → Agrees parent owned rs u
  Agrees-insert r rs t u d i a q c = ground (arith, a q, lookup-insert q r child t u i, eq_iff r q)

  -- After the transfer the child holds each resource of the recovery, and no other lock changed.
  pub lookup-transfer :
      (q : String) (rs : List String) (t t' : Locks)
      → IsDistinct rs
      → Agrees parent owned rs t
      → transfer child parent owned rs t ≡ some t'
      → lookup q t' ≡ taken child rs q (lookup q t)
  lookup-transfer q [] t t' d a h = rw (transfer_nil t t' h)
  lookup-transfer q (r ∷ rs) t t' d a h = elim (Bool-cases (contains owned r)) [
    | inl e ↦
        let ih =
          lookup-transfer q rs (reassign child r parent t) t' d.1 (Agrees-reassign r rs t d a)
            (ground (arith, transfer_owned r rs t e)) in
        ground (arith, ih, lookup-reassign q child r parent t, eq_iff r q, a r, eq_iff r r)
    | inr e ↦ elim (Option-cases (insert r child t)) [
      | inl i ↦ ground (arith, transfer_refused r rs t e i)
      | inr (u, i) ↦
          let ih =
            lookup-transfer q rs u t' d.1 (Agrees-insert r rs t u d i a)
              (ground (arith, transfer_added r rs t u e i)) in
          ground (arith, ih, lookup-insert q r child t u i, eq_iff r q)
    ]
  ]

  pub IsTable-transfer :
      (rs : List String) (t t' : Locks)
      → transfer child parent owned rs t ≡ some t'
      → IsTable t
      → IsTable t'
  IsTable-transfer [] t t' h d = rw (transfer_nil t t' h) d
  IsTable-transfer (r ∷ rs) t t' h d = elim (Bool-cases (contains owned r)) [
    | inl e ↦
        IsTable-transfer rs (reassign child r parent t) t' (ground (arith, transfer_owned r rs t e))
          (IsTable-reassign child r parent t d)
    | inr e ↦ elim (Option-cases (insert r child t)) [
      | inl i ↦ ground (arith, transfer_refused r rs t e i)
      | inr (u, i) ↦
          IsTable-transfer rs u t' (ground (arith, transfer_added r rs t u e i))
            (IsTable-insert r child t u i d)
    ]
  ]
