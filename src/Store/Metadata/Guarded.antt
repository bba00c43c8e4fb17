-- ===== src/Store/Metadata/Guarded.antt =====
-- A guarded write changes the record that was reviewed, while no unreviewed job holds a resource.
use virmill.Prelude.{
  String, true, ◌&&◌, Option, none, some, List, [], ◌∷◌, ◌≡◌, refl, arith, str_eq, eq_iff,
  if◌then◌else◌, contains, Bool-cases, inl, inr, ap, ◌∙◌,
}
use virmill.Prelude.Table.{Table, lookup}
use virmill.Domain.Error.{ok, err, fail, Code, Result-cases}
use virmill.Store.Db.{Db, MetadataRecord, resource_jobs}
use virmill.Store.Metadata.{
  body_at, metadata_bytes, upsert, unchanged, approved, check_reviewed, compare_put_with_jobs,
}

body_at-upsert :
    (k i kind id body : String) (rs : List MetadataRecord)
    → body_at k i (upsert kind id body rs)
      ≡ (if str_eq kind k && str_eq id i then some body else body_at k i rs)
unfolding body_at upsert
body_at-upsert k i kind id body [] = ground (arith, eq_iff kind k, eq_iff id i)
body_at-upsert k i kind id body (r ∷ rs) = ground (
  arith,
  body_at-upsert k i kind id body rs,
  eq_iff kind k,
  eq_iff id i,
  eq_iff r.kind kind,
  eq_iff r.id id,
  eq_iff r.kind k,
  eq_iff r.id i,
)

unchanged_same : (old previous : Option String) → unchanged old previous ≡ true → old ≡ previous
unfolding unchanged
unchanged_same none none h = refl
unchanged_same (some a) (some b) h = ground (arith, eq_iff a b)
unchanged_same none (some b) h = absurd cc
unchanged_same (some a) none h = absurd cc

approved-holder :
    (allowed : List String) (r o : String) (db : Db)
    → approved allowed (resource_jobs r db) ≡ true
    → lookup r db.locks ≡ some o
    → contains allowed o ≡ true
unfolding approved resource_jobs
approved-holder allowed r o db h l = ground arith

check_reviewed-holder :
    (reviewed : Table (List String)) (r o : String) (allowed : List String) (db : Db)
    → check_reviewed reviewed db ≡ ok tt
    → lookup r reviewed ≡ some allowed
    → lookup r db.locks ≡ some o
    → contains allowed o ≡ true
unfolding check_reviewed lookup
check_reviewed-holder [] r o allowed db c l k = absurd cc
check_reviewed-holder ((q, xs) ∷ rs) r o allowed db c l k =
    ground (arith, check_reviewed-holder rs r o allowed db, approved-holder xs q o db, eq_iff q r)

module _ (kind id next : String) (previous : Option String) (reviewed : Table (List String))
    (db db' : Db) (put : compare_put_with_jobs kind id previous next reviewed db ≡ ok db') where
  parts :
      (unchanged (body_at kind id db.metadata) previous ≡ true)
      × (check_reviewed reviewed db ≡ ok tt)
      × (db' ≡ record db { metadata = upsert kind id next db.metadata })
  unfolding compare_put_with_jobs
  parts = elim (Bool-cases (unchanged (body_at kind id db.metadata) previous)) [
    | inr u ↦
        let no_put : err (fail Code.stale_plan) ≡ ok db' = rw (u, compare_put_with_jobs) at put in
        absurd cc
    | inl u ↦ elim (Result-cases (check_reviewed reviewed db)) [
      | inl (done, c) ↦
          let made : ok (record db { metadata = upsert kind id next db.metadata }) ≡ ok db' =
            rw (u, compare_put_with_jobs, c) at put in
          (u, c, cc)
      | inr (e, c) ↦
          let no_put : err e ≡ ok db' = rw (u, compare_put_with_jobs, c) at put in absurd cc
    ]
  ]

  -- A guarded write that succeeds found the record as it was observed before, or none where none
  -- was; it writes this record and no other, and leaves the rest of the journal.
  pub compare_put-metadata_bytes :
      (k i : String)
      → (metadata_bytes kind id db ≡ previous)
        × (metadata_bytes k i db'
            ≡ (if str_eq kind k && str_eq id i then some next else metadata_bytes k i db))
        × (record db' { metadata = db.metadata } ≡ db)
  unfolding metadata_bytes
  compare_put-metadata_bytes k i =
      let (u, c, made) = parts in
      let restore : Db → Db = λ d. record d { metadata = db.metadata } in
      (
        unchanged_same _ _ u,
        ap (λ d. body_at k i d.metadata) made ∙ body_at-upsert k i kind id next db.metadata,
        ap restore made,
      )

  -- A guarded write that succeeds found each reviewed resource free or held by an approved job.
  pub compare_put-approved :
      (r o : String) (allowed : List String)
      → lookup r reviewed ≡ some allowed
      → lookup r db.locks ≡ some o
      → contains allowed o ≡ true
  compare_put-approved r o allowed l k = check_reviewed-holder reviewed r o allowed db parts.1 l k
