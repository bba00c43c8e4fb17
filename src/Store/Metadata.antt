-- ===== src/Store/Metadata.antt =====
-- The versioned records of internal/store/metadata.go
pub mod Guarded
use virmill.Prelude.{
  ℕ, String, Bool, true, false, not, ◌&&◌, ◌||◌, Option, none, some, List, [], ◌∷◌, str_eq,
  if◌then◌else◌, contains,
}
use virmill.Prelude.Table.{Table, lookup}
use virmill.Domain.Error.{Result, ok, err, fail, Code, ◌>>=◌, ◌>>◌}
use virmill.Store.Db.{Db, MetadataRecord, resource_jobs}

abbrev pub is_at : String → String → MetadataRecord → Bool
is_at kind id r = str_eq r.kind kind && str_eq r.id id

-- `SELECT body FROM metadata WHERE kind=? AND id=?`
unfoldable pub body_at : String → String → List MetadataRecord → Option String
body_at kind id [] = none
body_at kind id (r ∷ rs) = if is_at kind id r then some r.body else body_at kind id rs

-- `MetadataBytes`; `nil` is `none`.
unfoldable pub metadata_bytes : String → String → Db → Option String
metadata_bytes kind id db = body_at kind id db.metadata

-- `INSERT … ON CONFLICT(kind,id) DO UPDATE SET body=excluded.body`
unfoldable pub upsert : String → String → String → List MetadataRecord → List MetadataRecord
upsert kind id body [] = record { kind = kind; id = id; body = body } ∷ []
upsert kind id body (r ∷ rs) =
    let rest = upsert kind id body rs in
    if is_at kind id r then record r { body = body } ∷ rs else r ∷ rest

-- Is the record what was observed? No record reads as the empty text.
unfoldable pub unchanged : Option String → Option String → Bool
unchanged none none = true
unchanged (some old) (some previous) = str_eq old previous
unchanged _ _ = false

-- Each holder of a resource is among those that were approved.
unfoldable pub approved : List String → List String → Bool
approved allowed [] = true
approved allowed (j ∷ js) = contains allowed j && approved allowed js

-- The loop over the reviewed resources, a Go map
unfoldable pub check_reviewed : Table (List String) → Db → Result (Unit {0})
unfolding approved resource_jobs
check_reviewed [] db = ok tt
check_reviewed ((r, allowed) ∷ rs) db =
    let rest = check_reviewed rs db in
    if approved allowed (resource_jobs r db) then rest else err (fail Code.stale_plan)

-- `ComparePutWithResourceJobs`; the record that is put is its text.
unfoldable pub compare_put_with_jobs :
    String → String → Option String → String → Table (List String) → Db → Result Db
unfolding body_at upsert unchanged check_reviewed
compare_put_with_jobs kind id previous next reviewed db = do
  (if unchanged (body_at kind id db.metadata) previous then ok tt else err (fail Code.stale_plan))
  check_reviewed reviewed db
  ok (record db { metadata = upsert kind id next db.metadata })

-- `ComparePut`
unfoldable pub compare_put : String → String → Option String → String → Db → Result Db
unfolding compare_put_with_jobs
compare_put kind id previous next db = compare_put_with_jobs kind id previous next [] db
