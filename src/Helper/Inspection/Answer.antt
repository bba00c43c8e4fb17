-- ===== src/Helper/Inspection/Answer.antt =====
-- What an answer has that `ValidateAuxiliaryInspection` of internal/helper/auxiliary.go lets through
use virmill.Prelude.{
  ℕ, String, ◌≤◌, ◌<◌, true, false, not, ◌&&◌, ◌≡◌, Option, none, some, ltb, ◌==◌, str_eq, length,
  arith, both, inl, inr, Option-cases, ==_iff, eq_iff, sym, subst,
}
use virmill.Domain.Error.{Result, ok, bind_ok, guard_ok, require_ok, err≢ok}
use virmill.Helper.Request.{Request, Services, AuxiliaryRequest, AuxiliaryInventory}
use virmill.Helper.Network.{is_some}
use virmill.Helper.Auxiliary.{
  max_auxiliary_members, max_auxiliary_payload_bytes, auxiliary_absolute_path, listed, sum_sizes,
  totals,
}
use virmill.Helper.Authorization.Confidential.{total_size, sum_sizes-total_size}
use virmill.Helper.Inspection.{
  AuxiliaryResponse, Binding, auxiliary_binding, inspects, answers, reported, payload_fits,
  check_inventory, check_answer, inspection, validate_inspection,
}

-- An inventory with between 1 and 128 members whose sizes add up, within 255 MiB
pub record Complete (i : AuxiliaryInventory) : Type 0 where
  pub some_members : 0 < length (listed i.members)
  pub few_members : length (listed i.members) ≤ max_auxiliary_members
  pub total : i.total_bytes ≡ total_size (listed i.members)
  pub small : i.total_bytes ≤ max_auxiliary_payload_bytes

-- An answer for the request: its job, its binding, and an inventory of its machine and root
pub record Answered (digest : Binding → Result String) (r : Request) (response : AuxiliaryResponse)
    : Type 0 where
  pub job : response.job_id ≡ r.job_id
  pub binding : auxiliary_binding digest r ≡ ok response.binding
  pub inventory : AuxiliaryInventory
  pub carried : response.inventory ≡ some inventory
  pub machine : inventory.layout_vm_id ≡ r.resource_id
  pub root : inventory.root.id ≡ r.root_id
  pub whole : Complete inventory

positive : (n : ℕ) → not (n == 0) ≡ true → 0 < n
positive n h = ground arith

at_most : (n m : ℕ) → not (ltb m n) ≡ true → n ≤ m
at_most n m h = ground arith

payload_fits-Complete : (i : AuxiliaryInventory) → payload_fits i ≡ true → Complete i
payload_fits-Complete i h =
    let a =
      both _ (totals (sum_sizes max_auxiliary_payload_bytes 0 (listed i.members)) i.total_bytes)
        h in
    let b = both _ (not (ltb max_auxiliary_payload_bytes i.total_bytes)) a.0 in
    let c = both _ (not (ltb max_auxiliary_members (length (listed i.members)))) b.0 in
    let d = both _ (not (length (listed i.members) == 0)) c.0 in
    elim (Option-cases (sum_sizes max_auxiliary_payload_bytes 0 (listed i.members))) [
      | inl e ↦ let no : false ≡ true = rw e at a.1 in absurd cc
      | inr (t, e) ↦
          let exact : (t == i.total_bytes) ≡ true = rw e at a.1 in
          let same = (==_iff t i.total_bytes).0 exact in
          let s =
            sum_sizes-total_size max_auxiliary_payload_bytes 0 t (listed i.members) (omega arith)
              (omega arith) e in
          let sum = s.0 in
          record {
            some_members = positive _ d.1;
            few_members = at_most _ _ c.1;
            total = omega arith;
            small = at_most _ _ b.1;
          }
    ]

answers-Answered :
    (svc : Services) (digest : Binding → Result String) (r : Request) (a : AuxiliaryRequest)
    (response : AuxiliaryResponse) (b : String)
    → auxiliary_binding digest r ≡ ok b
    → check_answer svc r a response b ≡ ok tt
    → Answered digest r response
unfolding check_answer check_inventory
answers-Answered svc digest r a response b e h =
    let k = require_ok (answers r response b) _ _ tt h in
    let x = both _ (not (is_some response.artifact)) k.0 in
    let y = both _ (str_eq response.stage "inspected") x.0 in
    let z = both _ (str_eq response.binding b) y.0 in
    let j = both (response.version == 1) (str_eq response.job_id r.job_id) z.0 in
    elim (Option-cases response.inventory) [
      | inl n ↦ absurd (err≢ok _ tt (rw n at k.1))
      | inr (i, n) ↦
          let q = require_ok (reported svc r a i && payload_fits i) _ (ok tt) tt (rw n at k.1) in
          let parts = both (reported svc r a i) (payload_fits i) q.0 in
          let m = both _ (is_some i.members) parts.0 in
          let d = both _ (is_some i.directories) m.0 in
          let p = both _ (auxiliary_absolute_path svc i.root.path) d.0 in
          let o = both _ (str_eq i.root.id r.root_id) p.0 in
          let l = both _ (str_eq i.layout_vm_id r.resource_id) o.0 in
          let bound : b ≡ response.binding = sym ((eq_iff _ _).0 z.1) in
          record {
            job = (eq_iff _ _).0 j.1;
            binding = subst (λ t. auxiliary_binding digest r ≡ ok t) bound e;
            inventory = i;
            carried = n;
            machine = (eq_iff _ _).0 l.1;
            root = (eq_iff _ _).0 o.1;
            whole = payload_fits-Complete i parts.1;
          }
    ]

inspection-Answered :
    (svc : Services) (digest : Binding → Result String) (r : Request) (response : AuxiliaryResponse)
    (o : Option AuxiliaryRequest)
    → inspection svc digest r response o ≡ ok tt
    → Answered digest r response
unfolding inspection
inspection-Answered svc digest r response none h = absurd (err≢ok _ tt h)
inspection-Answered svc digest r response (some a) h =
    let k = guard_ok (not (inspects r a)) _ _ tt h in
    let b = bind_ok (auxiliary_binding digest r) (λ t. check_answer svc r a response t) tt k.1 in
    answers-Answered svc digest r a response b.0 b.1 b.2

-- An answer that is accepted is for the job and has the digest of the request's bound fields; its
-- inventory is of the machine and the root asked for, with between 1 and 128 members whose sizes
-- add up to the declared total, at most 255 MiB.
pub validate_inspection-Answered :
    (svc : Services) (digest : Binding → Result String) (r : Request) (response : AuxiliaryResponse)
    → validate_inspection svc digest r (some response) ≡ ok tt
    → Answered digest r response
unfolding validate_inspection
validate_inspection-Answered svc digest r response h =
    inspection-Answered svc digest r response r.auxiliary h
