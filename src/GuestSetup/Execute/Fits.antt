-- ===== src/GuestSetup/Execute/Fits.antt =====
-- A record that an execution of internal/guestsetup/stages.go stores is one that is read.
use virmill.Prelude.{
  ℕ, ◌≤◌, ◌<◌, String, Bool, true, false, ◌≡◌, refl, sym, ap, subst, some, List, str_eq, eq_iff,
  arith, contains,
}
use virmill.Domain.Job.{Job}
use virmill.Domain.Plan.{Plan}
use virmill.GuestSetup.Receipt.{stamp, stage_names, digest_fits, valid_receipt, received, skipped}
use virmill.GuestSetup.Receipt.Valid.{received-valid_receipt, skipped-valid_receipt}
use virmill.GuestSetup.Stages.{
  FrozenInput, same_bool, StageIntent, StageRecord, Codec, same_intent, make_intent, record_fits,
}
use virmill.GuestSetup.Execute.{Answer, broken, canceled, finished, Surroundings, intent_record}
use virmill.GuestSetup.Execute.Parts.{answered, receipt_of, Supported}

same_bool_refl : (b : Bool) → same_bool b b ≡ true
same_bool_refl true = refl
same_bool_refl false = refl

same_intent_refl : (a : StageIntent) → same_intent a a ≡ true
unfolding same_intent
same_intent_refl a =
    let same : (x : String) → str_eq x x ≡ true = λ x. (eq_iff x x).1 refl in
    ground (
      arith,
      same_bool_refl a.run_planned,
      same a.operation_id,
      same a.plan_id,
      same a.plan_digest,
      same a.input_digest,
      same a.resource.provider_id,
      same a.resource.connection_id,
      same a.resource.kind,
      same a.resource.uuid,
      same a.stage,
      same a.script_sha256,
      same a.arguments_sha256,
      same a.target_sha256,
      same a.ssh_sha256,
    )

-- The record that is stored last
unfoldable pub with_receipt :
    Codec → Plan → FrozenInput → Job → String → Surroundings → Bool → StageRecord
unfolding intent_record
with_receipt codec p input j name s run = record (intent_record codec p input j name s run) {
  receipt = some (receipt_of codec.hash name s run);
}

module _ (codec : Codec) (p : Plan) (input : FrozenInput) (j : Job) (name : String)
    (s : Surroundings) (digests : (text : List ℕ) → digest_fits (codec.hash text) ≡ true)
    (known : contains stage_names name ≡ true) (started : 0 < s.began)
    (later : j.created_at ≤ s.began) (ended : s.began ≤ s.ended) where
  answered-fits :
      (a : Answer)
      → Supported true a
      → (valid_receipt codec.hash name true (some (answered name s.ended codec.hash a)) ≡ true)
        × ((answered name s.ended codec.hash a).finished_at ≡ stamp s.ended)
  unfolding received
  answered-fits (broken e) u = absurd u
  answered-fits (canceled e) u = absurd u
  answered-fits (finished r) u = (
    received-valid_receipt codec.hash digests name r s.ended known (ground arith) (ground arith)
        (ground arith) (omega arith),
    refl,
  )

  receipt-fits :
      (run : Bool)
      → (run ≡ false → name ≡ "apply")
      → Supported run s.answer
      → (valid_receipt codec.hash name run (some (receipt_of codec.hash name s run)) ≡ true)
        × ((receipt_of codec.hash name s run).finished_at ≡ stamp s.ended)
  unfolding skipped
  receipt-fits true skip u = answered-fits s.answer u
  receipt-fits false skip u = (
    subst (λ x. valid_receipt codec.hash x false (some (skipped codec.hash (stamp s.ended))) ≡ true)
        (sym (skip refl)) (skipped-valid_receipt codec.hash digests s.ended (omega arith)),
    refl,
  )

  -- The record with its receipt fits.
  pub with_receipt-fits :
      (run : Bool)
      → (run ≡ false → name ≡ "apply")
      → Supported run s.answer
      → record_fits codec p input j name run (with_receipt codec p input j name s run) ≡ true
  unfolding with_receipt record_fits intent_record make_intent
  with_receipt-fits run skip u =
      let (valid, at) = receipt-fits run skip u in
      ground (
        arith,
        valid,
        ap (λ t. t.nanos) at,
        same_intent_refl (make_intent codec p input j name run (stamp s.began)),
        started,
        later,
        ended,
      )
