-- ===== src/Lab/Definition/Valid.antt =====
-- What `Validate` of internal/app/lab/validate.go lets through
use virmill.Prelude.{
  true, not, ◌&&◌, String, Option, none, some, List, [], ◌∷◌, ◌++◌, ◌≡◌, ◌≢◌, str_eq, All, contains,
  inl, inr,
}
use virmill.Prelude.Table.{Table, IsTable}
use virmill.Domain.Error.{Result-cases, ok, err, plain, guard_ok}
use virmill.Domain.Fuel.{and_then-ends}
use virmill.Network.Intent.{Spec}
use virmill.Network.Nics.{Address}
use virmill.Network.Nics.Safe.{Safe, validate_nics-Safe}
use virmill.Lab.Order.{order_of, keys}
use virmill.Lab.Order.Marks.{order_of-ends}
use virmill.Lab.Order.Sorted.{Follows, order_of-Follows}
use virmill.Lab.Definition.{
  template_warning, Vm, Machine, Definition, Report, distinct_disks, make_report, validate_vm,
  declare, arrange, validate,
}
use virmill.Lab.Definition.Accepted.{nets_of, graph_of, Checked, Within, validate-Accepted}

module _ (parse_addr : String → Option Address) where
  validate_vm-Safe :
      (nets : Table Spec) (v : Vm) (ws : List String)
      → validate_vm parse_addr (some nets) v ≡ ok ws
      → Safe parse_addr nets v.nics ws
  unfolding validate_vm
  validate_vm-Safe nets v ws h =
      let (secure, h1) =
        guard_ok (v.secure_boot && not (str_eq v.firmware_mode "uefi")) plain _ ws h in
      let (disks, h2) = guard_ok (not (distinct_disks [] v.disks)) plain _ ws h1 in
      validate_nics-Safe parse_addr nets v.nics ws h2

  -- The warnings of a machine are among those of the report.
  abbrev pub SafeMachine : Table Spec → List String → Machine → Type 0
  SafeMachine nets out m =
      (ws : List String) × (validate_vm parse_addr (some nets) m.spec ≡ ok ws)
      × Safe parse_addr nets m.spec.nics ws
      × Within (ws ++ template_warning m.spec) out

  All-Safe :
      (nets : Table Spec) (out : List String) (ms : List Machine)
      → All (Checked parse_addr nets out) ms
      → All (SafeMachine nets out) ms
  All-Safe nets out [] c = tt
  All-Safe nets out (m ∷ ms) ((ws, passed, own), rest) =
      ((ws, passed, validate_vm-Safe nets m.spec ws passed, own), All-Safe nets out ms rest)

  -- The order that the report of a lab gives has each machine once, behind its dependencies.
  pub validate-Follows :
      (d : Definition) (r : Report)
      → validate parse_addr d ≡ some (ok r)
      → IsTable (graph_of d.machines)
        × Follows (graph_of d.machines) [] r.order
        × ((id : String)
            → contains (keys (graph_of d.machines)) id ≡ true
            → contains r.order id ≡ true)
  validate-Follows d r h =
      let a = validate-Accepted parse_addr d r h in
      let (follows, all) = order_of-Follows (graph_of d.machines) a.progress a.arranged in
      (a.distinct, rw a.ordered follows, λ id c. rw a.ordered (all id c))

  -- In a valid lab each NIC of a machine selects a network of the lab and has its static address in
  -- the subnet of it, where it has one; no default route leads to a protected network, and a machine
  -- has at most one; its NICs have distinct names and disjoint subnets; and a machine on a protected
  -- and an external network has a warning. The report has the warnings of each machine, and the one
  -- of its template.
  pub validate-Safe :
      (d : Definition) (r : Report)
      → validate parse_addr d ≡ some (ok r)
      → All (SafeMachine (nets_of d.networks) r.warnings) d.machines
  validate-Safe d r h =
      All-Safe (nets_of d.networks) r.warnings d.machines
        (validate-Accepted parse_addr d r h).checked

  -- The validation of a lab ends.
  pub validate_lab-ends : (d : Definition) → validate parse_addr d ≢ none
  unfolding validate arrange
  validate_lab-ends d e = elim (Result-cases (declare parse_addr d)) [
    | inr (x, bad) ↦ let no : some (err x) ≡ none = rw bad at e in absurd cc
    | inl ((g, ws), good) ↦
        and_then-ends (order_of g) (make_report ws) (order_of-ends g) (λ p f n. absurd cc)
          (rw good at e)
  ]
