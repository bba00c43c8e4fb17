-- ===== src/Lab/Definition.antt =====
-- `ValidateVM` and `Validate` of internal/app/lab/validate.go. The JSON is the value it encodes; of
-- a refused definition the report so far is left out. Fields that no check reads are left out. A
-- subnet that does not parse overlaps none.
pub mod Accepted
pub mod Valid
use Prim.Native.String.{String, ◌++◌ as append}
use virmill.Prelude.{
  ℕ, Bool, true, false, not, ◌&&◌, ◌||◌, Option, none, some, List, [], ◌∷◌, ◌++◌, str_eq,
  if◌then◌else◌, contains, map,
}
use virmill.Prelude.Table.{Table, lookup}
use virmill.Domain.Error.{Result, ok, err, plain, ◌>>=◌, ◌>>◌}
use virmill.Domain.Fuel.{and_then}
use virmill.Network.Prefix.{Prefix4, parse_prefix}
use virmill.Network.Config.{overlaps_any}
use virmill.Network.Intent.{Ipv4, Spec}
use virmill.Network.Intent
use virmill.Network.Nics.{Address, Nic, validate_nics}
use virmill.Lab.Order.{Graph, Progress, order_of}

pub record Vm : Type 0 where
  pub source_type : String
  pub template_ref : String
  pub nics : List Nic
  pub disks : List String
  pub firmware_mode : String
  pub secure_boot : Bool

pub record LabNetwork : Type 0 where
  pub id : String
  pub spec : Option Spec

pub record Machine : Type 0 where
  pub id : String
  pub spec : Vm
  pub depends_on : List String

pub record Definition : Type 0 where
  pub networks : List LabNetwork
  pub machines : List Machine

pub record Report : Type 0 where
  pub valid : Bool
  pub order : List String
  pub warnings : List String
  pub host_preflight : String

-- The networks and the subnets so far, the last first, and the warnings
pub record Declared : Type 0 where
  pub nets : Table Spec
  pub prefixes : List Prefix4
  pub warnings : List String

abbrev pub claim : Declared → Option Prefix4 → Result Declared
claim st none = ok st
claim st (some p) =
    if overlaps_any p st.prefixes then err plain else ok (record st { prefixes = p ∷ st.prefixes })

abbrev pub claim_ipv4 : Declared → Option Ipv4 → Result Declared
claim_ipv4 st none = ok st
claim_ipv4 st (some a) = if str_eq a.cidr "auto" then ok st else claim st (parse_prefix a.cidr)

-- `network.Spec{Type: "bridge"}`
abbrev pub external_bridge : Spec
external_bridge = record {
  kind = "bridge";
  bridge_ref = "";
  ipv4 = none;
  ipv6_mode = "";
  host_access = "";
  egress = "";
}

abbrev pub record_network : String → Spec → Declared → Declared
record_network id s st = record st { nets = st.nets ++ (id, s) ∷ [] }

unfoldable pub declare_spec : String → Declared → Option Spec → Result Declared
unfolding Intent.validate
declare_spec id st none = ok (record (record_network id external_bridge st) {
  warnings =
      st.warnings
      ++ append (append "External network " id)
          " requires host resolution; preserved during teardown"
        ∷ [];
})
declare_spec id st (some s) =
    if not (Intent.validate s) then err plain else claim_ipv4 (record_network id s st) s.ipv4

abbrev pub is_taken {ℓ} : {A : Type ℓ} → Option A → Bool
is_taken none = false
is_taken (some a) = true

-- The loop over the networks
unfoldable pub declare_networks : List LabNetwork → Declared → Result Declared
unfolding declare_spec lookup
declare_networks [] st = ok st
declare_networks (n ∷ ns) st =
    if is_taken (lookup n.id st.nets)
    then err plain
    else (declare_spec n.id st n.spec >>= λ st'. declare_networks ns st')

unfoldable pub distinct_disks : List String → List String → Bool
distinct_disks seen [] = true
distinct_disks seen (d ∷ ds) = not (contains seen d) && distinct_disks (d ∷ seen) ds

abbrev pub template_warning : Vm → List String
template_warning v =
    if str_eq v.source_type "template"
    then append (append "Template " v.template_ref) " requires immutable host resolution" ∷ []
    else []

abbrev pub make_report : List String → Progress → Option (Result Report)
make_report ws p =
    some (ok (record { valid = true; order = p.order; warnings = ws; host_preflight = "not-run" }))

module _ (parse_addr : String → Option Address) where
  -- `ValidateVM`
  unfoldable pub validate_vm : Option (Table Spec) → Vm → Result (List String)
  unfolding distinct_disks validate_nics
  validate_vm nets v =
      if v.secure_boot && not (str_eq v.firmware_mode "uefi")
      then err plain
      else if not (distinct_disks [] v.disks)
      then err plain
      else validate_nics parse_addr nets v.nics

  -- The loop over the machines, with the graph and the warnings so far
  unfoldable pub declare_machines :
      Table Spec → List Machine → Graph → List String → Result (Graph × List String)
  unfolding validate_vm lookup
  declare_machines nets [] g ws = ok (g, ws)
  declare_machines nets (m ∷ ms) g ws =
      if is_taken (lookup m.id g)
      then err plain
      else (validate_vm (some nets) m.spec >>= λ added.
          declare_machines nets ms (g ++ (m.id, m.depends_on) ∷ [])
            (ws ++ added ++ template_warning m.spec))

  unfoldable pub declare : Definition → Result (Graph × List String)
  unfolding declare_networks declare_machines
  declare d =
      declare_networks d.networks (record { nets = []; prefixes = []; warnings = [] }) >>= λ st.
      declare_machines st.nets d.machines [] st.warnings

  -- The visits, where the declarations are valid
  unfoldable pub arrange : Result (Graph × List String) → Option (Result Report)
  unfolding order_of
  arrange (err e) = some (err e)
  arrange (ok (g, ws)) = and_then (order_of g) (make_report ws)

  -- `Validate`
  unfoldable pub validate : Definition → Option (Result Report)
  unfolding declare arrange
  validate d = arrange (declare d)
