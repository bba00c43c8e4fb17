-- ===== src/Lab/Definition/Accepted.antt =====
-- The declarations of a lab that `Validate` of internal/app/lab/validate.go accepts
use mathlib.Core.List.{append-nil, append_assoc}
use virmill.Prelude.{
  true, false, not, ◌||◌, contains, arith, String, Option, none, some, List, [], ◌∷◌, ◌++◌, ◌≡◌,
  refl, sym, ◌∙◌, subst, ap, str_eq, All, Bool-cases, inl, inr,
}
use virmill.Prelude.Table.{Table, lookup, IsTable, IsTable-append}
use virmill.Domain.Error.{Result-cases, ok, err, plain, bind_ok, guard_ok, ok_inj}
use virmill.Domain.Fuel.{and_then_ok, some_ok, some_err}
use virmill.Network.Prefix.{Prefix4}
use virmill.Network.Config.{overlaps_any}
use virmill.Network.Intent.{Ipv4, Spec}
use virmill.Network.Intent
use virmill.Network.Nics.{Address}
use virmill.Lab.Order.{Graph, Progress, order_of}
use virmill.Lab.Definition.{
  LabNetwork, Machine, Definition, Report, Declared, claim, claim_ipv4, external_bridge,
  record_network, declare_spec, is_taken, declare_networks, template_warning, make_report,
  validate_vm, declare_machines, declare, arrange, validate,
}

-- The networks of a lab, where one that is declared elsewhere is an external bridge
abbrev pub spec_or_bridge : Option Spec → Spec
spec_or_bridge none = external_bridge
spec_or_bridge (some s) = s

abbrev pub nets_of : List LabNetwork → Table Spec
nets_of [] = []
nets_of (n ∷ ns) = (n.id, spec_or_bridge n.spec) ∷ nets_of ns

abbrev pub graph_of : List Machine → Graph
graph_of [] = []
graph_of (m ∷ ms) = (m.id, m.depends_on) ∷ graph_of ms

claim-nets : (st st' : Declared) (o : Option Prefix4) → claim st o ≡ ok st' → st'.nets ≡ st.nets
claim-nets st st' none h = ap (λ x. x.nets) (sym (ok_inj st st' h))
claim-nets st st' (some p) h =
    let (free, made) = guard_ok (overlaps_any p st.prefixes) plain _ st' h in
    ap (λ x. x.nets) (sym (ok_inj _ st' made))

claim_ipv4-nets :
    (st st' : Declared) (a : Option Ipv4) → claim_ipv4 st a ≡ ok st' → st'.nets ≡ st.nets
claim_ipv4-nets st st' none h = ap (λ x. x.nets) (sym (ok_inj st st' h))
claim_ipv4-nets st st' (some a) h = elim (Bool-cases (str_eq a.cidr "auto")) [
  | inl e ↦ ap (λ x. x.nets) (sym (ok_inj st st' (rw e at h)))
  | inr e ↦ claim-nets st st' _ (rw e at h)
]

declare_spec-nets :
    (id : String) (st st' : Declared) (o : Option Spec)
    → declare_spec id st o ≡ ok st'
    → st'.nets ≡ st.nets ++ (id, spec_or_bridge o) ∷ []
unfolding declare_spec
declare_spec-nets id st st' none h = ap (λ x. x.nets) (sym (ok_inj _ st' h))
declare_spec-nets id st st' (some s) h =
    let (valid, made) = guard_ok (not (Intent.validate s)) plain _ st' h in
    claim_ipv4-nets (record_network id s st) st' s.ipv4 made

declare_networks-nets :
    (ns : List LabNetwork) (st st' : Declared)
    → declare_networks ns st ≡ ok st'
    → st'.nets ≡ st.nets ++ nets_of ns
unfolding declare_networks
declare_networks-nets [] st st' h =
    sym (append-nil st'.nets) ∙ ap (λ x. x.nets ++ []) (sym (ok_inj st st' h))
declare_networks-nets (n ∷ ns) st st' h =
    let (fresh, h1) = guard_ok (is_taken (lookup n.id st.nets)) plain _ st' h in
    let (st2, here, h2) =
      bind_ok (declare_spec n.id st n.spec) (λ s. declare_networks ns s) st' h1 in
    declare_networks-nets ns st2 st' h2
    ∙ ap (λ t. t ++ nets_of ns) (declare_spec-nets n.id st st2 n.spec here)
    ∙ append_assoc st.nets ((n.id, spec_or_bridge n.spec) ∷ []) (nets_of ns)

is_taken-none {ℓ} : {A : Type ℓ} (o : Option A) → is_taken o ≡ false → o ≡ none
is_taken-none none h = refl
is_taken-none (some a) h = absurd cc

contains_or :
    (xs ys : List String) (q : String) → contains (xs ++ ys) q ≡ (contains xs q || contains ys q)
contains_or [] ys q = refl
contains_or (x ∷ xs) ys q = ground (arith, contains_or xs ys q)

-- Each text of the first list is in the second.
abbrev pub Within : List String → List String → Type 0
Within xs ys = (q : String) → contains xs q ≡ true → contains ys q ≡ true

Within-split :
    (ws added more out : List String)
    → Within (ws ++ added ++ more) out
    → Within ws out × Within (added ++ more) out
Within-split ws added more out h = (
  λ q c. h q (ground (arith, contains_or (ws ++ added) more q, contains_or ws added q, c)),
  λ q c. h q (
      ground (
        arith,
        contains_or (ws ++ added) more q,
        contains_or ws added q,
        contains_or added more q,
        c,
      )),
)

module _ (parse_addr : String → Option Address) where
  -- The checks on a machine have passed, and the warnings have its own and the one of its template.
  abbrev pub Checked : Table Spec → List String → Machine → Type 0
  Checked nets out m =
      (ws : List String) × (validate_vm parse_addr (some nets) m.spec ≡ ok ws)
      × Within (ws ++ template_warning m.spec) out

  declare_machines-graph :
      (nets : Table Spec) (ms : List Machine) (g g' : Graph) (ws ws' : List String)
      → IsTable g
      → declare_machines parse_addr nets ms g ws ≡ ok (g', ws')
      → (g' ≡ g ++ graph_of ms) × IsTable g' × All (Checked nets ws') ms × Within ws ws'
  unfolding declare_machines
  declare_machines-graph nets [] g g' ws ws' d h =
      let same : g ≡ g' = ap (λ x. x.0) (ok_inj (g, ws) (g', ws') h) in
      let warned : ws ≡ ws' = ap (λ x. x.1) (ok_inj (g, ws) (g', ws') h) in
      (sym same ∙ sym (append-nil g), subst IsTable same d, tt, subst (Within ws) warned (λ q c. c))
  declare_machines-graph nets (m ∷ ms) g g' ws ws' d h =
      let (fresh, h1) = guard_ok (is_taken (lookup m.id g)) plain _ (g', ws') h in
      let (added, here, h2) =
        bind_ok (validate_vm parse_addr (some nets) m.spec)
          (λ added.
            declare_machines parse_addr nets ms (g ++ (m.id, m.depends_on) ∷ [])
              (ws ++ added ++ template_warning m.spec))
          (g', ws') h1 in
      let (same, keyed, rest, within) =
        declare_machines-graph nets ms (g ++ (m.id, m.depends_on) ∷ []) g' _ ws'
          (IsTable-append m.id m.depends_on g (is_taken-none (lookup m.id g) fresh) d) h2 in
      let (before, own) = Within-split ws added (template_warning m.spec) ws' within in
      (
        same ∙ append_assoc g ((m.id, m.depends_on) ∷ []) (graph_of ms),
        keyed,
        ((added, here, own), rest),
        before,
      )

  declare_ok :
      (d : Definition) (g : Graph) (ws : List String)
      → declare parse_addr d ≡ ok (g, ws)
      → (g ≡ graph_of d.machines) × IsTable g × All (Checked (nets_of d.networks) ws) d.machines
  unfolding declare
  declare_ok d g ws h =
      let (st, nets, h1) =
        bind_ok (declare_networks d.networks (record { nets = []; prefixes = []; warnings = [] }))
          (λ st. declare_machines parse_addr st.nets d.machines [] st.warnings) (g, ws) h in
      let same = declare_networks-nets d.networks _ st nets in
      let (graph, keyed, checked, before) =
        declare_machines-graph st.nets d.machines [] g st.warnings ws tt h1 in
      (graph, keyed, subst (λ t. All (Checked t ws) d.machines) same checked)

  -- The parts of a definition that is let through
  pub record Accepted (d : Definition) (r : Report) : Type 0 where
    pub progress : Progress
    pub arranged : order_of (graph_of d.machines) ≡ some (ok progress)
    pub ordered : r.order ≡ progress.order
    pub distinct : IsTable (graph_of d.machines)
    pub checked : All (Checked (nets_of d.networks) r.warnings) d.machines

  pub validate-Accepted :
      (d : Definition) (r : Report) → validate parse_addr d ≡ some (ok r) → Accepted d r
  unfolding validate arrange
  validate-Accepted d r h = elim (Result-cases (declare parse_addr d)) [
    | inr (e, bad) ↦ let no : some (err e) ≡ some (ok r) = rw bad at h in absurd (some_err e r no)
    | inl ((g, ws), good) ↦
        let (same, keyed, checked) = declare_ok d g ws good in
        let (p, found, made) = and_then_ok (order_of g) (make_report ws) r (rw good at h) in
        record {
          progress = p;
          arranged = subst (λ t. order_of t ≡ some (ok p)) same found;
          ordered = ap (λ x. x.order) (sym (some_ok _ r made));
          distinct = subst IsTable same keyed;
          checked =
              subst (λ out. All (Checked (nets_of d.networks) out) d.machines)
                (ap (λ x. x.warnings) (some_ok _ r made)) checked;
        }
  ]
