-- ===== src/Network/Nics/Attach.antt =====
-- What a NIC that `ValidateNICs` of internal/app/network/intent.go lets through has found, and what
-- the loop has behind it
use virmill.Prelude.{
  ℕ, ◌+◌, Bool, true, false, not, ◌&&◌, ◌||◌, ◌≡◌, refl, sym, Option, none, some, List, [], ◌∷◌,
  str_eq, if◌then◌else◌, length, keep, contains, arith, All, Bool-cases, inl, inr,
}
use virmill.Prelude.Table.{Table, lookup}
use virmill.Domain.Error.{ok, plain, guard_ok, ok_inj, err≢ok}
use virmill.Network.Prefix.{Prefix4, parse_prefix}
use virmill.Network.Config.{overlaps, overlaps_any}
use virmill.Network.Intent.{Ipv4, Spec}
use virmill.Network.Intent.Isolation.{is_protected}
use virmill.Network.Nics.{
  Nic, Scan, holds, address_of, is_external, attach_subnet, attach_ipv4, attach_network, count_nic,
}

-- The subnet of a network, where it has one
abbrev pub subnet_of : Option Ipv4 → Option Prefix4
subnet_of none = none
subnet_of (some a) = if str_eq a.cidr "auto" then none else parse_prefix a.cidr

abbrev pub spec_subnet : Option Spec → Option Prefix4
spec_subnet none = none
spec_subnet (some s) = subnet_of s.ipv4

abbrev pub passes : (Spec → Bool) → Option Spec → Bool
passes test none = false
passes test (some s) = test s

abbrev pub Clear : Option Prefix4 → List Prefix4 → Type 0
Clear none ps = Unit
Clear (some p) ps = overlaps_any p ps ≡ false

abbrev pub Disjoint : Option Prefix4 → Option Prefix4 → Type 0
Disjoint (some p) (some q) = overlaps p q ≡ false
Disjoint _ _ = Unit

abbrev pub Placed : Nic → Option Prefix4 → Type 0
Placed n none = Unit
Placed n (some p) =
    str_eq n.ipv4.mode "static" ≡ true → holds p (address_of (parse_prefix n.ipv4.address)) ≡ true

abbrev pub push : Option Prefix4 → List Prefix4 → List Prefix4
push none ps = ps
push (some p) ps = p ∷ ps

-- What a NIC that is attached has found, and the loop's variables behind it
abbrev Attached : Nic → Scan → Option Prefix4 → Scan → Type 0
Attached n st o st' =
    Clear o st.attached × Placed n o × (st' ≡ record st { attached = push o st.attached })

attach_subnet-Attached :
    (n : Nic) (st st' : Scan) (o : Option Prefix4)
    → attach_subnet n st o ≡ ok st'
    → Attached n st o st'
attach_subnet-Attached n st st' none h = absurd (err≢ok plain st' h)
attach_subnet-Attached n st st' (some p) h =
    let (clear, h1) = guard_ok (overlaps_any p st.attached) plain _ st' h in
    let (placed, h2) =
      guard_ok
        (str_eq n.ipv4.mode "static" && not (holds p (address_of (parse_prefix n.ipv4.address))))
        plain _ st' h1 in
    (clear, λ e. ground arith, sym (ok_inj _ st' h2))

attach_ipv4-Attached :
    (n : Nic) (st st' : Scan) (a : Option Ipv4)
    → attach_ipv4 n st a ≡ ok st'
    → Attached n st (subnet_of a) st'
attach_ipv4-Attached n st st' none h = (tt, tt, sym (ok_inj st st' h))
attach_ipv4-Attached n st st' (some a) h = elim (Bool-cases (str_eq a.cidr "auto")) [
  | inl e ↦ rw e (tt, tt, sym (ok_inj st st' (rw e at h)))
  | inr e ↦ rw e (attach_subnet-Attached n st st' (parse_prefix a.cidr) (rw e at h))
]

abbrev pub defaults_of : List Nic → ℕ
defaults_of ns = length (keep (λ n. n.default_route) ns)

module _ (nets : Table Spec) where
  abbrev pub selected : Nic → Option Spec
  selected n = lookup n.network_ref nets

  abbrev pub subnet : Nic → Option Prefix4
  subnet n = spec_subnet (selected n)

  -- A NIC selects a network of the table. With a default route the network is not protected, and a
  -- static address lies in the subnet.
  pub record Wired (n : Nic) : Type 0 where
    pub network : Spec
    pub known : selected n ≡ some network
    pub routed : n.default_route ≡ true → is_protected network ≡ false
    pub placed : Placed n (subnet n)

  -- Two NICs have different identities and disjoint subnets.
  abbrev pub Apart : Nic → Nic → Type 0
  Apart n m = (str_eq n.id m.id ≡ false) × Disjoint (subnet m) (subnet n)

  abbrev pub Pairwise : List Nic → Type 0
  Pairwise [] = Unit
  Pairwise (n ∷ ns) = All (Apart n) ns × Pairwise ns

  -- Some NIC is on a network that passes a test.
  abbrev pub touches : (Spec → Bool) → List Nic → Bool
  touches test [] = false
  touches test (n ∷ ns) = passes test (selected n) || touches test ns

  -- What the loop leaves
  pub record Scanned (st : Scan) (ns : List Nic) (st' : Scan) : Type 0 where
    pub counted : st'.defaults ≡ st.defaults + defaults_of ns
    pub inside : st'.protected ≡ (st.protected || touches is_protected ns)
    pub outside : st'.external ≡ (st.external || touches is_external ns)
    pub wired : All Wired ns
    pub fresh : All (λ n. (contains st.seen n.id ≡ false) × Clear (subnet n) st.attached) ns
    pub pairs : Pairwise ns

-- The variables of the loop behind a NIC
abbrev pub after : Nic → Option Spec → Scan → Scan
after n o st = record {
  seen = n.id ∷ st.seen;
  defaults = if n.default_route then st.defaults + 1 else st.defaults;
  attached = push (spec_subnet o) st.attached;
  protected = st.protected || passes is_protected o;
  external = st.external || passes is_external o;
}

abbrev pub Entered : Nic → Scan → Option Spec → Scan → Type 0
Entered n st o st' =
    (s : Spec) × (o ≡ some s)
    × (n.default_route ≡ true → is_protected s ≡ false)
    × Placed n (spec_subnet o)
    × Clear (spec_subnet o) st.attached
    × (st' ≡ after n o st)

pub attach_network-Entered :
    (n : Nic) (st st' : Scan) (o : Option Spec)
    → attach_network n (count_nic n st) o ≡ ok st'
    → Entered n st o st'
attach_network-Entered n st st' none h = absurd (err≢ok plain st' h)
attach_network-Entered n st st' (some s) h =
    let (routed, h1) = guard_ok (is_protected s && n.default_route) plain _ st' h in
    let (clear, placed, same) =
      attach_ipv4-Attached n
        (record (count_nic n st) {
          protected = st.protected || is_protected s;
          external = st.external || is_external s;
        })
        st' s.ipv4 h1 in
    (s, refl, λ e. ground arith, placed, clear, same)
