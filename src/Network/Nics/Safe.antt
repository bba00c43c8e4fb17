-- ===== src/Network/Nics/Safe.antt =====
-- What `ValidateNICs` of internal/app/network/intent.go lets through
use virmill.Prelude.{
  ◌≤◌, String, Bool, true, false, ◌&&◌, ◌||◌, ◌≡◌, refl, subst, Option, none, some, List, [], ◌∷◌,
  ltb, eq_iff, contains, arith, All,
}
use virmill.Prelude.Table.{Table}
use virmill.Domain.Error.{ok, plain, bind_ok, guard_ok, require_ok, ok_inj}
use virmill.Network.Prefix.{Prefix4}
use virmill.Network.Config.{overlaps_any}
use virmill.Network.Intent.{Spec}
use virmill.Network.Intent.Isolation.{is_protected}
use virmill.Network.Nics.{
  Address, Nic, Scan, is_external, attach_network, count_nic, dual_homed, unverified, warnings,
  no_nics, nic_fits, scan_nics, validate_nics,
}
use virmill.Network.Nics.Attach.{
  passes, Clear, Disjoint, Placed, push, defaults_of, selected, subnet, Wired, Apart, Pairwise,
  touches, Scanned, after, attach_network-Entered,
}

||_assoc : (a b c : Bool) → ((a || b) || c) ≡ (a || (b || c))
||_assoc true b c = refl
||_assoc false b c = refl

-- What is clear of more subnets is clear of those before, and of the new one.
split_Clear :
    (o q : Option Prefix4) (ps : List Prefix4) → Clear q (push o ps) → Clear q ps × Disjoint q o
unfolding overlaps_any
split_Clear none none ps c = (tt, tt)
split_Clear none (some q) ps c = (c, tt)
split_Clear (some p) none ps c = (tt, tt)
split_Clear (some p) (some q) ps c = (ground arith, ground arith)

module _ (nets : Table Spec) where
  abbrev Fresh : List String → List Prefix4 → Nic → Type 0
  Fresh seen ps n = (contains seen n.id ≡ false) × Clear (subnet nets n) ps

  split_Fresh :
      (n : Nic) (seen : List String) (ps : List Prefix4) (ns : List Nic)
      → All (Fresh (n.id ∷ seen) (push (subnet nets n) ps)) ns
      → All (Fresh seen ps) ns × All (Apart nets n) ns
  split_Fresh n seen ps [] f = (tt, tt)
  split_Fresh n seen ps (m ∷ ns) f =
      let rest = split_Fresh n seen ps ns f.1 in
      let clear = split_Clear (subnet nets n) (subnet nets m) ps f.0.1 in
      (((ground (arith, f.0.0), clear.0), rest.0), ((ground (arith, f.0.0), clear.1), rest.1))

  scan_step :
      (n : Nic) (ns : List Nic) (st st' : Scan)
      → contains st.seen n.id ≡ false
      → (s : Spec) → selected nets n ≡ some s
      → (n.default_route ≡ true → is_protected s ≡ false)
      → Placed n (subnet nets n)
      → Clear (subnet nets n) st.attached
      → Scanned nets (after n (selected nets n) st) ns st'
      → Scanned nets st (n ∷ ns) st'
  scan_step n ns st st' new s known routed placed clear r =
      let split = split_Fresh n st.seen st.attached ns r.fresh in
      record {
        counted = ground (arith, r.counted);
        inside = ground (
          arith,
          r.inside,
          ||_assoc st.protected (passes is_protected (selected nets n))
              (touches nets is_protected ns),
        );
        outside = ground (
          arith,
          r.outside,
          ||_assoc st.external (passes is_external (selected nets n)) (touches nets is_external ns),
        );
        wired = (record { network = s; known = known; routed = routed; placed = placed }, r.wired);
        fresh = ((new, clear), split.0);
        pairs = (split.1, r.pairs);
      }

module _ (parse_addr : String → Option Address) (nets : Table Spec) where
  nic_fits-new :
      (seen : List String) (n : Nic)
      → nic_fits parse_addr seen n ≡ true
      → contains seen n.id ≡ false
  unfolding nic_fits
  nic_fits-new seen n h = ground arith

  scan_nics-Scanned :
      (ns : List Nic) (st st' : Scan)
      → scan_nics parse_addr (some nets) ns st ≡ ok st'
      → Scanned nets st ns st'
  unfolding scan_nics
  scan_nics-Scanned [] st st' h = subst (Scanned nets st []) (ok_inj st st' h) (record {
    counted = omega arith;
    inside = ground arith;
    outside = ground arith;
    wired = tt;
    fresh = tt;
    pairs = tt;
  })
  scan_nics-Scanned (n ∷ ns) st st' h =
      let (fits, h1) = require_ok (nic_fits parse_addr st.seen n) plain _ st' h in
      let (st2, here, h2) =
        bind_ok (attach_network n (count_nic n st) (selected nets n))
          (λ s. scan_nics parse_addr (some nets) ns s) st' h1 in
      let (s, known, routed, placed, clear, same) =
        attach_network-Entered n st st2 (selected nets n) here in
      scan_step nets n ns st st' (nic_fits-new st.seen n fits) s known routed placed clear
        (subst (λ x. Scanned nets x ns st') same (scan_nics-Scanned ns st2 st' h2))

  -- The NICs of a guest that are let through
  pub record Safe (nics : List Nic) (ws : List String) : Type 0 where
    pub one_default : defaults_of nics ≤ 1
    pub wired : All (Wired nets) nics
    pub pairs : Pairwise nets nics
    pub warned :
        contains ws dual_homed ≡ (touches nets is_protected nics && touches nets is_external nics)

  -- NICs that are let through are safe.
  pub validate_nics-Safe :
      (nics : List Nic) (ws : List String)
      → validate_nics parse_addr (some nets) nics ≡ ok ws
      → Safe nics ws
  unfolding validate_nics
  validate_nics-Safe nics ws h =
      let (st, looped, h1) =
        bind_ok (scan_nics parse_addr (some nets) nics no_nics) warnings ws h in
      let (few, h2) = guard_ok (ltb 1 st.defaults) plain _ ws h1 in
      let r = scan_nics-Scanned nics no_nics st looped in
      record {
        one_default = ground (arith, r.counted);
        wired = r.wired;
        pairs = r.pairs;
        warned = ground (
          arith,
          r.inside,
          r.outside,
          ok_inj _ ws h2,
          eq_iff dual_homed dual_homed,
          eq_iff unverified dual_homed,
        );
      }
