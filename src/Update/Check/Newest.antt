-- ===== src/Update/Check/Newest.antt =====
-- `Check` offers the newest release that may be offered.
use virmill.Prelude.{
  ℕ, zero, suc, String, Bool, true, false, not, ◌&&◌, Option, none, some, List, [], ◌∷◌, ◌≡◌, ◌⊎◌,
  inl, inr, refl, sym, ap, ◌∙◌, subst, arith, get_elem?, Option-cases, Bool-cases,
}
use virmill.Domain.Error.{ok}
use virmill.Update.Version.{Version, parse_version, prerelease, less}
use virmill.Update.Version.Order.{less_trans, less_irrefl}
use virmill.Update.Check.{Listed, Release, is_skipped, consider, newest, check, released}

-- The release `r`, of version `v`, may be offered to a user of `cur`.
unfoldable pub offers : Version → Version → Listed → Bool
offers cur v r = not r.draft && not (prerelease v && not (prerelease cur)) && less cur v

-- A release that may be offered is not newer than the kept one.
abbrev pub covers : Option Release → Version → Bool
covers none v = false
covers (some best) v = not (less best.version v)

replaced :
    (cur u v : Version) (r : Listed) (latest : Option Release)
    → is_skipped cur u r.draft latest ≡ false
    → covers latest v ≡ true
    → not (less u v) ≡ true
unfolding is_skipped
replaced cur u v r none n h = absurd cc
replaced cur u v r (some best) n h = ground (arith, less_trans best.version u v)

covers-consider :
    (cur v : Version) (r : Listed) (latest : Option Release)
    → covers latest v ≡ true
    → covers (consider cur r latest) v ≡ true
unfolding consider
covers-consider cur v r latest h = elim (Option-cases (parse_version r.tag)) [
  | inl p ↦ rw (p, consider) h
  | inr (u, p) ↦
      rw (p, consider)
        (elim (Bool-cases (is_skipped cur u r.draft latest)) [
          | inl s ↦ rw s h
          | inr s ↦ rw s (replaced cur u v r latest s h)
        ])
]

skipped-covers :
    (cur v : Version) (r : Listed) (latest : Option Release)
    → offers cur v r ≡ true
    → is_skipped cur v r.draft latest ≡ true
    → covers latest v ≡ true
unfolding offers is_skipped
skipped-covers cur v r none o s = ground arith
skipped-covers cur v r (some best) o s = ground arith

considered :
    (cur v : Version) (r : Listed) (latest : Option Release)
    → parse_version r.tag ≡ some v
    → offers cur v r ≡ true
    → covers (consider cur r latest) v ≡ true
unfolding consider
considered cur v r latest p o =
    rw (p, consider)
      (elim (Bool-cases (is_skipped cur v r.draft latest)) [
        | inl s ↦ rw s (skipped-covers cur v r latest o s)
        | inr s ↦ rw s (ap not (less_irrefl v))
      ])

covers-newest :
    (cur v : Version) (rs : List Listed) (latest : Option Release)
    → covers latest v ≡ true
    → covers (newest cur rs latest) v ≡ true
unfolding newest
covers-newest cur v [] latest h = h
covers-newest cur v (r ∷ rs) latest h =
    covers-newest cur v rs (consider cur r latest) (covers-consider cur v r latest h)

newest-covers :
    (cur v : Version) (rs : List Listed) (i : ℕ) (r : Listed) (latest : Option Release)
    → get_elem? rs i ≡ some r
    → parse_version r.tag ≡ some v
    → offers cur v r ≡ true
    → covers (newest cur rs latest) v ≡ true
unfolding newest
newest-covers cur v [] i r latest e p o = absurd cc
newest-covers cur v (s ∷ rs) zero r latest e p o =
    let same : s ≡ r = cc in
    covers-newest cur v rs (consider cur s latest) (rw same (considered cur v r latest p o))
newest-covers cur v (s ∷ rs) (suc i) r latest e p o =
    newest-covers cur v rs i r (consider cur s latest) e p o

-- The kept release stands in the list, and may be offered.
pub record Offered (cur : Version) (rs : List Listed) (rel : Release) : Type 0 where
  pub index : ℕ
  pub row : Listed
  pub version : Version
  pub at : get_elem? rs index ≡ some row
  pub parsed : parse_version row.tag ≡ some version
  pub allowed : offers cur version row ≡ true
  pub same : rel ≡ released version row

unskipped :
    (cur v : Version) (r : Listed) (latest : Option Release)
    → is_skipped cur v r.draft latest ≡ false
    → offers cur v r ≡ true
unfolding is_skipped offers
unskipped cur v r latest s = ground arith

consider-cases :
    (cur : Version) (r : Listed) (latest : Option Release)
    → (consider cur r latest ≡ latest)
      ⊎ ((v : Version) × (parse_version r.tag ≡ some v)
          × (offers cur v r ≡ true)
          × (consider cur r latest ≡ some (released v r)))
unfolding consider
consider-cases cur r latest = elim (Option-cases (parse_version r.tag)) [
  | inl p ↦ inl (rw (p, consider) refl)
  | inr (v, p) ↦ elim (Bool-cases (is_skipped cur v r.draft latest)) [
    | inl s ↦ inl (rw (p, consider, s) refl)
    | inr s ↦ inr (v, p, unskipped cur v r latest s, rw (p, consider, s) refl)
  ]
]

newest-Offered :
    (cur : Version) (rs : List Listed) (latest : Option Release) (rel : Release)
    → newest cur rs latest ≡ some rel
    → (latest ≡ some rel) ⊎ Offered cur rs rel
unfolding newest
newest-Offered cur [] latest rel e = inl e
newest-Offered cur (r ∷ rs) latest rel e =
    elim (newest-Offered cur rs (consider cur r latest) rel e) [
      | inr o ↦ inr (record {
        index = suc o.index;
        row = o.row;
        version = o.version;
        at = o.at;
        parsed = o.parsed;
        allowed = o.allowed;
        same = o.same;
      })
      | inl k ↦ elim (consider-cases cur r latest) [
        | inl same ↦ inl (sym same ∙ k)
        | inr (v, p, o, same) ↦
            let eq : some (released v r) ≡ some rel = sym same ∙ k in
            inr (record {
              index = 0;
              row = r;
              version = v;
              at = refl;
              parsed = p;
              allowed = o;
              same = cc;
            })
      ]
    ]

module _ (current : String) (cur : Version) (list : List Listed) (latest : Option Release)
    (current_parsed : parse_version current ≡ some cur)
    (checked : check current (ok list) ≡ ok latest) where
  found : newest cur list none ≡ latest
  unfolding check
  found =
      let e : ok (newest cur list none) ≡ ok latest = rw (current_parsed, check) at checked in cc

  -- A check whose current version parses offers a release of the list that has a version, is no
  -- draft, is a beta only if the current version is one, and is newer than the current version.
  pub check-Offered : (rel : Release) → latest ≡ some rel → Offered cur list rel
  check-Offered rel e = elim (newest-Offered cur list none rel (found ∙ e)) [
    | inl kept ↦ absurd cc
    | inr o ↦ o
  ]

  -- A check whose current version parses offers a release wherever the list has one that may be
  -- offered, and none of those is newer than it.
  pub check-covers :
      (i : ℕ) (r : Listed) (v : Version)
      → get_elem? list i ≡ some r
      → parse_version r.tag ≡ some v
      → offers cur v r ≡ true
      → covers latest v ≡ true
  check-covers i r v at p o =
      subst (λ l. covers l v ≡ true) found (newest-covers cur v list i r none at p o)
