-- ===== src/Art/Iterator/Ranges.antt =====
-- `scan_from` and `scan_range` from a key that is there.
use Prim.Native.Nat.Ordering.{lt, eq, gt}
use unodb.Base.{
  ℕ, suc, ◌<◌, ◌^◌, ◌≡◌, ◌≢◌, ◌⊎◌, ◌↔◌, refl, sym, ◌∙◌, List, [], some, Ordering, Bool, Bool-cases,
  inl, inr, true, false, arith,
}
use mathlib.Core.Path.{ap, subst}
use unodb.Encode.Bytes.{compare_keys}
use unodb.Encode.Bytes.Order.{
  compare_keys-lex, lex_flip, lex, lex-eq, lex_refl, lex_trans, flip_order,
}
use unodb.Art.{Db, get_internal}
use unodb.Art.Entries.{IsKey, IsDb, key_size}
use unodb.Art.Get.{get_internal_iff}
use unodb.Art.Iterator.{Iterator, visit, unbounded, scan_from, scan_range, is_less, is_greater}
use unodb.Art.Iterator.Direction.{Direction, forward, backward, Before, lex_irrefl}
use unodb.Art.Iterator.Laws.{IsOn}
use unodb.Art.Iterator.Rank.{Rank, up, down}
use unodb.Art.Iterator.Scan.{IsVisited, direction, visit-IsVisited, step}
use unodb.Art.Iterator.Seek.{seek-IsOn}

-- The key or a key ahead of it.
abbrev pub IsFrom : Direction → List ℕ → List ℕ → Type 0
IsFrom D from_key k = (k ≡ from_key) ⊎ D.Key from_key k

is_lt_iff :
    (o : Ordering)
    → (elim o as (λ o'. Bool) [ lt ↦ true | eq ↦ false | gt ↦ false ] ≡ true) ↔ (o ≡ lt)
is_lt_iff lt = (λ e. refl, λ e. refl)
is_lt_iff eq = (λ e. cc, λ e. cc)
is_lt_iff gt = (λ e. cc, λ e. cc)

is_gt_iff :
    (o : Ordering)
    → (elim o as (λ o'. Bool) [ lt ↦ false | eq ↦ false | gt ↦ true ] ≡ true) ↔ (flip_order o ≡ lt)
is_gt_iff lt = (λ e. cc, λ e. cc)
is_gt_iff eq = (λ e. cc, λ e. cc)
is_gt_iff gt = (λ e. refl, λ e. refl)

is_less_iff : (to_key k : List ℕ) → (is_less to_key k ≡ true) ↔ Before k to_key
is_less_iff to_key k =
    let e = compare_keys-lex k to_key in
    let (there, back) = is_lt_iff (compare_keys k to_key) in
    (λ h. sym e ∙ there h, λ h. back (e ∙ h))

is_greater_iff : (to_key k : List ℕ) → (is_greater to_key k ≡ true) ↔ Before to_key k
is_greater_iff to_key k =
    let e = lex_flip k to_key ∙ ap flip_order (sym (compare_keys-lex k to_key)) in
    let (there, back) = is_gt_iff (compare_keys k to_key) in
    (λ h. e ∙ there h, λ h. back (sym e ∙ h))

is_less-stays :
    (to_key a b : List ℕ) → Before a b → is_less to_key a ≡ false → is_less to_key b ≡ false
is_less-stays to_key a b less out = elim (Bool-cases (is_less to_key b)) [
  | inr out' ↦ out'
  | inl inside ↦
      let e =
        (is_less_iff to_key a).1 (lex_trans a b to_key less ((is_less_iff to_key b).0 inside)) in
      cc
]

is_greater-stays :
    (to_key a b : List ℕ) → Before b a → is_greater to_key a ≡ false → is_greater to_key b ≡ false
is_greater-stays to_key a b less out = elim (Bool-cases (is_greater to_key b)) [
  | inr out' ↦ out'
  | inl inside ↦
      let e =
        (is_greater_iff to_key a).1
          (lex_trans to_key b a ((is_greater_iff to_key b).0 inside) less) in
      cc
]

module _ (D : Direction) (R : Rank D) (db : Db) (valid : IsDb db) (within : List ℕ → Bool)
    (stays : (a b : List ℕ) → D.Key a b → within a ≡ false → within b ≡ false)
    (fn : List ℕ × List ℕ → Bool) where
  -- From the entry of a key on, the entries from this key on are visited.
  visit-IsFrom :
      (fuel : ℕ) (it : Iterator) (k v : List ℕ)
      → IsKey k
      → get_internal db k ≡ some v
      → IsOn db it k v
      → 256 ^ key_size < fuel
      → (es : List (List ℕ × List ℕ)) × (visit (step D db within fn) within fn (suc fuel) it
          ≡ some es)
        × IsVisited D db within fn (IsFrom D k) es
  visit-IsFrom fuel it k v key got on enough =
      let bound = R.most key in
      let has = (get_internal_iff db k v valid key).0 got in
      visit-IsVisited D db within fn R valid stays fuel it k v (IsFrom D k) on has (inl refl)
        (λ k' v' h from ne. elim from [ inl same ↦ absurd (ne (sym same)) | inr ahead ↦ ahead ])
        (omega arith)

abbrev rank : (fwd : Bool) → Rank (direction fwd)
rank true = up
rank false = down

-- On a well-formed database, from a key that has a value and with fuel for more steps than there
-- are keys, scan_from ends, and it has visited the stored entries from this key up, or from it
-- down for a reverse scan, in order and without leaving one out, up to the first one at which the
-- function halts it.
pub scan_from-IsVisited :
    (db : Db) (from_key v : List ℕ) (fn : List ℕ × List ℕ → Bool) (fwd : Bool) (fuel : ℕ)
    → IsDb db
    → IsKey from_key
    → get_internal db from_key ≡ some v
    → 256 ^ key_size < fuel
    → (es : List (List ℕ × List ℕ)) × (scan_from from_key fn fwd (suc fuel) db ≡ some es)
      × IsVisited (direction fwd) db unbounded fn (IsFrom (direction fwd) from_key) es
unfolding scan_from
scan_from-IsVisited db from_key v fn true fuel valid key got enough =
    let (it, e, on) = seek-IsOn db true from_key v valid key got in
    let (es, run, visited) =
      visit-IsFrom forward up db valid unbounded (λ a b less out. out) fn fuel it from_key v key got
        on enough in
    (es, rw (e) run, visited)
scan_from-IsVisited db from_key v fn false fuel valid key got enough =
    let (it, e, on) = seek-IsOn db false from_key v valid key got in
    let (es, run, visited) =
      visit-IsFrom backward down db valid unbounded (λ a b less out. out) fn fuel it from_key v key
        got on enough in
    (es, rw (e) run, visited)

-- The entries that `scan_range` visits.
abbrev pub IsRange :
    Db → (List ℕ × List ℕ → Bool) → List ℕ → List ℕ → List (List ℕ × List ℕ) → Type 0
IsRange db fn from_key to_key es =
    (Before from_key to_key → IsVisited forward db (is_less to_key) fn (IsFrom forward from_key) es)
    × (Before to_key from_key
        → IsVisited backward db (is_greater to_key) fn (IsFrom backward from_key) es)
    × (from_key ≡ to_key → es ≡ [])

-- The three results of the comparison, with what they say of the keys.
pub data Compared (a b : List ℕ) : Type 0 where
  less : compare_keys a b ≡ lt → Before a b → ¬ Before b a → a ≢ b → Compared a b
  same : compare_keys a b ≡ eq → a ≡ b → Compared a b
  greater : compare_keys a b ≡ gt → Before b a → ¬ Before a b → a ≢ b → Compared a b

order-Compared : (a b : List ℕ) (o : Ordering) → lex a b ≡ o → Compared a b
order-Compared a b lt e =
    let f = lex_flip a b ∙ ap flip_order e in
    less (compare_keys-lex a b ∙ e) e (λ g. let h = sym f ∙ g in cc)
      (λ together. let h = sym e ∙ ap (λ x. lex x b) together ∙ lex_refl b in cc)
order-Compared a b eq e = same (compare_keys-lex a b ∙ e) (lex-eq a b e)
order-Compared a b gt e =
    let f = lex_flip a b ∙ ap flip_order e in
    greater (compare_keys-lex a b ∙ e) f (λ g. let h = sym e ∙ g in cc)
      (λ together. let h = sym e ∙ ap (λ x. lex x b) together ∙ lex_refl b in cc)

pub compared : (a b : List ℕ) → Compared a b
compared a b = order-Compared a b (lex a b) refl

-- On a well-formed database, from a key that has a value and with fuel for more steps than there
-- are keys, scan_range ends. Where the other bound is a greater key it has visited the stored
-- entries from the first key up to and without this bound, where it is a lesser key those from the
-- first key down to and without it, each in order, without leaving one out, and up to the first
-- one at which the function halts it; where the bounds are equal it has visited nothing.
pub scan_range-IsRange :
    (db : Db) (from_key to_key v : List ℕ) (fn : List ℕ × List ℕ → Bool) (fuel : ℕ)
    → IsDb db
    → IsKey from_key
    → get_internal db from_key ≡ some v
    → 256 ^ key_size < fuel
    → (es : List (List ℕ × List ℕ)) × (scan_range from_key to_key fn (suc fuel) db ≡ some es)
      × IsRange db fn from_key to_key es
unfolding scan_range
scan_range-IsRange db from_key to_key v fn fuel valid key got enough =
    elim (compared from_key to_key) [
      | less c before not_after apart ↦
          let (it, e, on) = seek-IsOn db true from_key v valid key got in
          let (es, run, visited) =
            visit-IsFrom forward up db valid (is_less to_key) (is_less-stays to_key) fn fuel it
              from_key v key got on enough in
          (
            es,
            rw (scan_range, c, e) run,
            (λ h. visited, λ h. absurd (not_after h), λ h. absurd (apart h)),
          )
      | same c together ↦ (
        [],
        rw (scan_range, c) refl,
        (
          λ h. absurd (lex_irrefl to_key (subst (λ k. Before k to_key) together h)),
          λ h. absurd (lex_irrefl to_key (subst (λ k. Before to_key k) together h)),
          λ h. refl,
        ),
      )
      | greater c after not_before apart ↦
          let (it, e, on) = seek-IsOn db false from_key v valid key got in
          let (es, run, visited) =
            visit-IsFrom backward down db valid (is_greater to_key) (is_greater-stays to_key) fn
              fuel it from_key v key got on enough in
          (
            es,
            rw (scan_range, c, e) run,
            (λ h. absurd (not_before h), λ h. visited, λ h. absurd (apart h)),
          )
    ]
