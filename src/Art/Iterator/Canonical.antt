-- ===== src/Art/Iterator/Canonical.antt =====
-- A scan depends on the entries of the database, not on the tree that holds them.
use unodb.Base.{
  ℕ, suc, ◌<◌, ◌^◌, ◌≡◌, ◌≢◌, ◌↔◌, refl, sym, ◌∙◌, List, [], ◌∷◌, some, some_inj, Bool, inl, inr,
}
use mathlib.Core.Path.{ap, subst}
use unodb.Art.{Db, get_internal}
use unodb.Art.Entries.{IsKey, IsDb, Stores, key_size}
use unodb.Art.Get.{get_internal_iff}
use unodb.Art.Iterator.{scan, unbounded}
use unodb.Art.Iterator.Direction.{Direction}
use unodb.Art.Iterator.Ranges.{less, same, greater, compared}
use unodb.Art.Iterator.Scan.{IsVisited, Stores-IsKey, direction, scan-IsVisited}

-- Each key has one value.
Stores-unique : (db : Db) (k v w : List ℕ) → IsDb db → Stores db k v → Stores db k w → v ≡ w
Stores-unique db k v w valid has has' =
    let key = Stores-IsKey db k v valid has in
    some_inj
      (sym ((get_internal_iff db k v valid key).1 has) ∙ (get_internal_iff db k w valid key).1 has')

module _ (D : Direction) (db db' : Db) (valid' : IsDb db')
    (alike : (k v : List ℕ) → Stores db k v ↔ Stores db' k v) (within : List ℕ → Bool)
    (fn : List ℕ × List ℕ → Bool) where
  -- Two entries of which each is the first one are the same.
  first_unique :
      (e e' : List ℕ × List ℕ)
      → Stores db e.0 e.1
      → Stores db' e'.0 e'.1
      → (e.0 ≢ e'.0 → D.Key e.0 e'.0)
      → (e'.0 ≢ e.0 → D.Key e'.0 e.0)
      → e ≡ e'
  first_unique (k, v) (k', v') has has' ahead ahead' =
      let clash : ¬ (k ≢ k') =
        λ ne. D.irrefl (D.trans (ahead ne) (ahead' (λ together. ne (sym together)))) in
      elim (compared k k') [
        | less c before not_after apart ↦ absurd (clash apart)
        | same c together ↦
            let has1 = subst (λ x. Stores db' x v) together ((alike k v).0 has) in
            let values = Stores-unique db' k' v v' valid' has1 has' in cc
        | greater c after not_before apart ↦ absurd (clash apart)
      ]

  IsVisited-unique :
      (Start : List ℕ → Type 0) (es es' : List (List ℕ × List ℕ))
      → IsVisited D db within fn Start es
      → IsVisited D db' within fn Start es'
      → es ≡ es'
  IsVisited-unique Start [] [] seen seen' = refl
  IsVisited-unique Start [] (e ∷ es') nothing (has, in_start, inside, _, _) =
      absurd (nothing e.0 e.1 ((alike e.0 e.1).1 has) in_start inside)
  IsVisited-unique Start (e ∷ es) [] (has, in_start, inside, _, _) nothing =
      absurd (nothing e.0 e.1 ((alike e.0 e.1).0 has) in_start inside)
  IsVisited-unique Start (e ∷ es) (e' ∷ es') (has, in_start, inside, least, rest)
        (has', in_start', inside', least', rest') =
      let entry =
        first_unique e e' has has' (least e'.0 e'.1 ((alike e'.0 e'.1).1 has') in_start')
          (least' e.0 e.1 ((alike e.0 e.1).0 has) in_start) in
      elim rest [
        | inl (halts, none_left) ↦ elim rest' [
          | inl (halts', none_left') ↦ cc
          | inr (goes_on', seen') ↦ let e = ap fn entry in cc
        ]
        | inr (goes_on, seen) ↦ elim rest' [
          | inl (halts', none_left') ↦ let e = ap fn entry in cc
          | inr (goes_on', seen') ↦
              let rest_unique =
                IsVisited-unique (D.Key e.0) es es' seen
                  (subst (λ x. IsVisited D db' within fn (D.Key x.0) es') (sym entry) seen') in
              cc
        ]
      ]

Stores-alike :
    (db db' : Db)
    → IsDb db
    → IsDb db'
    → ((k : List ℕ) → IsKey k → get_internal db k ≡ get_internal db' k)
    → (k v : List ℕ) → Stores db k v
    → Stores db' k v
Stores-alike db db' valid valid' alike k v has =
    let key = Stores-IsKey db k v valid has in
    (get_internal_iff db' k v valid' key).0
      (sym (alike k key) ∙ (get_internal_iff db k v valid key).1 has)

-- Two well-formed databases that answer every lookup alike give the same scan, in both directions
-- and for every function, with fuel for more steps than there are keys, whatever their trees are.
pub scan_canonical :
    (db db' : Db) (fn : List ℕ × List ℕ → Bool) (fwd : Bool) (fuel : ℕ)
    → IsDb db
    → IsDb db'
    → ((k : List ℕ) → IsKey k → get_internal db k ≡ get_internal db' k)
    → 256 ^ key_size < fuel
    → scan fn fwd (suc fuel) db ≡ scan fn fwd (suc fuel) db'
scan_canonical db db' fn fwd fuel valid valid' alike enough =
    let (es, run, seen) = scan-IsVisited db fn fwd fuel valid enough in
    let (es', run', seen') = scan-IsVisited db' fn fwd fuel valid' enough in
    let stored : (k v : List ℕ) → Stores db k v ↔ Stores db' k v = λ k v. (
      Stores-alike db db' valid valid' alike k v,
      Stores-alike db' db valid' valid (λ k' key. sym (alike k' key)) k v,
    ) in
    let visited =
      IsVisited-unique (direction fwd) db db' valid' stored unbounded fn (λ k. k ≡ k) es es' seen
        seen' in
    run ∙ ap some visited ∙ sym run'
