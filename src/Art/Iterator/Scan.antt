-- ===== src/Art/Iterator/Scan.antt =====
-- A scan visits the stored entries in order.
use unodb.Base.{
  ℕ, zero, suc, ◌<◌, ◌^◌, ◌≡◌, ◌≢◌, ◌⊎◌, refl, List, [], ◌∷◌, Option, some, Bool, Bool-cases, inl,
  inr, true, false, arith,
}
use mathlib.Core.Path.{ap}
use unodb.Art.{Db}
use unodb.Art.Entries.{IsKey, IsDb, Stores, key_size}
use unodb.Art.Entries.Inhabited.{Has-IsKey}
use unodb.Art.Iterator.{
  Iterator, advance, visit, current, unbounded, scan, first, last, end_iterator,
}
use unodb.Art.Iterator.Direction.{Direction, forward, backward}
use unodb.Art.Iterator.Laws.{IsOn, IsEnd, from_root-IsEnd, advance-IsNeighbour, current-IsOn}
use unodb.Art.Iterator.Rank.{Rank, up, down}

pub Stores-IsKey : (db : Db) (k v : List ℕ) → IsDb db → Stores db k v → IsKey k
Stores-IsKey db k v valid (s, is, has) = Has-IsKey s.tree 0 k v (valid s is).0 has

module _ (D : Direction) (db : Db) (within : List ℕ → Bool) (fn : List ℕ × List ℕ → Bool) where
  -- The visited entries, of the stored ones whose keys are in `Start` and within the bound, in
  -- order: the first of them, and, where `fn` does not halt there, the visited ones of those ahead.
  abbrev pub IsVisited : (List ℕ → Type 0) → List (List ℕ × List ℕ) → Type 0
  IsVisited Start [] = (k v : List ℕ) → Stores db k v → Start k → ¬ (within k ≡ true)
  IsVisited Start (e ∷ es) =
      Stores db e.0 e.1
      × Start e.0
      × (within e.0 ≡ true)
      × ((k v : List ℕ) → Stores db k v → Start k → e.0 ≢ k → D.Key e.0 k)
      × (((fn e ≡ true) × (es ≡ [])) ⊎ ((fn e ≡ false) × IsVisited (D.Key e.0) es))

  abbrev pub step : Iterator → Option Iterator
  step it = advance D.first D.step it.stack it.keybuf

  visit_end :
      (fuel : ℕ) (it : Iterator) → it.stack ≡ [] → visit step within fn (suc fuel) it ≡ some []
  unfolding visit current
  visit_end fuel it e = rw (visit, current, e) refl

  visit_beyond :
      (fuel : ℕ) (it : Iterator) (k v : List ℕ)
      → current it ≡ some (k, v)
      → within k ≡ false
      → visit step within fn (suc fuel) it ≡ some []
  unfolding visit
  visit_beyond fuel it k v e out = rw (visit, e, out) refl

  visit_halt :
      (fuel : ℕ) (it : Iterator) (k v : List ℕ)
      → current it ≡ some (k, v)
      → within k ≡ true
      → fn (k, v) ≡ true
      → visit step within fn (suc fuel) it ≡ some ((k, v) ∷ [])
  unfolding visit
  visit_halt fuel it k v e in_bound f = rw (visit, e, in_bound, f) refl

  visit_go :
      (fuel : ℕ) (it it' : Iterator) (k v : List ℕ) (es : List (List ℕ × List ℕ))
      → current it ≡ some (k, v)
      → within k ≡ true
      → fn (k, v) ≡ false
      → step it ≡ some it'
      → visit step within fn fuel it' ≡ some es
      → visit step within fn (suc fuel) it ≡ some ((k, v) ∷ es)
  unfolding visit
  visit_go fuel it it' k v es e in_bound f g h = rw (visit, e, in_bound, f, g, h) refl

  module _ (R : Rank D) (valid : IsDb db)
      (stays : (a b : List ℕ) → D.Key a b → within a ≡ false → within b ≡ false) where
    -- Beyond the bound there is nothing more to visit.
    nothing_within :
        (k : List ℕ) (Start : List ℕ → Type 0)
        → within k ≡ false
        → ((k' v' : List ℕ) → Stores db k' v' → Start k' → k ≢ k' → D.Key k k')
        → IsVisited Start []
    nothing_within k Start out least k' v' has in_start inside =
        let apart : k ≢ k' = λ same. let e = ap within same in cc in
        let out' = stays k k' (least k' v' has in_start apart) out in cc

    pub visit-IsVisited :
        (fuel : ℕ) (it : Iterator) (k v : List ℕ) (Start : List ℕ → Type 0)
        → IsOn db it k v
        → Stores db k v
        → Start k
        → ((k' v' : List ℕ) → Stores db k' v' → Start k' → k ≢ k' → D.Key k k')
        → R.rank k < fuel
        → (es : List (List ℕ × List ℕ)) × (visit step within fn (suc fuel) it ≡ some es)
          × IsVisited Start es
    visit-IsVisited zero it k v Start on has in_start least small = absurd (omega arith)
    visit-IsVisited (suc fuel) it k v Start on has in_start least small =
        let e = current-IsOn db it k v on in
        elim (Bool-cases (within k)) [
          | inr out ↦ ([], visit_beyond (suc fuel) it k v e out, nothing_within k Start out least)
          | inl in_bound ↦ elim (Bool-cases (fn (k, v))) [
            | inl halts ↦ (
              (k, v) ∷ [],
              visit_halt (suc fuel) it k v e in_bound halts,
              (has, in_start, in_bound, least, inl (halts, refl)),
            )
            | inr goes_on ↦ elim (advance-IsNeighbour D db it k v valid on) [
              | inl (it', g, empty, nothing) ↦ (
                (k, v) ∷ [],
                visit_go (suc fuel) it it' k v [] e in_bound goes_on g (visit_end fuel it' empty),
                (
                  has,
                  in_start,
                  in_bound,
                  least,
                  inr (goes_on, λ k' v' h ahead inside. nothing k' v' h ahead),
                ),
              )
              | inr (it', k1, v1, g, on1, has1, less, least1) ↦
                  let lower =
                    R.falls (Stores-IsKey db k v valid has) (Stores-IsKey db k1 v1 valid has1)
                      less in
                  let (es, run, visited) =
                    visit-IsVisited fuel it' k1 v1 (D.Key k) on1 has1 less least1 (omega arith) in
                  (
                    (k, v) ∷ es,
                    visit_go (suc fuel) it it' k v es e in_bound goes_on g run,
                    (has, in_start, in_bound, least, inr (goes_on, visited)),
                  )
            ]
          ]
        ]

    pub visit_all :
        (fuel : ℕ) (o : Option Iterator)
        → IsEnd D db o
        → 256 ^ key_size < fuel
        → (es : List (List ℕ × List ℕ)) × ((it : Iterator) × (o ≡ some it)
            × (visit step within fn (suc fuel) it ≡ some es))
          × IsVisited (λ k. k ≡ k) es
    visit_all fuel o (inl (e, nothing)) enough = (
      [],
      (end_iterator, e, visit_end fuel end_iterator refl),
      λ k v has start inside. nothing k v has,
    )
    visit_all fuel o (inr (it, k, v, e, on, has, least)) enough =
        let bound = R.most (Stores-IsKey db k v valid has) in
        let (es, run, visited) =
          visit-IsVisited fuel it k v (λ k'. k' ≡ k') on has refl (λ k' v' h q ne. least k' v' h ne)
            (omega arith) in
        (es, (it, e, run), visited)

abbrev pub direction : Bool → Direction
direction true = forward
direction false = backward

-- On a well-formed database, with fuel for more steps than there are keys, scan ends, and it has
-- visited the stored entries from the least key up, or from the greatest key down for a reverse
-- scan, in order and without leaving one out, up to the first one at which the function halts it.
pub scan-IsVisited :
    (db : Db) (fn : List ℕ × List ℕ → Bool) (fwd : Bool) (fuel : ℕ)
    → IsDb db
    → 256 ^ key_size < fuel
    → (es : List (List ℕ × List ℕ)) × (scan fn fwd (suc fuel) db ≡ some es)
      × IsVisited (direction fwd) db unbounded fn (λ k. k ≡ k) es
unfolding scan
scan-IsVisited db fn true fuel valid enough =
    let (es, (it, e, run), visited) =
      visit_all forward db unbounded fn up valid (λ a b ahead out. out) fuel (first db)
        (from_root-IsEnd forward db valid) enough in
    (es, rw (e) run, visited)
scan-IsVisited db fn false fuel valid enough =
    let (es, (it, e, run), visited) =
      visit_all backward db unbounded fn down valid (λ a b ahead out. out) fuel (last db)
        (from_root-IsEnd backward db valid) enough in
    (es, rw (e) run, visited)
