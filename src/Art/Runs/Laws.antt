-- ===== src/Art/Runs/Laws.antt =====
-- A sequence of calls does what it does to the map that the database stands for.
use unodb.Base.{
  ℕ, ◌≡◌, ◌≢◌, ◌↔◌, ◌⊎◌, refl, sym, ◌∙◌, List, [], ◌∷◌, Option, none, some, some_inj, Bool-cases,
  inl, inr,
}
use mathlib.Core.Path.{ap, subst}
use unodb.Node.Pointer.{ptr}
use unodb.Art.{Db, matches, empty_db, get_internal}
use unodb.Art.Entries.{IsKey, IsDb, HeldIn, Stores}
use unodb.Art.Entries.Keys.{matches_iff}
use unodb.Art.Get.{get_internal_iff}
use unodb.Art.Insert.{Allocation, ok}
use unodb.Art.Insert.Laws.{insert_internal-Inserted}
use unodb.Art.Remove.Root.{remove_internal-Removed}
use unodb.Art.Laws.{some_ext, none_iff}
use unodb.Art.Runs.{
  Call, insert, remove, call, run, Map, put, map_call, map_run, IsProper, Uses, IsProperRun,
  UsedAfter,
}

-- The database stands for the map.
abbrev pub StandsFor : Db → Map → Type 0
StandsFor db m = (k : List ℕ) → IsKey k → get_internal db k ≡ m k

put-same : (m : Map) (k : List ℕ) (o : Option (List ℕ)) → put m k o k ≡ o
put-same m k o = rw (put, (matches_iff k k).1 refl) refl

put-other : (m : Map) (k k' : List ℕ) (o : Option (List ℕ)) → k' ≢ k → put m k o k' ≡ m k'
put-other m k k' o ne = elim (Bool-cases (matches k k')) [
  | inl e ↦ absurd (ne ((matches_iff k k').0 e))
  | inr e ↦ rw (put, e) refl
]

-- A call that ends as the map's does.
pub record IsCall (c : Call) (db : Db) (m : Map) (db' : Db) : Type 0 where
  pub ended : call c db ≡ ok (db', (map_call c m).1)
  pub valid : IsDb db'
  pub stands : StandsFor db' (map_call c m).0
  pub held : (p : ℕ) → HeldIn p db' → HeldIn p db ⊎ Uses c (ptr p)

module _ (db : Db) (m : Map) (valid : IsDb db) (stands : StandsFor db m) where
  -- What is stored is what the map gives.
  stored_iff : (k v : List ℕ) → IsKey k → (m k ≡ some v) ↔ Stores db k v
  stored_iff k v key =
      let (to, from) = get_internal_iff db k v valid key in
      (λ e. to (stands k key ∙ e), λ h. sym (stands k key) ∙ from h)

  -- A database that stores what a map gives stands for this map.
  stands_new :
      (db' : Db) (m' : Map)
      → IsDb db'
      → ((k v : List ℕ) → IsKey k → (m' k ≡ some v) ↔ Stores db' k v)
      → StandsFor db' m'
  stands_new db' m' valid' same k key = some_ext (get_internal db' k) (m' k) (λ w.
      let (to, from) = get_internal_iff db' k w valid' key in
      let (to', from') = same k w key in (λ e. from' (to e), λ e. from (to' e)))

  insert-IsCall :
      (new : Allocation) (k v : List ℕ) (o : Option (List ℕ))
      → IsProper (insert new k v)
      → ((a : ℕ) → ((p : ℕ) × HeldIn p db × (ptr p ≡ a)) → ¬ Uses (insert new k v) a)
      → m k ≡ o
      → (db' : Db) × IsCall (insert new k v) db m db'
  insert-IsCall new k v o (allocation, key, fits) free e =
      elim (insert_internal-Inserted new k v allocation key fits db valid
        (λ s is p h fresh. free (ptr p) (p, (s, is, h), refl) fresh)) [
          | inl (w, has, ended) ↦
              let e' = (stored_iff k w key).1 has in
              (
                db,
                record {
                  ended = rw (map_call, e') ended;
                  valid = valid;
                  stands = rw (map_call, e') stands;
                  held = λ p h. inl h;
                },
              )
          | inr (fresh, db', ended, g) ↦
              let e' = none_iff (m k) (λ w q. fresh w ((stored_iff k w key).0 q)) in
              (
                db',
                record {
                  ended = rw (map_call, e') ended;
                  valid = g.valid;
                  stands =
                      rw (map_call, e')
                        (stands_new db' (put m k (some v)) g.valid (λ k' v' key'. (
                          λ q. elim (Bool-cases (matches k k')) [
                            | inl yes_same ↦
                                let here = (matches_iff k k').0 yes_same in
                                (g.entries k' v').1 (
                                  inl (
                                    here,
                                    sym (
                                        some_inj (
                                          sym (put-same m k (some v))
                                          ∙ ap (put m k (some v)) (sym here)
                                          ∙ q)),
                                  ))
                            | inr other ↦
                                let ne : k' ≢ k = λ z. let z' = (matches_iff k k').1 z in cc in
                                (g.entries k' v').1 (
                                  inr (
                                    (stored_iff k' v' key').0
                                      (sym (put-other m k k' (some v) ne) ∙ q)))
                          ],
                          λ h. elim ((g.entries k' v').0 h) [
                            | inl (a, b) ↦
                                ap (put m k (some v)) a ∙ put-same m k (some v) ∙ ap some (sym b)
                            | inr old ↦
                                let ne : k' ≢ k =
                                  λ z. fresh v' (subst (λ q. Stores db q v') z old) in
                                put-other m k k' (some v) ne ∙ (stored_iff k' v' key').1 old
                          ],
                        )));
                  held = λ p h. g.held p h;
                },
              )
        ]

  remove-IsCall :
      (new : Allocation) (k : List ℕ)
      → IsProper (remove new k)
      → ((a : ℕ) → ((p : ℕ) × HeldIn p db × (ptr p ≡ a)) → ¬ Uses (remove new k) a)
      → (db' : Db) × IsCall (remove new k) db m db'
  remove-IsCall new k (allocation, key) free =
      elim (remove_internal-Removed new k allocation.inode key db valid
        (λ s is p h fresh. free (ptr p) (p, (s, is, h), refl) (inr fresh))) [
          | inl (nowhere, ended) ↦
              let e' = none_iff (m k) (λ w q. nowhere w ((stored_iff k w key).0 q)) in
              (
                db,
                record {
                  ended = rw (map_call, e') ended;
                  valid = valid;
                  stands = rw (map_call, e') stands;
                  held = λ p h. inl h;
                },
              )
          | inr (w, has, db', ended, g) ↦
              let e' = (stored_iff k w key).1 has in
              (
                db',
                record {
                  ended = rw (map_call, e') ended;
                  valid = g.valid;
                  stands =
                      rw (map_call, e')
                        (stands_new db' (put m k none) g.valid (λ k' v' key'. (
                          λ q. elim (Bool-cases (matches k k')) [
                            | inl yes_same ↦
                                let here = (matches_iff k k').0 yes_same in
                                let q' =
                                  sym (put-same m k none) ∙ ap (put m k none) (sym here) ∙ q in
                                cc
                            | inr other ↦
                                let ne : k' ≢ k = λ z. let z' = (matches_iff k k').1 z in cc in
                                (g.entries k' v').1 (
                                  ne,
                                  (stored_iff k' v' key').0 (sym (put-other m k k' none ne) ∙ q),
                                )
                          ],
                          λ h.
                              let (ne, old) = (g.entries k' v').0 h in
                              put-other m k k' none ne ∙ (stored_iff k' v' key').1 old,
                        )));
                  held =
                      λ p h. elim (g.held p h) [ inl old ↦ inl old | inr fresh ↦ inr (inr fresh) ];
                },
              )
        ]

call-IsCall :
    (c : Call) (db : Db) (m : Map)
    → IsDb db
    → StandsFor db m
    → IsProper c
    → ((a : ℕ) → ((p : ℕ) × HeldIn p db × (ptr p ≡ a)) → ¬ Uses c a)
    → (db' : Db) × IsCall c db m db'
call-IsCall (insert new k v) db m valid stands proper free =
    insert-IsCall db m valid stands new k v (m k) proper free refl
call-IsCall (remove new k) db m valid stands proper free =
    remove-IsCall db m valid stands new k proper free

-- A run that ends as the map's does, and whose pointers lead to the addresses of its calls.
pub record IsRun (cs : List Call) (Used : ℕ → Type 0) (db : Db) (m : Map) (db' : Db) : Type 0 where
  pub ended : run cs db ≡ ok (db', (map_run cs m).1)
  pub valid : IsDb db'
  pub stands : StandsFor db' (map_run cs m).0
  pub held : (p : ℕ) → HeldIn p db' → UsedAfter cs Used (ptr p)

run-cons :
    (c : Call) (cs : List Call) (db db1 db2 : Db) (m : Map)
    → call c db ≡ ok (db1, (map_call c m).1)
    → run cs db1 ≡ ok (db2, (map_run cs (map_call c m).0).1)
    → run (c ∷ cs) db ≡ ok (db2, (map_run (c ∷ cs) m).1)
unfolding run map_run
run-cons c cs db db1 db2 m e f = rw (run, e, f) refl

stands-cons :
    (c : Call) (cs : List Call) (db : Db) (m : Map)
    → StandsFor db (map_run cs (map_call c m).0).0
    → StandsFor db (map_run (c ∷ cs) m).0
unfolding map_run
stands-cons c cs db m h = h

run_from :
    (cs : List Call) (Used : ℕ → Type 0) (db : Db) (m : Map)
    → IsDb db
    → StandsFor db m
    → IsProperRun cs Used
    → ((p : ℕ) → HeldIn p db → Used (ptr p))
    → (db' : Db) × IsRun cs Used db m db'
unfolding run map_run
run_from [] Used db m valid stands proper held =
    (db, record { ended = refl; valid = valid; stands = stands; held = held })
run_from (c ∷ cs) Used db m valid stands (proper, new, rest) held =
    let (db1, g) =
      call-IsCall c db m valid stands proper
        (λ a (p, h, e). subst (λ q. ¬ Uses c q) e (new (ptr p) (held p h))) in
    let (db2, g2) =
      run_from cs (λ a. Used a ⊎ Uses c a) db1 (map_call c m).0 g.valid g.stands rest
        (λ p h. elim (g.held p h) [ inl old ↦ inl (held p old) | inr fresh ↦ inr fresh ]) in
    (
      db2,
      record {
        ended = run-cons c cs db db1 db2 m g.ended g2.ended;
        valid = g2.valid;
        stands = stands-cons c cs db2 m g2.stands;
        held = g2.held;
      },
    )

empty_get : (k : List ℕ) → get_internal empty_db k ≡ none
unfolding get_internal
empty_get k = refl

-- A sequence of proper insertions and removals, each with addresses that no earlier call had, on
-- an empty database ends without an error, gives the answers that the calls give on an empty map,
-- and leaves a well-formed database in which every key has the value that the map has for it, and
-- whose pointers lead to the addresses of the calls.
pub run-IsRun :
    (cs : List Call)
    → IsProperRun cs (λ a. ⊥)
    → (db : Db) × IsRun cs (λ a. ⊥) empty_db (λ k. none) db
run-IsRun cs proper =
    run_from cs (λ a. ⊥) empty_db (λ k. none) (λ s e. cc) (λ k key. empty_get k) proper
      (λ p (s, e, h). cc)
