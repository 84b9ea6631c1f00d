-- ===== src/Tests/Art.antt =====
-- Runs of the tree on small databases.
use unodb.Base.{
  ℕ, zero, suc, ◌*◌, ◌+◌, ◌≡◌, ◌^◌, ◌<◌, ◌≢◌, ◌∙◌, Option, refl, sym, List, [], ◌∷◌, none, some,
  Bool, true, false, inr, arith, get_or, replicate, length, length-replicate, ◌==◌, ◌↔◌, ◌⊎◌,
}
use mathlib.Core.Path.{ap, subst}
use unodb.Node.Pointer.{ptr, lowest_non_tag_bit, mask_bits_needed}
use unodb.Node.Inode.{Memory}
use unodb.Art.{Db, Slot, empty_db, get_internal}
use unodb.Art.Entries.{IsKey, IsDb, Held, HeldIn, Stores}
use unodb.Art.Entries.Keys.{matches_iff}
use unodb.Art.Get.{get_internal_iff}
use unodb.Art.Laws.{IsSameBeside, get_internal-insert_internal, get_internal-remove_internal}
use unodb.Art.Insert.Errors.{insert_internal-length_error}
use unodb.Art.Insert.{
  Allocation, Outcome, ok, length_error, out_of_range, max_size, insert_internal,
}
use unodb.Art.Insert.Spec.{IsAllocation}
use unodb.Art.Remove.{remove_internal}
use unodb.Art.Runs.{Call, insert, remove, run, map_run, IsProperRun, UsedAfter}
use unodb.Art.Delete.{clear}
use unodb.Art.Delete.Laws.{Frees}
use unodb.Art.Delete.Once.{IsOnce, clear-IsOnce}
use unodb.Art.Runs.Laws.{IsRun, run-IsRun}
use unodb.Art.{matches}
use unodb.Encode.Bytes.{compare_keys, memcmp}
use unodb.Art.Iterator.{
  Iterator, unbounded, seek, scan, scan_from, scan_range, first, last, next, prior,
}
use unodb.Art.Iterator.Direction.{forward, backward}
use unodb.Art.Iterator.Laws.{IsOn, IsNeighbour, IsEnd, next_prior_lem, first_last_lem}
use unodb.Art.Iterator.Scan.{IsVisited, direction, scan-IsVisited}
use unodb.Art.Iterator.Seek.{seek-IsOn}
use unodb.Art.Iterator.Ranges.{IsFrom, IsRange, scan_from-IsVisited, scan_range-IsRange}
use unodb.Art.Iterator.Canonical.{scan_canonical}

abbrev raw : Memory
raw = record {
  for4 = record { key_prefix = 7; children_count = 3; keys = λ i. 9; children = λ i. 8 };
  for16 = record { key_prefix = 7; children_count = 3; keys = λ i. 9; children = λ i. 8 };
  for48 = λ i. 8;
  for256 = record { key_prefix = 7; children_count = 3; children = λ i. 8 };
}

-- The addresses of the `n`-th call.
abbrev new_at : ℕ → Allocation
new_at n = record { leaf_ptr = 1024 * n; inode_ptr = 1024 * n + 512; raw = raw }

-- A key that ends in two bytes.
abbrev key_of : ℕ → ℕ → List ℕ
key_of a b = 0 ∷ 0 ∷ 0 ∷ 0 ∷ 0 ∷ 0 ∷ a ∷ b ∷ []

abbrev calls : List Call
calls =
    insert (new_at 1) (key_of 1 5) (50 ∷ [])
    ∷ insert (new_at 2) (key_of 1 9) (90 ∷ [])
    ∷ insert (new_at 3) (key_of 2 1) (10 ∷ [])
    ∷ insert (new_at 4) (key_of 1 5) (51 ∷ [])
    ∷ remove (new_at 5) (key_of 1 9)
    ∷ []

abbrev db_of : Outcome (Db × List Bool) → Db
db_of (ok r) = r.0
db_of length_error = empty_db
db_of out_of_range = empty_db

abbrev three : List Call
three =
    insert (new_at 1) (key_of 1 5) (50 ∷ [])
    ∷ insert (new_at 2) (key_of 1 9) (90 ∷ [])
    ∷ insert (new_at 3) (key_of 2 1) (10 ∷ [])
    ∷ []

abbrev three_entries : Db
three_entries = db_of (run three empty_db)

abbrev HasBytes : List ℕ → Type 0
HasBytes k = (i : ℕ) → get_or k i 0 < 256

cons-HasBytes : (b : ℕ) (k : List ℕ) → b < 256 → HasBytes k → HasBytes (b ∷ k)
cons-HasBytes b k small h zero = small
cons-HasBytes b k small h (suc i) = h i

nil-HasBytes : HasBytes []
nil-HasBytes i = omega arith

key_of-IsKey : (a b : ℕ) → a < 256 → b < 256 → IsKey (key_of a b)
key_of-IsKey a b ha hb =
    let zero_byte : 0 < 256 = omega arith in
    let h1 = cons-HasBytes b [] hb nil-HasBytes in
    let h2 = cons-HasBytes a (b ∷ []) ha h1 in
    let h3 = cons-HasBytes 0 (a ∷ b ∷ []) zero_byte h2 in
    let h4 = cons-HasBytes 0 (0 ∷ a ∷ b ∷ []) zero_byte h3 in
    let h5 = cons-HasBytes 0 (0 ∷ 0 ∷ a ∷ b ∷ []) zero_byte h4 in
    let h6 = cons-HasBytes 0 (0 ∷ 0 ∷ 0 ∷ a ∷ b ∷ []) zero_byte h5 in
    let h7 = cons-HasBytes 0 (0 ∷ 0 ∷ 0 ∷ 0 ∷ a ∷ b ∷ []) zero_byte h6 in
    (refl, cons-HasBytes 0 (0 ∷ 0 ∷ 0 ∷ 0 ∷ 0 ∷ a ∷ b ∷ []) zero_byte h7)

new_at-IsAllocation : (n : ℕ) → 0 < n → n < 1000 → IsAllocation (new_at n)
unfolding lowest_non_tag_bit mask_bits_needed
new_at-IsAllocation n pos small = record {
  leaf = record { present = omega arith; aligned = omega arith; small = omega arith };
  inode = record { present = omega arith; aligned = omega arith; small = omega arith };
}

k15 : IsKey (key_of 1 5)
k15 = key_of-IsKey 1 5 (omega arith) (omega arith)

k19 : IsKey (key_of 1 9)
k19 = key_of-IsKey 1 9 (omega arith) (omega arith)

k21 : IsKey (key_of 2 1)
k21 = key_of-IsKey 2 1 (omega arith) (omega arith)

allocated : (n : ℕ) → 0 < n → n < 1000 → IsAllocation (new_at n)
allocated n pos small = new_at-IsAllocation n pos small

three-IsProperRun : IsProperRun three (λ a. ⊥)
three-IsProperRun = (
  (allocated 1 (omega arith) (omega arith), k15, omega arith),
  (λ a u h. u),
  (
    (allocated 2 (omega arith) (omega arith), k19, omega arith),
    (λ a u h. omega (arith, u, h)),
    (
      (allocated 3 (omega arith) (omega arith), k21, omega arith),
      (λ a u h. omega (arith, u, h)),
      tt,
    ),
  ),
)

abbrev three_run : (db : Db) × IsRun three (λ a. ⊥) empty_db (λ k. none) db
three_run = run-IsRun three three-IsProperRun

three_same : three_entries ≡ three_run.0
three_same = ap db_of three_run.1.ended

three_entries-IsDb : IsDb three_entries
three_entries-IsDb = subst IsDb (sym three_same) three_run.1.valid

three_held : (p : ℕ) → HeldIn p three_entries → UsedAfter three (λ a. ⊥) (ptr p)
three_held p h = three_run.1.held p (subst (HeldIn p) three_same h)

calls-IsProperRun : IsProperRun calls (λ a. ⊥)
calls-IsProperRun = (
  (allocated 1 (omega arith) (omega arith), k15, omega arith),
  (λ a u h. u),
  (
    (allocated 2 (omega arith) (omega arith), k19, omega arith),
    (λ a u h. omega (arith, u, h)),
    (
      (allocated 3 (omega arith) (omega arith), k21, omega arith),
      (λ a u h. omega (arith, u, h)),
      (
        (allocated 4 (omega arith) (omega arith), k15, omega arith),
        (λ a u h. omega (arith, u, h)),
        ((allocated 5 (omega arith) (omega arith), k19), (λ a u h. omega (arith, u, h)), tt),
      ),
    ),
  ),
)

run-IsRun_example : (db : Db) × IsRun calls (λ a. ⊥) empty_db (λ k. none) db
run-IsRun_example = run-IsRun calls calls-IsProperRun

get_internal_iff_example :
    (get_internal three_entries (key_of 1 9) ≡ some (90 ∷ []))
    ↔ Stores three_entries (key_of 1 9) (90 ∷ [])
get_internal_iff_example =
    get_internal_iff three_entries (key_of 1 9) (90 ∷ []) three_entries-IsDb k19

three-free :
    (s : Slot)
    → three_entries.root ≡ some s
    → (p : ℕ) → Held p s.ptr s.tree
    → ¬ ((ptr p ≡ 4096) ⊎ (ptr p ≡ 4608))
three-free s is p h fresh = let used = three_held p (s, is, h) in omega (arith, used, fresh)

get_internal-insert_internal_example :
    ((w : List ℕ) × (get_internal three_entries (key_of 1 7) ≡ some w)
      × (insert_internal (new_at 4) three_entries (key_of 1 7) (70 ∷ [])
          ≡ ok (three_entries, false)))
    ⊎ ((get_internal three_entries (key_of 1 7) ≡ none)
        × (db' : Db) × (insert_internal (new_at 4) three_entries (key_of 1 7) (70 ∷ [])
            ≡ ok (db', true))
        × IsDb db'
        × (get_internal db' (key_of 1 7) ≡ some (70 ∷ []))
        × IsSameBeside three_entries (key_of 1 7) db')
get_internal-insert_internal_example =
    get_internal-insert_internal (new_at 4) three_entries (key_of 1 7) three_entries-IsDb
      (key_of-IsKey 1 7 (omega arith) (omega arith)) (70 ∷ [])
      (allocated 4 (omega arith) (omega arith)) (omega arith) three-free

get_internal-remove_internal_example :
    ((get_internal three_entries (key_of 2 1) ≡ none)
      × (remove_internal (new_at 4) three_entries (key_of 2 1) ≡ ok (three_entries, false)))
    ⊎ ((w : List ℕ) × (get_internal three_entries (key_of 2 1) ≡ some w)
        × (db' : Db) × (remove_internal (new_at 4) three_entries (key_of 2 1) ≡ ok (db', true))
        × IsDb db'
        × (get_internal db' (key_of 2 1) ≡ none)
        × IsSameBeside three_entries (key_of 2 1) db')
get_internal-remove_internal_example =
    get_internal-remove_internal (new_at 4) three_entries (key_of 2 1) three_entries-IsDb k21
      (allocated 4 (omega arith) (omega arith)).inode
      (λ s is p h fresh. three-free s is p h (inr fresh))

-- A value that is too long is refused, for a key that is there and for one that is not.
abbrev long_value : List ℕ
long_value = replicate (2 ^ 32) 7

length-longer : (m n b : ℕ) → m < n → m < length (replicate n b)
length-longer m n b h = let e = length-replicate n b in omega (arith, e)

size-lt : max_size < 2 ^ 32
size-lt = omega arith

insert_internal-length_error_example :
    insert_internal (new_at 4) three_entries (key_of 1 7) long_value
    ≡ elim (get_internal three_entries (key_of 1 7)) [
      | none ↦ length_error
      | some w ↦ ok (three_entries, false)
    ]
insert_internal-length_error_example =
    insert_internal-length_error (new_at 4) (key_of 1 7) long_value
      (length-longer max_size (2 ^ 32) 7 size-lt) three_entries

three_gets : get_internal three_entries (key_of 1 9) ≡ some (90 ∷ [])
unfolding map_run matches compare_keys memcmp
three_gets =
    subst (λ db. get_internal db (key_of 1 9) ≡ some (90 ∷ [])) (sym three_same)
      (three_run.1.stands (key_of 1 9) k19)

abbrev halt_at_90 : List ℕ × List ℕ → Bool
halt_at_90 e = get_or e.1 0 0 == 90

abbrev halt_at_10 : List ℕ × List ℕ → Bool
halt_at_10 e = get_or e.1 0 0 == 10

scan_from-IsVisited_example :
    (es : List (List ℕ × List ℕ)) × (scan_from
        (key_of 1 9)
        halt_at_90
        false
        (suc (256 ^ 8 + 1))
        three_entries
      ≡ some es)
    × IsVisited
        (direction false)
        three_entries
        unbounded
        halt_at_90
        (IsFrom (direction false) (key_of 1 9))
        es
scan_from-IsVisited_example =
    scan_from-IsVisited three_entries (key_of 1 9) (90 ∷ []) halt_at_90 false (256 ^ 8 + 1)
      three_entries-IsDb k19 three_gets (omega arith)

scan_range-IsRange_example :
    (es : List (List ℕ × List ℕ)) × (scan_range
        (key_of 1 9)
        (key_of 2 1)
        halt_at_10
        (suc (256 ^ 8 + 1))
        three_entries
      ≡ some es)
    × IsRange three_entries halt_at_10 (key_of 1 9) (key_of 2 1) es
scan_range-IsRange_example =
    scan_range-IsRange three_entries (key_of 1 9) (key_of 2 1) (90 ∷ []) halt_at_10 (256 ^ 8 + 1)
      three_entries-IsDb k19 three_gets (omega arith)

-- The same entries, put in by other calls.
abbrev swapped : List Call
swapped =
    insert (new_at 1) (key_of 2 1) (10 ∷ [])
    ∷ insert (new_at 2) (key_of 1 9) (90 ∷ [])
    ∷ insert (new_at 3) (key_of 1 5) (50 ∷ [])
    ∷ []

swapped-IsProperRun : IsProperRun swapped (λ a. ⊥)
swapped-IsProperRun = (
  (allocated 1 (omega arith) (omega arith), k21, omega arith),
  (λ a u h. u),
  (
    (allocated 2 (omega arith) (omega arith), k19, omega arith),
    (λ a u h. omega (arith, u, h)),
    (
      (allocated 3 (omega arith) (omega arith), k15, omega arith),
      (λ a u h. omega (arith, u, h)),
      tt,
    ),
  ),
)

abbrev swapped_run : (db : Db) × IsRun swapped (λ a. ⊥) empty_db (λ k. none) db
swapped_run = run-IsRun swapped swapped-IsProperRun

swapped_order :
    (a b c : Bool) (u v w : List ℕ)
    → ¬ ((a ≡ true) × (b ≡ true))
    → ¬ ((a ≡ true) × (c ≡ true))
    → ¬ ((b ≡ true) × (c ≡ true))
    → elim c as (λ t. Option (List ℕ)) [
      | true ↦ some w
      | false ↦ elim b [ true ↦ some v | false ↦ elim a [ true ↦ some u | false ↦ none ] ]
    ]
      ≡ elim a as (λ t. Option (List ℕ)) [
        | true ↦ some u
        | false ↦ elim b [ true ↦ some v | false ↦ elim c [ true ↦ some w | false ↦ none ] ]
      ]
swapped_order false b c u v w ab ac bc = ground (arith, bc)
swapped_order true b c u v w ab ac bc = ground (arith, ab, ac)

apart :
    (x y k : List ℕ) → get_or x 7 0 ≢ get_or y 7 0 → ¬ ((matches x k ≡ true) × (matches y k ≡ true))
apart x y k ne (h, h') =
    ne (ap (λ z. get_or z 7 0) (sym ((matches_iff x k).0 h) ∙ (matches_iff y k).0 h'))

swapped_maps : (k : List ℕ) → (map_run three (λ k'. none)).0 k ≡ (map_run swapped (λ k'. none)).0 k
unfolding map_run matches compare_keys memcmp
swapped_maps k =
    swapped_order (matches (key_of 1 5) k) (matches (key_of 1 9) k) (matches (key_of 2 1) k)
      (50 ∷ []) (90 ∷ []) (10 ∷ []) (apart (key_of 1 5) (key_of 1 9) k (omega arith))
      (apart (key_of 1 5) (key_of 2 1) k (omega arith))
      (apart (key_of 1 9) (key_of 2 1) k (omega arith))

scan_canonical_example :
    scan halt_at_10 true (suc (256 ^ 8 + 1)) three_run.0
    ≡ scan halt_at_10 true (suc (256 ^ 8 + 1)) swapped_run.0
scan_canonical_example =
    scan_canonical three_run.0 swapped_run.0 halt_at_10 true (256 ^ 8 + 1) three_run.1.valid
      swapped_run.1.valid
      (λ k key. three_run.1.stands k key ∙ swapped_maps k ∙ sym (swapped_run.1.stands k key))
      (omega arith)

seek-IsOn_example :
    (it : Iterator) × (seek true (key_of 1 9) three_entries ≡ some (it, true))
    × IsOn three_entries it (key_of 1 9) (90 ∷ [])
seek-IsOn_example =
    seek-IsOn three_entries true (key_of 1 9) (90 ∷ []) three_entries-IsDb k19 three_gets

abbrev sought :
    (it : Iterator) × (seek true (key_of 1 9) three_entries ≡ some (it, true))
    × IsOn three_entries it (key_of 1 9) (90 ∷ [])
sought = seek-IsOn three_entries true (key_of 1 9) (90 ∷ []) three_entries-IsDb k19 three_gets

next_prior_lem_example :
    IsNeighbour forward three_entries (key_of 1 9) (next sought.0)
    × IsNeighbour backward three_entries (key_of 1 9) (prior sought.0)
next_prior_lem_example =
    next_prior_lem three_entries sought.0 (key_of 1 9) (90 ∷ []) three_entries-IsDb sought.2

first_last_lem_example :
    IsEnd forward three_entries (first three_entries)
    × IsEnd backward three_entries (last three_entries)
first_last_lem_example = first_last_lem three_entries three_entries-IsDb

scan-IsVisited_example :
    (es : List (List ℕ × List ℕ)) × (scan halt_at_90 true (suc (256 ^ 8 + 1)) three_entries
      ≡ some es)
    × IsVisited (direction true) three_entries unbounded halt_at_90 (λ k. k ≡ k) es
scan-IsVisited_example =
    scan-IsVisited three_entries halt_at_90 true (256 ^ 8 + 1) three_entries-IsDb (omega arith)

clear-IsOnce_example :
    ((p : ℕ) → Frees (clear three_entries).0 p ↔ HeldIn p three_entries)
    × IsOnce (clear three_entries).0
    × ((p : ℕ) → ¬ HeldIn p (clear three_entries).1)
clear-IsOnce_example = clear-IsOnce three_entries three_entries-IsDb
