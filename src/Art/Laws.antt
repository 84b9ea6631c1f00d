-- ===== src/Art/Laws.antt =====
-- The database as a map from keys to values: `get_internal` after `insert_internal` and after
-- `remove_internal`.
use unodb.Base.{
  ℕ, ◌≤◌, ◌≡◌, ◌≢◌, ◌↔◌, ◌⊎◌, refl, sym, List, length, inl, inr, true, false, Option, none, some,
}
use unodb.Art.{Slot, Db, get_internal, empty}
use unodb.Art.Entries.{IsKey, IsDb}
use unodb.Art.Entries.Inhabited.{inhabited, Has-IsKey}
use unodb.Art.Get.{get_internal_iff}
use unodb.Art.Insert.{Allocation, ok, max_size, insert_internal}
use unodb.Art.Insert.Spec.{IsAllocation, IsAddress}
use unodb.Art.Insert.Laws as Inserts
use unodb.Art.Insert.Laws.{HasInserted, insert_internal-Inserted}
use unodb.Art.Remove.{remove_internal}
use unodb.Art.Remove.Root as Removes
use unodb.Art.Remove.Root.{HasRemoved, remove_internal-Removed}

-- Results that give the same values are the same.
pub some_ext : (o p : Option (List ℕ)) → ((w : List ℕ) → (o ≡ some w) ↔ (p ≡ some w)) → o ≡ p
some_ext none none same = refl
some_ext none (some w) same = let (to, from) = same w in from refl
some_ext (some w) p same = let (to, from) = same w in sym (to refl)

pub none_iff : (o : Option (List ℕ)) → ((w : List ℕ) → o ≢ some w) → o ≡ none
none_iff none h = refl
none_iff (some w) h = absurd (h w refl)

-- The map is that of `db`, but for the key.
abbrev pub IsSameBeside : Db → List ℕ → Db → Type 0
IsSameBeside db k db' = (k' : List ℕ) → IsKey k' → k' ≢ k → get_internal db' k' ≡ get_internal db k'

module _ (new : Allocation) (db : Db) (k : List ℕ) (valid : IsDb db) (key : IsKey k) where
  -- Inserting a value of at most the maximum size into a well-formed database, with addresses that
  -- it does not use, leaves it as it is where it has the key, and answers that it did not insert.
  -- Otherwise the database stays well-formed, gives the value for the key, gives for every other
  -- key what it gave before, and the answer is that it did insert.
  pub get_internal-insert_internal :
      (v : List ℕ)
      → IsAllocation new
      → length v ≤ max_size
      → Inserts.IsUnusedIn new db
      → ((w : List ℕ) × (get_internal db k ≡ some w)
          × (insert_internal new db k v ≡ ok (db, false)))
        ⊎ ((get_internal db k ≡ none)
            × (db' : Db) × (insert_internal new db k v ≡ ok (db', true))
            × IsDb db'
            × (get_internal db' k ≡ some v)
            × IsSameBeside db k db')
  get_internal-insert_internal v allocation fits unused =
      elim (insert_internal-Inserted new k v allocation key fits db valid unused) [
        | inl (w, h, e) ↦ inl (w, (get_internal_iff db k w valid key).1 h, e)
        | inr (fresh, db', e, g) ↦ inr (
          none_iff (get_internal db k) (λ w q. fresh w ((get_internal_iff db k w valid key).0 q)),
          db',
          e,
          g.valid,
          (get_internal_iff db' k v g.valid key).1 ((g.entries k v).1 (inl (refl, refl))),
          λ k' key' ne. some_ext (get_internal db' k') (get_internal db k') (λ w.
              let (to, from) = get_internal_iff db' k' w g.valid key' in
              let (to', from') = get_internal_iff db k' w valid key' in
              (
                λ q. elim ((g.entries k' w).0 (to q)) [
                  | inl (same, _) ↦ absurd (ne same)
                  | inr old ↦ from' old
                ],
                λ q. from ((g.entries k' w).1 (inr (to' q))),
              )),
        )
      ]

  -- Removing a key from a well-formed database, with an address that it does not use, leaves it as
  -- it is where it does not have the key, and answers that it did not remove. Otherwise the
  -- database stays well-formed, gives nothing for the key, gives for every other key what it gave
  -- before, and the answer is that it did remove.
  pub get_internal-remove_internal :
      IsAddress new.inode_ptr
      → Removes.IsUnusedIn new db
      → ((get_internal db k ≡ none) × (remove_internal new db k ≡ ok (db, false)))
        ⊎ ((w : List ℕ) × (get_internal db k ≡ some w)
            × (db' : Db) × (remove_internal new db k ≡ ok (db', true))
            × IsDb db'
            × (get_internal db' k ≡ none)
            × IsSameBeside db k db')
  get_internal-remove_internal address unused =
      elim (remove_internal-Removed new k address key db valid unused) [
        | inl (nowhere, e) ↦ inl (
          none_iff (get_internal db k) (λ w q. nowhere w ((get_internal_iff db k w valid key).0 q)),
          e,
        )
        | inr (w, h, db', e, g) ↦ inr (
          w,
          (get_internal_iff db k w valid key).1 h,
          db',
          e,
          g.valid,
          none_iff (get_internal db' k) (λ w' q.
              let (ne, _) = (g.entries k w').0 ((get_internal_iff db' k w' g.valid key).0 q) in
              ne refl),
          λ k' key' ne. some_ext (get_internal db' k') (get_internal db k') (λ w'.
              let (to, from) = get_internal_iff db' k' w' g.valid key' in
              let (to', from') = get_internal_iff db k' w' valid key' in
              (
                λ q. from' ((g.entries k' w').0 (to q)).1,
                λ q. from ((g.entries k' w').1 (ne, to' q)),
              )),
        )
      ]

root_empty_iff :
    (o : Option Slot)
    → IsDb (record { root = o })
    → (empty (record { root = o }) ≡ true)
      ↔ ((k : List ℕ) → IsKey k → get_internal (record { root = o }) k ≡ none)
unfolding empty get_internal
root_empty_iff none valid = ((λ e k key. refl), λ h. refl)
root_empty_iff (some s) valid = (
  λ e. cc,
  λ h.
      let (tree, _, _, _) = valid s refl in
      let (k, v, has) = inhabited s.tree 0 tree in
      let key = Has-IsKey s.tree 0 k v tree has in
      let got = (get_internal_iff (record { root = some s }) k v valid key).1 (s, refl, has) in
      let nothing = h k key in cc,
)

-- A well-formed database is empty where it gives no value for any key.
pub empty_iff :
    (db : Db) → IsDb db → (empty db ≡ true) ↔ ((k : List ℕ) → IsKey k → get_internal db k ≡ none)
empty_iff db valid = root_empty_iff db.root valid
