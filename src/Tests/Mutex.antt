-- ===== src/Tests/Mutex.antt =====
-- Two threads on a database behind a mutex.
use unodb.Base.{ℕ, ◌≡◌, ◌≢◌, refl, List, [], ◌∷◌, some}
use unodb.Art.{Db, empty_db}
use unodb.Art
use unodb.Art.Insert.{insert_internal, make_db_leaf_ptr}
use unodb.Node.Inode.{Memory}
use unodb.Encode.Bytes.{compare_keys, memcmp}
use unodb.Mutex.{
  Call, System, Reach, get, insert, idle, holding, lock, leave, body, enter, load, store, exit,
  start, later,
}
use unodb.Mutex.Defs.{IsHistory}
use unodb.Mutex.Laws.{Reach-IsHistory, holding-get_internal}

abbrev memory : Memory
memory = record {
  for4 = record { key_prefix = 7; children_count = 3; keys = λ i. 9; children = λ i. 8 };
  for16 = record { key_prefix = 7; children_count = 3; keys = λ i. 9; children = λ i. 8 };
  for48 = λ i. 8;
  for256 = record { key_prefix = 7; children_count = 3; children = λ i. 8 };
}

abbrev key : List ℕ
key = 0 ∷ 0 ∷ 0 ∷ 0 ∷ 0 ∷ 0 ∷ 0 ∷ 5 ∷ []

abbrev put : Call
put = insert (record { leaf_ptr = 1024; inode_ptr = 1536; raw = memory }) key (50 ∷ [])

-- The thread 7 inserts an entry, and then the thread 8 reads it and keeps the result.
abbrev reached : (s : System) × Reach empty_db s
unfolding lock leave
reached = (
  _,
  later 8
      (later 8
        (later 8
          (later 8
            (later 7
              (later 7 (later 7 (later 7 start (enter put refl)) (load put)) (store put empty_db))
              (exit put _))
            (enter (get key) refl))
          (load (get key)))
        (store (get key) _))
      (exit (get key) _),
)

Reach-IsHistory_example : IsHistory empty_db reached.0.log reached.0.mem.db
Reach-IsHistory_example = Reach-IsHistory empty_db reached.0 reached.1

reached_holding : reached.0.phase 8 ≡ holding key (50 ∷ [])
unfolding lock leave body insert_internal make_db_leaf_ptr Art.get_internal Art.get_from Art.matches
    compare_keys memcmp
reached_holding = refl

holding-get_internal_example :
    (Art.get_internal reached.0.mem.db key ≡ some (50 ∷ []))
    × ((j : ℕ) → 8 ≢ j → reached.0.phase j ≡ idle)
holding-get_internal_example =
    holding-get_internal empty_db reached.0 8 key (50 ∷ []) reached.1 reached_holding
