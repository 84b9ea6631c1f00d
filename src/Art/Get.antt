-- ===== src/Art/Get.antt =====
-- `get_internal` gives the value of the key in the tree, or nothing where the tree has no such key.
use unodb.Base.{
  ℕ, suc, get_or, drop, ltb, ltb→lt, ◌+◌, ◌<◌, ◌≡◌, ◌↔◌, refl, sym, ◌∙◌, Bool-cases, true, false,
  inl, inr, Option, none, some, some_inj, Bool, List, arith,
}
use mathlib.Core.Path.{ap, subst}
use unodb.Node.KeyPrefix
use unodb.Node.KeyPrefix.{byte_at, get_u64, get_shared_length}
use unodb.Node.Spec.{IsFound}
use unodb.Node.Inode.{Inode, get_key_prefix, Maps, IsValid, IsAt, find_child, get_child}
use unodb.Node.Inode.Reads.{find_child-IsFound, find_child-IsAt, Maps_unique}
use unodb.Art.{Tree, leaf, inode, Slot, Db, matches, get_from, get_internal}
use unodb.Art.Entries.{IsKey, Has, IsTree, IsNode, IsDb, Stores}
use unodb.Art.Entries.Keys.{matches_iff, drop-drop, Follows-shared}
use unodb.Node.KeyPrefix.Make.{get_or-drop}

-- What the search for the child of a byte tells.
pub data Search (x : Inode) (b : ℕ) (o : Option (ℕ × ℕ)) : Type 0 where
  missing : o ≡ none → ((c : ℕ) → ¬ Maps x b c) → Search x b o
  child : (i c : ℕ) → o ≡ some (i, c) → IsAt x i b → Maps x b c → Search x b o

found_cases :
    (x : Inode) (b : ℕ) (o : Option (ℕ × ℕ))
    → IsFound (Maps x) (get_child x) b o
    → ((i c : ℕ) → o ≡ some (i, c) → IsAt x i b)
    → Search x b o
found_cases x b none f at = missing refl f
found_cases x b (some (i, c)) (m, g) at = child i c refl (at i c refl) m

pub search_lem : (x : Inode) (b : ℕ) → IsValid x → b < 256 → Search x b (find_child x b)
search_lem x b v h =
    found_cases x b (find_child x b) (find_child-IsFound x b v h)
      (λ i c e. find_child-IsAt x b i c v e)

-- The step of every descent: the key leaves the prefix, has no child, or goes on below one.
pub data Step (d : ℕ) (x : Inode) (k : List ℕ) : Type 0 where
  leaves :
      ltb
          (get_shared_length (get_key_prefix x) (get_u64 (drop d k)))
          (KeyPrefix.length (get_key_prefix x))
        ≡ true
      → Step d x k
  goes :
      ltb
          (get_shared_length (get_key_prefix x) (get_u64 (drop d k)))
          (KeyPrefix.length (get_key_prefix x))
        ≡ false
      → get_or (drop (KeyPrefix.length (get_key_prefix x)) (drop d k)) 0 0
        ≡ get_or k (d + KeyPrefix.length (get_key_prefix x)) 0
      → drop 1 (drop (KeyPrefix.length (get_key_prefix x)) (drop d k))
        ≡ drop (suc (d + KeyPrefix.length (get_key_prefix x))) k
      → Search x
          (get_or k (d + KeyPrefix.length (get_key_prefix x)) 0)
          (find_child x (get_or k (d + KeyPrefix.length (get_key_prefix x)) 0))
      → Step d x k

pub step : (d : ℕ) (x : Inode) (k : List ℕ) → IsNode d x → IsKey k → Step d x k
step d x k n key =
    let l = KeyPrefix.length (get_key_prefix x) in
    elim (Bool-cases (ltb (get_shared_length (get_key_prefix x) (get_u64 (drop d k))) l)) [
      | inl e ↦ leaves e
      | inr e ↦
          let same : d + l + 0 ≡ d + l = omega arith in
          let next : d + l + 1 ≡ suc (d + l) = omega arith in
          goes e
            (ap (λ r. get_or r 0 0) (drop-drop d l k)
              ∙ get_or-drop (d + l) k 0
              ∙ ap (λ i. get_or k i 0) same)
            (ap (drop 1) (drop-drop d l k) ∙ drop-drop (d + l) 1 k ∙ ap (λ i. drop i k) next)
            (search_lem x (get_or k (d + l) 0) n.valid (key.1 (d + l)))
    ]

-- The value that a search gives, or nothing.
abbrev IsGot : Tree → List ℕ → Option (List ℕ) → Type 0
IsGot t k none = (v : List ℕ) → ¬ Has t k v
IsGot t k (some v) = Has t k v

get_leaf :
    (key value k r : List ℕ) (b : Bool)
    → matches key k ≡ b
    → get_from (leaf key value) k r ≡ elim b [ true ↦ some value | false ↦ none ]
unfolding get_from
get_leaf key value k r b e = rw (get_from, e) refl

module _ (x : Inode) (sub : ℕ → Tree) (d : ℕ) (k : List ℕ) where
  abbrev len : ℕ
  len = KeyPrefix.length (get_key_prefix x)

  get_leaves :
      ltb (get_shared_length (get_key_prefix x) (get_u64 (drop d k))) len ≡ true
      → get_from (inode x sub) k (drop d k) ≡ none
  unfolding get_from
  get_leaves e = rw (get_from, e) refl

  module _ (e : ltb (get_shared_length (get_key_prefix x) (get_u64 (drop d k))) len ≡ false)
      (at : get_or (drop len (drop d k)) 0 0 ≡ get_or k (d + len) 0) where
    get_missing :
        find_child x (get_or k (d + len) 0) ≡ none → get_from (inode x sub) k (drop d k) ≡ none
    unfolding get_from
    get_missing f = rw (get_from, e, at, f) refl

    get_goes :
        (i c : ℕ)
        → find_child x (get_or k (d + len) 0) ≡ some (i, c)
        → drop 1 (drop len (drop d k)) ≡ drop (suc (d + len)) k
        → get_from (inode x sub) k (drop d k) ≡ get_from (sub c) k (drop (suc (d + len)) k)
    unfolding get_from
    get_goes i c f next = rw (get_from, e, at, f, next) refl

IsGot-below :
    (x : Inode) (sub : ℕ → Tree) (d c : ℕ) (k : List ℕ) (o : Option (List ℕ))
    → IsTree d (inode x sub)
    → Maps x (get_or k (d + KeyPrefix.length (get_key_prefix x)) 0) c
    → IsGot (sub c) k o
    → IsGot (inode x sub) k o
IsGot-below x sub d c k none (n, below, _) m fails = λ v (b, c', m', h).
    let (_, _, follows) = below b c' m' in
    let same = Maps_unique x b c' c n.valid m' (subst (λ b'. Maps x b' c) (follows k v h).1 m) in
    fails v (subst (λ p. Has (sub p) k v) same h)
IsGot-below x sub d c k (some v) (n, below, _) m h = (_, c, m, h)

get_from-IsGot :
    (t : Tree) (d : ℕ) (k : List ℕ) → IsTree d t → IsKey k → IsGot t k (get_from t k (drop d k))
get_from-IsGot (leaf key value) d k w ik = elim (Bool-cases (matches key k)) [
  | inl e ↦
      subst (IsGot (leaf key value) k) (sym (get_leaf key value k (drop d k) true e))
        ((matches_iff key k).0 e, refl)
  | inr e ↦
      subst (IsGot (leaf key value) k) (sym (get_leaf key value k (drop d k) false e))
        (λ v (same, _). let f = (matches_iff key k).1 same in cc)
]
get_from-IsGot (inode x sub) d k (n, below, owner) ik = elim (step d x k n ik) [
  | leaves e ↦ subst (IsGot (inode x sub) k) (sym (get_leaves x sub d k e)) (λ v (b, c, m, h).
      let (_, _, follows) = below b c m in
      Follows-shared (get_key_prefix x) d k n.prefix ik b (follows k v h) (ltb→lt _ _ e))
  | goes e at next (missing none_there fails) ↦
      subst (IsGot (inode x sub) k) (sym (get_missing x sub d k e at none_there)) (λ v (b, c, m, h).
        let (_, _, follows) = below b c m in
        fails c (subst (λ b'. Maps x b' c) (sym (follows k v h).1) m))
  | goes e at next (child i c got on m) ↦
      let (under, _, _) = below _ c m in
      subst (IsGot (inode x sub) k) (sym (get_goes x sub d k e at i c got next))
        (IsGot-below x sub d c k _ (n, below, owner) m (get_from-IsGot (sub c) _ k under ik))
]

Has-unique : (t : Tree) (d : ℕ) (k v w : List ℕ) → IsTree d t → Has t k v → Has t k w → v ≡ w
Has-unique (leaf key value) d k v w t (_, e) (_, f) = e ∙ sym f
Has-unique (inode x sub) d k v w (n, below, _) (b, c, m, h) (b', c', m', h') =
    let (under, _, follows) = below b c m in
    let (_, _, follows') = below b' c' m' in
    let same : b ≡ b' = sym (follows k v h).1 ∙ (follows' k w h').1 in
    let child : c' ≡ c = Maps_unique x b' c' c n.valid m' (subst (λ a. Maps x a c) same m) in
    Has-unique (sub c) _ k v w under h (subst (λ p. Has (sub p) k w) child h')

got_iff :
    (t : Tree) (d : ℕ) (k : List ℕ) (o : Option (List ℕ))
    → IsTree d t
    → IsGot t k o
    → (v : List ℕ) → (o ≡ some v) ↔ Has t k v
got_iff t d k none w fails v = ((λ e. cc), λ h. absurd (fails v h))
got_iff t d k (some u) w h v =
    (λ e. subst (Has t k) (some_inj e) h, λ h'. ap some (Has-unique t d k u v w h h'))

pub get_from_iff :
    (t : Tree) (d : ℕ) (k v : List ℕ)
    → IsTree d t
    → IsKey k
    → (get_from t k (drop d k) ≡ some v) ↔ Has t k v
get_from_iff t d k v w ik = got_iff t d k _ w (get_from-IsGot t d k w ik) v

root_iff :
    (o : Option Slot) (k v : List ℕ)
    → IsDb (record { root = o })
    → IsKey k
    → (get_internal (record { root = o }) k ≡ some v) ↔ Stores (record { root = o }) k v
unfolding get_internal
root_iff none k v w ik = ((λ e. cc), λ (s, e, h). cc)
root_iff (some s) k v w ik =
    let (to, from) = get_from_iff s.tree 0 k v (w s refl).0 ik in
    (λ e. (s, refl, to e), λ (s', e, h). from (subst (λ z. Has z.tree k v) (sym (some_inj e)) h))

-- In a well-formed database, the result of get_internal for a key is a value exactly if the tree
-- stores this value for the key.
pub get_internal_iff :
    (db : Db) (k v : List ℕ) → IsDb db → IsKey k → (get_internal db k ≡ some v) ↔ Stores db k v
get_internal_iff db k v w ik = root_iff db.root k v w ik
