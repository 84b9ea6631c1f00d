-- ===== src/Lock/Invariant/Kept.antt =====
-- Every step of the threads keeps the invariant.
use unodb.Base.{
  ℕ, zero, suc, ◌+◌, ◌^◌, ◌≤◌, ◌<◌, ◌≡◌, refl, ◌↔◌, some, some_inj, sym, ap, update-elim, arith,
  update,
}
use native.Mathlib.Decide.{dec_lt}
use unodb.Lock.{new, ReadAttempt, opened, must_restart, spin, try_read_lock}
use unodb.Lock.System.{
  Pc, idle, reading, kept, writing, open_section, load, check_section, close_section, rehydrate,
  forget, upgrade, store, unlock, unlock_and_obsolete, after_read_lock, Shared, Act, act, System,
  Step, take, init, Reach, start, later,
}
use unodb.Lock.Word.{free, locked}
use unodb.Lock.Invariant.Defs.{Holds, opens, total, Inv, Effect}
use unodb.Lock.Invariant.Acts.{Ready, act-Effect}

total-update_of_le :
    (n : ℕ) (pc : ℕ → Pc) (i : ℕ) (p : Pc) → n ≤ i → total n (update pc i p) ≡ total n pc
unfolding total
total-update_of_le zero pc i p h = refl
total-update_of_le (suc n) pc i p h = ground (arith, total-update_of_le n pc i p)

total-update :
    (n : ℕ) (pc : ℕ → Pc) (i : ℕ) (p : Pc)
    → i < n
    → total n (update pc i p) + opens (pc i) ≡ total n pc + opens p
unfolding total
total-update zero pc i p h = absurd (omega arith)
total-update (suc n) pc i p h = elim (dec_lt i n) [
  | yes below ↦ ground (arith, total-update n pc i p below)
  | no last ↦ ground (arith, total-update_of_le n pc i p)
]

pub opens-le-total : (n : ℕ) (pc : ℕ → Pc) (i : ℕ) → i < n → opens (pc i) ≤ total n pc
unfolding total
opens-le-total zero pc i h = absurd (omega arith)
opens-le-total (suc n) pc i h = elim (dec_lt i n) [
  | yes below ↦ omega (arith, opens-le-total n pc i below)
  | no last ↦ let e : i ≡ n = omega arith in rw e (omega arith)
]

module _ {n : ℕ} {s : System} (inv : Inv n s) (i : ℕ) (lt : i < n) where
  pub ready : Ready i inv.phase s.mem inv.word (s.pc i)
  ready = record {
    mine = inv.owner i;
    holds = inv.section i;
    counted = omega (arith, inv.counted, opens-le-total n s.pc i lt);
  }

  Effect-Inv :
      {m : Shared} {p : Pc}
      → Effect i inv.phase s.mem (s.pc i) (m, p)
      → Inv n (record { mem = m; pc = update s.pc i p })
  Effect-Inv {m} {p} f = record {
    phase = f.phase;
    word = f.word;
    owner =
        update-elim (λ j q. (q ≡ writing) ↔ (f.phase ≡ locked j)) s.pc i p f.own_phase
          (λ j ne.
            let (to, from) = inv.owner j in
            let (old_new, new_old) = f.other_phase j ne in
            (λ e. old_new (to e), λ e. from (new_old e)));
    section =
        update-elim (λ j q. Holds m q) s.pc i p f.own (λ j ne. f.others (s.pc j) (inv.section j));
    counted = omega (arith, inv.counted, f.counts, total-update n s.pc i p lt);
  }

total-idle : (n : ℕ) → total n (λ _. idle) ≡ 0
unfolding total
total-idle zero = refl
total-idle (suc n) = omega (arith, total-idle n)

Inv-init : (n x : ℕ) → Inv n (init x)
unfolding new
Inv-init n x = record {
  phase = free;
  word = omega arith;
  owner = λ j. (λ e. cc, λ e. cc);
  section = λ j. tt;
  counted = sym (total-idle n);
}

-- Every step keeps the invariant, as long as fewer than 2 ^ 62 write locks have been completed.
pub Step-Inv : {n : ℕ} {s t : System} → t.mem.releases < 2 ^ 62 → Step n s t → Inv n s → Inv n t
Step-Inv few (take i a lt e) inv =
    Effect-Inv inv i lt (act-Effect i inv.phase _ inv.word a _ (ready inv i lt) few e)

after_releases : (m : Shared) (t : ReadAttempt) → (after_read_lock m t).0.releases ≡ m.releases
unfolding after_read_lock
after_releases m (opened l v) = refl
after_releases m must_restart = refl
after_releases m spin = refl

act_releases :
    (i : ℕ) (a : Act) (m : Shared) (p : Pc) {r : Shared × Pc}
    → act i a m p ≡ some r
    → m.releases ≤ r.0.releases
unfolding act
act_releases i open_section m idle e = omega (
  arith,
  ap (λ (t : Shared × Pc). t.0.releases) (some_inj e),
  after_releases m (try_read_lock m.lock),
)
act_releases i load m (reading v seen) e =
    omega (arith, ap (λ (t : Shared × Pc). t.0.releases) (some_inj e))
act_releases i check_section m (reading v seen) e =
    omega (arith, ap (λ (t : Shared × Pc). t.0.releases) (some_inj e))
act_releases i close_section m (reading v seen) e =
    omega (arith, ap (λ (t : Shared × Pc). t.0.releases) (some_inj e))
act_releases i upgrade m (reading v seen) e =
    omega (arith, ap (λ (t : Shared × Pc). t.0.releases) (some_inj e))
act_releases i rehydrate m (kept v seen) e =
    omega (arith, ap (λ (t : Shared × Pc). t.0.releases) (some_inj e))
act_releases i forget m (kept v seen) e =
    omega (arith, ap (λ (t : Shared × Pc). t.0.releases) (some_inj e))
act_releases i (store x) m writing e =
    omega (arith, ap (λ (t : Shared × Pc). t.0.releases) (some_inj e))
act_releases i unlock m writing e =
    omega (arith, ap (λ (t : Shared × Pc). t.0.releases) (some_inj e))
act_releases i unlock_and_obsolete m writing e =
    omega (arith, ap (λ (t : Shared × Pc). t.0.releases) (some_inj e))
act_releases i a m p e = cc

pub releases_mono : {n : ℕ} {s t : System} → Step n s t → s.mem.releases ≤ t.mem.releases
releases_mono {n} {s} (take i a lt e) = act_releases i a s.mem (s.pc i) e

pub Reach-Inv : {n x : ℕ} {s : System} → s.mem.releases < 2 ^ 62 → Reach n x s → Inv n s
Reach-Inv {n} {x} few start = Inv-init n x
Reach-Inv few (later r st) = Step-Inv few st (Reach-Inv (omega (arith, releases_mono st)) r)
