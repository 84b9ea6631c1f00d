-- ===== src/Lock/Invariant/Acts.antt =====
-- The effect of each action.
use unodb.Base.{
  ℕ, ◌+◌, ◌*◌, ◌%◌, ◌^◌, ◌≤◌, ◌<◌, ◌≡◌, refl, sym, ◌∙◌, ap, ◌≢◌, ◌↔◌, List, [], ◌∷◌, some, arith,
  Bool-cases, inl, inr, some_inj, ◌==◌, ==_iff, if◌then◌else◌,
}
use mathlib.Core.Path.{subst}
use unodb.Lock.{
  OptimisticLock, try_read_lock, check, try_read_unlock, try_upgrade_to_write_lock,
  rehydrate_read_lock, write_unlock, write_unlock_and_obsolete, dec_read_lock_count, is_free,
  is_obsolete, set_locked_bit,
}
use unodb.Lock.System.{
  Pc, idle, reading, kept, writing, Shared, Act, open_section, load, check_section, close_section,
  rehydrate, forget, after_read_lock, upgrade, store, unlock, unlock_and_obsolete, act,
}
use unodb.Lock.Word.{Phase, free, locked, obsolete, word_of}
use unodb.Lock.Invariant.Defs.{Holds, opens, Effect}

-- A change that leaves the word and the data alone leaves every section fresh, and so does one
-- after which the word is no section's version.
Holds-same :
    (m m' : Shared)
    → m.releases ≤ m'.releases
    → m'.lock.version ≡ m.lock.version
    → m'.content ≡ m.content
    → (q : Pc) → Holds m q
    → Holds m' q
Holds-same m m' r e c (reading v seen) h = (h.0, omega arith, λ w. rw c (h.2 (sym e ∙ w)))
Holds-same m m' r e c (kept v seen) h = (h.0, omega arith, λ w. rw c (h.2 (sym e ∙ w)))
Holds-same m m' r e c q h = tt

Holds-moved :
    (m m' : Shared)
    → m.releases ≤ m'.releases
    → ((v : ℕ) → v % 4 ≡ 0 → v ≤ 4 * m.releases → m'.lock.version ≢ v)
    → (q : Pc) → Holds m q
    → Holds m' q
Holds-moved m m' r w (reading v seen) h = (h.0, omega arith, λ e. absurd (w v h.0 h.1 e))
Holds-moved m m' r w (kept v seen) h = (h.0, omega arith, λ e. absurd (w v h.0 h.1 e))
Holds-moved m m' r w q h = tt

module _ (i : ℕ) (old : Phase) (m : Shared) (word : m.lock.version ≡ word_of old m.releases) where
  -- What thread `i` brings to its action.
  pub record Ready (p : Pc) : Type 0 where
    pub mine : (p ≡ writing) ↔ (old ≡ locked i)
    pub holds : Holds m p
    pub counted : opens p ≤ m.lock.read_lock_count

  -- An action that leaves the word and the data alone, of a thread without the guard.
  same_word :
      (l : OptimisticLock) (p p' : Pc)
      → l.version ≡ m.lock.version
      → l.read_lock_count + opens p ≡ m.lock.read_lock_count + opens p'
      → ((p' ≡ writing) ↔ (old ≡ locked i))
      → Holds m p'
      → Effect i old m p (record m { lock = l }, p')
  same_word l p p' e c w h = record {
    phase = old;
    word = omega arith;
    grows = omega arith;
    counts = c;
    own_phase = w;
    other_phase = λ j ne. (λ q. q, λ q. q);
    own = Holds-same m (record m { lock = l }) (omega arith) e refl p' h;
    others = Holds-same m (record m { lock = l }) (omega arith) e refl;
  }

  not_writing :
      (p p' : Pc) → p ≢ writing → p' ≢ writing → Ready p → (p' ≡ writing) ↔ (old ≡ locked i)
  not_writing p p' n n' r = (λ e. absurd (n' e), λ e. absurd (n (r.mine.1 e)))

  -- A word that could be a section's version is that of a free lock.
  phase_free : m.lock.version % 4 ≡ 0 → old ≡ free
  phase_free e = of_phase old word
    where
      of_phase : (ph : Phase) → m.lock.version ≡ word_of ph m.releases → ph ≡ free
      of_phase free w = refl
      of_phase (locked o) w = absurd (omega arith)
      of_phase obsolete w = absurd (omega arith)

  Effect-open : Ready idle → Effect i old m idle (after_read_lock m (try_read_lock m.lock))
  unfolding after_read_lock try_read_lock
  Effect-open r = elim (Bool-cases (is_free m.lock.version)) [
    | inl yes_free ↦
        let zero_mod : m.lock.version % 4 ≡ 0 = unfold is_free in (==_iff _ 0).0 yes_free in
        let word' : m.lock.version ≡ 4 * m.releases = rw (phase_free zero_mod) at word in
        rw yes_free (
          same_word _ idle (reading m.lock.version []) refl (omega arith)
            (not_writing idle (reading m.lock.version []) (λ e. cc) (λ e. cc) r)
            (zero_mod, omega arith, λ _. tt))
    | inr busy ↦ elim (Bool-cases (is_obsolete m.lock.version)) [
      | inl dead ↦ rw (busy, dead) nothing
      | inr held ↦ rw (busy, held) nothing
    ]
  ]
    where
      nothing : Effect i old m idle (m, idle)
      nothing = same_word m.lock idle idle refl refl r.mine tt

  Effect-upgrade :
      (v : ℕ) (seen : List ℕ)
      → Ready (reading v seen)
      → m.releases < 2 ^ 62
      → let (l, result) = try_upgrade_to_write_lock m.lock v in
        Effect i old m (reading v seen) (record m { lock = l }, (if result then writing else idle))
  unfolding try_upgrade_to_write_lock
  Effect-upgrade v seen r few = elim (Bool-cases (v == m.lock.version)) [
    | inl same ↦ rw same (
        let now = (==_iff v m.lock.version).0 same in
        let free_now = phase_free (omega (arith, r.holds.0)) in
        let word' : m.lock.version ≡ 4 * m.releases = rw free_now at word in
        let taken : set_locked_bit v ≡ 4 * m.releases + 2 = unfold set_locked_bit in omega arith in
        record {
          phase = locked i;
          word = taken;
          grows = omega arith;
          counts = omega (arith, r.counted);
          own_phase = (λ _. refl, λ _. refl);
          other_phase = λ j ne. (λ e. cc free_now, λ e. absurd (ne (grind arith)));
          own = tt;
          others =
              Holds-moved m
                (record m {
                  lock = record (dec_read_lock_count m.lock) { version = set_locked_bit v };
                })
                (omega arith) (λ w h k. omega arith);
        })
    | inr other ↦ rw other (
        same_word _ (reading v seen) idle refl (omega (arith, r.counted))
          (not_writing (reading v seen) idle (λ e. cc) (λ e. cc) r) tt)
  ]

  Effect-check :
      (v : ℕ) (seen : List ℕ)
      → Ready (reading v seen)
      → let (l, result) = check m.lock v in
        Effect i old m
          (reading v seen)
          (record m { lock = l }, (if result then reading v seen else idle))
  unfolding check
  Effect-check v seen r = elim (Bool-cases (v == m.lock.version)) [
    | inl same ↦
        rw same (same_word m.lock (reading v seen) (reading v seen) refl refl r.mine r.holds)
    | inr other ↦ rw other (
        same_word (dec_read_lock_count m.lock) (reading v seen) idle refl (omega (arith, r.counted))
          (not_writing (reading v seen) idle (λ e. cc) (λ e. cc) r) tt)
  ]

  Effect-close :
      (v : ℕ) (seen : List ℕ)
      → Ready (reading v seen)
      → let (l, result) = try_read_unlock m.lock v in
        Effect i old m
          (reading v seen)
          (record m { lock = l }, (if result then kept v seen else idle))
  unfolding try_read_unlock
  Effect-close v seen r = elim (Bool-cases (v == m.lock.version)) [
    | inl same ↦ rw same (
        same_word (dec_read_lock_count m.lock) (reading v seen) (kept v seen) refl
          (omega (arith, r.counted))
          (not_writing (reading v seen) (kept v seen) (λ e. cc) (λ e. cc) r) r.holds)
    | inr other ↦ rw other (
        same_word (dec_read_lock_count m.lock) (reading v seen) idle refl (omega (arith, r.counted))
          (not_writing (reading v seen) idle (λ e. cc) (λ e. cc) r) tt)
  ]

  Effect-load :
      (v : ℕ) (seen : List ℕ)
      → Ready (reading v seen)
      → Effect i old m (reading v seen) (m, reading v (m.content ∷ seen))
  Effect-load v seen r =
      same_word m.lock (reading v seen) (reading v (m.content ∷ seen)) refl refl
        (not_writing (reading v seen) (reading v (m.content ∷ seen)) (λ e. cc) (λ e. cc) r)
        (r.holds.0, r.holds.1, λ e. (refl, r.holds.2 e))

  -- The owner of the guard gives it up, and the word becomes one of no section.
  Effect-release :
      (l : OptimisticLock) (phase : Phase) (releases : ℕ)
      → Ready writing
      → l.version ≡ word_of phase releases
      → m.releases ≤ releases
      → l.read_lock_count ≡ m.lock.read_lock_count
      → ((j : ℕ) → phase ≢ locked j)
      → ((v : ℕ) → v % 4 ≡ 0 → v ≤ 4 * m.releases → l.version ≢ v)
      → Effect i old m writing (record m { lock = l; releases = releases }, idle)
  Effect-release l phase releases r w grows c open_now moved = record {
    phase = phase;
    word = w;
    grows = grows;
    counts = omega (arith, c);
    own_phase = (λ e. cc, λ e. absurd (open_now i e));
    other_phase = λ j ne. (λ e. absurd (ne (grind (arith, r.mine.0))), λ e. absurd (open_now j e));
    own = tt;
    others = Holds-moved m (record m { lock = l; releases = releases }) grows moved;
  }

  locked_word : Ready writing → m.lock.version ≡ 4 * m.releases + 2
  locked_word r = rw (r.mine.0 refl) at word

  Effect-unlock :
      Ready writing
      → m.releases + 1 < 2 ^ 62
      → Effect i old m writing
          (record m { lock = write_unlock m.lock; releases = m.releases + 1 }, idle)
  unfolding write_unlock
  Effect-unlock r few =
      let held = locked_word r in
      Effect-release _ free (m.releases + 1) r (omega arith) (omega arith) refl (λ j e. cc)
        (λ v h k. omega arith)

  Effect-obsolete :
      Ready writing
      → Effect i old m writing (record m { lock = write_unlock_and_obsolete m.lock i }, idle)
  unfolding write_unlock_and_obsolete
  Effect-obsolete r =
      Effect-release _ obsolete m.releases r refl (omega arith) refl (λ j e. cc)
        (λ v h k. omega arith)

  Effect-store :
      (x : ℕ) → Ready writing → Effect i old m writing (record m { content = x }, writing)
  Effect-store x r =
      let held = locked_word r in
      record {
        phase = old;
        word = word;
        grows = omega arith;
        counts = refl;
        own_phase = r.mine;
        other_phase = λ j ne. (λ q. q, λ q. q);
        own = tt;
        others = Holds-moved m (record m { content = x }) (omega arith) (λ v h k. omega arith);
      }

  -- The effect of every action that a thread can take.
  pub act-Effect :
      (a : Act) (p : Pc) {r : Shared × Pc}
      → Ready p
      → r.0.releases < 2 ^ 62
      → act i a m p ≡ some r
      → Effect i old m p r
  unfolding act rehydrate_read_lock
  act-Effect open_section idle q few e = subst (Effect i old m idle) (some_inj e) (Effect-open q)
  act-Effect load (reading v seen) q few e =
      subst (Effect i old m (reading v seen)) (some_inj e) (Effect-load v seen q)
  act-Effect check_section (reading v seen) q few e =
      subst (Effect i old m (reading v seen)) (some_inj e) (Effect-check v seen q)
  act-Effect close_section (reading v seen) q few e =
      subst (Effect i old m (reading v seen)) (some_inj e) (Effect-close v seen q)
  act-Effect rehydrate (kept v seen) q few e = subst (Effect i old m (kept v seen)) (some_inj e) (
      same_word (rehydrate_read_lock m.lock v) (kept v seen) (reading v seen) refl (omega arith)
        (not_writing (kept v seen) (reading v seen) (λ c. cc) (λ c. cc) q) q.holds)
  act-Effect forget (kept v seen) q few e = subst (Effect i old m (kept v seen)) (some_inj e) (
      same_word m.lock (kept v seen) idle refl refl
        (not_writing (kept v seen) idle (λ c. cc) (λ c. cc) q) tt)
  act-Effect upgrade (reading v seen) q few e =
      subst (Effect i old m (reading v seen)) (some_inj e) (
        Effect-upgrade v seen q
          (omega (arith, ap (λ (t : Shared × Pc). t.0.releases) (some_inj e))))
  act-Effect (store x) writing q few e =
      subst (Effect i old m writing) (some_inj e) (Effect-store x q)
  act-Effect unlock writing q few e =
      subst (Effect i old m writing) (some_inj e)
        (Effect-unlock q (omega (arith, ap (λ (t : Shared × Pc). t.0.releases) (some_inj e))))
  act-Effect unlock_and_obsolete writing q few e =
      subst (Effect i old m writing) (some_inj e) (Effect-obsolete q)
  act-Effect a p q few e = cc
