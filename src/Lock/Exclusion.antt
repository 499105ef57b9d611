-- ===== src/Lock/Exclusion.antt =====
-- What the spin lock of src/lock.rs guarantees in every state that the CPUs reach.
use mini_visor.Base.{
  ℕ, ◌≡◌, ◌≢◌, ◌⊎◌, ◌∙◌, refl, sym, ap, Bool, true, false, ◌==◌, arith, Bool-cases, inl, inr,
}
use mathlib.Core.Path.{subst}
use mini_visor.Lock.{
  Phase, outside, waiting, seen_free, masked, inside, dropping, Mutex, put, disabled, Step, call,
  spin, load, mask, acquire, retry, update, store, restore, Reachable, start, next,
}

-- The CPU holds the guard.
abbrev pub holds : Phase → Bool
holds (inside d) = true
holds outside = false
holds waiting = false
holds seen_free = false
holds (masked d) = false
holds (dropping d) = false

-- A CPU that does not hold its saved value has its own DAIF; one that does has interrupts off.
abbrev pub MaskIs : Phase → ℕ → ℕ → Type 0
MaskIs outside before daif = daif ≡ before
MaskIs waiting before daif = daif ≡ before
MaskIs seen_free before daif = daif ≡ before
MaskIs (masked d) before daif = (d ≡ before) × (daif ≡ disabled before)
MaskIs (inside d) before daif = (d ≡ before) × (daif ≡ disabled before)
MaskIs (dropping d) before daif = (d ≡ before) × (daif ≡ disabled before)

put_self : {A : Type 0} (f : ℕ → A) (c : ℕ) (v : A) → put f c v c ≡ v
put_self f c v = ground arith

put_other : {A : Type 0} (f : ℕ → A) (c : ℕ) (v : A) (c' : ℕ) → c' ≢ c → put f c v c' ≡ f c'
put_other f c v c' h = ground arith

put-holds :
    (f : ℕ → Phase) (c : ℕ) (v : Phase) (c' : ℕ)
    → holds v ≡ false
    → holds (put f c v c') ≡ true
    → (holds (f c') ≡ true) × (c' ≢ c)
put-holds f c v c' h e = elim (Bool-cases (c' == c)) [
  | inl same ↦ ground arith
  | inr other ↦ ground arith
]

now :
    {D : Type 0} (before : ℕ → ℕ) (m : Mutex D) (c : ℕ)
    → ((a : ℕ) → MaskIs (m.phase a) (before a) (m.daif a))
    → (v : Phase) → m.phase c ≡ v
    → MaskIs v (before c) (m.daif c)
now before m c h v p = subst (λ v. MaskIs v (before c) (m.daif c)) p (h c)

module _ {D : Type 0} where
  pub record IsExclusive (m : Mutex D) : Type 0 where
    pub alone : (c c' : ℕ) → holds (m.phase c) ≡ true → holds (m.phase c') ≡ true → c ≡ c'
    pub taken : (c : ℕ) → holds (m.phase c) ≡ true → m.lock ≡ true

  -- A CPU that moves to a phase without the guard, and does not free the lock of another.
  leave-IsExclusive :
      (m : Mutex D) (c : ℕ) (v : Phase) (l : Bool) (value : D) (daif : ℕ → ℕ)
      → IsExclusive m
      → holds v ≡ false
      → (l ≡ m.lock) ⊎ (holds (m.phase c) ≡ true)
      → IsExclusive (record { lock = l; data_cell = value; phase = put m.phase c v; daif = daif })
  leave-IsExclusive m c v l value daif ex h free = record {
    alone = λ a b p q. ex.alone a b (put-holds m.phase c v a h p).0 (put-holds m.phase c v b h q).0;
    taken = λ a p. elim free [
      | inl e ↦ e ∙ ex.taken a (put-holds m.phase c v a h p).0
      | inr held ↦
          absurd
            ((put-holds m.phase c v a h p).1 (ex.alone a c (put-holds m.phase c v a h p).0 held))
    ];
  }

  -- Nobody holds the guard of a free lock.
  free-holds : (m : Mutex D) (c : ℕ) → IsExclusive m → m.lock ≡ false → holds (m.phase c) ≡ true → ⊥
  free-holds m c ex l h = let e : true ≡ false = sym (ex.taken c h) ∙ l in cc

  acquire-alone :
      (m : Mutex D) (c d a : ℕ)
      → IsExclusive m
      → m.lock ≡ false
      → holds (put m.phase c (inside d) a) ≡ true
      → a ≡ c
  acquire-alone m c d a ex l h = elim (Bool-cases (a == c)) [
    | inl same ↦ ground arith
    | inr other ↦
        let ne : a ≢ c = ground arith in
        absurd (free-holds m a ex l (sym (ap holds (put_other m.phase c (inside d) a ne)) ∙ h))
  ]

  step-IsExclusive : (c : ℕ) (m m' : Mutex D) → IsExclusive m → Step c m m' → IsExclusive m'
  step-IsExclusive c m _ ex (call _ p) = leave-IsExclusive m c _ _ _ _ ex refl (inl refl)
  step-IsExclusive c m _ ex (spin _ p l) = ex
  step-IsExclusive c m _ ex (load _ p l) = leave-IsExclusive m c _ _ _ _ ex refl (inl refl)
  step-IsExclusive c m _ ex (mask _ p) = leave-IsExclusive m c _ _ _ _ ex refl (inl refl)
  step-IsExclusive c m _ ex (acquire _ d p l) = record {
    alone = λ a b h k. acquire-alone m c d a ex l h ∙ sym (acquire-alone m c d b ex l k);
    taken = λ a h. refl;
  }
  step-IsExclusive c m _ ex (retry _ d p l) = leave-IsExclusive m c _ _ _ _ ex refl (inl refl)
  step-IsExclusive c m _ ex (update _ d p value) = record { alone = ex.alone; taken = ex.taken }
  step-IsExclusive c m _ ex (store _ d p) = leave-IsExclusive m c _ _ _ _ ex refl (inr (ap holds p))
  step-IsExclusive c m _ ex (restore _ d p) = leave-IsExclusive m c _ _ _ _ ex refl (inl refl)

  reachable-IsExclusive :
      (value : D) (before : ℕ → ℕ) (m : Mutex D) → Reachable value before m → IsExclusive m
  reachable-IsExclusive value before _ start = record {
    alone = λ a b h k. absurd cc;
    taken = λ a h. absurd cc;
  }
  reachable-IsExclusive value before m (next c m₀ _ r s) =
      step-IsExclusive c m₀ m (reachable-IsExclusive value before m₀ r) s

  other-keeps :
      (c c' : ℕ) (m m' : Mutex D)
      → holds (m.phase c') ≡ false
      → c ≢ c'
      → Step c' m m'
      → (m'.data_cell ≡ m.data_cell) × (m'.phase c ≡ m.phase c)
  other-keeps c c' m _ h ne (call _ p) = (refl, put_other m.phase c' _ c ne)
  other-keeps c c' m _ h ne (spin _ p l) = (refl, refl)
  other-keeps c c' m _ h ne (load _ p l) = (refl, put_other m.phase c' _ c ne)
  other-keeps c c' m _ h ne (mask _ p) = (refl, put_other m.phase c' _ c ne)
  other-keeps c c' m _ h ne (acquire _ d p l) = (refl, put_other m.phase c' _ c ne)
  other-keeps c c' m _ h ne (retry _ d p l) = (refl, put_other m.phase c' _ c ne)
  other-keeps c c' m _ h ne (update _ d p value) =
      let e : true ≡ false = sym (ap holds p) ∙ h in absurd cc
  other-keeps c c' m _ h ne (store _ d p) = (refl, put_other m.phase c' _ c ne)
  other-keeps c c' m _ h ne (restore _ d p) = (refl, put_other m.phase c' _ c ne)

  -- In every state that the CPUs reach, a CPU that holds the guard is the only one, the lock is
  -- taken, and a step of another CPU changes neither the data nor the holder's phase.
  pub mutual_exclusion :
      (value : D) (before : ℕ → ℕ) (m m' : Mutex D) (c c' d : ℕ)
      → Reachable value before m
      → m.phase c ≡ inside d
      → c' ≢ c
      → Step c' m m'
      → (holds (m.phase c') ≡ false)
        × (m.lock ≡ true)
        × (m'.data_cell ≡ m.data_cell)
        × (m'.phase c ≡ inside d)
  mutual_exclusion value before m m' c c' d r p ne s = elim (Bool-cases (holds (m.phase c'))) [
    | inl both ↦ absurd (ne (ex.alone c' c both held))
    | inr out ↦
        let kept = other-keeps c c' m m' out (λ e. ne (sym e)) s in
        (out, ex.taken c held, kept.0, kept.1 ∙ p)
  ]
    where
      ex : IsExclusive m
      ex = reachable-IsExclusive value before m r

      held : holds (m.phase c) ≡ true
      held = ap holds p

module _ (before : ℕ → ℕ) where
  phase-MaskIs :
      (f : ℕ → Phase) (g : ℕ → ℕ) (c : ℕ) (v : Phase)
      → ((a : ℕ) → MaskIs (f a) (before a) (g a))
      → MaskIs v (before c) (g c)
      → (a : ℕ) → MaskIs (put f c v a) (before a) (g a)
  phase-MaskIs f g c v h now a = elim (Bool-cases (a == c)) [
    | inl same ↦
        let e : c ≡ a = ground arith in rw same (subst (λ (t : ℕ). MaskIs v (before t) (g t)) e now)
    | inr other ↦ rw other (h a)
  ]

  both-MaskIs :
      (f : ℕ → Phase) (g : ℕ → ℕ) (c : ℕ) (v : Phase) (x : ℕ)
      → ((a : ℕ) → MaskIs (f a) (before a) (g a))
      → MaskIs v (before c) x
      → (a : ℕ) → MaskIs (put f c v a) (before a) (put g c x a)
  both-MaskIs f g c v x h now a = elim (Bool-cases (a == c)) [
    | inl same ↦
        let e : c ≡ a = ground arith in rw same (subst (λ (t : ℕ). MaskIs v (before t) x) e now)
    | inr other ↦ rw other (h a)
  ]

  module _ {D : Type 0} where
    step-MaskIs :
        (c : ℕ) (m m' : Mutex D)
        → ((a : ℕ) → MaskIs (m.phase a) (before a) (m.daif a))
        → Step c m m'
        → (a : ℕ) → MaskIs (m'.phase a) (before a) (m'.daif a)
    step-MaskIs c m _ h (call _ p) =
        phase-MaskIs m.phase m.daif c waiting h (now before m c h outside p)
    step-MaskIs c m _ h (spin _ p l) = h
    step-MaskIs c m _ h (load _ p l) =
        phase-MaskIs m.phase m.daif c seen_free h (now before m c h waiting p)
    step-MaskIs c m _ h (mask _ p) =
        both-MaskIs m.phase m.daif c _ _ h
          (now before m c h seen_free p, ap disabled (now before m c h seen_free p))
    step-MaskIs c m _ h (acquire _ d p l) =
        phase-MaskIs m.phase m.daif c (inside d) h (now before m c h (masked d) p)
    step-MaskIs c m _ h (retry _ d p l) =
        both-MaskIs m.phase m.daif c waiting d h (now before m c h (masked d) p).0
    step-MaskIs c m _ h (update _ d p value) = h
    step-MaskIs c m _ h (store _ d p) =
        phase-MaskIs m.phase m.daif c (dropping d) h (now before m c h (inside d) p)
    step-MaskIs c m _ h (restore _ d p) =
        both-MaskIs m.phase m.daif c outside d h (now before m c h (dropping d) p).0

    -- In every state that the CPUs reach, a CPU that holds the guard runs with IRQ and FIQ masked,
    -- and one outside of the lock has the DAIF that it started with.
    pub reachable-MaskIs :
        (value : D) (m : Mutex D)
        → Reachable value before m
        → (c : ℕ) → MaskIs (m.phase c) (before c) (m.daif c)
    reachable-MaskIs value _ start c = refl
    reachable-MaskIs value m (next c₀ m₀ _ r s) c =
        step-MaskIs c₀ m₀ m (reachable-MaskIs value m₀ r) s c
