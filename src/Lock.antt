-- ===== src/Lock.antt =====
-- The spin lock of src/lock.rs, as the steps of several CPUs that share one `Mutex`.
-- A step is one access of the shared word or of the CPU's own DAIF; the steps of the CPUs
-- interleave in any order. `data` stands for what the mutex protects.
pub mod Exclusion
use mini_visor.Base.{ℕ, ◌≡◌, Bool, true, false, bit_or, ◌==◌, if◌then◌else◌}

-- Where a CPU is: outside of the lock, in the loop before the load that sees the lock free, behind
-- it, with its interrupts off before the exchange, holding the guard, and in `drop` behind the
-- store. `daif` is the saved value.
pub data Phase : Type 0 where
  outside : Phase
  waiting : Phase
  seen_free : Phase
  masked : (daif : ℕ) → Phase
  inside : (daif : ℕ) → Phase
  dropping : (daif : ℕ) → Phase

pub record Mutex (D : Type 0) : Type 0 where
  pub lock : Bool
  pub data_cell : D
  pub phase : ℕ → Phase
  pub daif : ℕ → ℕ

abbrev pub put : {A : Type 0} → (ℕ → A) → ℕ → A → ℕ → A
put f c v c' = if c' == c then v else f c'

-- `asm::get_daif_and_disable_irq_fiq` sets the bits 7 and 6.
abbrev pub disabled : ℕ → ℕ
disabled daif = bit_or daif 0xc0

module _ {D : Type 0} where
  -- A step of CPU `c`.
  pub data Step (c : ℕ) : Mutex D → Mutex D → Type 0 where
    call :
        (m : Mutex D) → m.phase c ≡ outside → Step c m (record m { phase = put m.phase c waiting })
    spin : (m : Mutex D) → m.phase c ≡ waiting → m.lock ≡ true → Step c m m
    load :
        (m : Mutex D)
        → m.phase c ≡ waiting
        → m.lock ≡ false
        → Step c m (record m { phase = put m.phase c seen_free })
    mask :
        (m : Mutex D)
        → m.phase c ≡ seen_free
        → Step c m (record m {
          phase = put m.phase c (masked (m.daif c));
          daif = put m.daif c (disabled (m.daif c));
        })
    acquire :
        (m : Mutex D)
        → (d : ℕ) → m.phase c ≡ masked d
        → m.lock ≡ false
        → Step c m (record m { lock = true; phase = put m.phase c (inside d) })
    retry :
        (m : Mutex D)
        → (d : ℕ) → m.phase c ≡ masked d
        → m.lock ≡ true
        → Step c m (record m { phase = put m.phase c waiting; daif = put m.daif c d })
    update :
        (m : Mutex D)
        → (d : ℕ) → m.phase c ≡ inside d
        → (value : D) → Step c m (record m { data_cell = value })
    store :
        (m : Mutex D)
        → (d : ℕ) → m.phase c ≡ inside d
        → Step c m (record m { lock = false; phase = put m.phase c (dropping d) })
    restore :
        (m : Mutex D)
        → (d : ℕ) → m.phase c ≡ dropping d
        → Step c m (record m { phase = put m.phase c outside; daif = put m.daif c d })

  -- `Mutex::new`, on CPUs whose DAIF are `before`.
  abbrev pub new : D → (ℕ → ℕ) → Mutex D
  new value before = record { lock = false; data_cell = value; phase = λ c. outside; daif = before }

  pub data Reachable (value : D) (before : ℕ → ℕ) : Mutex D → Type 0 where
    start : Reachable value before (new value before)
    next :
        (c : ℕ)
        → (m m' : Mutex D) → Reachable value before m
        → Step c m m'
        → Reachable value before m'
