-- ===== src/Gic/Distributor/Status.antt =====
-- The invariant of the distributor of src/mmio/gicv3.rs, and what its accessors read after a
-- change of one interrupt's status.
use mini_visor.Base.{
  ℕ, ◌/◌, ◌%◌, ◌<◌, ◌≡◌, ◌∙◌, refl, Bool, true, false, not, List, length, set, get_or, ◌==◌,
  if◌then◌else◌, Outcome, done, arith, length-set, length-replicate,
}
use mini_visor.Gic.Bank.{changed_word}
use mini_visor.Gic.Bank.Bits.{bit_at, as_bit, register_bit_lem, change_bit_lem, bit_at-changed}
use mini_visor.Gic.Distributor.{
  GicDistributorMmio, new, get_enable, get_pending, change_pending_status,
}

-- The arrays have the lengths that the source declares.
pub record IsDistributor (d : GicDistributorMmio) : Type 0 where
  pub group : length d.group ≡ 32
  pub enable : length d.enable ≡ 32
  pub pending : length d.pending ≡ 32
  pub active : length d.active ≡ 32
  pub priority : length d.priority ≡ 255
  pub configuration : length d.configuration ≡ 64
  pub group_modifier : length d.group_modifier ≡ 32
  pub router : length d.router ≡ 1020

pub new-IsDistributor : IsDistributor new
unfolding new
new-IsDistributor = record {
  group = refl;
  enable = refl;
  pending = refl;
  active = refl;
  priority = refl;
  configuration = refl;
  group_modifier = refl;
  router = length-replicate {A = ℕ} 1020 0;
}

-- The status of an interrupt, as a test.
abbrev pub status : List ℕ → ℕ → Bool
status registers int_id = not (bit_at registers int_id == 0)

pub get_pending_lem :
    (j : ℕ) (d : GicDistributorMmio)
    → IsDistributor d
    → j < 1024
    → get_pending j d ≡ done (status d.pending j)
unfolding get_pending
get_pending_lem j d is h = rw (register_bit_lem d.pending j (omega (arith, is.pending)))

pub get_enable_lem :
    (j : ℕ) (d : GicDistributorMmio)
    → IsDistributor d
    → j < 1024
    → get_enable j d ≡ done (status d.enable j)
unfolding get_enable
get_enable_lem j d is h = rw (register_bit_lem d.enable j (omega (arith, is.enable)))

-- The distributor after `change_pending_status`.
abbrev pub with_pending : ℕ → Bool → GicDistributorMmio → GicDistributorMmio
with_pending i b d = record d {
  pending = set d.pending (i / 32) (changed_word (get_or d.pending (i / 32) 0) (i % 32) b);
}

pub change_pending_status_lem :
    (i : ℕ) (b : Bool) (d : GicDistributorMmio)
    → IsDistributor d
    → i < 1024
    → change_pending_status i b d ≡ done (with_pending i b d)
unfolding change_pending_status
change_pending_status_lem i b d is h = rw (change_bit_lem d.pending i (omega (arith, is.pending)) b)

pub with_pending-IsDistributor :
    (i : ℕ) (b : Bool) (d : GicDistributorMmio)
    → IsDistributor d
    → IsDistributor (with_pending i b d)
with_pending-IsDistributor i b d is = record {
  group = is.group;
  enable = is.enable;
  pending = length-set d.pending _ _ ∙ is.pending;
  active = is.active;
  priority = is.priority;
  configuration = is.configuration;
  group_modifier = is.group_modifier;
  router = is.router;
}

status-if :
    (t b : Bool) (n : ℕ)
    → ◌≡◌ {A = Outcome Bool}
        (done (not ((if t then as_bit b else n) == 0)))
        (if t then done b else done (not (n == 0)))
status-if true true n = refl
status-if true false n = refl
status-if false b n = refl

-- For the interrupts below 1024, `change_pending_status` succeeds and keeps the array lengths,
-- and `get_pending` then reads the new status at that interrupt and the old one at every other.
pub get_pending-change_pending_status :
    (i j : ℕ) (b : Bool) (d : GicDistributorMmio)
    → IsDistributor d
    → i < 1024
    → j < 1024
    → (d' : GicDistributorMmio) × (change_pending_status i b d ≡ done d')
      × IsDistributor d'
      × (get_pending j d' ≡ (if i == j then done b else get_pending j d))
get_pending-change_pending_status i j b d is p q = (
  with_pending i b d,
  change_pending_status_lem i b d is p,
  is',
  get_pending_lem j (with_pending i b d) is' q
      ∙ rw (bit_at-changed d.pending i j b (omega (arith, is.pending)), get_pending_lem j d is q)
          (status-if (i == j) b (bit_at d.pending j)),
)
  where
    is' : IsDistributor (with_pending i b d)
    is' = with_pending-IsDistributor i b d is
