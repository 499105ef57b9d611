-- ===== src/Gic/Distributor/Safety.antt =====
-- Every write of the guest to the distributor of src/mmio/gicv3.rs ends, and keeps the invariant.
use mini_visor.Base.{
  ℕ, zero, suc, ◌+◌, ◌-◌, ◌*◌, ◌/◌, ◌^◌, ◌<◌, ◌≡◌, ◌∙◌, inl, inr, refl, bit_and, Bool, true, none,
  Option, List, [], ◌∷◌, ◌++◌, length, ◌==◌, Bool-cases, Outcome, arith, length-set, Ends, ends,
  Ends-bind, Ends-if, Ends-assert, Ends-index, Ends-assign, ltb, leb, within, ◌&&◌, u32, ◌>>>◌,
}
use mini_visor.Base.Bits.Pow.{two_pow_suc}
use mini_visor.Cpu.{Cpu, IsCpu, set_icc_sgi1r_el1}
use mini_visor.Vgic.{set_ich_lrn_el2, add_from, supported_lrn, add_virtual_interrupt}
use mini_visor.Gic.Bank.{register_bit, change_bit, priority_byte, field}
use mini_visor.Gic.Distributor.{
  GicDistributorMmio, get_group, get_enable, get_pending, get_group_modifier, get_priority,
  get_router, change_pending_status, same_affinity, route, deliver, trigger_interrupt,
}
use mini_visor.Gic.Distributor.Status.{IsDistributor}
use mini_visor.Gic.Distributor.Mmio.{
  word_in, trigger_each, write_enable, write_pending, or_word, clear_word, write_priority, write,
}

abbrev pub IsGuestGic : GicDistributorMmio × Cpu → Type 0
IsGuestGic (d, c) = IsDistributor d × IsCpu c

Ends-set_ich_lrn_el2 : (i v : ℕ) (c : Cpu) → IsCpu c → Ends IsCpu (set_ich_lrn_el2 i v c)
unfolding set_ich_lrn_el2
Ends-set_ich_lrn_el2 i v c is = Ends-bind (Ends-assign c.ich_lr i v) λ lrs e. ends (e ∙ is)

Ends-add_from : (left i entry : ℕ) (c : Cpu) → IsCpu c → Ends IsCpu (add_from left i entry c)
unfolding add_from
Ends-add_from zero i entry c is = ends is
Ends-add_from (suc left) i entry c is =
    Ends-bind (Ends-index c.ich_lr i)
      λ lr _. search (Ends-if, Ends-set_ich_lrn_el2, Ends-add_from left (i + 1) entry c)

pub Ends-add_virtual_interrupt :
    (entry : ℕ) (c : Cpu) → IsCpu c → Ends IsCpu (add_virtual_interrupt entry c)
unfolding add_virtual_interrupt
Ends-add_virtual_interrupt entry c is = Ends-add_from (supported_lrn c) 0 entry c is

pub Ends-register_bit :
    (registers : List ℕ) (i : ℕ) → Ends (λ _. Unit {0}) (register_bit registers i)
unfolding register_bit
Ends-register_bit registers i = Ends-bind (Ends-index registers (i / 32)) λ r _. ends tt

pub Ends-change_pending_status :
    (i : ℕ) (b : Bool) (d : GicDistributorMmio)
    → IsDistributor d
    → Ends IsDistributor (change_pending_status i b d)
unfolding change_pending_status change_bit
Ends-change_pending_status i b d is =
    Ends-bind
      (Ends-bind {Q = λ rs. length rs ≡ 32} (Ends-index d.pending (i / 32))
        λ r _. ends (length-set d.pending _ _ ∙ is.pending))
      λ rs e. ends (record {
        group = is.group;
        enable = is.enable;
        pending = e;
        active = is.active;
        priority = is.priority;
        configuration = is.configuration;
        group_modifier = is.group_modifier;
        router = is.router;
      })

Ends-route :
    (router entry : ℕ) (d : GicDistributorMmio) (c : Cpu)
    → IsDistributor d
    → IsCpu c
    → Ends IsGuestGic (route router entry d c)
unfolding route set_icc_sgi1r_el1
Ends-route router entry d c is cpu =
    Ends-if (same_affinity router c.mpidr_el1)
      (Ends-bind (Ends-add_virtual_interrupt entry c cpu) λ c' cpu'. ends (is, cpu'))
      (Ends-bind (Ends-assert (ltb (field 8 0 router) 16)) λ _ _. ends (queued, cpu))
  where
    queued : IsDistributor (record d { to_inject_interrupt = d.to_inject_interrupt ++ entry ∷ [] })
    queued = record {
      group = is.group;
      enable = is.enable;
      pending = is.pending;
      active = is.active;
      priority = is.priority;
      configuration = is.configuration;
      group_modifier = is.group_modifier;
      router = is.router;
    }

Ends-deliver :
    (i : ℕ) (physical : Option ℕ) (d : GicDistributorMmio) (c : Cpu)
    → IsDistributor d
    → IsCpu c
    → Ends IsGuestGic (deliver i physical d c)
unfolding deliver get_group_modifier get_group get_priority get_router priority_byte
Ends-deliver i physical d c is cpu = Ends-bind (Ends-register_bit d.group_modifier i) λ m _.
    Ends-if (m == 1) (ends (is, cpu)) (
      Ends-bind (Ends-register_bit d.group i) λ g _.
        Ends-bind (Ends-bind {Q = λ _. Unit {0}} (Ends-index d.priority (i / 4)) λ r _. ends tt)
          λ p _. Ends-bind (Ends-index d.router i) λ r _. search (Ends-if, ends, Ends-route))

pub Ends-trigger_interrupt :
    (i : ℕ) (physical : Option ℕ) (d : GicDistributorMmio) (c : Cpu)
    → IsDistributor d
    → IsCpu c
    → Ends IsGuestGic (trigger_interrupt i physical d c)
unfolding trigger_interrupt get_enable
Ends-trigger_interrupt i physical d c is cpu = Ends-if _ (ends (is, cpu)) (
    Ends-bind (Ends-change_pending_status i true d is) λ d' is'.
      Ends-bind (Ends-bind {Q = λ _. Unit {0}} (Ends-register_bit d'.enable i) λ b _. ends tt)
        λ e _. search (Ends-if, ends, Ends-deliver))

Ends-get_pending : (i : ℕ) (d : GicDistributorMmio) → Ends (λ _. Unit {0}) (get_pending i d)
unfolding get_pending
Ends-get_pending i d = Ends-bind (Ends-register_bit d.pending i) λ b _. ends tt

Ends-get_enable : (i : ℕ) (d : GicDistributorMmio) → Ends (λ _. Unit {0}) (get_enable i d)
unfolding get_enable
Ends-get_enable i d = Ends-bind (Ends-register_bit d.enable i) λ b _. ends tt

-- A value below `2 ^ n` is shifted out within `n` rounds, and one more round sees the 0.
pub Ends-trigger_each :
    (wanted : ℕ → GicDistributorMmio → Outcome Bool)
    → ((i : ℕ) (d : GicDistributorMmio) → Ends (λ _. Unit {0}) (wanted i d))
    → (n i value : ℕ) (d : GicDistributorMmio) (c : Cpu) → value < 2 ^ n
    → IsDistributor d
    → IsCpu c
    → Ends IsGuestGic (trigger_each wanted (suc n) i value d c)
unfolding trigger_each
Ends-trigger_each wanted tests zero i zero d c h is cpu = ends (is, cpu)
Ends-trigger_each wanted tests zero i (suc value) d c h is cpu = absurd (omega arith)
Ends-trigger_each wanted tests (suc n) i value d c h is cpu = elim (Bool-cases (value == 0)) [
  | inl over ↦ rw (over, trigger_each) (ends (is, cpu))
  | inr more ↦
      rw (more, trigger_each)
        (Ends-bind {P = λ _. Unit {0}} (Ends-if (bit_and value 1 == 0) (ends tt) (tests i d))
          λ set_bit _.
            Ends-bind {P = IsGuestGic}
              (Ends-if set_bit (Ends-trigger_interrupt i none d c is cpu) (ends (is, cpu)))
              λ (d', c') (is', cpu').
                Ends-trigger_each wanted tests n (i + 1) (value >>> 1) d' c'
                  (omega (arith, two_pow_suc n)) is' cpu')
]

-- The array lengths of `d` carry over to a distributor with arrays of the same lengths.
IsDistributor-same :
    (d d' : GicDistributorMmio)
    → IsDistributor d
    → length d'.group ≡ length d.group
    → length d'.enable ≡ length d.enable
    → length d'.pending ≡ length d.pending
    → length d'.active ≡ length d.active
    → length d'.priority ≡ length d.priority
    → length d'.configuration ≡ length d.configuration
    → length d'.group_modifier ≡ length d.group_modifier
    → length d'.router ≡ length d.router
    → IsDistributor d'
IsDistributor-same d d' is g e p a r k m t = omega arith

Ends-or_word : (xs : List ℕ) (i v : ℕ) → Ends (λ ys. length ys ≡ length xs) (or_word xs i v)
unfolding or_word
Ends-or_word xs i v = Ends-bind (Ends-index xs i) λ r _. ends (length-set xs i _)

Ends-clear_word : (xs : List ℕ) (i v : ℕ) → Ends (λ ys. length ys ≡ length xs) (clear_word xs i v)
unfolding clear_word
Ends-clear_word xs i v = Ends-bind (Ends-index xs i) λ r _. ends (length-set xs i _)

Ends-write_priority :
    (xs : List ℕ) (offset width v : ℕ)
    → Ends (λ ys. length ys ≡ length xs) (write_priority xs offset width v)
unfolding write_priority
Ends-write_priority xs offset width v =
    let i = (offset - 0x400) / 4 in
    Ends-if (width == 8) (Ends-bind (Ends-index xs i) λ r _. Ends-assign xs i _) (
      Ends-if ((offset - 0x400) - i * 4 == 0 && width == 32) (Ends-assign xs i (u32 v)) (ends refl))

module _ (d : GicDistributorMmio) (c : Cpu) (is : IsDistributor d) (cpu : IsCpu c) where
  Ends-write_enable : (i value : ℕ) → value < 2 ^ 64 → Ends IsGuestGic (write_enable i value d c)
  unfolding write_enable
  Ends-write_enable i value h = Ends-bind (Ends-index d.enable i) λ r _.
      Ends-trigger_each get_pending Ends-get_pending 64 (i * 32) value _ c h
        (IsDistributor-same d _ is refl (length-set d.enable i _) refl refl refl refl refl refl) cpu

  Ends-write_pending : (i value : ℕ) → value < 2 ^ 64 → Ends IsGuestGic (write_pending i value d c)
  unfolding write_pending
  Ends-write_pending i value h = Ends-bind (Ends-index d.pending i) λ r _.
      Ends-trigger_each get_enable Ends-get_enable 64 (i * 4 * 8) value _ c h
        (IsDistributor-same d _ is refl refl (length-set d.pending i _) refl refl refl refl refl)
        cpu

  -- A write of any 64-bit value, at any offset and width, ends: the loop that triggers interrupts
  -- never runs out of its 65 rounds, and if the write does not panic, every array of the
  -- distributor keeps its length and the CPU keeps its three list registers.
  pub write-Ends :
      (offset access_width value : ℕ)
      → value < 2 ^ 64
      → Ends IsGuestGic (write d offset access_width value c)
  unfolding write
  write-Ends offset access_width value h =
      Ends-if (offset == 0 && access_width == 32)
        (ends (IsDistributor-same d _ is refl refl refl refl refl refl refl refl, cpu))
        (Ends-if (word_in 0x80 0xfc offset access_width)
          (Ends-bind (Ends-assign d.group _ _)
            λ r e. ends (IsDistributor-same d _ is e refl refl refl refl refl refl refl, cpu))
          (Ends-if (word_in 0x100 0x17c offset access_width) (Ends-write_enable _ value h) (
            Ends-if (word_in 0x180 0x1fc offset access_width)
              (Ends-bind (Ends-clear_word d.enable _ value)
                λ r e. ends (IsDistributor-same d _ is refl e refl refl refl refl refl refl, cpu))
              (Ends-if (word_in 0x200 0x27c offset access_width) (Ends-write_pending _ value h) (
                Ends-if (word_in 0x280 0x2fc offset access_width)
                  (Ends-bind (Ends-clear_word d.pending _ value) λ r e.
                    ends (IsDistributor-same d _ is refl refl e refl refl refl refl refl, cpu))
                  (Ends-if (word_in 0x300 0x37c offset access_width)
                    (Ends-bind (Ends-or_word d.active _ value) λ r e.
                      ends (IsDistributor-same d _ is refl refl refl e refl refl refl refl, cpu))
                    (Ends-if (word_in 0x380 0x3fc offset access_width)
                      (Ends-bind (Ends-clear_word d.active _ value) λ r e.
                        ends (IsDistributor-same d _ is refl refl refl e refl refl refl refl, cpu))
                      (Ends-if (leb 0x400 offset && ltb offset (0x7f8 + 4))
                        (Ends-bind (Ends-write_priority d.priority offset access_width value) λ r e.
                          ends
                            (IsDistributor-same d _ is refl refl refl refl e refl refl refl, cpu))
                        (Ends-if (word_in 0xc00 0xcfc offset access_width)
                          (Ends-bind (Ends-assign d.configuration _ _) λ r e.
                            ends
                              (IsDistributor-same d _ is refl refl refl refl refl e refl refl, cpu))
                          (Ends-if (word_in 0xd00 0xf7c offset access_width)
                            (Ends-bind (Ends-assign d.group_modifier _ _) λ r e.
                              ends (
                                IsDistributor-same d _ is refl refl refl refl refl refl e refl,
                                cpu,
                              ))
                            (Ends-if (within 0x6100 0x7fd8 offset && access_width == 64)
                              (Ends-bind (Ends-assign d.router _ value) λ r e. ends (
                                IsDistributor-same d _ is refl refl refl refl refl refl refl e,
                                cpu,
                              ))
                              (ends (is, cpu)))))))))))))
