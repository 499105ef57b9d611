-- ===== src/Gic/Distributor/Access.antt =====
-- What the guest reads back from the distributor of src/mmio/gicv3.rs, and the accesses that stop
-- the hypervisor.
use mini_visor.Base.{
  ℕ, ◌+◌, ◌-◌, ◌*◌, ◌/◌, ◌%◌, ◌≤◌, ◌<◌, ◌≡◌, ◌∙◌, ◌⊎◌, inl, inr, refl, Bool, true, false, ◌&&◌,
  List, [], ◌∷◌, zero, suc, length, set, ltb, leb, lt→ltb, le→ltb, within, ◌==◌, if◌then◌else◌, u32,
  Outcome, done, panic, ◌>>=◌, arith, get_elem?-eq-get_or, get_elem?-past, index, assign,
}
use mini_visor.Cpu.{Cpu}
use mini_visor.Gic.Distributor.{GicDistributorMmio}
use mini_visor.Gic.Distributor.Status.{IsDistributor}
use mini_visor.Gic.Distributor.Mmio.{word_in, read, write, read_priority, write_priority}

module _ {A : Type 0} where
  assign-done : (xs : List A) (i : ℕ) (v : A) → i < length xs → assign xs i v ≡ done (set xs i v)
  assign-done xs i v h = rw (lt→ltb i (length xs) h)

  index-set_self : (xs : List A) (i : ℕ) (v : A) → i < length xs → index (set xs i v) i ≡ done v
  index-set_self [] i v h = elim h [ ]
  index-set_self (x ∷ xs) zero v h = refl
  index-set_self (x ∷ xs) (suc i) v h = index-set_self xs i v (omega arith)

-- A 32-bit register that only holds what is written: GICD_IGROUPR, GICD_ICFGR, GICD_IGRPMODR
-- below 0xd80, and an aligned GICD_IPRIORITYR.
abbrev pub IsWordRegister : ℕ → Type 0
IsWordRegister offset =
    ((0x80 ≤ offset) × (offset ≤ 0xfc))
    ⊎ ((0xc00 ≤ offset) × (offset ≤ 0xcfc))
    ⊎ ((0xd00 ≤ offset) × (offset < 0xd80))
    ⊎ ((0x400 ≤ offset) × (offset ≤ 0x7f8) × (offset % 4 ≡ 0))

read-write_group :
    (d : GicDistributorMmio) (c : Cpu) (offset value : ℕ)
    → IsDistributor d
    → 0x80 ≤ offset
    → offset ≤ 0xfc
    → (d' : GicDistributorMmio) × (write d offset 32 value c ≡ done (d', c))
      × (read d' offset 32 ≡ done (u32 value))
unfolding read write
read-write_group d c offset value is lo hi = (
  record d { group = set d.group ((offset - 0x80) / 4) (u32 value) },
  ground (arith, assign-done d.group ((offset - 0x80) / 4) (u32 value)),
  ground (arith, index-set_self d.group ((offset - 0x80) / 4) (u32 value)),
)

read-write_configuration :
    (d : GicDistributorMmio) (c : Cpu) (offset value : ℕ)
    → IsDistributor d
    → 0xc00 ≤ offset
    → offset ≤ 0xcfc
    → (d' : GicDistributorMmio) × (write d offset 32 value c ≡ done (d', c))
      × (read d' offset 32 ≡ done (u32 value))
unfolding read write
read-write_configuration d c offset value is lo hi =
    let i = (offset - 0xc00) / 4 in
    (
      record d { configuration = set d.configuration i (u32 value) },
      ground (arith, assign-done d.configuration i (u32 value)),
      ground (arith, index-set_self d.configuration i (u32 value)),
    )

read-write_group_modifier :
    (d : GicDistributorMmio) (c : Cpu) (offset value : ℕ)
    → IsDistributor d
    → 0xd00 ≤ offset
    → offset < 0xd80
    → (d' : GicDistributorMmio) × (write d offset 32 value c ≡ done (d', c))
      × (read d' offset 32 ≡ done (u32 value))
unfolding read write
read-write_group_modifier d c offset value is lo hi =
    let i = (offset - 0xd00) / 4 in
    (
      record d { group_modifier = set d.group_modifier i (u32 value) },
      ground (arith, assign-done d.group_modifier i (u32 value)),
      ground (arith, index-set_self d.group_modifier i (u32 value)),
    )

read-write_priority :
    (d : GicDistributorMmio) (c : Cpu) (offset value : ℕ)
    → IsDistributor d
    → 0x400 ≤ offset
    → offset ≤ 0x7f8
    → offset % 4 ≡ 0
    → (d' : GicDistributorMmio) × (write d offset 32 value c ≡ done (d', c))
      × (read d' offset 32 ≡ done (u32 value))
unfolding read write read_priority write_priority
read-write_priority d c offset value is lo hi aligned =
    let i = (offset - 0x400) / 4 in
    (
      record d { priority = set d.priority i (u32 value) },
      ground (arith, assign-done d.priority i (u32 value)),
      ground (arith, index-set_self d.priority i (u32 value)),
    )

-- A 32-bit write of a register that only holds what is written succeeds, leaves the CPU alone, and
-- the same access then reads the low 32 bits of the value.
pub read-write :
    (d : GicDistributorMmio) (c : Cpu) (offset value : ℕ)
    → IsDistributor d
    → IsWordRegister offset
    → (d' : GicDistributorMmio) × (write d offset 32 value c ≡ done (d', c))
      × (read d' offset 32 ≡ done (u32 value))
read-write d c offset value is (inl (lo, hi)) = read-write_group d c offset value is lo hi
read-write d c offset value is (inr (inl (lo, hi))) =
    read-write_configuration d c offset value is lo hi
read-write d c offset value is (inr (inr (inl (lo, hi)))) =
    read-write_group_modifier d c offset value is lo hi
read-write d c offset value is (inr (inr (inr (lo, hi, aligned)))) =
    read-write_priority d c offset value is lo hi aligned

-- A 64-bit write of a GICD_IROUTER register succeeds, and the same access then reads the value.
pub read-write_router :
    (d : GicDistributorMmio) (c : Cpu) (offset value : ℕ)
    → IsDistributor d
    → 0x6100 ≤ offset
    → offset ≤ 0x7fd8
    → (d' : GicDistributorMmio) × (write d offset 64 value c ≡ done (d', c))
      × (read d' offset 64 ≡ done value)
unfolding read write
read-write_router d c offset value is lo hi =
    let i = (offset - 0x6100) / 8 in
    (
      record d { router = set d.router i value },
      ground (arith, assign-done d.router i value),
      ground (arith, index-set_self d.router i value),
    )

read-modifier :
    (d : GicDistributorMmio) (offset : ℕ)
    → 0xd00 ≤ offset
    → offset ≤ 0xf7c
    → read d offset 32 ≡ index d.group_modifier ((offset - 0xd00) / 4)
unfolding read
read-modifier d offset lo hi = ground arith

write-modifier :
    (d : GicDistributorMmio) (c : Cpu) (offset value : ℕ)
    → 0xd00 ≤ offset
    → offset ≤ 0xf7c
    → write d offset 32 value c ≡ (
        assign d.group_modifier ((offset - 0xd00) / 4) (u32 value) >>= λ r.
        done (record d { group_modifier = r }, c))
unfolding write
write-modifier d c offset value lo hi = ground arith

-- The range that the code gives to GICD_IGRPMODR ends at 0xf7c, but its array has 32 registers: a
-- 32-bit access of the guest from 0xd80 to 0xf7c stops the hypervisor, whether it reads or writes.
pub group_modifier-panics :
    (d : GicDistributorMmio) (c : Cpu) (offset value : ℕ)
    → IsDistributor d
    → 0xd80 ≤ offset
    → offset ≤ 0xf7c
    → (read d offset 32 ≡ panic) × (write d offset 32 value c ≡ panic)
group_modifier-panics d c offset value is lo hi =
    let past : length d.group_modifier ≤ (offset - 0xd00) / 4 = omega (arith, is.group_modifier) in
    (
      read-modifier d offset (omega arith) hi ∙ rw (get_elem?-past d.group_modifier _ past),
      write-modifier d c offset value (omega arith) hi ∙ rw (le→ltb _ _ past),
    )

data IsDone {A : Type 0} : Outcome A → Type 0 where
  is_done : (a : A) → IsDone (done a)

result : {A : Type 0} {r : Outcome A} → IsDone r → (a : A) × (r ≡ done a)
result (is_done a) = (a, refl)

IsDone-if :
    {A : Type 0} (b : Bool) {x y : Outcome A}
    → (b ≡ true → IsDone x)
    → IsDone y
    → IsDone (if b then x else y)
IsDone-if true p q = p refl
IsDone-if false p q = q

IsDone-index : (xs : List ℕ) (i : ℕ) → i < length xs → IsDone (index xs i)
IsDone-index [] i h = elim h [ ]
IsDone-index (x ∷ xs) zero h = is_done x
IsDone-index (x ∷ xs) (suc i) h = IsDone-index xs i (omega arith)

IsDone-read_priority :
    (xs : List ℕ) (offset width : ℕ)
    → (offset - 0x400) / 4 < length xs
    → IsDone (read_priority xs offset width)
unfolding read_priority
IsDone-read_priority xs offset width h =
    IsDone-if (width == 8) (λ _. rw (get_elem?-eq-get_or xs _ 0 h) (is_done _))
      (IsDone-if ((offset - 0x400) - (offset - 0x400) / 4 * 4 == 0 && width == 32)
        (λ _. IsDone-index xs _ h) (is_done 0))

word_in-bounds :
    (lo hi offset width : ℕ) → word_in lo hi offset width ≡ true → (lo ≤ offset) × (offset ≤ hi)
word_in-bounds lo hi offset width h = ground arith

IsDone-word :
    (xs : List ℕ) (lo hi o w : ℕ)
    → (hi - lo) / 4 < length xs
    → word_in lo hi o w ≡ true
    → IsDone (index xs ((o - lo) / 4))
IsDone-word xs lo hi o w fits t =
    IsDone-index xs ((o - lo) / 4) (omega (arith, word_in-bounds lo hi o w t))

-- Every other read of the guest succeeds, at any offset and width.
pub read-done :
    (d : GicDistributorMmio) (offset access_width : ℕ)
    → IsDistributor d
    → (offset < 0xd80) ⊎ (0xf7c < offset)
    → (v : ℕ) × (read d offset access_width ≡ done v)
unfolding read
read-done d o w is outside = result (
    IsDone-if (o == 0 && w == 32) (λ _. is_done _)
      (IsDone-if (o == 0x4 && w == 32) (λ _. is_done _)
        (IsDone-if (word_in 0x80 0xfc o w)
          (IsDone-word d.group 0x80 0xfc o w (omega (arith, is.group)))
          (IsDone-if (word_in 0x100 0x17c o w)
            (IsDone-word d.enable 0x100 0x17c o w (omega (arith, is.enable)))
            (IsDone-if (word_in 0x180 0x1fc o w)
              (IsDone-word d.enable 0x180 0x1fc o w (omega (arith, is.enable)))
              (IsDone-if (word_in 0x200 0x27c o w)
                (IsDone-word d.pending 0x200 0x27c o w (omega (arith, is.pending)))
                (IsDone-if (word_in 0x280 0x2fc o w)
                  (IsDone-word d.pending 0x280 0x2fc o w (omega (arith, is.pending)))
                  (IsDone-if (word_in 0x300 0x37c o w)
                    (IsDone-word d.active 0x300 0x37c o w (omega (arith, is.active)))
                    (IsDone-if (word_in 0x380 0x3fc o w)
                      (IsDone-word d.active 0x380 0x3fc o w (omega (arith, is.active)))
                      (IsDone-if (leb 0x400 o && ltb o (0x7f8 + 4))
                        (λ t. IsDone-read_priority d.priority o w (
                          let b : (0x400 ≤ o) × (o < 0x7fc) = ground arith in
                          omega (arith, is.priority)))
                        (IsDone-if (word_in 0xc00 0xcfc o w)
                          (IsDone-word d.configuration 0xc00 0xcfc o w
                            (omega (arith, is.configuration)))
                          (IsDone-if (word_in 0xd00 0xf7c o w)
                            (λ t.
                              IsDone-index d.group_modifier ((o - 0xd00) / 4) (
                                omega (arith, word_in-bounds 0xd00 0xf7c o w t, is.group_modifier)))
                            (IsDone-if (within 0x6100 0x7fd8 o && w == 64)
                              (λ t. IsDone-index d.router ((o - 0x6100) / 8) (
                                let b : (0x6100 ≤ o) × (o ≤ 0x7fd8) = ground arith in
                                omega (arith, is.router)))
                              (IsDone-if (o == 0xffe8 && w == 32) (λ _. is_done _)
                                (is_done _)))))))))))))))
