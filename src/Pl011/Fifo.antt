-- ===== src/Pl011/Fifo.antt =====
-- The receive buffer of src/mmio/pl011.rs as a queue of non-zero bytes.
use mini_visor.Base.{
  ℕ, zero, suc, ◌-◌, ◌^◌, ◌≤◌, ◌<◌, ◌≡◌, ◌≢◌, ◌∙◌, refl, ap, List, [], ◌∷◌, ◌++◌, length, replicate,
  bit, bit_or, clear_bits, complement, ◌==◌, if◌then◌else◌, Outcome, done, arith, ◌>>=◌, none,
  Bool-cases, inl, inr, length-append,
}
use mini_visor.Base.Bits.{bit-bit_or, bit-bit_and, bit-complement, bit-le-one, bit_and-two_pow}
use mini_visor.Cpu.{Cpu}
use mini_visor.Gic.Distributor.{GicDistributorMmio, trigger_interrupt}
use mini_visor.Pl011.{Pl011Mmio, store_byte, push, shift_buffer, read_data, read}

abbrev pub AllNonzero : List ℕ → Type 0
AllNonzero [] = Unit
AllNonzero (x ∷ xs) = (x ≢ 0) × AllNonzero xs

-- The buffer holds the bytes `xs`, oldest first, and zeros behind them.
pub record Holds (p : Pl011Mmio) (xs : List ℕ) : Type 0 where
  pub nonzero : AllNonzero xs
  pub fits : length xs ≤ 4
  pub buffer : p.read_buffer ≡ xs ++ replicate (4 - length xs) 0

store_byte-room :
    (byte n : ℕ) (xs : List ℕ)
    → AllNonzero xs
    → store_byte byte (xs ++ replicate (suc n) 0) ≡ (xs ++ byte ∷ []) ++ replicate n 0
unfolding store_byte
store_byte-room byte n [] nz = refl
store_byte-room byte n (x ∷ xs) nz = ground (arith, store_byte-room byte n xs nz.1)

store_byte-full : (byte : ℕ) (xs : List ℕ) → AllNonzero xs → store_byte byte xs ≡ xs
unfolding store_byte
store_byte-full byte [] nz = refl
store_byte-full byte (x ∷ xs) nz = ground (arith, store_byte-full byte xs nz.1)

AllNonzero-snoc : (xs : List ℕ) (x : ℕ) → AllNonzero xs → x ≢ 0 → AllNonzero (xs ++ x ∷ [])
AllNonzero-snoc [] x nz ne = (ne, tt)
AllNonzero-snoc (y ∷ xs) x nz ne = (nz.0, AllNonzero-snoc xs x nz.1 ne)

bit-cleared : (flags : ℕ) → bit (clear_bits 16 flags (2 ^ 4)) 4 ≡ 0
bit-cleared flags = omega (
  arith,
  bit-bit_and 4 flags (complement 16 (2 ^ 4)),
  bit-complement 16 4 (2 ^ 4) (omega arith) (omega arith),
)

bit-raised : (flags : ℕ) → bit (bit_or flags (2 ^ 4)) 4 ≡ 1
bit-raised flags = omega (arith, bit-bit_or 4 flags (2 ^ 4), bit-le-one flags 4)

-- The bytes after one more has arrived: a full buffer drops it.
abbrev pub received : ℕ → List ℕ → List ℕ
received byte xs = if length xs == 4 then xs else xs ++ byte ∷ []

store_byte-received :
    (byte : ℕ) (xs : List ℕ)
    → AllNonzero xs
    → length xs ≤ 4
    → store_byte byte (xs ++ replicate (4 - length xs) 0)
      ≡ received byte xs ++ replicate (4 - length (received byte xs)) 0
unfolding store_byte
store_byte-received byte [] nz h = refl
store_byte-received byte (x ∷ []) nz h = ground arith
store_byte-received byte (x ∷ y ∷ []) nz h = ground arith
store_byte-received byte (x ∷ y ∷ z ∷ []) nz h = ground arith
store_byte-received byte (x ∷ y ∷ z ∷ w ∷ []) nz h = ground arith
store_byte-received byte (x ∷ y ∷ z ∷ w ∷ v ∷ xs) nz h = absurd (omega arith)

received-nonzero :
    (byte : ℕ) (xs : List ℕ) → AllNonzero xs → byte ≢ 0 → AllNonzero (received byte xs)
received-nonzero byte xs nz ne = elim (Bool-cases (length xs == 4)) [
  | inl full ↦ rw full nz
  | inr room ↦ rw room (AllNonzero-snoc xs byte nz ne)
]

received-fits : (byte : ℕ) (xs : List ℕ) → length xs ≤ 4 → length (received byte xs) ≤ 4
received-fits byte xs h = ground (arith, length-append xs (byte ∷ []))

-- Pushing a non-zero byte, where triggering interrupt 33 succeeds if it is asked for, appends the
-- byte to the queue, or drops it if four bytes wait. The flag register says that the buffer is not
-- empty, and if the receive interrupt is unmasked, its raw status is set and it is triggered;
-- otherwise the distributor and the CPU do not change.
pub push-Holds :
    (byte : ℕ) (xs : List ℕ) (p : Pl011Mmio) (d d' : GicDistributorMmio) (c c' : Cpu)
    → Holds p xs
    → byte ≢ 0
    → trigger_interrupt 33 none d c ≡ done (d', c')
    → let masked = bit p.interrupt_mask 4 == 0 in
      (p' : Pl011Mmio) × (push byte p d c
        ≡ done (p', (if masked then d else d'), (if masked then c else c')))
      × Holds p' (received byte xs)
      × (bit p'.flag 4 ≡ 0)
      × (bit p'.raw_interrupt_status 4 ≡ (if masked then bit p.raw_interrupt_status 4 else 1))
unfolding push
push-Holds byte xs p d d' c c' h ne ok = elim (Bool-cases (bit p.interrupt_mask 4 == 0)) [
  | inl off ↦ rw off (
    record p { read_buffer = store_byte byte p.read_buffer; flag = clear_bits 16 p.flag (2 ^ 4) },
    rw (bit_and-two_pow 4 p.interrupt_mask) (ground arith),
    holds _ refl,
    bit-cleared p.flag,
    refl,
  )
  | inr on ↦ rw on (
    record p {
      read_buffer = store_byte byte p.read_buffer;
      flag = clear_bits 16 p.flag (2 ^ 4);
      raw_interrupt_status = bit_or p.raw_interrupt_status (2 ^ 4);
    },
    rw (bit_and-two_pow 4 p.interrupt_mask) (ground (arith, ok)),
    holds _ refl,
    bit-cleared p.flag,
    bit-raised p.raw_interrupt_status,
  )
]
  where
    holds :
        (q : Pl011Mmio) → q.read_buffer ≡ store_byte byte p.read_buffer → Holds q (received byte xs)
    holds q e = record {
      nonzero = received-nonzero byte xs h.nonzero ne;
      fits = received-fits byte xs h.fits;
      buffer = e ∙ ap (store_byte byte) h.buffer ∙ store_byte-received byte xs h.nonzero h.fits;
    }

-- Reading the data register while one to three bytes wait returns the oldest and removes it. When
-- it was the last one, the flag register says that the buffer is empty and the raw receive
-- interrupt is cleared; otherwise neither register changes.
pub read_data-Holds :
    (x : ℕ) (xs : List ℕ) (p : Pl011Mmio)
    → Holds p (x ∷ xs)
    → length xs < 3
    → (p' : Pl011Mmio) × (read p 0 ≡ done (x, p'))
      × Holds p' xs
      × (bit p'.flag 4 ≡ (if length xs == 0 then 1 else bit p.flag 4))
      × (bit p'.raw_interrupt_status 4
          ≡ (if length xs == 0 then 0 else bit p.raw_interrupt_status 4))
unfolding read_data read shift_buffer
read_data-Holds x [] p h small = (
  record p {
    read_buffer = 0 ∷ 0 ∷ 0 ∷ 0 ∷ [];
    flag = bit_or p.flag (2 ^ 4);
    raw_interrupt_status = clear_bits 16 p.raw_interrupt_status (2 ^ 4);
  },
  rw h.buffer refl,
  record { nonzero = tt; fits = omega arith; buffer = refl },
  bit-raised p.flag,
  bit-cleared p.raw_interrupt_status,
)
read_data-Holds x (y ∷ []) p h small = (
  record p { read_buffer = y ∷ 0 ∷ 0 ∷ 0 ∷ [] },
  ground arith,
  record { nonzero = h.nonzero.1; fits = omega arith; buffer = refl },
  refl,
  refl,
)
read_data-Holds x (y ∷ z ∷ []) p h small = (
  record p { read_buffer = y ∷ z ∷ 0 ∷ 0 ∷ [] },
  ground arith,
  record { nonzero = h.nonzero.1; fits = omega arith; buffer = refl },
  refl,
  refl,
)
read_data-Holds x (y ∷ z ∷ w ∷ xs) p h small = absurd (omega arith)

-- `n` reads of the data register, and the state that they leave.
abbrev pub read_times : ℕ → Pl011Mmio → Outcome Pl011Mmio
read_times zero p = done p
read_times (suc n) p = do (_, p') ← read p 0; read_times n p'

-- A full buffer never drains: the loop that moves the bytes up keeps the last one, so after any
-- number of reads four bytes still wait, the flag register never says that the buffer is empty and
-- the raw interrupt status does not change.
pub read_times-full :
    (n a b c e : ℕ) (p : Pl011Mmio)
    → Holds p (a ∷ b ∷ c ∷ e ∷ [])
    → (xs : List ℕ) × (p' : Pl011Mmio) × (read_times n p ≡ done p')
      × Holds p' xs
      × (length xs ≡ 4)
      × (p'.flag ≡ p.flag)
      × (p'.raw_interrupt_status ≡ p.raw_interrupt_status)
unfolding read_data read shift_buffer
read_times-full zero a b c e p h = (_, p, refl, h, refl, refl, refl)
read_times-full (suc n) a b c e p h =
    let h' : Holds (record p { read_buffer = b ∷ c ∷ e ∷ e ∷ [] }) (b ∷ c ∷ e ∷ e ∷ []) = record {
      nonzero = assumption;
      fits = omega arith;
      buffer = refl;
    } in
    let (xs, p', e', holds, four, flag, raw) =
      read_times-full n b c e e (record p { read_buffer = b ∷ c ∷ e ∷ e ∷ [] }) h' in
    (xs, p', ground arith, holds, four, flag, raw)
