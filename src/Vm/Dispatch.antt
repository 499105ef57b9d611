-- ===== src/Vm/Dispatch.antt =====
-- Which device an access of src/vm.rs reaches.
use mini_visor.Base.{
  ℕ, ◌+◌, ◌-◌, ◌^◌, ◌≤◌, ◌<◌, ◌≡◌, ◌⊎◌, inl, inr, refl, true, false, none, List, [], ◌∷◌, done,
  arith,
}
use mini_visor.Vm.{
  MmioHandler, MmioEntry, Vm, covers, mmio_read, mmio_write, handle_mmio_read, handle_mmio_write,
  devices,
}

module _ {S : Type 0} where
  -- The address lies in the entry's range.
  abbrev pub InRange : ℕ → MmioEntry S → Type 0
  InRange a e = (e.base_address ≤ a) × (a < e.base_address + e.length)

  -- Entry `e` stands in the list.
  pub data Among (e : MmioEntry S) : List (MmioEntry S) → Type 0 where
    first : {es : List (MmioEntry S)} → Among e (e ∷ es)
    later : {f : MmioEntry S} {es : List (MmioEntry S)} → Among e es → Among e (f ∷ es)

  -- No address is in the ranges of two entries.
  abbrev pub Apart : MmioEntry S → MmioEntry S → Type 0
  Apart e f =
      (e.base_address + e.length ≤ f.base_address) ⊎ (f.base_address + f.length ≤ e.base_address)

  abbrev pub ApartFrom : MmioEntry S → List (MmioEntry S) → Type 0
  ApartFrom e [] = Unit
  ApartFrom e (f ∷ fs) = Apart e f × ApartFrom e fs

  abbrev pub AllApart : List (MmioEntry S) → Type 0
  AllApart [] = Unit
  AllApart (e ∷ es) = ApartFrom e es × AllApart es

  -- The ends of the ranges are addresses.
  abbrev pub EndsFit : List (MmioEntry S) → Type 0
  EndsFit [] = Unit
  EndsFit (e ∷ es) = (e.base_address + e.length < 2 ^ 64) × EndsFit es

  covers-true :
      (e : MmioEntry S) (a : ℕ)
      → e.base_address + e.length < 2 ^ 64
      → InRange a e
      → covers e a ≡ done true
  unfolding covers
  covers-true e a fits h = ground arith

  -- An address outside of the range.
  abbrev pub Outside : ℕ → MmioEntry S → Type 0
  Outside a e = (a < e.base_address) ⊎ (e.base_address + e.length ≤ a)

  covers-Outside :
      (e : MmioEntry S) (a : ℕ)
      → e.base_address + e.length < 2 ^ 64
      → Outside a e
      → covers e a ≡ done false
  unfolding covers
  covers-Outside e a fits (inl p) = ground arith
  covers-Outside e a fits (inr p) = ground arith

  Apart-Outside : (e f : MmioEntry S) (a : ℕ) → Apart e f → InRange a f → Outside a e
  Apart-Outside e f a (inl p) h = inr (omega (arith, h.0))
  Apart-Outside e f a (inr p) h = inl (omega (arith, h.1))

  Apart-Among :
      (e : MmioEntry S) {f : MmioEntry S} {fs : List (MmioEntry S)}
      → ApartFrom e fs
      → Among f fs
      → Apart e f
  Apart-Among e h first = h.0
  Apart-Among e h (later m) = Apart-Among e h.1 m

  reaches :
      {e : MmioEntry S} {es : List (MmioEntry S)} (a w v : ℕ) (s : S)
      → EndsFit es
      → AllApart es
      → Among e es
      → InRange a e
      → (mmio_read es a w s ≡ e.handler.read (a - e.base_address) w s)
        × (mmio_write es a w v s ≡ e.handler.write (a - e.base_address) w v s)
  unfolding mmio_read mmio_write
  reaches {e} a w v s fits apart first h = rw (covers-true e a fits.0 h) (refl, refl)
  reaches {e} a w v s fits apart (later {f} m) h =
      rw (covers-Outside f a fits.0 (Apart-Outside f e a (Apart-Among f apart.0 m) h))
        (reaches a w v s fits.1 apart.1 m h)

  -- If the ranges of a VM's devices do not overlap and end below 2 ^ 64, an access in the range of a
  -- device reaches that device, wherever it stands in the list, with the offset from its base address.
  pub handle_mmio-reaches :
      (vm : Vm S) (e : MmioEntry S) (a w v : ℕ) (s : S)
      → EndsFit vm.mmio_handlers
      → AllApart vm.mmio_handlers
      → Among e vm.mmio_handlers
      → InRange a e
      → (handle_mmio_read vm a w s ≡ e.handler.read (a - e.base_address) w s)
        × (handle_mmio_write vm a w v s ≡ e.handler.write (a - e.base_address) w v s)
  unfolding handle_mmio_read handle_mmio_write
  handle_mmio-reaches vm e a w v s fits apart m h = reaches a w v s fits apart m h

  abbrev pub NoneCovers : ℕ → List (MmioEntry S) → Type 0
  NoneCovers a [] = Unit
  NoneCovers a (e ∷ es) = Outside a e × NoneCovers a es

  misses :
      (es : List (MmioEntry S)) (a w v : ℕ) (s : S)
      → EndsFit es
      → NoneCovers a es
      → (mmio_read es a w s ≡ done (none, s)) × (mmio_write es a w v s ≡ done (none, s))
  unfolding mmio_read mmio_write
  misses [] a w v s fits h = (refl, refl)
  misses (e ∷ es) a w v s fits h = rw (covers-Outside e a fits.0 h.0) (misses es a w v s fits.1 h.1)

  -- An access in no device's range is an error, and no device is touched, if the ranges end below 2 ^ 64.
  pub handle_mmio-misses :
      (vm : Vm S) (a w v : ℕ) (s : S)
      → EndsFit vm.mmio_handlers
      → NoneCovers a vm.mmio_handlers
      → (handle_mmio_read vm a w s ≡ done (none, s))
        × (handle_mmio_write vm a w v s ≡ done (none, s))
  unfolding handle_mmio_read handle_mmio_write
  handle_mmio-misses vm a w v s fits h = misses vm.mmio_handlers a w v s fits h

  -- The ranges in the table that `create_vm` builds do not overlap and end below 2 ^ 64, whatever the
  -- devices.
  pub devices-AllApart :
      (p v d r : MmioHandler S) → EndsFit (devices p v d r) × AllApart (devices p v d r)
  unfolding devices
  devices-AllApart p v d r = (omega arith, omega arith)
