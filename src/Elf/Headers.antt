-- ===== src/Elf/Headers.antt =====
-- Which program headers the iterator of src/elf.rs yields.
use native.Mathlib.Nat.{mul-suc}
use mini_visor.Base.{
  ℕ, zero, suc, ◌+◌, ◌*◌, ◌^◌, ◌<◌, ◌≡◌, refl, List, [], ◌∷◌, some, done, ◌>>=◌, arith, lt→ltb,
}
use mini_visor.Elf.{
  Elf64Header, Elf64ProgramHeader, program_header_at, get_program_headers, next, items,
}

module _ (memory : ℕ → ℕ) where
  -- The headers in a table of `n` entries of `size` bytes.
  abbrev pub table : ℕ → ℕ → ℕ → List Elf64ProgramHeader
  table pointer size zero = []
  table pointer size (suc n) = program_header_at memory pointer ∷ table (pointer + size) size n

  next-some :
      (pointer size n : ℕ)
      → pointer + size < 2 ^ 64
      → next memory (record { pointer = pointer; size = size; remaining = suc n })
        ≡ done (
          some (program_header_at memory pointer),
          record { pointer = pointer + size; size = size; remaining = n },
        )
  unfolding next
  next-some pointer size n h = ground arith

  items-table :
      (n fuel pointer size : ℕ)
      → pointer + size * n < 2 ^ 64
      → n < fuel
      → items memory fuel (record { pointer = pointer; size = size; remaining = n })
        ≡ done (table pointer size n)
  unfolding items
  items-table n zero pointer size h lt = absurd (omega arith)
  items-table zero (suc fuel) pointer size h lt = refl
  items-table (suc n) (suc fuel) pointer size h lt =
      let inside : pointer + size < 2 ^ 64 = omega (arith, mul-suc size n) in
      let rest : pointer + size + size * n < 2 ^ 64 = omega (arith, mul-suc size n) in
      rw
        (
          next-some pointer size n inside,
          items-table n fuel (pointer + size) size rest (omega arith),
        )
        refl

  -- If the table of program headers ends inside the address space, a loop over
  -- `get_program_headers` ends and sees each entry of the table once, in order.
  pub items-get_program_headers :
      (h : Elf64Header)
      → h.address + h.e_phoff + h.e_phentsize * h.e_phnum < 2 ^ 64
      → (do it ← get_program_headers memory h; items memory (h.e_phnum + 1) it)
        ≡ done (table (h.address + h.e_phoff) h.e_phentsize h.e_phnum)
  unfolding get_program_headers
  items-get_program_headers h bound =
      let inside : h.address + h.e_phoff < 2 ^ 64 = omega arith in
      rw (lt→ltb (h.address + h.e_phoff) (2 ^ 64) inside) (
        items-table h.e_phnum (h.e_phnum + 1) (h.address + h.e_phoff) h.e_phentsize bound
          (omega arith))
