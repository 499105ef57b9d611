-- ===== src/Fat32/Rounds.antt =====
-- The inner loops of `read` and `write` in src/fat32.rs come to an end.
use mini_visor.Base.{
  ℕ, zero, suc, ◌+◌, ◌-◌, ◌*◌, ◌/◌, ◌^◌, ◌≤◌, ◌<◌, ◌≡◌, ◌≢◌, refl, max, Bool, true, false, Option,
  none, some, Memory, Outcome, out_of_fuel, add32, add64, sub64, mul64, divide, u32, Ends, ends,
  panics, Ends-bind, Ends-cases, Ends-if, Ends-ne_out_of_fuel, ltb, leb, ◌==◌, arith,
}
use mini_visor.Fat32.{Fat32, get_next_cluster}
use mini_visor.Fat32.Read.{
  Run, bytes_per_cluster, skip_sectors, last_cluster, whole_cluster, start_run, read_run,
}
use mini_visor.Fat32.Write.{write_run}

Ends-add64 : (a b : ℕ) → Ends (λ c. c ≡ a + b) (add64 a b)
Ends-add64 a b = Ends-if (ltb (a + b) (2 ^ 64)) (ends refl) panics

Ends-add32 : (a b : ℕ) → Ends (λ c. c ≡ a + b) (add32 a b)
Ends-add32 a b = Ends-if (ltb (a + b) (2 ^ 32)) (ends refl) panics

Ends-sub64 : (a b : ℕ) → Ends (λ c. c + b ≡ a) (sub64 a b)
Ends-sub64 a b = Ends-cases (leb b a) (λ e. ends (ground arith)) (λ e. panics)

Ends-mul64 : (a b : ℕ) → Ends (λ c. c ≡ a * b) (mul64 a b)
Ends-mul64 a b = Ends-if (ltb (a * b) (2 ^ 64)) (ends refl) panics

Ends-divide : (a b : ℕ) → Ends (λ c. c ≡ a / b) (divide a b)
Ends-divide a b = Ends-if (b == 0) panics (ends refl)

module _ {ℓ} {A : Type ℓ} where
  Ends-bool :
      (b : Bool) {x y : Outcome A}
      → (b ≡ true → Ends (λ _. Unit {0}) x)
      → (b ≡ false → Ends (λ _. Unit {0}) y)
      → Ends (λ _. Unit {0}) (elim b [ true ↦ x | false ↦ y ])
  Ends-bool true p q = p refl
  Ends-bool false p q = q refl

  Ends-option :
      {B : Type 0} (o : Option B) {x : Outcome A} {k : B → Outcome A}
      → Ends (λ _. Unit {0}) x
      → ((b : B) → Ends (λ _. Unit {0}) (k b))
      → Ends (λ _. Unit {0}) (elim o [ none ↦ x | some b ↦ k b ])
  Ends-option none p q = p
  Ends-option (some b) p q = q b

skip_sectors-Ends :
    (f : Fat32) (r : Run)
    → Ends (λ r'. (r'.bytes ≡ r.bytes) × (r'.data_offset ≤ r.data_offset)) (skip_sectors f r)
unfolding skip_sectors
skip_sectors-Ends f r =
    Ends-if (ltb f.bytes_per_sector r.data_offset)
      (Ends-bind (Ends-divide r.data_offset f.bytes_per_sector) λ offset e.
        Ends-bind (Ends-mul64 (u32 offset) f.bytes_per_sector) λ skipped e'.
          Ends-bind (Ends-sub64 r.data_offset skipped) λ data_offset e''. ends (refl, omega arith))
      (ends (refl, omega arith))

last_cluster-Ends :
    (f : Fat32) (length left : ℕ) (r : Run) → Ends (λ _. Unit {0}) (last_cluster f length left r)
unfolding last_cluster
last_cluster-Ends f length left r =
    Ends-bind (Ends-divide (max left 1 - 1) f.bytes_per_sector) λ count e.
      Ends-bind (Ends-add64 1 count)
        λ more e'. Ends-bind (Ends-add32 r.sectors (u32 more)) λ sectors e''. ends tt

whole_cluster-Ends :
    (f : Fat32) (r : Run)
    → Ends (λ r'. r'.bytes + r.data_offset ≡ r.bytes + bytes_per_cluster f) (whole_cluster f r)
unfolding whole_cluster
whole_cluster-Ends f r = Ends-bind (Ends-add32 r.sectors f.sectors_per_cluster) λ sectors e.
    Ends-bind (Ends-sub64 (bytes_per_cluster f) r.data_offset) λ rest e'.
      Ends-bind (Ends-add64 r.bytes rest) λ bytes e''.
        let total : bytes + r.data_offset ≡ r.bytes + bytes_per_cluster f = omega arith in
        ends total

-- What a round needs of the one before: the counted bytes are in the request, and the offset in the
-- cluster.
read_run-Ends :
    (fuel : ℕ) (f : Fat32) (memory : Memory) (length : ℕ) (r : Run)
    → r.data_offset < bytes_per_cluster f
    → r.bytes ≤ length
    → length < fuel + r.bytes
    → Ends (λ _. Unit {0}) (read_run fuel f memory length r)
unfolding read_run
read_run-Ends zero f memory length r offset_lt le enough = absurd (omega arith)
read_run-Ends (suc fuel) f memory length r offset_lt le enough =
    Ends-bind (skip_sectors-Ends f r) λ r₁ kept.
      Ends-bind (Ends-sub64 length r₁.bytes) λ rest is_rest.
        Ends-bind (Ends-add64 rest r₁.data_offset) λ left is_left.
          Ends-bool (leb left (bytes_per_cluster f))
            (λ fits. Ends-bind (last_cluster-Ends f length left r₁) λ r₂ any. ends tt)
            (λ more. Ends-bind (whole_cluster-Ends f r₁) λ r₂ counted.
              Ends-option (get_next_cluster f memory r₂.cluster) (ends tt) λ next.
                Ends-bind (Ends-add32 r₂.cluster 1) λ following e.
                  Ends-bool (next == following)
                    (λ same.
                      read_run-Ends fuel f memory length
                        (record r₂ { data_offset = 0; cluster = next }) (omega arith) (ground arith)
                        (omega arith))
                    (λ other. ends tt))

write_run-Ends :
    (fuel : ℕ) (f : Fat32) (memory : Memory) (length : ℕ) (r : Run)
    → r.data_offset < bytes_per_cluster f
    → r.bytes ≤ length
    → length < fuel + r.bytes
    → Ends (λ _. Unit {0}) (write_run fuel f memory length r)
unfolding write_run
write_run-Ends zero f memory length r offset_lt le enough = absurd (omega arith)
write_run-Ends (suc fuel) f memory length r offset_lt le enough =
    Ends-bind (Ends-sub64 length r.bytes) λ rest is_rest.
      Ends-bool (ltb rest f.bytes_per_sector) (λ short. ends tt)
        λ long. Ends-bind (skip_sectors-Ends f r) λ r₁ kept.
          Ends-bind (Ends-add64 rest r₁.data_offset) λ left is_left.
            Ends-bool (leb left (bytes_per_cluster f))
              (λ fits. Ends-bind (last_cluster-Ends f length left r₁) λ r₂ any. ends tt)
              (λ more. Ends-bind (whole_cluster-Ends f r₁) λ r₂ counted.
                Ends-option (get_next_cluster f memory r₂.cluster) (ends tt) λ next.
                  Ends-bind (Ends-add32 r₂.cluster 1) λ following e.
                    Ends-bool (next == following)
                      (λ same.
                        write_run-Ends fuel f memory length
                          (record r₂ { data_offset = 0; cluster = next }) (omega arith)
                          (ground arith) (omega arith))
                      (λ other. ends tt))

-- The loop over the clusters of a run ends, in `read` and in `write`, whatever the table says,
-- within two more rounds than the request has bytes, if the offset is less than the size of a
-- cluster.
pub read_run-ne_out_of_fuel :
    (f : Fat32) (memory : Memory) (length cluster data_offset : ℕ)
    → data_offset < bytes_per_cluster f
    → (read_run (suc (suc length)) f memory length (start_run cluster data_offset) ≢ out_of_fuel)
      × (write_run (suc (suc length)) f memory length (start_run cluster data_offset) ≢ out_of_fuel)
read_run-ne_out_of_fuel f memory length cluster data_offset lt = (
  Ends-ne_out_of_fuel (
      read_run-Ends (suc (suc length)) f memory length (start_run cluster data_offset) lt
        (omega arith) (omega arith)),
  Ends-ne_out_of_fuel (
      write_run-Ends (suc (suc length)) f memory length (start_run cluster data_offset) lt
        (omega arith) (omega arith)),
)
