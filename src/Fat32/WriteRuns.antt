-- ===== src/Fat32/WriteRuns.antt =====
-- The inner loop of `write` in src/fat32.rs, on an extent that holds the whole request of whole
-- sectors: as that of `read`, it counts the sectors and the bytes of all clusters.
use mini_visor.Base.{
  ℕ, zero, suc, ◌+◌, ◌-◌, ◌*◌, ◌^◌, ◌≤◌, ◌<◌, ◌≡◌, refl, ◌∙◌, some, Memory, Bool-cases, inl, inr,
  leb→le, done, true, false, add32, add64, sub64, ltb, leb, ◌==◌, ◌>>=◌, sym, arith,
}
use native.Mathlib.Nat.{mul-le-mul_right, lt_of_mul-lt-mul_right, le-mul_of_pos_right, mul_assoc}
use mini_visor.Fat32.{Fat32, get_next_cluster}
use mini_visor.Fat32.Read.{bytes_per_cluster, whole_cluster}
use mini_visor.Fat32.Write.{write_run}
use mini_visor.Fat32.Chain.{IsConsecutive}
use mini_visor.Fat32.Runs.{
  after, ended, skip_sectors-after, last_cluster-after, whole_cluster-after, sectors_of_length,
}

module _ (f : Fat32) (memory : Memory) (sectors c n : ℕ) (sector_pos : 0 < f.bytes_per_sector)
    (size_pos : 0 < bytes_per_cluster f) (length_lt : sectors * f.bytes_per_sector < 2 ^ 64)
    (length_le : sectors * f.bytes_per_sector ≤ suc n * bytes_per_cluster f)
    (sectors_lt : suc n * f.sectors_per_cluster < 2 ^ 32)
    (bytes_lt : suc n * bytes_per_cluster f < 2 ^ 64) (cluster_lt : c + n < 2 ^ 32)
    (follows : IsConsecutive f memory c n) where
  -- Of whole sectors, a whole sector is left.
  sector_left :
      (j : ℕ)
      → j * bytes_per_cluster f < sectors * f.bytes_per_sector
      → ltb (sectors * f.bytes_per_sector - j * bytes_per_cluster f) f.bytes_per_sector ≡ false
  sector_left j lt =
      let split : j * bytes_per_cluster f ≡ j * f.sectors_per_cluster * f.bytes_per_sector =
        sym (mul_assoc j f.sectors_per_cluster f.bytes_per_sector) in
      let less : j * f.sectors_per_cluster < sectors =
        lt_of_mul-lt-mul_right f.bytes_per_sector {m = j * f.sectors_per_cluster} {n = sectors}
          (omega arith) in
      let more : suc (j * f.sectors_per_cluster) * f.bytes_per_sector
          ≤ sectors * f.bytes_per_sector =
        mul-le-mul_right f.bytes_per_sector less in
      let whole : suc (j * f.sectors_per_cluster) * f.bytes_per_sector
          ≡ f.bytes_per_sector + j * f.sectors_per_cluster * f.bytes_per_sector =
        omega arith in
      ground arith

  write_run-last :
      (fuel j : ℕ)
      → j * bytes_per_cluster f < sectors * f.bytes_per_sector
      → sectors * f.bytes_per_sector ≤ suc j * bytes_per_cluster f
      → write_run (suc fuel) f memory (sectors * f.bytes_per_sector) (after f c j)
        ≡ done (some (ended f (sectors * f.bytes_per_sector) (c + j)))
  unfolding write_run
  write_run-last fuel j lt le =
      let length : ℕ = sectors * f.bytes_per_sector in
      let rest : sub64 length (j * bytes_per_cluster f) ≡ done (length - j * bytes_per_cluster f) =
        ground arith in
      let left : add64 (length - j * bytes_per_cluster f) 0
          ≡ done (length - j * bytes_per_cluster f) =
        ground arith in
      let fits : leb (length - j * bytes_per_cluster f) (bytes_per_cluster f) ≡ true =
        ground arith in
      rw
        (
          rest,
          sector_left j lt,
          skip_sectors-after f c j,
          left,
          fits,
          last_cluster-after f length c sector_pos j lt (
              sectors_of_length f memory length c n sector_pos size_pos length_lt length_le
                sectors_lt bytes_lt cluster_lt follows (omega arith)),
          write_run,
          ◌>>=◌,
        )
        refl

  write_run-next :
      (fuel j : ℕ)
      → j < n
      → suc j * bytes_per_cluster f < sectors * f.bytes_per_sector
      → write_run (suc fuel) f memory (sectors * f.bytes_per_sector) (after f c j)
        ≡ write_run fuel f memory (sectors * f.bytes_per_sector) (after f c (suc j))
  unfolding write_run IsConsecutive
  write_run-next fuel j lt more =
      let length : ℕ = sectors * f.bytes_per_sector in
      let rest : sub64 length (j * bytes_per_cluster f) ≡ done (length - j * bytes_per_cluster f) =
        ground arith in
      let left : add64 (length - j * bytes_per_cluster f) 0
          ≡ done (length - j * bytes_per_cluster f) =
        ground arith in
      let fits : leb (length - j * bytes_per_cluster f) (bytes_per_cluster f) ≡ false =
        ground arith in
      let next : get_next_cluster f memory (c + j) ≡ some (c + suc j) = follows j lt in
      let following : add32 (c + j) 1 ≡ done (c + suc j) = ground arith in
      let same : (c + suc j == c + suc j) ≡ true = ground arith in
      let whole : whole_cluster f (after f c j)
          ≡ done (record (after f c (suc j)) { cluster = c + j }) =
        whole_cluster-after f length c sector_pos j (omega arith) length_lt
          (omega (arith, mul-le-mul_right f.sectors_per_cluster lt)) (omega arith) in
      rw
        (
          rest,
          sector_left j (omega arith),
          skip_sectors-after f c j,
          left,
          fits,
          whole,
          next,
          following,
          same,
          write_run,
          ◌>>=◌,
        )
        refl

  pub write_run-IsConsecutive :
      (fuel j : ℕ)
      → j ≤ n
      → j * bytes_per_cluster f < sectors * f.bytes_per_sector
      → sectors * f.bytes_per_sector < fuel + j
      → (cluster : ℕ) × (write_run fuel f memory (sectors * f.bytes_per_sector) (after f c j)
          ≡ done (some (ended f (sectors * f.bytes_per_sector) cluster)))
  write_run-IsConsecutive zero j le lt enough =
      (let le' : j ≤ j * bytes_per_cluster f = le-mul_of_pos_right j size_pos in
        absurd (omega arith))
  write_run-IsConsecutive (suc fuel) j le lt enough =
      elim (Bool-cases (leb (sectors * f.bytes_per_sector) (suc j * bytes_per_cluster f))) [
        | inl is_last ↦ (
          c + j,
          write_run-last fuel j lt
              (leb→le (sectors * f.bytes_per_sector) (suc j * bytes_per_cluster f) is_last),
        )
        | inr more ↦
            let more' : suc j * bytes_per_cluster f < sectors * f.bytes_per_sector = ground arith in
            let j_lt : j < n =
              lt_of_mul-lt-mul_right (bytes_per_cluster f) {m = j} {n = n} (omega arith) in
            let rest : (cluster : ℕ) × (write_run fuel f memory (sectors * f.bytes_per_sector)
                    (after f c (suc j))
                  ≡ done (some (ended f (sectors * f.bytes_per_sector) cluster))) =
              write_run-IsConsecutive fuel (suc j) j_lt more' (omega arith) in
            (rest.0, write_run-next fuel j j_lt more' ∙ rest.1)
      ]
