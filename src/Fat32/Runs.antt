-- ===== src/Fat32/Runs.antt =====
-- The inner loop of `read` in src/fat32.rs, on an extent that holds the whole request: it goes from
-- cluster to cluster, and counts the sectors and the bytes of all.
use mini_visor.Base.{
  ℕ, zero, suc, ◌+◌, ◌-◌, ◌*◌, ◌/◌, ◌^◌, ◌≤◌, ◌<◌, ◌≡◌, refl, ap, ◌∙◌, some, Memory, done, add32,
  add64, sub64, leb, Bool-cases, ◌>>=◌, leb→le, true, false, inl, inr, ◌==◌, sym, arith,
}
use native.Mathlib.Nat.{
  mul-le-mul_right, lt_of_mul-lt-mul_right, le-mul_of_pos_right, div-lt_iff_lt-mul, mul_assoc,
  add-mul-div_right,
}
use mini_visor.Fat32.{Fat32, get_next_cluster}
use mini_visor.Fat32.Read.{
  bytes_per_cluster, Run, skip_sectors, last_cluster, whole_cluster, read_run,
}
use mini_visor.Fat32.Chain.{IsConsecutive}

-- The variables after `j` whole clusters.
abbrev pub after : Fat32 → ℕ → ℕ → Run
after f c j = record {
  sectors = j * f.sectors_per_cluster;
  bytes = j * bytes_per_cluster f;
  sector_offset = 0;
  data_offset = 0;
  data_offset_backup = 0;
  cluster = c + j;
}

-- The variables at the end, in some cluster.
abbrev pub ended : Fat32 → ℕ → ℕ → Run
ended f length cluster = record {
  sectors = 1 + (length - 1) / f.bytes_per_sector;
  bytes = length;
  sector_offset = 0;
  data_offset = 0;
  data_offset_backup = 0;
  cluster = cluster;
}

pub skip_sectors-after : (f : Fat32) (c j : ℕ) → skip_sectors f (after f c j) ≡ done (after f c j)
unfolding skip_sectors
skip_sectors-after f c j = ground arith

module _ (f : Fat32) (length c : ℕ) (sector_pos : 0 < f.bytes_per_sector) where
  -- Sectors of whole clusters, and of the rest.
  sectors-add :
      (j : ℕ)
      → j * bytes_per_cluster f < length
      → j * f.sectors_per_cluster
          + (1 + (length - j * bytes_per_cluster f - 1) / f.bytes_per_sector)
        ≡ 1 + (length - 1) / f.bytes_per_sector
  sectors-add j lt =
      let split : (length - 1)
          ≡ (length - j * bytes_per_cluster f - 1)
            + (j * f.sectors_per_cluster) * f.bytes_per_sector =
        omega (arith, mul_assoc j f.sectors_per_cluster f.bytes_per_sector) in
      let quotient : (length - 1) / f.bytes_per_sector
          ≡ ((length - j * bytes_per_cluster f - 1)
              + (j * f.sectors_per_cluster) * f.bytes_per_sector)
            / f.bytes_per_sector =
        ap (λ x. x / f.bytes_per_sector) split in
      omega (
        arith,
        quotient,
        add-mul-div_right (length - j * bytes_per_cluster f - 1) (j * f.sectors_per_cluster)
            sector_pos,
      )

  pub last_cluster-after :
      (j : ℕ)
      → j * bytes_per_cluster f < length
      → 1 + (length - 1) / f.bytes_per_sector < 2 ^ 32
      → last_cluster f length (length - j * bytes_per_cluster f) (after f c j)
        ≡ done (ended f length (c + j))
  unfolding last_cluster
  last_cluster-after j lt fits =
      let pos : 0 < length - j * bytes_per_cluster f = omega arith in
      ground (arith, sectors-add j lt)

  pub whole_cluster-after :
      (j : ℕ)
      → j * bytes_per_cluster f < length
      → length < 2 ^ 64
      → suc j * f.sectors_per_cluster < 2 ^ 32
      → suc j * bytes_per_cluster f < 2 ^ 64
      → whole_cluster f (after f c j) ≡ done (record (after f c (suc j)) { cluster = c + j })
  unfolding whole_cluster
  whole_cluster-after j lt length_lt fits fits' =
      let next_sectors : suc j * f.sectors_per_cluster
          ≡ f.sectors_per_cluster + j * f.sectors_per_cluster =
        omega arith in
      ground arith

module _ (f : Fat32) (memory : Memory) (length c n : ℕ) (sector_pos : 0 < f.bytes_per_sector)
    (size_pos : 0 < bytes_per_cluster f) (length_lt : length < 2 ^ 64)
    (length_le : length ≤ suc n * bytes_per_cluster f)
    (sectors_lt : suc n * f.sectors_per_cluster < 2 ^ 32)
    (bytes_lt : suc n * bytes_per_cluster f < 2 ^ 64) (cluster_lt : c + n < 2 ^ 32)
    (follows : IsConsecutive f memory c n) where
  pub sectors_of_length : 0 < length → 1 + (length - 1) / f.bytes_per_sector < 2 ^ 32
  sectors_of_length pos =
      let split : suc n * bytes_per_cluster f ≡ suc n * f.sectors_per_cluster * f.bytes_per_sector =
        sym (mul_assoc (suc n) f.sectors_per_cluster f.bytes_per_sector) in
      let lt : (length - 1) / f.bytes_per_sector < suc n * f.sectors_per_cluster =
        (div-lt_iff_lt-mul sector_pos).1 (omega arith) in
      omega arith

  read_run-last :
      (fuel j : ℕ)
      → j * bytes_per_cluster f < length
      → length ≤ suc j * bytes_per_cluster f
      → read_run (suc fuel) f memory length (after f c j) ≡ done (some (ended f length (c + j)))
  unfolding read_run
  read_run-last fuel j lt le =
      let rest : sub64 length (j * bytes_per_cluster f) ≡ done (length - j * bytes_per_cluster f) =
        ground arith in
      let left : add64 (length - j * bytes_per_cluster f) 0
          ≡ done (length - j * bytes_per_cluster f) =
        ground arith in
      let fits : leb (length - j * bytes_per_cluster f) (bytes_per_cluster f) ≡ true =
        ground arith in
      rw
        (
          skip_sectors-after f c j,
          rest,
          left,
          fits,
          last_cluster-after f length c sector_pos j lt (sectors_of_length (omega arith)),
          read_run,
          ◌>>=◌,
        )
        refl

  read_run-next :
      (fuel j : ℕ)
      → j < n
      → suc j * bytes_per_cluster f < length
      → read_run (suc fuel) f memory length (after f c j)
        ≡ read_run fuel f memory length (after f c (suc j))
  unfolding read_run IsConsecutive
  read_run-next fuel j lt more =
      let rest : sub64 length (j * bytes_per_cluster f) ≡ done (length - j * bytes_per_cluster f) =
        ground arith in
      let left : add64 (length - j * bytes_per_cluster f) 0
          ≡ done (length - j * bytes_per_cluster f) =
        ground arith in
      let fits : leb (length - j * bytes_per_cluster f) (bytes_per_cluster f) ≡ false =
        ground arith in
      let next : get_next_cluster f memory (c + j) ≡ some (c + suc j) = follows j lt in
      let following : add32 (c + j) 1 ≡ done (c + suc j) = ground arith in
      let same : (c + suc j == c + suc j) ≡ true = ground arith in
      let whole : whole_cluster f (after f c j)
          ≡ done (record (after f c (suc j)) { cluster = c + j }) =
        whole_cluster-after f length c sector_pos j (omega arith) length_lt
          (omega (arith, mul-le-mul_right f.sectors_per_cluster lt)) (omega arith) in
      rw (skip_sectors-after f c j, rest, left, fits, whole, next, following, same, read_run, ◌>>=◌)
        refl

  pub read_run-IsConsecutive :
      (fuel j : ℕ)
      → j ≤ n
      → j * bytes_per_cluster f < length
      → length < fuel + j
      → (cluster : ℕ) × (read_run fuel f memory length (after f c j)
          ≡ done (some (ended f length cluster)))
  read_run-IsConsecutive zero j le lt enough =
      (let le' : j ≤ j * bytes_per_cluster f = le-mul_of_pos_right j size_pos in
        absurd (omega arith))
  read_run-IsConsecutive (suc fuel) j le lt enough =
      elim (Bool-cases (leb length (suc j * bytes_per_cluster f))) [
        | inl is_last ↦
            (c + j, read_run-last fuel j lt (leb→le length (suc j * bytes_per_cluster f) is_last))
        | inr more ↦
            let more' : suc j * bytes_per_cluster f < length = ground arith in
            let j_lt : j < n =
              lt_of_mul-lt-mul_right (bytes_per_cluster f) {m = j} {n = n} (omega arith) in
            let rest : (cluster : ℕ) × (read_run fuel f memory length (after f c (suc j))
                  ≡ done (some (ended f length cluster))) =
              read_run-IsConsecutive fuel (suc j) j_lt more' (omega arith) in
            (rest.0, read_run-next fuel j j_lt more' ∙ rest.1)
      ]
