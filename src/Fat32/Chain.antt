-- ===== src/Fat32/Chain.antt =====
-- What src/fat32.rs says of a file: where its bytes are on the device. The clusters of a file follow
-- one another in the table, and an extent is a part of them that also follows on the device.
use mini_visor.Base.{
  ℕ, zero, suc, ◌+◌, ◌-◌, ◌*◌, ◌/◌, ◌%◌, ◌≤◌, ◌<◌, ◌≡◌, refl, ap, Option, none, some, Memory,
  Option-cases, ◌∙◌, inl, inr, arith,
}
use native.Mathlib.Nat.{
  div-add-mod', div-lt_iff_lt-mul, mul-add-div_right, mul-add-mod_self_right, mul_assoc, add-mul,
}
use mini_visor.Fat32.Read.{bytes_per_cluster}
use mini_visor.Fat32.{Fat32, get_next_cluster, skip_clusters}

-- The first sector of a cluster, and its first byte on the device.
abbrev pub cluster_sector : Fat32 → ℕ → ℕ
cluster_sector f cluster =
    f.reserved_sectors + f.number_of_fats * f.fat_sectors + (cluster - 2) * f.sectors_per_cluster

abbrev pub cluster_address : Fat32 → ℕ → ℕ
cluster_address f cluster = f.base_lba * f.lba_size + cluster_sector f cluster * f.bytes_per_sector

-- Where byte `i` of the file that starts at `entry` is on the device.
unfoldable pub byte_address : Fat32 → Memory → ℕ → ℕ → Option ℕ
unfolding skip_clusters
byte_address f memory entry i = elim (skip_clusters (i / bytes_per_cluster f) f memory entry) [
  | none ↦ none
  | some cluster ↦ some (cluster_address f cluster + i % bytes_per_cluster f)
]

-- The clusters from `c` to `c + n` are one after the other in the table.
unfoldable pub IsConsecutive : Fat32 → Memory → ℕ → ℕ → Type 0
IsConsecutive f memory c n = (i : ℕ) → i < n → get_next_cluster f memory (c + i) ≡ some (c + suc i)

pub skip_clusters-add :
    (k j : ℕ) (f : Fat32) (memory : Memory) (entry c : ℕ)
    → skip_clusters k f memory entry ≡ some c
    → skip_clusters (k + j) f memory entry ≡ skip_clusters j f memory c
unfolding skip_clusters
skip_clusters-add zero j f memory entry c e =
    let shift : 0 + j ≡ j = omega arith in let same : entry ≡ c = cc in rw (shift, same) refl
skip_clusters-add (suc k) j f memory entry c e =
    let shift : suc k + j ≡ suc (k + j) = omega arith in
    elim (Option-cases (get_next_cluster f memory entry)) [
      | inl absent ↦
          (let none_some : Option.none ≡ some c = rw (absent, skip_clusters) at e in ground arith)
      | inr (next, found) ↦
          (let e' : skip_clusters k f memory next ≡ some c = rw (found, skip_clusters) at e in
            rw (shift, found, skip_clusters) (skip_clusters-add k j f memory next c e'))
    ]

IsConsecutive-suc :
    (n : ℕ) (f : Fat32) (memory : Memory) (c : ℕ)
    → IsConsecutive f memory c n
    → IsConsecutive f memory (c + 1) (n - 1)
unfolding IsConsecutive
IsConsecutive-suc n f memory c follows i lt =
    let left : c + suc i ≡ c + 1 + i = omega arith in
    let right : c + suc (suc i) ≡ c + 1 + suc i = omega arith in
    rw (left, right) at (follows (suc i) (omega arith))

pub skip_clusters-IsConsecutive :
    (j n : ℕ) (f : Fat32) (memory : Memory) (c : ℕ)
    → IsConsecutive f memory c n
    → j ≤ n
    → skip_clusters j f memory c ≡ some (c + j)
unfolding skip_clusters IsConsecutive
skip_clusters-IsConsecutive zero n f memory c follows le = ap some (omega arith)
skip_clusters-IsConsecutive (suc j) n f memory c follows le =
    let shift : c + suc 0 + j ≡ c + suc j = omega arith in
    let first : get_next_cluster f memory (c + 0) ≡ some (c + suc 0) = follows 0 (omega arith) in
    let here : c + 0 ≡ c = omega arith in
    let first' : get_next_cluster f memory c ≡ some (c + suc 0) = rw here at first in
    rw (first', skip_clusters)
      (skip_clusters-IsConsecutive j (n - 1) f memory (c + suc 0)
          (IsConsecutive-suc n f memory c follows) (omega arith)
        ∙ ap some shift)

-- A cluster takes up its size on the device.
pub cluster_address-add :
    (f : Fat32) (c q : ℕ)
    → 2 ≤ c
    → cluster_address f (c + q) ≡ cluster_address f c + q * bytes_per_cluster f
cluster_address-add f c q le =
    let index : c + q - 2 ≡ (c - 2) + q = omega arith in
    let sectors : cluster_sector f (c + q) ≡ cluster_sector f c + q * f.sectors_per_cluster =
      omega (
        arith,
        ap (λ x. x * f.sectors_per_cluster) index,
        add-mul (c - 2) q f.sectors_per_cluster,
      ) in
    let bytes : cluster_sector f (c + q) * f.bytes_per_sector
        ≡ (cluster_sector f c + q * f.sectors_per_cluster) * f.bytes_per_sector =
      ap (λ x. x * f.bytes_per_sector) sectors in
    omega (
      arith,
      bytes,
      add-mul (cluster_sector f c) (q * f.sectors_per_cluster) f.bytes_per_sector,
      mul_assoc q f.sectors_per_cluster f.bytes_per_sector,
    )

byte_address-at :
    (f : Fat32) (memory : Memory) (entry i c : ℕ)
    → skip_clusters (i / bytes_per_cluster f) f memory entry ≡ some c
    → byte_address f memory entry i ≡ some (cluster_address f c + i % bytes_per_cluster f)
unfolding byte_address
byte_address-at f memory entry i c e = rw (e, byte_address) refl

pub byte_address-IsConsecutive :
    (f : Fat32) (memory : Memory) (entry k c n i : ℕ)
    → 0 < bytes_per_cluster f
    → 2 ≤ c
    → skip_clusters k f memory entry ≡ some c
    → IsConsecutive f memory c n
    → i < suc n * bytes_per_cluster f
    → byte_address f memory entry (k * bytes_per_cluster f + i) ≡ some (cluster_address f c + i)
unfolding byte_address
byte_address-IsConsecutive f memory entry k c n i size_pos c_ge start follows i_lt =
    let q_le : i / bytes_per_cluster f ≤ n =
      let lt : i / bytes_per_cluster f < suc n = (div-lt_iff_lt-mul size_pos).1 i_lt in
      omega arith in
    let quotient : (k * bytes_per_cluster f + i) / bytes_per_cluster f
        ≡ k + i / bytes_per_cluster f =
      omega (arith, mul-add-div_right size_pos k i) in
    let modulo : (k * bytes_per_cluster f + i) % bytes_per_cluster f ≡ i % bytes_per_cluster f =
      mul-add-mod_self_right k (bytes_per_cluster f) i in
    let skipped : skip_clusters (k + i / bytes_per_cluster f) f memory entry
        ≡ some (c + i / bytes_per_cluster f) =
      skip_clusters-add k (i / bytes_per_cluster f) f memory entry c start
      ∙ skip_clusters-IsConsecutive (i / bytes_per_cluster f) n f memory c follows q_le in
    let reached : skip_clusters ((k * bytes_per_cluster f + i) / bytes_per_cluster f) f memory entry
        ≡ some (c + i / bytes_per_cluster f) =
      ap (λ q. skip_clusters q f memory entry) quotient ∙ skipped in
    let position : cluster_address f (c + i / bytes_per_cluster f)
          + (k * bytes_per_cluster f + i) % bytes_per_cluster f
        ≡ cluster_address f c + i =
      omega (
        arith,
        modulo,
        cluster_address-add f c (i / bytes_per_cluster f) c_ge,
        div-add-mod' i (bytes_per_cluster f),
      ) in
    byte_address-at f memory entry (k * bytes_per_cluster f + i) (c + i / bytes_per_cluster f)
      reached
    ∙ ap some position
