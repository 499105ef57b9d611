-- ===== src/Fat32/Names.antt =====
-- The files of the root directory: `get_file_name` and `search_file` of src/fat32.rs. Whether bytes are
-- UTF-8 is for the core library, and a parameter; what `list_files` prints is not modelled.
use mini_visor.Base.{
  ℕ, zero, suc, ◌+◌, ◌*◌, ◌/◌, Bool, true, false, ◌&&◌, ◌||◌, Option, none, some, Outcome, done,
  ◌>>=◌, index, assign, List, [], ◌∷◌, Memory, read_bytes, bytes_at, same_bytes, replicate, take,
  map, bit_and, bit_or, ◌<<<◌, ◌==◌, leb, not, if◌then◌else◌,
}
use mini_visor.Fat32.{Fat32, FileInfo}

pub record DirectoryEntry : Type 0 where
  pub name : List ℕ
  pub name_extension : List ℕ
  pub attribute : ℕ
  pub starting_cluster_number_high : ℕ
  pub starting_cluster_number : ℕ
  pub file_length : ℕ

-- The entry in memory, of 32 bytes.
unfoldable pub entry_at : Memory → ℕ → DirectoryEntry
unfolding read_bytes
entry_at memory a = record {
  name = bytes_at memory a 8;
  name_extension = bytes_at memory (a + 8) 3;
  attribute = memory (a + 11);
  starting_cluster_number_high = read_bytes 2 memory (a + 20);
  starting_cluster_number = read_bytes 2 memory (a + 26);
  file_length = read_bytes 4 memory (a + 28);
}

-- `for n in .. { if *n == b' ' { continue; } p += 1; buffer[p] = *n; }`
unfoldable pub append_name : List ℕ → ℕ → List ℕ → Outcome (ℕ × List ℕ)
append_name [] p buffer = done (p, buffer)
append_name (n ∷ ns) p buffer = elim (n == b' ') [
  | true ↦ append_name ns p buffer
  | false ↦ (do buffer' ← assign buffer (p + 1) n; append_name ns (p + 1) buffer')
]

-- The bytes of the name, before they are read as UTF-8.
unfoldable pub name_bytes : List ℕ → List ℕ → Outcome (List ℕ)
unfolding append_name
name_bytes [] name_extension = Outcome.panic
name_bytes (c ∷ cs) name_extension = do
  buffer ← assign (replicate 12 0) 0 (if c == 0x05 then 0xE5 else c)
  (p, buffer₁) ← append_name cs 0 buffer
  buffer₂ ← assign buffer₁ (p + 1) b'.'
  (q, buffer₃) ← append_name name_extension (p + 1) buffer₂
  last ← index buffer₃ q
  done (take (if last == b'.' then q else q + 1) buffer₃)

unfoldable pub to_ascii_lowercase : ℕ → ℕ
to_ascii_lowercase c = if leb b'A' c && leb c b'Z' then c + 32 else c

-- What the loops over the directory do with an entry.
pub data Verdict : Type 0 where
  skip : Verdict
  stop : Verdict
  look : Verdict

unfoldable pub verdict : DirectoryEntry → Outcome Verdict
verdict e =
    if bit_and e.attribute 0x3F == 0x0F
    then done skip
    else if not (bit_and e.attribute 0x10 == 0)
    then done skip
    else do
      first ← index e.name 0
      done (if first == 0 then stop else if first == 0xE5 then skip else look)

module _ (is_utf8 : List ℕ → Bool) where
  unfoldable pub get_file_name : DirectoryEntry → Outcome (Option (List ℕ))
  unfolding name_bytes
  get_file_name e = do
    name ← name_bytes e.name e.name_extension
    done (if is_utf8 name then some name else none)

  -- The name or its lower case is the one that is looked for.
  unfoldable pub is_target : List ℕ → List ℕ → Bool
  unfolding to_ascii_lowercase
  is_target target_name file_name =
      same_bytes file_name target_name || same_bytes (map to_ascii_lowercase file_name) target_name

  -- The loop of `search_file`, with `left` entries to look at from `address` on.
  unfoldable pub search_from : ℕ → Memory → ℕ → List ℕ → Outcome (Option FileInfo)
  unfolding verdict get_file_name is_target entry_at
  search_from zero memory address target_name = done none
  search_from (suc left) memory address target_name = do
    let e : DirectoryEntry = entry_at memory address
    v ← verdict e
    elim v [
      | skip ↦ search_from left memory (address + 32) target_name
      | stop ↦ done none
      | look ↦ (do
        file_name ← get_file_name e
        elim file_name [
          | none ↦ search_from left memory (address + 32) target_name
          | some n ↦ elim (is_target target_name n) [
            | true ↦ done (
                some (record {
                  entry_cluster =
                      bit_or (e.starting_cluster_number_high <<< 16) e.starting_cluster_number;
                  file_size = e.file_length;
                }))
            | false ↦ search_from left memory (address + 32) target_name
          ]
        ])
    ]

  unfoldable pub search_file : Fat32 → Memory → List ℕ → Outcome (Option FileInfo)
  unfolding search_from
  search_file f memory target_name =
      search_from (f.bytes_per_sector * f.sectors_per_cluster / 32) memory f.root_directory_list
        target_name
