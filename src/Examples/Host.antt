-- ===== src/Examples/Host.antt =====
-- Examples for src/lock.rs, src/psci.rs and src/elf.rs.
use mini_visor.Base.{ℕ, ◌+◌, ◌≡◌, ◌≢◌, ◌⊎◌, refl, true, false, [], done, ◌>>=◌, arith}
use mini_visor.Lock.{
  Mutex, inside, put, waiting, seen_free, masked, disabled, call, load, mask, acquire, new,
  Reachable, start, next,
}
use mini_visor.Lock.Exclusion.{holds, MaskIs, mutual_exclusion, reachable-MaskIs}
use mini_visor.Psci.{PsciErrorCodes, ok, err, low, is_success, cpu_on}
use mini_visor.Psci.Answers.{cpu_on_lem}
use mini_visor.Elf.{Elf64Header, get_program_headers, items}
use mini_visor.Elf.Headers.{table, items-get_program_headers}

abbrev before : ℕ → ℕ
before c = 0x300

abbrev fresh : Mutex ℕ
fresh = new 7 before

abbrev called : Mutex ℕ
called = record fresh { phase = put fresh.phase 0 waiting }

abbrev loaded : Mutex ℕ
loaded = record called { phase = put called.phase 0 seen_free }

abbrev off : Mutex ℕ
off = record loaded {
  phase = put loaded.phase 0 (masked 0x300);
  daif = put loaded.daif 0 (disabled 0x300);
}

abbrev owned : Mutex ℕ
owned = record off { lock = true; phase = put off.phase 0 (inside 0x300) }

owned-Reachable : Reachable 7 before owned
owned-Reachable =
    next 0 off owned
      (next 0 loaded off
        (next 0 called loaded (next 0 fresh called start (call fresh refl)) (load called refl refl))
        (mask loaded refl))
      (acquire off 0x300 refl refl)

abbrev contended : Mutex ℕ
contended = record owned { phase = put owned.phase 1 waiting }

mutual_exclusion_example :
    (holds (owned.phase 1) ≡ false)
    × (owned.lock ≡ true)
    × (contended.data_cell ≡ owned.data_cell)
    × (contended.phase 0 ≡ inside 0x300)
mutual_exclusion_example =
    mutual_exclusion 7 before owned contended 0 1 0x300 owned-Reachable refl (λ e. omega arith)
      (call owned refl)

reachable-MaskIs_example : MaskIs (owned.phase 0) (before 0) (owned.daif 0)
reachable-MaskIs_example = reachable-MaskIs before 7 owned owned-Reachable 0

abbrev firmware : ℕ → ℕ → ℕ → ℕ → ℕ
firmware x0 x1 x2 x3 = 0x10001

cpu_on_lem_example :
    ((low (firmware 0xC4000003 1 0 0) ≡ 0) × (cpu_on firmware 1 0 0 ≡ ok tt))
    ⊎ ((low (firmware 0xC4000003 1 0 0) ≢ 0)
        × (code : PsciErrorCodes) × (cpu_on firmware 1 0 0 ≡ err code)
        × (is_success code ≡ false))
cpu_on_lem_example = cpu_on_lem firmware 1 0 0

abbrev zeros : ℕ → ℕ
zeros a = 0

abbrev image : Elf64Header
image = record {
  address = 0x1000;
  e_ident = [];
  e_type = 0;
  e_machine = 0;
  e_version = 1;
  e_entry = 0;
  e_phoff = 64;
  e_shoff = 0;
  e_flags = 0;
  e_ehsize = 64;
  e_phentsize = 56;
  e_phnum = 2;
  e_shentsize = 0;
  e_shnum = 0;
  e_shstrndx = 0;
}

items-get_program_headers_example :
    (do it ← get_program_headers zeros image; items zeros (image.e_phnum + 1) it)
    ≡ done (table zeros (image.address + image.e_phoff) image.e_phentsize image.e_phnum)
items-get_program_headers_example = items-get_program_headers zeros image (omega arith)
