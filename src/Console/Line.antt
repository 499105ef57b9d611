-- ===== src/Console/Line.antt =====
-- The line that the operator types in src/console.rs: the buffer holds its first 64 bytes.
use mini_visor.Base.{
  ℕ, zero, suc, ◌+◌, ◌<◌, ◌≤◌, ◌≡◌, refl, ap, sym, ◌∙◌, Bool, true, false, not, ◌&&◌, ◌||◌, Outcome,
  done, panic, out_of_fuel, ◌>>=◌, List, [], ◌∷◌, ◌++◌, length, set, assign, length-set,
  length-append, take, take-nil, take-set, ◌==◌, if◌then◌else◌, arith, Bool-cases, inl, inr,
}
use mathlib.Core.List.{append-nil, append_assoc}
use mathlib.Core.Path.{subst}
use mini_visor.Allocator.{MemoryAllocator}
use mini_visor.Console.{Console, Host, buffer_size, reset_buffer}
use mini_visor.Console.Commands.{exec_words}
use mini_visor.Console.Input.{
  carriage_return, line_feed, is_ascii_control, put_byte, exec_command, write,
}

-- The buffer has its 64 bytes, and `line` is what was typed of the line so far.
pub record Holds (c : Console) (line : List ℕ) : Type 0 where
  pub is_buffer : length c.buffer ≡ buffer_size
  pub is_pointer : c.buffer_pointer ≡ length line
  pub is_short : length line ≤ buffer_size
  pub is_line : take c.buffer_pointer c.buffer ≡ line

-- A byte that is shown: no control character.
abbrev pub IsShown : ℕ → Type 0
IsShown byte = is_ascii_control byte ≡ false

put_byte-Holds :
    (c : Console) (line : List ℕ) (byte : ℕ)
    → Holds c line
    → IsShown byte
    → length line < buffer_size
    → (c' : Console) × (put_byte byte c ≡ done c')
      × Holds c' (line ++ byte ∷ [])
      × (c'.ignore_lf ≡ c.ignore_lf)
unfolding put_byte
put_byte-Holds c line byte holds shown lt =
    let at = holds.is_pointer in
    let size = holds.is_buffer in
    let room : (is_ascii_control byte || c.buffer_pointer == buffer_size) ≡ false = ground arith in
    let stored : assign c.buffer c.buffer_pointer byte ≡ done (set c.buffer c.buffer_pointer byte) =
      ground arith in
    let next : c.buffer_pointer + 1 ≡ suc c.buffer_pointer = omega arith in
    (
      record c {
        buffer = set c.buffer c.buffer_pointer byte;
        buffer_pointer = c.buffer_pointer + 1;
      },
      rw (room, stored, put_byte, ◌>>=◌) refl,
      record {
        is_buffer = length-set c.buffer c.buffer_pointer byte ∙ size;
        is_pointer = omega (arith, length-append line (byte ∷ []));
        is_short = omega (arith, length-append line (byte ∷ []));
        is_line = rw next (
            take-set c.buffer c.buffer_pointer byte (omega arith)
            ∙ ap (λ l. l ++ byte ∷ []) holds.is_line);
      },
      refl,
    )

put_byte-full :
    (c : Console) (line : List ℕ) (byte : ℕ)
    → Holds c line
    → length line ≡ buffer_size
    → put_byte byte c ≡ done c
unfolding put_byte
put_byte-full c line byte holds full =
    let at = holds.is_pointer in
    let is_full : (is_ascii_control byte || c.buffer_pointer == buffer_size) ≡ true =
      elim (Bool-cases (is_ascii_control byte)) [
        | inl control ↦ rw control refl
        | inr other ↦ rw other (ground arith)
      ] in
    rw (is_full, put_byte) refl

abbrev pub AreShown : List ℕ → Type 0
AreShown [] = Unit
AreShown (byte ∷ bytes) = IsShown byte × AreShown bytes

module _ {A : Type 0} where
  bind_done : (m : Outcome A) → (m >>= λ a. done a) ≡ m
  bind_done (done a) = refl
  bind_done panic = refl
  bind_done out_of_fuel = refl

  bind_assoc :
      {f : A → Outcome A} (g k : A → Outcome A) (m : Outcome A)
      → ((a : A) → f a ≡ (g a >>= k))
      → (m >>= f) ≡ (m >>= g >>= k)
  bind_assoc g k (done a) e = e a
  bind_assoc g k panic e = refl
  bind_assoc g k out_of_fuel e = refl

module _ {S : Type 0} (launch_cpu : MemoryAllocator → Outcome (Bool × MemoryAllocator))
    (is_utf8 : List ℕ → Bool) (split_whitespace : List ℕ → List (List ℕ)) where
  -- The bytes of the operator, one after the other.
  unfoldable pub write_each : List ℕ → Host S → Outcome (Host S)
  write_each [] h = done h
  write_each (byte ∷ bytes) h =
      write launch_cpu is_utf8 split_whitespace byte h >>= write_each bytes

  write-IsShown :
      (byte : ℕ) (h : Host S) (c : Console)
      → IsShown byte
      → put_byte byte h.console ≡ done c
      → write launch_cpu is_utf8 split_whitespace byte h ≡ done (record h { console = c })
  unfolding write
  write-IsShown byte h c shown e =
      let no_cr : (byte == carriage_return) ≡ false = ground arith in
      let no_lf : (byte == line_feed) ≡ false = ground arith in
      let inside : (byte == carriage_return || (byte == line_feed && not h.console.ignore_lf))
          ≡ false =
        rw (no_cr, no_lf) refl in
      rw (inside, e, write, ◌>>=◌) refl

  -- The line grows by what fits.
  write_each-Holds :
      (bytes line : List ℕ) (room : ℕ) (h : Host S)
      → length line + room ≡ buffer_size
      → Holds h.console line
      → AreShown bytes
      → (c : Console) × (write_each bytes h ≡ done (record h { console = c }))
        × Holds c (line ++ take room bytes)
  unfolding write_each
  write_each-Holds [] line room h fits holds shown = (
    h.console,
    refl,
    subst (Holds h.console) (sym (ap (λ l. line ++ l) (take-nil room) ∙ append-nil line)) holds,
  )
  write_each-Holds (byte ∷ bytes) line zero h fits holds shown =
      let full : put_byte byte h.console ≡ done h.console =
        put_byte-full h.console line byte holds (omega arith) in
      let rest = write_each-Holds bytes line zero h fits holds shown.1 in
      (
        rest.0,
        ap (λ r. r >>= write_each bytes) (write-IsShown byte h h.console shown.0 full) ∙ rest.1,
        rest.2,
      )
  write_each-Holds (byte ∷ bytes) line (suc room) h fits holds shown =
      let put = put_byte-Holds h.console line byte holds shown.0 (omega arith) in
      let rest =
        write_each-Holds bytes (line ++ byte ∷ []) room (record h { console = put.0 })
          (omega (arith, length-append line (byte ∷ []))) put.2 shown.1 in
      (
        rest.0,
        ap (λ r. r >>= write_each bytes) (write-IsShown byte h put.0 shown.0 put.1) ∙ rest.1,
        subst (Holds rest.0) (append_assoc line (byte ∷ []) (take room bytes)) rest.2,
      )

  write_each-append :
      (bytes : List ℕ) (byte : ℕ) (h : Host S)
      → write_each (bytes ++ byte ∷ []) h
        ≡ (write_each bytes h >>= write launch_cpu is_utf8 split_whitespace byte)
  unfolding write_each
  write_each-append [] byte h = bind_done (write launch_cpu is_utf8 split_whitespace byte h)
  write_each-append (b ∷ bytes) byte h =
      bind_assoc (write_each bytes) (write launch_cpu is_utf8 split_whitespace byte)
        (write launch_cpu is_utf8 split_whitespace b h) (λ h'. write_each-append bytes byte h')

  write-Holds :
      (h : Host S) (line : List ℕ)
      → Holds h.console line
      → let c = record h.console { ignore_lf = true } in
        write launch_cpu is_utf8 split_whitespace carriage_return h ≡ (
          if length line == 0
          then done (record h { console = reset_buffer c })
          else if is_utf8 line
          then exec_words launch_cpu (split_whitespace line) (record h { console = c })
          else done (record h { console = reset_buffer c }))
  unfolding write exec_command
  write-Holds h line holds = rw (write, exec_command, holds.is_line, holds.is_pointer) refl

  -- A line of shown bytes that is typed into an empty console and ended by a carriage return is
  -- executed: the words of its first 64 bytes, with all else as it was. A line that is empty,
  -- or is not UTF-8, only empties the buffer.
  pub write_each-executes :
      (bytes : List ℕ) (h : Host S)
      → length h.console.buffer ≡ buffer_size
      → h.console.buffer_pointer ≡ 0
      → AreShown bytes
      → let line = take buffer_size bytes in
        (c : Console) × Holds c line
        × (write_each (bytes ++ carriage_return ∷ []) h ≡ (
            if length line == 0
            then done (record h { console = reset_buffer c })
            else if is_utf8 line
            then exec_words launch_cpu (split_whitespace line) (record h { console = c })
            else done (record h { console = reset_buffer c })))
  unfolding write exec_command
  write_each-executes bytes h size empty shown =
      let start : Holds h.console [] = record {
        is_buffer = size;
        is_pointer = empty;
        is_short = omega arith;
        is_line = rw empty refl;
      } in
      let typed = write_each-Holds bytes [] 64 h (omega arith) start shown in
      (
        record typed.0 { ignore_lf = true },
        record {
          is_buffer = typed.2.is_buffer;
          is_pointer = typed.2.is_pointer;
          is_short = typed.2.is_short;
          is_line = typed.2.is_line;
        },
        write_each-append bytes carriage_return h
            ∙ ap (λ r. r >>= write launch_cpu is_utf8 split_whitespace carriage_return) typed.1
            ∙ write-Holds (record h { console = typed.0 }) (take buffer_size bytes) typed.2,
      )
