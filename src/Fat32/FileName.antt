-- ===== src/Fat32/FileName.antt =====
-- The name of a directory entry in src/fat32.rs: eight bytes and three, padded with spaces.
use mathlib.Core.List.{append-nil, append_assoc}
use mathlib.Core.Path.{subst}
use mini_visor.Base.{
  ℕ, zero, suc, ◌+◌, ◌<◌, ◌≤◌, ◌≡◌, refl, ap, sym, ◌∙◌, true, false, some, done, ◌>>=◌, index,
  assign, List, [], ◌∷◌, ◌++◌, length, length-append, length-set, set, get_elem?, take, take-set,
  replicate, ◌==◌, ltb, if◌then◌else◌, arith, Bool-cases, inl, inr,
}
use mini_visor.Fat32.Names.{append_name, name_bytes}

abbrev pub without_spaces : List ℕ → List ℕ
without_spaces [] = []
without_spaces (n ∷ ns) = if n == b' ' then without_spaces ns else n ∷ without_spaces ns

abbrev pub HasNoDot : List ℕ → Type 0
HasNoDot [] = Unit
HasNoDot (n ∷ ns) = ((n == b'.') ≡ false) × HasNoDot ns

-- The buffer of 12 bytes up to place `p` is `line`.
record Filled (buffer line : List ℕ) (p : ℕ) : Type 0 where
  is_buffer : length buffer ≡ 12
  is_line : take (suc p) buffer ≡ line
  is_place : length line ≡ suc p

assign-Filled :
    (buffer line : List ℕ) (p n : ℕ)
    → Filled buffer line p
    → length line < 12
    → (buffer' : List ℕ) × (assign buffer (p + 1) n ≡ done buffer')
      × Filled buffer' (line ++ n ∷ []) (p + 1)
assign-Filled buffer line p n filled lt =
    let size = filled.is_buffer in
    let place = filled.is_place in
    let next : p + 1 ≡ suc p = omega arith in
    let inside : ltb (p + 1) (length buffer) ≡ true = ground arith in
    (
      set buffer (p + 1) n,
      rw inside refl,
      record {
        is_buffer = length-set buffer (p + 1) n ∙ size;
        is_line =
            rw next
              (take-set buffer (suc p) n (omega arith) ∙ ap (λ l. l ++ n ∷ []) filled.is_line);
        is_place = omega (arith, length-append line (n ∷ []));
      },
    )

append_name-Filled :
    (ns : List ℕ) (buffer line : List ℕ) (p : ℕ)
    → Filled buffer line p
    → length line + length ns ≤ 12
    → (q : ℕ) × (buffer' : List ℕ) × (append_name ns p buffer ≡ done (q, buffer'))
      × Filled buffer' (line ++ without_spaces ns) q
      × (length (without_spaces ns) ≤ length ns)
unfolding append_name
append_name-Filled [] buffer line p filled le =
    (p, buffer, refl, subst (λ l. Filled buffer l p) (sym (append-nil line)) filled, omega arith)
append_name-Filled (n ∷ ns) buffer line p filled le = elim (Bool-cases (n == b' ')) [
  | inl space ↦
      let rest = append_name-Filled ns buffer line p filled (omega arith) in
      rw (space, append_name) (rest.0, rest.1, rest.2, rest.3, omega (arith, rest.4))
  | inr letter ↦
      let put = assign-Filled buffer line p n filled (omega arith) in
      let rest =
        append_name-Filled ns put.0 (line ++ n ∷ []) (p + 1) put.2
          (omega (arith, length-append line (n ∷ []))) in
      rw (letter, append_name)
        (
          rest.0,
          rest.1,
          ap (λ r. r >>= λ b. append_name ns (p + 1) b) put.1 ∙ rest.2,
          subst (λ l. Filled rest.1 l rest.0) (append_assoc line (n ∷ []) (without_spaces ns))
              rest.3,
          omega (arith, rest.4),
        )
]

take-last :
    (xs ys : List ℕ) (a q : ℕ)
    → take (suc q) xs ≡ ys ++ a ∷ []
    → length ys ≡ q
    → (get_elem? xs q ≡ some a) × (take q xs ≡ ys)
take-last [] [] a zero e l = ground arith
take-last [] [] a (suc q) e l = absurd (omega arith)
take-last [] (y ∷ ys) a q e l = ground arith
take-last (x ∷ xs) [] a zero e l = (let same : x ≡ a = cc in ap some same, refl)
take-last (x ∷ xs) [] a (suc q) e l = absurd (omega arith)
take-last (x ∷ xs) (y ∷ ys) a zero e l = absurd (omega arith)
take-last (x ∷ xs) (y ∷ ys) a (suc q) e l =
    let head : x ≡ y = cc in
    let tail : take (suc q) xs ≡ ys ++ a ∷ [] = cc in
    let rest = take-last xs ys a q tail (omega arith) in
    let kept : take q xs ≡ ys = rest.1 in (rest.0, cc)

-- A text without a dot ends in no dot.
last-HasNoDot :
    (n : ℕ) (ns : List ℕ)
    → HasNoDot (n ∷ ns)
    → (front : List ℕ) × (a : ℕ) × (n ∷ ns ≡ front ++ a ∷ []) × ((a == b'.') ≡ false)
last-HasNoDot n [] plain = ([], n, refl, plain.0)
last-HasNoDot n (m ∷ ns) plain =
    let rest = last-HasNoDot m ns plain.1 in
    (n ∷ rest.0, rest.1, ap (λ (l : List ℕ). n ∷ l) rest.2, rest.3)

without_spaces-HasNoDot : (ns : List ℕ) → HasNoDot ns → HasNoDot (without_spaces ns)
without_spaces-HasNoDot [] plain = tt
without_spaces-HasNoDot (n ∷ ns) plain = elim (Bool-cases (n == b' ')) [
  | inl space ↦ rw space (without_spaces-HasNoDot ns plain.1)
  | inr letter ↦ rw letter (plain.0, without_spaces-HasNoDot ns plain.1)
]

-- The name as it is read: a dot stands before an extension.
abbrev pub joined : List ℕ → List ℕ → List ℕ
joined base [] = base
joined base (n ∷ ns) = base ++ b'.' ∷ n ∷ ns

-- The end of `get_file_name`, where the last byte is known.
cut-last :
    (buffer front : List ℕ) (a q : ℕ)
    → take (suc q) buffer ≡ front ++ a ∷ []
    → length front ≡ q
    → (index buffer q >>= λ last. done (take (if last == b'.' then q else q + 1) buffer))
      ≡ done (if a == b'.' then front else front ++ a ∷ [])
cut-last buffer front a q e l =
    let last = take-last buffer front a q e l in
    let next : q + 1 ≡ suc q = omega arith in
    elim (Bool-cases (a == b'.')) [
      | inl dot ↦ rw (last.0, dot, last.1) refl
      | inr other ↦ rw (last.0, other, next, e) refl
    ]

cut-joined :
    (buffer base ending : List ℕ) (q : ℕ)
    → HasNoDot ending
    → Filled buffer (base ++ b'.' ∷ ending) q
    → (index buffer q >>= λ last. done (take (if last == b'.' then q else q + 1) buffer))
      ≡ done (joined base ending)
cut-joined buffer base [] q plain filled =
    let place = filled.is_place in
    cut-last buffer base b'.' q filled.is_line (omega (arith, length-append base (b'.' ∷ [])))
cut-joined buffer base (n ∷ ns) q plain filled =
    let place = filled.is_place in
    let snoc = last-HasNoDot n ns plain in
    let front : List ℕ = base ++ b'.' ∷ snoc.0 in
    let line : base ++ b'.' ∷ n ∷ ns ≡ front ++ snoc.1 ∷ [] =
      ap (λ l. base ++ b'.' ∷ l) snoc.2 ∙ sym (append_assoc base (b'.' ∷ snoc.0) (snoc.1 ∷ [])) in
    let other : (snoc.1 == b'.') ≡ false = snoc.3 in
    let cut =
      cut-last buffer front snoc.1 q (filled.is_line ∙ line)
        (omega (arith, ap length line, length-append front (snoc.1 ∷ []))) in
    cut ∙ rw other (ap done (sym line))

-- The name of an entry of eight and three bytes: a first byte of 5 stands for 0xE5, the spaces
-- behind it are left out, and a dot stands before the extension, if it has one. Nothing is
-- written past the buffer of 12 bytes. The extension has no dot of its own.
pub name_bytes_lem :
    (c : ℕ) (cs name_extension : List ℕ)
    → length cs ≡ 7
    → length name_extension ≡ 3
    → HasNoDot name_extension
    → name_bytes (c ∷ cs) name_extension
      ≡ done (
          joined ((if c == 5 then 0xE5 else c) ∷ without_spaces cs) (without_spaces name_extension))
unfolding name_bytes
name_bytes_lem c cs name_extension seven three plain =
    let first : ℕ = if c == 5 then 0xE5 else c in
    let start : Filled (first ∷ replicate 11 0) (first ∷ []) 0 = record {
      is_buffer = refl;
      is_line = refl;
      is_place = refl;
    } in
    let name = append_name-Filled cs (first ∷ replicate 11 0) (first ∷ []) 0 start (omega arith) in
    let base : List ℕ = first ∷ without_spaces cs in
    let dot = assign-Filled name.1 base name.0 b'.' name.3 (omega (arith, name.4)) in
    let ending =
      append_name-Filled name_extension dot.0 (base ++ b'.' ∷ []) (name.0 + 1) dot.2
        (omega (arith, length-append base (b'.' ∷ []), name.4)) in
    let filled : Filled ending.1 (base ++ b'.' ∷ without_spaces name_extension) ending.0 =
      subst (λ l. Filled ending.1 l ending.0)
        (append_assoc base (b'.' ∷ []) (without_spaces name_extension)) ending.3 in
    rw (name.2, dot.1, ending.2, name_bytes, ◌>>=◌)
      (cut-joined ending.1 base (without_spaces name_extension) ending.0
        (without_spaces-HasNoDot name_extension plain) filled)
