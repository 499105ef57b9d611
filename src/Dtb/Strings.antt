-- ===== src/Dtb/Strings.antt =====
-- What `_is_device_compatible` of src/dtb.rs finds in a property that is a list of strings.
use mini_visor.Base.{
  same_bytes, ℕ, suc, ◌+◌, ◌-◌, ◌*◌, ◌≤◌, ◌<◌, ◌≡◌, ◌≢◌, ◌∙◌, refl, sym, ap, Bool, true, false,
  List, [], ◌∷◌, ◌++◌, length, ◌==◌, if◌then◌else◌, arith, Bool-cases, inl, inr, lt→ltb, le→ltb,
}
use mathlib.Core.Path.{subst}
use mini_visor.Dtb.{found, DtbProperty}
use mini_visor.Dtb.Property.{match_from, compatible_from, is_property_compatible}

-- No byte of a string ends it.
abbrev pub IsText : List ℕ → Type 0
IsText [] = Unit
IsText (b ∷ s) = (b ≢ 0) × IsText s

abbrev pub AllText : List (List ℕ) → Type 0
AllText [] = Unit
AllText (s ∷ strings) = IsText s × AllText strings

-- The number of bytes of the strings, each with its end.
abbrev pub stored_length : List (List ℕ) → ℕ
stored_length [] = 0
stored_length (s ∷ strings) = length s + 1 + stored_length strings

abbrev pub occurs : List ℕ → List (List ℕ) → Bool
occurs c [] = false
occurs c (s ∷ strings) = if same_bytes c s then true else occurs c strings

module _ (memory : ℕ → ℕ) where
  -- The string stands at an address, with its end.
  abbrev pub TextAt : ℕ → List ℕ → Type 0
  TextAt a [] = memory a ≡ 0
  TextAt a (b ∷ s) = (memory a ≡ b) × TextAt (a + 1) s

  abbrev pub TextsAt : ℕ → List (List ℕ) → Type 0
  TextsAt a [] = Unit
  TextsAt a (s ∷ strings) = TextAt a s × TextsAt (a + (length s + 1)) strings

  skip-end :
      (info : DtbProperty) (c : List ℕ) (p fuel : ℕ)
      → p < info.len
      → memory (info.address + p) ≡ 0
      → compatible_from memory (suc fuel) info c p true
        ≡ compatible_from memory fuel info c (p + 1) false
  unfolding compatible_from
  skip-end info c p fuel h at = ground arith

  skip-byte :
      (info : DtbProperty) (c : List ℕ) (p fuel : ℕ)
      → p < info.len
      → memory (info.address + p) ≢ 0
      → compatible_from memory (suc fuel) info c p true
        ≡ compatible_from memory fuel info c (p + 1) true
  unfolding compatible_from
  skip-byte info c p fuel h at = ground arith

  -- Skipping goes to the string behind this one.
  skip-string :
      (info : DtbProperty) (c s : List ℕ) (p fuel : ℕ)
      → IsText s
      → TextAt (info.address + p) s
      → p + length s < info.len
      → compatible_from memory (suc (length s + fuel)) info c p true
        ≡ compatible_from memory fuel info c (p + (length s + 1)) false
  skip-string info c [] p fuel text at h =
      ap (λ (n : ℕ). compatible_from memory n info c p true) (omega arith)
      ∙ skip-end info c p fuel (omega arith) at
  skip-string info c (b ∷ s) p fuel text at h =
      ap (λ (n : ℕ). compatible_from memory (suc n) info c p true) (omega arith)
      ∙ skip-byte info c p (suc (length s + fuel)) (omega arith) (λ e. text.0 (sym at.0 ∙ e))
      ∙ skip-string info c s (p + 1) fuel text.1
          (let e : info.address + p + 1 ≡ info.address + (p + 1) = omega arith in
            subst (λ a. TextAt a s) e at.1)
          (omega arith)
      ∙ ap (λ q. compatible_from memory fuel info c q false) (omega arith)

  -- Where the match of a name against a string stops: behind its end, or at a place `q` from which
  -- the rest `t` of the string stands.
  data MatchStops (address p : ℕ) (c s : List ℕ) : Type 0 where
    same :
        (q : ℕ)
        → same_bytes c s ≡ true
        → match_from memory address (c ++ 0 ∷ []) p ≡ (true, q)
        → MatchStops address p c s
    differs :
        (q : ℕ)
        → (t : List ℕ) → same_bytes c s ≡ false
        → match_from memory address (c ++ 0 ∷ []) p ≡ (false, q)
        → p ≤ q
        → IsText t
        → TextAt (address + q) t
        → q + length t ≡ p + length s
        → MatchStops address p c s

  match-byte :
      (address p x : ℕ) (expected : List ℕ)
      → memory (address + p) ≡ x
      → match_from memory address (x ∷ expected) p ≡ match_from memory address expected (p + 1)
  unfolding match_from
  match-byte address p x expected h = ground arith

  match-other :
      (address p x : ℕ) (expected : List ℕ)
      → memory (address + p) ≢ x
      → match_from memory address (x ∷ expected) p ≡ (false, p)
  unfolding match_from
  match-other address p x expected h = ground arith

  match-nothing : (address p : ℕ) → match_from memory address [] p ≡ (true, p)
  unfolding match_from
  match-nothing address p = refl

  text-next :
      (address p : ℕ) (s : List ℕ) → TextAt (address + p + 1) s → TextAt (address + (p + 1)) s
  text-next address p s at =
      let e : address + p + 1 ≡ address + (p + 1) = omega arith in subst (λ a. TextAt a s) e at

  match-string :
      (address p : ℕ) (c s : List ℕ)
      → IsText c
      → IsText s
      → TextAt (address + p) s
      → MatchStops address p c s
  match-string address p [] [] tc ts at =
      same (p + 1) refl (match-byte address p 0 [] at ∙ match-nothing address (p + 1))
  match-string address p [] (b ∷ s) tc ts at =
      differs p (b ∷ s) refl (match-other address p 0 [] (λ e. ts.0 (sym at.0 ∙ e))) (omega arith)
        ts at refl
  match-string address p (x ∷ c) [] tc ts at =
      differs p [] refl (match-other address p x (c ++ 0 ∷ []) (λ e. tc.0 (sym e ∙ at)))
        (omega arith) ts at refl
  match-string address p (x ∷ c) (b ∷ s) tc ts at = elim (Bool-cases (x == b)) [
    | inl e ↦
        let here : memory (address + p) ≡ x = ground arith in
        let step = match-byte address p x (c ++ 0 ∷ []) here in
        elim (match-string address (p + 1) c s tc.1 ts.1 (text-next address p s at.1)) [
          | same q eq m ↦ same q (rw (e, eq) refl) (step ∙ m)
          | differs q t ne m le text at' len ↦
              differs q t (rw (e, ne) refl) (step ∙ m) (omega arith) text at' (omega arith)
        ]
    | inr e ↦
        let other_byte : memory (address + p) ≢ x = ground arith in
        differs p (b ∷ s) (rw e refl) (match-other address p x (c ++ 0 ∷ []) other_byte)
          (omega arith) ts at refl
  ]

  found-here :
      (info : DtbProperty) (c : List ℕ) (p q fuel : ℕ)
      → p < info.len
      → match_from memory info.address (c ++ 0 ∷ []) p ≡ (true, q)
      → compatible_from memory (suc fuel) info c p false ≡ found true
  unfolding compatible_from
  found-here info c p q fuel h m = rw (lt→ltb p info.len h, m) refl

  goes-on :
      (info : DtbProperty) (c : List ℕ) (p q fuel : ℕ)
      → p < info.len
      → match_from memory info.address (c ++ 0 ∷ []) p ≡ (false, q)
      → compatible_from memory (suc fuel) info c p false ≡ compatible_from memory fuel info c q true
  unfolding compatible_from
  goes-on info c p q fuel h m = rw (lt→ltb p info.len h, m) refl

  at_end :
      (info : DtbProperty) (c : List ℕ) (fuel p : ℕ)
      → info.len ≤ p
      → compatible_from memory (suc fuel) info c p false ≡ found false
  unfolding compatible_from
  at_end info c fuel p h = rw (le→ltb p info.len h) refl

  compatible-from_strings :
      (info : DtbProperty) (c : List ℕ) (strings : List (List ℕ)) (p fuel : ℕ)
      → IsText c
      → AllText strings
      → TextsAt (info.address + p) strings
      → p + stored_length strings ≡ info.len
      → 2 * stored_length strings ≤ fuel
      → compatible_from memory (suc fuel) info c p false ≡ found (occurs c strings)
  compatible-from_strings info c [] p fuel tc ts at len h = at_end info c fuel p (omega arith)
  compatible-from_strings info c (s ∷ strings) p fuel tc ts at len h =
      elim (match-string info.address p c s tc ts.0 at.0) [
        | same q eq m ↦ rw eq (found-here info c p q fuel (omega arith) m)
        | differs q t ne m le text at' e ↦
            let left = fuel - length t - 2 in
            let count : fuel ≡ suc (length t + suc left) = omega arith in
            let place : q + (length t + 1) ≡ p + (length s + 1) = omega arith in
            let there : info.address + p + (length s + 1) ≡ info.address + (p + (length s + 1)) =
              omega arith in
            rw ne (
              goes-on info c p q fuel (omega arith) m
              ∙ ap (λ (n : ℕ). compatible_from memory n info c q true) count
              ∙ skip-string info c t q (suc left) text at' (omega arith)
              ∙ ap (λ (n : ℕ). compatible_from memory (suc left) info c n false) place
              ∙ compatible-from_strings info c strings (p + (length s + 1)) left tc ts.1
                  (subst (λ a. TextsAt a strings) there at.1) (omega arith) (omega arith))
      ]

-- If a property holds strings, each with its end, and fills its length with them, the search ends,
-- and answers whether the name is one of the strings, whole.
pub is_property_compatible_lem :
    (memory : ℕ → ℕ) (info : DtbProperty) (compatible : List ℕ) (strings : List (List ℕ))
    → IsText compatible
    → AllText strings
    → TextsAt memory info.address strings
    → stored_length strings ≡ info.len
    → is_property_compatible memory info compatible ≡ found (occurs compatible strings)
unfolding is_property_compatible
is_property_compatible_lem memory info compatible strings tc ts at len =
    let start : info.address ≡ info.address + 0 = omega arith in
    let count : 2 * info.len + 1 ≡ suc (2 * info.len) = omega arith in
    ap (λ (n : ℕ). compatible_from memory n info compatible 0 false) count
    ∙ compatible-from_strings memory info compatible strings 0 (2 * info.len) tc ts
        (subst (λ a. TextsAt memory a strings) start at) (omega arith) (omega arith)
