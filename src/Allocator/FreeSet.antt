-- ===== src/Allocator/FreeSet.antt =====
-- The free memory that the pool of src/memory_allocator.rs stands for, as a set of addresses.
use mini_visor.Base.{
  ℕ, ◌+◌, ◌^◌, ◌<◌, ◌≤◌, ◌≡◌, ◌≢◌, ◌∙◌, sym, ap, Bool, true, false, ◌⊎◌, inl, inr, arith, ◌==◌,
  Bool-cases,
}
use mathlib.Core.Path.{subst}
use mini_visor.Allocator.Ranges.{Core}

abbrev pub Cores : Type 0
Cores = ℕ → Core

abbrev start_of : Core → ℕ
start_of c = c.start

abbrev end_of : Core → ℕ
end_of c = c.end

abbrev enabled_of : Core → Bool
enabled_of c = c.enabled

-- An enabled entry holds the address.
abbrev pub IsFreeCore : Core → ℕ → Type 0
IsFreeCore c a = (c.enabled ≡ true) × (c.start ≤ a) × (a ≤ c.end)

abbrev pub IsFreeIn : Cores → ℕ → ℕ → Type 0
IsFreeIn cs a i = IsFreeCore (cs i) a

abbrev pub IsFree : Cores → ℕ → Type 0
IsFree cs a = (i : ℕ) × IsFreeIn cs a i

-- Two enabled entries do not overlap.
abbrev pub AreDisjoint : Cores → Type 0
AreDisjoint cs =
    (i j : ℕ)
    → (cs i).enabled ≡ true
    → (cs j).enabled ≡ true
    → i ≢ j
    → ((cs i).end < (cs j).start) ⊎ ((cs j).end < (cs i).start)

-- An enabled entry holds an address, all that it holds are words, and its size is one.
abbrev pub AreProper : Cores → Type 0
AreProper cs =
    (i : ℕ)
    → (cs i).enabled ≡ true
    → ((cs i).start ≤ (cs i).end) × ((cs i).end < 2 ^ 64) × ((cs i).end + 1 < 2 ^ 64 + (cs i).start)

abbrev pub Outside : ℕ → ℕ → ℕ → Type 0
Outside lo hi a = (a < lo) ⊎ (hi < a)

-- The addresses from `lo` to `hi` are not free any more, and nothing else has changed.
pub record Removed (cs : Cores) (lo hi : ℕ) (cs' : Cores) : Type 0 where
  pub disjoint : AreDisjoint cs'
  pub proper : AreProper cs'
  pub was_free : (a : ℕ) → IsFree cs' a → IsFree cs a × Outside lo hi a
  pub stays_free : (a : ℕ) → IsFree cs a → Outside lo hi a → IsFree cs' a

-- Entry `i` holds the range.
abbrev pub HoldsRange : Cores → ℕ → ℕ → ℕ → Type 0
HoldsRange cs i lo hi =
    ((cs i).enabled ≡ true) × ((cs i).start ≤ lo) × (hi ≤ (cs i).end) × (lo ≤ hi)

-- An entry other than that of the range holds none of it.
Outside-other :
    (cs : Cores) (i j lo hi a : ℕ)
    → AreDisjoint cs
    → HoldsRange cs i lo hi
    → j ≢ i
    → IsFreeIn cs a j
    → Outside lo hi a
Outside-other cs i j lo hi a d h ne f = elim (d j i f.0 h.0 ne) [
  | inl below ↦ inl (omega arith)
  | inr above ↦ inr (omega arith)
]

-- What an entry holds now is a part of what entry `i` held, and none of the range.
abbrev pub IsPart : Cores → ℕ → ℕ → ℕ → Core → Type 0
IsPart cs i lo hi c =
    ((cs i).start ≤ c.start) × (c.end ≤ (cs i).end) × ((c.end < lo) ⊎ (hi < c.start))

-- The entries `i` and `n`, the second a new one unless it is `i`, hold what `i` held outside of the
-- range.
pub record Carves (cs : Cores) (i lo hi n : ℕ) (cs' : Cores) : Type 0 where
  pub others : (j : ℕ) → j ≢ i → j ≢ n → cs' j ≡ cs j
  pub fresh : n ≢ i → (cs n).enabled ≡ false
  pub lower : (cs' i).enabled ≡ true → IsPart cs i lo hi (cs' i)
  pub upper : (cs' n).enabled ≡ true → IsPart cs i lo hi (cs' n)
  pub proper : (j : ℕ) → (j ≡ i) ⊎ (j ≡ n) → (cs' j).enabled ≡ true → (cs' j).start ≤ (cs' j).end
  pub apart : n ≢ i → (cs' i).end < (cs' n).start
  pub stays : (a : ℕ) → IsFreeIn cs a i → Outside lo hi a → IsFreeIn cs' a i ⊎ IsFreeIn cs' a n

module _ (cs cs' : Cores) (i lo hi n : ℕ) (c : Carves cs i lo hi n cs') where
  -- An enabled entry is as it was, or one of the two.
  data Kind (j : ℕ) : Type 0 where
    untouched : j ≢ i → j ≢ n → cs' j ≡ cs j → Kind j
    part : ((j ≡ i) ⊎ (j ≡ n)) → IsPart cs i lo hi (cs' j) → Kind j

  kind : (j : ℕ) → (cs' j).enabled ≡ true → Kind j
  kind j e = elim (Bool-cases (j == i)) [
    | inl same ↦
        let at : i ≡ j = ground arith in
        part (inl (sym at))
          (subst (λ (k : ℕ). (cs' k).enabled ≡ true → IsPart cs i lo hi (cs' k)) at c.lower e)
    | inr other ↦ elim (Bool-cases (j == n)) [
      | inl same ↦
          let at : n ≡ j = ground arith in
          part (inr (sym at))
            (subst (λ (k : ℕ). (cs' k).enabled ≡ true → IsPart cs i lo hi (cs' k)) at c.upper e)
      | inr other' ↦
          let ne : j ≢ i = ground arith in
          let ne' : j ≢ n = ground arith in untouched ne ne' (c.others j ne ne')
    ]
  ]

  -- An entry that is as it was does not meet a part of entry `i`.
  meets-no_part :
      (j k : ℕ)
      → AreDisjoint cs
      → (cs i).enabled ≡ true
      → (cs' j).enabled ≡ true
      → j ≢ i
      → cs' j ≡ cs j
      → IsPart cs i lo hi (cs' k)
      → ((cs' j).end < (cs' k).start) ⊎ ((cs' k).end < (cs' j).start)
  meets-no_part j k d on e ne same p = elim (d j i (ap enabled_of (sym same) ∙ e) on ne) [
    | inl below ↦ inl (omega (arith, ap end_of same))
    | inr above ↦ inr (omega (arith, ap start_of same))
  ]

  parts-apart :
      (j k : ℕ)
      → j ≢ k
      → (j ≡ i) ⊎ (j ≡ n)
      → (k ≡ i) ⊎ (k ≡ n)
      → ((cs' j).end < (cs' k).start) ⊎ ((cs' k).end < (cs' j).start)
  parts-apart j k ne (inl ji) (inl ki) = absurd (ne (ji ∙ sym ki))
  parts-apart j k ne (inl ji) (inr kn) =
      let lt = c.apart (λ e. ne (ji ∙ sym e ∙ sym kn)) in
      inl (omega (arith, lt, ap (λ (x : ℕ). (cs' x).end) ji, ap (λ (x : ℕ). (cs' x).start) kn))
  parts-apart j k ne (inr jn) (inl ki) =
      let lt = c.apart (λ e. ne (jn ∙ e ∙ sym ki)) in
      inr (omega (arith, lt, ap (λ (x : ℕ). (cs' x).end) ki, ap (λ (x : ℕ). (cs' x).start) jn))
  parts-apart j k ne (inr jn) (inr kn) = absurd (ne (jn ∙ sym kn))

  Carves-disjoint : AreDisjoint cs → (cs i).enabled ≡ true → AreDisjoint cs'
  Carves-disjoint d on j k e f ne = go (kind j e) (kind k f)
    where
      swap :
          ((cs' k).end < (cs' j).start) ⊎ ((cs' j).end < (cs' k).start)
          → ((cs' j).end < (cs' k).start) ⊎ ((cs' k).end < (cs' j).start)
      swap (inl h) = inr h
      swap (inr h) = inl h

      go : Kind j → Kind k → ((cs' j).end < (cs' k).start) ⊎ ((cs' k).end < (cs' j).start)
      go (untouched a b same) (untouched a' b' same') =
          elim (d j k (ap enabled_of (sym same) ∙ e) (ap enabled_of (sym same') ∙ f) ne) [
            | inl h ↦ inl (omega (arith, ap end_of same, ap start_of same'))
            | inr h ↦ inr (omega (arith, ap end_of same', ap start_of same))
          ]
      go (untouched a b same) (part w p) = meets-no_part j k d on e a same p
      go (part w p) (untouched a b same) = swap (meets-no_part k j d on f a same p)
      go (part w p) (part w' p') = parts-apart j k ne w w'

  Carves-proper : AreProper cs → (cs i).enabled ≡ true → AreProper cs'
  Carves-proper before on j e = elim (kind j e) [
    | untouched ne ne' same ↦
        let old = before j (ap enabled_of (sym same) ∙ e) in
        (
          omega (arith, old.0, ap start_of same, ap end_of same),
          omega (arith, old.1, ap end_of same),
          omega (arith, old.2, ap start_of same, ap end_of same),
        )
    | part w p ↦ (
      c.proper j w e,
      omega (arith, p.1, (before i on).1),
      omega (arith, c.proper j w e, p, before i on),
    )
  ]

  -- Carving the range out of an entry that holds it removes the range from the free memory.
  pub Carves-Removed : AreDisjoint cs → AreProper cs → HoldsRange cs i lo hi → Removed cs lo hi cs'
  Carves-Removed d w h = record {
    disjoint = Carves-disjoint d h.0;
    proper = Carves-proper w h.0;
    was_free = λ a f. was a f.0 f.1 (kind f.0 f.1.0);
    stays_free = λ a f out. stay a f.0 f.1 out;
  }
    where
      part-Outside : {a j : ℕ} → IsPart cs i lo hi (cs' j) → IsFreeIn cs' a j → Outside lo hi a
      part-Outside p f = elim p.2 [ inl below ↦ inl (omega arith) | inr above ↦ inr (omega arith) ]

      held : (a : ℕ) → IsFreeIn cs' a i ⊎ IsFreeIn cs' a n → IsFree cs' a
      held a (inl f) = (i, f)
      held a (inr f) = (n, f)

      was : (a j : ℕ) → IsFreeIn cs' a j → Kind j → IsFree cs a × Outside lo hi a
      was a j f (untouched ne ne' same) =
          let before : IsFreeIn cs a j = subst (λ (x : Core). IsFreeCore x a) same f in
          ((j, before), Outside-other cs i j lo hi a d h ne before)
      was a j f (part w p) = ((i, (h.0, omega arith, omega arith)), part-Outside p f)

      stay : (a j : ℕ) → IsFreeIn cs a j → Outside lo hi a → IsFree cs' a
      stay a j f out = elim (Bool-cases (j == i)) [
        | inl same ↦
            let at : j ≡ i = ground arith in
            held a (c.stays a (subst (λ (k : ℕ). IsFreeIn cs a k) at f) out)
        | inr other ↦ elim (Bool-cases (j == n)) [
          | inl same ↦
              let at : j ≡ n = ground arith in
              let ne : n ≢ i = ground arith in
              let on : (cs n).enabled ≡ true = ap (λ (k : ℕ). (cs k).enabled) (sym at) ∙ f.0 in
              let bad : true ≡ false = sym on ∙ c.fresh ne in absurd cc
          | inr other' ↦
              let ne : j ≢ i = ground arith in
              let ne' : j ≢ n = ground arith in
              (j, subst (λ (x : Core). IsFreeCore x a) (sym (c.others j ne ne')) f)
        ]
      ]
