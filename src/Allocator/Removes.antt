-- ===== src/Allocator/Removes.antt =====
-- The changes that src/memory_allocator.rs makes to take a range out of an entry, as carvings.
use mathlib.Core.Path.{subst}
use mini_visor.Base.{
  ℕ, ◌+◌, ◌<◌, ◌≤◌, ◌≡◌, ◌≢◌, ◌∙◌, refl, sym, ap, true, false, inl, inr, arith, leb, length,
  Bool-cases,
}
use mini_visor.Allocator.{Pool, add, sub, entry_at, pool_size, get_end_address}
use mini_visor.Allocator.Ranges.{
  Core, core, KeepsRanges, Gives, gives, panics, Gives-bind, Gives-mono, Gives-if,
}
use mini_visor.Allocator.Entries.{CoreAt, Created}
use mini_visor.Allocator.FreeSet.{
  Cores, IsFreeIn, IsFreeCore, AreDisjoint, AreProper, Outside, HoldsRange, IsPart, Carves,
}

abbrev pub cores : Pool → Cores
cores p i = core (entry_at p i)

-- The pool has its 64 entries, and the enabled ones do not overlap.
pub record IsPool (p : Pool) : Type 0 where
  pub full : length p ≡ pool_size
  pub disjoint : AreDisjoint (cores p)
  pub proper : AreProper (cores p)

pub CoreAt-Carves :
    (p q : Pool) (i lo hi : ℕ) (c : Core)
    → CoreAt p i c q
    → (c.enabled ≡ true → IsPart (cores p) i lo hi c × (c.start ≤ c.end))
    → ((a : ℕ) → IsFreeIn (cores p) a i → Outside lo hi a → IsFreeCore c a)
    → Carves (cores p) i lo hi i (cores q)
CoreAt-Carves p q i lo hi c h small rest = record {
  others = λ j ne _. h.there j ne;
  fresh = λ ne. absurd (ne refl);
  lower = λ on. (part on).0;
  upper = λ on. (part on).0;
  proper = λ j w on. elim w [ inl at ↦ same_place j at on | inr at ↦ same_place j at on ];
  apart = λ ne. absurd (ne refl);
  stays = λ a f out. inl (subst (λ (x : Core). IsFreeCore x a) (sym h.here) (rest a f out));
}
  where
    part :
        (cores q i).enabled ≡ true
        → IsPart (cores p) i lo hi (cores q i) × ((cores q i).start ≤ (cores q i).end)
    part =
        subst (λ (x : Core). x.enabled ≡ true → IsPart (cores p) i lo hi x × (x.start ≤ x.end))
          (sym h.here) small

    same_place : (j : ℕ) → j ≡ i → (cores q j).enabled ≡ true → (cores q j).start ≤ (cores q j).end
    same_place j at =
        subst (λ (k : ℕ). (cores q k).enabled ≡ true → (cores q k).start ≤ (cores q k).end) (sym at)
          (λ on. (part on).1)

pub Gives-add : (a b : ℕ) → Gives (λ x. x ≡ a + b) (add a b)
Gives-add a b = Gives-if _ (gives refl) panics

pub Gives-sub : (a b : ℕ) → Gives (λ x. x + b ≡ a) (sub a b)
Gives-sub a b = elim (Bool-cases (leb b a)) [
  | inl le ↦ rw le (gives (ground arith))
  | inr gt ↦ rw gt panics
]

pub Gives-end : (a size : ℕ) → Gives (λ x. x + 1 ≡ a + size) (get_end_address a size)
unfolding get_end_address
Gives-end a size =
    Gives-bind (Gives-add a size) λ top e. Gives-mono (Gives-sub top 1) λ x e'. e' ∙ e

-- The steps of `split`: a new entry `n`, its range, and the range of the old entry.
pub split-Carves :
    (p : Pool) (r : ℕ × Pool) (upper lower q : Pool) (i lo hi above below : ℕ)
    → HoldsRange (cores p) i lo hi
    → above ≡ hi + 1
    → below + 1 ≡ lo
    → Created p r
    → CoreAt r.1 r.0
        (record (core (entry_at r.1 r.0)) { start = above; end = (entry_at r.1 i).end })
        upper
    → CoreAt upper i
        (record (core (entry_at upper i)) { start = (entry_at upper i).start; end = below })
        lower
    → above < (entry_at r.1 i).end
    → (entry_at upper i).start < below
    → KeepsRanges lower q
    → Carves (cores p) i lo hi r.0 (cores q)
split-Carves p r upper lower q i lo hi above below h ea eb new_one up low upper_room lower_room k =
    record {
      others =
          λ j ne ne'. k.same_core j ∙ low.there j ne ∙ up.there j ne' ∙ new_one.made.there j ne';
      fresh = λ _. new_one.was_off;
      lower = λ on. (
        omega (arith, ap (λ (c : Core). c.start) at_i),
        omega (arith, ap (λ (c : Core). c.end) at_i, h.1, h.2),
        inl (omega (arith, ap (λ (c : Core). c.end) at_i)),
      );
      upper = λ on. (
        omega (arith, ap (λ (c : Core). c.start) at_n, h.1),
        omega (arith, ap (λ (c : Core). c.end) at_n),
        inr (omega (arith, ap (λ (c : Core). c.start) at_n)),
      );
      proper = λ j w on. elim w [
        | inl at ↦ kept_place at (
            omega (
              arith,
              ap (λ (c : Core). c.start) at_i,
              ap (λ (c : Core). c.end) at_i,
              lower_room,
              ap (λ (c : Core). c.start) (up.there i new_ne ∙ old_i),
            ))
        | inr at ↦ kept_place at (
            omega (
              arith,
              ap (λ (c : Core). c.start) at_n,
              ap (λ (c : Core). c.end) at_n,
              upper_room,
              ap (λ (c : Core). c.end) old_i,
            ))
      ];
      apart =
          λ _. omega (arith, ap (λ (c : Core). c.end) at_i, ap (λ (c : Core). c.start) at_n, h.2);
      stays = λ a f out. elim out [
        | inl less ↦ inl (subst (λ (c : Core). IsFreeCore c a) (sym at_i) (f.0, f.1, omega arith))
        | inr more ↦ inr (subst (λ (c : Core). IsFreeCore c a) (sym at_n) (refl, omega arith, f.2))
      ];
    }
  where
    kept_place :
        {j k : ℕ}
        → j ≡ k
        → (cores q k).start ≤ (cores q k).end
        → (cores q j).start ≤ (cores q j).end
    kept_place at = subst (λ (x : ℕ). (cores q x).start ≤ (cores q x).end) (sym at)

    new_ne : i ≢ r.0
    new_ne e =
        let bad : true ≡ false =
          sym h.0 ∙ ap (λ (x : ℕ). (entry_at p x).enabled) e ∙ new_one.was_off in
        cc

    old_i : core (entry_at r.1 i) ≡ core (entry_at p i)
    old_i = new_one.made.there i new_ne

    at_i : cores q i ≡ record (core (entry_at p i)) { end = below }
    at_i =
        k.same_core i
        ∙ low.here
        ∙ ap (λ (c : Core). record c { end = below }) (up.there i new_ne ∙ old_i)

    at_n :
        cores q r.0 ≡ record { start = above; end = (entry_at p i).end; enabled = true; id = r.0 }
    at_n =
        k.same_core r.0
        ∙ low.there r.0 (λ e. new_ne (sym e))
        ∙ up.here
        ∙ ap (λ (c : Core). record c { start = above; end = (entry_at r.1 i).end })
            new_one.made.here
        ∙ ap (λ (c : Core). record { start = above; end = c.end; enabled = true; id = r.0 }) old_i
