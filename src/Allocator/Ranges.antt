-- ===== src/Allocator/Ranges.antt =====
-- The writes of src/memory_allocator.rs that change links only: no entry gets another range.
use mathlib.Core.Path.{subst}
use mini_visor.Base.{
  ℕ, zero, suc, ◌≡◌, ◌∙◌, refl, ap, Bool, true, false, Option, none, some, length, set, get_or,
  arith, leb, ◌==◌, if◌then◌else◌, length-set, get_or-set, Bool-cases, inl, inr,
}
use mini_visor.Allocator.{
  MemoryEntry, MemoryError, Pool, Result, ok, err, panic, out_of_fuel, ◌>>=◌, assert, blank,
  entry_at, get_size, get_memory_entry, get_prev_entry, get_next_entry, pool_size,
  size_to_page_order, chain_after_me, unlink, unchain_prev, unchain_next, unchain_from_freelist,
}
use mini_visor.Allocator.Chains.{
  FreeList, is_none, drop_head, append_after, insert_between, insert_from, insert_entry,
  chain_entry_to_free_list,
}

-- What an entry stands for, without its links.
pub record Core : Type 0 where
  pub start : ℕ
  pub end : ℕ
  pub enabled : Bool
  pub id : ℕ

abbrev pub core : MemoryEntry → Core
core e = record { start = e.start; end = e.end; enabled = e.enabled; id = e.id }

-- Two pools whose entries differ in their links only.
pub record KeepsRanges (p q : Pool) : Type 0 where
  pub same_length : length q ≡ length p
  pub same_core : (i : ℕ) → core (entry_at q i) ≡ core (entry_at p i)

pub KeepsRanges-refl : (p : Pool) → KeepsRanges p p
KeepsRanges-refl p = record { same_length = refl; same_core = λ i. refl }

pub KeepsRanges-trans : (p q r : Pool) → KeepsRanges p q → KeepsRanges q r → KeepsRanges p r
KeepsRanges-trans p q r h k = record {
  same_length = k.same_length ∙ h.same_length;
  same_core = λ i. k.same_core i ∙ h.same_core i;
}

core-if : (b : Bool) (e f : MemoryEntry) → core e ≡ core f → core (if b then e else f) ≡ core f
core-if true e f h = h
core-if false e f h = refl

pub set-KeepsRanges :
    (p : Pool) (i : ℕ) (e : MemoryEntry) → core e ≡ core (entry_at p i) → KeepsRanges p (set p i e)
set-KeepsRanges p i e h = record {
  same_length = length-set p i e;
  same_core = λ j. elim (Bool-cases (i == j)) [
    | inl same ↦
        let at : i ≡ j = ground arith in
        ap core (get_or-set p i j e blank)
        ∙ core-if _ e _ (subst (λ (k : ℕ). core e ≡ core (entry_at p k)) at h)
    | inr other ↦ ap core (get_or-set p i j e blank) ∙ rw other refl
  ];
}

-- What an operation returns, if it does, satisfies `P`.
pub data Gives {ℓ κ} {A : Type ℓ} (P : A → Type κ) : Result A → Type (ℓ ⊔ κ) where
  gives : {a : A} → P a → Gives P (ok a)
  fails : {e : MemoryError} → Gives P (err e)
  panics : Gives P panic
  stops : Gives P out_of_fuel

module _ {ℓ κ ι ο} {A : Type ℓ} {B : Type κ} {P : A → Type ι} {Q : B → Type ο} where
  pub Gives-bind :
      {m : Result A} {f : A → Result B}
      → Gives P m
      → ((a : A) → P a → Gives Q (f a))
      → Gives Q (m >>= f)
  Gives-bind (gives h) k = k _ h
  Gives-bind fails k = fails
  Gives-bind panics k = panics
  Gives-bind stops k = stops

module _ {ℓ κ ι} {A : Type ℓ} {P : A → Type κ} {Q : A → Type ι} where
  pub Gives-mono : {r : Result A} → Gives P r → ((a : A) → P a → Q a) → Gives Q r
  Gives-mono (gives h) k = gives (k _ h)
  Gives-mono fails k = fails
  Gives-mono panics k = panics
  Gives-mono stops k = stops

module _ {ℓ κ} {A : Type ℓ} {P : A → Type κ} where
  pub Gives-if : (b : Bool) {x y : Result A} → Gives P x → Gives P y → Gives P (if b then x else y)
  Gives-if true p q = p
  Gives-if false p q = q

  pub Gives-cases :
      (b : Bool) {x y : Result A}
      → (b ≡ true → Gives P x)
      → (b ≡ false → Gives P y)
      → Gives P (if b then x else y)
  Gives-cases true p q = p refl
  Gives-cases false p q = q refl

  pub of_Gives : {r : Result A} (a : A) → Gives P r → r ≡ ok a → P a
  of_Gives a (gives {a = b} p) e = let same : b ≡ a = cc in subst P same p
  of_Gives a fails e = cc
  of_Gives a panics e = cc
  of_Gives a stops e = cc

pub Gives-assert : (b : Bool) → Gives (λ _. b ≡ true) (assert b)
Gives-assert true = gives refl
Gives-assert false = panics

pub chain_after_me-KeepsRanges :
    (p : Pool) (me entry : ℕ) → KeepsRanges p (chain_after_me p me entry)
unfolding chain_after_me
chain_after_me-KeepsRanges p me entry =
    KeepsRanges-trans p _ _ (set-KeepsRanges p me _ refl) (set-KeepsRanges _ entry _ refl)

-- Both cases of an option.
pub Option-both {ℓ κ} :
    {B : Type ℓ} (P : B → Type κ) (o : Option ℕ) (x : B) (f : ℕ → B)
    → P x
    → ((i : ℕ) → P (f i))
    → P (elim o [ none ↦ x | some i ↦ f i ])
Option-both P none x f h k = h
Option-both P (some i) x f h k = k i

pub unlink-KeepsRanges : (p : Pool) (i : ℕ) → KeepsRanges p (unlink p i)
unfolding unlink
unlink-KeepsRanges p i =
    Option-both (KeepsRanges p) (get_prev_entry p i) _ _
      (Option-both (KeepsRanges p) (get_next_entry p i) _ _ (KeepsRanges-refl p)
        (λ after. set-KeepsRanges p after _ refl))
      (λ before.
        Option-both (KeepsRanges p) (get_next_entry p i) _ _ (set-KeepsRanges p before _ refl)
          (λ after. chain_after_me-KeepsRanges p before after))

unchain_prev-KeepsRanges : (p : Pool) (i : ℕ) → KeepsRanges p (unchain_prev p i)
unfolding unchain_prev
unchain_prev-KeepsRanges p i =
    Option-both (KeepsRanges p) (get_memory_entry (entry_at p i).list_prev) _ _ (KeepsRanges-refl p)
      (λ before. set-KeepsRanges p before _ refl)

unchain_next-KeepsRanges : (p : Pool) (i : ℕ) → KeepsRanges p (unchain_next p i)
unfolding unchain_next
unchain_next-KeepsRanges p i =
    Option-both (KeepsRanges p) (get_memory_entry (entry_at p i).list_next) _ _ (KeepsRanges-refl p)
      (λ after. set-KeepsRanges p after _ refl)

pub unchain_from_freelist-KeepsRanges :
    (p : Pool) (i : ℕ) → KeepsRanges p (unchain_from_freelist p i)
unfolding unchain_from_freelist
unchain_from_freelist-KeepsRanges p i = KeepsRanges-trans p _ _ (unchain_prev-KeepsRanges p i) (
    KeepsRanges-trans _ _ _ (unchain_next-KeepsRanges (unchain_prev p i) i)
      (set-KeepsRanges _ i _ refl))

append_after-KeepsRanges :
    (p : Pool) (entry list_entry : ℕ) → KeepsRanges p (append_after p entry list_entry)
unfolding append_after
append_after-KeepsRanges p entry list_entry =
    KeepsRanges-trans p _ _ (set-KeepsRanges p list_entry _ refl) (set-KeepsRanges _ entry _ refl)

insert_between-KeepsRanges :
    (p : Pool) (entry list_entry next_entry : ℕ)
    → KeepsRanges p (insert_between p entry list_entry next_entry)
unfolding insert_between
insert_between-KeepsRanges p entry list_entry next_entry =
    KeepsRanges-trans p _ _ (append_after-KeepsRanges p entry list_entry) (
      KeepsRanges-trans _ _ _ (set-KeepsRanges _ entry _ refl)
        (set-KeepsRanges _ next_entry _ refl))

insert_from-KeepsRanges :
    (fuel : ℕ) (p : Pool) (entry list_entry : ℕ)
    → Gives (KeepsRanges p) (insert_from fuel p entry list_entry)
unfolding insert_from
insert_from-KeepsRanges zero p entry list_entry = stops
insert_from-KeepsRanges (suc fuel) p entry list_entry =
    Option-both (Gives (KeepsRanges p)) (get_memory_entry (entry_at p list_entry).list_next) _ _
      (gives (append_after-KeepsRanges p entry list_entry))
      (λ after.
        Gives-if (leb (get_size (entry_at p entry)) (get_size (entry_at p after)))
          (gives (insert_between-KeepsRanges p entry list_entry after))
          (insert_from-KeepsRanges fuel p entry after))

abbrev pub Keeps : Pool → Result (Pool × FreeList) → Type 0
Keeps p r = Gives (λ (r : Pool × FreeList). KeepsRanges p r.0) r

Gives-trans : (p q : Pool) (r : Result (Pool × FreeList)) → KeepsRanges p q → Keeps q r → Keeps p r
Gives-trans p q _ h (gives {a = a} k) = gives (KeepsRanges-trans p q a.0 h k)
Gives-trans p q _ h fails = fails
Gives-trans p q _ h panics = panics
Gives-trans p q _ h stops = stops

insert_entry-KeepsRanges :
    (p : Pool) (free_list : FreeList) (entry : ℕ) → Keeps p (insert_entry p free_list entry)
unfolding insert_entry
insert_entry-KeepsRanges p free_list entry =
    Gives-bind (Gives-assert (is_none (entry_at p entry).list_next)) λ _ _.
      Gives-bind (Gives-assert (is_none (entry_at p entry).list_prev)) λ _ _.
        Option-both (Keeps p)
          (get_memory_entry
            (get_or free_list (size_to_page_order (get_size (entry_at p entry))) none))
          _ _ (gives (KeepsRanges-refl p))
          (λ head.
            Gives-if (leb (get_size (entry_at p entry)) (get_size (entry_at p head)))
              (gives (
                KeepsRanges-trans p _ _ (set-KeepsRanges p head _ refl)
                  (set-KeepsRanges _ entry _ refl)))
              (Gives-bind (insert_from-KeepsRanges pool_size p entry head) λ q h. gives h))

pub chain_entry_to_free_list-KeepsRanges :
    (p : Pool) (free_list : FreeList) (entry : ℕ) (old_size : Option ℕ)
    → Keeps p (chain_entry_to_free_list p free_list entry old_size)
unfolding chain_entry_to_free_list
chain_entry_to_free_list-KeepsRanges p free_list entry none =
    insert_entry-KeepsRanges p free_list entry
chain_entry_to_free_list-KeepsRanges p free_list entry (some old_size) =
    Gives-if (old_size == get_size (entry_at p entry)) (gives (KeepsRanges-refl p)) (
      Gives-trans p (unchain_from_freelist p entry) _ (unchain_from_freelist-KeepsRanges p entry) (
        insert_entry-KeepsRanges (unchain_from_freelist p entry)
          (drop_head p free_list (size_to_page_order old_size) entry) entry))
