-- ===== src/Allocator/Entries.antt =====
-- The writes of src/memory_allocator.rs that change one entry: its range, or whether it is enabled.
use mini_visor.Base.{
  ℕ, zero, suc, ◌+◌, ◌<◌, ◌≡◌, ◌≢◌, ◌∙◌, sym, ap, true, false, length, set, arith, ltb, length-set,
  get_or-set_self, get_or-set_ne, ltb→lt, Bool-cases, inl, inr,
}
use mini_visor.Allocator.{
  MemoryEntry, Pool, blank, entry_at, pool_size, set_range, create_from, create_memory_entry,
  unlink, delete,
}
use mini_visor.Allocator.Chains.{FreeList, unchain_entry_from_free_list}
use mini_visor.Allocator.Ranges.{
  Core, core, KeepsRanges, KeepsRanges-trans, unlink-KeepsRanges, unchain_from_freelist-KeepsRanges,
  Gives, gives, fails, Gives-bind, Gives-assert,
}

core-set_self :
    (p : Pool) (i : ℕ) (e : MemoryEntry) → i < length p → core (entry_at (set p i e) i) ≡ core e
core-set_self p i e h = ap core (get_or-set_self p i e blank h)

core-set_ne :
    (p : Pool) (i j : ℕ) (e : MemoryEntry)
    → j ≢ i
    → core (entry_at (set p i e) j) ≡ core (entry_at p j)
core-set_ne p i j e h = ap core (get_or-set_ne p i j e blank (λ e'. h (sym e')))

-- Entry `i` of `p` is the core `c` in `q`, and every other entry is the same.
pub record CoreAt (p : Pool) (i : ℕ) (c : Core) (q : Pool) : Type 0 where
  pub same_length : length q ≡ length p
  pub here : core (entry_at q i) ≡ c
  pub there : (j : ℕ) → j ≢ i → core (entry_at q j) ≡ core (entry_at p j)

pub set-CoreAt :
    (p : Pool) (i : ℕ) (e : MemoryEntry) → i < length p → CoreAt p i (core e) (set p i e)
set-CoreAt p i e h = record {
  same_length = length-set p i e;
  here = core-set_self p i e h;
  there = λ j ne. core-set_ne p i j e ne;
}

pub CoreAt-KeepsRanges :
    (p : Pool) (i : ℕ) (c : Core) (q r : Pool) → CoreAt p i c q → KeepsRanges q r → CoreAt p i c r
CoreAt-KeepsRanges p i c q r h k = record {
  same_length = k.same_length ∙ h.same_length;
  here = k.same_core i ∙ h.here;
  there = λ j ne. k.same_core j ∙ h.there j ne;
}

pub unchain_entry_from_free_list-KeepsRanges :
    (p : Pool) (free_list : FreeList) (i : ℕ)
    → KeepsRanges p (unchain_entry_from_free_list p free_list i).0
unfolding unchain_entry_from_free_list
unchain_entry_from_free_list-KeepsRanges p free_list i = unchain_from_freelist-KeepsRanges p i

-- A deleted entry keeps its range and is enabled no more.
pub delete-CoreAt :
    (p q : Pool) (i : ℕ)
    → i < length p
    → KeepsRanges p q
    → CoreAt p i (record (core (entry_at p i)) { enabled = false }) (delete q i)
unfolding delete
delete-CoreAt p q i h k = record {
  same_length = length-set (unlink q i) i _ ∙ all.same_length;
  here =
      core-set_self (unlink q i) i _ (omega (arith, all.same_length))
      ∙ ap (λ (c : Core). record c { enabled = false }) (all.same_core i);
  there = λ j ne. core-set_ne (unlink q i) i j _ ne ∙ all.same_core j;
}
  where
    all : KeepsRanges p (unlink q i)
    all = KeepsRanges-trans p q _ k (unlink-KeepsRanges q i)

pub set_range-CoreAt :
    (p : Pool) (i start end : ℕ)
    → i < length p
    → Gives
        (λ q.
          CoreAt p i (record (core (entry_at p i)) { start = start; end = end }) q × (start < end))
        (set_range p i start end)
unfolding set_range
set_range-CoreAt p i start end h = Gives-bind (Gives-assert (ltb start end)) λ _ b.
    gives
      (set-CoreAt p i (record (entry_at p i) { start = start; end = end }) h, ltb→lt start end b)

-- A new entry was not enabled, and is.
pub record Created (p : Pool) (r : ℕ × Pool) : Type 0 where
  pub inside : r.0 < length p
  pub was_off : (entry_at p r.0).enabled ≡ false
  pub made : CoreAt p r.0 (record { start = 0; end = 0; enabled = true; id = r.0 }) r.1

create_from-Created :
    (left i : ℕ) (p : Pool) → i + left ≡ length p → Gives (Created p) (create_from left i p)
unfolding create_from
create_from-Created zero i p h = fails
create_from-Created (suc left) i p h = elim (Bool-cases (entry_at p i).enabled) [
  | inl on ↦ rw on (create_from-Created left (i + 1) p (omega arith))
  | inr off ↦ rw off (
      gives (record {
        inside = omega arith;
        was_off = off;
        made = set-CoreAt p i (record blank { id = i; enabled = true }) (omega arith);
      }))
]

pub create_memory_entry-Created :
    (p : Pool) → length p ≡ pool_size → Gives (Created p) (create_memory_entry p)
unfolding create_memory_entry
create_memory_entry-Created p h = create_from-Created pool_size 0 p (omega (arith, h))
