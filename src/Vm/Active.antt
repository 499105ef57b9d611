-- ===== src/Vm/Active.antt =====
-- The list of VMs of src/vm.rs: ids are handed out once, and the VM that is created last is active.
use mini_visor.Base.{
  ℕ, ◌+◌, ◌<◌, ◌≡◌, ap, sym, ◌∙◌, ◌⊎◌, refl, true, false, none, some, List, [], ◌∷◌, ◌++◌, ◌==◌,
  if◌then◌else◌, done, arith, Option-cases, inl, inr, Bool-cases,
}
use mini_visor.Vm.{
  Vm, Registry, find_vm, switch_active_vm, get_active_vm, get_current_vm, take_vm_id, register_vm,
}

module _ {S : Type 0} where
  -- Every id in the list is below `n`.
  abbrev pub IdsBelow : ℕ → List (Vm S) → Type 0
  IdsBelow n [] = Unit
  IdsBelow n (vm ∷ vms) = (vm.vm_id < n) × IdsBelow n vms

  -- The ids in the list were handed out, and the active VM is the one that its id names.
  pub record IsRegistry (g : Registry S) : Type 0 where
    pub handed_out : IdsBelow g.next_vm_id g.vm_list
    pub active_listed : (vm : Vm S) → g.active_vm ≡ some vm → find_vm vm.vm_id g.vm_list ≡ some vm

  find-append :
      (id : ℕ) (vms : List (Vm S)) (vm : Vm S)
      → find_vm id (vms ++ vm ∷ []) ≡ elim (find_vm id vms) [
        | some old ↦ some old
        | none ↦ if vm.vm_id == id then some vm else none
      ]
  unfolding find_vm
  find-append id [] vm = refl
  find-append id (x ∷ vms) vm = ground (arith, find-append id vms vm)

  find-fresh : (n : ℕ) (vms : List (Vm S)) → IdsBelow n vms → find_vm n vms ≡ none
  unfolding find_vm
  find-fresh n [] h = refl
  find-fresh n (x ∷ vms) h = ground (arith, find-fresh n vms h.1)

  IdsBelow-append :
      (n : ℕ) (vms : List (Vm S)) (vm : Vm S)
      → IdsBelow n vms
      → vm.vm_id ≡ n
      → IdsBelow (n + 1) (vms ++ vm ∷ [])
  IdsBelow-append n [] vm h e = (omega arith, tt)
  IdsBelow-append n (x ∷ vms) vm h e = (omega (arith, h.0), IdsBelow-append n vms vm h.1 e)

  find-id : (id : ℕ) (vms : List (Vm S)) (vm : Vm S) → find_vm id vms ≡ some vm → vm.vm_id ≡ id
  unfolding find_vm
  find-id id [] vm e = cc
  find-id id (x ∷ vms) vm e = ground (arith, find-id id vms vm)

  find-law :
      (id : ℕ) (vms : List (Vm S)) (vm : Vm S)
      → IdsBelow vm.vm_id vms
      → find_vm id (vms ++ vm ∷ []) ≡ (if vm.vm_id == id then some vm else find_vm id vms)
  find-law id vms vm h = elim (Bool-cases (vm.vm_id == id)) [
    | inl same ↦
        let e : vm.vm_id ≡ id = ground arith in
        let fresh : find_vm id vms ≡ none = rw (← e) (find-fresh vm.vm_id vms h) in
        rw (find-append id vms vm, fresh, same)
    | inr other ↦ rw (find-append id vms vm, other) (ground arith)
  ]

  registered :
      (g : Registry S) (vm : Vm S)
      → IdsBelow vm.vm_id g.vm_list
      → register_vm vm g ≡ record g { vm_list = g.vm_list ++ vm ∷ []; active_vm = some vm }
  unfolding register_vm
  registered g vm h =
      let found : find_vm vm.vm_id (g.vm_list ++ vm ∷ []) ≡ some vm =
        find-law vm.vm_id g.vm_list vm h ∙ ground arith in
      ground (arith, found)

  -- Taking an id and entering a VM with that id keeps the registry well formed. The new VM is the
  -- active one, its id names it, and every other id names what it named before.
  pub register_vm_lem :
      (g : Registry S) (vm : Vm S) (id : ℕ)
      → IsRegistry g
      → vm.vm_id ≡ (take_vm_id g).0
      → let g' = register_vm vm (take_vm_id g).1 in
        IsRegistry g'
        × (get_active_vm g' ≡ done vm)
        × (get_current_vm id g' ≡ (if vm.vm_id == id then done vm else get_current_vm id g))
  unfolding take_vm_id get_active_vm get_current_vm
  register_vm_lem g vm id is e =
      let below : IdsBelow vm.vm_id g.vm_list = rw e is.handed_out in
      rw (registered (record g { next_vm_id = g.next_vm_id + 1 }) vm below) (
        record {
          handed_out = IdsBelow-append g.next_vm_id g.vm_list vm is.handed_out e;
          active_listed = λ w same. ground (arith, find-law w.vm_id g.vm_list vm below);
        },
        refl,
        ground (arith, find-law id g.vm_list vm below),
      )

  -- Switching to an id that names a VM makes that VM active and answers true; an id that names
  -- none answers false and changes nothing. The registry stays well formed.
  pub switch_active_vm_lem :
      (id : ℕ) (g : Registry S)
      → IsRegistry g
      → IsRegistry (switch_active_vm id g).0
        × (((vm : Vm S) × (get_current_vm id g ≡ done vm)
              × (get_active_vm (switch_active_vm id g).0 ≡ done vm)
              × ((switch_active_vm id g).1 ≡ true))
            ⊎ ((find_vm id g.vm_list ≡ none) × (switch_active_vm id g ≡ (g, false))))
  unfolding switch_active_vm get_current_vm get_active_vm
  switch_active_vm_lem id g is = elim (Option-cases (find_vm id g.vm_list)) [
    | inl unknown ↦ rw (unknown, switch_active_vm) (is, inr (refl, refl))
    | inr (vm, found) ↦
        rw (found, switch_active_vm)
          (
            record {
              handed_out = is.handed_out;
              active_listed = λ w same.
                  let e : vm ≡ w = cc in
                  let named : vm.vm_id ≡ id = find-id id g.vm_list vm found in
                  ap (λ (v : Vm S). find_vm v.vm_id g.vm_list) (sym e)
                  ∙ ap (λ (n : ℕ). find_vm n g.vm_list) named
                  ∙ found
                  ∙ ap some e;
            },
            inl (vm, refl, refl, refl),
          )
  ]
