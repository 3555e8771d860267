-- ===== src/Vm/Ownership.antt =====
-- What the construction and release of the virtual machine's handle do to the heap
-- (lexleo_vm_cr.c).
use lex_leo.Prelude.{ℕ, ◌≡◌, refl, Option, some, List, [], ◌∷◌}
use lex_leo.Memory.{Resource, World, block}
use lex_leo.Memory.Balance.{
  Returns, returns, bind, weaken, Delta, Holds, Built, built, failed, Builds, Allocated, fresh,
  exhausted, calloc-Allocated, free-held,
}
use lex_leo.Vm.{
  LexleoVmStatus, LexleoVmEnv, LexleoVm, new_vm, lexleo_vm_create, lexleo_vm_destroy,
  lexleo_vm_complete_default_init, finish_create_init, init_created, lexleo_vm_create_init,
}

abbrev pub own_vm : LexleoVm → List Resource
own_vm vm = block vm.addr ∷ []

pub lexleo_vm_destroy-Delta :
    (vm : LexleoVm) (w : World)
    → Holds (own_vm vm) w
    → Returns (λ _ w'. Delta [] (own_vm vm) w w') (lexleo_vm_destroy (some vm) w)
unfolding lexleo_vm_destroy
lexleo_vm_destroy-Delta vm w h = weaken (free-held vm.addr [] w h) λ _ w' (d, _). d

module _ (env : LexleoVmEnv) (w : World) where
  abbrev Vms : LexleoVmStatus × Option LexleoVm → World → Type 0
  Vms = Builds LexleoVmStatus.ok own_vm (λ vm. vm.env ≡ env) w

  new_vm-Builds : {o : Option ℕ} {w' : World} → Allocated w o w' → Returns Vms (new_vm env o w')
  unfolding new_vm
  new_vm-Builds (fresh p d) = returns (built refl d)
  new_vm-Builds (exhausted b) = returns (failed (cc) b)

  init_created-Builds :
      {st : LexleoVmStatus} {o : Option LexleoVm} {w' : World}
      → Built LexleoVmStatus.ok own_vm (λ vm. vm.env ≡ env) w st o w'
      → Returns Vms (init_created (st, o) w')
  unfolding init_created finish_create_init lexleo_vm_complete_default_init
  init_created-Builds (built e d) = returns (built e d)
  init_created-Builds (failed ne b) = returns (failed ne b)

  -- The machine is built over the environment that is passed, and owns one block; otherwise nothing
  -- is held.
  pub lexleo_vm_create_init-Builds : Returns Vms (lexleo_vm_create_init env w)
  unfolding lexleo_vm_create_init lexleo_vm_create
  lexleo_vm_create_init-Builds =
      bind (bind (calloc-Allocated w) λ o w' a. new_vm-Builds a)
        λ (st, o) w' b. init_created-Builds b
