-- ===== src/Vm.antt =====
-- The virtual machine's handle: lexleo_vm_cr.c and lexleo_vm_borrower.c (src/lexleo_vm/src). Its
-- memories, which no function of it uses yet, are left out.
pub mod Ownership
use lex_leo.Prelude.{ℕ, Option, none, some}
use lex_leo.Memory.{M, pure, ◌>>=◌, ◌>>◌, calloc, free}
use lex_leo.Stream.{Stream}
use lex_leo.Logger.Lifetime.{Logger}

pub data LexleoVmStatus : Type 0 where
  ok oom init_fail : LexleoVmStatus

-- The borrowed streams and logger that the environment passes.
pub record LexleoVmEnv : Type 0 where
  pub input : Option Stream
  pub output : Option Stream
  pub logger : Option Logger

pub record LexleoVm : Type 0 where
  pub addr : ℕ
  pub env : LexleoVmEnv

new_vm : LexleoVmEnv → Option ℕ → M (LexleoVmStatus × Option LexleoVm)
new_vm env none = pure (LexleoVmStatus.oom, none)
new_vm env (some p) = pure (LexleoVmStatus.ok, some (record { addr = p; env = env }))

unfoldable pub lexleo_vm_create : LexleoVmEnv → M (LexleoVmStatus × Option LexleoVm)
unfolding new_vm
lexleo_vm_create env = calloc >>= new_vm env

unfoldable pub lexleo_vm_destroy : Option LexleoVm → M (Unit {0})
lexleo_vm_destroy none = pure tt
lexleo_vm_destroy (some vm) = free vm.addr

unfoldable pub lexleo_vm_complete_default_init : LexleoVm → LexleoVmStatus × LexleoVm
lexleo_vm_complete_default_init vm = (LexleoVmStatus.ok, vm)

finish_create_init : LexleoVmStatus × LexleoVm → M (LexleoVmStatus × Option LexleoVm)
finish_create_init (LexleoVmStatus.ok, vm) = pure (LexleoVmStatus.ok, some vm)
finish_create_init (st, vm) = do lexleo_vm_destroy (some vm); pure (st, none)

init_created : LexleoVmStatus × Option LexleoVm → M (LexleoVmStatus × Option LexleoVm)
unfolding finish_create_init
init_created (st, none) = pure (st, none)
init_created (st, some vm) = finish_create_init (lexleo_vm_complete_default_init vm)

unfoldable pub lexleo_vm_create_init : LexleoVmEnv → M (LexleoVmStatus × Option LexleoVm)
unfolding init_created
lexleo_vm_create_init env = lexleo_vm_create env >>= init_created

-- A placeholder in the source.
unfoldable pub lexleo_vm_run : LexleoVm → LexleoVmStatus
lexleo_vm_run vm = LexleoVmStatus.ok
