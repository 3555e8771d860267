-- ===== src/App/Init/Machine.antt =====
-- The end of lexleo_app_complete_default_init: the factory with its creators, and the machine.
use lex_leo.Prelude.{ℕ, ◌≡◌, ◌≢◌, refl, Option, none, some, List, arith, ==_refl}
use lex_leo.Memory.{M, Run, and_then, World}
use lex_leo.Memory.Balance.{Returns, returns, bind, Built, built, failed}
use lex_leo.Memory.Release.{Owning}
use lex_leo.Stream.{Stream}
use lex_leo.Logger.Lifetime.{Logger}
use lex_leo.Vm.{LexleoVmStatus, LexleoVm}
use lex_leo.Vm.Ownership.{own_vm, lexleo_vm_create_init-Builds}
use lex_leo.App.{LexleoAppIoKind, LexleoAppCfg, LexleoAppStreamOwner, LexleoApp}
use lex_leo.App.Release.{owned}
use lex_leo.App.Streams.{Slot}
use lex_leo.App.Streams.Ownership.{StreamServes}
use lex_leo.App.Owner.Outcome.{Composed, OwnerMade, owner_made, no_owner}
use lex_leo.App.Owner.Ownership.{lexleo_app_init_stream_owner_opaque-OwnerMade}
use lex_leo.App.Init.{
  Result, and_ok, vm_made, fill_vm, from_vm_in, owner_filled, fill_owner, from_owner,
}
use lex_leo.App.Init.Outcome.{IsLogPath, HasLogger, Initialised, complete, in_part, staged}

module _ (cfg : LexleoAppCfg) (w : World) where
  abbrev pub Results : Result → World → Type 0
  Results (st, app) w' = Initialised cfg w st app w'

  pub then_ok :
      (next : LexleoApp → M Result) {m : Run Result}
      → Returns (λ res w'. Returns Results (and_ok next res w')) m
      → Returns Results (and_then m (and_ok next))
  then_ok next r = bind r λ res w' p. p

  module _ (a b : ℕ) (i o e ls : Stream) (path : List ℕ) (l : Logger)
      (i-serves : StreamServes Slot.input cfg.input.kind i)
      (o-serves : StreamServes Slot.output cfg.output.kind o)
      (e-serves : StreamServes Slot.err cfg.err.kind e) (path-good : IsLogPath path)
      (ls-serves : StreamServes Slot.logger_stream LexleoAppIoKind.file ls)
      (l-good : HasLogger (some l)) where
    abbrev pub before_owner : LexleoApp
    before_owner = staged cfg a b (some i) (some o) (some e) path (some ls) (some l)

    vm_made_lem :
        (owner : LexleoAppStreamOwner) (w₁ : World)
        → Composed owner
        → Owning w (owned (record before_owner { stream_owner = owner })) w₁
        → {st : LexleoVmStatus} {v : Option LexleoVm} {w₂ : World}
        → Built LexleoVmStatus.ok own_vm
            (λ vm. vm.env ≡ record { input = some i; output = some o; logger = some l })
            w₁
            st
            v
            w₂
        → Returns Results (
            vm_made
              (record before_owner { stream_owner = owner; vm_in = some i; vm_out = some o })
              (st, v)
              w₂)
    unfolding vm_made
    vm_made_lem owner w₁ good d (built {h = vm} wired d₂) = returns (
        complete
          (record {
            action = refl;
            input_paths = refl;
            input_dynamic_libraries = refl;
            output_path = refl;
            input = (i, refl, i-serves);
            output = (o, refl, o-serves);
            err = (e, refl, e-serves);
            log_path = path-good;
            logger_stream = (ls, refl, ls-serves);
            logger = l-good;
            stream_owner = good;
            vm_in = refl;
            vm_out = refl;
            vm = (vm, refl, wired);
          })
          (λ r. rw (==_refl i.addr, ==_refl o.addr) (omega (arith, d r, d₂ r))))
    vm_made_lem owner w₁ good d (failed {st} {w' = w₂} ne bal) = other st ne
      where
        other :
            (st : LexleoVmStatus)
            → st ≢ LexleoVmStatus.ok
            → Returns Results (
                vm_made
                  (record before_owner { stream_owner = owner; vm_in = some i; vm_out = some o })
                  (st, none)
                  w₂)
        other LexleoVmStatus.ok ne = absurd (ne refl)
        other _ ne =
            returns
              (in_part (cc) (λ r. rw (==_refl i.addr, ==_refl o.addr) (omega (arith, d r, bal r))))

    owner_filled_lem :
        (w₁ : World)
        → Owning w (owned before_owner) w₁
        → {owner : Option LexleoAppStreamOwner} {w₂ : World} → OwnerMade b w₁ owner w₂
        → Returns Results (and_ok from_vm_in (owner_filled before_owner owner) w₂)
    unfolding and_ok owner_filled from_vm_in fill_vm
    owner_filled_lem w₁ d (owner_made {o = owner} {w' = w₂} good same taken) =
        bind
          (lexleo_vm_create_init-Builds
            (record { input = some i; output = some o; logger = some l }) w₂)
          λ (st, v) w₃ c. vm_made_lem owner w₂ good (λ r. rw same (omega (arith, d r, taken r))) c
    owner_filled_lem w₁ d (no_owner bal) = returns (in_part (cc) (λ r. omega (arith, d r, bal r)))

    pub from_owner_lem :
        (w₁ : World)
        → Owning w (owned before_owner) w₁
        → Returns Results (from_owner before_owner w₁)
    unfolding from_owner fill_owner
    from_owner_lem w₁ d = then_ok from_vm_in (
        bind
          (lexleo_app_init_stream_owner_opaque-OwnerMade before_owner.stream_owner w₁ refl refl refl
            refl)
          λ owner w₂ m. returns (owner_filled_lem w₁ d m))
