-- ===== src/App/Release.antt =====
-- What an application owns, and its destruction (lexleo_app_destroy of lexleo_app_cr.c).
use lex_leo.Prelude.{◌+◌, ◌≤◌, ◌≡◌, Bool, true, false, Option, none, some, arith}
use lex_leo.Memory.{Resource, World, block, unit, orphans, allocated}
use lex_leo.Memory.Balance.{Returns, returns, weaken}
use lex_leo.Memory.Release.{Amount, amount, Frees, Frees-then, free-Frees, Delta-Frees}
use lex_leo.Stream.{Stream, stream_destroy}
use lex_leo.Stream.Ownership.{own_stream, stream_destroy-Delta}
use lex_leo.StreamFactory.{StreamFactory, stream_destroy_factory}
use lex_leo.StreamFactory.Ownership.{own_factory, stream_destroy_factory-Delta}
use lex_leo.StreamCreator.{
  StreamCreator, stream_destroy_standard_stream_creator, stream_destroy_regular_file_creator,
  stream_destroy_dynamic_buffer_creator,
}
use lex_leo.StreamCreator.Ownership.{own_creator}
use lex_leo.Logger.Lifetime.{Logger, logger_destroy}
use lex_leo.Logger.Lifetime.Ownership.{own_logger, logger_destroy-Delta}
use lex_leo.Vm.{LexleoVm, lexleo_vm_destroy}
use lex_leo.Vm.Ownership.{own_vm, lexleo_vm_destroy-Delta}
use lex_leo.App.{LexleoApp, same_stream, destroy_unless, lexleo_app_destroy}

-- An alias owns nothing.
abbrev pub amount_unless : (is_alias : Bool) → Option Stream → Amount
amount_unless true s r = 0
amount_unless false s r = amount own_stream s r

-- What a handle owns: its machine, streams, logger, creators and factory, and its two blocks.
abbrev pub owned : LexleoApp → Amount
owned app r =
    amount own_vm app.vm r
    + (amount own_stream app.input r
        + (amount own_stream app.output r
            + (amount_unless (same_stream app.input app.vm_in) app.vm_in r
                + (amount_unless (same_stream app.output app.vm_out) app.vm_out r
                    + (amount own_stream app.err r
                        + (amount own_logger app.logger r
                            + (amount own_stream app.logger_stream r
                                + (amount own_creator app.stream_owner.standard_stream_creator r
                                    + (amount own_creator app.stream_owner.regular_file_creator r
                                        + (amount own_creator
                                              app.stream_owner.dynamic_buffer_creator r
                                            + (amount own_factory app.stream_owner.stream_factory r
                                                + (unit (block app.stream_owner.addr) r
                                                    + unit (block app.addr) r))))))))))))

destroy_vm-Frees : (o : Option LexleoVm) → Frees (amount own_vm o) (lexleo_vm_destroy o)
unfolding lexleo_vm_destroy
destroy_vm-Frees none w h = returns (λ r. omega arith)
destroy_vm-Frees (some vm) w h =
    Delta-Frees own_vm (λ vm. lexleo_vm_destroy (some vm)) lexleo_vm_destroy-Delta vm w h

pub destroy_stream-Frees : (o : Option Stream) → Frees (amount own_stream o) (stream_destroy o)
unfolding stream_destroy
destroy_stream-Frees none w h = returns (λ r. omega arith)
destroy_stream-Frees (some s) w h =
    Delta-Frees own_stream (λ s. stream_destroy (some s)) stream_destroy-Delta s w h

destroy_unless-Frees :
    (is_alias : Bool) (o : Option Stream)
    → Frees (amount_unless is_alias o) (destroy_unless is_alias o)
unfolding destroy_unless
destroy_unless-Frees true o w h = returns (λ r. omega arith)
destroy_unless-Frees false o w h = destroy_stream-Frees o w h

destroy_logger-Frees :
    (o : Option Logger) (w : World)
    → ((r : Resource) → amount own_logger o r ≤ w.live r)
    → Returns
        (λ _ w'. (r : Resource) → w'.live r + amount own_logger o r ≡ w.live r)
        (logger_destroy o w)
unfolding logger_destroy
destroy_logger-Frees none w h = returns (λ r. omega arith)
destroy_logger-Frees (some l) w h =
    weaken (logger_destroy-Delta l w h) λ st w' (e, d) r. omega (arith, d r)

pub destroy_standard_creator-Frees :
    (o : Option StreamCreator)
    → Frees (amount own_creator o) (stream_destroy_standard_stream_creator o)
unfolding stream_destroy_standard_stream_creator
destroy_standard_creator-Frees none w h = returns (λ r. omega arith)
destroy_standard_creator-Frees (some c) w h =
    weaken (free-Frees c.addr w (λ r. omega (arith, h r))) λ _ w' d r. omega (arith, d r)

pub destroy_file_creator-Frees :
    (o : Option StreamCreator)
    → Frees (amount own_creator o) (stream_destroy_regular_file_creator o)
unfolding stream_destroy_regular_file_creator
destroy_file_creator-Frees none w h = returns (λ r. omega arith)
destroy_file_creator-Frees (some c) w h =
    weaken (free-Frees c.addr w (λ r. omega (arith, h r))) λ _ w' d r. omega (arith, d r)

destroy_buffer_creator-Frees :
    (o : Option StreamCreator)
    → Frees (amount own_creator o) (stream_destroy_dynamic_buffer_creator o)
unfolding stream_destroy_dynamic_buffer_creator
destroy_buffer_creator-Frees none w h = returns (λ r. omega arith)
destroy_buffer_creator-Frees (some c) w h =
    weaken (free-Frees c.addr w (λ r. omega (arith, h r))) λ _ w' d r. omega (arith, d r)

pub destroy_factory-Frees :
    (o : Option StreamFactory) → Frees (amount own_factory o) (stream_destroy_factory o)
unfolding stream_destroy_factory
destroy_factory-Frees none w h = returns (λ r. omega arith)
destroy_factory-Frees (some f) w h =
    Delta-Frees own_factory (λ f. stream_destroy_factory (some f)) stream_destroy_factory-Delta f w
      h

-- What the release of an application does to what is held.
pub lexleo_app_destroy-Frees : (app : LexleoApp) → Frees (owned app) (lexleo_app_destroy (some app))
unfolding lexleo_app_destroy
lexleo_app_destroy-Frees app =
    let owner = app.stream_owner in
    Frees-then _ _ _ _ (destroy_vm-Frees app.vm) (
      Frees-then _ _ _ _ (destroy_stream-Frees app.input) (
        Frees-then _ _ _ _ (destroy_stream-Frees app.output) (
          Frees-then _ _ _ _ (destroy_unless-Frees (same_stream app.input app.vm_in) app.vm_in) (
            Frees-then _ _ _ _ (destroy_unless-Frees (same_stream app.output app.vm_out) app.vm_out)
              (Frees-then _ _ _ _ (destroy_stream-Frees app.err) (
                Frees-then _ _ _ _ (destroy_logger-Frees app.logger) (
                  Frees-then _ _ _ _ (destroy_stream-Frees app.logger_stream) (
                    Frees-then _ _ _ _
                      (destroy_standard_creator-Frees owner.standard_stream_creator)
                      (Frees-then _ _ _ _ (destroy_file_creator-Frees owner.regular_file_creator) (
                        Frees-then _ _ _ _
                          (destroy_buffer_creator-Frees owner.dynamic_buffer_creator)
                          (Frees-then _ _ _ _ (destroy_factory-Frees owner.stream_factory) (
                            Frees-then _ _ _ _ (free-Frees owner.addr)
                              (free-Frees app.addr)))))))))))))

-- Destroying an application, initialised in full or in part, that owns its resources never aborts,
-- and closes and releases exactly those: a stream that the machine has in common with the application
-- is released once. The OSAL_FILE block of each close that failed stays allocated.
pub lexleo_app_destroy-Settles :
    (app : LexleoApp) (w : World)
    → ((r : Resource) → owned app r ≤ w.live r)
    → Returns
        (λ _ w'.
          (r : Resource)
          → allocated w' r + owned app r + orphans w.closes r ≡ allocated w r + orphans w'.closes r)
        (lexleo_app_destroy (some app) w)
lexleo_app_destroy-Settles app w h =
    weaken (lexleo_app_destroy-Frees app w h) λ _ w' d r. omega (arith, d r)
