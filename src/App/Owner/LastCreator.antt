-- ===== src/App/Owner/LastCreator.antt =====
-- The end of lexleo_app_init_stream_owner_opaque: the provider and the creator of dynamic buffers.
use lex_leo.Prelude.{ℕ, ◌+◌, ◌≡◌, ◌≢◌, refl, Option, none, List, [], ◌∷◌, arith, codes}
use lex_leo.Status.{StreamFactoryStatus, DynamicBufferStreamStatus}
use lex_leo.Memory.{World}
use lex_leo.Memory.Release.{Owning}
use lex_leo.Memory.Balance.{Returns, returns, bind, count, Built, built, failed}
use lex_leo.StreamFactory.{
  dynamic_buffer_ctor, fs_ctor, stdio_ctor, Entry, StreamAdapterProvider, StreamFactory,
  stream_factory_get_adapter_provider, find_entry, contains_id, valid_id,
}
use lex_leo.StreamFactory.Ownership.{own_provider, own_factory}
use lex_leo.StreamCreator.{StreamCreator}
use lex_leo.StreamCreator.Ownership.{own_creator, create_dynamic_buffer_creator-Builds}
use lex_leo.App.{LexleoAppStreamOwner}
use lex_leo.App.Owner.{buffer_creator_made, buffer_added, buffer_provided}
use lex_leo.StreamFactory.Registry.{add_adapter_new}
use lex_leo.App.Owner.Outcome.{OwnerMade, owner_made, undone, undo_both}

abbrev pub standard_entry : StreamAdapterProvider → Entry
standard_entry p = (codes "stdio", p)

abbrev pub file_entry : StreamAdapterProvider → Entry
file_entry p = (codes "fs", p)

abbrev pub buffer_entry : StreamAdapterProvider → Entry
buffer_entry p = (codes "dbs", p)

module _ (owner : LexleoAppStreamOwner) (w : World) (a u g : ℕ) where
  abbrev pub fact : List Entry → StreamFactory
  fact es = record { addr = a; ctor_ud = u; reg_entries = g; entries = es; cap = 16 }

  buffer_creator_made_lem :
      (p q b : StreamAdapterProvider) (std file : StreamCreator) (w₁ : World)
      → p.backend_ctor ≡ stdio_ctor
      → q.backend_ctor ≡ fs_ctor
      → b.backend_ctor ≡ dynamic_buffer_ctor 256
      → std.adapter_id ≡ codes "stdio"
      → file.adapter_id ≡ codes "fs"
      → Owning w
          (λ r.
            count r (own_creator std)
            + (count r (own_creator file)
                + count r
                    (own_factory (fact (standard_entry p ∷ file_entry q ∷ buffer_entry b ∷ [])))))
          w₁
      → {st : StreamFactoryStatus} {o : Option StreamCreator} {w₂ : World}
      → Built StreamFactoryStatus.ok own_creator (λ c. c.adapter_id ≡ codes "dbs") w₁ st o w₂
      → Returns (OwnerMade owner.addr w) (
          buffer_creator_made owner
            (fact (standard_entry p ∷ file_entry q ∷ buffer_entry b ∷ []))
            std
            file
            (st, o)
            w₂)
  unfolding buffer_creator_made stream_factory_get_adapter_provider find_entry
  buffer_creator_made_lem p q b std file w₁ is_p is_q is_b is_std is_file d
        (built {h = buffer} named e) =
      returns (
        owner_made
          (record {
            factory = fact (standard_entry p ∷ file_entry q ∷ buffer_entry b ∷ []);
            has_factory = refl;
            standard_provider = (p, refl, is_p);
            file_provider = (q, refl, is_q);
            buffer_provider = (b, refl, is_b);
            standard_creator = (std, refl, is_std);
            file_creator = (file, refl, is_file);
            buffer_creator = (buffer, refl, named);
          })
          refl (λ r. omega (arith, d r, e r)))
  buffer_creator_made_lem p q b std file w₁ is_p is_q is_b is_std is_file d
        (failed {st} {w' = w₂} ne bal) =
      other st ne
    where
      other :
          (st : StreamFactoryStatus)
          → st ≢ StreamFactoryStatus.ok
          → Returns (OwnerMade owner.addr w) (
              buffer_creator_made owner
                (fact (standard_entry p ∷ file_entry q ∷ buffer_entry b ∷ []))
                std
                file
                (st, none)
                w₂)
      other StreamFactoryStatus.ok ne = absurd (ne refl)
      other _ ne =
          undone owner.addr w _ _ (undo_both std file _) w₂ (λ r. omega (arith, d r, bal r))

  pub buffer_provided_lem :
      (p q : StreamAdapterProvider) (std file : StreamCreator) (w₁ : World)
      → p.backend_ctor ≡ stdio_ctor
      → q.backend_ctor ≡ fs_ctor
      → std.adapter_id ≡ codes "stdio"
      → file.adapter_id ≡ codes "fs"
      → Owning w
          (λ r.
            count r (own_creator std)
            + (count r (own_creator file)
                + count r (own_factory (fact (standard_entry p ∷ file_entry q ∷ [])))))
          w₁
      → {st : DynamicBufferStreamStatus} {o : Option StreamAdapterProvider} {w₂ : World}
      → Built DynamicBufferStreamStatus.ok own_provider
          (λ b. b.backend_ctor ≡ dynamic_buffer_ctor 256)
          w₁
          st
          o
          w₂
      → Returns
          (OwnerMade owner.addr w)
          (buffer_provided owner (fact (standard_entry p ∷ file_entry q ∷ [])) std file (st, o) w₂)
  unfolding buffer_provided buffer_added contains_id valid_id
  buffer_provided_lem p q std file w₁ is_p is_q is_std is_file d (built {h = b} {w' = w₂} is_b e) =
      rw
        (add_adapter_new (fact (standard_entry p ∷ file_entry q ∷ [])) (codes "dbs") b w₂ refl refl
          refl)
        (bind (create_dynamic_buffer_creator-Builds (codes "dbs") w₂ refl) λ (st, o) w₃ c.
          buffer_creator_made_lem p q b std file w₂ is_p is_q is_b is_std is_file
            (λ r. omega (arith, d r, e r)) c)
  buffer_provided_lem p q std file w₁ is_p is_q is_std is_file d
        (failed {st = DynamicBufferStreamStatus.ok} ne bal) =
      absurd (ne refl)
  buffer_provided_lem p q std file w₁ is_p is_q is_std is_file d
        (failed {st = DynamicBufferStreamStatus.oom} {w' = w₂} ne bal) =
      undone owner.addr w _ _ (undo_both std file _) w₂ (λ r. omega (arith, d r, bal r))
