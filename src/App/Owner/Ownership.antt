-- ===== src/App/Owner/Ownership.antt =====
-- What lexleo_app_init_stream_owner_opaque yields and holds.
use lex_leo.Prelude.{ℕ, ◌+◌, ◌≡◌, ◌≢◌, refl, Option, none, [], ◌∷◌, arith, codes}
use lex_leo.Status.{StreamFactoryStatus, StdioStreamStatus, FsStreamStatus}
use lex_leo.Memory.{World}
use lex_leo.Memory.Release.{Owning}
use lex_leo.Memory.Balance.{Returns, returns, bind, count, Built, built, failed}
use lex_leo.DynamicBuffer.Lifetime.{dynamic_buffer_stream_default_cfg}
use lex_leo.StreamFactory.{
  fs_ctor, stdio_ctor, StreamAdapterProvider, StreamFactory, contains_id, valid_id,
}
use lex_leo.StreamFactory.Ownership.{own_provider, own_factory, Empty, stream_create_factory-Builds}
use lex_leo.StreamFactory.Provider.Ownership.{
  dynamic_buffer_stream_create_adapter_provider-Builds, fs_stream_create_adapter_provider-Builds,
  stdio_stream_create_adapter_provider-Builds,
}
use lex_leo.StreamCreator.{StreamCreator}
use lex_leo.StreamCreator.Ownership.{
  own_creator, create_standard_stream_creator-Builds, create_regular_file_creator-Builds,
}
use lex_leo.App.{LexleoAppStreamOwner}
use lex_leo.App.Owner.{
  stream_default_factory_cfg, file_creator_made, file_added, file_provided, standard_creator_made,
  standard_added, standard_provided, factory_made, lexleo_app_init_stream_owner_opaque,
}
use lex_leo.StreamFactory.Registry.{add_adapter_new}
use lex_leo.App.Owner.Outcome.{OwnerMade, no_owner, undone, undo_factory, undo_standard}
use lex_leo.App.Owner.LastCreator.{standard_entry, file_entry, fact, buffer_provided_lem}

module _ (owner : LexleoAppStreamOwner) (w : World) (a u g : ℕ) where
  file_creator_made_lem :
      (p q : StreamAdapterProvider) (std : StreamCreator) (w₁ : World)
      → p.backend_ctor ≡ stdio_ctor
      → q.backend_ctor ≡ fs_ctor
      → std.adapter_id ≡ codes "stdio"
      → Owning w
          (λ r.
            count r (own_creator std)
            + count r (own_factory (fact owner w a u g (standard_entry p ∷ file_entry q ∷ []))))
          w₁
      → {st : StreamFactoryStatus} {o : Option StreamCreator} {w₂ : World}
      → Built StreamFactoryStatus.ok own_creator (λ c. c.adapter_id ≡ codes "fs") w₁ st o w₂
      → Returns (OwnerMade owner.addr w) (
          file_creator_made owner
            (fact owner w a u g (standard_entry p ∷ file_entry q ∷ []))
            std
            (st, o)
            w₂)
  unfolding file_creator_made dynamic_buffer_stream_default_cfg
  file_creator_made_lem p q std w₁ is_p is_q is_std d (built {h = file} {w' = w₂} is_file e) =
      bind (dynamic_buffer_stream_create_adapter_provider-Builds 256 w₂ (omega arith))
        λ (st, o) w₃ b.
          buffer_provided_lem owner w a u g p q std file w₂ is_p is_q is_std is_file
            (λ r. omega (arith, d r, e r)) b
  file_creator_made_lem p q std w₁ is_p is_q is_std d (failed {st} {w' = w₂} ne bal) = other st ne
    where
      other :
          (st : StreamFactoryStatus)
          → st ≢ StreamFactoryStatus.ok
          → Returns (OwnerMade owner.addr w) (
              file_creator_made owner
                (fact owner w a u g (standard_entry p ∷ file_entry q ∷ []))
                std
                (st, none)
                w₂)
      other StreamFactoryStatus.ok ne = absurd (ne refl)
      other _ ne = undone owner.addr w _ _ (undo_standard std _) w₂ (λ r. omega (arith, d r, bal r))

  file_provided_lem :
      (p : StreamAdapterProvider) (std : StreamCreator) (w₁ : World)
      → p.backend_ctor ≡ stdio_ctor
      → std.adapter_id ≡ codes "stdio"
      → Owning w
          (λ r.
            count r (own_creator std)
            + count r (own_factory (fact owner w a u g (standard_entry p ∷ []))))
          w₁
      → {st : FsStreamStatus} {o : Option StreamAdapterProvider} {w₂ : World}
      → Built FsStreamStatus.ok own_provider (λ q. q.backend_ctor ≡ fs_ctor) w₁ st o w₂
      → Returns
          (OwnerMade owner.addr w)
          (file_provided owner (fact owner w a u g (standard_entry p ∷ [])) std (st, o) w₂)
  unfolding file_provided file_added contains_id valid_id
  file_provided_lem p std w₁ is_p is_std d (built {h = q} {w' = w₂} is_q e) =
      rw
        (add_adapter_new (fact owner w a u g (standard_entry p ∷ [])) (codes "fs") q w₂ refl refl
          refl)
        (bind (create_regular_file_creator-Builds (codes "fs") w₂ refl) λ (st, o) w₃ c.
          file_creator_made_lem p q std w₂ is_p is_q is_std (λ r. omega (arith, d r, e r)) c)
  file_provided_lem p std w₁ is_p is_std d (failed {st} {w' = w₂} ne bal) = other st ne
    where
      other :
          (st : FsStreamStatus)
          → st ≢ FsStreamStatus.ok
          → Returns
              (OwnerMade owner.addr w)
              (file_provided owner (fact owner w a u g (standard_entry p ∷ [])) std (st, none) w₂)
      other FsStreamStatus.ok ne = absurd (ne refl)
      other _ ne = undone owner.addr w _ _ (undo_standard std _) w₂ (λ r. omega (arith, d r, bal r))

  standard_creator_made_lem :
      (p : StreamAdapterProvider) (w₁ : World)
      → p.backend_ctor ≡ stdio_ctor
      → Owning w (λ r. count r (own_factory (fact owner w a u g (standard_entry p ∷ [])))) w₁
      → {st : StreamFactoryStatus} {o : Option StreamCreator} {w₂ : World}
      → Built StreamFactoryStatus.ok own_creator (λ c. c.adapter_id ≡ codes "stdio") w₁ st o w₂
      → Returns
          (OwnerMade owner.addr w)
          (standard_creator_made owner (fact owner w a u g (standard_entry p ∷ [])) (st, o) w₂)
  unfolding standard_creator_made
  standard_creator_made_lem p w₁ is_p d (built {h = std} {w' = w₂} is_std e) =
      bind (fs_stream_create_adapter_provider-Builds w₂)
        λ (st, o) w₃ b. file_provided_lem p std w₂ is_p is_std (λ r. omega (arith, d r, e r)) b
  standard_creator_made_lem p w₁ is_p d (failed {st} {w' = w₂} ne bal) = other st ne
    where
      other :
          (st : StreamFactoryStatus)
          → st ≢ StreamFactoryStatus.ok
          → Returns (OwnerMade owner.addr w) (
              standard_creator_made owner
                (fact owner w a u g (standard_entry p ∷ []))
                (st, none)
                w₂)
      other StreamFactoryStatus.ok ne = absurd (ne refl)
      other _ ne = undone owner.addr w _ _ (undo_factory _) w₂ (λ r. omega (arith, d r, bal r))

  standard_provided_lem :
      (w₁ : World)
      → Owning w (λ r. count r (own_factory (fact owner w a u g []))) w₁
      → {st : StdioStreamStatus} {o : Option StreamAdapterProvider} {w₂ : World}
      → Built StdioStreamStatus.ok own_provider (λ p. p.backend_ctor ≡ stdio_ctor) w₁ st o w₂
      → Returns
          (OwnerMade owner.addr w)
          (standard_provided owner (fact owner w a u g []) (st, o) w₂)
  unfolding standard_provided standard_added contains_id valid_id
  standard_provided_lem w₁ d (built {h = p} {w' = w₂} is_p e) =
      rw (add_adapter_new (fact owner w a u g []) (codes "stdio") p w₂ refl refl refl) (
        bind (create_standard_stream_creator-Builds (codes "stdio") w₂ refl)
          λ (st, o) w₃ c. standard_creator_made_lem p w₂ is_p (λ r. omega (arith, d r, e r)) c)
  standard_provided_lem w₁ d (failed {st = StdioStreamStatus.ok} ne bal) = absurd (ne refl)
  standard_provided_lem w₁ d (failed {st = StdioStreamStatus.oom} {w' = w₂} ne bal) =
      undone owner.addr w _ _ (undo_factory _) w₂ (λ r. omega (arith, d r, bal r))

module _ (owner : LexleoAppStreamOwner) (w : World) where
  factory_made_lem :
      {st : StreamFactoryStatus} {o : Option StreamFactory} {w₁ : World}
      → Built StreamFactoryStatus.ok own_factory (Empty 16) w st o w₁
      → Returns (OwnerMade owner.addr w) (factory_made owner (st, o) w₁)
  unfolding factory_made
  factory_made_lem (built {h = f} {w' = w₁} empty d) =
      let same : f ≡ record f { entries = []; cap = 16 } = rw (← empty.entries, ← empty.cap) refl in
      bind (stdio_stream_create_adapter_provider-Builds w₁) λ (st, o) w₂ b. rw same (
        standard_provided_lem owner w f.addr f.ctor_ud f.reg_entries w₁
          (λ r. let x = d r in omega (arith, (rw empty.entries at x))) b)
  factory_made_lem (failed {st} {w' = w₁} ne bal) = other st ne
    where
      other :
          (st : StreamFactoryStatus)
          → st ≢ StreamFactoryStatus.ok
          → Returns (OwnerMade owner.addr w) (factory_made owner (st, none) w₁)
      other StreamFactoryStatus.ok ne = absurd (ne refl)
      other _ ne = returns (no_owner bal)

  -- For an owner without a factory and without creators, the initialisation never aborts. Either the
  -- owner then has a factory and three creators, each of which asks for an identifier under which the
  -- factory provides its kind of stream, and exactly what they own was taken; or, whichever of the
  -- calls failed, everything that was taken is given back.
  pub lexleo_app_init_stream_owner_opaque-OwnerMade :
      owner.stream_factory ≡ none
      → owner.standard_stream_creator ≡ none
      → owner.regular_file_creator ≡ none
      → owner.dynamic_buffer_creator ≡ none
      → Returns (OwnerMade owner.addr w) (lexleo_app_init_stream_owner_opaque owner w)
  unfolding lexleo_app_init_stream_owner_opaque stream_default_factory_cfg
  lexleo_app_init_stream_owner_opaque-OwnerMade e₁ e₂ e₃ e₄ =
      rw (e₁, e₂, e₃, e₄)
        (bind (stream_create_factory-Builds 16 w (omega arith)) λ (st, o) w₁ b. factory_made_lem b)
