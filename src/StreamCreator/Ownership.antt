-- ===== src/StreamCreator/Ownership.antt =====
-- What the construction of creators does to the heap (the create functions of the creators).
use lex_leo.Prelude.{ℕ, ◌≡◌, refl, false, Option, List, [], ◌∷◌, ◌==◌, length}
use lex_leo.Status.{StreamFactoryStatus}
use lex_leo.Memory.{Resource, World, block}
use lex_leo.Memory.Balance.{
  Returns, returns, bind, built, failed, Builds, Allocated, fresh, exhausted, calloc-Allocated,
}
use lex_leo.StreamCreator.{
  StreamCreator, new_creator, stream_create_standard_stream_creator,
  stream_create_regular_file_creator, stream_create_dynamic_buffer_creator,
}

abbrev pub own_creator : StreamCreator → List Resource
own_creator c = block c.addr ∷ []

module _ (id : List ℕ) (w : World) where
  abbrev pub Creators : StreamFactoryStatus × Option StreamCreator → World → Type 0
  Creators = Builds StreamFactoryStatus.ok own_creator (λ c. c.adapter_id ≡ id) w

  new_creator-Builds :
      {o : Option ℕ} {w' : World} → Allocated w o w' → Returns Creators (new_creator id o w')
  unfolding new_creator
  new_creator-Builds (fresh p d) = returns (built refl d)
  new_creator-Builds (exhausted b) = returns (failed (cc) b)

  module _ (named : (length id == 0) ≡ false) where
    pub create_standard_stream_creator-Builds :
        Returns Creators (stream_create_standard_stream_creator id w)
    unfolding stream_create_standard_stream_creator
    create_standard_stream_creator-Builds =
        rw named (bind (calloc-Allocated w) λ o w' a. new_creator-Builds a)

    pub create_regular_file_creator-Builds :
        Returns Creators (stream_create_regular_file_creator id w)
    unfolding stream_create_regular_file_creator
    create_regular_file_creator-Builds =
        rw named (bind (calloc-Allocated w) λ o w' a. new_creator-Builds a)

    pub create_dynamic_buffer_creator-Builds :
        Returns Creators (stream_create_dynamic_buffer_creator id w)
    unfolding stream_create_dynamic_buffer_creator
    create_dynamic_buffer_creator-Builds =
        rw named (bind (calloc-Allocated w) λ o w' a. new_creator-Builds a)
