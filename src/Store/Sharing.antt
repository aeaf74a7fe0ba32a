-- ===== src/Store/Sharing.antt =====
-- The processor configs of an account that the memory store hands out stand on the store's array.
use webmail_engine.Base.{
  ℕ, ◌≡◌, refl, ◌∙◌, ap, Bool, false, List, [], ◌∷◌, ◌++◌, some, String, get_elem?, set,
  get_elem?-set_self, get_elem?-append_left, if_false,
}
use webmail_engine.Base.Dict.{lookup}
use webmail_engine.Store.Types.{ok, Result, Account, AccountProcessorConfig, MemoryStore}
use webmail_engine.Store.{get_by_id}
use webmail_engine.Store.Records.{
  switch_config, switch_at, configs_of, update_account_processor_configs, enable_account_processor,
}

module _ {R : Type 0} where
  configs_at :
      (s : MemoryStore R) (a : Account R) (at : ℕ) (cs : List AccountProcessorConfig)
      → a.processor_configs ≡ some at
      → get_elem? s.arrays at ≡ some cs
      → configs_of s a ≡ cs
  configs_at s a at cs e f = rw (e, configs_of) (rw (f, configs_of) refl)

  enable_found :
      (s : MemoryStore R) (id kind : String) (enabled : Bool) (a : Account R) (at : ℕ)
      (cs cs' : List AccountProcessorConfig)
      → s.closed ≡ false
      → lookup id s.accounts ≡ some a
      → a.processor_configs ≡ some at
      → get_elem? s.arrays at ≡ some cs
      → switch_config kind enabled cs ≡ some cs'
      → enable_account_processor s id kind enabled
        ≡ (record s { arrays = set s.arrays at cs' }, ok tt)
  unfolding enable_account_processor switch_at
  enable_found s id kind enabled a at cs cs' o e at_a held sw =
      if_false s.closed _ _ o ∙ (rw e (rw (configs_at s a at cs at_a held) (rw sw (rw at_a refl))))

  update_found :
      (s : MemoryStore R) (id : String) (a : Account R) (new : List AccountProcessorConfig)
      → s.closed ≡ false
      → lookup id s.accounts ≡ some a
      → (update_account_processor_configs s id new).0.arrays ≡ s.arrays ++ new ∷ []
  unfolding update_account_processor_configs
  update_found s id a new o e =
      ap (λ (r : MemoryStore R × Result (Unit {0})). r.0.arrays) (if_false s.closed _ _ o)
      ∙ (rw e refl)

  get_found :
      (s : MemoryStore R) (id : String) (a : Account R)
      → s.closed ≡ false
      → lookup id s.accounts ≡ some a
      → (get_by_id s id).1 ≡ ok a
  unfolding get_by_id
  get_found s id a o e = rw (o, e) refl

  -- On an open store, an account with processor configs that was read before shows the switch that
  -- `EnableAccountProcessor` makes later, where a config of the type is there to be switched: the
  -- copy that `GetByID` returned shares the configs with the store. A replacement of the configs by
  -- `UpdateAccountProcessorConfigs` does not show in it.
  pub enable_shows_in_copies :
      (s : MemoryStore R) (id kind : String) (enabled : Bool) (a : Account R) (at : ℕ)
      (cs cs' new : List AccountProcessorConfig)
      → s.closed ≡ false
      → lookup id s.accounts ≡ some a
      → a.processor_configs ≡ some at
      → get_elem? s.arrays at ≡ some cs
      → switch_config kind enabled cs ≡ some cs'
      → ((get_by_id s id).1 ≡ ok a)
        × (configs_of s a ≡ cs)
        × ((enable_account_processor s id kind enabled).1 ≡ ok tt)
        × (configs_of (enable_account_processor s id kind enabled).0 a ≡ cs')
        × (configs_of (update_account_processor_configs s id new).0 a ≡ cs)
  enable_shows_in_copies s id kind enabled a at cs cs' new o e at_a held sw = (
    get_found s id a o e,
    configs_at s a at cs at_a held,
    rw (enable_found s id kind enabled a at cs cs' o e at_a held sw) refl,
    rw (enable_found s id kind enabled a at cs cs' o e at_a held sw) (
        configs_at (record s { arrays = set s.arrays at cs' }) a at cs' at_a
          (get_elem?-set_self s.arrays at cs' cs held)),
    configs_at (update_account_processor_configs s id new).0 a at cs at_a (
        ap (λ xs. get_elem? xs at) (update_found s id a new o e)
        ∙ get_elem?-append_left s.arrays (new ∷ []) at cs held),
  )
