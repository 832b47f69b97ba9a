-- ===== src/EnginePool/Leases.antt =====
-- What `engine_for` promises: the engine of a configuration is kept while it is in use, the same
-- configuration gets the same engine, and the pool holds no more idle engines than it may.
use ephemora_cell.Common.{
  ℕ, ◌≤◌, ◌<◌, ◌≡◌, ◌≢◌, ◌⊎◌, inl, inr, refl, String, none, some, arith, length, text_key,
  number_key, Option-cases, eq_iff,
}
use ephemora_cell.Common.Bytes.{Bytes}
use ephemora_cell.Common.Dict.{lookup, erase, IsUnique, lookup-insert, lookup-erase, length-insert}
use ephemora_cell.EnginePool.{
  Config, Entry, Pool, evict_rounds, evict_locked, engine_for, new_entry,
}
use ephemora_cell.EnginePool.Eviction.{
  evict_rounds-bound, evict_rounds-live, evict_rounds-IsUnique, candidate-live,
}

module _ (Module : Type 0) (config_fingerprint : Config → String) (sha256 : Bytes → String)
    (compile : ℕ → Bytes → Module) where
  -- Where no fingerprint is pooled twice, the entry of an engine in use stays as it is whatever engine
  -- is asked for.
  pub engine_for-live :
      (config : Config) (pool : Pool Module) (fp : String) (e : Entry Module)
      → IsUnique pool.entries
      → lookup fp pool.entries ≡ some e
      → 0 < e.refcount
      → lookup fp (engine_for Module config_fingerprint sha256 compile config pool).1.entries
        ≡ some e
  unfolding engine_for evict_locked
  engine_for-live config pool fp e u h live =
      elim (Option-cases (lookup (config_fingerprint config) pool.entries)) [
        | inr (x, k) ↦
            rw
              (
                engine_for,
                k,
                lookup-insert (config_fingerprint config) fp x
                    (erase (config_fingerprint config) pool.entries),
                lookup-erase (config_fingerprint config) fp pool.entries u,
              )
              (ground (arith, h, k, eq_iff (config_fingerprint config) fp))
        | inl k ↦
            let kept = evict_rounds-live Module (length pool.entries) pool fp e u h live in
            rw
              (
                engine_for,
                k,
                evict_locked,
                lookup-insert (config_fingerprint config) fp
                    (new_entry Module (evict_rounds Module (length pool.entries) pool).made)
                    (evict_rounds Module (length pool.entries) pool).entries,
              )
              (ground (arith, h, k, kept, eq_iff (config_fingerprint config) fp))
      ]

  engine_for-lookup :
      (config : Config) (pool : Pool Module)
      → (e : Entry Module) × (lookup
            (config_fingerprint config)
            (engine_for Module config_fingerprint sha256 compile config pool).1.entries
          ≡ some e)
        × (e.engine ≡ (engine_for Module config_fingerprint sha256 compile config pool).0)
  unfolding engine_for
  engine_for-lookup config pool =
      let fp = config_fingerprint config in
      elim (Option-cases (lookup fp pool.entries)) [
        | inr (x, k) ↦
            rw (engine_for, k)
              (x, ground (arith, lookup-insert fp fp x (erase fp pool.entries), eq_iff fp fp), refl)
        | inl k ↦
            let kept = evict_locked Module pool in
            rw (engine_for, k)
              (
                new_entry Module kept.made,
                ground (
                  arith,
                  lookup-insert fp fp (new_entry Module kept.made) kept.entries,
                  eq_iff fp fp,
                ),
                refl,
              )
      ]

  -- The same configuration gets the same engine when it asks again at once.
  pub engine_for_again :
      (config : Config) (pool : Pool Module)
      → (engine_for Module config_fingerprint sha256 compile config
          (engine_for Module config_fingerprint sha256 compile config pool).1).0
        ≡ (engine_for Module config_fingerprint sha256 compile config pool).0
  unfolding engine_for
  engine_for_again config pool =
      let (e, found, same) = engine_for-lookup config pool in rw (engine_for, found) same

  -- A new engine is made only with room for it: where no fingerprint is pooled twice, the pool may hold
  -- an engine and the configuration has none, the pool holds afterwards at most `max_engines` entries,
  -- or each entry but the new one is in use.
  pub engine_for-bound :
      (config : Config) (pool : Pool Module)
      → IsUnique pool.entries
      → 0 < pool.max_engines
      → lookup (config_fingerprint config) pool.entries ≡ none
      → (length (engine_for Module config_fingerprint sha256 compile config pool).1.entries
          ≤ pool.max_engines)
        ⊎ ((fp : String) (e : Entry Module)
            → fp ≢ config_fingerprint config
            → lookup fp (engine_for Module config_fingerprint sha256 compile config pool).1.entries
              ≡ some e
            → 0 < e.refcount)
  unfolding engine_for evict_locked
  engine_for-bound config pool u c k =
      let n = length pool.entries in
      let (unique, same) = evict_rounds-IsUnique Module n pool u in
      rw (engine_for, k, evict_locked)
        (elim (evict_rounds-bound Module n pool u (omega arith) c) [
          | inl room ↦ inl (
              ground (
                arith,
                room,
                same,
                length-insert (config_fingerprint config)
                    (new_entry Module (evict_rounds Module n pool).made)
                    (evict_rounds Module n pool).entries,
              ))
          | inr full ↦ inr (λ fp e differs l.
              candidate-live Module (evict_rounds Module n pool).entries fp e full (
                ground (
                  arith,
                  l,
                  differs,
                  eq_iff (config_fingerprint config) fp,
                  lookup-insert (config_fingerprint config) fp
                      (new_entry Module (evict_rounds Module n pool).made)
                      (evict_rounds Module n pool).entries,
                )))
        ])
