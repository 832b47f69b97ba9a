-- ===== src/EnginePool.antt =====
-- `EnginePool` of ephemora_cell/engine_pool.py: engines by the fingerprint of their configuration, in the
-- order of their last use, and the modules that each has compiled. Engines are numbered as they are
-- made, so that no two have one identity. The fingerprint, the digest of a module's bytes and the
-- compiler are parameters; each method runs under the pool's lock and is one step.
pub mod Eviction
pub mod Leases
use ephemora_cell.Common.{
  ℕ, zero, suc, ◌+◌, ◌-◌, String, Bool, true, false, not, Option, none, some, List, [], ◌∷◌,
  nat_beq, ltb, leb, if◌then◌else◌, Outcome, ok, raised, ◌>>=◌, length, text_key, number_key,
}
use ephemora_cell.Common.Bytes.{Bytes}
use ephemora_cell.Common.Dict.{Dict, lookup, insert, erase}

-- The fields of a `WASIConfig` that an engine depends on.
pub record Config : Type 0 where
  pub max_memory_mb : ℕ
  pub max_fuel : ℕ
  pub max_threads : ℕ
  pub memory64 : Bool

pub data Error : Type 0 where
  bad_max_engines not_managed : Error

module _ (Module : Type 0) where
  -- `_EngineEntry`
  pub record Entry : Type 0 where
    pub engine : ℕ
    pub modules : Dict String Module
    pub refcount : ℕ
    pub ticking : Bool

  -- `by_engine_id` names the pooled entry of an engine by its fingerprint; `made` counts the engines.
  pub record Pool : Type 0 where
    pub max_engines : ℕ
    pub max_modules_per_engine : ℕ
    pub entries : Dict String Entry
    pub by_engine_id : Dict ℕ String
    pub made : ℕ

  -- `EnginePool(…)`
  unfoldable pub create : ℕ → ℕ → Outcome Error Pool
  create max_engines max_modules =
      if ltb max_engines 1
      then raised bad_max_engines
      else ok (record {
        max_engines = max_engines;
        max_modules_per_engine = max_modules;
        entries = [];
        by_engine_id = [];
        made = 0;
      })

  -- `_new_entry` and `start_ticker`
  abbrev pub new_entry : ℕ → Entry
  new_entry engine = record { engine = engine; modules = []; refcount = 0; ticking = true }

  -- The least recently used entry that is not live.
  abbrev pub candidate : Dict String Entry → Option (String × Entry)
  candidate [] = none
  candidate ((fp, e) ∷ rest) = if nat_beq e.refcount 0 then some (fp, e) else candidate rest

  abbrev pub drop_entry : String × Entry → Pool → Pool
  drop_entry (fp, e) pool = record pool {
    entries = erase fp pool.entries;
    by_engine_id = erase e.engine pool.by_engine_id;
  }

  -- The rounds of `_evict_locked`, as many as the fuel; each takes one entry away.
  unfoldable pub evict_rounds : ℕ → Pool → Pool
  evict_rounds zero pool = pool
  evict_rounds (suc fuel) pool =
      if leb pool.max_engines (length pool.entries)
      then elim (candidate pool.entries) [
        | none ↦ pool
        | some c ↦ evict_rounds fuel (drop_entry c pool)
      ]
      else pool

  -- `_evict_locked`
  unfoldable pub evict_locked : Pool → Pool
  evict_locked pool = evict_rounds (length pool.entries) pool

  -- What `engine_for` does where the fingerprint is not pooled.
  abbrev pub add_entry : String → Pool → ℕ × Pool
  add_entry fp pool =
      let kept = evict_locked pool in
      (
        kept.made,
        record kept {
          entries = insert fp (new_entry kept.made) kept.entries;
          by_engine_id = insert kept.made fp kept.by_engine_id;
          made = suc kept.made;
        },
      )

  -- Where it is: the entry becomes the most recently used.
  abbrev pub touch : String → Entry → Pool → ℕ × Pool
  touch fp e pool = (e.engine, record pool { entries = insert fp e (erase fp pool.entries) })

  -- `_entry_for`
  unfoldable pub entry_for : ℕ → Pool → Outcome Error (String × Entry)
  entry_for engine pool = elim (lookup engine pool.by_engine_id) [
    | none ↦ raised not_managed
    | some fp ↦ elim (lookup fp pool.entries) [
      | none ↦ raised not_managed
      | some e ↦ if nat_beq e.engine engine then ok (fp, e) else raised not_managed
    ]
  ]

  abbrev pub with_entry : Pool → String → Entry → Pool
  with_entry pool fp e = record pool { entries = insert fp e pool.entries }

  -- `retain`
  unfoldable pub retain : ℕ → Pool → Outcome Error Pool
  retain engine pool = do
    (fp, e) ← entry_for engine pool
    ok (with_entry pool fp (record e { refcount = e.refcount + 1 }))

  -- `release`: `max(0, refcount - 1)`
  unfoldable pub release : ℕ → Pool → Outcome Error Pool
  release engine pool = do
    (fp, e) ← entry_for engine pool
    ok (with_entry pool fp (record e { refcount = e.refcount - 1 }))

  -- `close`
  abbrev pub close : Pool → Pool
  close pool = record pool { entries = []; by_engine_id = [] }

  -- `while len(modules) > cap: modules.popitem(last=False)`
  unfoldable pub drop_oldest : ℕ → Dict String Module → Dict String Module
  drop_oldest cap [] = []
  drop_oldest cap (b ∷ rest) =
      let shorter = drop_oldest cap rest in
      if ltb cap (suc (length rest)) then shorter else b ∷ rest

  module _ (config_fingerprint : Config → String) (sha256 : Bytes → String)
      (compile : ℕ → Bytes → Module) where
    -- `engine_for`
    unfoldable pub engine_for : Config → Pool → ℕ × Pool
    engine_for config pool =
        let fp = config_fingerprint config in
        elim (lookup fp pool.entries) [ none ↦ add_entry fp pool | some e ↦ touch fp e pool ]

    -- The cache of an entry after `cached_module_data`, and the module that it returns.
    unfoldable pub cached : ℕ → Entry → Bytes → Module × Dict String Module
    cached cap e wasm =
        let key = sha256 wasm in
        elim (lookup key e.modules) [
          | none ↦ let m = compile e.engine wasm in (m, drop_oldest cap (insert key m e.modules))
          | some m ↦ (m, insert key m (erase key e.modules))
        ]

    -- `cached_module_data`
    unfoldable pub cached_module_data : ℕ → Bytes → Pool → Outcome Error (Module × Pool)
    cached_module_data engine wasm pool = do
      (fp, e) ← entry_for engine pool
      ok (
        (cached pool.max_modules_per_engine e wasm).0,
        with_entry pool fp (record e { modules = (cached pool.max_modules_per_engine e wasm).1 }),
      )
