-- ===== src/Tests/EnginePool.antt =====
-- The engine pool at concrete inputs: a pool of one engine.
use ephemora_cell.Common.{
  ℕ, ◌≡◌, refl, String, true, false, some, [], ◌∷◌, arith, length, text_key, if◌then◌else◌, nat_beq,
}
use ephemora_cell.Common.Bytes.{Bytes}
use ephemora_cell.Common.Dict.{lookup}
use ephemora_cell.EnginePool.{
  Config, Entry, Pool, engine_for, new_entry, evict_locked, evict_rounds,
}
use ephemora_cell.EnginePool.Leases.{engine_for-live}

abbrev Module : Type 0
Module = Bytes

abbrev fingerprint : Config → String
fingerprint c = if nat_beq c.max_fuel 0 then "unmetered" else "metered"

abbrev digest : Bytes → String
digest b = "digest"

abbrev compile : ℕ → Bytes → Module
compile engine b = b

abbrev metered : Config
metered = record { max_memory_mb = 64; max_fuel = 100; max_threads = 1; memory64 = false }

abbrev live : Entry Module
live = record { engine = 0; modules = []; refcount = 1; ticking = true }

abbrev pool : Pool Module
pool = record {
  max_engines = 1;
  max_modules_per_engine = 2;
  entries = ("unmetered", live) ∷ [];
  by_engine_id = (0, "unmetered") ∷ [];
  made = 1;
}

engine_for-live_example :
    lookup "unmetered" (engine_for Module fingerprint digest compile metered pool).1.entries
    ≡ some live
engine_for-live_example =
    engine_for-live Module fingerprint digest compile metered pool "unmetered" live (refl, tt) refl
      (omega arith)

-- The idle engine of a full pool gives its place.
evicts_idle :
    length
      (engine_for Module fingerprint digest compile metered
        (record pool { entries = ("unmetered", new_entry Module 0) ∷ [] })).1.entries
    ≡ 1
unfolding engine_for evict_locked evict_rounds
evicts_idle = refl
