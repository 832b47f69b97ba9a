-- ===== src/EnginePool/Eviction.antt =====
-- What eviction keeps: the entries that are in use, and at most the entries that the pool may hold.
use ephemora_cell.Common.{
  ℕ, zero, suc, ◌≤◌, ◌<◌, ◌≡◌, ◌⊎◌, inl, inr, refl, String, none, some, [], ◌∷◌, leb, arith, length,
  text_key, number_key, Option-cases, Bool-cases, eq_iff,
}
use ephemora_cell.Common.Dict.{Dict, lookup, IsUnique, lookup-erase, erase-IsUnique, length-erase}
use ephemora_cell.EnginePool.{Entry, Pool, candidate, drop_entry, evict_rounds}

module _ (Module : Type 0) where
  pub candidate-lookup :
      (d : Dict String (Entry Module)) (fp : String) (e : Entry Module)
      → IsUnique d
      → candidate Module d ≡ some (fp, e)
      → (lookup fp d ≡ some e) × (e.refcount ≡ 0)
  candidate-lookup [] fp e u h = ground (arith, h)
  candidate-lookup ((g, x) ∷ rest) fp e u h =
      ground (arith, eq_iff g fp, eq_iff g g, candidate-lookup rest fp e u.1)

  -- Once the rounds are over, there is room for an entry or each entry is in use.
  pub evict_rounds-bound :
      (fuel : ℕ) (pool : Pool Module)
      → IsUnique pool.entries
      → length pool.entries ≤ fuel
      → 0 < pool.max_engines
      → (length (evict_rounds Module fuel pool).entries < pool.max_engines)
        ⊎ (candidate Module (evict_rounds Module fuel pool).entries ≡ none)
  unfolding evict_rounds
  evict_rounds-bound zero pool u n c = inl (omega (arith, n, c))
  evict_rounds-bound (suc fuel) pool u n c =
      elim (Bool-cases (leb pool.max_engines (length pool.entries))) [
        | inr f ↦ inl (rw (evict_rounds, f) (ground (arith, f)))
        | inl t ↦ elim (Option-cases (candidate Module pool.entries)) [
          | inl k ↦ inr (rw (evict_rounds, t, k) k)
          | inr ((fp, e), k) ↦
              let (found, idle) = candidate-lookup pool.entries fp e u k in
              rw (evict_rounds, t, k)
                (evict_rounds-bound fuel (drop_entry Module (fp, e) pool)
                  (erase-IsUnique fp pool.entries u)
                  (ground (arith, n, length-erase fp pool.entries, found)) c)
        ]
      ]

  pub evict_rounds-live :
      (fuel : ℕ) (pool : Pool Module) (fp : String) (e : Entry Module)
      → IsUnique pool.entries
      → lookup fp pool.entries ≡ some e
      → 0 < e.refcount
      → lookup fp (evict_rounds Module fuel pool).entries ≡ some e
  unfolding evict_rounds
  evict_rounds-live zero pool fp e u h live = h
  evict_rounds-live (suc fuel) pool fp e u h live =
      elim (Bool-cases (leb pool.max_engines (length pool.entries))) [
        | inr f ↦ rw (evict_rounds, f) h
        | inl t ↦ elim (Option-cases (candidate Module pool.entries)) [
          | inl k ↦ rw (evict_rounds, t, k) h
          | inr ((g, x), k) ↦
              let (found, idle) = candidate-lookup pool.entries g x u k in
              rw (evict_rounds, t, k)
                (evict_rounds-live fuel (drop_entry Module (g, x) pool) fp e
                  (erase-IsUnique g pool.entries u)
                  (ground
                    (arith, lookup-erase g fp pool.entries u, h, live, found, idle, eq_iff g fp))
                  live)
        ]
      ]

  pub evict_rounds-IsUnique :
      (fuel : ℕ) (pool : Pool Module)
      → IsUnique pool.entries
      → IsUnique (evict_rounds Module fuel pool).entries
        × ((evict_rounds Module fuel pool).max_engines ≡ pool.max_engines)
  unfolding evict_rounds
  evict_rounds-IsUnique zero pool u = (u, refl)
  evict_rounds-IsUnique (suc fuel) pool u =
      elim (Bool-cases (leb pool.max_engines (length pool.entries))) [
        | inr f ↦ rw (evict_rounds, f) (u, refl)
        | inl t ↦ elim (Option-cases (candidate Module pool.entries)) [
          | inl k ↦ rw (evict_rounds, t, k) (u, refl)
          | inr ((g, x), k) ↦
              rw (evict_rounds, t, k)
                (evict_rounds-IsUnique fuel (drop_entry Module (g, x) pool)
                  (erase-IsUnique g pool.entries u))
        ]
      ]

  pub candidate-live :
      (d : Dict String (Entry Module)) (fp : String) (e : Entry Module)
      → candidate Module d ≡ none
      → lookup fp d ≡ some e
      → 0 < e.refcount
  candidate-live [] fp e h k = ground (arith, k)
  candidate-live ((g, x) ∷ rest) fp e h k = ground (arith, candidate-live rest fp e, h, k)
