-- ===== src/State/Session.antt =====
-- A session: the host and the guest call the store in any order, with any arguments.
use ephemora_cell.Common.{
  ℕ, ◌≡◌, some, List, [], ◌∷◌, arith, ok, raised, Option-cases, Outcome-cases, inl, inr,
}
use ephemora_cell.Common.Int.{ℤ, pos_part}
use ephemora_cell.Common.Bytes.{Bytes, Text, bytes_key}
use ephemora_cell.State.{Store, create, set, stored, delete, clear}
use ephemora_cell.State.Imports.{Memory, call_set, call_delete, read_text, read_bytes}
use ephemora_cell.State.Bounds.{
  IsValid, create-IsValid, set-IsValid, set-accepted, delete-IsValid, clear-IsValid,
}

module _ (memory : Memory) where
  -- One call. The guest's come with the memory as it stands at the call.
  pub data Call : Type 0 where
    host_set : Text → Bytes → Call
    host_delete : Text → Call
    host_clear : Call
    guest_set : memory.Mem → ℤ → ℤ → ℤ → ℤ → Call
    guest_get : memory.Mem → ℤ → ℤ → ℤ → ℤ → Call
    guest_delete : memory.Mem → ℤ → ℤ → Call

  -- The store that the call leaves. `get` has no store to leave: it only reads.
  unfoldable pub step : Store → Call → Store
  step s (host_set name value) = elim (set s name value) [ ok s' ↦ s' | raised c ↦ s ]
  step s (host_delete name) = (delete s name).0
  step s host_clear = clear s
  step s (guest_set m np nl vp vl) = (call_set memory m s np nl vp vl).1
  step s (guest_get m np nl bp lp) = s
  step s (guest_delete m np nl) = (call_delete memory m s np nl).1

  unfoldable pub session : Store → List Call → Store
  session s [] = s
  session s (c ∷ cs) = session (step s c) cs

  -- The invariant, with the caps that the store was created with.
  pub record Holds (v t e : ℕ) (s : Store) : Type 0 where
    pub valid : IsValid s
    pub value_cap : s.max_value ≡ v
    pub total_cap : s.max_total ≡ t
    pub entries_cap : s.max_entries ≡ e

  set-Holds :
      {v t e : ℕ} (s s' : Store) (name : Text) (value : Bytes)
      → Holds v t e s
      → set s name value ≡ ok s'
      → Holds v t e s'
  unfolding stored
  set-Holds s s' name value h q =
      let (p, made) = set-accepted s s' name value q in
      record {
        valid = set-IsValid s s' name value h.valid q;
        value_cap = rw made h.value_cap;
        total_cap = rw made h.total_cap;
        entries_cap = rw made h.entries_cap;
      }

  delete-Holds :
      {v t e : ℕ} (s : Store) (name : Text) → Holds v t e s → Holds v t e (delete s name).0
  unfolding delete
  delete-Holds s name h = record {
    valid = unfold delete in delete-IsValid s name h.valid;
    value_cap = ground (arith, h.value_cap);
    total_cap = ground (arith, h.total_cap);
    entries_cap = ground (arith, h.entries_cap);
  }

  call_set-Holds :
      {v t e : ℕ} (m : memory.Mem) (s : Store) (np nl vp vl : ℤ)
      → Holds v t e s
      → Holds v t e (call_set memory m s np nl vp vl).1
  unfolding call_set
  call_set-Holds m s np nl vp vl h = elim (Option-cases (read_text memory m np nl)) [
    | inl e ↦ rw (e, call_set) h
    | inr (name, e) ↦ elim (Option-cases (read_bytes memory m vp vl)) [
      | inl f ↦ rw (e, f, call_set) h
      | inr (value, f) ↦ elim (Outcome-cases (set s name value)) [
        | inl (s', g) ↦ rw (e, f, g, call_set) (set-Holds s s' name value h g)
        | inr (c, g) ↦ rw (e, f, g, call_set) h
      ]
    ]
  ]

  call_delete-Holds :
      {v t e : ℕ} (m : memory.Mem) (s : Store) (np nl : ℤ)
      → Holds v t e s
      → Holds v t e (call_delete memory m s np nl).1
  unfolding call_delete
  call_delete-Holds m s np nl h = elim (Option-cases (read_text memory m np nl)) [
    | inl e ↦ rw (e, call_delete) h
    | inr (name, e) ↦ rw (e, call_delete) (delete-Holds s name h)
  ]

  step-Holds : {v t e : ℕ} (s : Store) (c : Call) → Holds v t e s → Holds v t e (step s c)
  unfolding step
  step-Holds s (host_set name value) h = elim (Outcome-cases (set s name value)) [
    | inl (s', g) ↦ rw (g, step) (set-Holds s s' name value h g)
    | inr (c, g) ↦ rw (g, step) h
  ]
  step-Holds s (host_delete name) h = delete-Holds s name h
  step-Holds s host_clear h =
      unfold clear in
      record {
        valid = clear-IsValid s h.valid;
        value_cap = h.value_cap;
        total_cap = h.total_cap;
        entries_cap = h.entries_cap;
      }
  step-Holds s (guest_set m np nl vp vl) h = call_set-Holds m s np nl vp vl h
  step-Holds s (guest_get m np nl bp lp) h = h
  step-Holds s (guest_delete m np nl) h = call_delete-Holds m s np nl h

  session-Holds :
      {v t e : ℕ} (s : Store) (cs : List Call) → Holds v t e s → Holds v t e (session s cs)
  unfolding session
  session-Holds s [] h = h
  session-Holds s (c ∷ cs) h = session-Holds (step s c) cs (step-Holds s c h)

  create-Holds :
      (v t e : ℤ) (s : Store)
      → create v t e ≡ some s
      → Holds (pos_part v) (pos_part t) (pos_part e) s
  unfolding create
  create-Holds v t e s h = record {
    valid = create-IsValid v t e s (unfold create in h);
    value_cap = ground arith;
    total_cap = ground arith;
    entries_cap = ground arith;
  }

  -- Whatever the host and the guest call after the store was created with caps `v`, `t` and `e`: no
  -- name is bound twice or empty, each value has at most `v` bytes, the store's running total is the
  -- sum of the lengths of its values and at most `t`, and at most `e` names are bound.
  pub session-IsValid :
      (v t e : ℤ) (s : Store) (cs : List Call)
      → create v t e ≡ some s
      → let s' = session s cs in
        IsValid s'
        × (s'.max_value ≡ pos_part v)
        × (s'.max_total ≡ pos_part t)
        × (s'.max_entries ≡ pos_part e)
  session-IsValid v t e s cs h =
      let r = session-Holds s cs (create-Holds v t e s h) in
      (r.valid, r.value_cap, r.total_cap, r.entries_cap)
