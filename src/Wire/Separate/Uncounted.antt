-- ===== src/Wire/Separate/Uncounted.antt =====
-- putInt32Array of prep_encoder.cpp and of real_encoder.cpp, in a message of the fixed version.
use coev.Base.{ℕ, ◌+◌, ◌*◌, ◌≤◌, ◌<◌, ◌≡◌}
use coev.Base.{List, [], ◌∷◌, length}
use coev.Wire.Outcome.{M, Outcome, ok, err, fault, stuck}
use coev.Wire.Separate.Prep
use coev.Wire.Separate.Prep.{PrepPut}
use coev.Wire.Separate.Real
use coev.Wire.Separate.Real.{RealEncoder}
use coev.Wire.Separate.Calls.{Call}
use coev.Wire.Separate.Calls.{
  int8, int16, int32, int64, bool, kerror, duration_ms, float64, int32_array,
}

-- The calls that put a value of fixed size, and putInt32Array.
abbrev pub IsPlain : Call → Type 0
IsPlain (int8 z) = Unit {0}
IsPlain (int16 z) = Unit {0}
IsPlain (int32 z) = Unit {0}
IsPlain (int64 z) = Unit {0}
IsPlain (bool b) = Unit {0}
IsPlain (kerror z) = Unit {0}
IsPlain (duration_ms z) = Unit {0}
IsPlain (float64 n) = Unit {0}
IsPlain (int32_array xs) = Unit {0}
IsPlain _ = ⊥

-- The bytes of a call in the fixed version, and those that are counted.
abbrev width : Call → ℕ
width (int8 z) = 1
width (int16 z) = 2
width (int32 z) = 4
width (int64 z) = 8
width (bool b) = 1
width (kerror z) = 2
width (duration_ms z) = 4
width (float64 n) = 8
width (int32_array xs) = 4 + 4 * length xs
width _ = 0

abbrev measure : Call → ℕ
measure (int32_array xs) = 0
measure c = width c

abbrev total : (Call → ℕ) → List Call → ℕ
total f [] = 0
total f (c ∷ cs) = f c + total f cs

abbrev Ready : RealEncoder → Type 0
Ready r = (r.flexible ≡ 0) × (r.position ≤ length r.raw)

-- A call goes w bytes on, or fails as the buffer does not have them.
abbrev Took : {A : Type 0} → ℕ → RealEncoder → Outcome RealEncoder A → Type 0
Took w r (ok a q) = (q.position ≡ r.position + w) × (length q.raw ≡ length r.raw) × Ready q
Took w r (err c q) = ⊥
Took w r fault = length r.raw < r.position + w
Took w r stuck = ⊥

abbrev Takes : {A : Type 0} → ℕ → M RealEncoder A → Type 0
Takes w m = (r : RealEncoder) → Ready r → Took w r (m r)

-- The bytes that the values of fixed size take, without the arrays.
abbrev pub measured : List Call → ℕ
measured cs = total measure cs
