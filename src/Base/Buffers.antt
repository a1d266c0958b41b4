-- ===== src/Base/Buffers.antt =====
-- Byte memory: a buffer, a file or a device is the function from an offset to the byte there. A C
-- buffer has a length besides, which the operations on it are given.
use Prim.Native.Nat.{ℕ, ◌+◌, ◌-◌, ◌<◌}
use mathlib.Core.Bool.{Bool, ◌&&◌}
use nextufs.Base.Tests.{ltb, leb, ◌==◌, if◌then◌else◌}

abbrev pub Bytes : Type 0
Bytes = ℕ → ℕ

abbrev pub IsBytes : Bytes → Type 0
IsBytes m = (i : ℕ) → m i < 256

-- `memset(p, 0, n)` on a fresh buffer
abbrev pub zeros : Bytes
zeros i = 0

-- `p + off`
abbrev pub shift : Bytes → ℕ → Bytes
shift m off i = m (off + i)

-- one byte is stored
abbrev pub put : Bytes → ℕ → ℕ → Bytes
put m at v i = if i == at then v else m i

-- whether `i` lies in [off, off + size)
abbrev pub within : ℕ → ℕ → ℕ → Bool
within off size i = leb off i && ltb i (off + size)

-- `memcpy(m + off, b, size)`
abbrev pub splice : Bytes → Bytes → ℕ → ℕ → Bytes
splice m b size off i = if within off size i then b (i - off) else m i
