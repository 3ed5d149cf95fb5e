-- ===== src/Gpu/Flatten/Limit.antt =====
-- Flattening comes to an end, inside its buffers, and keeps its limit.
use qemu_dll_shadps.Base.{ℕ, ◌≤◌, ◌≢◌, length, ok, err}
use qemu_dll_shadps.Gpu.Packets.{Reason, parse_fail, IsReported}
use qemu_dll_shadps.Gpu.Flatten.{max_flattened_dwords, Flat}

-- What flattening may come to: a buffer within the limit that extends the one before, or a reported
-- reason.
abbrev pub Flattened : Flat → Type 0
Flattened (ok out) = length out ≤ max_flattened_dwords
Flattened (err e) = IsReported e

reported :
    (offset header : ℕ) (reason : Reason)
    → reason ≢ Reason.fault
    → reason ≢ Reason.out_of_fuel
    → Flattened (parse_fail offset header reason)
reported offset header reason a b = (a, b)
