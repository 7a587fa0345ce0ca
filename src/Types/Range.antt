-- ===== src/Types/Range.antt =====
-- The 48-bit seconds of a time stamp: `proc48` of msg.cpp for an unsigned value.
use libpmc.Base.{ℕ, ◌^◌, ◌≤◌, ◌<◌, ◌≡◌, false, length}
use libpmc.Wire.{Cursor}
use libpmc.Wire.Codec.{Agrees, within}
use libpmc.Types.{proc_u48}
use libpmc.Types.Codecs.{net48, u48-read}

-- A parse of the six octets that a build writes for a value below 2 to the 48 gives back the value, or
-- refuses a data field that is too small for them.
pub proc_u48-read :
    (v w : ℕ) (c : Cursor)
    → v < 2 ^ 48
    → c.build ≡ false
    → c.left ≤ length c.rest
    → Agrees (net48 v) c.rest
    → proc_u48 w c ≡ within c (net48 v) v
proc_u48-read v w c h dir room agree = (u48-read w h).at c dir room (λ e. agree)
