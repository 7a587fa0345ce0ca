-- ===== src/Tests/Binaries.antt =====
-- The values of class Binary, the memory block and the names at concrete inputs.
use libpmc.Base.{if◌then◌else◌, ◌==◌, ◌≡◌, true, [], ◌∷◌, none, some, arith}
use libpmc.Text.{codes}
use libpmc.Binary.Octets.{get_bin-set_bin}
use libpmc.Binary.{set_bin, get_bin}
use libpmc.Binary.{from_id, buf_to_id, from_hex, buf_to_hex}
use libpmc.Binary.RoundTrip.{from_id-buf_to_id, from_hex-buf_to_hex}
use libpmc.Binary.Parsed.{Stores, from_text-Stores}
use libpmc.Buffer.{Buf, alloc, Ensures, alloc-Ensures}
use libpmc.Message.Identity.{identity_string, from_hex-identity_string}

from_id-buf_to_id_example :
    from_id (buf_to_id (1 ∷ 0x1b ∷ 255 ∷ [])) (7 ∷ []) ≡ (1 ∷ 0x1b ∷ 255 ∷ [], true)
from_id-buf_to_id_example = from_id-buf_to_id 1 (0x1b ∷ 255 ∷ []) (7 ∷ []) (omega arith)

from_hex-buf_to_hex_example : from_hex (buf_to_hex (0 ∷ 0xa5 ∷ [])) [] ≡ (0 ∷ 0xa5 ∷ [], true)
from_hex-buf_to_hex_example = from_hex-buf_to_hex 0 (0xa5 ∷ []) [] (omega arith)

from_text-Stores_example :
    Stores [] (from_id (codes "1:100") []) × Stores [] (from_hex (codes "1:100") [])
from_text-Stores_example = from_text-Stores (codes "1:100") []

get_bin-set_bin_example :
    get_bin 1 (set_bin 3 9 (5 ∷ 6 ∷ [])) ≡ (if 1 == 3 then 9 else get_bin 1 (5 ∷ 6 ∷ []))
get_bin-set_bin_example = get_bin-set_bin 3 9 1 (5 ∷ 6 ∷ [])

abbrev block : Buf
block = record { m_buf = some 4096; m_size = 100 }

alloc-Ensures_example : Ensures 200 block (alloc (λ n. none) 200 block)
alloc-Ensures_example =
    alloc-Ensures (λ n. none) 200 block (λ e. absurd (omega (arith, e)), λ e. absurd (cc e))

from_hex-identity_string_example :
    from_hex (identity_string (0 ∷ 0x1b ∷ 0x19 ∷ 0xff ∷ 0xfe ∷ 0 ∷ 0 ∷ 1 ∷ [])) []
    ≡ (0 ∷ 0x1b ∷ 0x19 ∷ 0xff ∷ 0xfe ∷ 0 ∷ 0 ∷ 1 ∷ [], true)
from_hex-identity_string_example =
    from_hex-identity_string 0 0x1b 0x19 0xff 0xfe 0 0 1 (omega arith) []
