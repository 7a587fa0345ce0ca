-- ===== src/Lib.antt =====
-- libpmc: a library that builds and parses the management messages of the Precision Time Protocol
-- (IEEE 1588) that a client exchanges with the clocks of a network. This development models its core,
-- the class `Message`, and shows that what it builds and parses is right.
--
-- The parts and the files that model them:
--   * Base: Boolean tests on native numbers, lists, signed integers, a table check on octets.
--   * Wire (msg.cpp `proc`, end.h): `Cursor` is m_build, m_cur, m_left and m_size over the caller's
--     buffer; a `proc` function is a function of the cursor whose outcome is a value with the new
--     cursor, an error (`return true` with m_err), or a fault, which is an access beyond the buffer.
--     Wire/Codec, Wire/Values and Wire/Safety hold what it means to write or read given octets and to
--     stay within the data field, and that the single values do.
--   * Types (msg.h, msg.cpp): the compound types, the flags, and the list loops `vector_f` and
--     `vector_o`. The loop of `vector_o` recurses on fuel, one more than the octets left; each record
--     takes at least one octet, so the fuel is enough.
--   * Ids (ids.h, msg.cpp): the table of management ids and the tests on it, findTlvId, allowedAction
--     and checkReplyAction.
--   * Mng (proc.h, proc.cpp, msg.cpp): the management TLVs, one structure and one function for build
--     and parse each, the size functions, and call_tlv_data, which selects by id (Mng/Dispatch).
--   * Sig (sig.h, sig.cpp): the signaling TLVs and their functions.
--   * Message (msg.h, msg.cpp): the parameters and the state of a message, setAction, updateParams and
--     getMsgPlanedLen; Message/Build is `build`; Message/Parse is `parse` up to the call of `parseSig`;
--     Message/Signaling is `parseSig`, and `parse` with the call in it. The loop of `parseSig`
--     recurses on fuel, one more than the octets of the message; each TLV takes at least four, so the
--     fuel is enough.
--     Message/Getters has the getters on the TLVs of a signaling message and useConfig; Message/Names
--     the functions that name values; Message/Identity the texts of identities.
--   * Text: texts as octets, and what bin.cpp and cfg.cpp use of the C library, by its documented
--     behaviour.
--   * Binary (bin.h, bin.cpp): the operations and the text conversions of class Binary on its octets.
--   * Buffer (buf.h, buf.cpp): class Buf.
--   * Config (cfg.h, cfg.cpp): a section and set_val; Config/File is ConfigFile, its map an association
--     list and its reference cfgGlobal the entry "global"; Config/Journal is what a file says, a list of
--     assignments; Config/Stored, Config/Refines and Config/Getters relate the two.
--   * Ptp (ptp.h, ptp.cpp): IfInfo and the constructor of PtpClock.
--   * Sock (sock.h, sock.cpp): the base, with the descriptors and the files that calls leave behind as
--     `World`; Sock/Poll the waits; Sock/Unix, Sock/Ip and Sock/Raw the sockets, and the steps of their
--     lives.
--   * Tests: the theorems at concrete inputs.
-- A message holds an id and the data to send; `build` writes the header, then call_tlv_data runs the
-- function of the id over a cursor on the data field; `parse` checks the header, finds the id and does
-- the same in the other direction. Every function of proc.cpp serves both directions.
--
-- Numbers are native naturals with the width of the source's types as bounds of valid data; signed
-- integers are two's complement on the wire. An enumeration is its number, as the casts leave it. A
-- structure that the source leaves indeterminate starts with zeros. Octets are numbers below 256
-- where a theorem says so.
--
-- The client reads the configuration, gives it to the message and to a socket, and sends what `build`
-- wrote and parses what the socket received. What the system or the C library's allocator and address
-- functions answer is an argument of each operation. read_cfg assigns through a reference to a
-- section that it has just destroyed, which leaves the language's rules; its loop over the lines is
-- modelled on its own, and the theorems on it start from the configuration of the constructor, or say
-- from which other one. Whether the vector of signaling TLVs moves its records when one is added is a
-- field of the message, sig_moves. A read of `parse` or `parseSig` beyond the buffer is a crash, also of
-- the fields of the header (`reading`).
--
-- Not modelled: the start of read_cfg, JSON, the pmc tools, the version and the language bindings, the destructors, the packet
-- filter of SockRaw, which the kernel runs, and what is printed on errors.
-- The failure of strdup in the conversions of bin.cpp is left out.
-- What a failed build leaves in the buffer, and a failed parse in the error text, is left out. Float64
-- is modelled for hosts with IEEE 754 floats in host byte order.

pub mod Base
pub mod Wire
pub mod Text
pub mod Binary
pub mod Buffer
pub mod Config
pub mod Types
pub mod Ids
pub mod Mng
pub mod Sig
pub mod Ptp
pub mod Sock
pub mod Message
pub mod Tests
