-- ===== src/Sock/Raw.antt =====
-- The socket over Ethernet, class SockRaw of sock.h and sock.cpp. The Ethernet header is its 14 octets.
-- What the system answers is a parameter.
pub mod Frames
use libpmc.Base.{
  ℕ, zero, suc, ◌+◌, ◌≡◌, Bool, true, false, ◌&&◌, ◌||◌, not, List, [], ◌∷◌, ◌++◌, take, drop,
  Option, none, some, ◌==◌, ltb, if◌then◌else◌, length, replicate,
}
use libpmc.Base.Int.{ℤ, pos, negsuc}
use libpmc.Binary.{eui48, eui64, from_mac}
use libpmc.Config.File.{ConfigFile, ptp_dst_mac, socket_priority}
use libpmc.Ptp.{IfInfo}
use libpmc.Sock.{World, sys_socket, close_fd, send_reply, recv_reply}
use libpmc.Sock.Ip.{System, bind_to_device, priority, attach_filter, add_membership, has_value}

-- m_socket_priority is none for -1; m_addr is the part sll_addr of the link address.
pub record SockRaw : Type 0 where
  pub m_fd : Option ℕ
  pub m_is_init : Bool
  pub m_if_name : List ℕ
  pub m_mac : List ℕ
  pub m_if_index : ℤ
  pub m_have_if : Bool
  pub m_ptp_dst_mac : List ℕ
  pub m_socket_priority : Option ℕ
  pub m_addr : List ℕ
  pub m_hdr : List ℕ

-- sizeof(ethhdr)
abbrev pub hdr_size : ℕ
hdr_size = 14

unfoldable pub fresh_raw : SockRaw
fresh_raw = record {
  m_fd = none;
  m_is_init = false;
  m_if_name = [];
  m_mac = [];
  m_if_index = pos 0;
  m_have_if = false;
  m_ptp_dst_mac = [];
  m_socket_priority = none;
  m_addr = replicate 8 0;
  m_hdr = replicate hdr_size 0;
}

-- SockBaseIf::setIf
unfoldable pub set_raw_if : IfInfo → SockRaw → SockRaw × Bool
set_raw_if i s =
    if s.m_is_init
    then (s, false)
    else if i.m_is_init
    then (
      record s {
        m_if_name = i.m_if_name;
        m_if_index = i.m_if_index;
        m_mac = i.m_mac;
        m_have_if = true;
      },
      true,
    )
    else (s, false)

unfoldable pub set_ptp_dst_mac_str : List ℕ → SockRaw → SockRaw × Bool
set_ptp_dst_mac_str str s =
    if s.m_is_init || length str == 0
    then (s, false)
    else (let mac = from_mac str [] in
        if mac.1 then (record s { m_ptp_dst_mac = mac.0 }, true) else (s, false))

-- setPtpDstMac with a Binary, and with a memory block
unfoldable pub set_ptp_dst_mac : List ℕ → SockRaw → SockRaw × Bool
set_ptp_dst_mac mac s =
    if s.m_is_init || not (length mac == eui48) && not (length mac == eui64)
    then (s, false)
    else (record s { m_ptp_dst_mac = mac }, true)

unfoldable pub set_ptp_dst_mac_cfg : ConfigFile → List ℕ → SockRaw → SockRaw × Bool
set_ptp_dst_mac_cfg cfg section s =
    if s.m_is_init then (s, false) else (record s { m_ptp_dst_mac = ptp_dst_mac section cfg }, true)

unfoldable pub set_socket_priority : ℕ → SockRaw → SockRaw × Bool
set_socket_priority prio s =
    if s.m_is_init || ltb 15 prio
    then (s, false)
    else (record s { m_socket_priority = some prio }, true)

unfoldable pub set_socket_priority_cfg : ConfigFile → List ℕ → SockRaw → SockRaw × Bool
set_socket_priority_cfg cfg section s =
    if s.m_is_init
    then (s, false)
    else (record s { m_socket_priority = socket_priority section cfg }, true)

-- SockRaw::setAllBase
unfoldable pub set_all_raw : ConfigFile → List ℕ → SockRaw → SockRaw × Bool
unfolding set_ptp_dst_mac_cfg set_socket_priority_cfg
set_all_raw cfg section s =
    let first = set_ptp_dst_mac_cfg cfg section s in
    if first.1 then set_socket_priority_cfg cfg section first.0 else first

-- Binary::copy over the octets of a block
unfoldable pub overlay : List ℕ → List ℕ → List ℕ
overlay [] block = block
overlay (x ∷ xs) [] = []
overlay (x ∷ xs) (b ∷ block) = x ∷ overlay xs block

-- The copies into the header: h_proto, then h_dest at 0, where eight octets reach into h_source, then
-- h_source at 6.
unfoldable pub header : List ℕ → List ℕ → List ℕ → List ℕ
unfolding overlay
header dst_mac mac hdr =
    let typed = take 12 hdr ++ 0x88 ∷ 0xf7 ∷ [] in
    let dest = overlay dst_mac typed in take 6 dest ++ overlay mac (drop 6 dest)

-- SockRaw::initBase behind the call of socket
unfoldable pub configured_raw : System → SockRaw → SockRaw × Bool
unfolding header
configured_raw sys s =
    if sys.bind
      && sys.setsockopt bind_to_device
      && sys.setsockopt priority
      && sys.setsockopt attach_filter
      && sys.setsockopt add_membership
    then (
      record s {
        m_addr = overlay s.m_ptp_dst_mac s.m_addr;
        m_hdr = header s.m_ptp_dst_mac s.m_mac s.m_hdr;
        m_is_init = true;
      },
      true,
    )
    else (s, false)

unfoldable pub opened_raw : Option ℕ → System → SockRaw → World → (SockRaw × Bool) × World
unfolding configured_raw
opened_raw none sys s w = ((record s { m_fd = none }, false), w)
opened_raw (some fd) sys s w = (configured_raw sys (record s { m_fd = some fd }), w)

-- SockRaw::initBase: no closeBase before the call of socket
unfoldable pub init_raw : System → SockRaw → World → (SockRaw × Bool) × World
unfolding opened_raw
init_raw sys s w =
    if s.m_is_init
      || not s.m_have_if
      || length s.m_ptp_dst_mac == 0
      || not (has_value s.m_socket_priority)
    then ((s, false), w)
    else opened_raw sys.socket sys s (sys_socket sys.socket w)

-- close(): SockBase::closeBase
unfoldable pub close_raw : SockRaw → World → SockRaw × World
close_raw s w = (record s { m_fd = none }, close_fd s.m_fd w)

-- SockRaw::sendBase: the frame that sendmsg is given, and the result
unfoldable pub send_raw : List ℕ → ℤ → SockRaw → Option (List ℕ) × Bool
send_raw msg cnt s =
    if s.m_is_init
    then (some (s.m_hdr ++ msg), send_reply cnt (length msg + hdr_size))
    else (none, false)

-- What recvmsg returns and stores: it fails on the descriptor -1, and when the system says so.
unfoldable pub recv_msg : Option ℕ → ℕ → Option (List ℕ) → Option (List ℕ)
recv_msg none room frame = none
recv_msg (some fd) room none = none
recv_msg (some fd) room (some frame) = some (take room frame)

-- SockRaw::rcvBase behind the call of recvmsg, which fills m_rx_buf and then the user's buffer: the
-- result and what the user's buffer gets.
unfoldable pub frame_reply : ℕ → Option (List ℕ) → ℤ × List ℕ
frame_reply buf_size none = (negsuc 0, [])
frame_reply buf_size (some stored) =
    (recv_reply (pos (length stored)) (buf_size + hdr_size), drop hdr_size stored)

-- SockRaw::rcvBase with a user's buffer of `buf_size` octets and the frame that comes, or none when
-- recvmsg fails.
unfoldable pub rcv_raw : ℕ → Option (List ℕ) → SockRaw → ℤ × List ℕ
unfolding frame_reply recv_msg
rcv_raw buf_size frame s =
    if s.m_is_init
    then frame_reply buf_size (recv_msg s.m_fd (hdr_size + buf_size) frame)
    else (negsuc 0, [])
