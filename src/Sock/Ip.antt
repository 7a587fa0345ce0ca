-- ===== src/Sock/Ip.antt =====
-- The sockets over UDP, class SockBaseIf, SockIp, SockIp4 and SockIp6 of sock.h and sock.cpp. One record
-- has the members of all four; the family tells SockIp4 from SockIp6. What the system answers is a
-- parameter.
pub mod Init
pub mod Sound
use libpmc.Base.{
  ℕ, ◌+◌, ◌≡◌, Bool, true, false, ◌&&◌, ◌||◌, not, List, [], ◌∷◌, Option, none, some, ◌==◌, ltb,
  if◌then◌else◌, length, replicate,
}
use libpmc.Base.Int.{ℤ, pos, negsuc}
use libpmc.Text.{codes}
use libpmc.Binary.{Inet, Domain, ipv4, ipv6, other_domain, from_ip_domain, set_bin}
use libpmc.Config.File.{ConfigFile, udp_ttl, udp6_scope}
use libpmc.Ptp.{IfInfo}
use libpmc.Sock.{World, sys_socket, close_fd, send_reply, recv_reply}

-- m_udp_ttl and m_udp6_scope are none for -1; m_addr is the address part of the socket address.
pub record SockIp : Type 0 where
  pub m_fd : Option ℕ
  pub m_is_init : Bool
  pub m_if_name : List ℕ
  pub m_mac : List ℕ
  pub m_if_index : ℤ
  pub m_have_if : Bool
  pub m_domain : Domain
  pub m_udp_ttl : Option ℕ
  pub m_mcast : List ℕ
  pub m_addr : List ℕ
  pub m_udp6_scope : Option ℕ
  pub m_scope_id : ℤ

abbrev fresh_ip : Domain → List ℕ → SockIp
fresh_ip domain any = record {
  m_fd = none;
  m_is_init = false;
  m_if_name = [];
  m_mac = [];
  m_if_index = pos 0;
  m_have_if = false;
  m_domain = domain;
  m_udp_ttl = none;
  m_mcast = [];
  m_addr = any;
  m_udp6_scope = none;
  m_scope_id = pos 0;
}

-- SockIp4::SockIp4 and SockIp6::SockIp6
unfoldable pub fresh_ip4 : SockIp
fresh_ip4 = fresh_ip ipv4 (replicate 4 0)

unfoldable pub fresh_ip6 : SockIp
fresh_ip6 = fresh_ip ipv6 (replicate 16 0)

unfoldable pub mcast_str : Domain → List ℕ
mcast_str ipv4 = codes "224.0.1.129"
mcast_str ipv6 = codes "ff0e::181"
mcast_str other_domain = []

-- SockBaseIf::setInt
unfoldable pub set_int : IfInfo → SockIp → SockIp
set_int i s = record s {
  m_if_name = i.m_if_name;
  m_if_index = i.m_if_index;
  m_mac = i.m_mac;
  m_have_if = true;
}

-- setIf; setIfUsingName and setIfUsingIndex are given what initUsingName or initUsingIndex returns.
unfoldable pub set_if : IfInfo → SockIp → SockIp × Bool
unfolding set_int
set_if i s =
    if s.m_is_init then (s, false) else if i.m_is_init then (set_int i s, true) else (s, false)

unfoldable pub set_if_using : IfInfo × Bool × ℕ → SockIp → SockIp × Bool
unfolding set_int
set_if_using r s =
    if s.m_is_init then (s, false) else if r.1 then (set_int r.0 s, true) else (s, false)

unfoldable pub set_udp_ttl : ℕ → SockIp → SockIp × Bool
set_udp_ttl ttl s = if s.m_is_init then (s, false) else (record s { m_udp_ttl = some ttl }, true)

-- setUdpTtl and setScope with a configuration
unfoldable pub set_udp_ttl_cfg : ConfigFile → List ℕ → SockIp → SockIp × Bool
set_udp_ttl_cfg cfg section s =
    if s.m_is_init then (s, false) else (record s { m_udp_ttl = udp_ttl section cfg }, true)

unfoldable pub set_scope : ℕ → SockIp → SockIp × Bool
set_scope scope s =
    if s.m_is_init || ltb 0xf scope
    then (s, false)
    else (record s { m_udp6_scope = some scope }, true)

unfoldable pub set_scope_cfg : ConfigFile → List ℕ → SockIp → SockIp × Bool
set_scope_cfg cfg section s =
    if s.m_is_init then (s, false) else (record s { m_udp6_scope = udp6_scope section cfg }, true)

-- setAllBase of SockIp4 and of SockIp6
unfoldable pub set_all_base : ConfigFile → List ℕ → SockIp → SockIp × Bool
unfolding set_udp_ttl_cfg set_scope_cfg
set_all_base cfg section s =
    let ttl = set_udp_ttl_cfg cfg section s in
    elim s.m_domain [ ipv6 ↦ if ttl.1 then set_scope_cfg cfg section ttl.0 else ttl | other ↦ ttl ]

-- SockBaseIf::setAll
unfoldable pub set_all : IfInfo → ConfigFile → List ℕ → SockIp → SockIp × Bool
unfolding set_if set_all_base
set_all i cfg section s =
    let first = set_if i s in if first.1 then set_all_base cfg section first.0 else first

-- The options of the source's setsockopt calls.
pub data SockOpt : Type 0 where
  reuse_addr : SockOpt
  bind_to_device : SockOpt
  multicast_ttl : SockOpt
  multicast_hops : SockOpt
  add_membership : SockOpt
  multicast_loop : SockOpt
  multicast_if : SockOpt
  priority : SockOpt
  attach_filter : SockOpt

-- The answers of the system during one initialisation.
pub record System : Type 0 where
  pub socket : Option ℕ
  pub bind : Bool
  pub setsockopt : SockOpt → Bool

-- SockIp4::init2
unfoldable pub init2_ip4 : System → SockIp → SockIp × Bool
init2_ip4 sys s =
    if sys.setsockopt multicast_ttl
      && sys.setsockopt add_membership
      && sys.setsockopt multicast_loop
      && sys.setsockopt multicast_if
    then (record s { m_addr = s.m_mcast }, true)
    else (s, false)

unfoldable pub is_two : Option ℕ → Bool
is_two none = false
is_two (some scope) = scope == 2

unfoldable pub scope_octet : Option ℕ → List ℕ → List ℕ
unfolding set_bin
scope_octet none m = m
scope_octet (some scope) m = set_bin 1 scope m

unfoldable pub has_value : Option ℕ → Bool
has_value none = false
has_value (some v) = true

-- The address for sending; the scope's index on the local link.
unfoldable pub addressed : SockIp → SockIp
unfolding is_two
addressed s =
    let named : SockIp = record s { m_addr = s.m_mcast } in
    if is_two s.m_udp6_scope then record named { m_scope_id = s.m_if_index } else named

-- SockIp6::init2 behind the hops, with the scope in the multicast address
unfoldable pub join_ip6 : System → SockIp → SockIp × Bool
unfolding addressed
join_ip6 sys s =
    if sys.setsockopt add_membership && sys.setsockopt multicast_loop && sys.setsockopt multicast_if
    then (addressed s, true)
    else (s, false)

-- SockIp6::init2
unfoldable pub init2_ip6 : System → SockIp → SockIp × Bool
unfolding join_ip6 scope_octet has_value
init2_ip6 sys s =
    if not (has_value s.m_udp6_scope) || not (sys.setsockopt multicast_hops)
    then (s, false)
    else join_ip6 sys (record s { m_mcast = scope_octet s.m_udp6_scope s.m_mcast })

unfoldable pub init2 : Domain → System → SockIp → SockIp × Bool
unfolding init2_ip4 init2_ip6
init2 ipv4 sys s = init2_ip4 sys s
init2 ipv6 sys s = init2_ip6 sys s
init2 other_domain sys s = (s, false)

unfoldable pub marked : SockIp × Bool → SockIp × Bool
marked (s, true) = (record s { m_is_init = true }, true)
marked (s, false) = (s, false)

-- initBase behind the call of socket
unfoldable pub configured : Inet → System → SockIp → SockIp × Bool
unfolding init2 marked mcast_str
configured inet sys s =
    if sys.setsockopt reuse_addr && sys.bind && sys.setsockopt bind_to_device
    then (let mcast = from_ip_domain inet (mcast_str s.m_domain) s.m_domain s.m_mcast in
        if mcast.1
        then marked (init2 s.m_domain sys (record s { m_mcast = mcast.0 }))
        else (s, false))
    else (s, false)

unfoldable pub after_socket : Option ℕ → Inet → System → SockIp → World → (SockIp × Bool) × World
unfolding configured
after_socket none inet sys s w = ((record s { m_fd = none }, false), w)
after_socket (some fd) inet sys s w = (configured inet sys (record s { m_fd = some fd }), w)

-- SockIp::initBase
unfoldable pub init_base : Inet → System → SockIp → World → (SockIp × Bool) × World
unfolding after_socket has_value
init_base inet sys s w =
    if s.m_is_init || not s.m_have_if || not (has_value s.m_udp_ttl)
    then ((s, false), w)
    else after_socket sys.socket inet sys s (sys_socket sys.socket (close_fd s.m_fd w))

-- SockBaseIf::setAllInit
unfoldable pub set_all_init :
    Inet → System → IfInfo → ConfigFile → List ℕ → SockIp → World → (SockIp × Bool) × World
set_all_init inet sys i cfg section s w =
    let all = set_all i cfg section s in if all.1 then init_base inet sys all.0 w else (all, w)

-- close(): SockIp has no closeBase of its own, so this is SockBase::closeBase, which leaves m_isInit.
unfoldable pub close_base : SockIp → World → SockIp × World
close_base s w = (record s { m_fd = none }, close_fd s.m_fd w)

-- SockIp::sendBase: the address that sendto is given, when it is called, and the result
unfoldable pub send_base : List ℕ → ℤ → SockIp → Option (Option ℕ × List ℕ) × Bool
send_base msg cnt s =
    if s.m_is_init then (some (s.m_fd, s.m_addr), send_reply cnt (length msg)) else (none, false)

-- SockIp::rcvBase
unfoldable pub rcv_base : ℕ → ℤ → SockIp → ℤ
rcv_base buf_size cnt s = if s.m_is_init then recv_reply cnt buf_size else negsuc 0
