-- ===== src/Sock/Unix.antt =====
-- class SockUnix of sock.h and sock.cpp. Texts are octets; a sockaddr_un is its path. Each operation
-- takes what its calls of the system return, and returns the object and the world after it.
pub mod Life
pub mod Reopen
use libpmc.Base.{
  ℕ, ◌+◌, ◌≡◌, Bool, true, false, ◌&&◌, ◌||◌, not, List, [], ◌∷◌, ◌++◌, take, Option, none, some,
  ◌==◌, ltb, if◌then◌else◌, length,
}
use libpmc.Base.Int.{ℤ, pos, negsuc}
use libpmc.Text.{same, codes, c_string}
use libpmc.Config.File.{ConfigFile, uds_address}
use libpmc.Sock.{
  World, sys_unlink, sys_socket, close_fd, send_reply, recv_reply, unix_path_max, test_unix,
}

pub record SockUnix : Type 0 where
  pub m_fd : Option ℕ
  pub m_is_init : Bool
  pub m_me : List ℕ
  pub m_peer : List ℕ
  pub m_home_dir : List ℕ
  pub m_last_from : List ℕ
  pub m_peer_addr : List ℕ

-- setUnixAddr: strncpy of the path
unfoldable pub set_unix_addr : List ℕ → List ℕ
set_unix_addr str = take unix_path_max (c_string str)

unfoldable pub fresh_unix : SockUnix
unfolding set_unix_addr
fresh_unix = record {
  m_fd = none;
  m_is_init = false;
  m_me = [];
  m_peer = [];
  m_home_dir = [];
  m_last_from = [];
  m_peer_addr = set_unix_addr [];
}

-- unlink, which the system may refuse: then the file stays.
unfoldable pub unlink_file : Bool → List ℕ → World → World
unlink_file unlinked name w = if unlinked then sys_unlink name w else w

-- SockUnix::closeBase, with whether unlink succeeds
unfoldable pub close_base : Bool → SockUnix → World → SockUnix × World
unfolding unlink_file
close_base unlinked s w =
    let closed = close_fd s.m_fd w in
    if s.m_is_init
    then (
      record s { m_fd = none; m_is_init = false },
      unlink_file unlinked (c_string s.m_me) closed,
    )
    else (record s { m_fd = none }, closed)

-- bind makes the socket's file.
unfoldable pub sys_bind : List ℕ → World → World
sys_bind name w = record w { files = name ∷ w.files }

-- initBase behind the call of socket
unfoldable pub opened : Option ℕ → Bool → SockUnix → World → (SockUnix × Bool) × World
unfolding sys_bind
opened none bound s w = ((record s { m_fd = none }, false), w)
opened (some fd) true s w =
    ((record s { m_fd = some fd; m_is_init = true }, true), sys_bind (set_unix_addr s.m_me) w)
opened (some fd) false s w = ((record s { m_fd = some fd }, false), w)

-- SockUnix::initBase, with what socket returns and whether bind succeeds
unfoldable pub init_base : Option ℕ → Bool → SockUnix → World → (SockUnix × Bool) × World
unfolding opened
init_base fd bound s w =
    if s.m_is_init || not (test_unix s.m_me)
    then ((s, false), w)
    else opened fd bound s (sys_socket fd (close_fd s.m_fd w))

-- SockUnix::setPeerInternal
unfoldable pub set_peer_internal : List ℕ → SockUnix → SockUnix × Bool
set_peer_internal str s =
    if test_unix str
    then (record s { m_peer = str; m_peer_addr = set_unix_addr str }, true)
    else (s, false)

-- setPeerAddress with a configuration
unfoldable pub set_peer_address : ConfigFile → List ℕ → SockUnix → SockUnix × Bool
unfolding set_peer_internal
set_peer_address cfg section s = set_peer_internal (uds_address section cfg) s

unfoldable pub set_self_address : List ℕ → SockUnix → SockUnix × Bool
set_self_address str s =
    if s.m_is_init || not (test_unix str) then (s, false) else (record s { m_me = str }, true)

-- getHomeDir, with what getpwuid gives
unfoldable pub get_home_dir : List ℕ → SockUnix → SockUnix × List ℕ
get_home_dir pw_dir s = (record s { m_home_dir = pw_dir }, pw_dir)

abbrev or_default : List ℕ → List ℕ → List ℕ
or_default given default = if length given == 0 then default else given

-- setDefSelfAddress; `pid` is the text of the process's number
unfoldable pub set_def_self_address :
    Bool → List ℕ → List ℕ → List ℕ → List ℕ → SockUnix → SockUnix × Bool
unfolding set_self_address get_home_dir
set_def_self_address is_root pw_dir pid root_base use_def s =
    if s.m_is_init
    then (s, false)
    else if is_root
    then set_self_address (or_default root_base (codes "/var/run/pmc.") ++ pid) s
    else (let home = get_home_dir pw_dir s in
        set_self_address (home.1 ++ or_default use_def (codes "/.pmc.") ++ pid) home.0)

-- A datagram that sendto is given: its octets and the path it goes to.
pub record Datagram : Type 0 where
  pub octets : List ℕ
  pub path : List ℕ

-- SockUnix::sendTo and sendBase: the datagram, when one is sent, and the result; `cnt` is what sendto
-- returns.
unfoldable pub send_any : List ℕ → List ℕ → ℤ → Option Datagram × Bool
send_any msg addr cnt = (some (record { octets = msg; path = addr }), send_reply cnt (length msg))

unfoldable pub send_base : List ℕ → ℤ → SockUnix → Option Datagram × Bool
unfolding send_any
send_base msg cnt s =
    if not s.m_is_init || not (test_unix s.m_peer)
    then (none, false)
    else send_any msg s.m_peer_addr cnt

unfoldable pub send_to : List ℕ → List ℕ → ℤ → SockUnix → Option Datagram × Bool
unfolding send_any
send_to msg addr_str cnt s =
    if not s.m_is_init || not (test_unix addr_str)
    then (none, false)
    else send_any msg (set_unix_addr addr_str) cnt

-- rcvFrom: the result, and the sender's path when one is stored; `cnt` and `sun_path` are what recvfrom
-- returns.
unfoldable pub rcv_from : ℕ → ℤ → List ℕ → SockUnix → ℤ × Option (List ℕ)
rcv_from buf_size cnt sun_path s =
    if s.m_is_init
    then elim (recv_reply cnt buf_size) [
      | negsuc n ↦ (negsuc n, none)
      | pos n ↦ (pos n, some (take unix_path_max (c_string sun_path)))
    ]
    else (negsuc 0, none)

-- SockUnix::rcvBase: only what comes from the peer is taken.
unfoldable pub from_peer : List ℕ → ℤ × Option (List ℕ) → ℤ
from_peer peer (negsuc n, from) = negsuc 0
from_peer peer (pos n, none) = negsuc 0
from_peer peer (pos n, some from) = if ltb 0 n && same from peer then pos n else negsuc 0

unfoldable pub rcv_base : ℕ → ℤ → List ℕ → SockUnix → ℤ
unfolding from_peer rcv_from
rcv_base buf_size cnt sun_path s =
    if test_unix s.m_peer then from_peer s.m_peer (rcv_from buf_size cnt sun_path s) else negsuc 0
