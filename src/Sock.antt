-- ===== src/Sock.antt =====
-- Sockets, sock.h and sock.cpp: the base class SockBase, and the waits for a packet. The system is a
-- parameter: what each call returns is an argument, and `World` keeps what the calls leave behind, the
-- open descriptors of the object and the socket files.
pub mod Poll
pub mod Descriptors
pub mod Unix
pub mod Ip
pub mod Raw
use libpmc.Base.{
  ℕ, ◌+◌, ◌-◌, ◌≡◌, refl, Bool, true, false, ◌&&◌, ◌||◌, not, List, [], ◌∷◌, Option, none, some,
  ◌==◌, ltb, leb, if◌then◌else◌, length,
}
use libpmc.Base.Int.{ℤ, pos, negsuc}
use libpmc.Text.{same}
use libpmc.Config.{starts_with}

pub record World : Type 0 where
  pub open_fds : List ℕ
  pub files : List (List ℕ)

unfoldable pub without_fd : ℕ → List ℕ → List ℕ
without_fd fd [] = []
without_fd fd (x ∷ xs) = let rest = without_fd fd xs in if x == fd then rest else x ∷ rest

unfoldable pub without_file : List ℕ → List (List ℕ) → List (List ℕ)
without_file name [] = []
without_file name (x ∷ xs) =
    let rest = without_file name xs in if same x name then rest else x ∷ rest

-- close(fd)
unfoldable pub sys_close : ℕ → World → World
unfolding without_fd
sys_close fd w = record w { open_fds = without_fd fd w.open_fds }

-- unlink(name)
unfoldable pub sys_unlink : List ℕ → World → World
unfolding without_file
sys_unlink name w = record w { files = without_file name w.files }

-- socket(): the descriptor that it returns, or none for -1.
unfoldable pub sys_socket : Option ℕ → World → World
sys_socket none w = w
sys_socket (some fd) w = record w { open_fds = fd ∷ w.open_fds }

-- SockBase::closeBase on m_fd, where none is -1: the world, and m_fd is none after it.
unfoldable pub close_fd : Option ℕ → World → World
unfolding sys_close
close_fd none w = w
close_fd (some fd) w = sys_close fd w

-- SockBase::sendReply: the send succeeds when all of the message is sent.
unfoldable pub send_reply : ℤ → ℕ → Bool
send_reply (negsuc n) len = false
send_reply (pos cnt) len = cnt == len

-- The checks on the count that recv returns, into a buffer of `room` octets.
unfoldable pub recv_reply : ℤ → ℕ → ℤ
recv_reply (negsuc n) room = negsuc 0
recv_reply (pos cnt) room = if ltb room cnt then negsuc 0 else pos cnt

-- sizeof(sun_path) - 1 on Linux
abbrev pub unix_path_max : ℕ
unix_path_max = 107

unfoldable pub test_unix : List ℕ → Bool
test_unix str =
    not (ltb (length str) 2 || ltb unix_path_max (length str) || not (starts_with b'/' str))
