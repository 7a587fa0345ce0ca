-- ===== src/Tests/Sockets.antt =====
-- The sockets at concrete inputs.
use libpmc.Base.{
  ℕ, ◌-◌, ◌*◌, ◌/◌, ◌≡◌, refl, ◌≢◌, ◌⊎◌, inl, Bool, true, false, List, [], ◌∷◌, ◌++◌, none, some,
  replicate, arith,
}
use libpmc.Base.Int.{pos}
use libpmc.Text.{codes}
use libpmc.Sock.{World, test_unix, recv_reply}
use libpmc.Sock.Descriptors.{fd_list}
use libpmc.Sock.Poll.{Timeval, micros, select_timeout, tpoll, tpoll_lem}
use libpmc.Sock.Unix.{SockUnix, fresh_unix, close_base, set_self_address, set_unix_addr}
use libpmc.Sock.Unix.Life.{Reach, start, next, set_self, nowhere, Reach-Sound}
use libpmc.Sock.Unix.Reopen.{reopened, reopened-ready}
use libpmc.Sock.Ip
use libpmc.Sock.Ip.{SockIp, SockOpt, System, add_membership, fresh_ip4, has_value, set_udp_ttl}
use libpmc.Sock.Ip.Init.{none_yet, more, ttl, close-final}
use libpmc.Sock.Ip.Sound.{Steps-Sound}
use libpmc.Sock.Raw.{SockRaw, fresh_raw, rcv_raw, init_raw}
use libpmc.Sock.Raw.Frames.{Received, rcv_raw-Received, init_raw-twice}

abbrev path : List ℕ
path = codes "/tmp/pmc.1"

abbrev named : SockUnix
named = (set_self_address path fresh_unix).0

named-Reach : Reach [] named nowhere
named-Reach = next start (set_self [] path fresh_unix nowhere)

Reach-Sound_example :
    (nowhere.open_fds ≡ fd_list named.m_fd)
    × (((named.m_is_init ≡ true)
          × (named.m_fd ≢ none)
          × (test_unix named.m_me ≡ true)
          × (nowhere.files ≡ set_unix_addr named.m_me ∷ []))
        ⊎ ((named.m_is_init ≡ false) × (nowhere.files ≡ [])))
Reach-Sound_example = Reach-Sound named-Reach

path_good : test_unix path ≡ true
unfolding test_unix
path_good = refl

reopened-ready_example :
    ((set_self_address path (close_base false named nowhere).0).1 ≡ true)
    × ((reopened false 5 path named nowhere).0.1 ≡ true)
    × ((reopened false 5 path named nowhere).0.0.m_is_init ≡ true)
    × ((reopened false 5 path named nowhere).0.0.m_fd ≡ some 5)
    × ((reopened false 5 path named nowhere).1.open_fds ≡ 5 ∷ [])
    × ((reopened false 5 path named nowhere).1.files ≡ set_unix_addr path ∷ [])
unfolding set_self_address fresh_unix test_unix
reopened-ready_example = reopened-ready [] false named nowhere path 5 named-Reach path_good

abbrev no_world : World
no_world = record { open_fds = []; files = [] }

abbrev timed : SockIp
timed = (set_udp_ttl 1 fresh_ip4).0

Steps-Sound_example :
    (no_world.open_fds ≡ fd_list timed.m_fd)
    × ((timed.m_is_init ≡ false) ⊎ ((timed.m_have_if ≡ true) × (has_value timed.m_udp_ttl ≡ true)))
Steps-Sound_example = Steps-Sound fresh_ip4 (inl refl) (more none_yet (ttl 1 fresh_ip4 no_world))

abbrev opened_ip : SockIp
opened_ip = record fresh_ip4 { m_fd = some 4; m_is_init = true }

abbrev opened_world : World
opened_world = record { open_fds = 4 ∷ []; files = [] }

close-final_example :
    ((Ip.close_base opened_ip opened_world).0 ≡ (Ip.close_base opened_ip opened_world).0)
    × ((Ip.close_base opened_ip opened_world).1 ≡ (Ip.close_base opened_ip opened_world).1)
    × ((Ip.close_base opened_ip opened_world).0.m_is_init ≡ true)
    × ((Ip.close_base opened_ip opened_world).0.m_fd ≡ none)
close-final_example = close-final opened_ip opened_world refl none_yet

abbrev ready_raw : SockRaw
ready_raw = record fresh_raw {
  m_have_if = true;
  m_ptp_dst_mac = 1 ∷ 0x1b ∷ 0x19 ∷ 0 ∷ 0 ∷ 0 ∷ [];
  m_socket_priority = some 0;
}

abbrev opened_raw : SockRaw
opened_raw = record ready_raw { m_fd = some 4; m_is_init = true }

abbrev frame : List ℕ
frame = replicate 14 0 ++ replicate 44 1

frame_received : rcv_raw 100 (some frame) opened_raw ≡ (pos 58, replicate 44 1)
unfolding rcv_raw recv_reply
frame_received = refl

rcv_raw-Received_example : Received 100 (some frame) opened_raw 58 (replicate 44 1)
rcv_raw-Received_example =
    rcv_raw-Received 100 (some frame) opened_raw 58 (replicate 44 1) frame_received

abbrev no_membership : SockOpt → Bool
no_membership add_membership = false
no_membership other = true

-- The system where the last setsockopt fails.
abbrev failing : System
failing = record { socket = some 5; bind = true; setsockopt = no_membership }

abbrev system : ℕ → Bool → System
system fd bound = record { socket = some fd; bind = bound; setsockopt = λ _. true }

init_raw-twice_example :
    ((init_raw
        (system 6 true)
        (init_raw failing ready_raw no_world).0.0
        (init_raw failing ready_raw no_world).1).1.open_fds
      ≡ 6 ∷ 5 ∷ [])
    × ((init_raw
          (system 6 true)
          (init_raw failing ready_raw no_world).0.0
          (init_raw failing ready_raw no_world).1).0.0.m_fd
        ≡ some 6)
unfolding fresh_raw has_value init_raw
init_raw-twice_example =
    init_raw-twice failing (system 6 true) ready_raw no_world 5 6 refl refl refl refl refl refl refl

abbrev at_second : ℕ → ℕ → Timeval
at_second s us = record { tv_sec = s; tv_usec = us }

tpoll_lem_example :
    ((tpoll 1 true (at_second 10 900000) (at_second 11 100000) 500).1
      ≡ 500 - (micros (at_second 11 100000) - micros (at_second 10 900000)) / 1000)
    × (((t : Timeval) × (select_timeout 500 ≡ some t) × (micros t ≡ 500 * 1000))
        ⊎ ((select_timeout 500 ≡ none) × (◌≡◌ {A = ℕ} 500 0)))
tpoll_lem_example =
    tpoll_lem 1 true (at_second 10 900000) (at_second 11 100000) 500 (omega arith) (omega arith)
      (omega arith)
