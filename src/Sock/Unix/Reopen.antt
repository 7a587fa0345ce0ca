-- ===== src/Sock/Unix/Reopen.antt =====
-- That a SockUnix of sock.cpp can be closed, named and initialised again from every state.
use libpmc.Base.{
  ℕ, ◌≡◌, refl, ap, ◌∙◌, subst, Bool, true, false, ◌||◌, not, List, [], ◌∷◌, some, if◌then◌else◌,
  if_rule, arith,
}
use libpmc.Sock.Descriptors.{close_fd-clean, close_fd-files}
use libpmc.Sock.{World, sys_socket, close_fd, test_unix}
use libpmc.Sock.Unix.{
  SockUnix, close_base, init_base, set_self_address, set_unix_addr, opened, sys_bind,
}
use libpmc.Sock.Unix.Life.{
  left_after, Reach, IsSound, Reach-IsSound, close_base-IsSound, set_self-IsSound,
}

closed_off :
    (unlinked : Bool) (s : SockUnix) (w : World) → (close_base unlinked s w).0.m_is_init ≡ false
unfolding close_base
closed_off unlinked s w =
    if_rule (λ (p : SockUnix × World). p.0.m_is_init ≡ false) s.m_is_init (λ on. refl) (λ off. off)

set_self-good :
    (s : SockUnix) (str : List ℕ)
    → s.m_is_init ≡ false
    → test_unix str ≡ true
    → set_self_address str s ≡ (record s { m_me = str }, true)
unfolding set_self_address
set_self-good s str off ok =
    let go : (s.m_is_init || not (test_unix str)) ≡ false = ground arith in
    ap (λ (t : Bool). if t then (s, false) else (record s { m_me = str }, true)) go

abbrev ready_socket : ℕ → SockUnix → SockUnix
ready_socket fd s = record s { m_fd = some fd; m_is_init = true }

-- The world with the descriptor alone and one file more.
only : ℕ → List ℕ → List (List ℕ) → World
only fd me files = record { open_fds = fd ∷ []; files = set_unix_addr me ∷ files }

world_eq :
    (fd : ℕ) (file : List ℕ) (files : List (List ℕ)) (w : World)
    → w.open_fds ≡ []
    → w.files ≡ files
    → ◌≡◌ {A = World}
        (record { open_fds = fd ∷ w.open_fds; files = file ∷ w.files })
        (record { open_fds = fd ∷ []; files = file ∷ files })
world_eq fd file files w p q = ground (arith, p, q)

init_base-good :
    (left : List (List ℕ)) (s : SockUnix) (w : World) (fd : ℕ)
    → IsSound left s w
    → s.m_is_init ≡ false
    → test_unix s.m_me ≡ true
    → init_base (some fd) true s w ≡ ((ready_socket fd s, true), only fd s.m_me left)
unfolding init_base opened sys_socket sys_bind only
init_base-good left s w fd h off ok =
    let go : (s.m_is_init || not (test_unix s.m_me)) ≡ false = ground arith in
    let fds = close_fd-clean s.m_fd w h.fds in
    let files = close_fd-files s.m_fd w ∙ h.no_file off in
    ap
      (λ (t : Bool).
        if t
        then ((s, false), w)
        else opened (some fd) true s (sys_socket (some fd) (close_fd s.m_fd w)))
      go
    ∙ ap (λ v. ((ready_socket fd s, true), v))
        (world_eq fd (set_unix_addr s.m_me) left (close_fd s.m_fd w) fds files)

-- Close, set the address and initialise.
unfoldable pub reopened : Bool → ℕ → List ℕ → SockUnix → World → (SockUnix × Bool) × World
reopened unlinked fd str s w =
    init_base (some fd) true (set_self_address str (close_base unlinked s w).0).0
      (close_base unlinked s w).1

-- From every state that the calls reach, closing, whether or not its unlink succeeds, setting a good
-- address and initialising works when the system opens and binds a socket: setting the address and
-- initialising return true, and then the object is initialised with the new descriptor, the only one
-- open, and the socket files are the one at the new address and those that refused unlinks left.
pub reopened-ready :
    (left : List (List ℕ)) (unlinked : Bool) (s : SockUnix) (w : World) (str : List ℕ) (fd : ℕ)
    → Reach left s w
    → test_unix str ≡ true
    → ((set_self_address str (close_base unlinked s w).0).1 ≡ true)
      × ((reopened unlinked fd str s w).0.1 ≡ true)
      × ((reopened unlinked fd str s w).0.0.m_is_init ≡ true)
      × ((reopened unlinked fd str s w).0.0.m_fd ≡ some fd)
      × ((reopened unlinked fd str s w).1.open_fds ≡ fd ∷ [])
      × ((reopened unlinked fd str s w).1.files ≡ set_unix_addr str ∷ left_after unlinked s left)
unfolding reopened only
reopened-ready left unlinked s w str fd r ok =
    let closed = close_base unlinked s w in
    let off = closed_off unlinked s w in
    let set = set_self-good closed.0 str off ok in
    let after = left_after unlinked s left in
    let sound =
      subst (λ (p : SockUnix × Bool). IsSound after p.0 closed.1) set
        (set_self-IsSound after str closed.0 closed.1
          (close_base-IsSound left unlinked s w (Reach-IsSound r))) in
    let opens = init_base-good after (record closed.0 { m_me = str }) closed.1 fd sound off ok in
    rw (set, opens) (refl, refl, refl, refl, refl, refl)
