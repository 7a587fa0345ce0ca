-- ===== src/Sock/Unix/Life.antt =====
-- The life of a SockUnix, sock.cpp: the operations as steps, and what holds in every state they reach.
use libpmc.Base.{
  take_all, ℕ, ◌≤◌, ◌≡◌, refl, ap, ◌∙◌, ◌≢◌, ◌⊎◌, inl, inr, Bool, true, false, ◌||◌, not, List, [],
  ◌∷◌, Option, none, some, if_rule, if◌then◌else◌, arith, Bool-cases, length,
}
use libpmc.Text.{c_string}
use libpmc.Text.Same.{same_refl}
use libpmc.Sock.Descriptors.{fd_list, close_fd-clean, close_fd-files}
use libpmc.Sock.{World, sys_unlink, sys_socket, without_file, close_fd, test_unix}
use libpmc.Sock.Unix.{
  SockUnix, fresh_unix, close_base, init_base, set_peer_internal, set_self_address,
  set_def_self_address, get_home_dir, set_unix_addr, opened, unlink_file,
}

abbrev pub nowhere : World
nowhere = record { open_fds = []; files = [] }

-- The files that no object uses after a close: an unlink that the system refuses leaves one more, and
-- one that succeeds removes its name.
abbrev pub left_after : Bool → SockUnix → List (List ℕ) → List (List ℕ)
left_after unlinked s left =
    if s.m_is_init
    then (if unlinked then without_file (c_string s.m_me) left else c_string s.m_me ∷ left)
    else left

-- One call that changes the object or the world, with the files left behind before and after it. Sending
-- and receiving change neither but the last sender.
pub data Step : List (List ℕ) → SockUnix → World → List (List ℕ) → SockUnix → World → Type 0 where
  init :
      (left : List (List ℕ)) (fd : Option ℕ) (bound : Bool) (s : SockUnix) (w : World)
      → Step left s w left (init_base fd bound s w).0.0 (init_base fd bound s w).1
  close :
      (left : List (List ℕ)) (unlinked : Bool) (s : SockUnix) (w : World)
      → Step left s w
          (left_after unlinked s left)
          (close_base unlinked s w).0
          (close_base unlinked s w).1
  set_peer :
      (left : List (List ℕ)) (str : List ℕ) (s : SockUnix) (w : World)
      → Step left s w left (set_peer_internal str s).0 w
  set_self :
      (left : List (List ℕ)) (str : List ℕ) (s : SockUnix) (w : World)
      → Step left s w left (set_self_address str s).0 w
  set_def_self :
      (left : List (List ℕ)) (is_root : Bool) (pw_dir pid root_base use_def : List ℕ) (s : SockUnix)
      (w : World)
      → Step left s w left (set_def_self_address is_root pw_dir pid root_base use_def s).0 w
  last_from :
      (left : List (List ℕ)) (from : List ℕ) (s : SockUnix) (w : World)
      → Step left s w left (record s { m_last_from = from }) w

-- The states that the calls reach, with the files left behind on the way.
pub data Reach : List (List ℕ) → SockUnix → World → Type 0 where
  start : Reach [] fresh_unix nowhere
  next :
      {left : List (List ℕ)} {s : SockUnix} {w : World} {left' : List (List ℕ)} {s' : SockUnix}
      {w' : World}
      → Reach left s w
      → Step left s w left' s' w'
      → Reach left' s' w'

-- The descriptor of the object is the only one open; the socket's file is there while the object is
-- initialised, and then there is a descriptor and the address is a good one; all other files are those
-- left behind.
pub record IsSound (left : List (List ℕ)) (s : SockUnix) (w : World) : Type 0 where
  pub fds : w.open_fds ≡ fd_list s.m_fd
  pub has_file : s.m_is_init ≡ true → w.files ≡ set_unix_addr s.m_me ∷ left
  pub no_file : s.m_is_init ≡ false → w.files ≡ left
  pub ready : s.m_is_init ≡ true → (test_unix s.m_me ≡ true) × (s.m_fd ≢ none)

length-c_string : (s : List ℕ) → length (c_string s) ≤ length s
unfolding c_string
length-c_string [] = omega arith
length-c_string (c ∷ s) = ground (arith, length-c_string s)

unix_path : (str : List ℕ) → test_unix str ≡ true → set_unix_addr str ≡ c_string str
unfolding set_unix_addr test_unix
unix_path str ok =
    let short : length str ≤ 107 = ground arith in
    take_all 107 (c_string str) (omega (arith, length-c_string str))

unlinked_name :
    (name : List ℕ) (left : List (List ℕ))
    → without_file name (name ∷ left) ≡ without_file name left
unfolding without_file
unlinked_name name left = rw (same_refl name) refl

opened-IsSound :
    (left : List (List ℕ)) (fd : Option ℕ) (bound : Bool) (s : SockUnix) (w : World)
    → w.open_fds ≡ []
    → w.files ≡ left
    → test_unix s.m_me ≡ true
    → s.m_is_init ≡ false
    → IsSound left (opened fd bound s (sys_socket fd w)).0.0 (opened fd bound s (sys_socket fd w)).1
unfolding opened sys_socket
opened-IsSound left none bound s w fds files ok off = record {
  fds = fds;
  has_file = λ e. absurd (ground arith);
  no_file = λ e. files;
  ready = λ e. absurd (ground arith);
}
opened-IsSound left (some fd) true s w fds files ok off = record {
  fds = ap (λ l. fd ∷ l) fds;
  has_file = λ e. ap (λ l. set_unix_addr s.m_me ∷ l) files;
  no_file = λ e. cc;
  ready = λ e. (ok, λ h. absurd (cc h));
}
opened-IsSound left (some fd) false s w fds files ok off = record {
  fds = ap (λ l. fd ∷ l) fds;
  has_file = λ e. absurd (ground arith);
  no_file = λ e. files;
  ready = λ e. absurd (ground arith);
}

-- A statement on the pair that an operation returns.
abbrev Sound : List (List ℕ) → SockUnix × World → Type 0
Sound left p = IsSound left p.0 p.1

init_base-IsSound :
    (left : List (List ℕ)) (fd : Option ℕ) (bound : Bool) (s : SockUnix) (w : World)
    → IsSound left s w
    → IsSound left (init_base fd bound s w).0.0 (init_base fd bound s w).1
unfolding init_base
init_base-IsSound left fd bound s w h =
    if_rule (λ (p : (SockUnix × Bool) × World). IsSound left p.0.0 p.1)
      (s.m_is_init || not (test_unix s.m_me)) (λ e. h)
      (λ e.
        let off : s.m_is_init ≡ false = ground arith in
        opened-IsSound left fd bound s (close_fd s.m_fd w) (close_fd-clean s.m_fd w h.fds)
          (close_fd-files s.m_fd w ∙ h.no_file off) (ground arith) off)

unlink_file-files :
    (unlinked : Bool) (name : List ℕ) (left : List (List ℕ)) (w : World)
    → w.files ≡ name ∷ left
    → (unlink_file unlinked name w).files
      ≡ (if unlinked then without_file name left else name ∷ left)
unfolding unlink_file sys_unlink
unlink_file-files true name left w e = ap (without_file name) e ∙ unlinked_name name left
unlink_file-files false name left w e = e

closed-files :
    (left : List (List ℕ)) (unlinked : Bool) (s : SockUnix) (w : World)
    → IsSound left s w
    → s.m_is_init ≡ true
    → (unlink_file unlinked (c_string s.m_me) (close_fd s.m_fd w)).files
      ≡ (if unlinked then without_file (c_string s.m_me) left else c_string s.m_me ∷ left)
closed-files left unlinked s w h on =
    let path : w.files ≡ c_string s.m_me ∷ left =
      h.has_file on ∙ ap (λ p. p ∷ left) (unix_path s.m_me (h.ready on).0) in
    unlink_file-files unlinked (c_string s.m_me) left (close_fd s.m_fd w)
      (close_fd-files s.m_fd w ∙ path)

unlink_file-fds :
    (unlinked : Bool) (name : List ℕ) (w : World)
    → (unlink_file unlinked name w).open_fds ≡ w.open_fds
unfolding unlink_file sys_unlink
unlink_file-fds true name w = refl
unlink_file-fds false name w = refl

pub close_base-IsSound :
    (left : List (List ℕ)) (unlinked : Bool) (s : SockUnix) (w : World)
    → IsSound left s w
    → Sound (left_after unlinked s left) (close_base unlinked s w)
unfolding close_base
close_base-IsSound left unlinked s w h = elim (Bool-cases s.m_is_init) [
  | inl on ↦ rw on (record {
    fds =
        unlink_file-fds unlinked (c_string s.m_me) (close_fd s.m_fd w)
        ∙ close_fd-clean s.m_fd w h.fds;
    has_file = λ e. cc;
    no_file = λ e. closed-files left unlinked s w h on;
    ready = λ e. absurd (cc e);
  })
  | inr off ↦ rw off (record {
    fds = close_fd-clean s.m_fd w h.fds;
    has_file = λ e. absurd (ground arith);
    no_file = λ e. close_fd-files s.m_fd w ∙ h.no_file off;
    ready = λ e. absurd (ground arith);
  })
]

set_peer-IsSound :
    (left : List (List ℕ)) (str : List ℕ) (s : SockUnix) (w : World)
    → IsSound left s w
    → IsSound left (set_peer_internal str s).0 w
unfolding set_peer_internal
set_peer-IsSound left str s w h =
    if_rule (λ (p : SockUnix × Bool). IsSound left p.0 w) (test_unix str)
      (λ e. record { fds = h.fds; has_file = h.has_file; no_file = h.no_file; ready = h.ready })
      (λ e. h)

pub set_self-IsSound :
    (left : List (List ℕ)) (str : List ℕ) (s : SockUnix) (w : World)
    → IsSound left s w
    → IsSound left (set_self_address str s).0 w
unfolding set_self_address
set_self-IsSound left str s w h =
    if_rule (λ (p : SockUnix × Bool). IsSound left p.0 w) (s.m_is_init || not (test_unix str))
      (λ e. h)
      (λ e. record {
        fds = h.fds;
        has_file = λ on. absurd (ground arith);
        no_file = h.no_file;
        ready = λ on. absurd (ground arith);
      })

home-IsSound :
    (left : List (List ℕ)) (pw_dir : List ℕ) (s : SockUnix) (w : World)
    → IsSound left s w
    → IsSound left (get_home_dir pw_dir s).0 w
unfolding get_home_dir
home-IsSound left pw_dir s w h = record {
  fds = h.fds;
  has_file = h.has_file;
  no_file = h.no_file;
  ready = h.ready;
}

set_def_self-IsSound :
    (left : List (List ℕ)) (is_root : Bool) (pw_dir pid root_base use_def : List ℕ) (s : SockUnix)
    (w : World)
    → IsSound left s w
    → IsSound left (set_def_self_address is_root pw_dir pid root_base use_def s).0 w
unfolding set_def_self_address
set_def_self-IsSound left is_root pw_dir pid root_base use_def s w h =
    if_rule (λ (p : SockUnix × Bool). IsSound left p.0 w) s.m_is_init (λ on. h)
      (λ off.
        if_rule (λ (p : SockUnix × Bool). IsSound left p.0 w) is_root
          (λ root. set_self-IsSound left _ s w h)
          (λ user.
            set_self-IsSound left _ (get_home_dir pw_dir s).0 w (home-IsSound left pw_dir s w h)))

Step-IsSound :
    {left : List (List ℕ)} {s : SockUnix} {w : World} {left' : List (List ℕ)} {s' : SockUnix}
    {w' : World}
    → Step left s w left' s' w'
    → IsSound left s w
    → IsSound left' s' w'
Step-IsSound (init left fd bound s w) h = init_base-IsSound left fd bound s w h
Step-IsSound (close left unlinked s w) h = close_base-IsSound left unlinked s w h
Step-IsSound (set_peer left str s w) h = set_peer-IsSound left str s w h
Step-IsSound (set_self left str s w) h = set_self-IsSound left str s w h
Step-IsSound (set_def_self left is_root pw_dir pid root_base use_def s w) h =
    set_def_self-IsSound left is_root pw_dir pid root_base use_def s w h
Step-IsSound (last_from left from s w) h = record {
  fds = h.fds;
  has_file = h.has_file;
  no_file = h.no_file;
  ready = h.ready;
}

fresh-IsSound : IsSound [] fresh_unix nowhere
unfolding fresh_unix
fresh-IsSound = record {
  fds = refl;
  has_file = λ e. absurd (cc e);
  no_file = λ e. refl;
  ready = λ e. absurd (cc e);
}

pub Reach-IsSound :
    {left : List (List ℕ)} {s : SockUnix} {w : World} → Reach left s w → IsSound left s w
Reach-IsSound start = fresh-IsSound
Reach-IsSound (next r st) = Step-IsSound st (Reach-IsSound r)

-- Whatever the calls of a SockUnix and whatever the system answers, a refused unlink included, at most
-- one descriptor is open and it is the object's own; and either the object is initialised, has a
-- descriptor and a good address, and the socket files are the one at that address and those that
-- refused unlinks left, or it is not and there are only those that refused unlinks left.
pub Reach-Sound :
    {left : List (List ℕ)} {s : SockUnix} {w : World}
    → Reach left s w
    → (w.open_fds ≡ fd_list s.m_fd)
      × (((s.m_is_init ≡ true)
            × (s.m_fd ≢ none)
            × (test_unix s.m_me ≡ true)
            × (w.files ≡ set_unix_addr s.m_me ∷ left))
          ⊎ ((s.m_is_init ≡ false) × (w.files ≡ left)))
Reach-Sound {s = s} r =
    let h = Reach-IsSound r in
    (
      h.fds,
      elim (Bool-cases s.m_is_init) [
        | inl on ↦ inl (on, (h.ready on).1, (h.ready on).0, h.has_file on)
        | inr off ↦ inr (off, h.no_file off)
      ],
    )
