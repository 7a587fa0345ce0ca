-- ===== src/Sock/Descriptors.antt =====
-- What SockBase::closeBase of sock.cpp leaves open, when the object's descriptor is the only one.
use libpmc.Base.{ℕ, ◌≡◌, refl, List, [], ◌∷◌, Option, none, some, arith}
use libpmc.Sock.{World, sys_close, without_fd, close_fd}

abbrev pub fd_list : Option ℕ → List ℕ
fd_list none = []
fd_list (some fd) = fd ∷ []

pub close_fd-clean :
    (fd : Option ℕ) (w : World) → w.open_fds ≡ fd_list fd → (close_fd fd w).open_fds ≡ []
unfolding close_fd sys_close
close_fd-clean none w h = h
close_fd-clean (some fd) w h = rw h (unfold without_fd in ground arith)

pub close_fd-files : (fd : Option ℕ) (w : World) → (close_fd fd w).files ≡ w.files
unfolding close_fd sys_close
close_fd-files none w = refl
close_fd-files (some fd) w = refl
