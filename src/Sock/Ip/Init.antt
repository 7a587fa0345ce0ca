-- ===== src/Sock/Ip/Init.antt =====
-- The life of the sockets over UDP, sock.cpp: what holds in every state, and that close is final.
use libpmc.Base.{
  ℕ, ◌≡◌, refl, sym, ap, ◌∙◌, subst, ltb, if_yes, Bool, true, false, ◌||◌, not, List, Option, none,
  some,
}
use libpmc.Binary.{Inet}
use libpmc.Config.File.{ConfigFile}
use libpmc.Ptp.{IfInfo}
use libpmc.Sock.{World, close_fd}
use libpmc.Sock.Ip.{
  SockIp, System, set_if, set_if_using, set_udp_ttl, set_udp_ttl_cfg, set_scope, set_scope_cfg,
  has_value, init_base, close_base,
}

-- One call that changes the object or the world.
pub data Step : SockIp → World → SockIp → World → Type 0 where
  by_if : (i : IfInfo) (s : SockIp) (w : World) → Step s w (set_if i s).0 w
  by_name : (r : IfInfo × Bool × ℕ) (s : SockIp) (w : World) → Step s w (set_if_using r s).0 w
  ttl : (n : ℕ) (s : SockIp) (w : World) → Step s w (set_udp_ttl n s).0 w
  ttl_cfg :
      (c : ConfigFile) (section : List ℕ) (s : SockIp) (w : World)
      → Step s w (set_udp_ttl_cfg c section s).0 w
  scope : (n : ℕ) (s : SockIp) (w : World) → Step s w (set_scope n s).0 w
  scope_cfg :
      (c : ConfigFile) (section : List ℕ) (s : SockIp) (w : World)
      → Step s w (set_scope_cfg c section s).0 w
  init :
      (inet : Inet) (sys : System) (s : SockIp) (w : World)
      → Step s w (init_base inet sys s w).0.0 (init_base inet sys s w).1
  close : (s : SockIp) (w : World) → Step s w (close_base s w).0 (close_base s w).1

pub data Steps (s : SockIp) (w : World) : SockIp → World → Type 0 where
  none_yet : Steps s w s w
  more :
      {s' : SockIp} {w' : World} {s'' : SockIp} {w'' : World}
      → Steps s w s' w'
      → Step s' w' s'' w''
      → Steps s w s'' w''

-- No descriptor, and yet marked as initialised.
abbrev pub IsDead : SockIp → Type 0
IsDead s = (s.m_is_init ≡ true) × (s.m_fd ≡ none)

close_fd-none : (fd : Option ℕ) (w : World) → fd ≡ none → close_fd fd w ≡ w
unfolding close_fd
close_fd-none none w e = refl
close_fd-none (some fd) w e = cc

kept : {s : SockIp} {w : World} (p : SockIp × Bool) → p ≡ (s, false) → (p.0 ≡ s) × (w ≡ w)
kept p e = (ap (λ q. q.0) e, refl)

-- A call on a dead object changes nothing.
Step-IsDead :
    {s : SockIp} {w : World} {s' : SockIp} {w' : World}
    → Step s w s' w'
    → IsDead s
    → (s' ≡ s) × (w' ≡ w)
unfolding set_if set_if_using set_udp_ttl set_udp_ttl_cfg set_scope set_scope_cfg init_base
    close_base
Step-IsDead (by_if i s w) d = kept (set_if i s) (if_yes s.m_is_init _ _ d.0)
Step-IsDead (by_name r s w) d = kept (set_if_using r s) (if_yes s.m_is_init _ _ d.0)
Step-IsDead (ttl n s w) d = kept (set_udp_ttl n s) (if_yes s.m_is_init _ _ d.0)
Step-IsDead (ttl_cfg c section s w) d =
    kept (set_udp_ttl_cfg c section s) (if_yes s.m_is_init _ _ d.0)
Step-IsDead (scope n s w) d =
    kept (set_scope n s) (if_yes (s.m_is_init || ltb 0xf n) _ _ (ap (λ b. b || ltb 0xf n) d.0))
Step-IsDead (scope_cfg c section s w) d =
    kept (set_scope_cfg c section s) (if_yes s.m_is_init _ _ d.0)
Step-IsDead (init inet sys s w) d =
    let refused : init_base inet sys s w ≡ ((s, false), w) =
      if_yes (s.m_is_init || not s.m_have_if || not (has_value s.m_udp_ttl)) _ _
        (ap (λ b. b || not s.m_have_if || not (has_value s.m_udp_ttl)) d.0) in
    (ap (λ q. q.0.0) refused, ap (λ q. q.1) refused)
Step-IsDead (close s w) d = (ap (λ f. record s { m_fd = f }) (sym d.1), close_fd-none s.m_fd w d.1)

Steps-IsDead :
    {s : SockIp} {w : World} {s' : SockIp} {w' : World}
    → Steps s w s' w'
    → IsDead s
    → (s' ≡ s) × (w' ≡ w)
Steps-IsDead none_yet d = (refl, refl)
Steps-IsDead (more {s'} {w'} r st) d =
    let before = Steps-IsDead r d in
    let last = Step-IsDead st (subst IsDead (sym before.0) d) in
    (last.0 ∙ before.0, last.1 ∙ before.1)

-- Once a SockIp that is initialised is closed, no sequence of calls changes it or opens a descriptor:
-- it stays marked as initialised without a descriptor, so it is refused by every setter and by init.
pub close-final :
    (s : SockIp) (w : World) {s' : SockIp} {w' : World}
    → s.m_is_init ≡ true
    → Steps (close_base s w).0 (close_base s w).1 s' w'
    → (s' ≡ (close_base s w).0)
      × (w' ≡ (close_base s w).1)
      × (s'.m_is_init ≡ true)
      × (s'.m_fd ≡ none)
unfolding close_base
close-final s w on r =
    let same = Steps-IsDead r (on, refl) in
    (same.0, same.1, ap (λ t. t.m_is_init) same.0 ∙ on, ap (λ t. t.m_fd) same.0)
