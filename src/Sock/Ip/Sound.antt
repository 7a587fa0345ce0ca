-- ===== src/Sock/Ip/Sound.antt =====
-- What holds in every state of a socket over UDP, sock.cpp: its descriptors and what init asks for.
use libpmc.Base.{
  ℕ, ◌≡◌, refl, sym, ap, ◌∙◌, subst, Bool, true, false, ◌&&◌, ◌||◌, not, List, [], ◌∷◌, Option,
  none, some, if_rule, ltb, arith, ◌⊎◌, inl, inr, Bool-cases,
}
use libpmc.Binary.{Inet, Domain, ipv4, ipv6, other_domain, from_ip_domain}
use libpmc.Config.File.{udp_ttl, udp6_scope}
use libpmc.Sock.Descriptors.{fd_list, close_fd-clean}
use libpmc.Sock.{World, sys_socket, close_fd}
use libpmc.Sock.Ip.{
  SockIp, System, multicast_hops, add_membership, multicast_loop, multicast_if, reuse_addr,
  bind_to_device, addressed, join_ip6, init2_ip4, init2_ip6, init2, marked, configured,
  after_socket, has_value, is_two, scope_octet, mcast_str, set_int, set_if, set_if_using,
  set_udp_ttl, set_udp_ttl_cfg, set_scope, set_scope_cfg, init_base, close_base, fresh_ip4,
  fresh_ip6,
}
use libpmc.Sock.Ip.Init.{
  Step, by_if, by_name, ttl, ttl_cfg, scope, scope_cfg, init, close, Steps, none_yet, more,
}

-- The object's descriptor is the only one open, and an initialised object has its interface and its
-- time to live.
pub record IsSound (s : SockIp) (w : World) : Type 0 where
  pub fds : w.open_fds ≡ fd_list s.m_fd
  pub ready : s.m_is_init ≡ true → (s.m_have_if ≡ true) × (has_value s.m_udp_ttl ≡ true)

-- What the calls behind socket leave alone.
record Same (s : SockIp) (p : SockIp × Bool) : Type 0 where
  same_fd : p.0.m_fd ≡ s.m_fd
  same_if : p.0.m_have_if ≡ s.m_have_if
  same_ttl : p.0.m_udp_ttl ≡ s.m_udp_ttl

itself : (s : SockIp) (b : Bool) → Same s (s, b)
itself s b = record { same_fd = refl; same_if = refl; same_ttl = refl }

like :
    {s : SockIp} {mcast : List ℕ} {p : SockIp × Bool}
    → Same (record s { m_mcast = mcast }) p
    → Same s p
like h = record { same_fd = h.same_fd; same_if = h.same_if; same_ttl = h.same_ttl }

addressed-Same : (s : SockIp) → Same s (addressed s, true)
unfolding addressed
addressed-Same s =
    if_rule (λ t. Same s (t, true)) (is_two s.m_udp6_scope)
      (λ g. record { same_fd = refl; same_if = refl; same_ttl = refl })
      (λ g. record { same_fd = refl; same_if = refl; same_ttl = refl })

join_ip6-Same : (sys : System) (s : SockIp) → Same s (join_ip6 sys s)
unfolding join_ip6
join_ip6-Same sys s =
    if_rule (Same s)
      (sys.setsockopt add_membership
        && sys.setsockopt multicast_loop
        && sys.setsockopt multicast_if)
      {x = (addressed s, true)} {y = (s, false)} (λ f. addressed-Same s) (λ f. itself s false)

init2-Same : (d : Domain) (sys : System) (s : SockIp) → Same s (init2 d sys s)
unfolding init2 init2_ip4
init2-Same ipv4 sys s =
    if_rule (Same s) _ (λ e. record { same_fd = refl; same_if = refl; same_ttl = refl })
      (λ e. itself s false)
init2-Same ipv6 sys s =
    let scoped : SockIp = record s { m_mcast = scope_octet s.m_udp6_scope s.m_mcast } in
    unfold init2_ip6 in
    if_rule (Same s) (not (has_value s.m_udp6_scope) || not (sys.setsockopt multicast_hops))
      {x = (s, false)} {y = join_ip6 sys scoped} (λ e. itself s false)
      (λ e. like {mcast = scoped.m_mcast} (join_ip6-Same sys scoped))
init2-Same other_domain sys s = itself s false

marked-Same : (s : SockIp) (p : SockIp × Bool) → Same s p → Same s (marked p)
unfolding marked
marked-Same s (t, true) h = record {
  same_fd = h.same_fd;
  same_if = h.same_if;
  same_ttl = h.same_ttl;
}
marked-Same s (t, false) h = h

configured-Same : (inet : Inet) (sys : System) (s : SockIp) → Same s (configured inet sys s)
unfolding configured
configured-Same inet sys s =
    let mcast : List ℕ × Bool = from_ip_domain inet (mcast_str s.m_domain) s.m_domain s.m_mcast in
    if_rule (Same s) (sys.setsockopt reuse_addr && sys.bind && sys.setsockopt bind_to_device)
      {y = (s, false)}
      (λ e.
        if_rule (Same s) mcast.1 {y = (s, false)}
          (λ f. marked-Same s _ (like (init2-Same s.m_domain sys (record s { m_mcast = mcast.0 }))))
          (λ f. itself s false))
      (λ e. itself s false)

abbrev Sound : (SockIp × Bool) × World → Type 0
Sound p = IsSound p.0.0 p.1

after_socket-Sound :
    (fd : Option ℕ) (inet : Inet) (sys : System) (s : SockIp) (w : World)
    → w.open_fds ≡ []
    → s.m_is_init ≡ false
    → s.m_have_if ≡ true
    → has_value s.m_udp_ttl ≡ true
    → Sound (after_socket fd inet sys s (sys_socket fd w))
unfolding after_socket sys_socket
after_socket-Sound none inet sys s w fds off has_if has_ttl = record {
  fds = fds;
  ready = λ e. (has_if, has_ttl);
}
after_socket-Sound (some fd) inet sys s w fds off has_if has_ttl =
    let same = configured-Same inet sys (record s { m_fd = some fd }) in
    record {
      fds = ap (λ l. fd ∷ l) fds ∙ ap fd_list (sym same.same_fd);
      ready = λ e. (same.same_if ∙ has_if, ap has_value same.same_ttl ∙ has_ttl);
    }

init_base-Sound :
    (inet : Inet) (sys : System) (s : SockIp) (w : World)
    → IsSound s w
    → Sound (init_base inet sys s w)
unfolding init_base
init_base-Sound inet sys s w h =
    if_rule Sound (s.m_is_init || not s.m_have_if || not (has_value s.m_udp_ttl)) (λ e. h)
      (λ e.
        after_socket-Sound sys.socket inet sys s (close_fd s.m_fd w) (close_fd-clean s.m_fd w h.fds)
          (ground arith) (ground arith) (ground arith))

-- What a setter may change: nothing while initialised, and never the descriptor.
record Sets (s t : SockIp) : Type 0 where
  set_fd : t.m_fd ≡ s.m_fd
  set_off : s.m_is_init ≡ false → t.m_is_init ≡ false
  set_on : s.m_is_init ≡ true → t ≡ s

unset : (s : SockIp) → Sets s s
unset s = record { set_fd = refl; set_off = λ e. e; set_on = λ e. refl }

never : {s t : SockIp} → s.m_is_init ≡ false → s.m_is_init ≡ true → t ≡ s
never p q = absurd (ground arith)

set_when_off :
    (s t : SockIp) → t.m_fd ≡ s.m_fd → t.m_is_init ≡ s.m_is_init → s.m_is_init ≡ false → Sets s t
set_when_off s t fd same off = record {
  set_fd = fd;
  set_off = λ e. same ∙ e;
  set_on = λ e. never off e;
}

Sets-IsSound : (s t : SockIp) (w : World) → Sets s t → IsSound s w → IsSound t w
Sets-IsSound s t w c h = elim (Bool-cases s.m_is_init) [
  | inl on ↦ subst (λ u. IsSound u w) (sym (c.set_on on)) h
  | inr off ↦ record {
    fds = h.fds ∙ ap fd_list (sym c.set_fd);
    ready = λ e. absurd (ground (arith, c.set_off off));
  }
]

abbrev First : SockIp → SockIp × Bool → Type 0
First s p = Sets s p.0

Step-IsSound :
    {s : SockIp} {w : World} {s' : SockIp} {w' : World}
    → Step s w s' w'
    → IsSound s w
    → IsSound s' w'
unfolding set_if set_if_using set_udp_ttl set_udp_ttl_cfg set_scope set_scope_cfg set_int
Step-IsSound (by_if i s w) h =
    Sets-IsSound s (set_if i s).0 w
      (if_rule (First s) s.m_is_init (λ e. unset s)
        (λ e.
          if_rule (First s) i.m_is_init (λ f. set_when_off s (set_int i s) refl refl e)
            (λ f. unset s)))
      h
Step-IsSound (by_name r s w) h =
    Sets-IsSound s (set_if_using r s).0 w
      (if_rule (First s) s.m_is_init (λ e. unset s)
        (λ e.
          if_rule (First s) r.1 (λ f. set_when_off s (set_int r.0 s) refl refl e) (λ f. unset s)))
      h
Step-IsSound (ttl n s w) h =
    Sets-IsSound s (set_udp_ttl n s).0 w
      (if_rule (First s) s.m_is_init (λ e. unset s)
        (λ e. set_when_off s (record s { m_udp_ttl = some n }) refl refl e))
      h
Step-IsSound (ttl_cfg c section s w) h =
    Sets-IsSound s (set_udp_ttl_cfg c section s).0 w
      (if_rule (First s) s.m_is_init (λ e. unset s)
        (λ e. set_when_off s (record s { m_udp_ttl = udp_ttl section c }) refl refl e))
      h
Step-IsSound (scope n s w) h =
    Sets-IsSound s (set_scope n s).0 w
      (if_rule (First s) (s.m_is_init || ltb 0xf n) (λ e. unset s)
        (λ e. set_when_off s (record s { m_udp6_scope = some n }) refl refl (ground arith)))
      h
Step-IsSound (scope_cfg c section s w) h =
    Sets-IsSound s (set_scope_cfg c section s).0 w
      (if_rule (First s) s.m_is_init (λ e. unset s)
        (λ e. set_when_off s (record s { m_udp6_scope = udp6_scope section c }) refl refl e))
      h
Step-IsSound (init inet sys s w) h = init_base-Sound inet sys s w h
Step-IsSound (close s w) h =
    unfold close_base in record { fds = close_fd-clean s.m_fd w h.fds; ready = h.ready }

Steps-IsSound :
    {s : SockIp} {w : World} {s' : SockIp} {w' : World}
    → Steps s w s' w'
    → IsSound s w
    → IsSound s' w'
Steps-IsSound none_yet h = h
Steps-IsSound (more r st) h = Step-IsSound st (Steps-IsSound r h)

ready_or_off :
    {s : SockIp} {w : World}
    → IsSound s w
    → (s.m_is_init ≡ false) ⊎ ((s.m_have_if ≡ true) × (has_value s.m_udp_ttl ≡ true))
ready_or_off {s} h = elim (Bool-cases s.m_is_init) [ inl on ↦ inr (h.ready on) | inr off ↦ inl off ]

-- Whatever the calls of a new SockIp4 or SockIp6 and whatever the system answers, failures on the way
-- included, at most one descriptor is open and it is the object's own, and the object is not marked as
-- initialised or has been given an interface and a time to live.
pub Steps-Sound :
    (d : SockIp) {s : SockIp} {w : World}
    → (d ≡ fresh_ip4) ⊎ (d ≡ fresh_ip6)
    → Steps d (record { open_fds = []; files = [] }) s w
    → (w.open_fds ≡ fd_list s.m_fd)
      × ((s.m_is_init ≡ false) ⊎ ((s.m_have_if ≡ true) × (has_value s.m_udp_ttl ≡ true)))
unfolding fresh_ip4 fresh_ip6
Steps-Sound d fresh r =
    let first : IsSound d (record { open_fds = []; files = [] }) = elim fresh [
      | inl e ↦
          subst (λ t. IsSound t (record { open_fds = []; files = [] })) (sym e)
            (record { fds = refl; ready = λ on. absurd (cc on) })
      | inr e ↦
          subst (λ t. IsSound t (record { open_fds = []; files = [] })) (sym e)
            (record { fds = refl; ready = λ on. absurd (cc on) })
    ] in
    let sound = Steps-IsSound r first in (sound.fds, ready_or_off sound)
