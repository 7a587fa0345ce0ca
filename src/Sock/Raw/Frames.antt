-- ===== src/Sock/Raw/Frames.antt =====
-- The frames of SockRaw, sock.cpp: their header, the counts of what is sent and received, and the
-- descriptors of a second initialisation.
use libpmc.Base.{
  ℕ, ◌+◌, ◌≤◌, ◌≡◌, refl, sym, ap, ◌∙◌, Bool, true, false, ◌&&◌, ◌||◌, not, List, ◌∷◌, take, drop,
  length, length-take, [], if◌then◌else◌, some, ◌==◌, if_rule, Option, none, ◌≢◌, ◌-◌, length-drop,
  ltb, arith, if_no,
}
use libpmc.Base.Int.{pos, negsuc}
use libpmc.Sock.{World, sys_socket, recv_reply}
use libpmc.Sock.Ip.{System, has_value, bind_to_device, priority, attach_filter, add_membership}
use libpmc.Sock.Raw.{SockRaw, init_raw, opened_raw, configured_raw, rcv_raw, frame_reply, recv_msg}

-- A result that is no error comes from an initialised SockRaw with a descriptor and from a frame.
abbrev pub Received : ℕ → Option (List ℕ) → SockRaw → ℕ → List ℕ → Type 0
Received buf_size none s n got = ⊥
Received buf_size (some frame) s n got =
    (s.m_is_init ≡ true)
    × (s.m_fd ≢ none)
    × (n ≡ length (take (14 + buf_size) frame))
    × (got ≡ drop 14 (take (14 + buf_size) frame))
    × (length got ≤ buf_size)
    × (length got ≡ n - 14)

recv_reply-pos : (k room n : ℕ) → recv_reply (pos k) room ≡ pos n → n ≡ k
unfolding recv_reply
recv_reply-pos k room n =
    if_rule (λ z. z ≡ pos n → n ≡ k) (ltb room k) {x = negsuc 0} {y = pos k} (λ t e. absurd (cc e))
      (λ t e. cc e)

taken :
    (buf_size : ℕ) (fd : Option ℕ) (frame : Option (List ℕ)) (s : SockRaw) (n : ℕ) (got : List ℕ)
    → s.m_is_init ≡ true
    → s.m_fd ≡ fd
    → frame_reply buf_size (recv_msg fd (14 + buf_size) frame) ≡ (pos n, got)
    → Received buf_size frame s n got
unfolding frame_reply recv_msg
taken buf_size none none s n got on at e = cc e
taken buf_size (some fd) none s n got on at e = cc e
taken buf_size none (some frame) s n got on at e = absurd (cc e)
taken buf_size (some fd) (some frame) s n got on at e =
    let stored : List ℕ = take (14 + buf_size) frame in
    let count : n ≡ length stored =
      recv_reply-pos (length stored) (buf_size + 14) n (ap (λ p. p.0) e) in
    let rest : got ≡ drop 14 stored = sym (ap (λ p. p.1) e) in
    let size : length got ≡ length stored - 14 = ap length rest ∙ length-drop 14 stored in
    (
      on,
      (λ h. absurd (cc (h, at))),
      count,
      rest,
      omega (arith, size, length-take (14 + buf_size) frame),
      omega (arith, size, count),
    )

-- Whatever comes or fails, a result of rcvBase that is no error comes from an initialised SockRaw with a
-- descriptor, and is the count of the octets of the frame that fit the header and the buffer, while the
-- buffer has those behind the header: 14 less than the count, for a frame that is no shorter.
pub rcv_raw-Received :
    (buf_size : ℕ) (frame : Option (List ℕ)) (s : SockRaw) (n : ℕ) (got : List ℕ)
    → rcv_raw buf_size frame s ≡ (pos n, got)
    → Received buf_size frame s n got
unfolding rcv_raw
rcv_raw-Received buf_size frame s n got =
    if_rule (λ p. p ≡ (pos n, got) → Received buf_size frame s n got) s.m_is_init
      {x = frame_reply buf_size (recv_msg s.m_fd (14 + buf_size) frame)} {y = (negsuc 0, [])}
      (λ on. taken buf_size s.m_fd frame s n got on refl) (λ off e. absurd (cc e))

-- What initBase asks of the object.
record IsGiven (s : SockRaw) : Type 0 where
  off : s.m_is_init ≡ false
  has_if : s.m_have_if ≡ true
  has_mac : (length s.m_ptp_dst_mac == 0) ≡ false
  has_prio : has_value s.m_socket_priority ≡ true

init_raw-set :
    (sys : System) (s : SockRaw) (w : World)
    → IsGiven s
    → init_raw sys s w ≡ opened_raw sys.socket sys s (sys_socket sys.socket w)
unfolding init_raw
init_raw-set sys s w h =
    if_no
      (s.m_is_init
        || not s.m_have_if
        || length s.m_ptp_dst_mac == 0
        || not (has_value s.m_socket_priority))
      _ _ (ground (arith, h.off, h.has_if, h.has_mac, h.has_prio))

failed_if :
    {A : Type 0} (t : Bool) (x y : A × Bool)
    → x.1 ≡ true
    → (if t then x else y).1 ≡ false
    → (if t then x else y) ≡ y
failed_if true x y h k = absurd (cc (h, k))
failed_if false x y h k = refl

unready :
    (sys : System) (s : SockRaw)
    → (configured_raw sys s).1 ≡ false
    → configured_raw sys s ≡ (s, false)
unfolding configured_raw
unready sys s bad =
    failed_if
      (sys.bind
        && sys.setsockopt bind_to_device
        && sys.setsockopt priority
        && sys.setsockopt attach_filter
        && sys.setsockopt add_membership)
      _ _ refl bad

keeps_fd : (sys : System) (s : SockRaw) → (configured_raw sys s).0.m_fd ≡ s.m_fd
unfolding configured_raw
keeps_fd sys s = if_rule (λ (p : SockRaw × Bool). p.0.m_fd ≡ s.m_fd) _ (λ e. refl) (λ e. refl)

opened-fds :
    (sys : System) (s : SockRaw) (w : World) (b : ℕ)
    → IsGiven s
    → sys.socket ≡ some b
    → ((init_raw sys s w).1.open_fds ≡ b ∷ w.open_fds) × ((init_raw sys s w).0.0.m_fd ≡ some b)
opened-fds sys s w b h e =
    rw (init_raw-set sys s w h, e)
      (unfold opened_raw sys_socket in (refl, keeps_fd sys (record s { m_fd = some b })))

opened-failed :
    (sys : System) (s : SockRaw) (w : World) (a : ℕ)
    → IsGiven s
    → sys.socket ≡ some a
    → (init_raw sys s w).0.1 ≡ false
    → init_raw sys s w
      ≡ ((record s { m_fd = some a }, false), record w { open_fds = a ∷ w.open_fds })
opened-failed sys s w a h e failed =
    let given = init_raw-set sys s w h in
    let same : (init_raw sys s w).0.1 ≡ (configured_raw sys (record s { m_fd = some a })).1 =
      rw (given, e) (unfold opened_raw in refl) in
    let bad = sym same ∙ failed in
    rw (given, e)
      (unfold opened_raw sys_socket in rw (unready sys (record s { m_fd = some a }) bad) refl)

-- An initialisation that fails behind the call of socket, in bind or in any setsockopt, and a second one
-- that gets a descriptor leave both descriptors open, of which the object knows the second.
pub init_raw-twice :
    (first second : System) (s : SockRaw) (w : World) (a b : ℕ)
    → s.m_is_init ≡ false
    → s.m_have_if ≡ true
    → (length s.m_ptp_dst_mac == 0) ≡ false
    → has_value s.m_socket_priority ≡ true
    → first.socket ≡ some a
    → (init_raw first s w).0.1 ≡ false
    → second.socket ≡ some b
    → ((init_raw second (init_raw first s w).0.0 (init_raw first s w).1).1.open_fds
        ≡ b ∷ a ∷ w.open_fds)
      × ((init_raw second (init_raw first s w).0.0 (init_raw first s w).1).0.0.m_fd ≡ some b)
init_raw-twice first second s w a b off has_if has_mac has_prio sa failed sb =
    let set : IsGiven s = record {
      off = off;
      has_if = has_if;
      has_mac = has_mac;
      has_prio = has_prio;
    } in
    let again : IsGiven (record s { m_fd = some a }) = record {
      off = off;
      has_if = has_if;
      has_mac = has_mac;
      has_prio = has_prio;
    } in
    rw (opened-failed first s w a set sa failed) (
      opened-fds second (record s { m_fd = some a }) (record w { open_fds = a ∷ w.open_fds }) b
        again sb)
