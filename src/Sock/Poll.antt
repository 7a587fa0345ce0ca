-- ===== src/Sock/Poll.antt =====
-- The waits of sock.cpp: poll and tpoll. What select returns and the clock are arguments.
use libpmc.Base.{
  ℕ, ◌+◌, ◌-◌, ◌*◌, ◌/◌, ◌%◌, ◌^◌, ◌≤◌, ◌<◌, ◌≡◌, refl, ap, ◌∙◌, Bool, ◌&&◌, Option, none, some,
  ltb, if◌then◌else◌, arith, ◌⊎◌, inl, inr, Bool-cases,
}

-- timeval, with tv_usec below a million
pub record Timeval : Type 0 where
  pub tv_sec : ℕ
  pub tv_usec : ℕ

-- The time that select is given; none blocks.
unfoldable pub select_timeout : ℕ → Option Timeval
select_timeout timeout_ms =
    if ltb 0 timeout_ms
    then some (record { tv_sec = timeout_ms / 1000; tv_usec = timeout_ms % 1000 * 1000 })
    else none

-- What select returns: how many descriptors are ready, and whether m_fd is one of them.
unfoldable pub poll : ℕ → Bool → Bool
poll ready is_set = ltb 0 ready && is_set

-- timersub(now, start), with a borrow of a second where the microseconds are fewer. tv_sec is signed: a
-- negative one is written as the 64-bit word that it becomes in `pass`.
unfoldable pub timersub : Timeval → Timeval → Timeval
timersub now start =
    if ltb now.tv_usec start.tv_usec
    then record {
      tv_sec = (now.tv_sec + 2 ^ 64 - start.tv_sec - 1) % 2 ^ 64;
      tv_usec = now.tv_usec + 1000000 - start.tv_usec;
    }
    else record {
      tv_sec = (now.tv_sec + 2 ^ 64 - start.tv_sec) % 2 ^ 64;
      tv_usec = now.tv_usec - start.tv_usec;
    }

-- uint64_t pass
unfoldable pub passed : Timeval → ℕ
passed left = (left.tv_sec * 1000 + left.tv_usec / 1000) % 2 ^ 64

-- timeout_ms after tpoll
unfoldable pub timeout_left : Timeval → Timeval → ℕ → ℕ
timeout_left start now timeout_ms =
    if ltb 0 timeout_ms
    then (let pass = passed (timersub now start) in
        if ltb pass timeout_ms then timeout_ms - pass else 0)
    else timeout_ms

unfoldable pub tpoll : ℕ → Bool → Timeval → Timeval → ℕ → Bool × ℕ
tpoll ready is_set start now timeout_ms = (poll ready is_set, timeout_left start now timeout_ms)

-- A time in microseconds.
abbrev pub micros : Timeval → ℕ
micros t = t.tv_sec * 1000000 + t.tv_usec

abbrev pub IsTime : Timeval → Type 0
IsTime t = (t.tv_usec < 1000000) × (t.tv_sec < 2 ^ 53)

timersub-micros :
    (start now : Timeval)
    → IsTime start
    → IsTime now
    → micros start ≤ micros now
    → (micros (timersub now start) ≡ micros now - micros start)
      × ((timersub now start).tv_usec < 1000000)
      × ((timersub now start).tv_sec < 2 ^ 53)
unfolding timersub
timersub-micros start now hs hn order = ground arith

passed_lem : (t : Timeval) → t.tv_usec < 1000000 → t.tv_sec < 2 ^ 53 → passed t ≡ micros t / 1000
unfolding passed
passed_lem t small low = omega arith

left_lem :
    (start now : Timeval) (timeout_ms pass : ℕ)
    → passed (timersub now start) ≡ pass
    → timeout_left start now timeout_ms ≡ timeout_ms - pass
unfolding timeout_left
left_lem start now timeout_ms pass e = ground arith

timersub-back :
    (start now : Timeval)
    → IsTime start
    → IsTime now
    → micros now + 1000 ≤ micros start
    → 2 ^ 63 ≤ passed (timersub now start)
unfolding timersub passed
timersub-back start now hs hn back = ground arith

-- A clock that has gone back by a millisecond or more leaves no timeout, the value that blocks, of any
-- timeout below 2^63.
pub timeout_left-back :
    (start now : Timeval) (timeout_ms : ℕ)
    → IsTime start
    → IsTime now
    → micros now + 1000 ≤ micros start
    → timeout_ms < 2 ^ 63
    → timeout_left start now timeout_ms ≡ 0
timeout_left-back start now timeout_ms hs hn back small = omega (
  arith,
  left_lem start now timeout_ms (passed (timersub now start)) refl,
  timersub-back start now hs hn back,
)

select_lem :
    (timeout_ms : ℕ)
    → ((t : Timeval) × (select_timeout timeout_ms ≡ some t) × (micros t ≡ timeout_ms * 1000))
      ⊎ ((select_timeout timeout_ms ≡ none) × (timeout_ms ≡ 0))
unfolding select_timeout
select_lem timeout_ms = elim (Bool-cases (ltb 0 timeout_ms)) [
  | inl more ↦ inl (
    record { tv_sec = timeout_ms / 1000; tv_usec = timeout_ms % 1000 * 1000 },
    ground arith,
    omega arith,
  )
  | inr zero_ms ↦ inr (ground arith, ground arith)
]

-- For a clock that has not gone back, with seconds below 2^53, tpoll takes from the timeout the whole
-- milliseconds that passed, down to zero and never below, and a timeout of zero stays; what select is
-- given is the timeout to the microsecond, or for a timeout of zero no time, which blocks.
pub tpoll_lem :
    (ready : ℕ) (is_set : Bool) (start now : Timeval) (timeout_ms : ℕ)
    → IsTime start
    → IsTime now
    → micros start ≤ micros now
    → ((tpoll ready is_set start now timeout_ms).1
        ≡ timeout_ms - (micros now - micros start) / 1000)
      × (((t : Timeval) × (select_timeout timeout_ms ≡ some t) × (micros t ≡ timeout_ms * 1000))
          ⊎ ((select_timeout timeout_ms ≡ none) × (timeout_ms ≡ 0)))
unfolding tpoll
tpoll_lem ready is_set start now timeout_ms hs hn order =
    let sub = timersub-micros start now hs hn order in
    (
      left_lem start now timeout_ms _
          (passed_lem (timersub now start) sub.1 sub.2 ∙ ap (λ m. m / 1000) sub.0),
      select_lem timeout_ms,
    )
