-- ===== src/Ptp.antt =====
-- The network interface and the PTP clock, ptp.h and ptp.cpp: class IfInfo and class PtpClock. What the
-- calls of the system return are arguments; none is -1.
use libpmc.Base.{
  ℕ, ◌+◌, ◌-◌, ◌*◌, ◌≡◌, refl, sym, ◌∙◌, Bool, true, false, ◌||◌, List, [], ◌++◌, take, Option,
  none, some, ◌==◌, leb, if◌then◌else◌, if_rule, length, arith,
}
use libpmc.Base.Int.{ℤ, pos, negsuc}
use libpmc.Text.{codes, c_string}
use libpmc.Binary.{eui48}

pub record IfInfo : Type 0 where
  pub m_is_init : Bool
  pub m_if_index : ℤ
  pub m_ptp_index : ℤ
  pub m_if_name : List ℕ
  pub m_mac : List ℕ

unfoldable pub fresh_if : IfInfo
fresh_if = record {
  m_is_init = false;
  m_if_index = negsuc 0;
  m_ptp_index = negsuc 0;
  m_if_name = [];
  m_mac = [];
}

-- What the ioctl calls give: the octets of sa_data, the index of the PTP clock.
pub record Ioctl : Type 0 where
  pub hw_addr : Option (List ℕ)
  pub phc_index : Option ℤ

with_phc : Option ℤ → IfInfo → IfInfo × Bool × ℕ
with_phc none i = (i, false, 1)
with_phc (some index) i = (record i { m_ptp_index = index; m_is_init = true }, true, 1)

with_mac : Option (List ℕ) → Option ℤ → IfInfo → IfInfo × Bool × ℕ
unfolding with_phc
with_mac none phc_index i = (i, false, 1)
with_mac (some sa_data) phc_index i = with_phc phc_index (record i { m_mac = take eui48 sa_data })

-- IfInfo::initPtp: the object, the result, and how many descriptors it closes.
unfoldable pub init_ptp : Ioctl → IfInfo → IfInfo × Bool × ℕ
unfolding with_mac
init_ptp io i = with_mac io.hw_addr io.phc_index i

-- IFNAMSIZ
abbrev pub ifnamsiz : ℕ
ifnamsiz = 16

-- What the calls open less what they close.
abbrev pub balanced : IfInfo × Bool × ℕ → ℕ → IfInfo × Bool × ℕ
balanced (i, ok, closed) opened = (i, ok, opened - closed)

using_name : Option ℤ → Ioctl → List ℕ → IfInfo → IfInfo × Bool × ℕ
unfolding init_ptp
using_name none io if_name i = balanced (i, false, 1) 1
using_name (some n) io if_name i =
    balanced (init_ptp io (record i { m_if_name = if_name; m_if_index = n })) 1

-- initUsingName: the object, the result and the descriptors left open; `opens` is whether socket
-- succeeds, `index` the index that SIOCGIFINDEX gives.
unfoldable pub init_using_name : Bool → Option ℤ → Ioctl → List ℕ → IfInfo → IfInfo × Bool × ℕ
unfolding using_name
init_using_name opens index io if_name i =
    if i.m_is_init || length if_name == 0 || leb ifnamsiz (length if_name)
    then (i, false, 0)
    else if opens
    then using_name index io if_name i
    else (i, false, 0)

using_index : Option (List ℕ) → Ioctl → ℤ → IfInfo → IfInfo × Bool × ℕ
unfolding init_ptp
using_index none io if_index i = balanced (i, false, 1) 1
using_index (some n) io if_index i =
    balanced (init_ptp io (record i { m_if_name = c_string n; m_if_index = if_index })) 1

-- initUsingIndex, where `name` is the text that SIOCGIFNAME gives.
unfoldable pub init_using_index : Bool → Option (List ℕ) → Ioctl → ℤ → IfInfo → IfInfo × Bool × ℕ
unfolding using_index
init_using_index opens name io if_index i =
    if i.m_is_init
    then (i, false, 0)
    else if opens
    then using_index name io if_index i
    else (i, false, 0)

-- FD_TO_CLOCKID on a descriptor: ((~fd) << 3) | 3, which is -8 * fd - 5.
unfoldable pub get_clockid_fd : ℕ → ℤ
get_clockid_fd fd = negsuc (8 * fd + 4)

pub record PtpClock : Type 0 where
  pub m_fd : Option ℕ
  pub m_ptp_index : ℤ
  pub m_is_init : Bool
  pub m_clk_id : Option ℤ
  pub m_ptp_device : List ℕ

is_minus_one : ℤ → Bool
is_minus_one (pos n) = false
is_minus_one (negsuc n) = n == 0

-- PtpClock::PtpClock, with the text of the index and the descriptor that open returns
unfoldable pub ptp_clock : ℤ → List ℕ → Option ℕ → PtpClock
unfolding get_clockid_fd is_minus_one
ptp_clock index index_text none = record {
  m_fd = none;
  m_ptp_index = index;
  m_is_init = false;
  m_clk_id = none;
  m_ptp_device = [];
}
ptp_clock index index_text (some fd) =
    let id = get_clockid_fd fd in
    if is_minus_one id
    then record {
      m_fd = some fd;
      m_ptp_index = index;
      m_is_init = false;
      m_clk_id = some id;
      m_ptp_device = [];
    }
    else record {
      m_fd = some fd;
      m_ptp_index = index;
      m_is_init = true;
      m_clk_id = some id;
      m_ptp_device = codes "/dev/ptp" ++ index_text;
    }

-- A call leaves no descriptor open; it returns true exactly when it initialises the object; and an
-- initialised object stays as it is.
abbrev pub Fair : IfInfo → IfInfo × Bool × ℕ → Type 0
Fair i r =
    (r.2 ≡ 0)
    × (r.1 ≡ true → r.0.m_is_init ≡ true)
    × (r.1 ≡ false → r.0.m_is_init ≡ i.m_is_init)
    × (i.m_is_init ≡ true → (r.1 ≡ false) × (r.0 ≡ i))

refused-Fair : (i : IfInfo) → Fair i (i, false, 0)
refused-Fair i = (refl, λ e. absurd (cc e), λ e. refl, λ e. (refl, refl))

off_on : (i : IfInfo) {A : Type 0} → i.m_is_init ≡ false → i.m_is_init ≡ true → A
off_on i p q = absurd (ground arith)

with_phc-Fair :
    (phc : Option ℤ) (i j : IfInfo)
    → i.m_is_init ≡ false
    → j.m_is_init ≡ false
    → Fair i (balanced (with_phc phc j) 1)
unfolding with_phc
with_phc-Fair none i j off same_off =
    (refl, λ e. absurd (cc e), λ e. same_off ∙ sym off, λ e. off_on i off e)
with_phc-Fair (some n) i j off same_off = (refl, λ e. refl, λ e. absurd (cc e), λ e. off_on i off e)

with_mac-Fair :
    (mac : Option (List ℕ)) (phc : Option ℤ) (i j : IfInfo)
    → i.m_is_init ≡ false
    → j.m_is_init ≡ false
    → Fair i (balanced (with_mac mac phc j) 1)
unfolding with_mac
with_mac-Fair none phc i j off same_off =
    (refl, λ e. absurd (cc e), λ e. same_off ∙ sym off, λ e. off_on i off e)
with_mac-Fair (some sa_data) phc i j off same_off =
    with_phc-Fair phc i (record j { m_mac = take eui48 sa_data }) off same_off

using_name-Fair :
    (index : Option ℤ) (io : Ioctl) (if_name : List ℕ) (i : IfInfo)
    → i.m_is_init ≡ false
    → Fair i (using_name index io if_name i)
unfolding using_name
using_name-Fair none io if_name i off = refused-Fair i
using_name-Fair (some n) io if_name i off =
    unfold init_ptp in
    with_mac-Fair io.hw_addr io.phc_index i (record i { m_if_name = if_name; m_if_index = n }) off
      off

using_index-Fair :
    (name : Option (List ℕ)) (io : Ioctl) (if_index : ℤ) (i : IfInfo)
    → i.m_is_init ≡ false
    → Fair i (using_index name io if_index i)
unfolding using_index
using_index-Fair none io if_index i off = refused-Fair i
using_index-Fair (some n) io if_index i off =
    unfold init_ptp in
    with_mac-Fair io.hw_addr io.phc_index i
      (record i { m_if_name = c_string n; m_if_index = if_index }) off off

-- Whatever the system answers, initUsingName and initUsingIndex leave no descriptor open, initialise
-- the object when they return true, do not when they return false, and refuse an initialised object,
-- which they leave as it is.
pub init-Fair :
    (opens : Bool) (index : Option ℤ) (name : Option (List ℕ)) (io : Ioctl) (if_name : List ℕ)
    (if_index : ℤ) (i : IfInfo)
    → Fair i (init_using_name opens index io if_name i)
      × Fair i (init_using_index opens name io if_index i)
unfolding init_using_name init_using_index
init-Fair opens index name io if_name if_index i = (
  if_rule (Fair i) (i.m_is_init || length if_name == 0 || leb ifnamsiz (length if_name))
      (λ e. refused-Fair i)
      (λ e.
        if_rule (Fair i) opens (λ f. using_name-Fair index io if_name i (ground arith))
          (λ f. refused-Fair i)),
  if_rule (Fair i) i.m_is_init (λ e. refused-Fair i)
      (λ e.
        if_rule (Fair i) opens (λ f. using_index-Fair name io if_index i e) (λ f. refused-Fair i)),
)
