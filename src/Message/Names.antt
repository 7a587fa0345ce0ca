-- ===== src/Message/Names.antt =====
-- The names of the values of messages, the functions of msg.cpp that end in 2str_c: each a table from
-- the value of an enum to its name, and a name for the other values.
use libpmc.Base.{ℕ, List, [], ◌∷◌, ◌==◌, ltb, if◌then◌else◌}
use libpmc.Text.{codes}

abbrev pub Table : Type 0
Table = List (ℕ × List ℕ)

-- The switch over a table, with what its default returns.
unfoldable pub name_of : Table → List ℕ → ℕ → List ℕ
name_of [] default v = default
name_of ((n, name) ∷ rows) default v = if v == n then name else name_of rows default v

unfoldable pub err2str_rows : Table
err2str_rows =
    (0, codes "MNG_PARSE_ERROR_OK")
    ∷ (1, codes "MNG_PARSE_ERROR_MSG")
    ∷ (3, codes "MNG_PARSE_ERROR_INVALID_ID")
    ∷ (4, codes "MNG_PARSE_ERROR_INVALID_TLV")
    ∷ (5, codes "MNG_PARSE_ERROR_SIZE_MISS")
    ∷ (6, codes "MNG_PARSE_ERROR_TOO_SMALL")
    ∷ (7, codes "MNG_PARSE_ERROR_SIZE")
    ∷ (8, codes "MNG_PARSE_ERROR_VAL")
    ∷ (9, codes "MNG_PARSE_ERROR_HEADER")
    ∷ (10, codes "MNG_PARSE_ERROR_ACTION")
    ∷ (11, codes "MNG_PARSE_ERROR_UNSUPPORT")
    ∷ (12, codes "MNG_PARSE_ERROR_MEM")
    ∷ []

unfoldable pub err2str : ℕ → List ℕ
unfolding err2str_rows name_of
err2str v = name_of err2str_rows (codes "unknown") v

unfoldable pub tlv2str_rows : Table
tlv2str_rows =
    (1, codes "MANAGEMENT")
    ∷ (2, codes "MANAGEMENT_ERROR_STATUS")
    ∷ (3, codes "ORGANIZATION_EXTENSION")
    ∷ (4, codes "REQUEST_UNICAST_TRANSMISSION")
    ∷ (5, codes "GRANT_UNICAST_TRANSMISSION")
    ∷ (6, codes "CANCEL_UNICAST_TRANSMISSION")
    ∷ (7, codes "ACKNOWLEDGE_CANCEL_UNICAST_TRANSMISSION")
    ∷ (8, codes "PATH_TRACE")
    ∷ (9, codes "ALTERNATE_TIME_OFFSET_INDICATOR")
    ∷ (16384, codes "ORGANIZATION_EXTENSION_PROPAGATE")
    ∷ (16385, codes "ENHANCED_ACCURACY_METRICS")
    ∷ (32768, codes "ORGANIZATION_EXTENSION_DO_NOT_PROPAGATE")
    ∷ (32769, codes "L1_SYNC")
    ∷ (32770, codes "PORT_COMMUNICATION_AVAILABILITY")
    ∷ (32771, codes "PROTOCOL_ADDRESS")
    ∷ (32772, codes "SLAVE_RX_SYNC_TIMING_DATA")
    ∷ (32773, codes "SLAVE_RX_SYNC_COMPUTED_DATA")
    ∷ (32774, codes "SLAVE_TX_EVENT_TIMESTAMPS")
    ∷ (32775, codes "CUMULATIVE_RATE_RATIO")
    ∷ (32777, codes "AUTHENTICATION")
    ∷ (32512, codes "SLAVE_DELAY_TIMING_DATA_NP")
    ∷ (32776, codes "PAD")
    ∷ []

unfoldable pub tlv2str : ℕ → List ℕ
unfolding tlv2str_rows name_of
tlv2str v = name_of tlv2str_rows (codes "unknown TLV") v

unfoldable pub act2str_rows : Table
act2str_rows =
    (0, codes "GET")
    ∷ (1, codes "SET")
    ∷ (2, codes "RESPONSE")
    ∷ (3, codes "COMMAND")
    ∷ (4, codes "ACKNOWLEDGE")
    ∷ []

unfoldable pub act2str : ℕ → List ℕ
unfolding act2str_rows name_of
act2str v = name_of act2str_rows (codes "unknown") v

unfoldable pub err_id2str_rows : Table
err_id2str_rows =
    (1, codes "RESPONSE_TOO_BIG")
    ∷ (2, codes "NO_SUCH_ID")
    ∷ (3, codes "WRONG_LENGTH")
    ∷ (4, codes "WRONG_VALUE")
    ∷ (5, codes "NOT_SETABLE")
    ∷ (6, codes "NOT_SUPPORTED")
    ∷ (65534, codes "GENERAL_ERROR")
    ∷ []

unfoldable pub err_id2str : ℕ → List ℕ
unfolding err_id2str_rows name_of
err_id2str v = name_of err_id2str_rows (codes "unknown") v

unfoldable pub clk_type2str_rows : Table
clk_type2str_rows =
    (32768, codes "ordinaryClock")
    ∷ (16384, codes "boundaryClock")
    ∷ (8192, codes "p2pTransparentClock")
    ∷ (4096, codes "e2eTransparentClock")
    ∷ (2048, codes "managementClock")
    ∷ []

unfoldable pub clk_type2str : ℕ → List ℕ
unfolding clk_type2str_rows name_of
clk_type2str v = name_of clk_type2str_rows (codes "unknown") v

unfoldable pub net_prot2str_rows : Table
net_prot2str_rows =
    (1, codes "UDP_IPv4")
    ∷ (2, codes "UDP_IPv6")
    ∷ (3, codes "IEEE_802_3")
    ∷ (4, codes "DeviceNet")
    ∷ (5, codes "ControlNet")
    ∷ (6, codes "PROFINET")
    ∷ []

unfoldable pub net_prot2str : ℕ → List ℕ
unfolding net_prot2str_rows name_of
net_prot2str v = name_of net_prot2str_rows (codes "unknown") v

unfoldable pub clock_acc2str_rows : Table
clock_acc2str_rows =
    (23, codes "Accurate_within_1ps")
    ∷ (24, codes "Accurate_within_2_5ps")
    ∷ (25, codes "Accurate_within_10ps")
    ∷ (26, codes "Accurate_within_25ps")
    ∷ (27, codes "Accurate_within_100ps")
    ∷ (28, codes "Accurate_within_250ps")
    ∷ (29, codes "Accurate_within_1ns")
    ∷ (30, codes "Accurate_within_2_5ns")
    ∷ (31, codes "Accurate_within_10ns")
    ∷ (32, codes "Accurate_within_25ns")
    ∷ (33, codes "Accurate_within_100ns")
    ∷ (34, codes "Accurate_within_250ns")
    ∷ (35, codes "Accurate_within_1us")
    ∷ (36, codes "Accurate_within_2_5us")
    ∷ (37, codes "Accurate_within_10us")
    ∷ (38, codes "Accurate_within_25us")
    ∷ (39, codes "Accurate_within_100us")
    ∷ (40, codes "Accurate_within_250us")
    ∷ (41, codes "Accurate_within_1ms")
    ∷ (42, codes "Accurate_within_2_5ms")
    ∷ (43, codes "Accurate_within_10ms")
    ∷ (44, codes "Accurate_within_25ms")
    ∷ (45, codes "Accurate_within_100ms")
    ∷ (46, codes "Accurate_within_250ms")
    ∷ (47, codes "Accurate_within_1s")
    ∷ (48, codes "Accurate_within_10s")
    ∷ (49, codes "Accurate_more_10s")
    ∷ (239, codes "Accurate_Unknown")
    ∷ []

unfoldable pub clock_acc2str : ℕ → List ℕ
unfolding clock_acc2str_rows name_of
clock_acc2str v =
    name_of clock_acc2str_rows (if ltb v 23 then codes "small 1ps" else codes "unknown val") v

unfoldable pub fault_rec2str_rows : Table
fault_rec2str_rows =
    (0, codes "Emergency")
    ∷ (1, codes "Alert")
    ∷ (2, codes "Critical")
    ∷ (3, codes "Error")
    ∷ (4, codes "Warning")
    ∷ (5, codes "Notice")
    ∷ (6, codes "Informational")
    ∷ (7, codes "Debug")
    ∷ []

unfoldable pub fault_rec2str : ℕ → List ℕ
unfolding fault_rec2str_rows name_of
fault_rec2str v = name_of fault_rec2str_rows (codes "unknown fault record") v

unfoldable pub time_src2str_rows : Table
time_src2str_rows =
    (16, codes "ATOMIC_CLOCK")
    ∷ (32, codes "GNSS")
    ∷ (48, codes "TERRESTRIAL_RADIO")
    ∷ (57, codes "SERIAL_TIME_CODE")
    ∷ (64, codes "PTP")
    ∷ (80, codes "NTP")
    ∷ (96, codes "HAND_SET")
    ∷ (144, codes "OTHER")
    ∷ (160, codes "INTERNAL_OSCILLATOR")
    ∷ []

unfoldable pub time_src2str : ℕ → List ℕ
unfolding time_src2str_rows name_of
time_src2str v = name_of time_src2str_rows (codes "unknown clock") v

unfoldable pub port_state2str_rows : Table
port_state2str_rows =
    (1, codes "INITIALIZING")
    ∷ (2, codes "FAULTY")
    ∷ (3, codes "DISABLED")
    ∷ (4, codes "LISTENING")
    ∷ (5, codes "PRE_MASTER")
    ∷ (6, codes "MASTER")
    ∷ (7, codes "PASSIVE")
    ∷ (8, codes "UNCALIBRATED")
    ∷ (9, codes "CLIENT")
    ∷ []

unfoldable pub port_state2str : ℕ → List ℕ
unfolding port_state2str_rows name_of
port_state2str v = name_of port_state2str_rows (codes "unknown state") v

unfoldable pub ts2str_rows : Table
ts2str_rows =
    (0, codes "TS_SOFTWARE")
    ∷ (1, codes "TS_HARDWARE")
    ∷ (2, codes "TS_LEGACY_HW")
    ∷ (3, codes "TS_ONESTEP")
    ∷ (4, codes "TS_P2P1STEP")
    ∷ []

unfoldable pub ts2str : ℕ → List ℕ
unfolding ts2str_rows name_of
ts2str v = name_of ts2str_rows (codes "unknown") v
