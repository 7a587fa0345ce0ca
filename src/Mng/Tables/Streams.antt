-- ===== src/Mng/Tables/Streams.antt =====
-- The octets of the path trace, which has no count, and of the statistics of a port.
use libpmc.Base.{ℕ, ◌^◌, ◌<◌, ◌≡◌, sym, true, false, List, [], ◌∷◌, ◌++◌, length, map, All, arith}
use libpmc.Wire.{proc_le64}
use libpmc.Wire.Codec.{Runs, Runs-bind, Runs-map, Runs-pure, concat, ReadsAll}
use libpmc.Wire.Values.{le64, le64-write, le64-read}
use libpmc.Types.{ClockIdentity, each, proc_clock_identity}
use libpmc.Types.Codecs.{
  ValidPort, port_octets, port-write, port-read, IsIdentity, identity-write, identity-read,
}
use libpmc.Types.Records.{vector_o-write}
use libpmc.Types.Loops.{vector_o-read}
use libpmc.Mng.Tables.{
  PortStatsNp, port_stats_np_f, fresh_port_stats_np, path_trace_list_f, max_message_types,
}

abbrev IsStatistic : ℕ → Type 0
IsStatistic v = v < 2 ^ 64

-- The arrays of a structure are read in place, whatever they held.
statistics-read :
    (ws vs : List ℕ)
    → length ws ≡ length vs
    → All IsStatistic vs
    → Runs false (each proc_le64 ws) (concat le64 vs) vs
unfolding each
statistics-read [] [] e h = Runs-pure []
statistics-read [] (v ∷ vs) e h = absurd (omega arith)
statistics-read (w ∷ ws) [] e h = absurd (omega arith)
statistics-read (w ∷ ws) (v ∷ vs) e h =
    Runs-bind _ (le64-read w v h.0) (Runs-map _ (statistics-read ws vs (omega arith) h.1))

statistics-write : (vs : List ℕ) → Runs true (each proc_le64 vs) (concat le64 vs) vs
unfolding each
statistics-write [] = Runs-pure []
statistics-write (v ∷ vs) = Runs-bind _ (le64-write v) (Runs-map _ (statistics-write vs))

pub record ValidStats (d : PortStatsNp) : Type 0 where
  pub port : ValidPort d.port_identity
  pub rx_size : length d.rx_msg_type ≡ max_message_types
  pub tx_size : length d.tx_msg_type ≡ max_message_types
  pub rx : All IsStatistic d.rx_msg_type
  pub tx : All IsStatistic d.tx_msg_type

abbrev pub stats_octets : PortStatsNp → List ℕ
stats_octets d =
    port_octets d.port_identity ++ (concat le64 d.rx_msg_type ++ concat le64 d.tx_msg_type)

pub port_stats_np-write :
    (d : PortStatsNp) → ValidStats d → Runs true (port_stats_np_f d) (stats_octets d) d
unfolding port_stats_np_f
port_stats_np-write d v =
    Runs-bind _ (port-write v.port)
      (Runs-bind _ (statistics-write d.rx_msg_type) (Runs-map _ (statistics-write d.tx_msg_type)))

pub port_stats_np-read :
    (d : PortStatsNp)
    → ValidStats d
    → Runs false (port_stats_np_f fresh_port_stats_np) (stats_octets d) d
unfolding port_stats_np_f
port_stats_np-read d v = Runs-bind _ (port-read _ v.port) (
    Runs-bind _ (statistics-read _ d.rx_msg_type (sym v.rx_size) v.rx)
      (Runs-map _ (statistics-read _ d.tx_msg_type (sym v.tx_size) v.tx)))

pub path_trace_list-write :
    (d : List ClockIdentity)
    → All IsIdentity d
    → Runs true (path_trace_list_f d) (concat (λ v. v) d) (map (λ v. v) d)
unfolding path_trace_list_f
path_trace_list-write d v =
    vector_o-write proc_clock_identity (λ v. v) (λ v. v) IsIdentity (λ x h. identity-write h) [] 8 d
      v

pub path_trace_list-read :
    (d : List ClockIdentity)
    → All IsIdentity d
    → ReadsAll (path_trace_list_f []) (concat (λ v. v) d) (map (λ v. v) d)
unfolding path_trace_list_f
path_trace_list-read d v = record {
  at = λ c dir room fits pad agree.
      vector_o-read proc_clock_identity (λ v. v) (λ v. v) IsIdentity [] 8 (omega arith)
        (λ x h. identity-read [] h) (λ x h. h) d c v dir room fits (omega arith) agree;
}
