-- ===== src/Mng/DataSets/PortCodecs.antt =====
-- The octets of the data sets of a port and of a transparent clock, and that the functions write and
-- read exactly those.
use libpmc.Base.{ℕ, ◌^◌, ◌<◌, true, false, List, ◌++◌, arith}
use libpmc.Base.Int.{InWord}
use libpmc.Wire.{net}
use libpmc.Wire.Codec.{Runs, Runs-bind, Runs-map}
use libpmc.Wire.Values.{net_int, u8-write, u8-read, u16-write, u16-read, i8-write, i8-read}
use libpmc.Types.{masked}
use libpmc.Types.Codecs.{
  masked-lt, flags-write, flags-read, identity-write, identity-read, port-write, port-read,
  interval-write, interval-read, port_octets, ValidPort, IsIdentity,
}
use libpmc.Mng.DataSets.{
  PortDataSet, port_data_set_f, TransparentClockPortDataSet, transparent_clock_port_data_set_f,
  TransparentClockDefaultDataSet, transparent_clock_default_data_set_f, ExtPortConfigPortDataSet,
  ext_port_config_port_data_set_f,
}

pub record ValidPortDataSet (d : PortDataSet) : Type 0 where
  pub port_identity : ValidPort d.port_identity
  pub port_state : d.port_state < 256
  pub log_min_delay_req_interval : InWord 256 d.log_min_delay_req_interval
  pub peer_mean_path_delay : InWord (2 ^ 64) d.peer_mean_path_delay
  pub log_announce_interval : InWord 256 d.log_announce_interval
  pub announce_receipt_timeout : d.announce_receipt_timeout < 256
  pub log_sync_interval : InWord 256 d.log_sync_interval
  pub delay_mechanism : d.delay_mechanism < 256
  pub log_min_pdelay_req_interval : InWord 256 d.log_min_pdelay_req_interval
  pub version_number : d.version_number < 256

abbrev pub port_data_set_octets : PortDataSet → List ℕ
port_data_set_octets d =
    port_octets d.port_identity
    ++ (net 1 d.port_state
        ++ (net_int 1 d.log_min_delay_req_interval
            ++ (net_int 8 d.peer_mean_path_delay
                ++ (net_int 1 d.log_announce_interval
                    ++ (net 1 d.announce_receipt_timeout
                        ++ (net_int 1 d.log_sync_interval
                            ++ (net 1 d.delay_mechanism
                                ++ (net_int 1 d.log_min_pdelay_req_interval
                                    ++ (net 1 d.version_number)))))))))

pub port_data_set-write :
    (d : PortDataSet)
    → ValidPortDataSet d
    → Runs true (port_data_set_f d) (port_data_set_octets d) d
unfolding port_data_set_f
port_data_set-write d v = Runs-bind _ (port-write v.port_identity) (
    Runs-bind _ u8-write (
      Runs-bind _ i8-write (
        Runs-bind _ interval-write (
          Runs-bind _ i8-write (
            Runs-bind _ u8-write (
              Runs-bind _ i8-write
                (Runs-bind _ u8-write (Runs-bind _ i8-write (Runs-map _ u8-write)))))))))

pub port_data_set-read :
    (w d : PortDataSet)
    → ValidPortDataSet d
    → Runs false (port_data_set_f w) (port_data_set_octets d) d
unfolding port_data_set_f
port_data_set-read w d v = Runs-bind _ (port-read _ v.port_identity) (
    Runs-bind _ (u8-read _ v.port_state) (
      Runs-bind _ (i8-read _ v.log_min_delay_req_interval) (
        Runs-bind _ (interval-read _ v.peer_mean_path_delay) (
          Runs-bind _ (i8-read _ v.log_announce_interval) (
            Runs-bind _ (u8-read _ v.announce_receipt_timeout) (
              Runs-bind _ (i8-read _ v.log_sync_interval) (
                Runs-bind _ (u8-read _ v.delay_mechanism) (
                  Runs-bind _ (i8-read _ v.log_min_pdelay_req_interval)
                    (Runs-map _ (u8-read _ v.version_number))))))))))

pub record ValidTransparentClockPortDataSet (d : TransparentClockPortDataSet) : Type 0 where
  pub port_identity : ValidPort d.port_identity
  pub flags : d.flags < 256
  pub log_min_pdelay_req_interval : InWord 256 d.log_min_pdelay_req_interval
  pub peer_mean_path_delay : InWord (2 ^ 64) d.peer_mean_path_delay

abbrev pub sent_transparent_clock_port_data_set :
    TransparentClockPortDataSet → TransparentClockPortDataSet
sent_transparent_clock_port_data_set d = record d { flags = masked 0x1 d.flags }

abbrev pub transparent_clock_port_data_set_octets : TransparentClockPortDataSet → List ℕ
transparent_clock_port_data_set_octets d =
    port_octets d.port_identity
    ++ (net 1 (masked 0x1 d.flags)
        ++ (net_int 1 d.log_min_pdelay_req_interval ++ (net_int 8 d.peer_mean_path_delay)))

pub transparent_clock_port_data_set-write :
    (d : TransparentClockPortDataSet)
    → ValidTransparentClockPortDataSet d
    → Runs true
        (transparent_clock_port_data_set_f d)
        (transparent_clock_port_data_set_octets d)
        (sent_transparent_clock_port_data_set d)
unfolding transparent_clock_port_data_set_f
transparent_clock_port_data_set-write d v =
    Runs-bind _ (port-write v.port_identity)
      (Runs-bind _ (flags-write 0x1 _) (Runs-bind _ i8-write (Runs-map _ interval-write)))

pub transparent_clock_port_data_set-read :
    (w d : TransparentClockPortDataSet)
    → ValidTransparentClockPortDataSet d
    → Runs false
        (transparent_clock_port_data_set_f w)
        (transparent_clock_port_data_set_octets d)
        (sent_transparent_clock_port_data_set d)
unfolding transparent_clock_port_data_set_f
transparent_clock_port_data_set-read w d v = Runs-bind _ (port-read _ v.port_identity) (
    Runs-bind _ (flags-read 0x1 _ (masked-lt 0x1 _ (omega arith) v.flags)) (
      Runs-bind _ (i8-read _ v.log_min_pdelay_req_interval)
        (Runs-map _ (interval-read _ v.peer_mean_path_delay))))

pub record ValidTransparentClockDefaultDataSet (d : TransparentClockDefaultDataSet) : Type 0 where
  pub clock_identity : IsIdentity d.clock_identity
  pub number_ports : d.number_ports < 2 ^ 16
  pub delay_mechanism : d.delay_mechanism < 256
  pub primary_domain : d.primary_domain < 256

abbrev pub transparent_clock_default_data_set_octets : TransparentClockDefaultDataSet → List ℕ
transparent_clock_default_data_set_octets d =
    d.clock_identity
    ++ (net 2 d.number_ports ++ (net 1 d.delay_mechanism ++ (net 1 d.primary_domain)))

pub transparent_clock_default_data_set-write :
    (d : TransparentClockDefaultDataSet)
    → ValidTransparentClockDefaultDataSet d
    → Runs true
        (transparent_clock_default_data_set_f d)
        (transparent_clock_default_data_set_octets d)
        d
unfolding transparent_clock_default_data_set_f
transparent_clock_default_data_set-write d v =
    Runs-bind _ (identity-write v.clock_identity)
      (Runs-bind _ u16-write (Runs-bind _ u8-write (Runs-map _ u8-write)))

pub transparent_clock_default_data_set-read :
    (w d : TransparentClockDefaultDataSet)
    → ValidTransparentClockDefaultDataSet d
    → Runs false
        (transparent_clock_default_data_set_f w)
        (transparent_clock_default_data_set_octets d)
        d
unfolding transparent_clock_default_data_set_f
transparent_clock_default_data_set-read w d v = Runs-bind _ (identity-read _ v.clock_identity) (
    Runs-bind _ (u16-read _ v.number_ports)
      (Runs-bind _ (u8-read _ v.delay_mechanism) (Runs-map _ (u8-read _ v.primary_domain))))

pub record ValidExtPortConfigPortDataSet (d : ExtPortConfigPortDataSet) : Type 0 where
  pub flags : d.flags < 256
  pub desired_state : d.desired_state < 256

abbrev pub sent_ext_port_config_port_data_set : ExtPortConfigPortDataSet → ExtPortConfigPortDataSet
sent_ext_port_config_port_data_set d = record d { flags = masked 0x1 d.flags }

abbrev pub ext_port_config_port_data_set_octets : ExtPortConfigPortDataSet → List ℕ
ext_port_config_port_data_set_octets d = net 1 (masked 0x1 d.flags) ++ (net 1 d.desired_state)

pub ext_port_config_port_data_set-write :
    (d : ExtPortConfigPortDataSet)
    → ValidExtPortConfigPortDataSet d
    → Runs true
        (ext_port_config_port_data_set_f d)
        (ext_port_config_port_data_set_octets d)
        (sent_ext_port_config_port_data_set d)
unfolding ext_port_config_port_data_set_f
ext_port_config_port_data_set-write d v = Runs-bind _ (flags-write 0x1 _) (Runs-map _ u8-write)

pub ext_port_config_port_data_set-read :
    (w d : ExtPortConfigPortDataSet)
    → ValidExtPortConfigPortDataSet d
    → Runs false
        (ext_port_config_port_data_set_f w)
        (ext_port_config_port_data_set_octets d)
        (sent_ext_port_config_port_data_set d)
unfolding ext_port_config_port_data_set_f
ext_port_config_port_data_set-read w d v =
    Runs-bind _ (flags-read 0x1 _ (masked-lt 0x1 _ (omega arith) v.flags))
      (Runs-map _ (u8-read _ v.desired_state))
